-- ===== src/Plots/Measured.antt =====
-- scripts/make_plot.py and scripts/sim_traffic.go: from the requests of a test to what the script reads.
use k8_p2p_failover_poc.Prelude.{
  ℕ, ◌+◌, ◌*◌, ◌≡◌, refl, sym, ap, ◌∙◌, subst, ℤ, ◌-ℤ◌, false, Option, some, List, [], ◌∷◌, ◌++◌,
  map, drop, arith, All, All-IsProp, All-Perm, Bool-cases, Option-cases, inl, inr,
}
use mathlib.Core.List.{Perm}
use mathlib.Core.List.Perm
use k8_p2p_failover_poc.Traffic.{
  Text, is_empty, RequestStats, TestData, Server, call, init_stats_container, stop_request,
  stop_requests, stop_test_data, start_ns_test, parse_server_msg_values, run_cycles, init_test_data,
}
use native.Mathlib.Nat.{zero-mul}
use k8_p2p_failover_poc.Traffic.Requests.{numbers, run_cycles-map}
use k8_p2p_failover_poc.Traffic.Accounts.{call-answered, stop_request-answered}
use k8_p2p_failover_poc.Traffic.Message.{Lacks}
use k8_p2p_failover_poc.Traffic.Listing.{decimal}
use k8_p2p_failover_poc.Traffic.Report.{test_lines, main_output}
use k8_p2p_failover_poc.Plots.{is_bracket, get_values}
use k8_p2p_failover_poc.Plots.Reading.{IsListed, points}
use k8_p2p_failover_poc.Plots.Output.{IsFront, IsPlain, printed, get_values-main_output}

Lacks-IsProp : (sep : ℕ) (s : Text) → IsProp (Lacks sep s)
Lacks-IsProp sep s = All-IsProp (λ c. hlevel) s

bare-IsProp : (s : Text) → IsProp (All (λ c. is_bracket c ≡ false) s)
bare-IsProp s = All-IsProp (λ c. hlevel) s

IsListed-IsProp : (r : RequestStats) → IsProp (IsListed r)
IsListed-IsProp r =
    hlevel (Lacks-IsProp b',' r.cluster, Lacks-IsProp 10 r.cluster, bare-IsProp r.cluster)

-- A cluster that can stand in the table and be read back.
abbrev pub IsName : Text → Type 0
IsName c = Lacks b',' c × Lacks 10 c × All (λ c. is_bracket c ≡ false) c

-- Each text that is not empty gives such a cluster and a host.
abbrev pub IsNamed : Server → Type 0
IsNamed s =
    (id : ℕ) (at : ℤ) (body : Text)
    → s.answer id ≡ some (at, body)
    → is_empty body ≡ false
    → (cluster hostname : Text) × (values : List Text) × (parse_server_msg_values body
        ≡ some (cluster ∷ hostname ∷ values))
      × IsName cluster

nameless-IsListed : (r : RequestStats) → r.cluster ≡ [] → IsListed r
nameless-IsListed r e = record {
  comma = subst (Lacks b',') (sym e) tt;
  newline = subst (Lacks 10) (sym e) tt;
  bare = subst (All (λ c. is_bracket c ≡ false)) (sym e) tt;
  failed = λ f. e;
}

stop_request-IsListed :
    (s : Server) (id : ℕ)
    → IsNamed s
    → (k : ℕ) × (r : RequestStats) × (stop_request (call s id) ≡ some (k, r)) × IsListed r
unfolding stop_request call init_stats_container
stop_request-IsListed s id h = elim (Option-cases (s.answer id)) [
  | inl e ↦ (1, call s id, rw (call, e) refl, nameless-IsListed (call s id) (rw (call, e) refl))
  | inr ((at, body), e) ↦ elim (Bool-cases (is_empty body)) [
    | inl f ↦
        (1, call s id, rw (call, e, f) refl, nameless-IsListed (call s id) (rw (call, e) refl))
    | inr f ↦
        let (cluster, hostname, values, g, n) = h id at body e f in
        (
          0,
          record (init_stats_container (s.sent_at id) id) {
            resp_time = at;
            response = body;
            cluster = cluster;
            hostname = hostname;
            elapsed_time = at -ℤ s.sent_at id;
          },
          ap stop_request (call-answered s id at body e)
              ∙ stop_request-answered _ cluster hostname values f g,
          record {
            comma = n.0;
            newline = n.1;
            bare = n.2;
            failed = λ t. absurd (ground (arith, t, f));
          },
        )
  ]
]

stop_requests-IsListed :
    (s : Server) (ks : List ℕ)
    → IsNamed s
    → (k : ℕ) × (rs : List RequestStats) × (stop_requests (map (call s) ks) ≡ some (k, rs))
      × All IsListed rs
unfolding stop_requests
stop_requests-IsListed s [] h = (0, [], refl, tt)
stop_requests-IsListed s (id ∷ ks) h =
    let (k, r, e, l) = stop_request-IsListed s id h in
    let (more, rs, f, ls) = stop_requests-IsListed s ks h in
    (k + more, r ∷ rs, rw (stop_requests, e, f) refl, (l, ls))

-- A server whose answers that are not empty name a cluster that can stand in the table is tested, in any
-- order of equal times. If numbers are read as they are printed, the time of the test is written with
-- neither an `L` nor the end of a line, no line that `startNSTest` prints holds the marker, and the cluster
-- that is looked for has a name, then the test ends, the script reads all that it prints without an error,
-- and gets the number and the time of each request but the first that this cluster answered in no more
-- than the bound, in order.
pub start_ns_test-measured :
    (order : List RequestStats → List RequestStats) (s : Server) (start stop : ℤ) (cycles hz : ℕ)
    (int : Text → Option ℤ) (bound : ℤ) (loc : Text) (show_duration : ℤ → Text) (ip port : Text)
    → ((rs : List RequestStats) → Perm (order rs) rs)
    → IsNamed s
    → ((a : ℤ) → int (decimal a) ≡ some a)
    → is_empty loc ≡ false
    → All IsPlain (show_duration (stop -ℤ start))
    → All IsFront (test_lines ip port cycles hz)
    → (td : TestData) × (start_ns_test order s start stop cycles hz ≡ some td)
      × (get_values int bound loc
            (printed (test_lines ip port cycles hz) ++ main_output show_duration td)
          ≡ some (points bound loc (drop 1 td.requests)))
unfolding start_ns_test stop_test_data init_test_data
start_ns_test-measured order s start stop cycles hz int bound loc show_duration ip port perm h reads
      named plain before =
    let (k, rs, e, ls) = stop_requests-IsListed s (numbers 0 (cycles * hz)) h in
    let run : run_cycles s hz 0 cycles ≡ map (call s) (numbers 0 (cycles * hz)) =
      run_cycles-map s hz 0 cycles
      ∙ ap (λ x. map (call s) (numbers x (cycles * hz))) (zero-mul hz) in
    let td : TestData = record (init_test_data cycles hz) {
      start_time = start;
      stop_time = some stop;
      duration = stop -ℤ start;
      failed_requests = 0 + k;
      requests = order rs;
    } in
    let listed = All-Perm IsListed IsListed-IsProp (Perm.symm (perm rs)) ls in
    (
      td,
      rw (run, stop_test_data, e) refl,
      get_values-main_output int bound loc show_duration ip port td stop reads named refl plain
          before listed,
    )
