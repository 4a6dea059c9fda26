-- ===== src/Traffic/Accounts.antt =====
-- scripts/sim_traffic.go: `startNSTest` from its first request to the summary.
use k8_p2p_failover_poc.Prelude.{
  ℕ, zero, suc, ◌+◌, ◌*◌, ◌≤◌, ℤ, ◌-ℤ◌, ◌≡◌, refl, ap, ◌∙◌, subst, false, none, some, List, [], ◌∷◌,
  map, arith, Bool-cases, Option-cases, inl, inr, if◌then◌else◌,
}
use mathlib.Core.List.{Perm}
use mathlib.Core.List.Perm
use native.Mathlib.Nat.{zero-mul}
use k8_p2p_failover_poc.Traffic.{
  Text, is_empty, RequestStats, TestData, Server, init_stats_container, init_test_data,
  parse_server_msg_values, stop_request, stop_requests, stop_test_data, call, run_cycles,
  start_ns_test, get_summary,
}
use k8_p2p_failover_poc.Traffic.Requests.{numbers, run_cycles-map}

-- Every text that the server answers with is empty, or has two values and more.
abbrev pub IsReadable : Server → Type 0
IsReadable s =
    (id : ℕ) (at : ℤ) (body : Text)
    → s.answer id ≡ some (at, body)
    → is_empty body ≡ false
    → (cluster hostname : Text) × (values : List Text) × (parse_server_msg_values body
        ≡ some (cluster ∷ hostname ∷ values))

-- Whether the request with this id comes back with no text, as a number.
abbrev pub silence : Server → ℕ → ℕ
silence s id = elim (s.answer id) [ none ↦ 1 | some (at, body) ↦ if is_empty body then 1 else 0 ]

abbrev pub unanswered : Server → List ℕ → ℕ
unanswered s [] = 0
unanswered s (id ∷ more) = silence s id + unanswered s more

pub call-answered :
    (s : Server) (id : ℕ) (at : ℤ) (body : Text)
    → s.answer id ≡ some (at, body)
    → call s id
      ≡ record (init_stats_container (s.sent_at id) id) { resp_time = at; response = body }
unfolding call
call-answered s id at body e = rw (call, e) refl

pub stop_request-answered :
    (r : RequestStats) (cluster hostname : Text) (values : List Text)
    → is_empty r.response ≡ false
    → parse_server_msg_values r.response ≡ some (cluster ∷ hostname ∷ values)
    → stop_request r
      ≡ some (
        0,
        record r {
          cluster = cluster;
          hostname = hostname;
          elapsed_time = r.resp_time -ℤ r.sent_time;
        },
      )
unfolding stop_request
stop_request-answered r cluster hostname values e f = rw (e, f) refl

stop_request-call :
    (s : Server) (id : ℕ)
    → IsReadable s
    → (r : RequestStats) × (stop_request (call s id) ≡ some (silence s id, r)) × (r.request_id ≡ id)
unfolding stop_request call init_stats_container
stop_request-call s id h = elim (Option-cases (s.answer id)) [
  | inl e ↦ (call s id, rw (call, silence, e) refl, rw (call, e) refl)
  | inr ((at, body), e) ↦ elim (Bool-cases (is_empty body)) [
    | inl f ↦ (call s id, rw (call, silence, e, f) refl, rw (call, e) refl)
    | inr f ↦
        let (cluster, hostname, values, g) = h id at body e f in
        (
          record (init_stats_container (s.sent_at id) id) {
            resp_time = at;
            response = body;
            cluster = cluster;
            hostname = hostname;
            elapsed_time = at -ℤ s.sent_at id;
          },
          ap stop_request (call-answered s id at body e)
              ∙ stop_request-answered _ cluster hostname values f g
              ∙ rw (silence, e, f) refl,
          refl,
        )
  ]
]

stop_requests-map :
    (s : Server) (ks : List ℕ)
    → IsReadable s
    → (rs : List RequestStats) × (stop_requests (map (call s) ks) ≡ some (unanswered s ks, rs))
      × (map (λ r. r.request_id) rs ≡ ks)
unfolding stop_requests
stop_requests-map s [] h = ([], refl, refl)
stop_requests-map s (id ∷ ks) h =
    let (r, e, f) = stop_request-call s id h in
    let (rs, g, i) = stop_requests-map s ks h in (r ∷ rs, rw (stop_requests, e, g) refl, cc)

unanswered-le : (s : Server) (from left : ℕ) → unanswered s (numbers from left) ≤ left
unanswered-le s from zero = omega arith
unanswered-le s from (suc left) = ground (arith, unanswered-le s (suc from) left)

-- A test of a server whose texts are all readable ends: the data hold the requests numbered below
-- `cycles * hz`, each once, in the order that the sort gives them, and the summary has the time between
-- start and stop, all the requests, and as failed those with no text, which are not more than all.
pub start_ns_test-total :
    (order : List RequestStats → List RequestStats) (s : Server) (start stop : ℤ) (cycles hz : ℕ)
    → ((rs : List RequestStats) → Perm (order rs) rs)
    → IsReadable s
    → (td : TestData) × (start_ns_test order s start stop cycles hz ≡ some td)
      × Perm (map (λ r. r.request_id) td.requests) (numbers 0 (cycles * hz))
      × (get_summary td ≡ some (stop -ℤ start, cycles * hz, unanswered s (numbers 0 (cycles * hz))))
      × (unanswered s (numbers 0 (cycles * hz)) ≤ cycles * hz)
unfolding start_ns_test stop_test_data get_summary init_test_data
start_ns_test-total order s start stop cycles hz perm h =
    let ks = numbers 0 (cycles * hz) in
    let (rs, e, f) = stop_requests-map s ks h in
    let run : run_cycles s hz 0 cycles ≡ map (call s) ks =
      run_cycles-map s hz 0 cycles
      ∙ ap (λ x. map (call s) (numbers x (cycles * hz))) (zero-mul hz) in
    (
      record (init_test_data cycles hz) {
        start_time = start;
        stop_time = some stop;
        duration = stop -ℤ start;
        failed_requests = 0 + unanswered s ks;
        requests = order rs;
      },
      rw (run, stop_test_data, e) refl,
      subst (Perm (map (λ r. r.request_id) (order rs))) f (Perm.map (λ r. r.request_id) (perm rs)),
      ap (λ n. some (stop -ℤ start, cycles * hz, n)) (omega arith),
      unanswered-le s 0 (cycles * hz),
    )
