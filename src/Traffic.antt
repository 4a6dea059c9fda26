-- ===== src/Traffic.antt =====
-- scripts/sim_traffic.go: the requests of a test and their answers. A text is the list of its code
-- points; times are in nanoseconds, and the clock, the answers of the server and the order in which
-- `sort.Slice` leaves equal times are arguments. The flags are not negative.
pub mod Message
pub mod Requests
pub mod Accounts
pub mod Listing
pub mod Report
use Prim.Native.Char.{code}
use Prim.Native.String
use k8_p2p_failover_poc.Prelude.{
  ℕ, zero, suc, ◌+◌, ◌*◌, ℤ, pos, ◌-ℤ◌, eq_ℤ, String, Bool, true, false, ◌||◌, ◌&&◌, Option, none,
  some, List, [], ◌∷◌, ◌++◌, nat_beq, leb, if◌then◌else◌,
}

abbrev pub Text : Type 0
Text = List ℕ

abbrev pub text : String → Text
text String.[] = []
text (String.◌∷◌ c s) = code c ∷ text s

abbrev pub is_empty : Text → Bool
is_empty [] = true
is_empty (c ∷ s) = false

pub record RequestStats : Type 0 where
  pub request_id : ℕ
  pub sent_time : ℤ
  pub resp_time : ℤ
  pub elapsed_time : ℤ
  pub response : Text
  pub cluster : Text
  pub hostname : Text

-- `none` is the zero time.
pub record TestData : Type 0 where
  pub start_time : ℤ
  pub stop_time : Option ℤ
  pub duration : ℤ
  pub requests : List RequestStats
  pub total_requests : ℕ
  pub failed_requests : ℕ
  pub cycles : ℕ
  pub hz : ℕ

-- The characters that `strings.TrimSpace` cuts off, of those below 128.
abbrev is_space : ℕ → Bool
is_space c = nat_beq c 32 || (leb 9 c && leb c 13)

-- `strings.Split` at one character.
unfoldable pub split : Text → ℕ → List Text
split [] sep = [] ∷ []
split (c ∷ s) sep = elim (split s sep) [
  | [] ↦ []
  | part ∷ parts ↦ if nat_beq c sep then [] ∷ part ∷ parts else (c ∷ part) ∷ parts
]

unfoldable pub trim_left : Text → Text
trim_left [] = []
trim_left (c ∷ s) = let rest = trim_left s in if is_space c then rest else c ∷ s

unfoldable pub trim_right : Text → Text
trim_right [] = []
trim_right (c ∷ s) = let rest = trim_right s in if is_space c && is_empty rest then [] else c ∷ rest

unfoldable pub trim_space : Text → Text
unfolding trim_left trim_right
trim_space s = trim_left (trim_right s)

-- The loop of `parseServerMsgValues`; `none` is the panic.
unfoldable pub tuple_values : List Text → Option (List Text)
tuple_values [] = some []
tuple_values (tuple ∷ tuples) = elim (split tuple b':') [
  | key ∷ value ∷ [] ↦ elim (tuple_values tuples) [
    | none ↦ none
    | some res ↦ some (trim_space value ∷ res)
  ]
  | _ ↦ none
]

unfoldable pub parse_server_msg_values : Text → Option (List Text)
unfolding tuple_values
parse_server_msg_values msg = tuple_values (split msg b'&')

unfoldable pub init_stats_container : ℤ → ℕ → RequestStats
init_stats_container now id = record {
  request_id = id;
  sent_time = now;
  resp_time = pos 0;
  elapsed_time = pos 0;
  response = [];
  cluster = [];
  hostname = [];
}

unfoldable pub init_test_data : ℕ → ℕ → TestData
init_test_data cycles hz = record {
  start_time = pos 0;
  stop_time = none;
  duration = pos 0;
  requests = [];
  total_requests = cycles * hz;
  failed_requests = 0;
  cycles = cycles;
  hz = hz;
}

-- One round of the loop of `stopTestData`: what is failed, and the request. A request with no response
-- keeps the zero of its elapsed time; a message of fewer than two values is an index out of range.
unfoldable pub stop_request : RequestStats → Option (ℕ × RequestStats)
stop_request r =
    if is_empty r.response then some (1, r) else elim (parse_server_msg_values r.response) [
      | some (cluster ∷ hostname ∷ values) ↦ some (
        0,
        record r {
          cluster = cluster;
          hostname = hostname;
          elapsed_time = r.resp_time -ℤ r.sent_time;
        },
      )
      | _ ↦ none
    ]

unfoldable pub stop_requests : List RequestStats → Option (ℕ × List RequestStats)
unfolding stop_request
stop_requests [] = some (0, [])
stop_requests (r ∷ rs) = elim (stop_request r) [
  | none ↦ none
  | some (failed, r') ↦ elim (stop_requests rs) [
    | none ↦ none
    | some (more, rs') ↦ some (failed + more, r' ∷ rs')
  ]
]

-- `stopTestData` and `sortDataSet`.
unfoldable pub stop_test_data :
    (List RequestStats → List RequestStats) → ℤ → TestData → Option TestData
stop_test_data order now td = elim (stop_requests td.requests) [
  | none ↦ none
  | some (failed, requests) ↦ some (record td {
    stop_time = some now;
    duration = now -ℤ td.start_time;
    failed_requests = td.failed_requests + failed;
    requests = order requests;
  })
]

-- What comes of the request with an id: when it is sent, and when what is read of the answer.
pub record Server : Type 0 where
  pub sent_at : ℕ → ℤ
  pub answer : ℕ → Option (ℤ × Text)

unfoldable pub call : Server → ℕ → RequestStats
unfolding init_stats_container
call s id =
    let r = init_stats_container (s.sent_at id) id in
    elim (s.answer id) [ none ↦ r | some (at, body) ↦ record r { resp_time = at; response = body } ]

-- The inner loop, from `from` on, for `left` calls.
unfoldable pub run_calls : Server → ℕ → ℕ → ℕ → ℕ → List RequestStats
unfolding call
run_calls s hz n from zero = []
run_calls s hz n from (suc left) = call s (n * hz + from) ∷ run_calls s hz n (suc from) left

-- The outer loop, from the cycle `n` on, for `left` cycles.
unfoldable pub run_cycles : Server → ℕ → ℕ → ℕ → List RequestStats
unfolding run_calls
run_cycles s hz n zero = []
run_cycles s hz n (suc left) = run_calls s hz n 0 hz ++ run_cycles s hz (suc n) left

unfoldable pub start_ns_test :
    (List RequestStats → List RequestStats) → Server → ℤ → ℤ → ℕ → ℕ → Option TestData
unfolding run_cycles init_test_data
start_ns_test order s start stop cycles hz =
    stop_test_data order stop (record (init_test_data cycles hz) {
      start_time = start;
      requests = run_cycles s hz 0 cycles;
    })

-- The numbers of `getSummary`; `none` is its error.
unfoldable pub get_summary : TestData → Option (ℤ × ℕ × ℕ)
get_summary td = elim td.stop_time [
  | none ↦ none
  | some stop ↦ some (stop -ℤ td.start_time, td.total_requests, td.failed_requests)
]
