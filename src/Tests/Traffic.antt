-- ===== src/Tests/Traffic.antt =====
-- scripts/sim_traffic.go: a test of two cycles of two requests.
use k8_p2p_failover_poc.Prelude.{
  ◌≡◌, refl, pos, ℕ, ℤ, none, some, [], ◌∷◌, map, nat_beq, if◌then◌else◌, arith, ◌≤◌, ◌-ℤ◌, subst,
  Bool-cases, inl, inr, Option,
}
use mathlib.Core.List.{Perm}
use mathlib.Core.List.Perm
use k8_p2p_failover_poc.Traffic.{
  Text, text, Server, TestData, trim_left, trim_right, parse_server_msg_values, start_ns_test,
  get_summary,
}
use k8_p2p_failover_poc.Traffic.Message.{
  IsValue, server_message, parse_server_msg_values-server_message,
}
use k8_p2p_failover_poc.Traffic.Accounts.{IsReadable, start_ns_test-total}

east-IsValue : IsValue (text "east")
unfolding trim_left trim_right
east-IsValue = ((refl, refl), omega arith, omega arith)

node-IsValue : IsValue (text "node 7")
unfolding trim_left trim_right
node-IsValue = ((refl, refl), omega arith, omega arith)

parse_server_msg_values-server_message_example :
    parse_server_msg_values (server_message (text "east") (text "node 7"))
    ≡ some (text "east" ∷ text "node 7" ∷ [])
parse_server_msg_values-server_message_example =
    parse_server_msg_values-server_message (text "east") (text "node 7") east-IsValue node-IsValue

pub east_message :
    parse_server_msg_values (server_message (text "east") (text "node 7"))
    ≡ some (text "east" ∷ text "node 7" ∷ [])
east_message =
    parse_server_msg_values-server_message (text "east") (text "node 7") east-IsValue node-IsValue

abbrev pub answers : ℕ → Option (ℤ × Text)
answers id =
    if nat_beq id 2 then none else some (pos 900, server_message (text "east") (text "node 7"))

-- The third request is not answered.
abbrev pub a_server : Server
a_server = record { sent_at = λ id. pos id; answer = answers }

a_server-IsReadable : IsReadable a_server
a_server-IsReadable id at body e f = elim (Bool-cases (nat_beq id 2)) [
  | inl p ↦ ground (arith, e, p)
  | inr p ↦ (
    text "east",
    text "node 7",
    [],
    subst (λ b. parse_server_msg_values b ≡ some (text "east" ∷ text "node 7" ∷ []))
        (ground (arith, e, p)) east_message,
  )
]

start_ns_test-total_example :
    (td : TestData) × (start_ns_test (λ rs. rs) a_server (pos 0) (pos 1000) 2 2 ≡ some td)
    × Perm (map (λ r. r.request_id) td.requests) (0 ∷ 1 ∷ 2 ∷ 3 ∷ [])
    × (get_summary td ≡ some (pos 1000, 4, 1))
    × (1 ≤ 4)
unfolding ◌-ℤ◌
start_ns_test-total_example =
    start_ns_test-total (λ rs. rs) a_server (pos 0) (pos 1000) 2 2 (λ rs. Perm.refl rs)
      a_server-IsReadable
