-- ===== src/Raft/Routing/View.antt =====
-- raft/routing.go: the table as what is known at each address, whatever the order of its entries.
pub mod Refines
pub mod Order
use k8_p2p_failover_poc.Prelude.{
  ℤ, ◌+ℤ◌, String, Bool, true, false, not, ◌&&◌, Option, none, some, List, [], ◌∷◌, ◌==◌, text_keys,
  if◌then◌else◌, lookup,
}
use k8_p2p_failover_poc.Raft.Peer.{Peer, leader, candidate, member, init_peer, is_candidate}
use k8_p2p_failover_poc.Raft.Routing.{
  PeerRouting, leader_heartbeat_timeout, with_role, candidate_round,
}
use k8_p2p_failover_poc.Raft.Routing

pub record View : Type 0 where
  pub self : Peer
  pub entry : String → Option Peer
  pub active : Bool

abbrev pub view : PeerRouting → View
view p = record { self = p.self; entry = λ a. lookup a p.table; active = p.active }

-- The calls of the methods whose results do not depend on an order, and what they return.
pub data Call : Type 0 where
  add_peer : String → String → Call
  update_ttl : ℤ → String → Call
  make_leader : String → Call
  make_candidate : String → Call
  is_peer : String → Call
  become_leader wipe_leader : Call

pub data Reply : Type 0 where
  error_of : Option String → Reply
  status : Bool → Reply
  nothing : Reply

unfoldable pub perform : PeerRouting → Call → PeerRouting × Reply
perform p (add_peer addr contact) =
    (let (q, err) = Routing.add_peer p addr contact in (q, error_of err))
perform p (update_ttl now addr) =
    (let (q, err) = Routing.update_ttl now p addr in (q, error_of err))
perform p (make_leader addr) = (let (q, ok) = Routing.make_leader p addr in (q, status ok))
perform p (make_candidate addr) = (let (q, ok) = Routing.make_candidate p addr in (q, status ok))
perform p (is_peer addr) = (p, status (Routing.is_peer p addr))
perform p become_leader = (Routing.become_leader p, nothing)
perform p wipe_leader = (Routing.wipe_leader p, nothing)

unfoldable pub run : PeerRouting → List Call → PeerRouting × List Reply
run p [] = (p, [])
run p (call ∷ calls) =
    let (q, reply) = perform p call in let (left, replies) = run q calls in (left, reply ∷ replies)

-- The entry at one address is written.
abbrev pub put : String → Peer → (String → Option Peer) → String → Option Peer
put addr peer entry a = if addr == a then some peer else entry a

abbrev pub on_entry : (Peer → Peer) → Option Peer → Option Peer
on_entry f none = none
on_entry f (some peer) = some (f peer)

-- The same calls on a view.
unfoldable pub perform_view : View → Call → View × Reply
perform_view v (add_peer addr contact) =
    if v.active
    then (v, error_of (some "CANNOT ADD ENTRIES AFTER PROTOCOL INITIATION"))
    else elim (v.entry addr) [
      | some peer ↦ (v, error_of (some "ENTRY EXISTS"))
      | none ↦ (record v { entry = put addr (init_peer addr contact) v.entry }, error_of none)
    ]
perform_view v (update_ttl now addr) = elim (v.entry addr) [
  | none ↦ (v, error_of (some "NO ENTRY"))
  | some peer ↦ (
    record v {
      entry =
          put addr (record peer { ttl = now +ℤ leader_heartbeat_timeout; active = true }) v.entry;
    },
    error_of none,
  )
]
perform_view v (make_leader addr) = elim (v.entry addr) [
  | some peer ↦ (record v { entry = put addr (with_role leader peer) v.entry }, status true)
  | none ↦
      if v.self.addr == addr
      then (record v { self = with_role leader v.self }, status true)
      else (v, status false)
]
perform_view v (make_candidate addr) =
    let assigned : Bool = elim (v.entry addr) [ none ↦ false | some peer ↦ true ] in
    let v' = record v { entry = λ a. on_entry (candidate_round addr a) (v.entry a) } in
    if v.self.addr == addr && not (is_candidate v.self)
    then (record v' { self = with_role candidate v.self }, status true)
    else if is_candidate v.self && assigned
    then (record v' { self = with_role member v.self }, status true)
    else (v', status assigned)
perform_view v (is_peer addr) = (v, status (elim (v.entry addr) [ none ↦ false | some _ ↦ true ]))
perform_view v become_leader = (
  record v { self = with_role leader v.self; entry = λ a. on_entry (with_role member) (v.entry a) },
  nothing,
)
perform_view v wipe_leader = (
  record v { self = with_role member v.self; entry = λ a. on_entry (with_role member) (v.entry a) },
  nothing,
)

unfoldable pub run_view : View → List Call → View × List Reply
run_view v [] = (v, [])
run_view v (call ∷ calls) =
    let (u, reply) = perform_view v call in
    let (left, replies) = run_view u calls in (left, reply ∷ replies)
