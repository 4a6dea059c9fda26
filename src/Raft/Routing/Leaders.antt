-- ===== src/Raft/Routing/Leaders.antt =====
-- raft/routing.go: who is taken for the leader.
use k8_p2p_failover_poc.Prelude.{
  ◌≡◌, ◌≢◌, refl, ◌||◌, inl, inr, String, true, false, none, some, List, [], ◌∷◌, ◌==◌, text_keys,
  if◌then◌else◌, lookup, insert, map_values, arith, eq_iff, lookup-insert, Option-cases,
}
use k8_p2p_failover_poc.Raft.Peer.{Peer, leader, member, is_leader}
use k8_p2p_failover_poc.Raft.Routing.{
  PeerRouting, find_peer, get_addr, get_leader_addr, make_leader, wipe_leader, become_leader,
  with_role, is_peer,
}

find_peer-wiped :
    (m : List (String × Peer))
    → find_peer is_leader (map_values (λ _ peer. with_role member peer) m) ≡ none
unfolding find_peer is_leader
find_peer-wiped [] = refl
find_peer-wiped (e ∷ m) = find_peer-wiped m

-- After `WipeLeader` no leader is found, whatever the table held; after `BecomeLeader` the node
-- itself is, and no peer of the table.
get_leader_addr-wipe :
    (p : PeerRouting)
    → (get_leader_addr (wipe_leader p) ≡ ("", some "NO ENTRY"))
      × (get_leader_addr (become_leader p) ≡ (get_addr p, none))
      × (find_peer is_leader (become_leader p).table ≡ none)
unfolding get_leader_addr wipe_leader become_leader
get_leader_addr-wipe p =
    (ground (arith, find_peer-wiped p.table), ground arith, find_peer-wiped p.table)

find_peer-insert :
    (a : String) (v : Peer) (m : List (String × Peer))
    → find_peer is_leader m ≡ none
    → is_leader v ≡ true
    → find_peer is_leader (insert a v m) ≡ some a
unfolding find_peer insert
find_peer-insert a v [] h l = ground arith
find_peer-insert a v ((b, w) ∷ m) h l = ground (arith, find_peer-insert a v m)

-- Where no leader is known, `MakeLeader` succeeds exactly for the peers and the node itself, and that
-- address is then the leader that `GetLeaderAddr` finds; otherwise there is still none.
get_leader_addr-make_leader :
    (p : PeerRouting) (a : String)
    → is_leader p.self ≡ false
    → find_peer is_leader p.table ≡ none
    → ((make_leader p a).1 ≡ (is_peer p a || get_addr p == a))
      × (get_leader_addr (make_leader p a).0
          ≡ (if is_peer p a || get_addr p == a then (a, none) else ("", some "NO ENTRY")))
unfolding get_leader_addr make_leader is_leader is_peer
get_leader_addr-make_leader p a h k = elim (Option-cases (lookup a p.table)) [
  | inl e ↦ ground (arith, eq_iff (get_addr p) a)
  | inr (w, e) ↦ ground (arith, find_peer-insert a (with_role leader w) p.table k)
]

-- `MakeLeader` leaves an earlier leader of the table in place: two peers of one table are then
-- leaders at once.
make_leader_keeps_leader :
    (p : PeerRouting) (a b : String) (v w : Peer)
    → a ≢ b
    → lookup a p.table ≡ some v
    → is_leader v ≡ true
    → lookup b p.table ≡ some w
    → let table = (make_leader p b).0.table in
      (lookup a table ≡ some v) × (lookup b table ≡ some (with_role leader w))
unfolding make_leader
make_leader_keeps_leader p a b v w ne ha hl hb = ground (
  arith,
  eq_iff b a,
  eq_iff b b,
  lookup-insert b a (with_role leader w) p.table,
  lookup-insert b b (with_role leader w) p.table,
)
