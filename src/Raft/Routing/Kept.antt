-- ===== src/Raft/Routing/Kept.antt =====
-- raft/routing.go: what no method writes once the table is locked.
use k8_p2p_failover_poc.Prelude.{
  ◌≡◌, refl, ℤ, String, some, List, [], ◌∷◌, text_keys, lookup, insert, map_values, eq_iff, arith,
  Option-cases, Bool-cases, inl, inr,
}
use k8_p2p_failover_poc.Raft.Peer.{Peer, is_leader, get_time_remaining, deactivate_peer}
use k8_p2p_failover_poc.Raft.Routing.{
  PeerRouting, update_ttl, make_leader, wipe_leader, get_leader_timeout, table_leader_timeout,
  check_leader_timeout,
}

-- The addresses at which the peers stand, each with the one that the peer holds.
unfoldable pub addrs : List (String × Peer) → List (String × String)
addrs [] = []
addrs ((a, v) ∷ m) = (a, v.addr) ∷ addrs m

-- The same peers, and the same address of the node itself.
abbrev pub Kept : PeerRouting → PeerRouting → Type 0
Kept p q = (addrs q.table ≡ addrs p.table) × (q.self.addr ≡ p.self.addr)

addrs-insert :
    (a : String) (v w : Peer) (m : List (String × Peer))
    → lookup a m ≡ some v
    → w.addr ≡ v.addr
    → addrs (insert a w m) ≡ addrs m
unfolding addrs insert lookup
addrs-insert a v w [] h e = absurd (ground arith)
addrs-insert a v w ((b, u) ∷ m) h e = ground (arith, eq_iff b a, addrs-insert a v w m)

addrs-map_values :
    (f : String → Peer → Peer) (m : List (String × Peer))
    → ((a : String) (v : Peer) → (f a v).addr ≡ v.addr)
    → addrs (map_values f m) ≡ addrs m
unfolding addrs
addrs-map_values f [] h = refl
addrs-map_values f ((a, v) ∷ m) h = rw (h a v, addrs-map_values f m h) refl

addr-get_time_remaining : (now : ℤ) (v : Peer) → (get_time_remaining now v).1.addr ≡ v.addr
unfolding get_time_remaining deactivate_peer
addr-get_time_remaining now v = ground arith

addrs-table_leader_timeout :
    (now : ℤ) (m : List (String × Peer)) → addrs (table_leader_timeout now m).0 ≡ addrs m
unfolding addrs table_leader_timeout
addrs-table_leader_timeout now [] = refl
addrs-table_leader_timeout now ((a, v) ∷ m) = elim (Bool-cases (is_leader v)) [
  | inl e ↦ rw (e, addr-get_time_remaining now v) refl
  | inr e ↦ rw (e, addrs-table_leader_timeout now m) refl
]

pub update_ttl-Kept : (now : ℤ) (p : PeerRouting) (a : String) → Kept p (update_ttl now p a).0
unfolding update_ttl
update_ttl-Kept now p a = elim (Option-cases (lookup a p.table)) [
  | inl e ↦ rw (update_ttl, e) (refl, refl)
  | inr (v, e) ↦ rw (update_ttl, e) (addrs-insert a v _ p.table e refl, refl)
]

pub make_leader-Kept : (p : PeerRouting) (a : String) → Kept p (make_leader p a).0
unfolding make_leader
make_leader-Kept p a = elim (Option-cases (lookup a p.table)) [
  | inl e ↦ ground (arith, e)
  | inr (v, e) ↦ rw (make_leader, e) (addrs-insert a v _ p.table e refl, refl)
]

pub wipe_leader-Kept : (p : PeerRouting) → Kept p (wipe_leader p)
unfolding wipe_leader
wipe_leader-Kept p = (addrs-map_values _ p.table (λ a v. refl), refl)

pub get_leader_timeout-Kept : (now : ℤ) (p : PeerRouting) → Kept p (get_leader_timeout now p).0
unfolding get_leader_timeout
get_leader_timeout-Kept now p = (addrs-table_leader_timeout now p.table, refl)

pub check_leader_timeout-Kept : (now : ℤ) (p : PeerRouting) → Kept p (check_leader_timeout now p).0
unfolding check_leader_timeout
check_leader_timeout-Kept now p = ground (arith, get_leader_timeout-Kept now p)
