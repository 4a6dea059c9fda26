-- ===== src/Raft/Routing/View/Order.antt =====
-- raft/routing.go: the leader that is found in tables with the same peers.
use k8_p2p_failover_poc.Prelude.{
  ◌≡◌, sym, ap, ◌∙◌, String, true, none, some, List, [], ◌∷◌, text_keys, lookup, eq_iff, arith,
  Option-cases, Bool-cases, inl, inr, IsMap,
}
use k8_p2p_failover_poc.Raft.Peer.{Peer, is_leader}
use k8_p2p_failover_poc.Raft.Routing.{PeerRouting, find_peer, get_leader_addr, get_addr}

-- At most one peer is taken for a leader.
abbrev pub HasOneLeader : List (String × Peer) → Type 0
HasOneLeader m =
    (a b : String) (v w : Peer)
    → lookup a m ≡ some v
    → is_leader v ≡ true
    → lookup b m ≡ some w
    → is_leader w ≡ true
    → a ≡ b

find_peer-entry :
    (m : List (String × Peer)) (a : String)
    → IsMap m
    → find_peer is_leader m ≡ some a
    → (v : Peer) × (lookup a m ≡ some v) × (is_leader v ≡ true)
unfolding find_peer lookup
find_peer-entry [] a d h = absurd (ground arith)
find_peer-entry ((b, w) ∷ m) a d h = elim (Bool-cases (is_leader w)) [
  | inl l ↦ (w, ground (arith, eq_iff b a), l)
  | inr l ↦
      let (v, e, t) = find_peer-entry m a d.1 (ground arith) in
      (v, ground (arith, eq_iff b a, d.0), t)
]

find_peer-finds :
    (m : List (String × Peer)) (a : String) (v : Peer)
    → lookup a m ≡ some v
    → is_leader v ≡ true
    → (b : String) × (find_peer is_leader m ≡ some b)
unfolding find_peer lookup
find_peer-finds [] a v e l = absurd (ground arith)
find_peer-finds ((b, w) ∷ m) a v e l = elim (Bool-cases (is_leader w)) [
  | inl k ↦ (b, ground arith)
  | inr k ↦ let (c, f) = find_peer-finds m a v (ground (arith, eq_iff b a)) l in (c, ground arith)
]

module _ (m n : List (String × Peer)) (dm : IsMap m) (dn : IsMap n)
    (same : (a : String) → lookup a m ≡ lookup a n) where
  find_peer-none : find_peer is_leader m ≡ none → find_peer is_leader n ≡ none
  find_peer-none h = elim (Option-cases (find_peer is_leader n)) [
    | inl e ↦ e
    | inr (b, e) ↦
        let (v, at, leads) = find_peer-entry n b dn e in
        let (c, found) = find_peer-finds m b v (same b ∙ at) leads in absurd (ground arith)
  ]

  find_peer_order : HasOneLeader m → find_peer is_leader m ≡ find_peer is_leader n
  find_peer_order one = elim (Option-cases (find_peer is_leader m)) [
    | inl e ↦ e ∙ sym (find_peer-none e)
    | inr (a, e) ↦
        let (v, at, leads) = find_peer-entry m a dm e in
        let (b, found) = find_peer-finds n a v (sym (same a) ∙ at) leads in
        let (w, at', leads') = find_peer-entry n b dn found in
        e ∙ ap some (one a b v w at leads (same b ∙ at') leads') ∙ sym found
  ]

-- If two tables with the same own peer hold the same peers, each address once, and at most one peer of
-- them is taken for a leader, the same leader is answered from both, whatever the order in which they
-- are read.
pub get_leader_addr_order :
    (p q : PeerRouting)
    → p.self ≡ q.self
    → IsMap p.table
    → IsMap q.table
    → ((a : String) → lookup a p.table ≡ lookup a q.table)
    → HasOneLeader p.table
    → get_leader_addr p ≡ get_leader_addr q
unfolding get_leader_addr get_addr
get_leader_addr_order p q self dp dq same one =
    ground (arith, self, find_peer_order p.table q.table dp dq same one)
