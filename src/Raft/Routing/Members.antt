-- ===== src/Raft/Routing/Members.antt =====
-- raft/routing.go: which peers a table has, and whom the loops over their addresses reach.
use k8_p2p_failover_poc.Prelude.{
  ℕ, zero, suc, ◌*◌, ◌≡◌, refl, ◌↔◌, String, false, not, ◌&&◌, ◌||◌, Option, none, some, map, List,
  [], ◌∷◌, ◌++◌, ◌==◌, text_keys, if◌then◌else◌, length, replicate, keys, lookup-insert,
  length-append, length-replicate, arith, eq_iff, ap,
}
use k8_p2p_failover_poc.Raft.Peer.{Peer, init_peer}
use k8_p2p_failover_poc.Raft.Routing.{PeerRouting, is_peer, get_peers_address, add_peer}

-- `GetPeers` makes a slice of `len(p.table)` nil pointers and appends the peers to it.
unfoldable pub get_peers : PeerRouting → List (Option Peer)
get_peers p = replicate (length p.table) none ++ map (λ e. some e.1) p.table

-- What is left of a list of addresses where a loop skips the empty ones.
unfoldable pub nonempty : List String → List String
nonempty [] = []
nonempty (a ∷ l) = if a == "" then nonempty l else a ∷ nonempty l

nonempty-append : (xs ys : List String) → nonempty (xs ++ ys) ≡ nonempty xs ++ nonempty ys
unfolding nonempty
nonempty-append [] ys = refl
nonempty-append (x ∷ xs) ys = ground (arith, nonempty-append xs ys)

nonempty-replicate : (n : ℕ) → nonempty (replicate n "") ≡ []
unfolding nonempty
nonempty-replicate zero = refl
nonempty-replicate (suc n) = nonempty-replicate n

-- `GetPeersAddress` returns twice as many texts as there are peers, and the loops that skip the
-- empty texts visit each peer with an address once, in the table's order.
get_peers_address-nonempty :
    (p : PeerRouting)
    → (nonempty (get_peers_address p) ≡ nonempty (keys p.table))
      × (length (get_peers_address p) ≡ 2 * length p.table)
unfolding get_peers_address
get_peers_address-nonempty p = (
  ground (
    arith,
    nonempty-append (replicate (length p.table) "") (keys p.table),
    nonempty-replicate (length p.table),
  ),
  omega (
    arith,
    length-append (replicate (length p.table) "") (keys p.table),
    length-replicate {A = String} (length p.table) "",
    length-keys p.table,
  ),
)
  where
    length-keys : (m : List (String × Peer)) → length (keys m) ≡ length m
    length-keys [] = refl
    length-keys (e ∷ m) = ap suc (length-keys m)

-- `AddPeer` reports no error exactly when the table is open and the address new. The peers are then
-- the old ones and the new one; on an error they are the old ones.
pub is_peer-add_peer :
    (p : PeerRouting) (a c b : String)
    → (((add_peer p a c).1 ≡ none) ↔ ((p.active ≡ false) × (is_peer p a ≡ false)))
      × (is_peer (add_peer p a c).0 b ≡ (is_peer p b || (not p.active && a == b)))
unfolding add_peer is_peer
is_peer-add_peer p a c b = ground (arith, eq_iff a b, lookup-insert a b (init_peer a c) p.table)
