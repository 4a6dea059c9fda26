-- ===== src/Tests/Views.antt =====
-- The table of peers and its view at concrete inputs.
use k8_p2p_failover_poc.Prelude.{◌≡◌, refl, List, [], ◌∷◌, pos, lookup, text_keys, arith, eq_iff}
use k8_p2p_failover_poc.Raft.Peer.{leader, member, is_leader, Peer}
use k8_p2p_failover_poc.Raft.Routing.{PeerRouting, get_leader_addr}
use k8_p2p_failover_poc.Raft.Routing.View.{
  add_peer, make_leader, make_candidate, update_ttl, become_leader, is_peer, Call,
}
use k8_p2p_failover_poc.Raft.Routing.View.Order.{get_leader_addr_order, HasOneLeader}
use k8_p2p_failover_poc.Tests.Data.{peer_at, routing}

abbrev calls : List Call
calls =
    add_peer "10.0.0.2" "two"
    ∷ add_peer "10.0.0.2" "two"
    ∷ make_leader "10.0.0.2"
    ∷ make_candidate "10.0.0.9"
    ∷ update_ttl (pos 5) "10.0.0.9"
    ∷ is_peer "10.0.0.2"
    ∷ become_leader
    ∷ []

abbrev leading : Peer
leading = peer_at "10.0.0.1" leader

abbrev following : Peer
following = peer_at "10.0.0.2" member

abbrev forward : PeerRouting
forward = record (routing member) { table = ("10.0.0.1", leading) ∷ ("10.0.0.2", following) ∷ [] }

abbrev backward : PeerRouting
backward = record (routing member) { table = ("10.0.0.2", following) ∷ ("10.0.0.1", leading) ∷ [] }

forward_one : HasOneLeader forward.table
unfolding lookup is_leader
forward_one a b v w at leads at' leads' =
    ground
      (arith, eq_iff "10.0.0.1" a, eq_iff "10.0.0.2" a, eq_iff "10.0.0.1" b, eq_iff "10.0.0.2" b)

get_leader_addr_order_example : get_leader_addr forward ≡ get_leader_addr backward
unfolding lookup
get_leader_addr_order_example =
    get_leader_addr_order forward backward refl (refl, (refl, tt)) (refl, (refl, tt))
      (λ a. ground (arith, eq_iff "10.0.0.1" a, eq_iff "10.0.0.2" a, eq_iff "10.0.0.1" "10.0.0.2"))
      forward_one
