-- ===== src/Raft/Routing/View/Refines.antt =====
-- raft/routing.go: calls of a table, and the same calls of its view.
use k8_p2p_failover_poc.Prelude.{◌≡◌, String, text_keys, lookup}
use k8_p2p_failover_poc.Raft.Peer.{Peer}
use k8_p2p_failover_poc.Raft.Routing.{PeerRouting}
use k8_p2p_failover_poc.Raft.Routing
use k8_p2p_failover_poc.Raft.Routing.View.{View, Reply}

-- A table and a view that agree at every address.
abbrev Shows : PeerRouting → View → Type 0
Shows p v =
    (p.self ≡ v.self) × (p.active ≡ v.active) × ((a : String) → lookup a p.table ≡ v.entry a)

-- What a call on the table and the same call on the view leave agrees, and so do their replies.
abbrev Agrees : PeerRouting × Reply → View × Reply → Type 0
Agrees (p, reply) (v, reply') = Shows p v × (reply ≡ reply')
