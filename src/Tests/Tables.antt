-- ===== src/Tests/Tables.antt =====
-- raft/routing.go: the routing table.
use k8_p2p_failover_poc.Prelude.{
  ◌≡◌, refl, pos, ◌+ℤ◌, ◌-ℤ◌, ltb_ℤ, true, none, some, List, [], ◌∷◌, String, text_keys, insert,
  lookup, arith, if◌then◌else◌,
}
use k8_p2p_failover_poc.Raft.Peer.{leader, is_leader, deactivate_peer}
use k8_p2p_failover_poc.Raft.Routing.{
  find_peer, update_ttl, get_leader_timeout, leader_heartbeat_timeout,
}
use k8_p2p_failover_poc.Raft.Routing.Timeouts.{get_leader_timeout-update_ttl}
use k8_p2p_failover_poc.Tests.Data.{routing, peer_at}

abbrev addresses : List String
addresses = "10.0.0.1" ∷ "10.0.0.2" ∷ "10.0.0.3" ∷ []

get_leader_timeout-update_ttl_example :
    get_leader_timeout (pos 9) (update_ttl (pos 7) (routing leader) "10.0.0.2").0 ≡ (
      if ltb_ℤ (pos 7 +ℤ leader_heartbeat_timeout) (pos 9)
      then (
        record (routing leader) {
          table =
              insert "10.0.0.2"
                (deactivate_peer (record (peer_at "10.0.0.2" leader) {
                  ttl = pos 7 +ℤ leader_heartbeat_timeout;
                  active = true;
                }))
                (routing leader).table;
        },
        pos 0,
        some "LEADER TIMEOUT",
      )
      else (
        (update_ttl (pos 7) (routing leader) "10.0.0.2").0,
        (pos 7 +ℤ leader_heartbeat_timeout) -ℤ pos 9,
        none,
      ))
unfolding lookup is_leader find_peer
get_leader_timeout-update_ttl_example =
    get_leader_timeout-update_ttl (routing leader) "10.0.0.2" (peer_at "10.0.0.2" leader) (pos 7)
      (pos 9) refl refl refl (omega arith)
