-- ===== src/Tests/Ballots.antt =====
-- raft/raft.go: the histories of three nodes, one of which is elected.
use k8_p2p_failover_poc.Prelude.{
  refl, ℤ, pos, ◌+ℤ◌, wrap_int, String, List, [], ◌∷◌, arith, eq_iff, ◌<◌, ◌+◌, lookup,
}
use k8_p2p_failover_poc.Kube.Resources.{is_no_cmd}
use k8_p2p_failover_poc.Network.Packet.{Packet, new_packet, request_vote}
use k8_p2p_failover_poc.Raft.Peer.{candidate}
use k8_p2p_failover_poc.Raft.Routing.{get_addr, is_peer, lock_routing_table_entries}
use k8_p2p_failover_poc.Raft.Routing.Quorum.{size}
use k8_p2p_failover_poc.Raft.Rpc.{decode_payload}
use k8_p2p_failover_poc.Raft.State.{get_length_log, count_entries, change_role, update_term}
use k8_p2p_failover_poc.Raft.State.Effects.{has_reply}
use k8_p2p_failover_poc.Raft.Replies.{send_reply_leader_vote}
use k8_p2p_failover_poc.Raft.Handler.{handle_rpc, handle_request_vote, dispatch}
use k8_p2p_failover_poc.Raft.Loop.{Node, choosing, watching, choose}
use k8_p2p_failover_poc.Raft.System.Ballots.{
  Backs, votes, stands, begins, backs, HasRun, has_backed, backed_once,
}
use k8_p2p_failover_poc.Tests.Data.{node, routing, env_with}
use k8_p2p_failover_poc.Tests.Elections.{ballot, self_addr, voter}

abbrev standing : Node
standing = record { raft = node candidate; phase = choosing }

abbrev voting : Node
voting = record { raft = voter; phase = watching }

abbrev ballot_packet : Packet
ballot_packet = new_packet self_addr (1 ∷ []) request_vote

standing-Backs : Backs ballot (pos 2) "10.0.0.1" standing (choose ballot (pos 0) (node candidate)).0
unfolding wrap_int ◌+ℤ◌ get_addr
standing-Backs = stands (pos 0) refl refl refl refl

voting-Backs :
    Backs ballot
      (pos 2)
      "10.0.0.1"
      voting
      (record voting { raft = (handle_rpc ballot (env_with [] []) voter ballot_packet).raft })
unfolding new_packet decode_payload get_length_log count_entries is_no_cmd has_reply handle_rpc
    is_peer lookup dispatch handle_request_vote send_reply_leader_vote change_role update_term
voting-Backs = votes (env_with [] []) ballot_packet refl refl refl (omega arith) refl

abbrev backings : List (List (ℤ × String))
backings = ((pos 2, "10.0.0.1") ∷ []) ∷ ((pos 2, "10.0.0.1") ∷ []) ∷ [] ∷ []

backings-HasRun : HasRun ballot ((pos 2, "10.0.0.1") ∷ [])
backings-HasRun = (voting, _, backs begins (omega arith, omega arith) voting-Backs)

-- (One node stands, one votes for it, and one has done nothing.)
backed_once_example :
    size (has_backed (pos 2) "10.0.0.2") backings
    < (lock_routing_table_entries (routing candidate)).1 + 1
unfolding has_backed lock_routing_table_entries
backed_once_example =
    backed_once ballot (routing candidate) backings (pos 2) "10.0.0.1" "10.0.0.2" refl
      (
        (standing, _, backs begins (omega arith, omega arith) standing-Backs),
        (backings-HasRun, ((standing, standing, begins), tt)),
      )
      (ground (arith, eq_iff "10.0.0.1" "10.0.0.2")) (ground arith)
