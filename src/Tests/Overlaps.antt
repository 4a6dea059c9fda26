-- ===== src/Tests/Overlaps.antt =====
-- raft/raft.go: two commands that are typed at a leader at the same time.
use k8_p2p_failover_poc.Prelude.{◌≡◌, refl, pos, ◌+ℤ◌, some, List, [], ◌∷◌, ◌++◌}
use k8_p2p_failover_poc.Kube.Resources.{KubeCmd, no_cmd, create_deployment, is_no_cmd}
use k8_p2p_failover_poc.Raft.Peer.{leader}
use k8_p2p_failover_poc.Raft.Rpc.{decode_payload}
use k8_p2p_failover_poc.Raft.State.{to_cluster, get_length_log, get_log_item}
use k8_p2p_failover_poc.Raft.Election.{VoteEvent, answered, count_confirmations}
use k8_p2p_failover_poc.Raft.Commit.{request_add_object}
use k8_p2p_failover_poc.Raft.Commit.Overlap.{Committing, Reach, idle, commits_overlap}
use k8_p2p_failover_poc.Tests.Data.{demo, node, service_cmd}

abbrev deployment_cmd : KubeCmd
deployment_cmd = record no_cmd { msg_type = create_deployment }

abbrev yes : List VoteEvent
yes = answered (1 ∷ []) ∷ []

commits_overlap_example :
    (s : Committing) × Reach demo (idle (node leader)) s
    × (s.effects
        ≡ (request_add_object demo (node leader) service_cmd
            ++ request_add_object demo (node leader) deployment_cmd)
          ++ to_cluster service_cmd ∷ to_cluster deployment_cmd ∷ [])
    × (get_log_item s.raft (get_length_log (node leader) +ℤ pos 1) ≡ some service_cmd)
    × (get_log_item s.raft (get_length_log (node leader) +ℤ pos 2) ≡ some deployment_cmd)
unfolding is_no_cmd count_confirmations decode_payload
commits_overlap_example =
    commits_overlap demo (node leader) service_cmd deployment_cmd yes yes refl (refl, tt) refl refl
      refl refl
