-- ===== src/Tests/Entered.antt =====
-- poc/client.go and raft/raft.go: a command that is entered at a leader.
use k8_p2p_failover_poc.Prelude.{
  ◌≡◌, refl, ℤ, pos, false, String, Option, none, some, [], ◌∷◌, ◌==◌, text_keys, if◌then◌else◌,
  All, lookup, insert,
}
use k8_p2p_failover_poc.Kube.Resources.{KubeCmd, no_cmd, is_no_cmd, create_node_port_object}
use k8_p2p_failover_poc.Raft.Commit.{commit_object}
use k8_p2p_failover_poc.Poc.{scanned, start_cli, command_of, test_gen_nodeport_cmd}
use k8_p2p_failover_poc.Poc.Logs.{IsOffered, IsEntered, Leads-IsOffered}
use k8_p2p_failover_poc.Tests.Cluster.{
  two_nodes, elected, votes, frank, frank-Honest, cluster_committed, commits,
}

abbrev entered : KubeCmd
entered = elim test_gen_nodeport_cmd [ none ↦ no_cmd | some c ↦ c ]

-- A number for one text.
abbrev atoi : String → Option ℤ
atoi s = if s == "2" then some (pos 2) else none

entered-IsEntered : IsEntered atoi entered
unfolding start_cli command_of test_gen_nodeport_cmd create_node_port_object
entered-IsEntered = (scanned "2" ∷ [], entered ∷ [], 0, refl, refl)

entered_lem : is_no_cmd entered ≡ false
unfolding is_no_cmd test_gen_nodeport_cmd create_node_port_object
entered_lem = refl

Leads-IsOffered_example :
    All IsOffered (commit_object frank votes elected.raft entered).0.commit_log
unfolding lookup insert
Leads-IsOffered_example =
    Leads-IsOffered frank atoi (pos 9996) two_nodes (cluster_committed entered) "10.0.0.1"
      (record elected { raft = (commit_object frank votes elected.raft entered).0 }) frank-Honest
      (commits (IsEntered atoi) entered entered-IsEntered entered_lem) refl
