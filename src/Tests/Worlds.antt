-- ===== src/Tests/Worlds.antt =====
-- poc/client.go: two nodes, one of which is elected, commits a service and hands it to its cluster.
use k8_p2p_failover_poc.Prelude.{◌≡◌, refl, pos, true, some, [], ◌∷◌, All, lookup, insert}
use k8_p2p_failover_poc.Kube.Resources.{is_no_cmd}
use k8_p2p_failover_poc.Kube.Client.{get_cluster_node_ports, service_ports, update_cluster}
use k8_p2p_failover_poc.Kube.Client.Start.{announce_cluster_ports, handle_event, announced}
use k8_p2p_failover_poc.Raft.Routing.{
  get_leader_timeout, lock_routing_table_entries, add_peer, table_leader_timeout, get_peers_address,
}
use k8_p2p_failover_poc.Raft.Rpc.{decode_payload}
use k8_p2p_failover_poc.Raft.Routing.Members.{nonempty}
use k8_p2p_failover_poc.Raft.State.{init_raft, change_role, update_term, add_commit}
use k8_p2p_failover_poc.Raft.State.Effects.{written}
use k8_p2p_failover_poc.Raft.Election.{
  answered, count_votes, count_confirmations, request_leader_votes, send_request_leader_votes,
}
use k8_p2p_failover_poc.Raft.Commit.{
  commit_object, commit_as_leader, request_add_object, send_append_entry,
}
use k8_p2p_failover_poc.Raft.Loop.{start, add_peers, choose, watch_leader, finish_election}
use k8_p2p_failover_poc.Raft.System.{chooses, elects}
use k8_p2p_failover_poc.Raft.Cluster.{loops, types}
use k8_p2p_failover_poc.Poc.System.{Poc, start_poc, raft_moves, applies}
use k8_p2p_failover_poc.Poc.System.Applied.{cluster_requests}
use k8_p2p_failover_poc.Poc.World.{World, after_act, after_aside, Reach, here, next, acts, asides}
use k8_p2p_failover_poc.Poc.World.Created.{AllStart, Reach-created}
use k8_p2p_failover_poc.Tests.Cluster.{
  asking, waiting_votes, elected, votes, frank, frank-Honest, home, two_nodes,
}
use k8_p2p_failover_poc.Tests.Whole.{
  services, Was, port_list, first, leads, committed, done, starts,
}
use k8_p2p_failover_poc.Tests.Data.{service_cmd}

abbrev second : Poc
second = record first { raft = start "10.0.0.2" (pos 9996) ("10.0.0.1" ∷ []) }

second_starts : start_poc "10.0.0.2" (pos 9996) ("10.0.0.1" ∷ []) (some services) ≡ some second
unfolding start_poc announce_cluster_ports get_cluster_node_ports service_ports
second_starts = refl

abbrev two : World
two = record { nodes = ("10.0.0.1", first) ∷ ("10.0.0.2", second) ∷ []; sent = [] }

two-AllStart : AllStart (pos 9996) two_nodes two.nodes
two-AllStart = (refl, (some services, starts), (refl, (some services, second_starts), tt))

abbrev asked : World
asked = after_act two home first asking []

abbrev stood : World
stood = after_act asked home (raft_moves first asking []) waiting_votes.0 waiting_votes.1

abbrev led : World
led =
    after_act stood home (raft_moves (raft_moves first asking []) waiting_votes.0 waiting_votes.1)
      elected []

abbrev agreed : World
agreed =
    let r = commit_object frank votes elected.raft service_cmd in
    after_act led home leads (record elected { raft = r.0 }) r.1

abbrev created : World
created = after_aside agreed "10.0.0.1" done

creates : Reach frank (λ a. Was) (λ c. c ≡ service_cmd) two created
unfolding start init_raft choose watch_leader get_leader_timeout add_peers finish_election
    change_role lookup insert count_votes lock_routing_table_entries table_leader_timeout add_peer
    update_term commit_object commit_as_leader count_confirmations decode_payload add_commit
    request_add_object request_leader_votes send_request_leader_votes send_append_entry
    get_peers_address written raft_moves handle_event update_cluster announced
    announce_cluster_ports get_cluster_node_ports service_ports nonempty is_no_cmd
creates =
    next
      (next
        (next
          (next (next here (acts home first asking [] refl (loops (chooses (pos 0) refl)))) (
            acts home (raft_moves first asking []) waiting_votes.0 waiting_votes.1 refl
              (loops (chooses (pos 0) refl))))
          (acts home (raft_moves (raft_moves first asking []) waiting_votes.0 waiting_votes.1)
            elected [] refl (loops (elects (answered (1 ∷ []) ∷ []) true refl refl))))
        (acts home leads
          (record elected { raft = (commit_object frank votes elected.raft service_cmd).0 })
          (commit_object frank votes elected.raft service_cmd).1 refl
          (types votes service_cmd refl refl)))
      (asides "10.0.0.1" committed done refl (
        applies [] [] service_cmd (λ q. true) (some services) (cluster_requests (service_cmd ∷ []))
          (port_list ∷ []) refl refl refl))

Reach-created_example :
    All (λ c. c ≡ service_cmd) done.applied × (done.requests ≡ cluster_requests done.applied)
unfolding lookup insert
Reach-created_example =
    Reach-created frank (λ a. Was) (λ c. c ≡ service_cmd) (pos 9996) two_nodes two created
      "10.0.0.1" done frank-Honest two-AllStart refl creates refl
