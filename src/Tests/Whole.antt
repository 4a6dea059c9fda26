-- ===== src/Tests/Whole.antt =====
-- poc/client.go: a node that is elected, commits a service and hands it to its cluster.
use k8_p2p_failover_poc.Prelude.{
  ◌≡◌, refl, ℤ, pos, ◌+ℤ◌, ◌-ℤ◌, true, false, some, List, [], ◌∷◌, ◌++◌, lookup, insert,
}
use mathlib.Core.List.{Perm}
use k8_p2p_failover_poc.Kube.Client.{
  ClusterService, get_cluster_node_ports, service_ports, update_cluster,
}
use k8_p2p_failover_poc.Kube.Client.Start.{announce_cluster_ports, handle_event, announced}
use k8_p2p_failover_poc.Proxy.Ports.{
  exist, port_eq, listen_port, remove_ports, visit_port, remove_port, delete,
  local_dev_port_proxy_shift,
}
use k8_p2p_failover_poc.Proxy.System.{
  Proxy, selecting, init_proxy, start_port, open_port, end_check,
}
use k8_p2p_failover_poc.Proxy.System
use k8_p2p_failover_poc.Raft.Routing.{
  get_leader_timeout, lock_routing_table_entries, add_peer, table_leader_timeout, get_peers_address,
}
use k8_p2p_failover_poc.Raft.Rpc.{decode_payload}
use k8_p2p_failover_poc.Raft.Routing.Members.{nonempty}
use k8_p2p_failover_poc.Raft.State.{init_raft, change_role, update_term, add_commit}
use k8_p2p_failover_poc.Raft.State.Effects.{written}
use k8_p2p_failover_poc.Raft.Election.{
  answered, count_votes, count_confirmations, request_leader_votes, send_request_leader_votes,
}
use k8_p2p_failover_poc.Raft.Commit.{
  commit_object, commit_as_leader, request_add_object, send_append_entry,
}
use k8_p2p_failover_poc.Raft.Loop.{start, add_peers, choose, watch_leader, finish_election}
use k8_p2p_failover_poc.Raft.System.{chooses, elects}
use k8_p2p_failover_poc.Poc.System.{
  Poc, start_poc, raft_moves, client_moves, client_takes, proxy_takes, Reach, here, next, loops,
  commits, aside, applies, gets_ports, proxy_moves, after_commit,
}
use k8_p2p_failover_poc.Poc.System.Applied.{cluster_requests, Reach-IsHanded}
use k8_p2p_failover_poc.Poc.System.Listening.{Reach-listens}
use k8_p2p_failover_poc.Poc.System.Deploying.{commit_object-listens}
use k8_p2p_failover_poc.Tests.Cluster.{asking, waiting_votes, elected, votes, frank}
use k8_p2p_failover_poc.Tests.Data.{service_cmd}

abbrev pub services : List ClusterService
services = record { service_type = "NodePort"; node_ports = pos 30010 ∷ [] } ∷ []

abbrev pub Was : List ClusterService → Type 0
Was items = items ≡ services

abbrev pub port_list : List ℤ
port_list = pos 0 ∷ pos 30010 ∷ []

abbrev pub first : Poc
first = record {
  raft = start "10.0.0.1" (pos 9996) ("10.0.0.2" ∷ []);
  handed = [];
  applied = [];
  requests = [];
  announced = port_list ∷ [];
  proxy = init_proxy;
}

pub starts : start_poc "10.0.0.1" (pos 9996) ("10.0.0.2" ∷ []) (some services) ≡ some first
unfolding start_poc announce_cluster_ports get_cluster_node_ports service_ports
starts = refl

abbrev pub leads : Poc
leads =
    raft_moves (raft_moves (raft_moves first asking []) waiting_votes.0 waiting_votes.1) elected []

abbrev pub committed : Poc
committed = after_commit frank leads votes service_cmd

-- The cluster accepts the service.
abbrev pub done : Poc
done =
    client_moves (client_takes committed service_cmd []) (cluster_requests (service_cmd ∷ []))
      (port_list ∷ [])

applies_it : Reach frank Was first done
unfolding start init_raft choose watch_leader get_leader_timeout add_peers finish_election
    change_role lookup insert count_votes lock_routing_table_entries table_leader_timeout add_peer
    update_term commit_object commit_as_leader count_confirmations decode_payload add_commit
    request_add_object request_leader_votes send_request_leader_votes send_append_entry
    get_peers_address written raft_moves handle_event update_cluster announced
    announce_cluster_ports get_cluster_node_ports service_ports nonempty
applies_it =
    next
      (next
        (next (next (next here (loops (chooses (pos 0) refl))) (loops (chooses (pos 0) refl)))
          (loops (elects (answered (1 ∷ []) ∷ []) true refl refl)))
        (commits votes service_cmd))
      (aside (
        applies [] [] service_cmd (λ q. true) (some services) (cluster_requests (service_cmd ∷ []))
          (port_list ∷ []) refl refl refl))

Reach-IsHanded_example :
    Perm (done.applied ++ done.handed) done.raft.raft.commit_log
    × (done.requests ≡ cluster_requests (service_cmd ∷ []))
unfolding client_moves client_takes raft_moves
Reach-IsHanded_example =
    Reach-IsHanded frank Was "10.0.0.1" (pos 9996) ("10.0.0.2" ∷ []) (some services) first done
      starts applies_it

-- The proxy gets the list, skips the zero, and starts and opens the port.
abbrev told : Poc
told = proxy_takes first port_list []

abbrev started : Proxy
started =
    start_port (start_port told.proxy (pos 0) (pos 30010 ∷ []) port_list) (pos 30010) [] port_list

abbrev listening : Poc
listening = record told {
  proxy = end_check (open_port (λ port. true) started (pos 30110) []) port_list;
}

listens : Reach frank Was first listening
unfolding init_proxy proxy_takes start_port open_port port_eq exist ◌+ℤ◌
listens =
    next
      (next
        (next
          (next (next here (aside (gets_ports [] [] port_list refl refl)))
            (aside (proxy_moves (System.starts (pos 0) (pos 30010 ∷ []) port_list refl))))
          (aside (proxy_moves (System.starts (pos 30010) [] port_list refl))))
        (aside (proxy_moves (System.opens (λ port. true) [] [] (pos 30110) refl))))
      (aside (proxy_moves (System.ends port_list refl)))

is_open : exist (pos 30110) listening.proxy.ports.bound ≡ true
unfolding init_proxy proxy_takes start_port open_port end_check port_eq exist listen_port
    remove_ports visit_port remove_port delete ◌-ℤ◌
is_open = refl

Reach-listens_example :
    (items : List ClusterService) × Was items
    × (exist (pos 30110 -ℤ local_dev_port_proxy_shift) (service_ports items) ≡ true)
    × (port_eq (pos 30110 -ℤ local_dev_port_proxy_shift) (pos 0) ≡ false)
Reach-listens_example =
    Reach-listens Was frank "10.0.0.1" (pos 9996) ("10.0.0.2" ∷ []) (some services) first listening
      (pos 30110) refl starts listens is_open

commit_object-listens_example :
    (q : Poc) × Reach frank Was leads q
    × (q.raft.raft ≡ (commit_object frank votes leads.raft.raft service_cmd).0)
    × (q.applied ≡ service_cmd ∷ [])
    × (q.requests ≡ cluster_requests (service_cmd ∷ []))
    × (exist (pos 30110) q.proxy.ports.bound ≡ true)
    × (q.proxy.phase ≡ selecting)
unfolding start init_raft change_role finish_election choose update_term add_peers add_peer
    lock_routing_table_entries commit_object commit_as_leader count_confirmations decode_payload
    raft_moves init_proxy service_ports exist port_eq ◌+ℤ◌ update_cluster watch_leader
    get_leader_timeout table_leader_timeout lookup insert
commit_object-listens_example =
    commit_object-listens frank Was leads votes service_cmd services (pos 30010) (λ port. true) refl
      refl refl refl refl refl refl refl
