-- ===== src/Kube/Client/Start.antt =====
-- kube/kube_client.go: the loop of `Start`.
pub mod Announces
use k8_p2p_failover_poc.Prelude.{ℤ, Bool, Option, none, some, List, [], ◌∷◌, ◌++◌, if◌then◌else◌}
use k8_p2p_failover_poc.Kube.Resources.{KubeCmd}
use k8_p2p_failover_poc.Kube.Client.{
  ClusterService, get_cluster_node_ports, Request, update_cluster,
}

-- What the `select` of `Start` gets. The list of services is what the cluster returns if it is asked for
-- them, `none` for an error, and the function its answers to requests.
pub data Event : Type 0 where
  cluster_unhealthy : Event
  new_object : KubeCmd → (Request → Bool) → Option (List ClusterService) → Event
  announce_timer : Option (List ClusterService) → Event

-- `announceClusterPorts`: the list that its goroutine sends, or `none` for the panic.
unfoldable pub announce_cluster_ports : Option (List ClusterService) → Option (List ℤ)
announce_cluster_ports services =
    (let (ports, err) = get_cluster_node_ports services in
      elim err [ some e ↦ none | none ↦ some ports ])

-- The requests to the cluster, and the lists that are sent to the proxy.
abbrev pub Done : Type 0
Done = List Request × List (List ℤ)

unfoldable pub announced : List Request → Option (List ClusterService) → Option Done
announced requests services = elim (announce_cluster_ports services) [
  | none ↦ none
  | some ports ↦ some (requests, ports ∷ [])
]

-- One round of the loop.
unfoldable pub handle_event : Event → Option Done
unfolding announced
handle_event cluster_unhealthy = some ([], [])
handle_event (new_object update accepts services) =
    let (req, again) = update_cluster accepts update in
    let requests : List Request = elim req [ none ↦ [] | some q ↦ q ∷ [] ] in
    if again then announced requests services else some (requests, [])
handle_event (announce_timer services) = announced [] services

unfoldable pub handle_events : List Event → Option Done
unfolding handle_event
handle_events [] = some ([], [])
handle_events (event ∷ events) = elim (handle_event event) [
  | none ↦ none
  | some (requests, lists) ↦ elim (handle_events events) [
    | none ↦ none
    | some (more, later) ↦ some (requests ++ more, lists ++ later)
  ]
]

-- `Start`, with the services that are there at first.
unfoldable pub start_client : Option (List ClusterService) → List Event → Option Done
unfolding handle_events
start_client services events = elim (announce_cluster_ports services) [
  | none ↦ none
  | some ports ↦ elim (handle_events events) [
    | none ↦ none
    | some (requests, lists) ↦ some (requests, ports ∷ lists)
  ]
]
