-- ===== src/Kube/Client/Start/Announces.antt =====
-- kube/kube_client.go: what the loop of `Start` does to the cluster and to the proxy.
use k8_p2p_failover_poc.Prelude.{
  ℤ, true, false, Option, none, some, List, [], ◌∷◌, ◌++◌, ◌≡◌, refl, arith, Option-cases,
}
use k8_p2p_failover_poc.Kube.Resources.{
  create_service, create_deployment, node_port_service, deployment_object,
}
use k8_p2p_failover_poc.Kube.Client.{
  ClusterService, get_cluster_node_ports, Request, create_a_service, create_a_deployment,
  update_cluster,
}
use k8_p2p_failover_poc.Kube.Client.Start.{
  Event, cluster_unhealthy, new_object, announce_timer, announce_cluster_ports, announced,
  handle_event, handle_events, start_client,
}

-- Whether the loop asks for the services, and what it gets then.
abbrev pub asked : Event → Option (Option (List ClusterService))
asked cluster_unhealthy = none
asked (announce_timer services) = some services
asked (new_object c accepts services) = elim c.msg_type [
  | create_service ↦ elim (accepts (create_a_service (node_port_service c.object_service))) [
    | true ↦ some services
    | false ↦ none
  ]
  | _ ↦ none
]

-- The request that an event leads to.
abbrev pub requested : Event → List Request
requested (new_object c accepts services) = elim c.msg_type [
  | create_service ↦ create_a_service (node_port_service c.object_service) ∷ []
  | create_deployment ↦ create_a_deployment (deployment_object c.object_deployment) ∷ []
  | _ ↦ []
]
requested _ = []

abbrev pub requests_of : List Event → List Request
requests_of [] = []
requests_of (event ∷ events) = requested event ++ requests_of events

-- The lists of services that the loop reads, or `none` if one of them cannot be read.
abbrev pub services_read : List Event → Option (List (List ℤ))
services_read [] = some []
services_read (event ∷ events) = elim (asked event) [
  | none ↦ services_read events
  | some none ↦ none
  | some (some items) ↦ elim (services_read events) [
    | none ↦ none
    | some lists ↦ some ((get_cluster_node_ports (some items)).0 ∷ lists)
  ]
]

pub handle_event-asked :
    (event : Event)
    → handle_event event ≡ elim (asked event) [
      | none ↦ some (requested event, [])
      | some none ↦ none
      | some (some items) ↦ some (requested event, (get_cluster_node_ports (some items)).0 ∷ [])
    ]
unfolding handle_event announced announce_cluster_ports update_cluster get_cluster_node_ports
handle_event-asked cluster_unhealthy = refl
handle_event-asked (announce_timer none) = refl
handle_event-asked (announce_timer (some items)) = refl
handle_event-asked (new_object c accepts services) = ground (arith, Option-cases services)

handle_events-read :
    (events : List Event)
    → handle_events events
      ≡ elim (services_read events) [ none ↦ none | some lists ↦ some (requests_of events, lists) ]
unfolding handle_events
handle_events-read [] = refl
handle_events-read (event ∷ events) =
    ground (arith, handle_event-asked event, handle_events-read events)

-- The loop of the client, services and all that it gets given, panics exactly when it asks for the
-- services and the cluster returns an error. Otherwise the requests to the cluster are those of the
-- commands, in order, and what it sends to the proxy are the lists that it has read, the first at its
-- start, then one for each timer and one for each service that the cluster accepts.
pub start_client-read :
    (services : Option (List ClusterService)) (events : List Event)
    → start_client services events ≡ elim (services_read (announce_timer services ∷ events)) [
      | none ↦ none
      | some lists ↦ some (requests_of events, lists)
    ]
unfolding start_client announce_cluster_ports get_cluster_node_ports
start_client-read services events = ground (arith, handle_events-read events, Option-cases services)
