-- ===== src/Kube/Client.antt =====
-- kube/kube_client.go: what the client reads off the local cluster. The lists that the cluster's API
-- returns are arguments, `none` for an error; of its objects, the fields that are read.
pub mod Health
pub mod Start
use k8_p2p_failover_poc.Prelude.{
  ℕ, suc, ◌+◌, ℤ, pos, String, Bool, true, false, ◌&&◌, Option, none, some, List, [], ◌∷◌, ◌++◌,
  ◌==◌, text_keys, nat_beq, if◌then◌else◌, length, replicate,
}
use k8_p2p_failover_poc.Kube.Resources.{
  KubeCmd, KubeMsg, create_service, delete_service, create_deployment, delete_deployment, nil_msg,
  unknown_msg, Service, Deployment, node_port_service, deployment_object,
}

pub record ClusterService : Type 0 where
  pub service_type : String
  pub node_ports : List ℤ

-- A pair of texts is a type and an address, or a type and a status.
pub record ClusterNode : Type 0 where
  pub addresses : List (String × String)
  pub conditions : List (String × String)

abbrev pub Error : Type 0
Error = Option String

unfoldable pub service_ports : List ClusterService → List ℤ
service_ports [] = []
service_ports (svc ∷ items) =
    (if svc.service_type == "NodePort" then svc.node_ports else []) ++ service_ports items

-- `getClusterNodePorts`: as many zeros as there are services, then the ports.
unfoldable pub get_cluster_node_ports : Option (List ClusterService) → List ℤ × Error
unfolding service_ports
get_cluster_node_ports none = ([], some "FAILED TO GET SERVICES")
get_cluster_node_ports (some items) =
    (replicate (length items) (pos 0) ++ service_ports items, none)

internal_addresses : List (String × String) → List String
internal_addresses [] = []
internal_addresses ((addr_type, address) ∷ l) =
    if addr_type == "InternalIP" then address ∷ internal_addresses l else internal_addresses l

node_addresses : List ClusterNode → List String
unfolding internal_addresses
node_addresses [] = []
node_addresses (node ∷ items) = internal_addresses node.addresses ++ node_addresses items

-- `getClusterNodeAddresses`: as many empty texts as there are nodes, then the addresses.
unfoldable pub get_cluster_node_addresses : Option (List ClusterNode) → List String × Error
unfolding node_addresses
get_cluster_node_addresses none = ([], some "FAILED TO GET NODE")
get_cluster_node_addresses (some items) =
    (replicate (length items) "" ++ node_addresses items, none)

-- The list that `startAnnounceClusterNodes` announces.
unfoldable pub announced_nodes : Option (List ClusterNode) → List String
announced_nodes items =
    (let (nodes, err) = get_cluster_node_addresses items in elim err [ some e ↦ [] | none ↦ nodes ])

count_running : List String → ℕ
count_running [] = 0
count_running (phase ∷ pods) = (if phase == "Running" then 1 else 0) + count_running pods

-- `checkPodStatus`, given the phases of the pods.
unfoldable pub check_pod_status : Option (List String) → Bool
unfolding count_running
check_pod_status none = false
check_pod_status (some pods) = nat_beq (count_running pods) (length pods)

-- The inner loop of `checkNodeStatus` breaks at the first healthy condition.
is_ready : List (String × String) → Bool
is_ready [] = false
is_ready ((cond_type, status) ∷ conditions) =
    if cond_type == "Ready" && status == "True" then true else is_ready conditions

count_ready : List ClusterNode → ℕ
unfolding is_ready
count_ready [] = 0
count_ready (node ∷ items) = (if is_ready node.conditions then 1 else 0) + count_ready items

-- `checkNodeStatus`
unfoldable pub check_node_status : Option (List ClusterNode) → Bool
unfolding count_ready
check_node_status none = false
check_node_status (some items) = nat_beq (count_ready items) (length items)

-- The loop of `startHealthChecks` over what each round reads: true when it has reported an unhealthy
-- cluster and ended, false while it goes on.
unfoldable pub start_health_checks : List (Option (List String) × Option (List ClusterNode)) → Bool
start_health_checks [] = false
start_health_checks ((pods, nodes) ∷ rounds) =
    if check_node_status nodes && check_pod_status pods then start_health_checks rounds else true

-- What a command does to the cluster.
pub data Request : Type 0 where
  create_a_service : Service → Request
  create_a_deployment : Deployment → Request

-- `updateCluster`: the request to the cluster, and whether the ports are announced again. The
-- cluster's answer is an argument.
unfoldable pub update_cluster : (Request → Bool) → KubeCmd → Option Request × Bool
update_cluster accepts update = elim update.msg_type [
  | create_service ↦
      let req = create_a_service (node_port_service update.object_service) in
      (some req, accepts req)
  | create_deployment ↦
      (some (create_a_deployment (deployment_object update.object_deployment)), false)
  | _ ↦ (none, false)
]
