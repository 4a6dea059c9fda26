-- ===== src/Kube/Resources/Empty.antt =====
-- kube/kube_resources.go: when a command is the zero value, and when a new object is not.
use k8_p2p_failover_poc.Prelude.{◌≡◌, ◌↔◌, true, arith, eq_iff}
use k8_p2p_failover_poc.Kube.Resources.{
  KubeCmd, KubePort, KubeImage, KubeDeployment, KubeNodePort, no_cmd, no_port, no_image,
  no_deployment, no_node_port, is_no_port, is_no_image, is_no_cmd, is_no_deployment,
  is_no_node_port,
}

is_no_port_iff : (p : KubePort) → (is_no_port p ≡ true) ↔ (p ≡ no_port)
is_no_port_iff p = ground (arith, eq_iff p.name "")

is_no_image_iff : (i : KubeImage) → (is_no_image i ≡ true) ↔ (i ≡ no_image)
is_no_image_iff i = ground (arith, eq_iff i.name "", eq_iff i.image_name "", eq_iff i.ports.name "")

is_no_node_port_iff : (s : KubeNodePort) → (is_no_node_port s ≡ true) ↔ (s ≡ no_node_port)
unfolding is_no_node_port
is_no_node_port_iff s = ground (arith, eq_iff s.name "", is_no_port_iff s.port)

is_no_deployment_iff : (d : KubeDeployment) → (is_no_deployment d ≡ true) ↔ (d ≡ no_deployment)
unfolding is_no_deployment
is_no_deployment_iff d =
    ground (arith, eq_iff d.name "", is_no_image_iff d.image, is_no_port_iff d.ports)

-- The test for an empty command is exactly equality with the zero value.
pub is_no_cmd_iff : (c : KubeCmd) → (is_no_cmd c ≡ true) ↔ (c ≡ no_cmd)
unfolding is_no_cmd
is_no_cmd_iff c =
    ground (arith, is_no_deployment_iff c.object_deployment, is_no_node_port_iff c.object_service)
