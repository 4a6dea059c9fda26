-- ===== src/Proxy/Ports/Announced.antt =====
-- kube/kube_client.go and proxy/proxy.go: from the services of the cluster to the ports of the proxy.
use k8_p2p_failover_poc.Prelude.{
  ℕ, zero, suc, ◌≡◌, refl, ℤ, pos, ◌+ℤ◌, not, ◌&&◌, some, List, ◌++◌, replicate, length, arith,
}
use k8_p2p_failover_poc.Kube.Client.{ClusterService, service_ports, get_cluster_node_ports}
use k8_p2p_failover_poc.Proxy.Ports.{
  Ports, port_eq, exist, check_new_ports, local_dev_port_proxy_shift,
}
use k8_p2p_failover_poc.Proxy.Ports.Laws.{exist-new_ports}

pub exist-replicate :
    (n : ℕ) (port : ℤ) (l : List ℤ)
    → (exist port (replicate n (pos 0) ++ l) && not (port_eq port (pos 0)))
      ≡ (exist port l && not (port_eq port (pos 0)))
unfolding exist
exist-replicate zero port l = refl
exist-replicate (suc n) port l = ground (arith, exist-replicate n port l)

-- For the ports that the client reads off the cluster, `checkNewPorts` starts a listener exactly at
-- the nonzero node ports of its services, shifted by 100, that are no keys yet: the zeros in front of
-- them do no harm.
check_new_ports-services :
    (p : Ports) (items : List ClusterService) (port : ℤ)
    → exist
        (port +ℤ local_dev_port_proxy_shift)
        (check_new_ports p (get_cluster_node_ports (some items)).0).1
      ≡ (exist port (service_ports items)
          && (not (port_eq port (pos 0))
              && not (exist (port +ℤ local_dev_port_proxy_shift) p.active)))
unfolding check_new_ports get_cluster_node_ports
check_new_ports-services p items port = ground (
  arith,
  exist-new_ports p (replicate (length items) (pos 0) ++ service_ports items) port,
  exist-replicate (length items) port (service_ports items),
)
