-- ===== src/Poc/System/Deploying.antt =====
-- poc/client.go: from a command that is committed to the port at which the proxy listens.
use k8_p2p_failover_poc.Prelude.{
  ℤ, pos, Bool, true, false, ◌≡◌, refl, ap, ◌∙◌, Option, some, List, [], ◌∷◌, ◌++◌, replicate,
  length, arith,
}
use k8_p2p_failover_poc.Kube.Resources.{KubeCmd, create_service}
use k8_p2p_failover_poc.Kube.Resources
use k8_p2p_failover_poc.Kube.Client.{
  ClusterService, create_a_service, service_ports, get_cluster_node_ports, update_cluster,
}
use k8_p2p_failover_poc.Kube.Client.Start.{
  new_object, announced, announce_cluster_ports, handle_event,
}
use k8_p2p_failover_poc.Proxy.Ports.{exist, port_eq}
use k8_p2p_failover_poc.Proxy.Ports.Laws.{shift}
use k8_p2p_failover_poc.Proxy.System.{Proxy, selecting, starting}
use k8_p2p_failover_poc.Proxy.System
use k8_p2p_failover_poc.Proxy.System.Listeners.{exist-append}
use k8_p2p_failover_poc.Proxy.System.Opening.{starts-bound}
use k8_p2p_failover_poc.Raft.Rpc.{Platform}
use k8_p2p_failover_poc.Raft.Commit.{Env, commit_object}
use k8_p2p_failover_poc.Raft.Commit.Log.{commit_object-Outcome}
use k8_p2p_failover_poc.Poc.System.{
  Poc, raft_moves, after_commit, client_moves, client_takes, proxy_takes, applies, gets_ports,
  proxy_moves, commits, aside, Reach, here, next,
}

module _ (w : Platform) (Was : List ClusterService → Type 0) where
  -- The proxy moves alone.
  proxy-Reach :
      (s p : Poc) (q : Proxy)
      → Reach w Was s p
      → System.Reach (λ prts. ⊥) p.proxy q
      → Reach w Was s (record p { proxy = q })
  proxy-Reach s p q r System.Reach.here = r
  proxy-Reach s p q r (System.Reach.next {q = m} moves st) =
      next (proxy-Reach s p m r moves) (aside (proxy_moves st))

  exist-ports :
      (items : List ClusterService) (port : ℤ)
      → exist port (service_ports items) ≡ true
      → exist port (replicate (length items) (pos 0) ++ service_ports items) ≡ true
  exist-ports items port h =
      exist-append port (replicate (length items) (pos 0)) (service_ports items) ∙ ground (arith, h)

  handle_event-service :
      (obj : KubeCmd) (items : List ClusterService)
      → obj.msg_type ≡ create_service
      → handle_event (new_object obj (λ q. true) (some items))
        ≡ some (
          create_a_service (Resources.node_port_service obj.object_service) ∷ [],
          (replicate (length items) (pos 0) ++ service_ports items) ∷ [],
        )
  unfolding handle_event update_cluster announced announce_cluster_ports get_cluster_node_ports
  handle_event-service obj items e = rw e refl

  written-commit :
      (env : Env) (p : Poc) (obj : KubeCmd)
      → (commit_object w env p.raft.raft obj).2 ≡ some true
      → (after_commit w p env obj).handed ≡ p.handed ++ obj ∷ []
  unfolding raft_moves
  written-commit env p obj e =
      ap (λ l. p.handed ++ l)
        ((commit_object-Outcome w env p.raft.raft obj).1
          ∙ ap (λ (x : Option Bool). elim x [ some true ↦ obj ∷ [] | _ ↦ [] ]) e)

-- A command that creates a service is committed while the node's proxy waits. If the cluster then lists
-- services with a port that is not zero, whose shifted number is no key of the proxy's map and can be
-- listened on, the parts of the node can run so that the cluster is asked for the service, and in the end
-- the proxy listens at the shifted port and waits again, with the raft node as the commit left it.
pub commit_object-listens :
    (w : Platform) (Was : List ClusterService → Type 0) (p : Poc) (env : Env) (obj : KubeCmd)
    (items : List ClusterService) (port : ℤ) (can_listen : ℤ → Bool)
    → (commit_object w env p.raft.raft obj).2 ≡ some true
    → obj.msg_type ≡ create_service
    → Was items
    → exist port (service_ports items) ≡ true
    → port_eq port (pos 0) ≡ false
    → p.proxy.phase ≡ selecting
    → exist (shift port) p.proxy.ports.active ≡ false
    → can_listen (shift port) ≡ true
    → (q : Poc) × Reach w Was p q
      × (q.raft.raft ≡ (commit_object w env p.raft.raft obj).0)
      × (q.applied ≡ p.applied ++ obj ∷ [])
      × (q.requests
          ≡ p.requests ++ create_a_service (Resources.node_port_service obj.object_service) ∷ [])
      × (exist (shift port) q.proxy.ports.bound ≡ true)
      × (q.proxy.phase ≡ selecting)
unfolding raft_moves client_moves client_takes proxy_takes
commit_object-listens w Was p env obj items port can_listen done kind was listed used waits free
      can =
    let ports = replicate (length items) (pos 0) ++ service_ports items in
    let request = create_a_service (Resources.node_port_service obj.object_service) in
    let committed = after_commit w p env obj in
    let taken =
      applies p.handed [] obj (λ q. true) (some items) (request ∷ []) (ports ∷ [])
        (written-commit w Was env p obj done) was (handle_event-service w Was obj items kind) in
    let ran = next (next here (commits env obj)) (aside taken) in
    let told = next ran (aside (gets_ports p.announced [] ports refl waits)) in
    let start : Proxy = record p.proxy { phase = starting ports ports } in
    let (q, moves, selects, bound) =
      starts-bound (λ prts. ⊥) port used start ports can_listen refl
        (exist-ports w Was items port listed) free can in
    (
      record (proxy_takes
          (client_moves (client_takes committed obj (p.handed ++ [])) (request ∷ []) (ports ∷ []))
          ports (p.announced ++ [])) { proxy = q },
      proxy-Reach w Was p _ q told moves,
      refl,
      refl,
      refl,
      bound,
      selects,
    )
