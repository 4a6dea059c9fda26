-- ===== src/Poc/System/Listening.antt =====
-- poc/client.go: from the services of a node's cluster to the ports of its proxy.
use k8_p2p_failover_poc.Prelude.{
  ℤ, pos, ◌-ℤ◌, ◌≡◌, refl, subst, true, false, Bool, String, Option, none, some, List, [], ◌∷◌, All,
  All-append, All-middle, arith, Option-cases, inl, inr,
}
use k8_p2p_failover_poc.Kube.Resources.{KubeCmd}
use k8_p2p_failover_poc.Kube.Client.{ClusterService, Request, service_ports, get_cluster_node_ports}
use k8_p2p_failover_poc.Kube.Client.Start.{
  Event, new_object, announce_timer, announce_cluster_ports, handle_event,
}
use k8_p2p_failover_poc.Kube.Client.Start.Announces.{asked, handle_event-asked}
use k8_p2p_failover_poc.Proxy.Ports.{exist, port_eq, local_dev_port_proxy_shift}
use k8_p2p_failover_poc.Proxy.System.{Proxy, init_proxy}
use k8_p2p_failover_poc.Proxy.System
use k8_p2p_failover_poc.Proxy.System.Listeners.{FromCluster, Reach-service_ports}
use k8_p2p_failover_poc.Raft.Rpc.{Platform}
use k8_p2p_failover_poc.Poc.System.{
  Poc, start_poc, raft_moves, client_moves, client_takes, proxy_takes, Returns, Step, Aside, loops,
  serves, commits, aside, applies, announces, gets_ports, proxy_moves, Reach, here, next,
}

module _ (Was : List ClusterService → Type 0) where
  event_lists :
      (event : Event) (requests : List Request) (lists : List (List ℤ))
      → ((services : Option (List ClusterService))
          → asked event ≡ some services
          → Returns Was services)
      → handle_event event ≡ some (requests, lists)
      → All (FromCluster Was) lists
  event_lists event requests lists was e = elim (Option-cases (asked event)) [
    | inl a ↦
        let n : [] ≡ lists = ground (arith, handle_event-asked event, e, a) in
        subst (All (FromCluster Was)) n tt
    | inr (none, a) ↦ absurd (ground (arith, handle_event-asked event, e, a))
    | inr (some items, a) ↦
        let n : (get_cluster_node_ports (some items)).0 ∷ [] ≡ lists =
          ground (arith, handle_event-asked event, e, a) in
        subst (All (FromCluster Was)) n ((items, was (some items) a, refl), tt)
  ]

  -- A proxy that gets no list moves as one that may.
  weakened : {p q : Proxy} → System.Step (λ prts. ⊥) p q → System.Step (FromCluster Was) p q
  weakened (System.gets_ports prts e a) = absurd a
  weakened (System.gets_nodes nodes e) = System.gets_nodes nodes e
  weakened (System.starts port left prts e) = System.starts port left prts e
  weakened (System.ends prts e) = System.ends prts e
  weakened (System.opens can_listen before after port e) =
      System.opens can_listen before after port e

  -- What is announced, and how the proxy has moved.
  abbrev IsFed : Poc → Type 0
  IsFed p = System.Reach (FromCluster Was) init_proxy p.proxy × All (FromCluster Was) p.announced

  Aside-IsFed : (p q : Poc) → Aside Was p q → IsFed p → IsFed q
  unfolding client_moves client_takes proxy_takes
  Aside-IsFed p q (applies before after c accepts services requests lists e r f) h = (
    h.0,
    All-append (FromCluster Was) p.announced lists h.1 (
        event_lists (new_object c accepts services) requests lists
          (λ s a. subst (Returns Was) (new_asks c accepts services s a) r) f),
  )
    where
      new_asks :
          (c : KubeCmd) (accepts : Request → Bool) (services s : Option (List ClusterService))
          → asked (new_object c accepts services) ≡ some s
          → services ≡ s
      new_asks c accepts services s a = ground (arith, a)
  Aside-IsFed p q (announces services requests lists r e) h = (
    h.0,
    All-append (FromCluster Was) p.announced lists h.1 (
        event_lists (announce_timer services) requests lists
          (λ s a. let n : services ≡ s = cc in subst (Returns Was) n r) e),
  )
  Aside-IsFed p q (gets_ports before after prts e f) h =
      let (a, rest) =
        All-middle (FromCluster Was) before after prts (subst (All (FromCluster Was)) e h.1) in
      (System.next h.0 (System.gets_ports prts f a), rest)
  Aside-IsFed p q (proxy_moves s) h = (System.next h.0 (weakened s), h.1)

  Step-IsFed : {w : Platform} (p q : Poc) → Step w Was p q → IsFed p → IsFed q
  unfolding raft_moves
  Step-IsFed p q (loops run) h = h
  Step-IsFed p q (serves env rp) h = h
  Step-IsFed p q (commits env obj) h = h
  Step-IsFed p q (aside s) h = Aside-IsFed p q s h

  start_poc-IsFed :
      (ip : String) (port : ℤ) (peers : List String) (services : Option (List ClusterService))
      (p : Poc)
      → Returns Was services
      → start_poc ip port peers services ≡ some p
      → IsFed p
  unfolding start_poc announce_cluster_ports get_cluster_node_ports
  start_poc-IsFed ip port peers none p r e = absurd (ground (arith, e))
  start_poc-IsFed ip port peers (some items) p r e =
      let n : init_proxy ≡ p.proxy = ground (arith, e) in
      let m : (get_cluster_node_ports (some items)).0 ∷ [] ≡ p.announced = ground (arith, e) in
      (
        subst (System.Reach (FromCluster Was) init_proxy) n System.here,
        subst (All (FromCluster Was)) m ((items, r, refl), tt),
      )

  Reach-IsFed : {w : Platform} (p q : Poc) → Reach w Was p q → IsFed p → IsFed q
  Reach-IsFed p q here h = h
  Reach-IsFed p q (next {q = m} r s) h = Step-IsFed m q s (Reach-IsFed p m r h)

  -- However the parts of a node interleave, its proxy listens only at node ports, shifted by 100, of
  -- services that the node's cluster has had, and none of them is zero.
  pub Reach-listens :
      (w : Platform) (ip : String) (port : ℤ) (peers : List String)
      (services : Option (List ClusterService)) (p q : Poc) (k : ℤ)
      → Returns Was services
      → start_poc ip port peers services ≡ some p
      → Reach w Was p q
      → exist k q.proxy.ports.bound ≡ true
      → (items : List ClusterService) × Was items
        × (exist (k -ℤ local_dev_port_proxy_shift) (service_ports items) ≡ true)
        × (port_eq (k -ℤ local_dev_port_proxy_shift) (pos 0) ≡ false)
  Reach-listens w ip port peers services p q k r e s b =
      Reach-service_ports Was q.proxy k
        (Reach-IsFed p q s (start_poc-IsFed ip port peers services p r e)).0 b
