-- ===== src/Proxy/System/Listeners.antt =====
-- proxy/proxy.go: which ports the proxy listens on.
use k8_p2p_failover_poc.Prelude.{
  ℤ, pos, ◌-ℤ◌, Bool, true, false, ◌≡◌, ◌⊎◌, refl, sym, ap, ◌∙◌, subst, ◌||◌, List, [], ◌∷◌, ◌++◌,
  some, length, arith, Bool-cases, inl, inr,
}
use k8_p2p_failover_poc.Kube.Client.{ClusterService, service_ports, get_cluster_node_ports}
use k8_p2p_failover_poc.Proxy.Ports.Announced.{exist-replicate}
use k8_p2p_failover_poc.Proxy.Ports.{
  Ports, port_eq, exist, listen_port, visit_port, remove_port, remove_ports,
  local_dev_port_proxy_shift,
}
use k8_p2p_failover_poc.Proxy.Ports.Laws.{port_eq_iff, exist-delete, unshift, shift, unshift-shift}
use k8_p2p_failover_poc.Proxy.System.{
  Phase, selecting, starting, Proxy, init_proxy, start_port, end_check, open_port, Step, gets_ports,
  gets_nodes, starts, ends, opens, Reach, here, next,
}

pub exist-append : (k : ℤ) (l m : List ℤ) → exist k (l ++ m) ≡ (exist k l || exist k m)
unfolding exist
exist-append k [] m = refl
exist-append k (c ∷ l) m = ground (arith, exist-append k l m)

module _ (Announced : List ℤ → Type 0) where
  -- The port was announced, and is not zero.
  abbrev pub Known : ℤ → Type 0
  Known k =
      (prts : List ℤ) × Announced prts
      × (exist (k -ℤ local_dev_port_proxy_shift) prts ≡ true)
      × (port_eq (k -ℤ local_dev_port_proxy_shift) (pos 0) ≡ false)

  abbrev AllKnown : List ℤ → Type 0
  AllKnown l = (k : ℤ) → exist k l ≡ true → Known k

  abbrev pub Expected : Phase → Type 0
  Expected selecting = Unit
  Expected (starting left prts) =
      Announced prts × ((k : ℤ) → exist k left ≡ true → exist k prts ≡ true)

  record Sound (p : Proxy) : Type 0 where
    listeners : AllKnown p.ports.bound
    queue : AllKnown p.opening
    expected : Expected p.phase

  remove_ports-bound :
      (prts : List ℤ) (p : Ports) (ports : List ℤ) (k : ℤ)
      → exist k (remove_ports prts p ports).bound ≡ true
      → exist k p.bound ≡ true
  unfolding remove_ports visit_port remove_port
  remove_ports-bound prts p [] k e = e
  remove_ports-bound prts p (q ∷ ports) k e =
      let f = remove_ports-bound prts (visit_port prts p q) ports k e in
      ground (arith, f, exist-delete k q p.bound)

  listen_port-bound :
      (can_listen : ℤ → Bool) (p : Ports) (port k : ℤ)
      → exist k (listen_port can_listen p port).bound ≡ true
      → (exist k p.bound ≡ true) ⊎ (k ≡ port)
  unfolding listen_port exist
  listen_port-bound can_listen p port k e = ground (arith, e, port_eq_iff k port)

  -- A port of the list that has arrived, shifted.
  arrived-Known :
      (port k : ℤ) (left prts : List ℤ)
      → Expected (starting (port ∷ left) prts)
      → port_eq port (pos 0) ≡ false
      → k ≡ shift port
      → Known k
  unfolding exist
  arrived-Known port k left prts (a, f) z e =
      let q : unshift k ≡ port = ap unshift e ∙ unshift-shift port in
      (
        prts,
        a,
        f (unshift k) (rw (exist, (port_eq_iff (unshift k) port).1 q) refl),
        subst (λ n. port_eq n (pos 0) ≡ false) (sym q) z,
      )

  starts-queue :
      (p : Proxy) (port : ℤ) (left prts : List ℤ) (k : ℤ)
      → AllKnown p.opening
      → Expected (starting (port ∷ left) prts)
      → exist k (start_port p port left prts).opening ≡ true
      → Known k
  unfolding start_port exist
  starts-queue p port left prts k q x e = elim (Bool-cases (exist k p.opening)) [
    | inl f ↦ q k f
    | inr f ↦
        arrived-Known port k left prts x (ground (arith, e, f))
          (ground (arith, e, f, port_eq_iff k (shift port)))
  ]

  pub Step-Expected : (p q : Proxy) → Step Announced p q → Expected p.phase → Expected q.phase
  unfolding end_check open_port start_port exist
  Step-Expected p q (gets_ports prts e a) x = (a, λ k f. f)
  Step-Expected p q (gets_nodes nodes e) x = x
  Step-Expected p q (starts port left prts e) x =
      let y : Expected (starting (port ∷ left) prts) = subst Expected e x in
      (y.0, λ k f. y.1 k (ground (arith, f)))
  Step-Expected p q (ends prts e) x = tt
  Step-Expected p q (opens can_listen before after port e) x = x

  Step-listeners : (p q : Proxy) → Step Announced p q → Sound p → AllKnown q.ports.bound
  unfolding end_check open_port start_port exist
  Step-listeners p q (ends prts e) s k f =
      s.listeners k (remove_ports-bound prts p.ports p.ports.active k f)
  Step-listeners p q (opens can_listen before after port e) s k f =
      elim (listen_port-bound can_listen p.ports port k f) [
        | inl g ↦ s.listeners k g
        | inr g ↦
            s.queue k
              (rw (e, exist-append k before (port ∷ after)) (ground (arith, port_eq_iff k port)))
      ]
  Step-listeners p q (gets_ports prts e a) s k f = s.listeners k f
  Step-listeners p q (gets_nodes nodes e) s k f = s.listeners k f
  Step-listeners p q (starts port left prts e) s k f = s.listeners k f

  Step-queue : (p q : Proxy) → Step Announced p q → Sound p → AllKnown q.opening
  unfolding end_check open_port exist
  Step-queue p q (starts port left prts e) s k f =
      starts-queue p port left prts k s.queue (subst Expected e s.expected) f
  Step-queue p q (opens can_listen before after port e) s k f = s.queue k (
      rw (e, exist-append k before (port ∷ after)) (ground (arith, exist-append k before after, f)))
  Step-queue p q (gets_ports prts e a) s k f = s.queue k f
  Step-queue p q (gets_nodes nodes e) s k f = s.queue k f
  Step-queue p q (ends prts e) s k f = s.queue k f

  init-Sound : Sound init_proxy
  unfolding init_proxy exist
  init-Sound = record { listeners = λ k e. absurd cc; queue = λ k e. absurd cc; expected = tt }

  Reach-Sound : (q : Proxy) → Reach Announced init_proxy q → Sound q
  Reach-Sound q here = init-Sound
  Reach-Sound q (next {q = p} r s) =
      let sound = Reach-Sound p r in
      record {
        listeners = Step-listeners p q s sound;
        queue = Step-queue p q s sound;
        expected = Step-Expected p q s sound.expected;
      }

-- What the client of the cluster announces, where the cluster has had the services `Was`.
abbrev pub FromCluster : (List ClusterService → Type 0) → List ℤ → Type 0
FromCluster Was prts =
    (items : List ClusterService) × Was items × ((get_cluster_node_ports (some items)).0 ≡ prts)

-- If the proxy gets its ports from the client of the cluster, then however its goroutines interleave, it
-- listens only at node ports that a service of the cluster has had, shifted by 100, and none of them is
-- zero.
pub Reach-service_ports :
    (Was : List ClusterService → Type 0) (q : Proxy) (k : ℤ)
    → Reach (FromCluster Was) init_proxy q
    → exist k q.ports.bound ≡ true
    → (items : List ClusterService) × Was items
      × (exist (k -ℤ local_dev_port_proxy_shift) (service_ports items) ≡ true)
      × (port_eq (k -ℤ local_dev_port_proxy_shift) (pos 0) ≡ false)
unfolding get_cluster_node_ports
Reach-service_ports Was q k r e =
    let (prts, (items, was, announced), found, nonzero) =
      (Reach-Sound (FromCluster Was) q r).listeners k e in
    (
      items,
      was,
      ground (
        arith,
        announced,
        found,
        nonzero,
        exist-replicate (length items) (unshift k) (service_ports items),
      ),
      nonzero,
    )
