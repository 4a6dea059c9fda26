-- ===== src/Poc/System/Applied.antt =====
-- poc/client.go: what reaches the cluster of what is committed.
use k8_p2p_failover_poc.Prelude.{
  ◌≡◌, refl, sym, ap, ◌∙◌, subst, List, [], ◌∷◌, ◌++◌, append-nil, append_assoc, arith,
  Option-cases, true, none, some, Option, String, ℤ,
}
use mathlib.Core.List.{Perm, perm_middle}
use mathlib.Core.List.Perm
use k8_p2p_failover_poc.Kube.Resources.{KubeCmd}
use k8_p2p_failover_poc.Kube.Client.{ClusterService, Request}
use k8_p2p_failover_poc.Kube.Client.Start.{
  Event, new_object, announce_timer, announce_cluster_ports, handle_event,
}
use k8_p2p_failover_poc.Kube.Client.Start.Announces.{asked, requested, handle_event-asked}
use k8_p2p_failover_poc.Raft.Rpc.{Platform}
use k8_p2p_failover_poc.Raft.State.{Effect, init_raft}
use k8_p2p_failover_poc.Raft.State.Effects.{written}
use k8_p2p_failover_poc.Raft.Loop.{Node, start}
use k8_p2p_failover_poc.Raft.Commit.Log.{commit_object-Outcome}
use k8_p2p_failover_poc.Raft.Handler.Log.{handle_rpc-commit_log}
use k8_p2p_failover_poc.Raft.System.Safety.{Run-commit_log}
use k8_p2p_failover_poc.Raft.System.Quiet.{Run-written}
use k8_p2p_failover_poc.Poc.System.{
  Poc, start_poc, raft_moves, client_moves, client_takes, proxy_takes, Step, Aside, loops, serves,
  commits, aside, applies, announces, gets_ports, proxy_moves, Reach, here, next,
}

-- The requests that commands lead to.
abbrev pub cluster_requests : List KubeCmd → List Request
cluster_requests [] = []
cluster_requests (c ∷ cs) = requested (new_object c (λ q. true) none) ++ cluster_requests cs

cluster_requests-append :
    (cs ds : List KubeCmd)
    → cluster_requests (cs ++ ds) ≡ cluster_requests cs ++ cluster_requests ds
cluster_requests-append [] ds = refl
cluster_requests-append (c ∷ cs) ds =
    ap (λ l. requested (new_object c (λ q. true) none) ++ l) (cluster_requests-append cs ds)
    ∙ sym (
        append_assoc (requested (new_object c (λ q. true) none)) (cluster_requests cs)
          (cluster_requests ds))

handle_event-requested :
    (event : Event) (requests : List Request) (lists : List (List ℤ))
    → handle_event event ≡ some (requests, lists)
    → requests ≡ requested event
handle_event-requested event requests lists e =
    ground (arith, handle_event-asked event, e, Option-cases (asked event))

-- What is applied and what is on its way are the log, but for the order; and the requests to the cluster
-- are those of what is applied.
abbrev pub IsHanded : Poc → Type 0
IsHanded p =
    Perm (p.applied ++ p.handed) p.raft.raft.commit_log × (p.requests ≡ cluster_requests p.applied)

raft_moves-IsHanded :
    (p : Poc) (m : Node) (es : List Effect)
    → m.raft.commit_log ≡ p.raft.raft.commit_log ++ written es
    → IsHanded p
    → IsHanded (raft_moves p m es)
unfolding raft_moves
raft_moves-IsHanded p m es e (h, q) =
    (rw (e, ← append_assoc p.applied p.handed (written es)) (Perm.append_right (written es) h), q)

takes-IsHanded :
    (p : Poc) (before after : List KubeCmd) (c : KubeCmd)
    → p.handed ≡ before ++ c ∷ after
    → Perm (p.applied ++ p.handed) p.raft.raft.commit_log
    → Perm ((p.applied ++ c ∷ []) ++ (before ++ after)) p.raft.raft.commit_log
takes-IsHanded p before after c e h =
    let moved = Perm.append_left p.applied (Perm.symm (perm_middle before after)) in
    let whole = subst (λ l. Perm (p.applied ++ l) p.raft.raft.commit_log) e h in
    rw (append_assoc p.applied (c ∷ []) (before ++ after)) (Perm.trans moved whole)

-- The requests stay those of the commands that the client has got.
pub Aside-requests :
    {Was : List ClusterService → Type 0} (p q : Poc)
    → Aside Was p q
    → p.requests ≡ cluster_requests p.applied
    → q.requests ≡ cluster_requests q.applied
unfolding client_moves client_takes proxy_takes
Aside-requests p q (applies before after c accepts services requests lists e r f) h =
    rw
      (
        cluster_requests-append p.applied (c ∷ []),
        h,
        handle_event-requested (new_object c accepts services) requests lists f,
        append-nil (requested (new_object c (λ q. true) none)),
      )
      refl
Aside-requests p q (announces services requests lists r e) h =
    rw (handle_event-requested (announce_timer services) requests lists e)
      (append-nil p.requests ∙ h)
Aside-requests p q (gets_ports before after prts e f) h = h
Aside-requests p q (proxy_moves s) h = h

Aside-IsHanded :
    {Was : List ClusterService → Type 0} (p q : Poc) → Aside Was p q → IsHanded p → IsHanded q
unfolding client_moves client_takes proxy_takes
Aside-IsHanded p q (applies before after c accepts services requests lists e r f) h = (
  takes-IsHanded p before after c e h.0,
  Aside-requests p q (applies before after c accepts services requests lists e r f) h.1,
)
Aside-IsHanded p q (announces services requests lists r e) h =
    (h.0, Aside-requests p q (announces services requests lists r e) h.1)
Aside-IsHanded p q (gets_ports before after prts e f) h = h
Aside-IsHanded p q (proxy_moves s) h = h

Step-IsHanded :
    {w : Platform} {Was : List ClusterService → Type 0} (p q : Poc)
    → Step w Was p q
    → IsHanded p
    → IsHanded q
Step-IsHanded p q (loops {m} {es} run) h =
    raft_moves-IsHanded p m es
      (Run-commit_log run
        ∙ sym (
            ap (λ l. p.raft.raft.commit_log ++ l) (Run-written _ run)
            ∙ append-nil p.raft.raft.commit_log))
      h
Step-IsHanded {w} p q (serves env rp) h =
    raft_moves-IsHanded p _ _ (handle_rpc-commit_log w env p.raft.raft rp).0 h
Step-IsHanded {w} p q (commits env obj) h =
    raft_moves-IsHanded p _ _ (commit_object-Outcome w env p.raft.raft obj).0 h
Step-IsHanded p q (aside s) h = Aside-IsHanded p q s h

start_poc-IsHanded :
    (ip : String) (port : ℤ) (peers : List String) (services : Option (List ClusterService))
    (p : Poc)
    → start_poc ip port peers services ≡ some p
    → IsHanded p
unfolding start_poc start init_raft
start_poc-IsHanded ip port peers services p e =
    let first : (p.applied ++ p.handed ≡ p.raft.raft.commit_log)
        × (p.requests ≡ cluster_requests p.applied) =
      ground (arith, e, Option-cases (announce_cluster_ports services)) in
    (subst (Perm (p.applied ++ p.handed)) first.0 (Perm.refl _), first.1)

-- However the parts of a node interleave, the commands that its cluster has been given and those that are
-- on their way to it are together the log, each as often as it stands there but in any order, and the
-- requests that are made are those of the commands that it has been given.
pub Reach-IsHanded :
    (w : Platform) (Was : List ClusterService → Type 0) (ip : String) (port : ℤ)
    (peers : List String) (services : Option (List ClusterService)) (p q : Poc)
    → start_poc ip port peers services ≡ some p
    → Reach w Was p q
    → Perm (q.applied ++ q.handed) q.raft.raft.commit_log
      × (q.requests ≡ cluster_requests q.applied)
Reach-IsHanded w Was ip port peers services p q e here =
    start_poc-IsHanded ip port peers services p e
Reach-IsHanded w Was ip port peers services p q e (next {q = m} r s) =
    Step-IsHanded m q s (Reach-IsHanded w Was ip port peers services p m e r)
