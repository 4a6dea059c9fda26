-- ===== src/Poc/World/Created.antt =====
-- From the command lines of all nodes to the requests that each of them makes to its cluster.
use k8_p2p_failover_poc.Prelude.{
  ◌≡◌, refl, sym, ap, subst, ℤ, String, Option, some, List, [], ◌∷◌, ◌++◌, All, All-append,
  All-middle, lookup, insert, lookup-insert, text_keys, ◌==◌, arith, Bool-cases, Option-cases, inl,
  inr,
}
use k8_p2p_failover_poc.Kube.Resources.{KubeCmd}
use k8_p2p_failover_poc.Kube.Client.{ClusterService}
use k8_p2p_failover_poc.Kube.Client.Start.{announce_cluster_ports}
use k8_p2p_failover_poc.Raft.Rpc.{Platform}
use k8_p2p_failover_poc.Raft.State.{Effect}
use k8_p2p_failover_poc.Raft.State.Effects.{written}
use k8_p2p_failover_poc.Raft.Loop.{Node, start}
use k8_p2p_failover_poc.Raft.Cluster.{mails}
use k8_p2p_failover_poc.Raft.Cluster.Objects.{Honest, Clean, All-written}
use k8_p2p_failover_poc.Raft.Cluster.Validity.{
  Sound, moved-Sound, Act-Sound, started, started-Sound,
}
use k8_p2p_failover_poc.Poc.System.{
  Poc, start_poc, raft_moves, client_moves, client_takes, proxy_takes, Aside, applies, announces,
  gets_ports, proxy_moves,
}
use k8_p2p_failover_poc.Poc.System.Applied.{cluster_requests, Aside-requests}
use k8_p2p_failover_poc.Poc.World.Nodes.{
  lookup-raft_nodes, insert-raft_nodes, insert-same_raft, Aside-raft,
}
use k8_p2p_failover_poc.Poc.World.{
  World, raft_nodes, raft_of, Step, acts, asides, Reach, here, next,
}

module _ (w : Platform) (Typed : KubeCmd → Type 0) (h : Honest w) where
  -- What the client has got and is about to get was typed, and its requests are those of these commands.
  record Obeys (p : Poc) : Type 0 where
    applied : All Typed p.applied
    handed : All Typed p.handed
    requests : p.requests ≡ cluster_requests p.applied

  raft_moves-Obeys :
      (p : Poc) (m : Node) (es : List Effect)
      → All (Clean w Typed) es
      → Obeys p
      → Obeys (raft_moves p m es)
  unfolding raft_moves
  raft_moves-Obeys p m es k o = record {
    applied = o.applied;
    handed = All-append Typed p.handed (written es) o.handed (All-written w Typed es k);
    requests = o.requests;
  }

  Aside-Obeys : {Was : List ClusterService → Type 0} (p q : Poc) → Aside Was p q → Obeys p → Obeys q
  unfolding client_moves client_takes proxy_takes
  Aside-Obeys p q (applies before after c accepts services requests lists e r f) o =
      let (typed, rest) = All-middle Typed before after c (subst (All Typed) e o.handed) in
      record {
        applied = All-append Typed p.applied (c ∷ []) o.applied (typed, tt);
        handed = rest;
        requests =
            Aside-requests p q (applies before after c accepts services requests lists e r f)
              o.requests;
      }
  Aside-Obeys p q (announces services requests lists r e) o = record {
    applied = o.applied;
    handed = o.handed;
    requests = Aside-requests p q (announces services requests lists r e) o.requests;
  }
  Aside-Obeys p q (gets_ports before after prts e f) o = record {
    applied = o.applied;
    handed = o.handed;
    requests = o.requests;
  }
  Aside-Obeys p q (proxy_moves s) o = record {
    applied = o.applied;
    handed = o.handed;
    requests = o.requests;
  }

  record Valid (v : World) : Type 0 where
    sound : Sound w Typed h (raft_of v)
    obey : (a : String) (p : Poc) → lookup a v.nodes ≡ some p → Obeys p

  insert-Obeys :
      (a : String) (q : Poc) (nodes : List (String × Poc))
      → Obeys q
      → ((b : String) (p : Poc) → lookup b nodes ≡ some p → Obeys p)
      → (b : String) (p : Poc) → lookup b (insert a q nodes) ≡ some p
      → Obeys p
  insert-Obeys a q nodes o all b p e = elim (Bool-cases (a == b)) [
    | inl s ↦
        let same : q ≡ p = ground (arith, s, e, lookup-insert a b q nodes) in subst Obeys same o
    | inr s ↦ all b p (ground (arith, s, e, lookup-insert a b q nodes))
  ]

  Step-Valid :
      {Was : String → List ClusterService → Type 0} (v u : World)
      → Step w Was Typed v u
      → Valid v
      → Valid u
  unfolding raft_moves
  Step-Valid v u (acts a p m es e act) s =
      let (log, sent) =
        Act-Sound w Typed h a p.raft m es act (lookup-raft_nodes a.ip p v.nodes e) s.sound in
      let next = moved-Sound w Typed h (raft_of v) a m es s.sound log sent in
      record {
        sound =
            subst
              (λ (l : List (String × Node)).
                Sound w Typed h (record { nodes = l; sent = v.sent ++ mails a es }))
              (sym (insert-raft_nodes a.ip (raft_moves p m es) v.nodes)) next;
        obey =
            insert-Obeys a.ip (raft_moves p m es) v.nodes
              (raft_moves-Obeys p m es sent (s.obey a.ip p e)) s.obey;
      }
  Step-Valid v u (asides a p q e st) s = record {
    sound =
        subst (λ (l : List (String × Node)). Sound w Typed h (record { nodes = l; sent = v.sent }))
          (sym (insert-same_raft a p q v.nodes e (Aside-raft p q st))) s.sound;
    obey = insert-Obeys a q v.nodes (Aside-Obeys p q st (s.obey a p e)) s.obey;
  }

  Reach-Valid :
      {Was : String → List ClusterService → Type 0} (v u : World)
      → Reach w Was Typed v u
      → Valid v
      → Valid u
  Reach-Valid v u here s = s
  Reach-Valid v u (next {u = x} r st) s = Step-Valid x u st (Reach-Valid v x r s)

-- Every node has been started at its address, with its peers, and has not panicked.
abbrev pub AllStart : ℤ → List (String × List String) → List (String × Poc) → Type 0
AllStart port [] [] = Unit
AllStart port ((a, ps) ∷ peers) ((b, p) ∷ nodes) =
    (b ≡ a)
    × ((services : Option (List ClusterService)) × (start_poc a port ps services ≡ some p))
    × AllStart port peers nodes
AllStart port _ _ = ⊥

start_poc-fresh :
    (a : String) (port : ℤ) (ps : List String) (services : Option (List ClusterService)) (p : Poc)
    → start_poc a port ps services ≡ some p
    → (p.raft ≡ start a port ps) × (p.applied ≡ []) × (p.handed ≡ []) × (p.requests ≡ [])
unfolding start_poc
start_poc-fresh a port ps services p e =
    ground (arith, e, Option-cases (announce_cluster_ports services))

AllStart-raft :
    (port : ℤ) (peers : List (String × List String)) (nodes : List (String × Poc))
    → AllStart port peers nodes
    → raft_nodes nodes ≡ (started port peers).nodes
AllStart-raft port [] [] s = refl
AllStart-raft port [] (n ∷ nodes) s = absurd s
AllStart-raft port (peer ∷ peers) [] s = absurd s
AllStart-raft port ((a, ps) ∷ peers) ((b, p) ∷ nodes) (e, (services, f), rest) =
    rw (e, (start_poc-fresh a port ps services p f).0)
      (ap (λ l. (a, start a port ps) ∷ l) (AllStart-raft port peers nodes rest))

AllStart-Obeys :
    (w : Platform) (Typed : KubeCmd → Type 0) (h : Honest w) (port : ℤ)
    (peers : List (String × List String)) (nodes : List (String × Poc)) (a : String) (p : Poc)
    → AllStart port peers nodes
    → lookup a nodes ≡ some p
    → Obeys w Typed h p
unfolding lookup
AllStart-Obeys w Typed h port [] [] a p s e = absurd cc
AllStart-Obeys w Typed h port [] (n ∷ nodes) a p s e = absurd s
AllStart-Obeys w Typed h port (peer ∷ peers) [] a p s e = absurd s
AllStart-Obeys w Typed h port ((c, ps) ∷ peers) ((b, q) ∷ nodes) a p (k, (services, f), rest) e =
    elim (Bool-cases (b == a)) [
      | inl s ↦
          let same : q ≡ p = ground (arith, s, e) in
          let (raft, applied, handed, requests) = start_poc-fresh c port ps services q f in
          subst (Obeys w Typed h) same (record {
            applied = rw applied tt;
            handed = rw handed tt;
            requests = rw (applied, requests) refl;
          })
      | inr s ↦ AllStart-Obeys w Typed h port peers nodes a p rest (ground (arith, s, e))
    ]

-- If gob decodes an object as it was sent or not at all, then in every state that the whole of the nodes
-- gets to from its start, whatever is lost, repeated or reordered, the requests that a node has made to
-- its cluster are those of commands that were typed at some node.
pub Reach-created :
    (w : Platform) (Was : String → List ClusterService → Type 0) (Typed : KubeCmd → Type 0)
    (port : ℤ) (peers : List (String × List String)) (v u : World) (a : String) (p : Poc)
    → Honest w
    → AllStart port peers v.nodes
    → v.sent ≡ []
    → Reach w Was Typed v u
    → lookup a u.nodes ≡ some p
    → All Typed p.applied × (p.requests ≡ cluster_requests p.applied)
Reach-created w Was Typed port peers v u a p h s e r at =
    let same : started port peers ≡ raft_of v = rw (e, AllStart-raft port peers v.nodes s) refl in
    let first : Valid w Typed h v = record {
      sound = subst (Sound w Typed h) same (started-Sound w Typed h port peers);
      obey = λ b q. AllStart-Obeys w Typed h port peers v.nodes b q s;
    } in
    let o = (Reach-Valid w Typed h v u r first).obey a p at in (o.applied, o.requests)
