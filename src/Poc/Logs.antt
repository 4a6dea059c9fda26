-- ===== src/Poc/Logs.antt =====
-- poc/client.go and raft/raft.go: from the command lines of the nodes to their logs.
use k8_p2p_failover_poc.Prelude.{
  ℤ, ◌≡◌, refl, ◌⊎◌, inl, inr, String, Option, none, some, List, [], ◌∷◌, ◌++◌, All, All-weaken,
  All-append, All-get, ℕ, get_elem?, arith, subst, lookup, text_keys, Option-cases, Bool-cases,
  eq_ℤ, pos,
}
use k8_p2p_failover_poc.Kube.Resources.{KubeCmd}
use k8_p2p_failover_poc.Raft.Rpc.{Platform}
use k8_p2p_failover_poc.Raft.Loop.{Node}
use k8_p2p_failover_poc.Raft.Cluster.{Cluster, Leads}
use k8_p2p_failover_poc.Raft.Cluster.Objects.{Honest}
use k8_p2p_failover_poc.Raft.Cluster.Validity.{started, Leads-Typed}
use k8_p2p_failover_poc.Poc.{
  Line, scan_error, scanned, command_of, start_cli, test_gen_deployment_cmd, test_gen_nodeport_cmd,
}

-- One of the two commands of the command line.
abbrev pub IsOffered : KubeCmd → Type 0
IsOffered c = (test_gen_deployment_cmd ≡ some c) ⊎ (test_gen_nodeport_cmd ≡ some c)

-- `startCli` sends the command when it reads some lines.
abbrev pub IsEntered : (String → Option ℤ) → KubeCmd → Type 0
IsEntered atoi c =
    (lines : List Line) × (cmds : List KubeCmd) × (i : ℕ) × (start_cli atoi lines ≡ some cmds)
    × (get_elem? cmds i ≡ some c)

sent-IsOffered :
    (o : Option KubeCmd) (cmds : List KubeCmd)
    → ((c : KubeCmd) → o ≡ some c → IsOffered c)
    → elim o [ none ↦ none | some msg ↦ some (msg ∷ []) ] ≡ some cmds
    → All IsOffered cmds
sent-IsOffered none cmds f e = absurd cc
sent-IsOffered (some c) cmds f e =
    let q : c ∷ [] ≡ cmds = cc in subst (All IsOffered) q (f c refl, tt)

command_of-IsOffered :
    (num : ℤ) (cmds : List KubeCmd) → command_of num ≡ some cmds → All IsOffered cmds
unfolding command_of
command_of-IsOffered num cmds e = elim (Bool-cases (eq_ℤ num (pos 1))) [
  | inl p ↦ sent-IsOffered test_gen_deployment_cmd cmds (λ c f. inl f) (ground (arith, e, p))
  | inr p ↦ elim (Bool-cases (eq_ℤ num (pos 2))) [
    | inl q ↦ sent-IsOffered test_gen_nodeport_cmd cmds (λ c f. inr f) (ground (arith, e, p, q))
    | inr q ↦ let n : [] ≡ cmds = ground (arith, e, p, q) in subst (All IsOffered) n tt
  ]
]

start_cli-IsOffered :
    (atoi : String → Option ℤ) (lines : List Line) (cmds : List KubeCmd)
    → start_cli atoi lines ≡ some cmds
    → All IsOffered cmds
unfolding start_cli
start_cli-IsOffered atoi [] cmds e = let n : [] ≡ cmds = cc in subst (All IsOffered) n tt
start_cli-IsOffered atoi (scan_error ∷ lines) cmds e = start_cli-IsOffered atoi lines cmds e
start_cli-IsOffered atoi (scanned s ∷ lines) cmds e = elim (Option-cases (atoi s)) [
  | inl f ↦ start_cli-IsOffered atoi lines cmds (ground (arith, e, f))
  | inr (num, f) ↦ elim (Option-cases (command_of num)) [
    | inl g ↦ absurd (ground (arith, e, f, g))
    | inr (sent, g) ↦ elim (Option-cases (start_cli atoi lines)) [
      | inl h ↦ absurd (ground (arith, e, f, g, h))
      | inr (more, h) ↦
          let n : sent ++ more ≡ cmds = ground (arith, e, f, g, h) in
          subst (All IsOffered) n (
            All-append IsOffered sent more (command_of-IsOffered num sent g)
              (start_cli-IsOffered atoi lines more h))
    ]
  ]
]

-- If gob decodes an object as it was sent or not at all, and what a node is told to commit comes from a
-- command line, then in every state that a cluster gets to from its start, each entry of each log is one
-- of the two commands that the command line offers.
pub Leads-IsOffered :
    (w : Platform) (atoi : String → Option ℤ) (port : ℤ) (peers : List (String × List String))
    (d : Cluster) (a : String) (n : Node)
    → Honest w
    → Leads w (IsEntered atoi) (started port peers) d
    → lookup a d.nodes ≡ some n
    → All IsOffered n.raft.commit_log
Leads-IsOffered w atoi port peers d a n h r e =
    All-weaken (λ c x. All-get IsOffered x.1 x.2 c (start_cli-IsOffered atoi x.0 x.1 x.3) x.4)
      n.raft.commit_log (Leads-Typed w (IsEntered atoi) port peers d a n h r e)
