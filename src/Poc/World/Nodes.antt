-- ===== src/Poc/World/Nodes.antt =====
-- The raft nodes of all nodes, as parts of these move.
use k8_p2p_failover_poc.Prelude.{
  ◌≡◌, refl, ap, String, some, List, [], ◌∷◌, lookup, insert, text_keys, ◌==◌, eq_iff, arith,
  Bool-cases, inl, inr,
}
use k8_p2p_failover_poc.Kube.Client.{ClusterService}
use k8_p2p_failover_poc.Poc.System.{
  Poc, client_moves, client_takes, proxy_takes, Aside, applies, announces, gets_ports, proxy_moves,
}
use k8_p2p_failover_poc.Poc.World.{raft_nodes}

pub lookup-raft_nodes :
    (a : String) (p : Poc) (nodes : List (String × Poc))
    → lookup a nodes ≡ some p
    → lookup a (raft_nodes nodes) ≡ some p.raft
unfolding lookup
lookup-raft_nodes a p [] e = absurd cc
lookup-raft_nodes a p ((b, q) ∷ nodes) e = elim (Bool-cases (b == a)) [
  | inl s ↦ let same : q ≡ p = ground (arith, s, e) in rw s (ap (λ (x : Poc). some x.raft) same)
  | inr s ↦ rw s (lookup-raft_nodes a p nodes (ground (arith, s, e)))
]

pub insert-raft_nodes :
    (a : String) (p : Poc) (nodes : List (String × Poc))
    → raft_nodes (insert a p nodes) ≡ insert a p.raft (raft_nodes nodes)
unfolding insert
insert-raft_nodes a p [] = refl
insert-raft_nodes a p ((b, q) ∷ nodes) = elim (Bool-cases (b == a)) [
  | inl s ↦ rw s refl
  | inr s ↦ rw s (ap (λ l. (b, q.raft) ∷ l) (insert-raft_nodes a p nodes))
]

pub insert-same_raft :
    (a : String) (p q : Poc) (nodes : List (String × Poc))
    → lookup a nodes ≡ some p
    → q.raft ≡ p.raft
    → raft_nodes (insert a q nodes) ≡ raft_nodes nodes
unfolding insert lookup
insert-same_raft a p q [] e r = absurd cc
insert-same_raft a p q ((b, x) ∷ nodes) e r = elim (Bool-cases (b == a)) [
  | inl s ↦
      let same : x ≡ p = ground (arith, s, e) in
      let at : b ≡ a = ground (arith, s, eq_iff b a) in rw (s, r, ← same, ← at) refl
  | inr s ↦ rw s (ap (λ l. (b, x.raft) ∷ l) (insert-same_raft a p q nodes (ground (arith, s, e)) r))
]

pub Aside-raft : {Was : List ClusterService → Type 0} (p q : Poc) → Aside Was p q → q.raft ≡ p.raft
unfolding client_moves client_takes proxy_takes
Aside-raft p q (applies before after c accepts services requests lists e r f) = refl
Aside-raft p q (announces services requests lists r e) = refl
Aside-raft p q (gets_ports before after prts e f) = refl
Aside-raft p q (proxy_moves s) = refl
