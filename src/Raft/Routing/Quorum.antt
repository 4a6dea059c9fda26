-- ===== src/Raft/Routing/Quorum.antt =====
-- raft/routing.go: the quorum of `LockRoutingTableEntries`.
use k8_p2p_failover_poc.Prelude.{
  ℕ, suc, ◌+◌, ◌≤◌, ◌<◌, ◌≡◌, refl, Bool, true, List, [], ◌∷◌, if◌then◌else◌, length, arith,
  Bool-cases, inl, inr, get_elem?, some,
}
use k8_p2p_failover_poc.Raft.Routing.{PeerRouting, lock_routing_table_entries}

-- How many nodes of a list a set holds.
abbrev pub size {ℓ} : {A : Type ℓ} → (A → Bool) → List A → ℕ
size f [] = 0
size f (x ∷ xs) = (if f x then 1 else 0) + size f xs

-- Two sets of nodes that together outnumber the nodes have one in common.
sets_meet {ℓ} :
    {A : Type ℓ} (f g : A → Bool) (nodes : List A)
    → length nodes < size f nodes + size g nodes
    → (i : ℕ) × (x : A) × (get_elem? nodes i ≡ some x) × (f x ≡ true) × (g x ≡ true)
sets_meet f g [] h = absurd (omega arith)
sets_meet f g (x ∷ xs) h = elim (Bool-cases (f x)) [
  | inl a ↦ elim (Bool-cases (g x)) [
    | inl b ↦ (0, x, refl, a, b)
    | inr b ↦ (let (i, y, p, q, r) = sets_meet f g xs (ground arith) in (suc i, y, p, q, r))
  ]
  | inr a ↦ (let (i, y, p, q, r) = sets_meet f g xs (ground arith) in (suc i, y, p, q, r))
]

-- A node that gets the votes of a quorum of its peers has, with itself, more than half of the
-- cluster: any two sets of nodes of that size share a node. The nodes are the peers and one more.
pub quorums_meet {ℓ} :
    {A : Type ℓ} (p : PeerRouting) (f g : A → Bool) (nodes : List A)
    → length nodes ≡ length p.table + 1
    → (lock_routing_table_entries p).1 + 1 ≤ size f nodes
    → (lock_routing_table_entries p).1 + 1 ≤ size g nodes
    → (i : ℕ) × (x : A) × (get_elem? nodes i ≡ some x) × (f x ≡ true) × (g x ≡ true)
unfolding lock_routing_table_entries
quorums_meet p f g nodes n hf hg = sets_meet f g nodes (omega arith)
