-- ===== src/Proxy/Forward/Shuffle.antt =====
-- proxy/proxy.go: the order in which peers and nodes are tried.
use k8_p2p_failover_poc.Prelude.{
  ℕ, zero, suc, ◌≡◌, refl, ◌≢◌, inl, inr, String, none, some, List, [], ◌∷◌, ◌==◌, text_keys,
  eq_iff, Option-cases, Bool-cases, get_elem?, set, nat_beq, nat_beq_iff, ◌∙◌, arith, subst,
}
use mathlib.Core.Logic.Or
use mathlib.Core.HLevel.{⊥_prop}
use mathlib.Core.List.{
  Mem, Perm, not-mem-nil, mem-cons_self, mem-cons_of_mem, eq-or-mem_of_mem-cons,
}
use mathlib.Core.List.Perm
use k8_p2p_failover_poc.Proxy.Forward.{swap, shuffle, first_address, get_random_peer_addr}

module _ {ℓ} {A : Type ℓ} where
  -- An entry that is overwritten changes places with the new one.
  cons-set : (l : List A) (i : ℕ) (a b : A) → get_elem? l i ≡ some b → Perm (b ∷ set l i a) (a ∷ l)
  cons-set [] i a b e = absurd cc
  cons-set (x ∷ l) zero a b e = let p : x ≡ b = cc in rw p (Perm.swap a b l)
  cons-set (x ∷ l) (suc i) a b e =
      Perm.trans (Perm.swap x b _) (Perm.trans (Perm.cons x (cons-set l i a b e)) (Perm.swap a x l))

  get-set_self :
      (l : List A) (i : ℕ) (a b : A) → get_elem? l i ≡ some a → get_elem? (set l i b) i ≡ some b
  get-set_self [] i a b e = absurd cc
  get-set_self (x ∷ l) zero a b e = refl
  get-set_self (x ∷ l) (suc i) a b e = get-set_self l i a b e

  get-set_other : (l : List A) (i j : ℕ) (b : A) → i ≢ j → get_elem? (set l i b) j ≡ get_elem? l j
  get-set_other [] i j b n = refl
  get-set_other (x ∷ l) zero zero b n = absurd (n refl)
  get-set_other (x ∷ l) zero (suc j) b n = refl
  get-set_other (x ∷ l) (suc i) zero b n = refl
  get-set_other (x ∷ l) (suc i) (suc j) b n = get-set_other l i j b (omega arith)

  get-set_swapped :
      (l : List A) (n i : ℕ) (a b : A)
      → get_elem? l n ≡ some a
      → get_elem? l i ≡ some b
      → get_elem? (set l n b) i ≡ some b
  get-set_swapped l n i a b e f = elim (Bool-cases (nat_beq n i)) [
    | inl p ↦
        rw ((nat_beq_iff n i).0 p)
          (get-set_self l i a b (subst (λ k. get_elem? l k ≡ some a) ((nat_beq_iff n i).0 p) e))
    | inr p ↦ get-set_other l n i b (λ q. ground (arith, p, q)) ∙ f
  ]

  swap-Perm : (l : List A) (n i : ℕ) → Perm (swap l n i) l
  unfolding swap
  swap-Perm l n i = elim (Option-cases (get_elem? l n)) [
    | inl e ↦ rw (swap, e) (Perm.refl l)
    | inr (a, e) ↦ elim (Option-cases (get_elem? l i)) [
      | inl f ↦ rw (swap, e, f) (Perm.refl l)
      | inr (b, f) ↦
          rw (swap, e, f)
            (Perm.cons_inv (
              Perm.trans (cons-set (set l n b) i a b (get-set_swapped l n i a b e f))
                (cons-set l n b a e)))
    ]
  ]

  -- Whatever numbers are drawn, shuffling only changes the order.
  pub shuffle-Perm : (n : ℕ) (picks : List ℕ) (l : List A) → Perm (shuffle n picks l) l
  unfolding shuffle
  shuffle-Perm n [] l = Perm.refl l
  shuffle-Perm n (i ∷ picks) l =
      Perm.trans (shuffle-Perm (suc n) picks (swap l n i)) (swap-Perm l n i)

first_address-none : (l : List String) (a : String) → first_address l ≡ none → Mem a l → a ≢ "" → ⊥
unfolding first_address
first_address-none [] a e m n = not-mem-nil m
first_address-none (x ∷ l) a e m n =
    Or.elim ⊥_prop (eq-or-mem_of_mem-cons m) (λ p. ground (arith, eq_iff x "", p, n, e))
      (λ m'. first_address-none l a (ground (arith, e)) m' n)

first_address-some : (l : List String) (a : String) → first_address l ≡ some a → (a ≢ "") × Mem a l
unfolding first_address
first_address-some [] a e = absurd cc
first_address-some (x ∷ l) a e = elim (Bool-cases (x == "")) [
  | inl p ↦ let (n, m) = first_address-some l a (ground (arith, e, p)) in (n, mem-cons_of_mem x m)
  | inr p ↦
      let q : x ≡ a = ground (arith, e, p) in
      (λ r. ground (arith, eq_iff x "", p, q, r), subst (λ y. Mem y (x ∷ l)) q mem-cons_self)
]

-- If one of the peers has an address that is not empty, the address that is drawn is not empty, and
-- one of the peers' addresses.
get_random_peer_addr-Mem :
    (picks : List ℕ) (peer_nodes : List String) (a : String)
    → Mem a peer_nodes
    → a ≢ ""
    → (get_random_peer_addr picks peer_nodes ≢ "")
      × Mem (get_random_peer_addr picks peer_nodes) peer_nodes
unfolding get_random_peer_addr
get_random_peer_addr-Mem picks peer_nodes a m n =
    let order = shuffle 0 picks peer_nodes in
    let p : Perm order peer_nodes = shuffle-Perm 0 picks peer_nodes in
    elim (Option-cases (first_address order)) [
      | inl e ↦ absurd (first_address-none order a e ((Perm.mem_iff p).1 m) n)
      | inr (b, e) ↦
          let (k, h) = first_address-some order b e in
          rw (get_random_peer_addr, e) (k, (Perm.mem_iff p).0 h)
    ]
