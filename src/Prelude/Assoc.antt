-- ===== src/Prelude/Assoc.antt =====
-- Go's maps as association lists. The order of the entries is the order in which `range` visits
-- them; a statement about every list is a statement about every such order.
use mathlib.Core.Path.{◌≡◌, refl, ap, ◌∙◌, subst}
use mathlib.Core.Logic.{inl, inr}
use mathlib.Core.Bool.{Bool, false, ◌||◌}
use mathlib.Core.List.{List, [], ◌∷◌}
use mathlib.Core.Option.{Option, none, some}
use native.Mathlib.Omega.{arith}
use k8_p2p_failover_poc.Prelude.Tests.{Keys, ◌==◌, if◌then◌else◌, Bool-cases}

abbrev pub keys {ℓ κ} : {K : Type ℓ} {V : Type κ} → List (K × V) → List K
keys [] = []
keys ((k, v) ∷ m) = k ∷ keys m

-- The values, changed in place.
abbrev pub map_values {ℓ κ} : {K : Type ℓ} {V : Type κ} → (K → V → V) → List (K × V) → List (K × V)
map_values f [] = []
map_values f ((k, v) ∷ m) = (k, f k v) ∷ map_values f m

pub keys-map_values {ℓ κ} :
    {K : Type ℓ} {V : Type κ} (f : K → V → V) (m : List (K × V)) → keys (map_values f m) ≡ keys m
keys-map_values f [] = refl
keys-map_values f ((k, v) ∷ m) = ap (λ r. k ∷ r) (keys-map_values f m)

abbrev pub elem {ℓ} : {K : Type ℓ} ⦃e : Keys K⦄ → K → List K → Bool
elem k [] = false
elem k (j ∷ ks) = k == j || elem k ks

module _ {ℓ κ} {K : Type ℓ} {V : Type κ} ⦃e : Keys K⦄ where
  -- `m[key]`, with its second result
  unfoldable pub lookup : (key : K) → List (K × V) → Option V
  lookup key [] = none
  lookup key ((at, value) ∷ more) = if at == key then some value else lookup key more

  -- `m[key] = value`
  unfoldable pub insert : (key : K) (value : V) → List (K × V) → List (K × V)
  insert key value [] = (key, value) ∷ []
  insert key value ((at, old) ∷ more) =
      if at == key then (key, value) ∷ more else (at, old) ∷ insert key value more

  -- `delete(m, key)`
  unfoldable pub remove : (key : K) → List (K × V) → List (K × V)
  remove key [] = []
  remove key ((at, old) ∷ more) = if at == key then remove key more else (at, old) ∷ remove key more

  -- A map has one entry at each key.
  abbrev pub IsMap : List (K × V) → Type κ
  IsMap [] = Unit
  IsMap ((at, value) ∷ more) = (lookup at more ≡ none) × IsMap more

  pub lookup-insert :
      (at key : K) (value : V) (m : List (K × V))
      → lookup key (insert at value m) ≡ (if at == key then some value else lookup key m)
  unfolding lookup insert
  lookup-insert at key value [] = refl
  lookup-insert at key value ((first, old) ∷ more) = ground (
    arith,
    e.same_iff first at,
    e.same_iff first key,
    e.same_iff at key,
    lookup-insert at key value more,
  )

  pub lookup-remove :
      (at key : K) (m : List (K × V))
      → lookup key (remove at m) ≡ (if at == key then none else lookup key m)
  unfolding lookup remove
  lookup-remove at key [] = ground arith
  lookup-remove at key ((first, old) ∷ more) = ground (
    arith,
    e.same_iff first at,
    e.same_iff first key,
    e.same_iff at key,
    lookup-remove at key more,
  )

  pub IsMap-insert : (at : K) (value : V) (m : List (K × V)) → IsMap m → IsMap (insert at value m)
  unfolding lookup insert
  IsMap-insert at value [] h = (refl, tt)
  IsMap-insert at value ((first, old) ∷ more) h = elim (Bool-cases (first == at)) [
    | inl b ↦
        let same : first ≡ at = ground (arith, b, e.same_iff first at) in
        rw b (subst (λ k. lookup k more ≡ none) same h.0, h.1)
    | inr b ↦ rw b (
      lookup-insert at first value more
          ∙ ground (arith, b, h.0, e.same_iff first at, e.same_iff at first),
      IsMap-insert at value more h.1,
    )
  ]
