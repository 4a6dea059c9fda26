-- ===== src/Traffic/Listing/Table.antt =====
-- scripts/sim_traffic.go: the table is read back, line by line and field by field.
use k8_p2p_failover_poc.Prelude.{
  ℕ, zero, suc, ◌+◌, ◌-◌, ◌*◌, ltb, Option, some, none, ◌%◌, ◌/◌, ◌<◌, ◌≢◌, ◌≡◌, refl, sym, ap, ◌∙◌,
  ℤ, pos, negsuc, List, [], ◌∷◌, ◌++◌, map, arith, All, All-append, append_assoc, Bool-cases, inl,
  inr,
}
use k8_p2p_failover_poc.Traffic.{Text, is_empty, RequestStats, split}
use k8_p2p_failover_poc.Traffic.Message.{Lacks, split-append, split-Lacks}
use k8_p2p_failover_poc.Traffic.Listing.{
  digits, decimal, milliseconds, bracketed, elapsed_field, compact_line, get_all_requests_compact,
}

-- A separator that no number holds.
abbrev pub IsOther : ℕ → Type 0
IsOther sep = (sep < b'0') × (sep ≢ b'-')

pub digits-All :
    (P : ℕ → Type 0) (steps n : ℕ) (more : Text)
    → ((d : ℕ) → d < 10 → P (b'0' + d))
    → All P more
    → All P (digits steps n more)
unfolding digits
digits-All P zero n more o h = h
digits-All P (suc steps) n more o h =
    let one : All P ((b'0' + n % 10) ∷ more) = (o (n % 10) (omega arith), h) in
    elim (Bool-cases (ltb n 10)) [
      | inl e ↦ rw (digits, e) one
      | inr e ↦ rw (digits, e) (digits-All P steps (n / 10) ((b'0' + n % 10) ∷ more) o one)
    ]

-- Every character of a number is a digit or the sign.
pub decimal-All :
    (P : ℕ → Type 0) (a : ℤ) → ((d : ℕ) → d < 10 → P (b'0' + d)) → P b'-' → All P (decimal a)
unfolding decimal
decimal-All P (pos n) o m = digits-All P (suc n) n [] o tt
decimal-All P (negsuc n) o m = (m, digits-All P (suc (suc n)) (suc n) [] o tt)

decimal-Lacks : (a : ℤ) (sep : ℕ) → IsOther sep → Lacks sep (decimal a)
decimal-Lacks a sep o = decimal-All _ a (λ d l e. absurd (omega (arith, o.0, e))) (λ e. o.1 (sym e))

digit : (n m : ℕ) → n / 10 ≡ m → m * 10 + (b'0' + n % 10 - b'0') ≡ n
digit n m e = omega (arith, e)

-- The number that the digits of a text stand for, behind `n`.
abbrev pub read_digits : ℕ → Text → ℕ
read_digits n [] = n
read_digits n (c ∷ s) = read_digits (n * 10 + (c - b'0')) s

pub read_digits-digits :
    (steps n : ℕ) (more : Text)
    → n < steps
    → read_digits 0 (digits steps n more) ≡ read_digits n more
unfolding digits
read_digits-digits zero n more h = absurd (omega (arith, h))
read_digits-digits (suc steps) n more h = elim (Bool-cases (ltb n 10)) [
  | inl e ↦ rw (digits, e) (ap (λ k. read_digits k more) (ground (arith, e)))
  | inr e ↦
      rw (digits, e)
        (read_digits-digits steps (n / 10) ((b'0' + n % 10) ∷ more) (ground (arith, e, h))
          ∙ ap (λ k. read_digits k more) (digit n (n / 10) refl))
]

-- A text without its last character.
abbrev init : Text → Text
init [] = []
init (c ∷ []) = []
init (c ∷ d ∷ s) = c ∷ init (d ∷ s)

init-append : (s : Text) (c : ℕ) → init (s ++ c ∷ []) ≡ s
init-append [] c = refl
init-append (d ∷ []) c = refl
init-append (d ∷ e ∷ s) c = ap (λ t. d ∷ t) (init-append (e ∷ s) c)

abbrev pub unbracketed : Text → Text
unbracketed [] = []
unbracketed (c ∷ s) = init s

-- A line of three fields: the number, the cluster and the elapsed time.
abbrev pub read_row : List Text → Option (ℕ × Text × Text)
read_row (a ∷ b ∷ c ∷ []) = some (read_digits 0 (unbracketed a), unbracketed b, unbracketed c)
read_row _ = none

abbrev pub read_table : Text → List (Option (ℕ × Text × Text))
read_table t = map (λ l. read_row (split l b',')) (split t 10)

-- The cluster of a request fits in a field.
abbrev pub IsField : Text → Type 0
IsField s = Lacks b',' s × Lacks 10 s

bracketed-Lacks : (s : Text) (sep : ℕ) → sep < b'[' → Lacks sep s → Lacks sep (bracketed s)
bracketed-Lacks s sep n h = (omega (arith, n), All-append _ s (b']' ∷ []) h (omega (arith, n), tt))

unbracketed-bracketed : (s : Text) → unbracketed (bracketed s) ≡ s
unbracketed-bracketed s = init-append s b']'

elapsed_field-Lacks : (r : RequestStats) (sep : ℕ) → IsOther sep → Lacks sep (elapsed_field r)
elapsed_field-Lacks r sep o = elim (Bool-cases (is_empty r.response)) [
  | inl e ↦ rw (elapsed_field, e) (omega (arith, o.0), (omega (arith, o.0), tt))
  | inr e ↦ rw (elapsed_field, e) (decimal-Lacks (milliseconds r.elapsed_time) sep o)
]

-- A line without its end.
abbrev pub line : RequestStats → Text
line r =
    bracketed (decimal (pos r.request_id))
    ++ b',' ∷ (bracketed r.cluster ++ b',' ∷ bracketed (elapsed_field r))

fields-append :
    (a b c rest : Text)
    → (a ++ b',' ∷ (b ++ b',' ∷ (c ++ 10 ∷ []))) ++ rest
      ≡ (a ++ b',' ∷ (b ++ b',' ∷ c)) ++ 10 ∷ rest
fields-append a b c rest = simp append_assoc

pub line-end : (r : RequestStats) (rest : Text) → compact_line r ++ rest ≡ line r ++ 10 ∷ rest
unfolding compact_line
line-end r rest =
    fields-append (bracketed (decimal (pos r.request_id))) (bracketed r.cluster)
      (bracketed (elapsed_field r)) rest

pub line-Lacks : (r : RequestStats) → Lacks 10 r.cluster → Lacks 10 (line r)
line-Lacks r h =
    All-append _ (bracketed (decimal (pos r.request_id)))
      (b',' ∷ (bracketed r.cluster ++ b',' ∷ bracketed (elapsed_field r)))
      (bracketed-Lacks (decimal (pos r.request_id)) 10 (omega arith)
        (decimal-Lacks (pos r.request_id) 10 (omega arith)))
      (
        omega arith,
        All-append _ (bracketed r.cluster) (b',' ∷ bracketed (elapsed_field r))
            (bracketed-Lacks r.cluster 10 (omega arith) h)
            (
              omega arith,
              bracketed-Lacks (elapsed_field r) 10 (omega arith)
                  (elapsed_field-Lacks r 10 (omega arith)),
            ),
      )

pub line-split :
    (r : RequestStats)
    → Lacks b',' r.cluster
    → split (line r) b','
      ≡ bracketed (decimal (pos r.request_id))
        ∷ bracketed r.cluster
        ∷ bracketed (elapsed_field r)
        ∷ []
line-split r h =
    rw
      (
        split-append (bracketed (decimal (pos r.request_id)))
            (bracketed r.cluster ++ b',' ∷ bracketed (elapsed_field r)) b','
            (bracketed-Lacks (decimal (pos r.request_id)) b',' (omega arith)
              (decimal-Lacks (pos r.request_id) b',' (omega arith))),
        split-append (bracketed r.cluster) (bracketed (elapsed_field r)) b','
            (bracketed-Lacks r.cluster b',' (omega arith) h),
        split-Lacks (bracketed (elapsed_field r)) b',' (
            bracketed-Lacks (elapsed_field r) b',' (omega arith)
              (elapsed_field-Lacks r b',' (omega arith))),
      )
      refl

line-row :
    (r : RequestStats)
    → Lacks b',' r.cluster
    → read_row (split (line r) b',') ≡ some (r.request_id, r.cluster, elapsed_field r)
unfolding decimal
line-row r h =
    rw
      (
        line-split r h,
        unbracketed-bracketed (digits (suc r.request_id) r.request_id []),
        unbracketed-bracketed r.cluster,
        unbracketed-bracketed (elapsed_field r),
        read_digits-digits (suc r.request_id) r.request_id [] (omega arith),
      )
      refl

-- The table that is printed is read back as one row for each request, in order, with its number, its
-- cluster and its elapsed time, and a last line that is empty, if no cluster holds a comma or the end of
-- a line.
read_table-get_all_requests_compact :
    (rs : List RequestStats)
    → All (λ r. IsField r.cluster) rs
    → read_table (get_all_requests_compact rs)
      ≡ map (λ r. some (r.request_id, r.cluster, elapsed_field r)) rs ++ none ∷ []
unfolding get_all_requests_compact
read_table-get_all_requests_compact [] h = rw (split-Lacks [] 10 tt, split-Lacks [] b',' tt) refl
read_table-get_all_requests_compact (r ∷ rs) h =
    rw
      (
        line-end r (get_all_requests_compact rs),
        split-append (line r) (get_all_requests_compact rs) 10 (line-Lacks r h.0.1),
        line-row r h.0.0,
        read_table-get_all_requests_compact rs h.1,
      )
      refl
