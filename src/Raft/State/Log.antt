-- ===== src/Raft/State/Log.antt =====
-- raft/raft.go: the commit log.
use k8_p2p_failover_poc.Prelude.{
  ◌∙◌, sym, append_assoc, ℕ, zero, suc, ◌+◌, ◌≤◌, ◌≡◌, refl, ℤ, pos, negsuc, ◌+ℤ◌, +ℤ_parts, ◌≤ℤ◌,
  false, some, List, [], ◌∷◌, ◌++◌, if◌then◌else◌, length, get_elem?, length-append,
  get_elem?-append_length, get_elem?-append_lt, get_elem?-lt, arith, All, eq_ℤ,
}
use k8_p2p_failover_poc.Kube.Resources.{KubeCmd, no_cmd, is_no_cmd}
use k8_p2p_failover_poc.Raft.State.{
  Raft, add_commit, get_log_item, get_length_log, count_entries, print_log, print_items,
}

-- No entry of the log is the empty command.
abbrev pub IsFull : Raft → Type 0
IsFull r = All (λ c. is_no_cmd c ≡ false) r.commit_log

-- `addCommit` appends, also to an empty log.
pub commit_log-add_commit :
    (r : Raft) (c : KubeCmd) → (add_commit r c).0.commit_log ≡ r.commit_log ++ c ∷ []
unfolding add_commit
commit_log-add_commit r c = by_log r.commit_log refl
  where
    by_log :
        (l : List KubeCmd)
        → r.commit_log ≡ l
        → (add_commit r c).0.commit_log ≡ r.commit_log ++ c ∷ []
    by_log [] e = rw e
    by_log (d ∷ l) e = rw e

pub count_entries-append :
    (l : List KubeCmd) (c : KubeCmd)
    → count_entries (l ++ c ∷ []) ≡ count_entries l + (if is_no_cmd c then 0 else 1)
unfolding count_entries
count_entries-append [] c = omega arith
count_entries-append (d ∷ l) c = omega (arith, count_entries-append l c)

pub count_entries-le : (l : List KubeCmd) → count_entries l ≤ length l
unfolding count_entries
count_entries-le [] = omega arith
count_entries-le (d ∷ l) = ground (arith, count_entries-le l)

pub count_entries-full :
    (l : List KubeCmd) → All (λ c. is_no_cmd c ≡ false) l → count_entries l ≡ length l
unfolding count_entries
count_entries-full [] h = refl
count_entries-full (d ∷ l) h = ground (arith, count_entries-full l h.1)

item-append_length :
    (r : Raft) (c : KubeCmd)
    → get_log_item (add_commit r c).0 (pos (suc (length r.commit_log))) ≡ some c
unfolding get_log_item
item-append_length r c = rw (commit_log-add_commit r c) (get_elem?-append_length r.commit_log [] c)

item-append_le :
    (r : Raft) (c : KubeCmd) (i : ℤ)
    → i ≤ℤ pos (length r.commit_log)
    → get_log_item (add_commit r c).0 i ≡ get_log_item r i
unfolding get_log_item
item-append_le r c (pos zero) h = refl
item-append_le r c (pos (suc n)) h =
    rw (commit_log-add_commit r c) (get_elem?-append_lt r.commit_log (c ∷ []) n (omega arith))
item-append_le r c (negsuc n) h = refl

length-add_commit :
    (r : Raft) (c : KubeCmd)
    → IsFull r
    → is_no_cmd c ≡ false
    → get_length_log (add_commit r c).0 ≡ pos (suc (length r.commit_log))
unfolding get_length_log
length-add_commit r c full h =
    rw (commit_log-add_commit r c, count_entries-append r.commit_log c, h)
      (ground (arith, count_entries-full r.commit_log full))

pub length-full : (r : Raft) → IsFull r → get_length_log r ≡ pos (length r.commit_log)
unfolding get_length_log
length-full r full = ground (arith, count_entries-full r.commit_log full)

-- In a log without empty commands, `addCommit` of a command that is not empty raises the length by
-- one, makes the command the item at the new length, and keeps the items up to the old length.
get_log_item-add_commit :
    (r : Raft) (c : KubeCmd) (i : ℤ)
    → IsFull r
    → is_no_cmd c ≡ false
    → i ≤ℤ get_length_log r
    → (get_length_log (add_commit r c).0 ≡ get_length_log r +ℤ pos 1)
      × (get_log_item (add_commit r c).0 (get_length_log (add_commit r c).0) ≡ some c)
      × (get_log_item (add_commit r c).0 i ≡ get_log_item r i)
get_log_item-add_commit r c i full h k = (
  ground (
    arith,
    length-add_commit r c full h,
    length-full r full,
    +ℤ_parts (pos (length r.commit_log)) (pos 1),
  ),
  rw (length-add_commit r c full h) (item-append_length r c),
  item-append_le r c i (rw (length-full r full) at k),
)

-- `getLogItem` does not panic at the indices from 0 to `getLengthLog`.
pub get_log_item-total :
    (r : Raft) (index : ℤ)
    → pos 0 ≤ℤ index
    → index ≤ℤ get_length_log r
    → (c : KubeCmd) × (get_log_item r index ≡ some c)
unfolding get_log_item get_length_log
get_log_item-total r (pos zero) h k = (no_cmd, refl)
get_log_item-total r (pos (suc n)) h k =
    get_elem?-lt r.commit_log n (omega (arith, count_entries-le r.commit_log))
get_log_item-total r (negsuc n) h k = absurd (omega arith)

item-at :
    (r : Raft) (n : ℕ) (cs ds : List KubeCmd) (d : KubeCmd)
    → r.commit_log ≡ cs ++ d ∷ ds
    → n ≡ length cs
    → get_elem? r.commit_log n ≡ some d
item-at r n cs ds d e h = rw (e, h) (get_elem?-append_length cs ds d)

print_items-total :
    (r : Raft) (n : ℕ) (cs ds : List KubeCmd)
    → r.commit_log ≡ cs ++ ds
    → n ≡ length cs
    → print_items r (suc n) (length ds) ≡ some ds
unfolding print_items get_log_item
print_items-total r n cs [] e h = refl
print_items-total r n cs (d ∷ ds) e h = ground (
  arith,
  item-at r n cs ds d e h,
  print_items-total r (suc n) (cs ++ d ∷ []) ds (e ∙ sym (append_assoc cs (d ∷ []) ds))
      (omega (arith, h, length-append cs (d ∷ []))),
)

-- `printLog` never panics: told that there are items, it prints the empty command of index 0 and then
-- the whole log, in order.
print_log-total :
    (r : Raft) (items : ℤ)
    → print_log r items ≡ (if eq_ℤ items (pos 0) then some [] else some (no_cmd ∷ r.commit_log))
unfolding print_log print_items get_log_item
print_log-total r items = ground (arith, print_items-total r 0 [] r.commit_log refl refl)
