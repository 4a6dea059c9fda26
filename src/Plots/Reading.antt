-- ===== src/Plots/Reading.antt =====
-- scripts/make_plot.py and scripts/sim_traffic.go: the script reads the table of a test.
use k8_p2p_failover_poc.Prelude.{
  ℕ, ◌≡◌, refl, ℤ, pos, ltb_ℤ, true, false, not, ◌&&◌, Option, some, List, [], ◌∷◌, ◌++◌, map, drop,
  arith, All, append_assoc, Bool-cases, inl, inr, if◌then◌else◌,
}
use k8_p2p_failover_poc.Traffic.{Text, is_empty, RequestStats, split}
use k8_p2p_failover_poc.Traffic.Message.{Lacks, split-append}
use k8_p2p_failover_poc.Traffic.Listing.{
  decimal, milliseconds, bracketed, elapsed_field, compact_line, get_all_requests_compact,
}
use k8_p2p_failover_poc.Traffic.Listing.Table.{decimal-All, line, line-end, line-Lacks, line-split}
use k8_p2p_failover_poc.Plots.{
  is_bracket, strip_left, strip_right, strip, text_beq, Values, read_values, read_lines,
}

-- A text that `strip` leaves as it is, whatever part of it.
abbrev IsBare : Text → Type 0
IsBare = All (λ c. is_bracket c ≡ false)

strip_right-end :
    (s : Text) (c : ℕ) → IsBare s → is_bracket c ≡ true → strip_right (s ++ c ∷ []) ≡ s
unfolding strip_right
strip_right-end [] c h e = ground (arith, e)
strip_right-end (d ∷ s) c h e = rw (strip_right, strip_right-end s c h.1 e, h.0) refl

strip_left-bare : (s : Text) → IsBare s → strip_left s ≡ s
unfolding strip_left
strip_left-bare [] h = refl
strip_left-bare (c ∷ s) h = rw (strip_left, h.0) refl

strip-bracketed : (s : Text) → IsBare s → strip (bracketed s) ≡ s
unfolding strip
strip-bracketed [] h = unfold strip_left strip_right in refl
strip-bracketed (c ∷ s) h =
    rw (strip, strip_right, strip_right-end (c ∷ s) b']' h refl, strip_left)
      (strip_left-bare (c ∷ s) h)

decimal-IsBare : (a : ℤ) → IsBare (decimal a)
decimal-IsBare a = decimal-All _ a (λ d l. ground (arith, l)) refl

-- A cluster that can stand in the table, and that a failed request does not have.
pub record IsListed (r : RequestStats) : Type 0 where
  pub comma : Lacks b',' r.cluster
  pub newline : Lacks 10 r.cluster
  pub bare : All (λ c. is_bracket c ≡ false) r.cluster
  pub failed : is_empty r.response ≡ true → r.cluster ≡ []

module _ (bound : ℤ) (loc : Text) where
  -- What the target answered in time, with the number and the time of each request.
  abbrev pub points : List RequestStats → Values
  points [] = ([], [])
  points (r ∷ rs) =
      let (xs, ys) = points rs in
      let ms = milliseconds r.elapsed_time in
      if text_beq r.cluster loc && not (ltb_ℤ bound ms)
      then (pos r.request_id ∷ xs, ms ∷ ys)
      else (xs, ys)

module _ (int : Text → Option ℤ) (reads : (a : ℤ) → int (decimal a) ≡ some a) (bound : ℤ)
    (loc : Text) (named : is_empty loc ≡ false) where
  text_beq-nil : (s : Text) → s ≡ [] → text_beq s loc ≡ false
  text_beq-nil [] e = named
  text_beq-nil (c ∷ s) e = absurd cc

  line-fields :
      (r : RequestStats)
      → IsListed r
      → map strip (split (line r) b',')
        ≡ decimal (pos r.request_id) ∷ r.cluster ∷ strip (bracketed (elapsed_field r)) ∷ []
  line-fields r h =
      rw
        (
          line-split r h.comma,
          strip-bracketed (decimal (pos r.request_id)) (decimal-IsBare (pos r.request_id)),
          strip-bracketed r.cluster h.bare,
        )
        refl

  line-values :
      (r : RequestStats) (rs : List RequestStats)
      → IsListed r
      → read_values int bound loc (map strip (split (line r) b',')) (some (points bound loc rs))
        ≡ some (points bound loc (r ∷ rs))
  unfolding read_values
  line-values r rs h =
      let ms = milliseconds r.elapsed_time in
      elim (Bool-cases (is_empty r.response)) [
        | inl e ↦ rw (line-fields r h, read_values, text_beq-nil r.cluster (h.failed e)) refl
        | inr e ↦
            let time : strip (bracketed (elapsed_field r)) ≡ decimal ms =
              rw (elapsed_field, e) (strip-bracketed (decimal ms) (decimal-IsBare ms)) in
            elim (Bool-cases (text_beq r.cluster loc)) [
              | inl f ↦ elim (Bool-cases (ltb_ℤ bound ms)) [
                | inl g ↦
                    rw
                      (line-fields r h, time, read_values, f, reads ms, reads (pos r.request_id), g)
                      refl
                | inr g ↦
                    rw
                      (line-fields r h, time, read_values, f, reads ms, reads (pos r.request_id), g)
                      refl
              ]
              | inr f ↦ rw (line-fields r h, read_values, f) refl
            ]
      ]

  -- The end of the last `Println`.
  read_lines-end : (t : Text) → t ≡ 10 ∷ [] → read_lines int bound loc (split t 10) ≡ some ([], [])
  unfolding read_lines read_values split strip strip_left strip_right
  read_lines-end t e = rw e refl

  table-lines :
      (rs : List RequestStats)
      → All IsListed rs
      → read_lines int bound loc (split (get_all_requests_compact rs ++ 10 ∷ []) 10)
        ≡ some (points bound loc rs)
  unfolding get_all_requests_compact read_lines
  table-lines [] h = read_lines-end _ refl
  table-lines (r ∷ rs) h =
      rw
        (
          append_assoc (compact_line r) (get_all_requests_compact rs) (10 ∷ []),
          line-end r (get_all_requests_compact rs ++ 10 ∷ []),
          split-append (line r) (get_all_requests_compact rs ++ 10 ∷ []) 10
              (line-Lacks r h.0.newline),
          read_lines,
          table-lines rs h.1,
        )
        (line-values r rs h.0)

  -- The first line behind the marker is left out.
  pub data-lines :
      (rs : List RequestStats)
      → All IsListed rs
      → read_lines int bound loc
          (drop 1 (split (b' ' ∷ (get_all_requests_compact rs ++ 10 ∷ [])) 10))
        ≡ some (points bound loc (drop 1 rs))
  unfolding get_all_requests_compact read_lines read_values split strip strip_left strip_right
  data-lines [] h = refl
  data-lines (r ∷ rs) h =
      rw
        (
          append_assoc (compact_line r) (get_all_requests_compact rs) (10 ∷ []),
          line-end r (get_all_requests_compact rs ++ 10 ∷ []),
          split-append (b' ' ∷ line r) (get_all_requests_compact rs ++ 10 ∷ []) 10
              (omega arith, line-Lacks r h.0.newline),
        )
        (table-lines rs h.1)
