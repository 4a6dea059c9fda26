-- ===== src/Plots.antt =====
-- scripts/make_plot.py: what the plots take from the file of a traffic test. `int` is an argument; where
-- it raises an error the result is `none`.
pub mod Reading
pub mod Output
pub mod Measured
use k8_p2p_failover_poc.Prelude.{
  ℕ, ℤ, ltb_ℤ, Bool, true, false, ◌&&◌, ◌||◌, Option, none, some, List, [], ◌∷◌, map, nat_beq,
  if◌then◌else◌, drop,
}
use k8_p2p_failover_poc.Traffic.{Text, text, is_empty, split}

-- The characters that `strip('[]\n')` cuts off.
abbrev pub is_bracket : ℕ → Bool
is_bracket c = nat_beq c b'[' || (nat_beq c b']' || nat_beq c 10)

unfoldable pub strip_left : Text → Text
strip_left [] = []
strip_left (c ∷ s) = let rest = strip_left s in if is_bracket c then rest else c ∷ s

unfoldable pub strip_right : Text → Text
strip_right [] = []
strip_right (c ∷ s) =
    let rest = strip_right s in if is_bracket c && is_empty rest then [] else c ∷ rest

unfoldable pub strip : Text → Text
unfolding strip_left strip_right
strip s = strip_left (strip_right s)

abbrev pub text_beq : Text → Text → Bool
text_beq [] [] = true
text_beq (c ∷ s) (d ∷ t) = nat_beq c d && text_beq s t
text_beq _ _ = false

unfoldable pub starts_with : Text → Text → Bool
starts_with [] s = true
starts_with (c ∷ p) [] = false
starts_with (c ∷ p) (d ∷ s) = nat_beq c d && starts_with p s

-- `p in s`
unfoldable pub contains : Text → Text → Bool
unfolding starts_with
contains p [] = starts_with p []
contains p (c ∷ s) = starts_with p (c ∷ s) || contains p s

abbrev pub marker : Text
marker = text "ALL DATA:"

-- The numbers of the requests, and their times.
abbrev pub Values : Type 0
Values = List ℤ × List ℤ

module _ (int : Text → Option ℤ) (upper_bound_anomaly : ℤ) (target_loc : Text) where
  -- A line behind the marker, with what the lines behind it give.
  unfoldable pub read_values : List Text → Option Values → Option Values
  read_values (number ∷ loc ∷ time ∷ []) rest =
      if text_beq loc target_loc
      then elim (int time) [
        | none ↦ none
        | some latency ↦ elim (int number) [
          | none ↦ none
          | some num_req ↦
              if ltb_ℤ upper_bound_anomaly latency
              then rest
              else elim rest [ none ↦ none | some (xs, ys) ↦ some (num_req ∷ xs, latency ∷ ys) ]
        ]
      ]
      else rest
  read_values _ rest = rest

  unfoldable pub read_lines : List Text → Option Values
  unfolding read_values strip
  read_lines [] = some ([], [])
  read_lines (line ∷ lines) =
      let rest = read_lines lines in read_values (map strip (split line b',')) rest

  -- The loop until the marker; the line behind it is skipped by `readline`.
  unfoldable pub find_data : List Text → Option Values
  unfolding contains read_lines
  find_data [] = some ([], [])
  find_data (line ∷ lines) =
      let rest = find_data lines in if contains marker line then read_lines (drop 1 lines) else rest

  -- The lines are those between the ends of lines. Behind the last end there is an empty one more, which
  -- the loop passes over.
  unfoldable pub get_values : Text → Option Values
  unfolding find_data
  get_values file = find_data (split file 10)
