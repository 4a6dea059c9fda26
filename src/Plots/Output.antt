-- ===== src/Plots/Output.antt =====
-- scripts/make_plot.py and scripts/sim_traffic.go: the script reads all that a test prints.
use k8_p2p_failover_poc.Prelude.{
  ℕ, ◌≡◌, ◌≢◌, refl, ap, ◌∙◌, ℤ, pos, ◌-ℤ◌, false, Option, some, List, [], ◌∷◌, ◌++◌, drop, arith,
  All, All-append, All-weaken, append_assoc,
}
use k8_p2p_failover_poc.Traffic.{Text, text, is_empty, TestData, split}
use k8_p2p_failover_poc.Traffic.Message.{Lacks, split-append}
use k8_p2p_failover_poc.Traffic.Listing.{decimal, bracketed, get_all_requests_compact}
use k8_p2p_failover_poc.Traffic.Listing.Table.{decimal-All}
use k8_p2p_failover_poc.Traffic.Report.{
  test_lines, elapsed_line, sent_line, failed_line, summary_text, main_output,
}
use k8_p2p_failover_poc.Plots.{starts_with, contains, marker, read_lines, find_data, get_values}
use k8_p2p_failover_poc.Plots.Reading.{IsListed, points, data-lines}

-- A line of the output in front of the marker.
abbrev pub IsFront : Text → Type 0
IsFront l = Lacks 10 l × (contains marker l ≡ false)

-- Lines, each with its end.
abbrev pub printed : List Text → Text
printed [] = []
printed (l ∷ ls) = l ++ 10 ∷ printed ls

split-printed :
    (ls : List Text) (rest : Text)
    → All (Lacks 10) ls
    → split (printed ls ++ rest) 10 ≡ ls ++ split rest 10
split-printed [] rest h = refl
split-printed (l ∷ ls) rest h =
    ap (λ t. split t 10) (append_assoc l (10 ∷ printed ls) rest)
    ∙ split-append l (printed ls ++ rest) 10 h.0
    ∙ ap (λ m. l ∷ m) (split-printed ls rest h.1)

module _ (int : Text → Option ℤ) (bound : ℤ) (loc : Text) where
  find_data-front :
      (ls rest : List Text)
      → All (λ l. contains marker l ≡ false) ls
      → find_data int bound loc (ls ++ rest) ≡ find_data int bound loc rest
  unfolding find_data
  find_data-front [] rest h = refl
  find_data-front (l ∷ ls) rest h = rw (find_data, h.0) (find_data-front ls rest h.1)

  front-split :
      (ls : List Text) (body : Text)
      → All IsFront ls
      → find_data int bound loc (split (printed ls ++ body) 10)
        ≡ find_data int bound loc (split body 10)
  front-split ls body h =
      ap (find_data int bound loc)
        (split-printed ls body (All-weaken (λ c (p : IsFront c). p.0) ls h))
      ∙ find_data-front ls (split body 10) (All-weaken (λ c (p : IsFront c). p.1) ls h)

find_data-marker :
    (int : Text → Option ℤ) (bound : ℤ) (loc : Text) (ls : List Text)
    → find_data int bound loc (marker ∷ ls) ≡ read_lines int bound loc (drop 1 ls)
unfolding find_data contains starts_with
find_data-marker int bound loc ls = refl

-- No `L` stands in a text, so the marker does not.
starts_with-Lacks : (s : Text) → Lacks b'L' s → starts_with marker s ≡ false
unfolding starts_with
starts_with-Lacks [] h = refl
starts_with-Lacks (c ∷ []) h = ground arith
starts_with-Lacks (c ∷ d ∷ s) h = ground (arith, h.1.0)

contains-Lacks : (s : Text) → Lacks b'L' s → contains marker s ≡ false
unfolding contains
contains-Lacks [] h = starts_with-Lacks [] h
contains-Lacks (c ∷ s) h = ground (arith, starts_with-Lacks (c ∷ s) h, contains-Lacks s h.1)

-- A character that is neither the end of a line nor an `L`.
abbrev pub IsPlain : ℕ → Type 0
IsPlain c = (c ≢ 10) × (c ≢ b'L')

IsFront-plain : (l : Text) → All IsPlain l → IsFront l
IsFront-plain l h = (All-weaken (λ c p. p.0) l h, contains-Lacks l (All-weaken (λ c p. p.1) l h))

-- A label and a value in brackets.
field-IsPlain :
    (label s : Text) → All IsPlain label → All IsPlain s → All IsPlain (label ++ bracketed s)
field-IsPlain label s h k =
    All-append IsPlain label (bracketed s) h
      (omega arith, All-append IsPlain s (b']' ∷ []) k (omega arith, tt))

decimal-IsPlain : (n : ℕ) → All IsPlain (decimal (pos n))
decimal-IsPlain n = decimal-All IsPlain (pos n) (λ d l. omega arith) (omega arith)

-- What `main` prints in front of the first request.
abbrev front : (ℤ → Text) → TestData → ℤ → List Text
front show_duration td stop =
    text "TEST RESULTS:"
    ∷ (b' ' ∷ elapsed_line show_duration (stop -ℤ td.start_time))
    ∷ sent_line td.total_requests
    ∷ failed_line td.failed_requests
    ∷ []

title-IsFront : IsFront (text "TEST RESULTS:")
unfolding contains starts_with
title-IsFront = (omega arith, refl)

front-IsFront :
    (show_duration : ℤ → Text) (td : TestData) (stop : ℤ)
    → All IsPlain (show_duration (stop -ℤ td.start_time))
    → All IsFront (front show_duration td stop)
front-IsFront show_duration td stop h =
    let blank : IsPlain b' ' = omega arith in
    let d = show_duration (stop -ℤ td.start_time) in
    let sent = decimal-IsPlain td.total_requests in
    let failed = decimal-IsPlain td.failed_requests in
    (
      title-IsFront,
      (
        IsFront-plain _ (blank, field-IsPlain (text "elapsed_time: ") d (omega arith) h),
        (
          IsFront-plain _ (field-IsPlain (text "num_requests_sent: ") _ (omega arith) sent),
          (
            IsFront-plain _ (field-IsPlain (text "num_requests_failed: ") _ (omega arith) failed),
            tt,
          ),
        ),
      ),
    )

main_output-lines :
    (show_duration : ℤ → Text) (td : TestData) (stop : ℤ)
    → td.stop_time ≡ some stop
    → main_output show_duration td
      ≡ printed (front show_duration td stop)
        ++ (marker ++ 10 ∷ b' ' ∷ (get_all_requests_compact td.requests ++ 10 ∷ []))
unfolding main_output summary_text
main_output-lines show_duration td stop e = rw (summary_text, e) (simp append_assoc)

-- If the numbers that are printed are read as themselves, the time of the test is written with neither
-- an `L` nor the end of a line, no line that `startNSTest` prints holds the marker, each cluster can
-- stand in the table, a failed request has none and the cluster that is looked for has a name, then the
-- script reads all that the test prints without an error, and gets the number and the time of each request
-- but the first that this cluster answered in no more than the bound, in order.
pub get_values-main_output :
    (int : Text → Option ℤ) (bound : ℤ) (loc : Text) (show_duration : ℤ → Text) (ip port : Text)
    (td : TestData) (stop : ℤ)
    → ((a : ℤ) → int (decimal a) ≡ some a)
    → is_empty loc ≡ false
    → td.stop_time ≡ some stop
    → All IsPlain (show_duration (stop -ℤ td.start_time))
    → All IsFront (test_lines ip port td.cycles td.hz)
    → All IsListed td.requests
    → get_values int bound loc
        (printed (test_lines ip port td.cycles td.hz) ++ main_output show_duration td)
      ≡ some (points bound loc (drop 1 td.requests))
unfolding get_values
get_values-main_output int bound loc show_duration ip port td stop reads named e plain before
      listed =
    let ls = test_lines ip port td.cycles td.hz in
    let fs = front show_duration td stop in
    let table : Text = b' ' ∷ (get_all_requests_compact td.requests ++ 10 ∷ []) in
    let fronts = front-IsFront show_duration td stop plain in
    let first = main_output-lines show_duration td stop e in
    let marked : split (marker ++ 10 ∷ table) 10 ≡ marker ∷ split table 10 =
      split-append marker table 10 (omega arith) in
    let found = λ (t : Text). find_data int bound loc (split t 10) in
    front-split int bound loc ls (main_output show_duration td) before
    ∙ ap found first
    ∙ front-split int bound loc fs (marker ++ 10 ∷ table) fronts
    ∙ ap (find_data int bound loc) marked
    ∙ find_data-marker int bound loc (split table 10)
    ∙ data-lines int reads bound loc named td.requests listed
