-- ===== src/Tests/Plots.antt =====
-- scripts/make_plot.py: four requests, of which the first is left out and the third is not answered.
use k8_p2p_failover_poc.Prelude.{
  ℕ, zero, suc, ◌+◌, ◌-◌, ◌/◌, ◌%◌, ◌≡◌, ◌≢◌, refl, ap, ◌∙◌, subst, ℤ, pos, negsuc, Option, none,
  some, [], ◌∷◌, ◌++◌, All, arith, nat_beq, if◌then◌else◌, drop, Bool-cases, inl, inr,
}
use mathlib.Core.List.Perm
use k8_p2p_failover_poc.Traffic.{Text, text, TestData, start_ns_test, parse_server_msg_values}
use k8_p2p_failover_poc.Traffic.Listing.{decimal, digits}
use k8_p2p_failover_poc.Traffic.Listing.Table.{digits-All, read_digits, read_digits-digits}
use k8_p2p_failover_poc.Traffic.Report.{main_output, test_lines, finished_lines}
use k8_p2p_failover_poc.Plots.{starts_with, contains, get_values}
use k8_p2p_failover_poc.Plots.Reading.{points}
use k8_p2p_failover_poc.Plots.Output.{IsFront, printed}
use k8_p2p_failover_poc.Plots.Measured.{IsNamed, start_ns_test-measured}
use k8_p2p_failover_poc.Tests.Traffic.{a_server, east_message}

abbrev read_int : Text → Option ℤ
read_int [] = none
read_int (c ∷ s) =
    if nat_beq c b'-'
    then some (negsuc (read_digits 0 s - 1))
    else some (pos (read_digits 0 (c ∷ s)))

read_int-unsigned :
    (s : Text) → s ≢ [] → All (λ c. c ≢ b'-') s → read_int s ≡ some (pos (read_digits 0 s))
read_int-unsigned [] n h = absurd (n refl)
read_int-unsigned (c ∷ s) n h = ground (arith, h.0)

digits-ne : (steps n c : ℕ) (more : Text) → digits steps n (c ∷ more) ≢ []
unfolding digits
digits-ne zero n c more = cc
digits-ne (suc steps) n c more = ground (arith, digits-ne steps (n / 10) (b'0' + n % 10) (c ∷ more))

digits-suc_ne : (steps n : ℕ) → digits (suc steps) n [] ≢ []
unfolding digits
digits-suc_ne steps n = ground (arith, digits-ne steps (n / 10) (b'0' + n % 10) [])

read_int-decimal : (a : ℤ) → read_int (decimal a) ≡ some a
unfolding decimal
read_int-decimal (pos n) =
    read_int-unsigned (digits (suc n) n []) (digits-suc_ne n n)
      (digits-All _ (suc n) n [] (λ d l e. absurd (omega (arith, e))) tt)
    ∙ ap (λ k. some (pos k)) (read_digits-digits (suc n) n [] (omega arith))
read_int-decimal (negsuc n) =
    ap (λ k. some (negsuc (k - 1))) (read_digits-digits (suc (suc n)) (suc n) [] (omega arith))
    ∙ ap (λ k. some (negsuc k)) (omega arith)

lines-IsFront : All IsFront (test_lines (text "10.0.0.1") (text "80") 2 2)
unfolding test_lines finished_lines contains starts_with decimal digits
lines-IsFront = ((omega arith, refl), ((omega arith, refl), ((omega arith, refl), tt)))

a_server-IsNamed : IsNamed a_server
a_server-IsNamed id at body e f = elim (Bool-cases (nat_beq id 2)) [
  | inl p ↦ ground (arith, e, p)
  | inr p ↦ (
    text "east",
    text "node 7",
    [],
    subst (λ b. parse_server_msg_values b ≡ some (text "east" ∷ text "node 7" ∷ []))
        (ground (arith, e, p)) east_message,
    (omega arith, omega arith, (refl, (refl, (refl, (refl, tt))))),
  )
]

start_ns_test-measured_example :
    (td : TestData) × (start_ns_test (λ rs. rs) a_server (pos 0) (pos 1000) 2 2 ≡ some td)
    × (get_values read_int (pos 1500) (text "east") (
          printed (test_lines (text "10.0.0.1") (text "80") 2 2)
          ++ main_output (λ d. text "1µs") td)
        ≡ some (points (pos 1500) (text "east") (drop 1 td.requests)))
start_ns_test-measured_example =
    start_ns_test-measured (λ rs. rs) a_server (pos 0) (pos 1000) 2 2 read_int (pos 1500)
      (text "east") (λ d. text "1µs") (text "10.0.0.1") (text "80") (λ rs. Perm.refl rs)
      a_server-IsNamed read_int-decimal refl (omega arith) lines-IsFront
