-- ===== src/Traffic/Requests.antt =====
-- scripts/sim_traffic.go: which requests a test makes.
use k8_p2p_failover_poc.Prelude.{
  ℕ, zero, suc, ◌+◌, ◌*◌, ◌≡◌, refl, sym, ap, ◌∙◌, List, [], ◌∷◌, ◌++◌, map, arith,
}
use mathlib.Core.List.{map-append}
use native.Mathlib.Nat.{zero-mul, suc-mul}
use k8_p2p_failover_poc.Traffic.{Server, call, run_calls, run_cycles}

-- The `left` numbers from `from` on.
abbrev pub numbers : ℕ → ℕ → List ℕ
numbers from zero = []
numbers from (suc left) = from ∷ numbers (suc from) left

numbers-same : (m n a b : ℕ) → m ≡ n → a ≡ b → numbers n b ≡ numbers m a
numbers-same m n a b p q = rw (p, q) refl

numbers-append : (from a b : ℕ) → numbers from a ++ numbers (from + a) b ≡ numbers from (a + b)
numbers-append from zero b = numbers-same from (from + 0) (0 + b) b (omega arith) (omega arith)
numbers-append from (suc a) b =
    ap (λ xs. from ∷ xs)
      (ap (λ x. numbers (suc from) a ++ numbers x b) (omega arith) ∙ numbers-append (suc from) a b)
    ∙ numbers-same from from (suc a + b) (suc (a + b)) refl (omega arith)

run_calls-map :
    (s : Server) (hz n from left : ℕ)
    → run_calls s hz n from left ≡ map (call s) (numbers (n * hz + from) left)
unfolding run_calls
run_calls-map s hz n from zero = refl
run_calls-map s hz n from (suc left) =
    ap (λ rs. call s (n * hz + from) ∷ rs)
      (run_calls-map s hz n (suc from) left ∙ ap (λ x. map (call s) (numbers x left)) (omega arith))

-- The two loops make one request after another, numbered from `n * hz` on with no number left out or
-- used twice.
pub run_cycles-map :
    (s : Server) (hz n left : ℕ)
    → run_cycles s hz n left ≡ map (call s) (numbers (n * hz) (left * hz))
unfolding run_cycles
run_cycles-map s hz n zero = ap (λ x. map (call s) (numbers (n * hz) x)) (sym (zero-mul hz))
run_cycles-map s hz n (suc left) =
    rw (run_calls-map s hz n 0 hz, run_cycles-map s hz (suc n) left, suc-mul n hz, suc-mul left hz)
      (sym (map-append _ (numbers (n * hz + 0) hz) (numbers (n * hz + hz) (left * hz)))
        ∙ ap (map (call s)) (
            ap (λ x. numbers x hz ++ numbers (n * hz + hz) (left * hz)) (omega arith)
            ∙ numbers-append (n * hz) hz (left * hz)
            ∙ ap (λ x. numbers (n * hz) x) (omega arith)))
