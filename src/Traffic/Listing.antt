-- ===== src/Traffic/Listing.antt =====
-- scripts/sim_traffic.go: the table that a test prints.
pub mod Table
use k8_p2p_failover_poc.Prelude.{
  ℕ, zero, suc, ◌+◌, ◌-◌, ◌/◌, ◌%◌, ℤ, pos, negsuc, List, [], ◌∷◌, ◌++◌, ltb, if◌then◌else◌,
}
use k8_p2p_failover_poc.Traffic.{Text, text, is_empty, RequestStats}

-- The decimal digits of a number in front of a text, a digit for each step. A number `n` has at most
-- `n + 1` digits.
unfoldable pub digits : ℕ → ℕ → Text → Text
digits zero n more = more
digits (suc steps) n more =
    let rest = digits steps (n / 10) ((b'0' + n % 10) ∷ more) in
    if ltb n 10 then (b'0' + n % 10) ∷ more else rest

-- `%d`
unfoldable pub decimal : ℤ → Text
unfolding digits
decimal (pos n) = digits (suc n) n []
decimal (negsuc n) = b'-' ∷ digits (suc (suc n)) (suc n) []

-- `Milliseconds`, which cuts off what is less.
unfoldable pub milliseconds : ℤ → ℤ
milliseconds (pos n) = pos (n / 1000000)
milliseconds (negsuc n) = if ltb n 999999 then pos 0 else negsuc ((n + 1) / 1000000 - 1)

abbrev pub bracketed : Text → Text
bracketed s = b'[' ∷ (s ++ b']' ∷ [])

-- What stands for the elapsed time.
abbrev pub elapsed_field : RequestStats → Text
elapsed_field r = if is_empty r.response then text "NA" else decimal (milliseconds r.elapsed_time)

-- `[%d],[%s],[%d]` or `[%d],[%s],[NA]`, and the end of the line.
unfoldable pub compact_line : RequestStats → Text
unfolding decimal milliseconds
compact_line r =
    bracketed (decimal (pos r.request_id))
    ++ b',' ∷ (bracketed r.cluster ++ b',' ∷ (bracketed (elapsed_field r) ++ 10 ∷ []))

unfoldable pub get_all_requests_compact : List RequestStats → Text
unfolding compact_line
get_all_requests_compact [] = []
get_all_requests_compact (r ∷ rs) = compact_line r ++ get_all_requests_compact rs
