-- ===== src/Metrics/Tests.antt =====
-- The theorems of the metrics at concrete numbers.
use stonemite.Metrics.{
  Range, union_range_seconds, round_rate, ratio_millionths, format_grouped_ascii,
}
use stonemite.Metrics.Rates.{IsRounded, round_rate_nearest}
use stonemite.Metrics.Shares.{IsQuotient, ratio_millionths-IsQuotient}
use stonemite.Metrics.Ranges.{Fits, union_range_seconds_bounds}
use stonemite.Metrics.Grouping.{grouped, format_grouped_ascii_lem}
use stonemite.Base.{
  ℕ, ◌+◌, ◌-◌, ◌*◌, ◌≤◌, ◌≡◌, ◌≢◌, min, max, true, not, some, List, [], ◌∷◌, keep, All, ◌==◌, arith,
}

round_rate_nearest_example : (q : ℕ) × (round_rate 1000 7 ≡ some q) × IsRounded 1000 (max 7 1) q
round_rate_nearest_example = round_rate_nearest 1000 7 (omega arith)

ratio_millionths-IsQuotient_example :
    (r : ℕ) × (ratio_millionths 2 3 ≡ some r) × IsQuotient (min 2 3 * 1000000) 3 r × (r ≤ 1000000)
ratio_millionths-IsQuotient_example = ratio_millionths-IsQuotient 2 3 (omega arith)

-- Two spans of fighting with a gap, out of order.
abbrev spans : List Range
spans = record { first = 130; last = 140 } ∷ record { first = 100; last = 110 } ∷ []

union_range_seconds_bounds_example :
    (union_range_seconds spans 5 ≤ 140 - 100 + 1) × All (Fits (union_range_seconds spans 5)) spans
union_range_seconds_bounds_example =
    union_range_seconds_bounds 100 140 5 spans (omega arith) (omega arith)
      ((omega arith, omega arith, omega arith), ((omega arith, omega arith, omega arith), tt))

-- 12345
abbrev digits : List ℕ
digits = 49 ∷ 50 ∷ 51 ∷ 52 ∷ 53 ∷ []

no_commas : All (λ d. d ≢ b',') digits
no_commas = (ground arith, (ground arith, (ground arith, (ground arith, (ground arith, tt)))))

format_grouped_ascii_lem_example :
    (format_grouped_ascii digits ≡ grouped true digits)
    × (keep (λ c. not (c == b',')) (format_grouped_ascii digits) ≡ digits)
format_grouped_ascii_lem_example = format_grouped_ascii_lem digits no_commas
