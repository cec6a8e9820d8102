-- ===== src/Metrics/Grouping.antt =====
-- The commas of a number stand where they are read.
use stonemite.Metrics.{group_from, format_grouped_ascii}
use stonemite.Base.{
  ℕ, suc, ◌+◌, ◌%◌, ◌≡◌, ◌≢◌, refl, Bool, true, false, not, ◌&&◌, List, [], ◌∷◌, length, keep, All,
  arith, ◌==◌, if◌then◌else◌,
}

-- Read from the left: a comma stands before a digit exactly if it is not the first one and the
-- digits from there on make whole groups of three.
abbrev pub grouped : Bool → List ℕ → List ℕ
grouped is_first [] = []
grouped is_first (d ∷ ds) =
    if not is_first && length (d ∷ ds) % 3 == 0
    then b',' ∷ d ∷ grouped false ds
    else d ∷ grouped false ds

group_from-grouped :
    (n index : ℕ) (ds : List ℕ)
    → index + length ds ≡ n
    → group_from (n % 3) index ds ≡ grouped (index == 0) ds
unfolding group_from
group_from-grouped n index [] e = refl
group_from-grouped n index (d ∷ ds) e = ground (arith, group_from-grouped n (suc index) ds)

-- The formatter's index arithmetic puts a comma exactly where `grouped` does, and the digits are
-- what is left of its output without commas.
pub format_grouped_ascii_lem :
    (digits : List ℕ)
    → All (λ d. d ≢ b',') digits
    → (format_grouped_ascii digits ≡ grouped true digits)
      × (keep (λ c. not (c == b',')) (format_grouped_ascii digits) ≡ digits)
unfolding format_grouped_ascii
format_grouped_ascii_lem digits plain = (
  group_from-grouped (length digits) 0 digits (omega arith),
  rw (group_from-grouped (length digits) 0 digits (omega arith)) (stripped true digits plain),
)
  where
    stripped :
        (f : Bool) (ds : List ℕ)
        → All (λ d. d ≢ b',') ds
        → keep (λ c. not (c == b',')) (grouped f ds) ≡ ds
    stripped f [] p = refl
    stripped f (d ∷ ds) p = ground (arith, stripped false ds)
