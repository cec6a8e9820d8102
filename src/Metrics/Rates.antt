-- ===== src/Metrics/Rates.antt =====
-- `round_rate` rounds half up, and never fails.
use native.Mathlib.Nat.{div-add-mod, mod-lt}
use stonemite.Metrics.{round_rate, u128_mod}
use stonemite.Base.{ℕ, ◌+◌, ◌*◌, ◌/◌, ◌%◌, ◌≤◌, ◌<◌, max, ◌≡◌, some, arith, dec_le}

-- `q` is `damage / s`, rounded to the nearest, and up at a half.
abbrev pub IsRounded : ℕ → ℕ → ℕ → Type 0
IsRounded damage s q = (2 * damage < 2 * (q * s) + s) × (2 * (q * s) ≤ 2 * damage + s)

IsRounded-up :
    (damage s q m : ℕ)
    → damage ≡ q * s + m
    → m < s
    → s ≤ 2 * m
    → IsRounded damage s (q + 1) × (q + 1 ≤ damage)
IsRounded-up damage s q m e lt high = ((omega arith, omega arith), grind arith)

IsRounded-down :
    (damage s q m : ℕ)
    → damage ≡ q * s + m
    → m < s
    → 2 * m < s
    → IsRounded damage s q × (q ≤ damage)
IsRounded-down damage s q m e lt low = ((omega arith, omega arith), grind arith)

round_rate_pos :
    (damage s : ℕ)
    → 0 < s
    → damage < u128_mod
    → (q : ℕ) × (round_rate damage s ≡ some q) × IsRounded damage s q
unfolding round_rate
round_rate_pos damage s pos fits =
    let q = damage / s in
    let m = damage % s in
    let split : damage ≡ q * s + m = omega (arith, div-add-mod damage s) in
    let below : m < s = mod-lt damage pos in
    elim (dec_le s (2 * m)) [
      | yes high ↦
          let (near, small) = IsRounded-up damage s q m split below high in
          (q + 1, ground (arith, one_more s pos), near)
      | no low ↦
          let (near, small) = IsRounded-down damage s q m split below (omega arith) in
          (q, ground (arith, one_more s pos), near)
    ]
  where
    one_more : (s : ℕ) → 0 < s → max s 1 ≡ s
    one_more s pos = omega arith

-- The rates are exact: for any damage that a u128 holds, the rate over a span of `seconds` (of one
-- second, if the span is 0) exists, and is the quotient rounded to the nearest, and up at a half.
pub round_rate_nearest :
    (damage seconds : ℕ)
    → damage < u128_mod
    → (q : ℕ) × (round_rate damage seconds ≡ some q) × IsRounded damage (max seconds 1) q
unfolding round_rate
round_rate_nearest damage seconds fits =
    rw (← same) (round_rate_pos damage (max seconds 1) (omega arith) fits)
  where
    again : (n : ℕ) → max (max n 1) 1 ≡ max n 1
    again n = omega arith

    same : round_rate damage (max seconds 1) ≡ round_rate damage seconds
    same = rw (again seconds)
