-- ===== src/Metrics/Shares.antt =====
-- The 256-bit product is exact, and the search finds the quotient.
use stonemite.Metrics.{
  Wide, wide_mul, wide_le, u64_mod, u128_mod, search_loop, mul_div_bounded, ratio_millionths,
  search_fuel,
}
use native.Mathlib.Nat.{pow-suc}
use stonemite.Base.{
  dec_lt, dec_le, Bool-cases, inl, inr, subst, sym, ℕ, zero, suc, ◌+◌, ◌-◌, ◌*◌, ◌/◌, ◌%◌, ◌^◌, ◌≤◌,
  ◌<◌, min, ◌≡◌, ◌↔◌, true, false, some, arith,
}

abbrev pub value : Wide → ℕ
value w = w.high * u128_mod + w.low

-- The long multiplication, over the four partial products.
carried :
    (p q r t : ℕ)
    → (t + q / u64_mod + r / u64_mod + (p / u64_mod + q % u64_mod + r % u64_mod) / u64_mod)
          * u128_mod
        + (p % u64_mod + (p / u64_mod + q % u64_mod + r % u64_mod) % u64_mod * u64_mod)
      ≡ t * u128_mod + (q + r) * u64_mod + p
carried p q r t = omega arith

expanded :
    (l r a b c d : ℕ)
    → l ≡ a * u64_mod + b
    → r ≡ c * u64_mod + d
    → l * r ≡ (a * c) * u128_mod + (b * c + a * d) * u64_mod + b * d
expanded l r a b c d e f = rw (e, f) (omega arith)

pub value-wide_mul : (left right : ℕ) → value (wide_mul left right) ≡ left * right
unfolding wide_mul
value-wide_mul left right = omega (
  arith,
  carried (left % u64_mod * (right % u64_mod)) (left % u64_mod * (right / u64_mod))
      (left / u64_mod * (right % u64_mod)) (left / u64_mod * (right / u64_mod)),
  expanded left right (left / u64_mod) (left % u64_mod) (right / u64_mod) (right % u64_mod)
      (omega arith) (omega arith),
)

wide_mul_low : (left right : ℕ) → (wide_mul left right).low < u128_mod
unfolding wide_mul
wide_mul_low left right = omega arith

wide_le-value :
    (a b : Wide) → a.low < u128_mod → b.low < u128_mod → (wide_le a b ≡ true) ↔ (value a ≤ value b)
wide_le-value a b ha hb = ground arith

-- `r` is the quotient of `n` by `d`.
abbrev pub IsQuotient : ℕ → ℕ → ℕ → Type 0
IsQuotient n d r = (r * d ≤ n) × (n < (r + 1) * d)

fits_iff :
    (middle d : ℕ) (w : Wide)
    → w.low < u128_mod
    → (wide_le (wide_mul middle d) w ≡ true) ↔ (middle * d ≤ value w)
fits_iff middle d w small =
    subst (λ n. (wide_le (wide_mul middle d) w ≡ true) ↔ (n ≤ value w)) (value-wide_mul middle d)
      (wide_le-value (wide_mul middle d) w (wide_mul_low middle d) small)

not_fits :
    (middle d : ℕ) (w : Wide)
    → w.low < u128_mod
    → wide_le (wide_mul middle d) w ≡ false
    → value w < middle * d
not_fits middle d w small over = elim (dec_le (middle * d) (value w)) [
  | yes fits ↦ cc ((fits_iff middle d w small).1 fits)
  | no beyond ↦ omega arith
]

search_loop-IsQuotient :
    (fuel d low high : ℕ) (w : Wide)
    → w.low < u128_mod
    → low ≤ high
    → low * d ≤ value w
    → value w < (high + 1) * d
    → high - low < 2 ^ fuel
    → (r : ℕ) × (search_loop fuel w d low high ≡ some r) × IsQuotient (value w) d r
unfolding search_loop
search_loop-IsQuotient zero d low high w small order below above enough =
    let e : low ≡ high = omega arith in
    (low, ground arith, (below, subst (λ n. value w < (n + 1) * d) (sym e) above))
search_loop-IsQuotient (suc fuel) d low high w small order below above enough =
    let middle = low + (high - low + 1) / 2 in
    let iff = fits_iff middle d w small in
    let half : (high - low + 1) / 2 ≤ high - low = omega arith in
    let pow : 2 ^ suc fuel ≡ 2 * 2 ^ fuel = omega (arith, pow-suc 2 fuel) in
    elim (dec_lt low high) [
      | no done ↦
          let e : low ≡ high = omega arith in
          (low, ground arith, (below, subst (λ n. value w < (n + 1) * d) (sym e) above))
      | yes more ↦ elim (Bool-cases (wide_le (wide_mul middle d) w)) [
        | inl fits ↦
            let (r, found, q) =
              search_loop-IsQuotient fuel d middle high w small (omega arith) (iff.0 fits) above
                (omega (arith, pow)) in
            (r, ground (arith, fits, found), q)
        | inr over ↦
            let beyond : value w < middle * d = not_fits middle d w small over in
            let back : middle - 1 + 1 ≡ middle = omega arith in
            let (r, found, q) =
              search_loop-IsQuotient fuel d low (middle - 1) w small (omega arith) below
                (subst (λ n. value w < n * d) (sym back) beyond) (omega (arith, pow)) in
            (r, ground (arith, over, found), q)
      ]
    ]

mul_div-IsQuotient :
    (a multiplier d : ℕ)
    → a ≤ d
    → 0 < d
    → multiplier < 2 ^ search_fuel
    → (r : ℕ) × (mul_div_bounded a multiplier d ≡ some r) × IsQuotient (a * multiplier) d r
unfolding mul_div_bounded
mul_div-IsQuotient a multiplier d le pos enough =
    subst (λ v. (r : ℕ) × (mul_div_bounded a multiplier d ≡ some r) × IsQuotient v d r) exact
      (search_loop-IsQuotient search_fuel d 0 multiplier (wide_mul a multiplier)
        (wide_mul_low a multiplier) (omega arith) (omega arith)
        (rw exact (product_lt a multiplier d le pos)) (omega arith))
  where
    exact : value (wide_mul a multiplier) ≡ a * multiplier
    exact = value-wide_mul a multiplier

    product_lt : (a m d : ℕ) → a ≤ d → 0 < d → a * m < (m + 1) * d
    product_lt a m d le pos = grind arith

share_le : (n total r : ℕ) → n ≤ total → 0 < total → r * total ≤ n * 1000000 → r ≤ 1000000
share_le n total r le pos h = elim (dec_le r 1000000) [
  | yes fine ↦ fine
  | no over ↦ absurd (more r total pos (omega arith) (omega arith))
]
  where
    more : (k t : ℕ) → 0 < t → 1000000 < k → k * t ≤ t * 1000000 → ⊥
    more k t some_total big small = grind arith

-- Shares of the raid's damage are exact to the millionth: the share of any amount in a total that
-- is not 0 exists, it is the quotient of `amount * 1000000` by the total, rounded down, where the
-- amount is taken as the total if it exceeds that, and it is at most a whole.
pub ratio_millionths-IsQuotient :
    (amount total : ℕ)
    → 0 < total
    → (r : ℕ) × (ratio_millionths amount total ≡ some r)
      × IsQuotient (min amount total * 1000000) total r
      × (r ≤ 1000000)
unfolding ratio_millionths
ratio_millionths-IsQuotient amount total pos =
    let (r, found, q) =
      mul_div-IsQuotient (min amount total) 1000000 total (omega arith) pos (omega arith) in
    (r, ground (arith, found), q, share_le (min amount total) total r (omega arith) pos q.0)
