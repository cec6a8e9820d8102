-- ===== src/Metrics.antt =====
-- crates/eqcombat/src/metrics.rs: spans, rates and shares of the DPS rows.
-- An `EqSecond` is an i64; it is written here as that number plus 2 ^ 63, which keeps the order.
-- A u128 or u64 is a number; where the source could overflow, the test is written out.
pub mod Rates
pub mod Shares
pub mod Ranges
pub mod Grouping
mod Tests
use stonemite.Base.{
  ℕ, zero, suc, ◌+◌, ◌-◌, ◌*◌, ◌/◌, ◌%◌, min, max, Bool, true, false, not, ◌&&◌, ◌||◌, Option, none,
  some, List, [], ◌∷◌, length, leb, ltb, ◌==◌, if◌then◌else◌,
}

-- 2 ^ 63 - 1
abbrev pub i64_max : ℕ
i64_max = 9223372036854775807

-- 2 ^ 64
abbrev pub u64_mod : ℕ
u64_mod = 18446744073709551616

-- 2 ^ 128
abbrev pub u128_mod : ℕ
u128_mod = 340282366920938463463374607431768211456

-- `checked_sub`, then `checked_add(1)`, then the conversion to u64: each failure gives 1.
unfoldable pub inclusive_seconds : ℕ → ℕ → ℕ
inclusive_seconds begin end =
    if leb begin end && leb (end - begin + 1) i64_max then end - begin + 1 else 1

-- A range of seconds, its first and its last.
pub record Range : Type 0 where
  pub first : ℕ
  pub last : ℕ

-- The order of `sort_by_key(|range| (range.0, range.1))`.
abbrev pub range_le : Range → Range → Bool
range_le a b = ltb a.first b.first || a.first == b.first && leb a.last b.last

unfoldable pub insert_range : Range → List Range → List Range
insert_range r [] = r ∷ []
insert_range r (x ∷ xs) = if range_le r x then r ∷ x ∷ xs else x ∷ insert_range r xs

unfoldable pub sort_ranges : List Range → List Range
unfolding insert_range
sort_ranges [] = []
sort_ranges (x ∷ xs) = insert_range x (sort_ranges xs)

-- `total.saturating_add(seconds)` on u64.
abbrev pub saturating_add : ℕ → ℕ → ℕ
saturating_add a b = min (a + b) (u64_mod - 1)

-- `next.0.checked_sub(current.1).unwrap_or(i64::MAX) <= bridge_seconds`, behind the test that the
-- difference is positive.
abbrev pub is_joined : Range → Range → ℕ → Bool
is_joined current next bridge_seconds =
    leb next.first current.last || leb (min (next.first - current.last) i64_max) bridge_seconds

-- The loop over the sorted ranges, with `current` and `total`, and the sum behind it.
unfoldable pub union_loop : ℕ → ℕ → Range → List Range → ℕ
unfolding inclusive_seconds
union_loop bridge total current [] =
    max (saturating_add total (inclusive_seconds current.first current.last)) 1
union_loop bridge total current (next ∷ rest) =
    let joined = is_joined current next bridge in
    union_loop bridge
      (if joined
        then total
        else saturating_add total (inclusive_seconds current.first current.last))
      (if joined then record current { last = max current.last next.last } else next) rest

abbrev pub union_sorted : ℕ → List Range → ℕ
union_sorted bridge [] = 1
union_sorted bridge (current ∷ rest) = union_loop bridge 0 current rest

unfoldable pub union_range_seconds : List Range → ℕ → ℕ
unfolding sort_ranges union_loop
union_range_seconds ranges bridge_seconds = union_sorted bridge_seconds (sort_ranges ranges)

-- `checked_add` on u128.
unfoldable pub round_rate : ℕ → ℕ → Option ℕ
round_rate damage seconds =
    let s = max seconds 1 in
    let rounded = damage / s + (if leb ((s + 1) / 2) (damage % s) then 1 else 0) in
    if ltb rounded u128_mod then some rounded else none

-- A 256-bit number, as its high and its low u128.
pub record Wide : Type 0 where
  pub high : ℕ
  pub low : ℕ

-- The order of pairs.
abbrev pub wide_le : Wide → Wide → Bool
wide_le a b = ltb a.high b.high || a.high == b.high && leb a.low b.low

-- `& mask` is `% 2 ^ 64`, and the operands of `|` share no bit.
unfoldable pub wide_mul : ℕ → ℕ → Wide
wide_mul left right =
    let left_low = left % u64_mod in
    let left_high = left / u64_mod in
    let right_low = right % u64_mod in
    let right_high = right / u64_mod in
    let low_low = left_low * right_low in
    let low_high = left_low * right_high in
    let high_low = left_high * right_low in
    let high_high = left_high * right_high in
    let carry = low_low / u64_mod + low_high % u64_mod + high_low % u64_mod in
    record {
      high = high_high + low_high / u64_mod + high_low / u64_mod + carry / u64_mod;
      low = low_low % u64_mod + carry % u64_mod * u64_mod;
    }

-- `while low < high`, with fuel; `none` means that it ran out.
unfoldable pub search_loop : ℕ → Wide → ℕ → ℕ → ℕ → Option ℕ
unfolding wide_mul
search_loop zero numerator denominator low high = if ltb low high then none else some low
search_loop (suc fuel) numerator denominator low high =
    let middle = low + (high - low + 1) / 2 in
    let fits = wide_le (wide_mul middle denominator) numerator in
    let rest =
      search_loop fuel numerator denominator (if fits then middle else low)
        (if fits then high else middle - 1) in
    if ltb low high then rest else some low

-- Twenty halvings suffice for a multiplier below 2 ^ 20.
abbrev pub search_fuel : ℕ
search_fuel = 20

unfoldable pub mul_div_bounded : ℕ → ℕ → ℕ → Option ℕ
mul_div_bounded a multiplier denominator =
    search_loop search_fuel (wide_mul a multiplier) denominator 0 multiplier

unfoldable pub ratio_millionths : ℕ → ℕ → Option ℕ
ratio_millionths value total =
    if total == 0 then some 0 else mul_div_bounded (min value total) 1000000 total

-- The loop of `format_grouped_ascii` over the characters of `value.to_string()`, from `index`.
unfoldable pub group_from : ℕ → ℕ → List ℕ → List ℕ
group_from first index [] = []
group_from first index (character ∷ rest) =
    let grouped = group_from first (suc index) rest in
    if ltb 0 index && leb first index && (index - first) % 3 == 0
    then b',' ∷ character ∷ grouped
    else character ∷ grouped

unfoldable pub format_grouped_ascii : List ℕ → List ℕ
unfolding group_from
format_grouped_ascii digits = group_from (length digits % 3) 0 digits
