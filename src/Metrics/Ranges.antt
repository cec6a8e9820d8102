-- ===== src/Metrics/Ranges.antt =====
-- The union of the active ranges lies between its largest range and the span of them all.
use stonemite.Metrics.{
  Range, range_le, insert_range, sort_ranges, inclusive_seconds, is_joined, union_loop,
  union_sorted, union_range_seconds, saturating_add, i64_max,
}
use stonemite.Base.{ℕ, ◌+◌, ◌-◌, ◌≤◌, ◌<◌, max, List, [], ◌∷◌, All, arith, Bool-cases, inl, inr}

-- The range runs forward, between `lo` and `hi`.
abbrev pub Within : ℕ → ℕ → Range → Type 0
Within lo hi r = (lo ≤ r.first) × (r.first ≤ r.last) × (r.last ≤ hi)

-- The range takes at most `n` seconds.
abbrev pub Fits : ℕ → Range → Type 0
Fits n r = inclusive_seconds r.first r.last ≤ n

abbrev Ordered : List Range → Type 0
Ordered [] = Unit {0}
Ordered (x ∷ xs) = All (λ y. x.first ≤ y.first) xs × Ordered xs

module _ {κ} (P : Range → Type κ) where
  All-insert : (r : Range) (xs : List Range) → P r → All P xs → All P (insert_range r xs)
  unfolding insert_range
  All-insert r [] p ps = (p, tt)
  All-insert r (x ∷ xs) p ps = elim (Bool-cases (range_le r x)) [
    | inl le ↦ rw le (p, ps)
    | inr gt ↦ rw gt (ps.0, All-insert r xs p ps.1)
  ]

  All-sort : (xs : List Range) → All P xs → All P (sort_ranges xs)
  unfolding sort_ranges
  All-sort [] ps = tt
  All-sort (x ∷ xs) ps = All-insert x (sort_ranges xs) ps.0 (All-sort xs ps.1)

  insert-All : (r : Range) (xs : List Range) → All P (insert_range r xs) → P r × All P xs
  unfolding insert_range
  insert-All r [] ps = ps
  insert-All r (x ∷ xs) ps = elim (Bool-cases (range_le r x)) [
    | inl le ↦ let qs = (rw (le, insert_range) at ps) in (qs.0, qs.1)
    | inr gt ↦
        let qs = (rw (gt, insert_range) at ps) in
        ((insert-All r xs qs.1).0, (qs.0, (insert-All r xs qs.1).1))
  ]

  sort-All : (xs : List Range) → All P (sort_ranges xs) → All P xs
  unfolding sort_ranges
  sort-All [] ps = tt
  sort-All (x ∷ xs) ps =
      ((insert-All x (sort_ranges xs) ps).0, sort-All xs (insert-All x (sort_ranges xs) ps).1)

All-weaken :
    (m n : ℕ) (xs : List Range) → m ≤ n → All (λ y. n ≤ y.first) xs → All (λ y. m ≤ y.first) xs
All-weaken m n [] le ps = tt
All-weaken m n (x ∷ xs) le ps = (omega arith, All-weaken m n xs le ps.1)

insert-Ordered : (r : Range) (xs : List Range) → Ordered xs → Ordered (insert_range r xs)
unfolding insert_range
insert-Ordered r [] o = (tt, tt)
insert-Ordered r (x ∷ xs) o = elim (Bool-cases (range_le r x)) [
  | inl le ↦ rw le ((ground (arith, le), All-weaken r.first x.first xs (ground (arith, le)) o.0), o)
  | inr gt ↦
      rw gt
        (All-insert (λ y. x.first ≤ y.first) r xs (ground (arith, gt)) o.0, insert-Ordered r xs o.1)
]

sort-Ordered : (xs : List Range) → Ordered (sort_ranges xs)
unfolding sort_ranges
sort-Ordered [] = tt
sort-Ordered (x ∷ xs) = insert-Ordered x (sort_ranges xs) (sort-Ordered xs)

module _ (lo hi bridge : ℕ) (short : hi - lo < i64_max) where
  -- With `total` seconds before `current`.
  record Loop (total : ℕ) (current : Range) (rest : List Range) (n : ℕ) : Type 0 where
    upper : n ≤ hi - lo + 1
    lower : total + (current.last - current.first + 1) ≤ n
    others : All (Fits n) rest

  union_loop-Loop :
      (total : ℕ) (current : Range) (rest : List Range)
      → Within lo hi current
      → All (Within lo hi) rest
      → Ordered (current ∷ rest)
      → total ≤ current.first - lo
      → Loop total current rest (union_loop bridge total current rest)
  unfolding union_loop inclusive_seconds
  union_loop-Loop total current [] w ws o before = record {
    upper = ground arith;
    lower = ground arith;
    others = tt;
  }
  union_loop-Loop total current (next ∷ rest) w ws o before =
      elim (Bool-cases (is_joined current next bridge)) [
        | inl joined ↦
            let wider : Range = record current { last = max current.last next.last } in
            let r = union_loop-Loop total wider rest (omega arith) ws.1 (o.0.1, o.1.1) before in
            rw joined (record {
              upper = r.upper;
              lower = omega (arith, r.lower);
              others = (ground (arith, r.lower, o.0.0), r.others);
            })
        | inr apart ↦
            let seconds = inclusive_seconds current.first current.last in
            let r =
              union_loop-Loop (saturating_add total seconds) next rest ws.0 ws.1 o.1
                (ground (arith, apart)) in
            rw apart (record {
              upper = r.upper;
              lower = ground (arith, r.lower);
              others = (ground (arith, r.lower), r.others);
            })
      ]

-- The active time is bounded by what it is made of. For ranges that run forward within an interval
-- of fewer than 2 ^ 63 - 1 seconds, in any order and with any bridge, the union is at least as long
-- as the longest of them, and at most as long as the interval.
pub union_range_seconds_bounds :
    (lo hi bridge : ℕ) (ranges : List Range)
    → lo ≤ hi
    → hi - lo < i64_max
    → All (Within lo hi) ranges
    → (union_range_seconds ranges bridge ≤ hi - lo + 1)
      × All (Fits (union_range_seconds ranges bridge)) ranges
unfolding union_range_seconds
union_range_seconds_bounds lo hi bridge ranges some_time short ws =
    let (upper, lower) =
      sorted_bounds (sort_ranges ranges) (All-sort (Within lo hi) ranges ws)
        (sort-Ordered ranges) in
    (upper, sort-All (Fits (union_range_seconds ranges bridge)) ranges lower)
  where
    sorted_bounds :
        (rs : List Range)
        → All (Within lo hi) rs
        → Ordered rs
        → (union_sorted bridge rs ≤ hi - lo + 1) × All (Fits (union_sorted bridge rs)) rs
    sorted_bounds [] w o = (omega arith, tt)
    sorted_bounds (r ∷ rs) w o =
        let l = union_loop-Loop lo hi bridge short 0 r rs w.0 w.1 o (omega arith) in
        (l.upper, (ground (arith, l.lower), l.others))
