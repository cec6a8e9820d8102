-- ===== src/Conditions/Stable.antt =====
-- The parser on one fuel and on another.
use stonemite.Conditions.{Condition, negated, Token, and_sign, or_sign, not_sign, left_paren}
use stonemite.Conditions.Fuel.{Ends, and-Ends, unary-Ends}
use stonemite.Conditions.Parser.{
  parsed, invalid, out_of_fuel, Step, compare_rest, close_paren, parse_or, or_loop, parse_and,
  and_loop, parse_unary, parse_comparison, parse_primary, max_nesting_depth, ◌>>=◌,
}
use stonemite.Base.{
  ℕ, zero, suc, ◌+◌, ◌-◌, ◌*◌, ◌≤◌, ◌≡◌, refl, ap, ◌∙◌, List, [], ◌∷◌, length, arith, ltb,
  if◌then◌else◌,
}

pub bind_cong :
    {F A B : Type 0} (n : ℕ) (r r' : Step F A) (f g : A × (List (Token F) × ℕ) → Step F B)
    → Ends n r
    → r ≡ r'
    → ((a : A) (rest : List (Token F)) (d : ℕ)
        → length rest ≤ n
        → f (a, (rest, d)) ≡ g (a, (rest, d)))
    → (r >>= f) ≡ (r' >>= g)
bind_cong n (parsed (a, (rest, d))) r' f g h same k = k a rest d h ∙ ap (λ s. s >>= g) same
bind_cong n invalid r' f g h same k = ap (λ s. s >>= g) same
bind_cong n out_of_fuel r' f g h same k = absurd h

mutual
  unfolding parse_or

  pub or_stable :
      {F : Type 0} (n f g : ℕ) (ts : List (Token F)) (d : ℕ)
      → length ts ≤ n
      → 6 * n + 5 ≤ f
      → 6 * n + 5 ≤ g
      → parse_or f ts d ≡ parse_or g ts d
  or_stable n zero g ts d h e e' = absurd (omega (arith, e))
  or_stable n (suc f) zero ts d h e e' = absurd (omega (arith, e'))
  or_stable n (suc f) (suc g) ts d h e e' =
      bind_cong n (parse_and f ts d) (parse_and g ts d) _ _ (and-Ends n f ts d h (omega (arith, e)))
        (and_stable n f g ts d h (omega (arith, e)) (omega (arith, e')))
        λ node rest k le. or_loop_stable n f g node rest k le (omega (arith, e)) (omega (arith, e'))

  pub or_loop_stable :
      {F : Type 0} (n f g : ℕ) (node : Condition F) (ts : List (Token F)) (d : ℕ)
      → length ts ≤ n
      → 6 * n + 1 ≤ f
      → 6 * n + 1 ≤ g
      → or_loop f node ts d ≡ or_loop g node ts d
  or_loop_stable n zero g node ts d h e e' = absurd (omega (arith, e))
  or_loop_stable n (suc f) zero node ts d h e e' = absurd (omega (arith, e'))
  or_loop_stable n (suc f) (suc g) node [] d h e e' = refl
  or_loop_stable zero (suc f) (suc g) node (or_sign ∷ ts) d h e e' = absurd (omega (arith, h))
  or_loop_stable (suc n) (suc f) (suc g) node (or_sign ∷ ts) d h e e' =
      bind_cong n (parse_and f ts d) (parse_and g ts d) _ _
        (and-Ends n f ts d (omega (arith, h)) (omega (arith, e)))
        (and_stable n f g ts d (omega (arith, h)) (omega (arith, e)) (omega (arith, e')))
        λ right rest k le. or_loop_stable n f g _ rest k le (omega (arith, e)) (omega (arith, e'))
  or_loop_stable n (suc f) (suc g) node (_ ∷ ts) d h e e' = refl

  pub and_stable :
      {F : Type 0} (n f g : ℕ) (ts : List (Token F)) (d : ℕ)
      → length ts ≤ n
      → 6 * n + 4 ≤ f
      → 6 * n + 4 ≤ g
      → parse_and f ts d ≡ parse_and g ts d
  and_stable n zero g ts d h e e' = absurd (omega (arith, e))
  and_stable n (suc f) zero ts d h e e' = absurd (omega (arith, e'))
  and_stable n (suc f) (suc g) ts d h e e' =
      bind_cong n (parse_unary f ts d) (parse_unary g ts d) _ _
        (unary-Ends n f ts d h (omega (arith, e)))
        (unary_stable n f g ts d h (omega (arith, e)) (omega (arith, e')))
        λ node rest k le.
          and_loop_stable n f g node rest k le (omega (arith, e)) (omega (arith, e'))

  pub and_loop_stable :
      {F : Type 0} (n f g : ℕ) (node : Condition F) (ts : List (Token F)) (d : ℕ)
      → length ts ≤ n
      → 6 * n + 1 ≤ f
      → 6 * n + 1 ≤ g
      → and_loop f node ts d ≡ and_loop g node ts d
  and_loop_stable n zero g node ts d h e e' = absurd (omega (arith, e))
  and_loop_stable n (suc f) zero node ts d h e e' = absurd (omega (arith, e'))
  and_loop_stable n (suc f) (suc g) node [] d h e e' = refl
  and_loop_stable zero (suc f) (suc g) node (and_sign ∷ ts) d h e e' = absurd (omega (arith, h))
  and_loop_stable (suc n) (suc f) (suc g) node (and_sign ∷ ts) d h e e' =
      bind_cong n (parse_unary f ts d) (parse_unary g ts d) _ _
        (unary-Ends n f ts d (omega (arith, h)) (omega (arith, e)))
        (unary_stable n f g ts d (omega (arith, h)) (omega (arith, e)) (omega (arith, e')))
        λ right rest k le. and_loop_stable n f g _ rest k le (omega (arith, e)) (omega (arith, e'))
  and_loop_stable n (suc f) (suc g) node (_ ∷ ts) d h e e' = refl

  pub unary_stable :
      {F : Type 0} (n f g : ℕ) (ts : List (Token F)) (d : ℕ)
      → length ts ≤ n
      → 6 * n + 3 ≤ f
      → 6 * n + 3 ≤ g
      → parse_unary f ts d ≡ parse_unary g ts d
  unary_stable n zero g ts d h e e' = absurd (omega (arith, e))
  unary_stable n (suc f) zero ts d h e e' = absurd (omega (arith, e'))
  unary_stable n (suc f) (suc g) [] d h e e' =
      comparison_stable n f g [] d h (omega (arith, e)) (omega (arith, e'))
  unary_stable zero (suc f) (suc g) (not_sign ∷ ts) d h e e' = absurd (omega (arith, h))
  unary_stable (suc n) (suc f) (suc g) (not_sign ∷ ts) d h e e' =
      ap
        (λ r.
          if ltb max_nesting_depth (d + 1)
          then invalid
          else (r >>= λ (c, (rest, k)). parsed (negated c, (rest, k - 1))))
        (unary_stable n f g ts (d + 1) (omega (arith, h)) (omega (arith, e)) (omega (arith, e')))
  unary_stable n (suc f) (suc g) (t ∷ ts) d h e e' =
      comparison_stable n f g (t ∷ ts) d h (omega (arith, e)) (omega (arith, e'))

  comparison_stable :
      {F : Type 0} (n f g : ℕ) (ts : List (Token F)) (d : ℕ)
      → length ts ≤ n
      → 6 * n + 2 ≤ f
      → 6 * n + 2 ≤ g
      → parse_comparison f ts d ≡ parse_comparison g ts d
  comparison_stable n zero g ts d h e e' = absurd (omega (arith, e))
  comparison_stable n (suc f) zero ts d h e e' = absurd (omega (arith, e'))
  comparison_stable n (suc f) (suc g) ts d h e e' =
      ap (λ r. r >>= λ (left, (rest, k)). compare_rest left rest k)
        (primary_stable n f g ts d h (omega (arith, e)) (omega (arith, e')))

  primary_stable :
      {F : Type 0} (n f g : ℕ) (ts : List (Token F)) (d : ℕ)
      → length ts ≤ n
      → 6 * n + 1 ≤ f
      → 6 * n + 1 ≤ g
      → parse_primary f ts d ≡ parse_primary g ts d
  primary_stable n zero g ts d h e e' = absurd (omega (arith, e))
  primary_stable n (suc f) zero ts d h e e' = absurd (omega (arith, e'))
  primary_stable n (suc f) (suc g) [] d h e e' = refl
  primary_stable zero (suc f) (suc g) (left_paren ∷ ts) d h e e' = absurd (omega (arith, h))
  primary_stable (suc n) (suc f) (suc g) (left_paren ∷ ts) d h e e' =
      ap
        (λ r.
          if ltb max_nesting_depth (d + 1)
          then invalid
          else (r >>= λ (c, (rest, k)). close_paren c rest k))
        (or_stable n f g ts (d + 1) (omega (arith, h)) (omega (arith, e)) (omega (arith, e')))
  primary_stable n (suc f) (suc g) (_ ∷ ts) d h e e' = refl
