-- ===== src/Conditions/Fuel.antt =====
-- The fuel of the parser.
use stonemite.Conditions.{
  Condition, Token, operand, op, and_sign, or_sign, not_sign, left_paren, right_paren,
}
use stonemite.Conditions.Parser.{
  parsed, invalid, out_of_fuel, Step, Primary, operand_only, expression, parse_primary_operand,
  compare_rest, close_paren, parse_or, or_loop, parse_and, and_loop, parse_unary, parse_comparison,
  parse_primary, finish, parse_tokens, max_nesting_depth, ◌>>=◌,
}
use stonemite.Base.{
  ℕ, zero, suc, ◌+◌, ◌*◌, ◌≤◌, ◌≢◌, Bool, true, false, List, [], ◌∷◌, length, arith, ltb,
  if◌then◌else◌,
}

-- The call ends, and leaves no more than `n` tokens.
abbrev pub Ends : {F A : Type 0} → ℕ → Step F A → Type 0
Ends n (parsed (a, (rest, d))) = length rest ≤ n
Ends n invalid = Unit
Ends n out_of_fuel = ⊥

Ends-bind :
    {F A B : Type 0} (n : ℕ) (r : Step F A) (f : A × (List (Token F) × ℕ) → Step F B)
    → Ends n r
    → ((a : A) (rest : List (Token F)) (d : ℕ) → length rest ≤ n → Ends n (f (a, (rest, d))))
    → Ends n (r >>= f)
Ends-bind n (parsed (a, (rest, d))) f h k = k a rest d h
Ends-bind n invalid f h k = tt
Ends-bind n out_of_fuel f h k = absurd h

Ends-weaken : {F A : Type 0} (m n : ℕ) (r : Step F A) → m ≤ n → Ends m r → Ends n r
Ends-weaken m n (parsed (a, (rest, d))) le h = omega (arith, le, h)
Ends-weaken m n invalid le h = tt
Ends-weaken m n out_of_fuel le h = absurd h

if-Ends :
    {F A : Type 0} (n : ℕ) (b : Bool) (r : Step F A) → Ends n r → Ends n (if b then invalid else r)
if-Ends n true r h = tt
if-Ends n false r h = h

operand-Ends :
    {F : Type 0} (n : ℕ) (ts : List (Token F)) (d : ℕ)
    → length ts ≤ n
    → Ends n (parse_primary_operand ts d)
unfolding parse_primary_operand
operand-Ends n [] d h = tt
operand-Ends n (operand o ∷ ts) d h = omega (arith, h)
operand-Ends n (_ ∷ ts) d h = tt

compare-Ends :
    {F : Type 0} (n : ℕ) (p : Primary F) (ts : List (Token F)) (d : ℕ)
    → length ts ≤ n
    → Ends n (compare_rest p ts d)
unfolding compare_rest
compare-Ends n (operand_only left) (op o ∷ ts) d h =
    Ends-bind n (parse_primary_operand ts d) _ (operand-Ends n ts d (omega (arith, h)))
      λ right rest e le. le
compare-Ends n (expression c) (op o ∷ ts) d h =
    Ends-bind n (parse_primary_operand ts d) _ (operand-Ends n ts d (omega (arith, h)))
      λ right rest e le. tt
compare-Ends n (operand_only o) [] d h = h
compare-Ends n (operand_only o) (_ ∷ ts) d h = h
compare-Ends n (expression c) [] d h = h
compare-Ends n (expression c) (_ ∷ ts) d h = h

close-Ends :
    {F : Type 0} (n : ℕ) (c : Condition F) (ts : List (Token F)) (d : ℕ)
    → length ts ≤ n
    → Ends n (close_paren c ts d)
unfolding close_paren
close-Ends n c [] d h = tt
close-Ends n c (right_paren ∷ ts) d h = omega (arith, h)
close-Ends n c (_ ∷ ts) d h = tt

mutual
  unfolding parse_or

  pub or-Ends :
      {F : Type 0} (n f : ℕ) (ts : List (Token F)) (d : ℕ)
      → length ts ≤ n
      → 6 * n + 5 ≤ f
      → Ends n (parse_or f ts d)
  or-Ends n zero ts d h e = absurd (omega (arith, e))
  or-Ends n (suc f) ts d h e =
      Ends-bind n (parse_and f ts d) _ (and-Ends n f ts d h (omega (arith, e)))
        λ node rest k le. or_loop-Ends n f node rest k le (omega (arith, e))

  or_loop-Ends :
      {F : Type 0} (n f : ℕ) (node : Condition F) (ts : List (Token F)) (d : ℕ)
      → length ts ≤ n
      → 6 * n + 1 ≤ f
      → Ends n (or_loop f node ts d)
  or_loop-Ends n zero node ts d h e = absurd (omega (arith, e))
  or_loop-Ends n (suc f) node [] d h e = h
  or_loop-Ends zero (suc f) node (or_sign ∷ ts) d h e = absurd (omega (arith, h))
  or_loop-Ends (suc n) (suc f) node (or_sign ∷ ts) d h e =
      Ends-weaken n (suc n) (or_loop (suc f) node (or_sign ∷ ts) d) (omega arith) (
        Ends-bind n (parse_and f ts d) _ (and-Ends n f ts d (omega (arith, h)) (omega (arith, e)))
          λ right rest k le. or_loop-Ends n f _ rest k le (omega (arith, e)))
  or_loop-Ends n (suc f) node (_ ∷ ts) d h e = h

  pub and-Ends :
      {F : Type 0} (n f : ℕ) (ts : List (Token F)) (d : ℕ)
      → length ts ≤ n
      → 6 * n + 4 ≤ f
      → Ends n (parse_and f ts d)
  and-Ends n zero ts d h e = absurd (omega (arith, e))
  and-Ends n (suc f) ts d h e =
      Ends-bind n (parse_unary f ts d) _ (unary-Ends n f ts d h (omega (arith, e)))
        λ node rest k le. and_loop-Ends n f node rest k le (omega (arith, e))

  and_loop-Ends :
      {F : Type 0} (n f : ℕ) (node : Condition F) (ts : List (Token F)) (d : ℕ)
      → length ts ≤ n
      → 6 * n + 1 ≤ f
      → Ends n (and_loop f node ts d)
  and_loop-Ends n zero node ts d h e = absurd (omega (arith, e))
  and_loop-Ends n (suc f) node [] d h e = h
  and_loop-Ends zero (suc f) node (and_sign ∷ ts) d h e = absurd (omega (arith, h))
  and_loop-Ends (suc n) (suc f) node (and_sign ∷ ts) d h e =
      Ends-weaken n (suc n) (and_loop (suc f) node (and_sign ∷ ts) d) (omega arith) (
        Ends-bind n (parse_unary f ts d) _
          (unary-Ends n f ts d (omega (arith, h)) (omega (arith, e)))
          λ right rest k le. and_loop-Ends n f _ rest k le (omega (arith, e)))
  and_loop-Ends n (suc f) node (_ ∷ ts) d h e = h

  pub unary-Ends :
      {F : Type 0} (n f : ℕ) (ts : List (Token F)) (d : ℕ)
      → length ts ≤ n
      → 6 * n + 3 ≤ f
      → Ends n (parse_unary f ts d)
  unary-Ends n zero ts d h e = absurd (omega (arith, e))
  unary-Ends n (suc f) [] d h e = comparison-Ends n f [] d h (omega (arith, e))
  unary-Ends zero (suc f) (not_sign ∷ ts) d h e = absurd (omega (arith, h))
  unary-Ends (suc n) (suc f) (not_sign ∷ ts) d h e =
      if-Ends (suc n) (ltb max_nesting_depth (d + 1)) _ (
        Ends-bind (suc n) (parse_unary f ts (d + 1)) _
          (Ends-weaken n (suc n) _ (omega arith)
            (unary-Ends n f ts (d + 1) (omega (arith, h)) (omega (arith, e))))
          λ c rest k le. le)
  unary-Ends n (suc f) (t ∷ ts) d h e = comparison-Ends n f (t ∷ ts) d h (omega (arith, e))

  pub comparison-Ends :
      {F : Type 0} (n f : ℕ) (ts : List (Token F)) (d : ℕ)
      → length ts ≤ n
      → 6 * n + 2 ≤ f
      → Ends n (parse_comparison f ts d)
  comparison-Ends n zero ts d h e = absurd (omega (arith, e))
  comparison-Ends n (suc f) ts d h e =
      Ends-bind n (parse_primary f ts d) _ (primary-Ends n f ts d h (omega (arith, e)))
        λ left rest k le. compare-Ends n left rest k le

  pub primary-Ends :
      {F : Type 0} (n f : ℕ) (ts : List (Token F)) (d : ℕ)
      → length ts ≤ n
      → 6 * n + 1 ≤ f
      → Ends n (parse_primary f ts d)
  primary-Ends n zero ts d h e = absurd (omega (arith, e))
  primary-Ends n (suc f) [] d h e = tt
  primary-Ends zero (suc f) (left_paren ∷ ts) d h e = absurd (omega (arith, h))
  primary-Ends (suc n) (suc f) (left_paren ∷ ts) d h e =
      if-Ends (suc n) (ltb max_nesting_depth (d + 1)) _ (
        Ends-bind (suc n) (parse_or f ts (d + 1)) _
          (Ends-weaken n (suc n) _ (omega arith)
            (or-Ends n f ts (d + 1) (omega (arith, h)) (omega (arith, e))))
          λ c rest k le. close-Ends (suc n) c rest k le)
  primary-Ends n (suc f) (operand o ∷ ts) d h e = omega (arith, h)
  primary-Ends n (suc f) (_ ∷ ts) d h e = tt

finish-Ends : {F : Type 0} (n : ℕ) (r : Step F (Condition F)) → Ends n r → finish r ≢ out_of_fuel
unfolding finish
finish-Ends n (parsed (c, ([], d))) h = cc
finish-Ends n (parsed (c, (t ∷ ts, d))) h = cc
finish-Ends n invalid h = cc
finish-Ends n out_of_fuel h = absurd h

-- The parser ends on any tokens: with a fuel of six units for each token and six more, it returns an
-- expression or refuses.
pub parse_tokens_ends : {F : Type 0} (ts : List (Token F)) → parse_tokens ts ≢ out_of_fuel
unfolding parse_tokens
parse_tokens_ends ts =
    finish-Ends (length ts) (parse_or (6 * length ts + 6) ts 0)
      (or-Ends (length ts) (6 * length ts + 6) ts 0 (omega arith) (omega arith))
