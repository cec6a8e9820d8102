-- ===== src/Conditions/Parser.antt =====
-- The recursive descent of `Parser`. Its state is what is left of the tokens, and the depth.
use stonemite.Conditions.{
  Operand, Condition, either, both, negated, compare, truthy, Token, operand, op, and_sign, or_sign,
  not_sign, left_paren, right_paren,
}
use stonemite.Base.{ℕ, zero, suc, ◌+◌, ◌-◌, ◌*◌, List, [], ◌∷◌, length, ltb, if◌then◌else◌}

abbrev pub max_nesting_depth : ℕ
max_nesting_depth = 10

-- `invalid` is `None`. Only the model runs out of fuel.
pub data Result (A : Type 0) : Type 0 where
  parsed : A → Result A
  invalid out_of_fuel : Result A

-- What a call reads, with the tokens and the depth that it leaves.
abbrev pub Step : Type 0 → Type 0 → Type 0
Step F A = Result (A × (List (Token F) × ℕ))

infixl 1 ◌>>=◌
abbrev pub ◌>>=◌ : {A B : Type 0} → Result A → (A → Result B) → Result B
parsed a >>= f = f a
invalid >>= f = invalid
out_of_fuel >>= f = out_of_fuel

-- A parenthesised expression, or an operand.
pub data Primary (F : Type 0) : Type 0 where
  operand_only : Operand F → Primary F
  expression : Condition F → Primary F

unfoldable pub parse_primary_operand : {F : Type 0} → List (Token F) → ℕ → Step F (Operand F)
parse_primary_operand (operand o ∷ ts) d = parsed (o, (ts, d))
parse_primary_operand ts d = invalid

-- `parse_comparison` behind its first operand.
unfoldable pub compare_rest : {F : Type 0} → Primary F → List (Token F) → ℕ → Step F (Condition F)
unfolding parse_primary_operand
compare_rest (operand_only left) (op o ∷ ts) d =
    parse_primary_operand ts d >>= λ (right, rest). parsed (compare left o right, rest)
compare_rest (expression c) (op o ∷ ts) d = parse_primary_operand ts d >>= λ _. invalid
compare_rest (operand_only o) ts d = parsed (truthy o, (ts, d))
compare_rest (expression c) ts d = parsed (c, (ts, d))

abbrev pub as_operand : {F : Type 0} → Step F (Operand F) → Step F (Primary F)
as_operand r = r >>= λ (o, rest). parsed (operand_only o, rest)

-- The closing parenthesis of `parse_primary`.
unfoldable pub close_paren : {F : Type 0} → Condition F → List (Token F) → ℕ → Step F (Primary F)
close_paren c (right_paren ∷ ts) d = parsed (expression c, (ts, d - 1))
close_paren c ts d = invalid

-- Every call costs a unit of fuel, and so does every round of the loops of `parse_or` and `parse_and`.
unfoldable mutual
  unfolding compare_rest parse_primary_operand close_paren

  pub parse_or : {F : Type 0} → ℕ → List (Token F) → ℕ → Step F (Condition F)
  parse_or zero ts d = out_of_fuel
  parse_or (suc f) ts d = parse_and f ts d >>= λ (node, (rest, e)). or_loop f node rest e

  pub or_loop : {F : Type 0} → ℕ → Condition F → List (Token F) → ℕ → Step F (Condition F)
  or_loop zero node ts d = out_of_fuel
  or_loop (suc f) node (or_sign ∷ ts) d =
      parse_and f ts d >>= λ (right, (rest, e)). or_loop f (either node right) rest e
  or_loop (suc f) node ts d = parsed (node, (ts, d))

  pub parse_and : {F : Type 0} → ℕ → List (Token F) → ℕ → Step F (Condition F)
  parse_and zero ts d = out_of_fuel
  parse_and (suc f) ts d = parse_unary f ts d >>= λ (node, (rest, e)). and_loop f node rest e

  pub and_loop : {F : Type 0} → ℕ → Condition F → List (Token F) → ℕ → Step F (Condition F)
  and_loop zero node ts d = out_of_fuel
  and_loop (suc f) node (and_sign ∷ ts) d =
      parse_unary f ts d >>= λ (right, (rest, e)). and_loop f (both node right) rest e
  and_loop (suc f) node ts d = parsed (node, (ts, d))

  pub parse_unary : {F : Type 0} → ℕ → List (Token F) → ℕ → Step F (Condition F)
  parse_unary zero ts d = out_of_fuel
  parse_unary (suc f) (not_sign ∷ ts) d =
      let inner =
        parse_unary f ts (d + 1) >>= λ (c, (rest, e)). parsed (negated c, (rest, e - 1)) in
      if ltb max_nesting_depth (d + 1) then invalid else inner
  parse_unary (suc f) ts d = parse_comparison f ts d

  pub parse_comparison : {F : Type 0} → ℕ → List (Token F) → ℕ → Step F (Condition F)
  parse_comparison zero ts d = out_of_fuel
  parse_comparison (suc f) ts d =
      parse_primary f ts d >>= λ (left, (rest, e)). compare_rest left rest e

  pub parse_primary : {F : Type 0} → ℕ → List (Token F) → ℕ → Step F (Primary F)
  parse_primary zero ts d = out_of_fuel
  parse_primary (suc f) (left_paren ∷ ts) d =
      let inner = parse_or f ts (d + 1) >>= λ (c, (rest, e)). close_paren c rest e in
      if ltb max_nesting_depth (d + 1) then invalid else inner
  parse_primary (suc f) ts d = as_operand (parse_primary_operand ts d)

-- All tokens must be read.
unfoldable pub finish : {F : Type 0} → Step F (Condition F) → Result (Condition F)
finish (parsed (c, ([], d))) = parsed c
finish (parsed (c, (t ∷ ts, d))) = invalid
finish invalid = invalid
finish out_of_fuel = out_of_fuel

-- The part of `parse` behind `tokenize`, with fuel that suffices.
unfoldable pub parse_tokens : {F : Type 0} → List (Token F) → Result (Condition F)
unfolding parse_or finish
parse_tokens ts = finish (parse_or (6 * length ts + 6) ts 0)
