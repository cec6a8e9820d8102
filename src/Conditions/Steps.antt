-- ===== src/Conditions/Steps.antt =====
-- The parser without its fuel, level by level.
use stonemite.Conditions.{
  Operand, Condition, either, both, negated, truthy, Token, operand, op, and_sign, or_sign,
  not_sign, left_paren,
}
use stonemite.Conditions.Fuel.{and-Ends, unary-Ends}
use stonemite.Conditions.Parser.{
  Result, parsed, invalid, Step, operand_only, expression, compare_rest, close_paren, parse_or,
  or_loop, parse_and, and_loop, parse_unary, max_nesting_depth, ◌>>=◌,
}
use stonemite.Base.{
  ℕ, suc, ◌+◌, ◌-◌, ◌*◌, ◌≤◌, ◌≡◌, refl, ap, ◌∙◌, List, [], ◌∷◌, length, arith, ltb, if◌then◌else◌,
}
use stonemite.Conditions.Stable.{
  bind_cong, or_stable, or_loop_stable, and_stable, and_loop_stable, unary_stable,
}

-- The parser with the fuel that suffices.
unfoldable pub read_or : {F : Type 0} → List (Token F) → ℕ → Step F (Condition F)
unfolding parse_or
read_or ts d = parse_or (6 * length ts + 5) ts d

unfoldable pub read_ors : {F : Type 0} → Condition F → List (Token F) → ℕ → Step F (Condition F)
unfolding parse_or
read_ors node ts d = or_loop (suc (6 * length ts)) node ts d

unfoldable pub read_and : {F : Type 0} → List (Token F) → ℕ → Step F (Condition F)
unfolding parse_or
read_and ts d = parse_and (6 * length ts + 4) ts d

unfoldable pub read_ands : {F : Type 0} → Condition F → List (Token F) → ℕ → Step F (Condition F)
unfolding parse_or
read_ands node ts d = and_loop (suc (6 * length ts)) node ts d

unfoldable pub read_unary : {F : Type 0} → List (Token F) → ℕ → Step F (Condition F)
unfolding parse_or
read_unary ts d = parse_unary (6 * length ts + 3) ts d

pub read_or_step :
    {F : Type 0} (ts : List (Token F)) (d : ℕ)
    → read_or ts d ≡ (read_and ts d >>= λ (node, (rest, e)). read_ors node rest e)
unfolding read_or read_ors read_and parse_or
read_or_step ts d =
    or_stable (length ts) (6 * length ts + 5) (suc (6 * length ts + 4)) ts d (omega arith)
      (omega arith) (omega arith)
    ∙ bind_cong (length ts) (read_and ts d) (read_and ts d) _ _
        (and-Ends (length ts) (6 * length ts + 4) ts d (omega arith) (omega arith)) refl
        λ node rest e le.
          or_loop_stable (length rest) (6 * length ts + 4) (suc (6 * length rest)) node rest e
            (omega arith) (omega (arith, le)) (omega arith)

pub read_and_step :
    {F : Type 0} (ts : List (Token F)) (d : ℕ)
    → read_and ts d ≡ (read_unary ts d >>= λ (node, (rest, e)). read_ands node rest e)
unfolding read_and read_ands read_unary parse_or
read_and_step ts d =
    and_stable (length ts) (6 * length ts + 4) (suc (6 * length ts + 3)) ts d (omega arith)
      (omega arith) (omega arith)
    ∙ bind_cong (length ts) (read_unary ts d) (read_unary ts d) _ _
        (unary-Ends (length ts) (6 * length ts + 3) ts d (omega arith) (omega arith)) refl
        λ node rest e le.
          and_loop_stable (length rest) (6 * length ts + 3) (suc (6 * length rest)) node rest e
            (omega arith) (omega (arith, le)) (omega arith)

pub read_ors_step :
    {F : Type 0} (node : Condition F) (ts : List (Token F)) (d : ℕ)
    → read_ors node (or_sign ∷ ts) d
      ≡ (read_and ts d >>= λ (right, (rest, e)). read_ors (either node right) rest e)
unfolding read_ors read_and parse_or
read_ors_step node ts d =
    bind_cong (length ts) (parse_and (6 * suc (length ts)) ts d) (read_and ts d) _ _
      (and-Ends (length ts) (6 * suc (length ts)) ts d (omega arith) (omega arith))
      (and_stable (length ts) (6 * suc (length ts)) (6 * length ts + 4) ts d (omega arith)
        (omega arith) (omega arith))
      λ right rest e le.
        or_loop_stable (length rest) (6 * suc (length ts)) (suc (6 * length rest))
          (either node right) rest e (omega arith) (omega (arith, le)) (omega arith)

pub read_ands_step :
    {F : Type 0} (node : Condition F) (ts : List (Token F)) (d : ℕ)
    → read_ands node (and_sign ∷ ts) d
      ≡ (read_unary ts d >>= λ (right, (rest, e)). read_ands (both node right) rest e)
unfolding read_ands read_unary parse_or
read_ands_step node ts d =
    bind_cong (length ts) (parse_unary (6 * suc (length ts)) ts d) (read_unary ts d) _ _
      (unary-Ends (length ts) (6 * suc (length ts)) ts d (omega arith) (omega arith))
      (unary_stable (length ts) (6 * suc (length ts)) (6 * length ts + 3) ts d (omega arith)
        (omega arith) (omega arith))
      λ right rest e le.
        and_loop_stable (length rest) (6 * suc (length ts)) (suc (6 * length rest))
          (both node right) rest e (omega arith) (omega (arith, le)) (omega arith)

within_depth :
    {A : Type 0} (d : ℕ) (r : Result A)
    → d + 1 ≤ max_nesting_depth
    → (if ltb max_nesting_depth (d + 1) then invalid else r) ≡ r
within_depth d r h = ground arith

pub read_unary-not :
    {F : Type 0} (ts : List (Token F)) (d : ℕ)
    → d + 1 ≤ max_nesting_depth
    → read_unary (not_sign ∷ ts) d
      ≡ (read_unary ts (d + 1) >>= λ (c, (rest, e)). parsed (negated c, (rest, e - 1)))
unfolding read_unary parse_or
read_unary-not ts d h =
    unary_stable (suc (length ts)) (6 * suc (length ts) + 3) (suc (6 * suc (length ts) + 2))
      (not_sign ∷ ts) d (omega arith) (omega arith) (omega arith)
    ∙ within_depth d _ h
    ∙ ap (λ r. r >>= λ (c, (rest, e)). parsed (negated c, (rest, e - 1)))
        (unary_stable (length ts) (6 * suc (length ts) + 2) (6 * length ts + 3) ts (d + 1)
          (omega arith) (omega arith) (omega arith))

pub read_unary-paren :
    {F : Type 0} (ts : List (Token F)) (d : ℕ)
    → d + 1 ≤ max_nesting_depth
    → read_unary (left_paren ∷ ts) d ≡ (
        (read_or ts (d + 1) >>= λ (c, (rest, e)). close_paren c rest e) >>= λ (left, (rest, e)).
        compare_rest left rest e)
unfolding read_unary read_or parse_or
read_unary-paren ts d h =
    unary_stable (suc (length ts)) (6 * suc (length ts) + 3) (suc (suc (suc (6 * suc (length ts)))))
      (left_paren ∷ ts) d (omega arith) (omega arith) (omega arith)
    ∙ ap (λ r. r >>= λ (left, (rest, e)). compare_rest left rest e)
        (within_depth d _ h
          ∙ ap (λ r. r >>= λ (c, (rest, e)). close_paren c rest e)
              (or_stable (length ts) (6 * suc (length ts)) (6 * length ts + 5) ts (d + 1)
                (omega arith) (omega arith) (omega arith)))

pub read_unary-operand :
    {F : Type 0} (o : Operand F) (ts : List (Token F)) (d : ℕ)
    → read_unary (operand o ∷ ts) d ≡ compare_rest (operand_only o) ts d
unfolding read_unary parse_or
read_unary-operand o ts d =
    unary_stable (suc (length ts)) (6 * suc (length ts) + 3) (suc (suc (suc (6 * suc (length ts)))))
      (operand o ∷ ts) d (omega arith) (omega arith) (omega arith)

-- What follows an expression ends it: its head binds no tighter than the place allows.
abbrev pub EndsUnary : {F : Type 0} → List (Token F) → Type 0
EndsUnary (op o ∷ ts) = ⊥
EndsUnary ts = Unit

abbrev pub EndsAnd : {F : Type 0} → List (Token F) → Type 0
EndsAnd (and_sign ∷ ts) = ⊥
EndsAnd (op o ∷ ts) = ⊥
EndsAnd ts = Unit

abbrev pub EndsOr : {F : Type 0} → List (Token F) → Type 0
EndsOr (or_sign ∷ ts) = ⊥
EndsOr (and_sign ∷ ts) = ⊥
EndsOr (op o ∷ ts) = ⊥
EndsOr ts = Unit

pub read_ands_end :
    {F : Type 0} (node : Condition F) (ts : List (Token F)) (d : ℕ)
    → EndsAnd ts
    → read_ands node ts d ≡ parsed (node, (ts, d))
unfolding read_ands parse_or
read_ands_end node [] d h = refl
read_ands_end node (and_sign ∷ ts) d h = absurd h
read_ands_end node (_ ∷ ts) d h = refl

pub read_ors_end :
    {F : Type 0} (node : Condition F) (ts : List (Token F)) (d : ℕ)
    → EndsOr ts
    → read_ors node ts d ≡ parsed (node, (ts, d))
unfolding read_ors parse_or
read_ors_end node [] d h = refl
read_ors_end node (or_sign ∷ ts) d h = absurd h
read_ors_end node (_ ∷ ts) d h = refl

pub compare_rest-operand :
    {F : Type 0} (o : Operand F) (ts : List (Token F)) (d : ℕ)
    → EndsUnary ts
    → compare_rest (operand_only o) ts d ≡ parsed (truthy o, (ts, d))
unfolding compare_rest
compare_rest-operand o [] d h = refl
compare_rest-operand o (op c ∷ ts) d h = absurd h
compare_rest-operand o (_ ∷ ts) d h = refl

pub compare_rest-expression :
    {F : Type 0} (c : Condition F) (ts : List (Token F)) (d : ℕ)
    → EndsUnary ts
    → compare_rest (expression c) ts d ≡ parsed (c, (ts, d))
unfolding compare_rest
compare_rest-expression c [] d h = refl
compare_rest-expression c (op o ∷ ts) d h = absurd h
compare_rest-expression c (_ ∷ ts) d h = refl
