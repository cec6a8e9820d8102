-- ===== src/Conditions/RoundTrip.antt =====
-- Parsing what the printer writes.
use mathlib.Core.List.{append_assoc, append-nil}
use stonemite.Conditions.{
  CompareOp, Operand, Condition, either, both, negated, compare, truthy, Token, operand, op,
  and_sign, or_sign, left_paren, right_paren,
}
use stonemite.Conditions.Parser.{
  parsed, compare_rest, close_paren, parse_primary_operand, finish, parse_tokens, max_nesting_depth,
  ◌>>=◌,
}
use stonemite.Conditions.Printer.{print, nesting, outermost, in_or, in_and}
use stonemite.Conditions.Steps.{
  read_or, read_ors, read_and, read_ands, read_unary, read_or_step, read_ors_step, read_and_step,
  read_ands_step, read_unary-not, read_unary-paren, read_unary-operand, EndsUnary, EndsAnd, EndsOr,
  read_ands_end, read_ors_end, compare_rest-operand, compare_rest-expression,
}
use stonemite.Conditions.Stable.{or_stable}
use stonemite.Base.{
  ℕ, suc, ◌+◌, ◌-◌, ◌≤◌, ◌≡◌, refl, sym, ap, ◌∙◌, List, [], ◌∷◌, ◌++◌, length, arith,
}

EndsAnd→Unary : {F : Type 0} (ts : List (Token F)) → EndsAnd ts → EndsUnary ts
EndsAnd→Unary [] h = tt
EndsAnd→Unary (op o ∷ ts) h = absurd h
EndsAnd→Unary (_ ∷ ts) h = tt

EndsOr→And : {F : Type 0} (ts : List (Token F)) → EndsOr ts → EndsAnd ts
EndsOr→And [] h = tt
EndsOr→And (op o ∷ ts) h = absurd h
EndsOr→And (and_sign ∷ ts) h = absurd h
EndsOr→And (_ ∷ ts) h = tt

-- The expression is read back on each level of the grammar. A level with a loop goes on with the
-- loop, the expression read so far in hand.
abbrev IsReadAsUnary : {F : Type 0} → Condition F → Type 0
IsReadAsUnary {F} c =
    (rest : List (Token F)) (d : ℕ)
    → EndsUnary rest
    → d + nesting in_and c ≤ max_nesting_depth
    → read_unary (print in_and c ++ rest) d ≡ parsed (c, (rest, d))

abbrev IsReadAsAnd : {F : Type 0} → Condition F → Type 0
IsReadAsAnd {F} c =
    (rest : List (Token F)) (d : ℕ)
    → EndsUnary rest
    → d + nesting in_or c ≤ max_nesting_depth
    → read_and (print in_or c ++ rest) d ≡ read_ands c rest d

abbrev IsReadAsOr : {F : Type 0} → Condition F → Type 0
IsReadAsOr {F} c =
    (rest : List (Token F)) (d : ℕ)
    → EndsAnd rest
    → d + nesting outermost c ≤ max_nesting_depth
    → read_or (print outermost c ++ rest) d ≡ read_ors c rest d

abbrev IsReadBack : {F : Type 0} → Condition F → Type 0
IsReadBack c = IsReadAsUnary c × (IsReadAsAnd c × IsReadAsOr c)

-- An expression that is printed alike in two places is read alike.
unary→and :
    {F : Type 0} (c : Condition F)
    → print in_or c ≡ print in_and c
    → nesting in_or c ≡ nesting in_and c
    → IsReadAsUnary c
    → IsReadAsAnd c
unary→and c same deep unary rest d end h =
    read_and_step (print in_or c ++ rest) d
    ∙ ap (λ ts. read_unary (ts ++ rest) d >>= λ (node, (rest, e)). read_ands node rest e) same
    ∙ ap (λ r. r >>= λ (node, (rest, e)). read_ands node rest e)
        (unary rest d end (omega (arith, h, deep)))

and→or :
    {F : Type 0} (c : Condition F)
    → print outermost c ≡ print in_or c
    → nesting outermost c ≡ nesting in_or c
    → IsReadAsAnd c
    → IsReadAsOr c
and→or c same deep and rest d end h =
    read_or_step (print outermost c ++ rest) d
    ∙ ap (λ ts. read_and (ts ++ rest) d >>= λ (node, (rest, e)). read_ors node rest e) same
    ∙ ap (λ r. r >>= λ (node, (rest, e)). read_ors node rest e)
        (and rest d (EndsAnd→Unary rest end) (omega (arith, h, deep)) ∙ read_ands_end c rest d end)

or→unary :
    {F : Type 0} (c : Condition F)
    → print in_and c ≡ left_paren ∷ (print outermost c ++ right_paren ∷ [])
    → nesting in_and c ≡ suc (nesting outermost c)
    → IsReadAsOr c
    → IsReadAsUnary c
unfolding close_paren
or→unary {F} c same deep or rest d end h =
    ap (λ ts. read_unary (ts ++ rest) d) same
    ∙ ap (λ ts. read_unary (left_paren ∷ ts) d)
        (append_assoc (print outermost c) (right_paren ∷ []) rest)
    ∙ read_unary-paren (print outermost c ++ right_paren ∷ rest) d (omega (arith, h, deep))
    ∙ ap
        (λ r. (r >>= λ (c, (rest, e)). close_paren c rest e) >>= λ (left, (rest, e)).
          compare_rest left rest e)
        (or (right_paren ∷ rest) (d + 1) tt (omega (arith, h, deep))
          ∙ read_ors_end c (right_paren ∷ rest) (d + 1) tt)
    ∙ compare_rest-expression c rest (d + 1 - 1) end
    ∙ ap (λ e. parsed (c, (rest, e))) (omega arith)

truthy-IsReadBack : {F : Type 0} (o : Operand F) → IsReadBack (truthy o)
unfolding print nesting
truthy-IsReadBack o = (unary, (and, and→or (truthy o) refl refl and))
  where
    unary : IsReadAsUnary (truthy o)
    unary rest d end h = read_unary-operand o rest d ∙ compare_rest-operand o rest d end

    and : IsReadAsAnd (truthy o)
    and = unary→and (truthy o) refl refl unary

compare-IsReadBack :
    {F : Type 0} (l : Operand F) (o : CompareOp) (r : Operand F) → IsReadBack (compare l o r)
unfolding print nesting compare_rest parse_primary_operand
compare-IsReadBack l o r = (unary, (and, and→or (compare l o r) refl refl and))
  where
    unary : IsReadAsUnary (compare l o r)
    unary rest d end h = read_unary-operand l (op o ∷ operand r ∷ rest) d

    and : IsReadAsAnd (compare l o r)
    and = unary→and (compare l o r) refl refl unary

negated-IsReadBack : {F : Type 0} (c : Condition F) → IsReadAsUnary c → IsReadBack (negated c)
unfolding print nesting
negated-IsReadBack c read = (unary, (and, and→or (negated c) refl refl and))
  where
    unary : IsReadAsUnary (negated c)
    unary rest d end h =
        read_unary-not (print in_and c ++ rest) d (omega (arith, h))
        ∙ ap (λ r. r >>= λ (c, (rest, e)). parsed (negated c, (rest, e - 1)))
            (read rest (d + 1) end (omega (arith, h)))
        ∙ ap (λ e. parsed (negated c, (rest, e))) (omega arith)

    and : IsReadAsAnd (negated c)
    and = unary→and (negated c) refl refl unary

both-IsReadBack :
    {F : Type 0} (l r : Condition F) → IsReadAsAnd l → IsReadAsUnary r → IsReadBack (both l r)
unfolding print nesting
both-IsReadBack l r read_left read_right = (or→unary (both l r) refl (omega arith) or, (and, or))
  where
    and : IsReadAsAnd (both l r)
    and rest d end h =
        ap (λ ts. read_and ts d) (append_assoc (print in_or l) (and_sign ∷ print in_and r) rest)
        ∙ read_left (and_sign ∷ (print in_and r ++ rest)) d tt (omega (arith, h))
        ∙ read_ands_step l (print in_and r ++ rest) d
        ∙ ap (λ s. s >>= λ (right, (rest, e)). read_ands (both l right) rest e)
            (read_right rest d end (omega (arith, h)))

    or : IsReadAsOr (both l r)
    or = and→or (both l r) refl refl and

either-IsReadBack :
    {F : Type 0} (l r : Condition F) → IsReadAsOr l → IsReadAsAnd r → IsReadBack (either l r)
unfolding print nesting
either-IsReadBack l r read_left read_right = (unary, (unary→and (either l r) refl refl unary, or))
  where
    or : IsReadAsOr (either l r)
    or rest d end h =
        ap (λ ts. read_or ts d) (append_assoc (print outermost l) (or_sign ∷ print in_or r) rest)
        ∙ read_left (or_sign ∷ (print in_or r ++ rest)) d tt (omega (arith, h))
        ∙ read_ors_step l (print in_or r ++ rest) d
        ∙ ap (λ s. s >>= λ (right, (rest, e)). read_ors (either l right) rest e)
            (read_right rest d (EndsAnd→Unary rest end) (omega (arith, h))
              ∙ read_ands_end r rest d end)

    unary : IsReadAsUnary (either l r)
    unary = or→unary (either l r) refl (omega arith) or

IsReadBack-all : {F : Type 0} (c : Condition F) → IsReadBack c
IsReadBack-all (either l r) = either-IsReadBack l r (IsReadBack-all l).1.1 (IsReadBack-all r).1.0
IsReadBack-all (both l r) = both-IsReadBack l r (IsReadBack-all l).1.0 (IsReadBack-all r).0
IsReadBack-all (negated c) = negated-IsReadBack c (IsReadBack-all c).0
IsReadBack-all (compare l o r) = compare-IsReadBack l o r
IsReadBack-all (truthy o) = truthy-IsReadBack o

-- An expression, written as tokens with the parentheses that the grammar needs and no others, is
-- parsed to itself, if its parentheses and negations are nested no deeper than ten.
pub parse_tokens-print :
    {F : Type 0} (c : Condition F)
    → nesting outermost c ≤ max_nesting_depth
    → parse_tokens (print outermost c) ≡ parsed c
unfolding parse_tokens read_or finish
parse_tokens-print c h =
    ap finish (
      or_stable (length (print outermost c)) _ _ (print outermost c) 0 (omega arith) (omega arith)
        (omega arith))
    ∙ ap (λ ts. finish (read_or ts 0)) (sym (append-nil (print outermost c)))
    ∙ ap finish ((IsReadBack-all c).1.1 [] 0 tt (omega (arith, h)) ∙ read_ors_end c [] 0 tt)
