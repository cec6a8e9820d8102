-- ===== src/Conditions/Printer.antt =====
-- An expression as tokens, with the parentheses that it needs and no others.
use stonemite.Conditions.{
  Condition, either, both, negated, compare, truthy, Token, operand, op, and_sign, or_sign,
  not_sign, left_paren, right_paren,
}
use stonemite.Base.{ℕ, suc, ◌+◌, max, Bool, true, false, List, [], ◌∷◌, ◌++◌}

-- Where an expression stands: on its own or left of `or`; right of `or` or left of `and`; elsewhere.
pub data Place : Type 0 where
  outermost in_or in_and : Place

abbrev pub guarded : {F : Type 0} → Bool → List (Token F) → List (Token F)
guarded true ts = left_paren ∷ (ts ++ right_paren ∷ [])
guarded false ts = ts

abbrev pub wraps_either : Place → Bool
wraps_either outermost = false
wraps_either p = true

abbrev pub wraps_both : Place → Bool
wraps_both in_and = true
wraps_both p = false

unfoldable pub print : {F : Type 0} → Place → Condition F → List (Token F)
print p (either l r) = guarded (wraps_either p) (print outermost l ++ or_sign ∷ print in_or r)
print p (both l r) = guarded (wraps_both p) (print in_or l ++ and_sign ∷ print in_and r)
print p (negated c) = not_sign ∷ print in_and c
print p (compare l o r) = operand l ∷ op o ∷ operand r ∷ []
print p (truthy o) = operand o ∷ []

abbrev pub one_if : Bool → ℕ
one_if true = 1
one_if false = 0

-- How deep parentheses and negations are nested.
unfoldable pub nesting : {F : Type 0} → Place → Condition F → ℕ
nesting p (either l r) = one_if (wraps_either p) + max (nesting outermost l) (nesting in_or r)
nesting p (both l r) = one_if (wraps_both p) + max (nesting in_or l) (nesting in_and r)
nesting p (negated c) = suc (nesting in_and c)
nesting p (compare l o r) = 0
nesting p (truthy o) = 0
