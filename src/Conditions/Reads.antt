-- ===== src/Conditions/Reads.antt =====
-- What an evaluation asks for.
use stonemite.Conditions.{
  Operand, variable, str, number, bool, null, Condition, either, both, negated, compare, truthy,
}
use stonemite.Conditions.Evaluate.{
  Floats, operand_value, is_truthy, compare_values, evaluate, is_set,
}
use stonemite.Base.Text.{Text}
use stonemite.Base.{◌≡◌, refl, ap, ◌∙◌, not, ◌&&◌, ◌||◌, Option, List, [], ◌∷◌, ◌++◌, All}

abbrev pub operand_names : {F : Type 0} → Operand F → List Text
operand_names (variable name) = name ∷ []
operand_names o = []

-- The names of the variables in an expression.
abbrev pub names : {F : Type 0} → Condition F → List Text
names (either left right) = names left ++ names right
names (both left right) = names left ++ names right
names (negated inner) = names inner
names (truthy o) = operand_names o
names (compare left op right) = operand_names left ++ operand_names right

All-append : (P : Text → Type 0) (xs ys : List Text) → All P (xs ++ ys) → All P xs × All P ys
All-append P [] ys h = (tt, h)
All-append P (x ∷ xs) ys (h, hs) = let (left, right) = All-append P xs ys hs in ((h, left), right)

module _ {F : Type 0} (floats : Floats F) (resolve other : Text → Option Text) where
  -- The two resolvers answer alike for the names.
  abbrev pub Agree : List Text → Type 0
  Agree = All (λ name. resolve name ≡ other name)

  operand_value-Agree :
      (o : Operand F)
      → Agree (operand_names o)
      → operand_value floats resolve o ≡ operand_value floats other o
  unfolding operand_value
  operand_value-Agree (variable name) (h, _) = h
  operand_value-Agree (str text) h = refl
  operand_value-Agree (number value) h = refl
  operand_value-Agree (bool value) h = refl
  operand_value-Agree null h = refl

  is_truthy-Agree :
      (o : Operand F)
      → Agree (operand_names o)
      → is_truthy floats resolve o ≡ is_truthy floats other o
  unfolding is_truthy
  is_truthy-Agree (variable name) (h, _) = ap (is_set floats) h
  is_truthy-Agree (str text) h = refl
  is_truthy-Agree (number value) h = refl
  is_truthy-Agree (bool value) h = refl
  is_truthy-Agree null h = refl

  -- An evaluation asks for the variables in the expression and for no others: two resolvers that
  -- agree on these give the same result.
  pub evaluate-Agree :
      (c : Condition F) → Agree (names c) → evaluate floats resolve c ≡ evaluate floats other c
  unfolding evaluate
  evaluate-Agree (either left right) h =
      let (l, r) = All-append _ (names left) (names right) h in
      ap (λ b. b || evaluate floats resolve right) (evaluate-Agree left l)
      ∙ ap (λ b. evaluate floats other left || b) (evaluate-Agree right r)
  evaluate-Agree (both left right) h =
      let (l, r) = All-append _ (names left) (names right) h in
      ap (λ b. b && evaluate floats resolve right) (evaluate-Agree left l)
      ∙ ap (λ b. evaluate floats other left && b) (evaluate-Agree right r)
  evaluate-Agree (negated inner) h = ap not (evaluate-Agree inner h)
  evaluate-Agree (truthy o) h = is_truthy-Agree o h
  evaluate-Agree (compare left op right) h =
      let (l, r) = All-append _ (operand_names left) (operand_names right) h in
      ap (λ v. compare_values floats v left op (operand_value floats resolve right) right)
        (operand_value-Agree left l)
      ∙ ap (λ v. compare_values floats (operand_value floats other left) left op v right)
          (operand_value-Agree right r)
