-- ===== src/Conditions/Evaluate.antt =====
-- crates/eqtrigger/src/conditions.rs: `evaluate`, with what it asks of texts and of f64 as parameters.
use stonemite.Conditions.{
  CompareOp, Operand, variable, str, number, bool, null, Condition, either, both, negated, compare,
  truthy,
}
use stonemite.Base.Text.{Text, eq_ignore_ascii_case}
use stonemite.Base.{Bool, true, false, not, ◌&&◌, ◌||◌, Option, none, some, [], ◌∷◌, if◌then◌else◌}

-- The standard library on f64 and texts, and `contains_ignore_case` of the regular expressions.
-- `is_plain` is `fract() == 0.0 && abs() < 1e15`, and `format_integer` prints what it admits as i64.
pub record Floats (F : Type 0) : Type 0 where
  pub float_zero : F
  pub gt : F → F → Bool
  pub ge : F → F → Bool
  pub lt : F → F → Bool
  pub le : F → F → Bool
  pub is_finite : F → Bool
  pub is_plain : F → Bool
  pub format_integer : F → Text
  pub format_float : F → Text
  pub parse_f64 : Text → Option F
  pub trim : Text → Text
  pub contains_ignore_case : Text → Text → Bool

abbrev pub is_empty : Text → Bool
is_empty [] = true
is_empty (c ∷ cs) = false

abbrev pub true_text : Text
true_text = b't' ∷ b'r' ∷ b'u' ∷ b'e' ∷ []

abbrev pub false_text : Text
false_text = b'f' ∷ b'a' ∷ b'l' ∷ b's' ∷ b'e' ∷ []

abbrev pub is_null : {F : Type 0} → Operand F → Bool
is_null null = true
is_null o = false

unfoldable pub equals : {F : Type 0} → Option Text → Operand F → Option Text → Operand F → Bool
unfolding eq_ignore_ascii_case
equals (some left) left_operand (some right) right_operand = eq_ignore_ascii_case left right
equals none left_operand none right_operand = is_null left_operand || is_null right_operand
equals left left_operand right right_operand = false

module _ {F : Type 0} (floats : Floats F) where
  unfoldable pub format_number : F → Text
  format_number value =
      if floats.is_plain value then floats.format_integer value else floats.format_float value

  abbrev pub finite_only : Option F → Option F
  finite_only none = none
  finite_only (some value) = if floats.is_finite value then some value else none

  unfoldable pub parse_number : Text → Option F
  parse_number text =
      if is_empty (floats.trim text)
      then none
      else finite_only (floats.parse_f64 (floats.trim text))

  -- An unset variable counts as zero.
  abbrev pub number_or_zero : Option Text → Option F
  unfolding parse_number
  number_or_zero none = some floats.float_zero
  number_or_zero (some text) = parse_number text

  abbrev pub ordered : (F → F → Bool) → Option F → Option F → Bool
  ordered test (some left) (some right) = test left right
  ordered test left right = false

  abbrev pub contains_text : Option Text → Option Text → Bool
  contains_text (some left) (some right) = floats.contains_ignore_case left right
  contains_text left right = false

  unfoldable pub compare_values :
      Option Text → Operand F → CompareOp → Option Text → Operand F → Bool
  unfolding equals parse_number
  compare_values left left_operand CompareOp.eq right right_operand =
      equals left left_operand right right_operand
  compare_values left left_operand CompareOp.ne right right_operand =
      not (equals left left_operand right right_operand)
  compare_values left left_operand CompareOp.contains right right_operand = contains_text left right
  compare_values left left_operand CompareOp.gt right right_operand =
      ordered floats.gt (number_or_zero left) (number_or_zero right)
  compare_values left left_operand CompareOp.ge right right_operand =
      ordered floats.ge (number_or_zero left) (number_or_zero right)
  compare_values left left_operand CompareOp.lt right right_operand =
      ordered floats.lt (number_or_zero left) (number_or_zero right)
  compare_values left left_operand CompareOp.le right right_operand =
      ordered floats.le (number_or_zero left) (number_or_zero right)

  unfoldable pub operand_value : (Text → Option Text) → Operand F → Option Text
  unfolding format_number
  operand_value resolve (variable name) = resolve name
  operand_value resolve (str text) = some text
  operand_value resolve (number value) = some (format_number value)
  operand_value resolve (bool value) = some (if value then true_text else false_text)
  operand_value resolve null = none

  abbrev pub is_set : Option Text → Bool
  is_set none = false
  is_set (some text) = not (is_empty text)

  unfoldable pub is_truthy : (Text → Option Text) → Operand F → Bool
  is_truthy resolve (variable name) = is_set (resolve name)
  is_truthy resolve (bool value) = value
  is_truthy resolve null = false
  is_truthy resolve o = true

  unfoldable pub evaluate : (Text → Option Text) → Condition F → Bool
  unfolding is_truthy operand_value compare_values
  evaluate resolve (either left right) = evaluate resolve left || evaluate resolve right
  evaluate resolve (both left right) = evaluate resolve left && evaluate resolve right
  evaluate resolve (negated inner) = not (evaluate resolve inner)
  evaluate resolve (truthy o) = is_truthy resolve o
  evaluate resolve (compare left op right) =
      compare_values (operand_value resolve left) left op (operand_value resolve right) right
