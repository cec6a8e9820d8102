-- ===== src/Triggers/Actions.antt =====
-- `apply_variable_actions`: what a trigger does to the variables.
use stonemite.Triggers.{
  is_above_zero, wrapping_add, MatchMap, VariableOp, VariableAction, set_value, set_counter,
  clear_variable,
}
use stonemite.Triggers.Substitute.{replace_from_matches, replace_line_code, replace_tokens}
use stonemite.Triggers.Variables.{VariableStore, get, set, clear, get_match, as_match_map}
use stonemite.Triggers.State.{TriggerEngine}
use stonemite.Base.Text.{Text, lowercase, is_empty}
use stonemite.Base.TextMap.{find, put}
use stonemite.Base.{ℕ, Option, none, some, List, [], ◌∷◌, if◌then◌else◌}

abbrev pub or_else {ℓ} : {A : Type ℓ} → Option A → A → A
or_else none a = a
or_else (some b) a = b

module _ {F R : Type 0} (engine : TriggerEngine F R) where
  unfoldable pub format_counter : F → Text
  format_counter value =
      if engine.seconds.floats.is_plain value
      then engine.seconds.floats.format_integer value
      else engine.seconds.floats.format_float value

  abbrev pub number_of : Option Text → F → F
  number_of none otherwise = otherwise
  number_of (some text) otherwise = or_else (engine.seconds.floats.parse_f64 text) otherwise

  -- What a counter stands at: as a counter, else as the number that the variable is, else at first.
  unfoldable pub current_count : VariableStore F → Text → F → F
  unfolding find lowercase get
  current_count store name initial_value =
      or_else (find (lowercase name) store.counters) (number_of (get store name) initial_value)

  unfoldable pub resolve_value : VariableStore F → Text → Text → MatchMap → MatchMap → Text
  unfolding replace_from_matches replace_line_code replace_tokens get_match
  resolve_value store value line captures previous =
      replace_tokens engine.texts
        (replace_line_code
          (replace_from_matches engine.texts
            (replace_from_matches engine.texts value (some captures)) (some previous))
          line)
        (get_match (as_match_map store))

  unfoldable pub apply_op :
      VariableStore F
      → VariableOp
      → Text
      → VariableAction F
      → Option ℕ
      → Text
      → MatchMap
      → MatchMap
      → VariableStore F
  unfolding clear set put lowercase current_count format_counter resolve_value is_empty
  apply_op store clear_variable name action at line captures previous = clear store name
  apply_op store set_counter name action at line captures previous =
      let updated =
        engine.seconds.plus (current_count store name action.initial_value) action.step in
      set (record store { counters = put (lowercase name) updated store.counters }) name
        (format_counter updated) at
  apply_op store set_value name action at line captures previous =
      if is_empty action.value
      then store
      else set store name (resolve_value store action.value line captures previous) at

  unfoldable pub apply_variable_actions :
      VariableStore F → List (VariableAction F) → Text → MatchMap → MatchMap → ℕ → VariableStore F
  unfolding apply_op is_empty
  apply_variable_actions store [] line captures previous now = store
  apply_variable_actions store (action ∷ actions) line captures previous now =
      let name = engine.texts.trim action.name in
      let at =
        if is_above_zero engine.seconds action.time_to_live_seconds
        then some (wrapping_add now (engine.seconds.millis action.time_to_live_seconds))
        else none in
      let next =
        if is_empty name
        then store
        else apply_op store action.op name action at line captures previous in
      apply_variable_actions next actions line captures previous now
