-- ===== src/Triggers/Timers.antt =====
-- crates/eqtrigger/src/timers.rs: the timers of a character, and how `start_timer` makes one.
use stonemite.Triggers.{
  Seconds, is_above_zero, wrapping_add, wrapping_sub, MatchMap, TimerKind, TimerRestartMode,
  TimerBehavior, start_new, restart_all, restart_same_name, ignore_if_any_running,
  ignore_if_same_name_running,
}
use stonemite.Base.Text.{Text, eq_ignore_ascii_case}
use stonemite.Base.{
  ℕ, ◌*◌, Bool, false, not, ◌&&◌, Option, none, some, List, any, keep, leb, ltb, ◌==◌,
  if◌then◌else◌,
}

-- A pattern that ends a timer early.
pub data CompiledEnder (F R : Type 0) : Type 0 where
  regex_ender : R → (MatchMap → Bool × Option F) → CompiledEnder F R
  literal_ender : Text → CompiledEnder F R

pub record ActiveTimer (F R : Type 0) : Type 0 where
  pub trigger_index : ℕ
  pub trigger_id : ℕ
  pub kind : TimerKind
  pub display_name : Text
  pub display_name_template : Text
  pub begin : ℕ
  pub end : ℕ
  pub duration_ms : ℕ
  pub reset_at : Option ℕ
  pub warning_at : Option ℕ
  pub warned : Bool
  pub loop_count : ℕ
  pub early_enders : List (CompiledEnder F R)
  pub original_matches : MatchMap
  pub previous_matches : MatchMap
  pub source_line : Text
  pub log_time : Option Text
  pub counter_count : Option ℕ
  pub repeated_count : Option ℕ

abbrev pub is_reached : Option ℕ → ℕ → Bool
is_reached none now = false
is_reached (some at) now = leb at now

module _ {F R : Type 0} where
  unfoldable pub is_ended : ActiveTimer F R → ℕ → Bool
  is_ended timer now = leb timer.end now

  unfoldable pub warning_due : ActiveTimer F R → ℕ → Bool
  warning_due timer now = not timer.warned && is_reached timer.warning_at now

  unfoldable pub is_of : ℕ → ActiveTimer F R → Bool
  is_of index timer = timer.trigger_index == index

  unfoldable pub has_name : ℕ → Text → ActiveTimer F R → Bool
  unfolding is_of eq_ignore_ascii_case
  has_name index name timer = is_of index timer && eq_ignore_ascii_case timer.display_name name

  -- The timers that go on when a trigger starts one; `none` if it starts none.
  unfoldable pub make_room :
      TimerRestartMode → ℕ → Text → List (ActiveTimer F R) → Option (List (ActiveTimer F R))
  unfolding is_of has_name
  make_room start_new index name timers = some timers
  make_room restart_all index name timers = some (keep (λ t. not (is_of index t)) timers)
  make_room restart_same_name index name timers =
      some (keep (λ t. not (has_name index name t)) timers)
  make_room ignore_if_any_running index name timers =
      if any (is_of index) timers then none else some timers
  make_room ignore_if_same_name_running index name timers =
      if any (has_name index name) timers then none else some timers

module _ {F : Type 0} (seconds : Seconds F) where
  unfoldable pub warning_time : TimerBehavior F → F → ℕ → Option ℕ
  warning_time behavior duration now =
      if ltb 0 behavior.warning_seconds && seconds.exceeds duration behavior.warning_seconds
      then some (
          wrapping_sub (wrapping_add now (seconds.millis duration))
            (behavior.warning_seconds * 1000))
      else none

  unfoldable pub reset_time : TimerBehavior F → ℕ → Option ℕ
  reset_time behavior now =
      if is_above_zero seconds behavior.reset_duration_seconds
      then some (wrapping_add now (seconds.millis behavior.reset_duration_seconds))
      else none
