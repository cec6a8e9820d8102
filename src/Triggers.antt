-- ===== src/Triggers.antt =====
-- crates/eqtrigger/src/engine.rs, substitute.rs and timers.rs: what the triggers of one character do
-- on a line of its log and as time goes by. A regular expression is a value of a type `R`, an f64 of a
-- type `F`; ids are numbers, and so is what an event only passes on. Traces are left out.
pub mod Substitute
pub mod Variables
pub mod Repeats
pub mod Timers
pub mod Profiles
pub mod State
pub mod Audio
pub mod Actions
pub mod Firing
pub mod Handle
pub mod Stages
pub mod Clock
pub mod Enders
pub mod Lines
pub mod Frames
pub mod Lockout
pub mod Restart
pub mod Advanced
pub mod Disabled
mod Tests
use stonemite.Conditions.{Condition}
use stonemite.Conditions.Evaluate.{Floats}
use stonemite.Base.Text.{Text}
use stonemite.Base.{ℕ, ◌+◌, ◌-◌, ◌%◌, Bool, Option, List}

-- 2 ^ 64, the modulus of `EngineMillis`.
abbrev pub u64_mod : ℕ
u64_mod = 18446744073709551616

abbrev pub wrapping_add : ℕ → ℕ → ℕ
wrapping_add a b = (a + b) % u64_mod

abbrev pub wrapping_sub : ℕ → ℕ → ℕ
wrapping_sub a b = (a + (u64_mod - b % u64_mod)) % u64_mod

-- What the engine asks of f64, besides the conditions. `millis x` is `(x * 1000.0) as u64`, which
-- saturates, and `exceeds x n` is `x - n as f64 > 0.0`.
pub record Seconds (F : Type 0) : Type 0 where
  pub floats : Floats F
  pub plus : F → F → F
  pub millis : F → ℕ
  pub exceeds : F → ℕ → Bool

abbrev pub is_above_zero : {F : Type 0} → Seconds F → F → Bool
is_above_zero seconds x = seconds.floats.gt x seconds.floats.float_zero

abbrev pub is_below_zero : {F : Type 0} → Seconds F → F → Bool
is_below_zero seconds x = seconds.floats.lt x seconds.floats.float_zero

-- What a pattern captured, by name.
abbrev pub MatchMap : Type 0
MatchMap = List (Text × Text)

pub data VariableOp : Type 0 where
  set_value set_counter clear_variable : VariableOp

pub record VariableAction (F : Type 0) : Type 0 where
  pub op : VariableOp
  pub name : Text
  pub value : Text
  pub step : F
  pub initial_value : F
  pub time_to_live_seconds : F

pub data TimerKind : Type 0 where
  countdown fast_countdown progress looping : TimerKind

pub data TimerRestartMode : Type 0 where
  start_new restart_all restart_same_name ignore_if_any_running : TimerRestartMode
  ignore_if_same_name_running : TimerRestartMode

-- `TimerBehavior`, as far as the engine reads it once a trigger is compiled. Of the stages only the
-- sounds are left.
pub record TimerBehavior (F : Type 0) : Type 0 where
  pub kind : TimerKind
  pub duration_seconds : F
  pub reset_duration_seconds : F
  pub times_to_loop : ℕ
  pub restart_mode : TimerRestartMode
  pub warning_seconds : ℕ
  pub warning_sound : Option Text
  pub end_sound : Option Text
  pub early_end_sound : Option Text
  pub end_early_repeated_count : ℕ
  pub end_clear_variables : List Text

-- A pattern with what was made of it: the conditions on the captures, which also find a duration, and
-- the test that comes before the expression.
pub data Matcher (F R : Type 0) : Type 0 where
  regex : R → (MatchMap → Bool × Option F) → (Text → Bool) → Text → Bool → Matcher F R
  literal : Text → Bool → Matcher F R

pub record TemplateFlags : Type 0 where
  pub counter : Bool
  pub repeated : Bool
  pub logtime : Bool

pub record EnderTemplate : Type 0 where
  pub pattern : Text
  pub use_regex : Bool

-- `CompiledTrigger`, with what the engine reads of its `Trigger`. A voice rate below 0 is 0, as it asks
-- for nothing either.
pub record CompiledTrigger (F R : Type 0) : Type 0 where
  pub id : ℕ
  pub trigger_name : Text
  pub lockout_seconds : F
  pub repeated_reset_seconds : F
  pub variable_actions : List (VariableAction F)
  pub sound : Option Text
  pub timer : Option (TimerBehavior F)
  pub priority : ℕ
  pub voice_rate : ℕ
  pub volume : ℕ
  pub text_overlays : List ℕ
  pub font_color : Option Text
  pub target : ℕ
  pub matcher : Matcher F R
  pub previous : Option (Matcher F R)
  pub condition : Option (Condition F)
  pub condition_invalid : Bool
  pub display_template : Text
  pub speak_template : Text
  pub timer_name_template : Text
  pub warning_display : Text
  pub warning_speak : Text
  pub end_display : Text
  pub end_speak : Text
  pub early_display : Text
  pub early_speak : Text
  pub ender_templates : List EnderTemplate
  pub speak_flags : TemplateFlags
  pub display_flags : TemplateFlags
  pub timer_flags : TemplateFlags
