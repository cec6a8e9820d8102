-- ===== src/Triggers/State.antt =====
-- `CharState`, the events that triggers bring about, and what the engine is given: a compiled library
-- with the expressions, times and texts that it needs.
use stonemite.Triggers.{Seconds, MatchMap, CompiledTrigger}
use stonemite.Triggers.Profiles.{CompiledProfile}
use stonemite.Triggers.Substitute.{Texts}
use stonemite.Triggers.Variables.{VariableStore}
use stonemite.Triggers.Repeats.{Buckets}
use stonemite.Triggers.Timers.{ActiveTimer}
use stonemite.Base.Text.{Text}
use stonemite.Base.{ℕ, Bool, false, Option, List, [], ◌∷◌, ◌++◌}

pub data SearchOutcome : Type 0 where
  no_match over_budget : SearchOutcome
  matching : MatchMap → SearchOutcome

-- The expressions of netregex.rs and pattern.rs: `expand` gives an expression with the conditions on
-- its captures.
pub record Patterns (F R : Type 0) : Type 0 where
  pub expand : Text → Text × (MatchMap → Bool × Option F)
  pub compile : Text → Option R
  pub escape : Text → Text
  pub snapshot_matches : R → Text → SearchOutcome

-- A trigger is a number below `trigger_count`.
pub record TriggerEngine (F R : Type 0) : Type 0 where
  pub seconds : Seconds F
  pub texts : Texts F
  pub patterns : Patterns F R
  pub triggers : ℕ → CompiledTrigger F R
  pub trigger_count : ℕ
  pub profiles : List CompiledProfile

pub data ActionPhase : Type 0 where
  initial timer_warning timer_end timer_end_early : ActionPhase

pub data TriggerAction : Type 0 where
  display_text : Text → List ℕ → Option Text → TriggerAction
  play_sound : Text → ℕ → TriggerAction
  speak : Text → Option ℕ → ℕ → TriggerAction

pub record ActionEvent : Type 0 where
  pub character : Text
  pub trigger_id : ℕ
  pub trigger_name : Text
  pub phase : ActionPhase
  pub target : ℕ
  pub priority : ℕ
  pub action : TriggerAction

pub record ActionBatch : Type 0 where
  pub events : List ActionEvent
  pub timers_changed : Bool

unfoldable pub empty_batch : ActionBatch
empty_batch = record { events = []; timers_changed = false }

pub record CharState (F R : Type 0) : Type 0 where
  pub key : Text
  pub character_name : Text
  pub active : List ℕ
  pub disabled : ℕ → Bool
  pub variables : VariableStore F
  pub counter_times : Buckets
  pub repeated_text : Buckets
  pub repeated_timer : Buckets
  pub repeated_speak : Buckets
  pub lockout_until : List (ℕ × ℕ)
  pub previous_line : Option Text
  pub timers : List (ActiveTimer F R)

-- What a method of the engine has in hand: the state of the character, and the events so far.
pub record Running (F R : Type 0) : Type 0 where
  pub state : CharState F R
  pub batch : ActionBatch

-- An action with where it comes from, behind the events so far.
unfoldable pub push_event :
    {F R : Type 0} → CompiledTrigger F R → ActionPhase → TriggerAction → Running F R → Running F R
push_event trigger phase action r =
    let event : ActionEvent = record {
      character = r.state.key;
      trigger_id = trigger.id;
      trigger_name = trigger.trigger_name;
      phase = phase;
      target = trigger.target;
      priority = trigger.priority;
      action = action;
    } in
    record r { batch = record r.batch { events = r.batch.events ++ event ∷ [] } }

unfoldable pub display_event :
    {F R : Type 0} → CompiledTrigger F R → ActionPhase → Text → Running F R → Running F R
unfolding push_event
display_event trigger phase text r =
    push_event trigger phase (display_text text trigger.text_overlays trigger.font_color) r
