-- ===== src/Triggers/Stages.antt =====
-- The stages of a timer: its warning, its end, and its early end.
use stonemite.Triggers.{MatchMap, TimerBehavior, CompiledTrigger}
use stonemite.Triggers.Substitute.{resolve_template, replace_code, find_code, character_code}
use stonemite.Triggers.Variables.{as_match_map}
use stonemite.Triggers.Timers.{ActiveTimer}
use stonemite.Triggers.State.{
  TriggerEngine, Running, ActionPhase, timer_warning, timer_end_early, display_event,
}
use stonemite.Triggers.Audio.{push_audio}
use stonemite.Base.Text.{Text, is_empty}
use stonemite.Base.{ℕ, Bool, not, ◌&&◌, Option, none, some, [], ◌∷◌, is_some, if◌then◌else◌}

-- `contains_ignore_case` of netregex.rs.
unfoldable pub contains_ignore_case : Text → Text → Bool
unfolding is_empty find_code
contains_ignore_case haystack needle = not (is_empty needle) && is_some (find_code needle haystack)

abbrev pub or_option {ℓ} : {A : Type ℓ} → Option A → Option A → Option A
or_option none other = other
or_option (some a) other = some a

abbrev pub non_empty : Option Text → Option Text
non_empty none = none
non_empty (some []) = none
non_empty (some (c ∷ cs)) = some (c ∷ cs)

-- What a stage plays, speaks and shows. An early end falls back to the end where it has nothing.
pub record Stage : Type 0 where
  pub sound : Option Text
  pub speak : Text
  pub display : Text

unfoldable pub stage_of :
    {F R : Type 0} → CompiledTrigger F R → TimerBehavior F → ActionPhase → Stage
stage_of trigger behavior timer_warning = record {
  sound = behavior.warning_sound;
  speak = trigger.warning_speak;
  display = trigger.warning_display;
}
stage_of trigger behavior timer_end_early =
    let sound = or_option (non_empty behavior.early_end_sound) behavior.end_sound in
    record {
      sound = sound;
      speak =
          if is_empty trigger.early_speak && not (is_some sound)
          then trigger.end_speak
          else trigger.early_speak;
      display =
          if is_empty trigger.early_display then trigger.end_display else trigger.early_display;
    }
stage_of trigger behavior phase = record {
  sound = behavior.end_sound;
  speak = trigger.end_speak;
  display = trigger.end_display;
}

module _ {F R : Type 0} (engine : TriggerEngine F R) where
  -- The captures that a text of the stage reads, and those from the start of the timer.
  abbrev pub current_matches : ActiveTimer F R → ActionPhase → Option MatchMap → MatchMap
  current_matches timer timer_end_early none = []
  current_matches timer timer_end_early (some early) = early
  current_matches timer phase early = timer.original_matches

  abbrev pub original_of : ActiveTimer F R → ActionPhase → Option MatchMap
  original_of timer timer_end_early = some timer.original_matches
  original_of timer phase = none

  unfoldable pub show_stage :
      Running F R → ActiveTimer F R → ActionPhase → Text → Text → Option MatchMap → Running F R
  unfolding resolve_template replace_code character_code display_event
  show_stage r timer phase template line early =
      elim (resolve_template engine.texts template line (some (current_matches timer phase early))
        (original_of timer phase) (some timer.previous_matches) (as_match_map r.state.variables)) [
          | none ↦ r
          | some text ↦
              display_event (engine.triggers timer.trigger_index) phase
                (replace_code text character_code r.state.character_name) r
        ]

  unfoldable pub play_stage :
      Running F R → ActiveTimer F R → ActionPhase → Stage → Option MatchMap → Text → ℕ → Running F R
  unfolding push_audio show_stage
  play_stage r timer phase stage early line now =
      let heard =
        push_audio engine r timer.trigger_index phase stage.sound stage.speak line
          (some (current_matches timer phase early)) (original_of timer phase)
          (some timer.previous_matches) timer.log_time timer.counter_count now in
      show_stage heard timer phase stage.display line early

  unfoldable pub fire_timer_stage :
      Running F R → ActiveTimer F R → ActionPhase → Option MatchMap → Text → ℕ → Running F R
  unfolding stage_of play_stage
  fire_timer_stage r timer phase early line now = elim (engine.triggers timer.trigger_index).timer [
    | none ↦ r
    | some behavior ↦
        play_stage r timer phase (stage_of (engine.triggers timer.trigger_index) behavior phase)
          early line now
  ]
