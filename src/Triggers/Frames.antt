-- ===== src/Triggers/Frames.antt =====
-- What the parts of a firing change of the state of a character.
use stonemite.Triggers.{MatchMap, TimerBehavior}
use stonemite.Triggers.Timers.{ActiveTimer}
use stonemite.Triggers.State.{
  TriggerEngine, CharState, Running, ActionPhase, initial, timer_warning, timer_end,
  timer_end_early, push_event, display_event,
}
use stonemite.Triggers.Audio.{push_audio, push_speech, speak_resolved, speak_text}
use stonemite.Triggers.Firing.{start_timer, add_timer, start_timer_of, display_initial}
use stonemite.Triggers.Handle.{fire, prepare}
use stonemite.Triggers.Stages.{
  Stage, show_stage, play_stage, fire_timer_stage, current_matches, original_of,
}
use stonemite.Base.Text.{Text}
use stonemite.Base.{ℕ, ◌≡◌, ◌≢◌, refl, ◌∙◌, Bool, List, Option, none, some, arith}

-- What no firing of a trigger touches: the ends of the lockouts, and which triggers are switched off.
abbrev pub lasting : {F R : Type 0} → CharState F R → List (ℕ × ℕ) × (ℕ → Bool)
lasting s = (s.lockout_until, s.disabled)

module _ {F R : Type 0} (engine : TriggerEngine F R) where
  speak_text-state :
      (r : Running F R) (index : ℕ) (phase : ActionPhase) (text : Text)
      → (speak_text engine r index phase text).state ≡ r.state
  unfolding speak_text push_event
  speak_text-state r index phase text = ground arith

  speak_resolved-state :
      (r : Running F R) (index : ℕ) (phase : ActionPhase) (text : Text) (log_time : Option Text)
      (count : Option ℕ) (now : ℕ)
      → phase ≢ initial
      → (speak_resolved engine r index phase text log_time count now).state ≡ r.state
  unfolding speak_resolved
  speak_resolved-state r index initial text log_time count now h = absurd (h refl)
  speak_resolved-state r index timer_warning text log_time count now h =
      speak_text-state r index timer_warning text
  speak_resolved-state r index timer_end text log_time count now h =
      speak_text-state r index timer_end text
  speak_resolved-state r index timer_end_early text log_time count now h =
      speak_text-state r index timer_end_early text

  push_audio-state :
      (r : Running F R) (index : ℕ) (phase : ActionPhase) (sound : Option Text)
      (template line : Text) (captures original previous : Option MatchMap) (log_time : Option Text)
      (count : Option ℕ) (now : ℕ)
      → phase ≢ initial
      → (push_audio engine r index phase sound template line captures original previous log_time
          count now).state
        ≡ r.state
  unfolding push_audio push_speech push_event
  push_audio-state r index phase sound template line captures original previous log_time count now
        h =
      ground (arith, λ (t : Text). speak_resolved-state r index phase t log_time count now h)

  show_stage-state :
      (r : Running F R) (timer : ActiveTimer F R) (phase : ActionPhase) (template line : Text)
      (early : Option MatchMap)
      → (show_stage engine r timer phase template line early).state ≡ r.state
  unfolding show_stage display_event push_event
  show_stage-state r timer phase template line early = ground arith

  play_stage-state :
      (r : Running F R) (timer : ActiveTimer F R) (phase : ActionPhase) (stage : Stage)
      (early : Option MatchMap) (line : Text) (now : ℕ)
      → phase ≢ initial
      → (play_stage engine r timer phase stage early line now).state ≡ r.state
  unfolding play_stage
  play_stage-state r timer phase stage early line now h =
      let audio =
        push_audio engine r timer.trigger_index phase stage.sound stage.speak line
          (some (current_matches engine timer phase early)) (original_of engine timer phase)
          (some timer.previous_matches) timer.log_time timer.counter_count now in
      show_stage-state audio timer phase stage.display line early
      ∙ push_audio-state r timer.trigger_index phase stage.sound stage.speak line
          (some (current_matches engine timer phase early)) (original_of engine timer phase)
          (some timer.previous_matches) timer.log_time timer.counter_count now h

  -- No stage of a timer changes the state of its character.
  pub fire_timer_stage-state :
      (r : Running F R) (timer : ActiveTimer F R) (phase : ActionPhase) (early : Option MatchMap)
      (line : Text) (now : ℕ)
      → phase ≢ initial
      → (fire_timer_stage engine r timer phase early line now).state ≡ r.state
  unfolding fire_timer_stage
  fire_timer_stage-state r timer phase early line now h =
      ground (arith, λ (stage : Stage). play_stage-state r timer phase stage early line now h)

  speak_resolved-lasting :
      (r : Running F R) (index : ℕ) (phase : ActionPhase) (text : Text) (log_time : Option Text)
      (count : Option ℕ) (now : ℕ)
      → lasting (speak_resolved engine r index phase text log_time count now).state
        ≡ lasting r.state
  unfolding speak_resolved speak_text push_event
  speak_resolved-lasting r index initial text log_time count now = ground arith
  speak_resolved-lasting r index timer_warning text log_time count now = ground arith
  speak_resolved-lasting r index timer_end text log_time count now = ground arith
  speak_resolved-lasting r index timer_end_early text log_time count now = ground arith

  push_audio-lasting :
      (r : Running F R) (index : ℕ) (phase : ActionPhase) (sound : Option Text)
      (template line : Text) (captures original previous : Option MatchMap) (log_time : Option Text)
      (count : Option ℕ) (now : ℕ)
      → lasting
          (push_audio engine r index phase sound template line captures original previous log_time
            count now).state
        ≡ lasting r.state
  unfolding push_audio push_speech push_event
  push_audio-lasting r index phase sound template line captures original previous log_time count
        now =
      ground (arith, λ (t : Text). speak_resolved-lasting r index phase t log_time count now)

  display_initial-lasting :
      (r : Running F R) (index : ℕ) (line : Text) (log_time : Option Text)
      (captures previous : MatchMap) (now : ℕ) (count : Option ℕ)
      → lasting (display_initial engine r index line log_time captures previous now count).state
        ≡ lasting r.state
  unfolding display_initial display_event push_event
  display_initial-lasting r index line log_time captures previous now count = ground arith

  start_timer_of-lasting :
      (r : Running F R) (index : ℕ) (behavior : Option (TimerBehavior F)) (name : Text)
      (dynamic : Option F) (line : Text) (log_time : Option Text) (captures previous : MatchMap)
      (now loop_count : ℕ) (count : Option ℕ)
      → lasting
          (start_timer_of engine r index behavior name dynamic line log_time captures previous now
            loop_count count).state
        ≡ lasting r.state
  unfolding start_timer_of start_timer add_timer
  start_timer_of-lasting r index none name dynamic line log_time captures previous now loop_count
        count =
      refl
  start_timer_of-lasting r index (some behavior) name dynamic line log_time captures previous now
        loop_count count =
      ground arith

  pub fire-lasting :
      (r : Running F R) (index : ℕ) (line : Text) (log_time : Option Text)
      (captures previous : MatchMap) (dynamic : Option F) (now loop_count : ℕ)
      → lasting (fire engine r index line log_time captures previous dynamic now loop_count).state
        ≡ lasting r.state
  unfolding fire prepare
  fire-lasting r index line log_time captures previous dynamic now loop_count =
      rw (display_initial-lasting, push_audio-lasting, start_timer_of-lasting) refl
