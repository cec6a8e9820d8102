-- ===== src/Triggers/Disabled.antt =====
-- What firing a trigger, ending timers and the clock leave alone: which triggers are switched off.
pub mod Off
pub mod Budget
use stonemite.Triggers.{MatchMap}
use stonemite.Triggers.Timers.{ActiveTimer, is_ended, warning_due}
use stonemite.Triggers.State.{
  TriggerEngine, CharState, Running, timer_warning, timer_end, timer_end_early,
}
use stonemite.Triggers.Handle.{handle_trigger, fire, lock_out}
use stonemite.Triggers.Clock.{
  expire_variables, clear_end_variables, warn_timer, warn_found, warn_from, end_stage, end_timer,
  end_timers, end_due, advance_character, mark_warned, loops_again,
}
use stonemite.Triggers.Enders.{check_timer_enders, end_early, end_all_early, early_ended, stays}
use stonemite.Triggers.Frames.{fire_timer_stage-state, fire-lasting}
use stonemite.Base.Text.{Text}
use stonemite.Base.{
  ℕ, ◌+◌, zero, suc, ◌≡◌, refl, ap, ◌∙◌, not, Option, none, some, List, [], ◌∷◌, keep, length,
  get_elem?, arith, Bool-cases, inl, inr,
}

module _ {F R : Type 0} (engine : TriggerEngine F R) where
  fire-disabled :
      (r : Running F R) (index : ℕ) (line : Text) (log_time : Option Text)
      (captures previous : MatchMap) (dynamic : Option F) (now loop_count : ℕ)
      → (fire engine r index line log_time captures previous dynamic now loop_count).state.disabled
        ≡ r.state.disabled
  fire-disabled r index line log_time captures previous dynamic now loop_count =
      ap (λ s. s.1)
        (fire-lasting engine r index line log_time captures previous dynamic now loop_count)

  pub handle_trigger-disabled :
      (r : Running F R) (index : ℕ) (line : Text) (log_time : Option Text)
      (captures previous : MatchMap) (dynamic : Option F) (now loop_count : ℕ)
      → (handle_trigger engine r index line log_time captures previous dynamic now
          loop_count).state.disabled
        ≡ r.state.disabled
  unfolding handle_trigger lock_out
  handle_trigger-disabled r index line log_time captures previous dynamic now loop_count = ground (
    arith,
    fire-disabled r index line log_time captures previous dynamic now loop_count,
    fire-disabled (record r { state = lock_out engine r.state index now }) index line log_time
        captures previous dynamic now loop_count,
  )

  clear_end_variables-disabled :
      (state : CharState F R) (index : ℕ)
      → (clear_end_variables engine state index).disabled ≡ state.disabled
  unfolding clear_end_variables
  clear_end_variables-disabled state index = ground arith

  end_early-disabled :
      (r : Running F R) (line : Text) (now : ℕ) (timer : ActiveTimer F R) (captures : MatchMap)
      → (end_early engine r line now timer captures).state.disabled ≡ r.state.disabled
  unfolding end_early expire_variables
  end_early-disabled r line now timer captures =
      clear_end_variables-disabled _ timer.trigger_index
      ∙ ap (λ s. s.disabled)
          (fire_timer_stage-state engine _ timer timer_end_early (some captures) line now
            (λ e. ground (arith, e)))

  end_all_early-disabled :
      (r : Running F R) (line : Text) (now : ℕ) (ended : List (ActiveTimer F R × MatchMap))
      → (end_all_early engine r line now ended).state.disabled ≡ r.state.disabled
  unfolding end_all_early
  end_all_early-disabled r line now [] = refl
  end_all_early-disabled r line now ((timer, captures) ∷ rest) =
      end_all_early-disabled (end_early engine r line now timer captures) line now rest
      ∙ end_early-disabled r line now timer captures

  pub check_timer_enders-disabled :
      (r : Running F R) (line : Text) (now : ℕ)
      → (check_timer_enders engine r line now).state.disabled ≡ r.state.disabled
  unfolding check_timer_enders
  check_timer_enders-disabled r line now =
      end_all_early-disabled
        (record r {
          state = record r.state { timers = keep (stays engine r.state line) r.state.timers };
        })
        line now (early_ended engine r.state line r.state.timers)

  warn_found-disabled :
      (r : Running F R) (now position : ℕ) (timer : Option (ActiveTimer F R))
      → (warn_found engine r now position timer).state.disabled ≡ r.state.disabled
  unfolding warn_found warn_timer expire_variables
  warn_found-disabled r now position none = refl
  warn_found-disabled r now position (some timer) = elim (Bool-cases (warning_due timer now)) [
    | inl due ↦ rw due (
        ap (λ s. s.disabled)
          (fire_timer_stage-state engine _ (mark_warned engine timer) timer_warning none
            timer.source_line now (λ e. ground (arith, e))))
    | inr early ↦ rw early refl
  ]

  warn_from-disabled :
      (r : Running F R) (now position n : ℕ)
      → (warn_from engine r now position n).state.disabled ≡ r.state.disabled
  unfolding warn_from
  warn_from-disabled r now position zero = refl
  warn_from-disabled r now position (suc n) =
      let timer = get_elem? r.state.timers position in
      warn_from-disabled (warn_found engine r now position timer) now (suc position) n
      ∙ warn_found-disabled r now position timer

  end_stage-disabled :
      (r : Running F R) (now : ℕ) (timer : ActiveTimer F R)
      → (end_stage engine r now timer).state.disabled ≡ r.state.disabled
  unfolding end_stage expire_variables
  end_stage-disabled r now timer =
      clear_end_variables-disabled _ timer.trigger_index
      ∙ ap (λ s. s.disabled)
          (fire_timer_stage-state engine _ timer timer_end none timer.source_line now
            (λ e. ground (arith, e)))

  end_timer-disabled :
      (r : Running F R) (now : ℕ) (timer : ActiveTimer F R)
      → (end_timer engine r now timer).state.disabled ≡ r.state.disabled
  unfolding end_timer
  end_timer-disabled r now timer =
      elim (Bool-cases (loops_again (engine.triggers timer.trigger_index).timer timer.loop_count)) [
        | inl again ↦ rw again (
            handle_trigger-disabled _ timer.trigger_index timer.source_line timer.log_time
              timer.original_matches timer.previous_matches none now (timer.loop_count + 1)
            ∙ end_stage-disabled r now timer)
        | inr done ↦ rw done (end_stage-disabled r now timer)
      ]

  end_timers-disabled :
      (r : Running F R) (now : ℕ) (timers : List (ActiveTimer F R))
      → (end_timers engine r now timers).state.disabled ≡ r.state.disabled
  unfolding end_timers
  end_timers-disabled r now [] = refl
  end_timers-disabled r now (timer ∷ timers) =
      end_timers-disabled (end_timer engine r now timer) now timers ∙ end_timer-disabled r now timer

  end_due-disabled :
      (r : Running F R) (now : ℕ) → (end_due engine r now).state.disabled ≡ r.state.disabled
  unfolding end_due
  end_due-disabled r now =
      end_timers-disabled
        (record r {
          state = record r.state { timers = keep (λ t. not (is_ended t now)) r.state.timers };
        })
        now (keep (λ t. is_ended t now) r.state.timers)

  pub advance_character-disabled :
      (r : Running F R) (now : ℕ)
      → (advance_character engine r now).state.disabled ≡ r.state.disabled
  unfolding advance_character
  advance_character-disabled r now =
      end_due-disabled (warn_from engine r now 0 (length r.state.timers)) now
      ∙ warn_from-disabled r now 0 (length r.state.timers)
