-- ===== src/Triggers/Advanced.antt =====
-- The clock of a character whose timers do not start themselves again.
pub mod Marked
use stonemite.Triggers.Timers.{ActiveTimer, is_ended, warning_due}
use stonemite.Triggers.State.{TriggerEngine, CharState, Running, timer_warning, timer_end}
use stonemite.Triggers.Frames.{fire_timer_stage-state}
use stonemite.Triggers.Clock.{
  replace_at, loops_again, clear_end_variables, expire_variables, warn_timer, warn_found, warn_from,
  end_stage, end_timer, end_timers, end_due, advance_character,
}
use stonemite.Base.{
  ℕ, zero, suc, ◌≡◌, refl, ap, ◌∙◌, Bool, true, false, not, ◌&&◌, Option, none, some, List, [], ◌∷◌,
  keep, map, all, length, get_elem?, arith, if◌then◌else◌,
}
use stonemite.Triggers.Advanced.Marked.{
  marked, mark_at, mark_from, mark_from-suc, mark_from_all, replace_at-marked, mark_at-none,
  is_quiet, kept_quiet, keep_quiet, none_ended, quiet_at,
}

module _ {F R : Type 0} (engine : TriggerEngine F R) where
  clear_end_variables-timers :
      (state : CharState F R) (index : ℕ)
      → (clear_end_variables engine state index).timers ≡ state.timers
  unfolding clear_end_variables
  clear_end_variables-timers state index = ground arith

  end_stage-timers :
      (r : Running F R) (now : ℕ) (timer : ActiveTimer F R)
      → (end_stage engine r now timer).state.timers ≡ r.state.timers
  unfolding end_stage expire_variables
  end_stage-timers r now timer =
      clear_end_variables-timers _ timer.trigger_index
      ∙ ap (λ s. s.timers)
          (fire_timer_stage-state engine
            (expire_variables engine (record r { batch = record r.batch { timers_changed = true } })
              now)
            timer timer_end none timer.source_line now cc)

  -- A timer that does not start itself again.
  unfoldable pub ends_for_good : ActiveTimer F R → Bool
  unfolding loops_again
  ends_for_good timer =
      not (loops_again (engine.triggers timer.trigger_index).timer timer.loop_count)

  end_timer-timers :
      (r : Running F R) (now : ℕ) (timer : ActiveTimer F R)
      → ends_for_good timer ≡ true
      → (end_timer engine r now timer).state.timers ≡ r.state.timers
  unfolding end_timer ends_for_good
  end_timer-timers r now timer h = ground (arith, end_stage-timers r now timer)

  end_timers-timers :
      (r : Running F R) (now : ℕ) (timers : List (ActiveTimer F R))
      → all ends_for_good timers ≡ true
      → (end_timers engine r now timers).state.timers ≡ r.state.timers
  unfolding end_timers ends_for_good
  end_timers-timers r now [] h = refl
  end_timers-timers r now (timer ∷ timers) h =
      end_timers-timers (end_timer engine r now timer) now timers (ground arith)
      ∙ end_timer-timers r now timer (ground arith)

  ended_for_good :
      (now : ℕ) (ts : List (ActiveTimer F R))
      → all ends_for_good ts ≡ true
      → all ends_for_good (keep (λ t. is_ended t now) (map (marked now) ts)) ≡ true
  unfolding ends_for_good marked
  ended_for_good now [] h = refl
  ended_for_good now (t ∷ ts) h = ground (arith, ended_for_good now ts)

  warn_timer-timers :
      (r : Running F R) (now i : ℕ) (t : ActiveTimer F R)
      → (warn_timer engine r now i t).state.timers ≡ (
          if warning_due t now
          then replace_at i (record t { warned = true }) r.state.timers
          else r.state.timers)
  unfolding warn_timer expire_variables
  warn_timer-timers r now i t =
      let warned = record t { warned = true } in
      let marked_state = record r {
        state = record r.state { timers = replace_at i warned r.state.timers };
      } in
      ground (
        arith,
        ap (λ s. s.timers)
            (fire_timer_stage-state engine (expire_variables engine marked_state now) warned
              timer_warning none t.source_line now cc),
      )

  warn_found-timers :
      (r : Running F R) (now i : ℕ) (found : Option (ActiveTimer F R))
      → get_elem? r.state.timers i ≡ found
      → (warn_found engine r now i found).state.timers ≡ mark_at now i r.state.timers
  unfolding warn_found
  warn_found-timers r now i none h = mark_at-none now i r.state.timers h
  warn_found-timers r now i (some t) h =
      warn_timer-timers r now i t ∙ replace_at-marked now i r.state.timers t h

  warn_from-timers :
      (r : Running F R) (now i n : ℕ)
      → (warn_from engine r now i n).state.timers ≡ mark_from now i n r.state.timers
  unfolding warn_from mark_from
  warn_from-timers r now i zero = refl
  warn_from-timers r now i (suc n) =
      warn_from-timers (warn_found engine r now i (get_elem? r.state.timers i)) now (suc i) n
      ∙ ap (mark_from now (suc i) n) (warn_found-timers r now i (get_elem? r.state.timers i) refl)

  -- The timers that are left are those that were not over, as the warnings left them.
  advance_character-timers :
      (r : Running F R) (now : ℕ)
      → all ends_for_good r.state.timers ≡ true
      → (advance_character engine r now).state.timers
        ≡ keep (λ t. not (is_ended t now)) (map (marked now) r.state.timers)
  unfolding advance_character end_due ends_for_good marked
  advance_character-timers r now h =
      let after = (warn_from engine r now 0 (length r.state.timers)).state.timers in
      let same =
        warn_from-timers r now 0 (length r.state.timers) ∙ mark_from_all now r.state.timers in
      end_timers-timers _ now (keep (λ t. is_ended t now) after) (
        ap (λ ts. all ends_for_good (keep (λ t. is_ended t now) ts)) same
        ∙ ended_for_good now r.state.timers h)
      ∙ ap (keep (λ t. not (is_ended t now))) same

  warn_found_quiet :
      (r : Running F R) (now i : ℕ) (found : Option (ActiveTimer F R))
      → all (is_quiet now) r.state.timers ≡ true
      → get_elem? r.state.timers i ≡ found
      → warn_found engine r now i found ≡ r
  unfolding warn_found warn_timer
  warn_found_quiet r now i none h k = refl
  warn_found_quiet r now i (some t) h k = rw (quiet_at now i r.state.timers t h k) refl

  warn_from_quiet :
      (r : Running F R) (now i n : ℕ)
      → all (is_quiet now) r.state.timers ≡ true
      → warn_from engine r now i n ≡ r
  unfolding warn_from is_quiet
  warn_from_quiet r now i zero h = refl
  warn_from_quiet r now i (suc n) h =
      ap (λ s. warn_from engine s now (suc i) n)
        (warn_found_quiet r now i (get_elem? r.state.timers i) h refl)
      ∙ warn_from_quiet r now (suc i) n h

  advance_character_quiet :
      (r : Running F R) (now : ℕ)
      → all (is_quiet now) r.state.timers ≡ true
      → advance_character engine r now ≡ r
  unfolding advance_character end_due end_timers is_quiet
  advance_character_quiet r now h =
      ap (λ s. end_due engine s now) (warn_from_quiet r now 0 (length r.state.timers) h)
      ∙ rw (end_due, keep_quiet now r.state.timers h, none_ended now r.state.timers h) refl

  -- Each warning and each end comes once: when no timer of a character starts itself again, a second
  -- call of `advance` for the same time changes nothing of the character, and brings about no event.
  pub advance_character_twice :
      (r : Running F R) (now : ℕ)
      → all ends_for_good r.state.timers ≡ true
      → advance_character engine (advance_character engine r now) now
        ≡ advance_character engine r now
  unfolding ends_for_good
  advance_character_twice r now h =
      advance_character_quiet (advance_character engine r now) now
        (ap (all (is_quiet now)) (advance_character-timers r now h) ∙ kept_quiet now r.state.timers)
