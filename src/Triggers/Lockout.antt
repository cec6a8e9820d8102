-- ===== src/Triggers/Lockout.antt =====
-- The lockout of a trigger.
use stonemite.Triggers.{is_above_zero, wrapping_add, MatchMap}
use stonemite.Triggers.State.{TriggerEngine, Running}
use stonemite.Triggers.Handle.{handle_trigger, fire, lock_out, is_until}
use stonemite.Triggers.Frames.{fire-lasting}
use stonemite.Base.Text.{Text}
use stonemite.Base.Dict.{lookup, lookup-insert}
use stonemite.Base.{ℕ, ◌≡◌, ◌≤◌, refl, ap, ◌∙◌, true, false, Option, some, ==_refl, le→leb}

module _ {F R : Type 0} (engine : TriggerEngine F R) where
  -- A trigger that was locked out as it fired holds the end of its lockout.
  lock_out_holds :
      (r : Running F R) (index now : ℕ) (line : Text) (log_time : Option Text)
      (captures previous : MatchMap) (dynamic : Option F)
      → lookup index
          (fire engine
            (record r { state = lock_out engine r.state index now })
            index
            line
            log_time
            captures
            previous
            dynamic
            now
            0).state.lockout_until
        ≡ some (wrapping_add now (engine.seconds.millis (engine.triggers index).lockout_seconds))
  unfolding lock_out
  lock_out_holds r index now line log_time captures previous dynamic =
      ap (λ s. lookup index s.0)
        (fire-lasting engine (record r { state = lock_out engine r.state index now }) index line
          log_time captures previous dynamic now 0)
      ∙ lookup-insert index index _ r.state.lockout_until
      ∙ rw (==_refl index) refl

  -- Once a trigger with a lockout has fired, and was not locked out then, it does nothing when it
  -- matches again up to the end of the lockout: no state changes, and no event is brought about,
  -- whatever the line and the captures are.
  pub handle_trigger_locked_out :
      (r : Running F R) (index now later : ℕ) (line next_line : Text)
      (log_time next_log_time : Option Text)
      (captures previous next_captures next_previous : MatchMap) (dynamic next_dynamic : Option F)
      → is_above_zero engine.seconds (engine.triggers index).lockout_seconds ≡ true
      → is_until (lookup index r.state.lockout_until) now ≡ false
      → later ≤ wrapping_add now (engine.seconds.millis (engine.triggers index).lockout_seconds)
      → handle_trigger engine
          (handle_trigger engine r index line log_time captures previous dynamic now 0)
          index
          next_line
          next_log_time
          next_captures
          next_previous
          next_dynamic
          later
          0
        ≡ handle_trigger engine r index line log_time captures previous dynamic now 0
  unfolding handle_trigger
  handle_trigger_locked_out r index now later line next_line log_time next_log_time captures
        previous next_captures next_previous dynamic next_dynamic positive free within =
      rw
        (
          positive,
          free,
          lock_out_holds r index now line log_time captures previous dynamic,
          le→leb later _ within,
        )
        refl
