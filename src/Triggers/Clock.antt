-- ===== src/Triggers/Clock.antt =====
-- `advance`: timers warn and end as time goes by.
use stonemite.Triggers.{TimerBehavior, looping, TimerKind}
use stonemite.Triggers.Variables.{VariableStore, clear, expire}
use stonemite.Triggers.Timers.{ActiveTimer, is_ended, warning_due}
use stonemite.Triggers.State.{
  TriggerEngine, CharState, Running, ActionBatch, timer_warning, timer_end, empty_batch,
}
use stonemite.Triggers.Handle.{handle_trigger}
use stonemite.Triggers.Stages.{fire_timer_stage}
use stonemite.Base.Text.{Text, is_empty}
use stonemite.Base.{
  ℕ, zero, suc, ◌+◌, Bool, true, false, not, ◌&&◌, Option, none, some, List, [], ◌∷◌, keep, length,
  get_elem?, ltb, ◌==◌, if◌then◌else◌,
}

-- `trim_start_matches` and `trim_end_matches` of one character.
abbrev pub without_leading : ℕ → Text → Text
without_leading stop [] = []
without_leading stop (c ∷ cs) =
    let rest = without_leading stop cs in if c == stop then rest else c ∷ cs

abbrev pub without_trailing : ℕ → Text → Text
unfolding is_empty
without_trailing stop [] = []
without_trailing stop (c ∷ cs) =
    let rest = without_trailing stop cs in if c == stop && is_empty rest then [] else c ∷ rest

abbrev pub replace_at {ℓ} : {A : Type ℓ} → ℕ → A → List A → List A
replace_at i a [] = []
replace_at zero a (x ∷ xs) = a ∷ xs
replace_at (suc i) a (x ∷ xs) = x ∷ replace_at i a xs

abbrev pub is_looping : TimerKind → Bool
is_looping looping = true
is_looping kind = false

-- Whether a timer starts itself again, and how often it has.
unfoldable pub loops_again : {F : Type 0} → Option (TimerBehavior F) → ℕ → Bool
loops_again none loop_count = false
loops_again (some behavior) loop_count =
    is_looping behavior.kind && ltb loop_count behavior.times_to_loop

module _ {F R : Type 0} (engine : TriggerEngine F R) where
  -- The name in `{…}` or `${…}`, or on its own.
  unfoldable pub bare_name : Text → Text
  unfolding without_trailing
  bare_name name =
      engine.texts.trim (
        without_trailing b'}'
          (without_leading b'{' (without_leading b'$' (engine.texts.trim name))))

  unfoldable pub clear_names : VariableStore F → List Text → VariableStore F
  unfolding bare_name clear is_empty
  clear_names store [] = store
  clear_names store (name ∷ names) =
      clear_names (if is_empty (bare_name name) then store else clear store (bare_name name)) names

  unfoldable pub clear_end_variables : CharState F R → ℕ → CharState F R
  unfolding clear_names
  clear_end_variables state index = elim (engine.triggers index).timer [
    | none ↦ state
    | some behavior ↦ record state {
      variables = clear_names state.variables behavior.end_clear_variables;
    }
  ]

  unfoldable pub expire_variables : Running F R → ℕ → Running F R
  unfolding expire
  expire_variables r now = record r {
    state = record r.state { variables = expire r.state.variables now };
  }

  abbrev pub mark_warned : ActiveTimer F R → ActiveTimer F R
  mark_warned timer = record timer { warned = true }

  unfoldable pub warn_timer : Running F R → ℕ → ℕ → ActiveTimer F R → Running F R
  unfolding warning_due expire_variables fire_timer_stage
  warn_timer r now position timer =
      if warning_due timer now
      then fire_timer_stage engine
          (expire_variables
            (record r {
              state = record r.state {
                timers = replace_at position (mark_warned timer) r.state.timers;
              };
            })
            now)
          (mark_warned timer) timer_warning none timer.source_line now
      else r

  unfoldable pub warn_found : Running F R → ℕ → ℕ → Option (ActiveTimer F R) → Running F R
  unfolding warn_timer
  warn_found r now position none = r
  warn_found r now position (some timer) = warn_timer r now position timer

  -- The warnings of `n` timers, from a position on.
  unfoldable pub warn_from : Running F R → ℕ → ℕ → ℕ → Running F R
  unfolding warn_found
  warn_from r now position zero = r
  warn_from r now position (suc n) =
      warn_from (warn_found r now position (get_elem? r.state.timers position)) now (suc position) n

  -- What a timer does at its end, once it no longer runs.
  unfoldable pub end_stage : Running F R → ℕ → ActiveTimer F R → Running F R
  unfolding expire_variables fire_timer_stage clear_end_variables
  end_stage r now timer =
      let fired =
        fire_timer_stage engine
          (expire_variables (record r { batch = record r.batch { timers_changed = true } }) now)
          timer timer_end none timer.source_line now in
      record fired { state = clear_end_variables fired.state timer.trigger_index }

  unfoldable pub end_timer : Running F R → ℕ → ActiveTimer F R → Running F R
  unfolding end_stage loops_again handle_trigger
  end_timer r now timer =
      let ended = end_stage r now timer in
      if loops_again (engine.triggers timer.trigger_index).timer timer.loop_count
      then handle_trigger engine ended timer.trigger_index timer.source_line timer.log_time
          timer.original_matches timer.previous_matches none now (timer.loop_count + 1)
      else ended

  unfoldable pub end_timers : Running F R → ℕ → List (ActiveTimer F R) → Running F R
  unfolding end_timer
  end_timers r now [] = r
  end_timers r now (timer ∷ timers) = end_timers (end_timer r now timer) now timers

  -- The natural ends: the timers that are over are taken out first.
  unfoldable pub end_due : Running F R → ℕ → Running F R
  unfolding is_ended end_timers
  end_due r now =
      end_timers
        (record r {
          state = record r.state { timers = keep (λ t. not (is_ended t now)) r.state.timers };
        })
        now (keep (λ t. is_ended t now) r.state.timers)

  unfoldable pub advance_character : Running F R → ℕ → Running F R
  unfolding warn_from end_due
  advance_character r now = end_due (warn_from r now 0 (length r.state.timers)) now

  -- The characters one after the other, with one batch.
  unfoldable pub advance_all :
      List (Text × CharState F R) → ActionBatch → ℕ → List (Text × CharState F R) × ActionBatch
  unfolding advance_character
  advance_all [] batch now = ([], batch)
  advance_all ((key, state) ∷ rest) batch now =
      let advanced = advance_character (record { state = state; batch = batch }) now in
      let others = advance_all rest advanced.batch now in
      ((key, advanced.state) ∷ others.0, others.1)

  unfoldable pub advance :
      List (Text × CharState F R) → ℕ → List (Text × CharState F R) × ActionBatch
  unfolding advance_all empty_batch
  advance characters now = advance_all characters empty_batch now
