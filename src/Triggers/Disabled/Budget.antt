-- ===== src/Triggers/Disabled/Budget.antt =====
-- A trigger whose expression runs over its budget, on that line and later.
use stonemite.Triggers.{MatchMap, regex}
use stonemite.Triggers.State.{TriggerEngine, CharState, Running, over_budget}
use stonemite.Triggers.Clock.{advance_character}
use stonemite.Triggers.Lines.{
  line_matches, check_matcher, check_line, try_trigger, try_triggers, process_character, run_regex,
}
use stonemite.Base.Text.{Text}
use stonemite.Base.Arrays.{store}
use stonemite.Base.{
  ℕ, ◌≡◌, refl, ap, ◌∙◌, Bool, true, false, not, Option, none, List, [], ◌∷◌, keep, ◌==◌,
  Bool-cases, ==_refl, inl, inr,
}
use stonemite.Triggers.Disabled.{advance_character-disabled}
use stonemite.Triggers.Disabled.Off.{IsOff, process_character-IsOff, try_triggers-keep}

-- What is called with one character in hand.
pub data EngineCall : Type 0 where
  log_line : (line : Text) → (log_time : Option Text) → (now : ℕ) → EngineCall
  clock : (now : ℕ) → EngineCall

module _ {F R : Type 0} (engine : TriggerEngine F R) where
  step : Running F R → EngineCall → Running F R
  step r (log_line line log_time now) = process_character engine r line log_time now
  step r (clock now) = advance_character engine r now

  unfoldable pub run : Running F R → List EngineCall → Running F R
  unfolding step
  run r [] = r
  run r (call ∷ calls) = run (step r call) calls

  run-IsOff :
      (r : Running F R) (calls : List EngineCall) (index : ℕ)
      → IsOff engine index r
      → IsOff engine index (run r calls)
  unfolding run step
  run-IsOff r [] index off = off
  run-IsOff r (log_line line log_time now ∷ calls) index off =
      run-IsOff (process_character engine r line log_time now) calls index
        (process_character-IsOff engine r index line log_time now off)
  run-IsOff r (clock now ∷ calls) index off =
      run-IsOff (advance_character engine r now) calls index
        (ap (λ d. d index) (advance_character-disabled engine r now) ∙ off)

  check_matcher-over_budget :
      (state : CharState F R) (index : ℕ) (line : Text) (compiled : R)
      (constraints : MatchMap → Bool × Option F) (prefilter : Text → Bool) (expanded : Text)
      (needs : Bool)
      → prefilter line ≡ true
      → run_regex engine state compiled expanded needs line ≡ over_budget
      → check_matcher engine state index line (regex compiled constraints prefilter expanded needs)
        ≡ (record state { disabled = store state.disabled index true }, none)
  unfolding check_matcher line_matches
  check_matcher-over_budget state index line compiled constraints prefilter expanded needs hit
        over =
      rw (hit, over) refl

  try_trigger-over_budget :
      (r : Running F R) (expired : Bool) (index : ℕ) (line : Text) (log_time : Option Text)
      (now : ℕ)
      → (check_matcher engine r.state index line (engine.triggers index).matcher
          ≡ (record r.state { disabled = store r.state.disabled index true }, none))
      → IsOff engine index (try_trigger engine r expired index line log_time now).0
  unfolding try_trigger check_line
  try_trigger-over_budget r expired index line log_time now over =
      let nothing : (check_line engine r.state index line false).1 ≡ none = ap (λ p. p.1) over in
      elim (Bool-cases (r.state.disabled index)) [
        | inl off ↦ rw off off
        | inr on ↦ rw (on, nothing) (ap (λ p. p.0.disabled index) over ∙ rw (==_refl index) refl)
      ]

  -- A trigger whose expression runs over its budget is switched off for good. Let the prefilter of the
  -- expression let a line pass, and the search of the line run over its budget. Once the trigger was
  -- tried on this line, it is off after any further lines and calls of `advance`, and the triggers of
  -- any list then leave the same state and the same events behind on a line as they do without it.
  pub over_budget_for_good :
      (r : Running F R) (expired again : Bool) (index : ℕ) (line next_line : Text)
      (log_time next_log_time : Option Text) (now later : ℕ) (calls : List EngineCall)
      (list : List ℕ) (compiled : R) (constraints : MatchMap → Bool × Option F)
      (prefilter : Text → Bool) (expanded : Text) (needs : Bool)
      → (engine.triggers index).matcher ≡ regex compiled constraints prefilter expanded needs
      → prefilter line ≡ true
      → run_regex engine r.state compiled expanded needs line ≡ over_budget
      → let after = run (try_trigger engine r expired index line log_time now).0 calls in
        (after.state.disabled index ≡ true)
        × (try_triggers engine after again list next_line next_log_time later
            ≡ try_triggers engine after again
                (keep (λ k. not (k == index)) list)
                next_line
                next_log_time
                later)
  over_budget_for_good r expired again index line next_line log_time next_log_time now later calls
        list compiled constraints prefilter expanded needs m hit over =
      let tried = (try_trigger engine r expired index line log_time now).0 in
      let off = run-IsOff tried calls index (
        try_trigger-over_budget r expired index line log_time now (
          ap (check_matcher engine r.state index line) m
          ∙ check_matcher-over_budget r.state index line compiled constraints prefilter expanded
              needs hit over)) in
      (
        off,
        try_triggers-keep engine (run tried calls) again list index next_line next_log_time later
            off,
      )
