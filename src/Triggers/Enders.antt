-- ===== src/Triggers/Enders.antt =====
-- `check_timer_enders`: a line of the log, or a count, ends timers early.
use stonemite.Triggers.{MatchMap, TimerBehavior}
use stonemite.Triggers.Repeats.{Buckets, get_repeated}
use stonemite.Triggers.Timers.{CompiledEnder, regex_ender, literal_ender, ActiveTimer}
use stonemite.Triggers.State.{
  TriggerEngine, CharState, Running, timer_end_early, SearchOutcome, matching,
}
use stonemite.Triggers.Firing.{trigger_count_key}
use stonemite.Triggers.Stages.{fire_timer_stage, contains_ignore_case}
use stonemite.Base.Text.{Text, is_empty, lowercase}
use stonemite.Base.TextMap.{erase}
use stonemite.Base.Dict.{lookup, insert}
use stonemite.Base.{
  ℕ, Bool, true, false, not, ◌&&◌, ◌||◌, Option, none, some, List, [], ◌∷◌, keep, leb, ltb,
  if◌then◌else◌,
}
use stonemite.Triggers.Clock.{expire_variables, clear_end_variables}

abbrev pub reaches : Option ℕ → ℕ → Bool
reaches none stop = false
reaches (some n) stop = leb stop n

-- The count of a text is dropped, in the bucket of a trigger that has one.
unfoldable pub forget_count : Buckets → ℕ → Text → Buckets
unfolding lookup insert erase lowercase
forget_count buckets index value = elim (lookup index buckets) [
  | none ↦ buckets
  | some bucket ↦ insert index (erase (lowercase value) bucket) buckets
]

module _ {F R : Type 0} (engine : TriggerEngine F R) where
  abbrev pub captured : (MatchMap → Bool × Option F) → SearchOutcome → Option MatchMap
  captured constraints (matching captures) =
      if (constraints captures).0 then some captures else none
  captured constraints outcome = none

  -- `CompiledEnder.matches`.
  unfoldable pub ender_matches : CompiledEnder F R → Text → Option MatchMap
  unfolding contains_ignore_case is_empty
  ender_matches (regex_ender regex constraints) line =
      captured constraints (engine.patterns.snapshot_matches regex line)
  ender_matches (literal_ender text) line =
      if not (is_empty text) && contains_ignore_case line text then some [] else none

  unfoldable pub first_ender : List (CompiledEnder F R) → Text → Option MatchMap
  unfolding ender_matches
  first_ender [] line = none
  first_ender (ender ∷ enders) line =
      let rest = first_ender enders line in
      elim (ender_matches ender line) [ none ↦ rest | some captures ↦ some captures ]

  unfoldable pub count_ends : CharState F R → ActiveTimer F R → TimerBehavior F → Bool
  unfolding get_repeated trigger_count_key
  count_ends state timer behavior =
      let stop = behavior.end_early_repeated_count in
      let flags = (engine.triggers timer.trigger_index).timer_flags in
      ltb 0 stop
      && ((flags.counter || flags.repeated)
          && (reaches (get_repeated state.repeated_timer timer.trigger_index timer.display_name)
                stop
              || reaches (get_repeated state.counter_times timer.trigger_index trigger_count_key)
                  stop))

  abbrev pub count_ends_of : CharState F R → ActiveTimer F R → Option (TimerBehavior F) → Bool
  unfolding count_ends
  count_ends_of state timer none = false
  count_ends_of state timer (some behavior) = count_ends state timer behavior

  -- Whether a line ends a timer early, and with which captures.
  unfoldable pub early_end : CharState F R → Text → ActiveTimer F R → Option MatchMap
  unfolding first_ender count_ends_of
  early_end state line timer = elim (first_ender timer.early_enders line) [
    | some captures ↦ some captures
    | none ↦
        if count_ends_of state timer (engine.triggers timer.trigger_index).timer
        then some []
        else none
  ]

  unfoldable pub early_ended :
      CharState F R → Text → List (ActiveTimer F R) → List (ActiveTimer F R × MatchMap)
  unfolding early_end
  early_ended state line [] = []
  early_ended state line (timer ∷ timers) =
      let rest = early_ended state line timers in
      elim (early_end state line timer) [ none ↦ rest | some captures ↦ (timer, captures) ∷ rest ]

  abbrev pub stays : CharState F R → Text → ActiveTimer F R → Bool
  unfolding early_end
  stays state line timer = elim (early_end state line timer) [ none ↦ true | some captures ↦ false ]

  unfoldable pub end_early : Running F R → Text → ℕ → ActiveTimer F R → MatchMap → Running F R
  unfolding forget_count trigger_count_key expire_variables fire_timer_stage clear_end_variables
  end_early r line now timer captures =
      let index = timer.trigger_index in
      let fired =
        fire_timer_stage engine
          (expire_variables engine
            (record {
              state = record r.state {
                repeated_timer = forget_count r.state.repeated_timer index timer.display_name;
                counter_times = forget_count r.state.counter_times index trigger_count_key;
              };
              batch = record r.batch { timers_changed = true };
            })
            now)
          timer timer_end_early (some captures) line now in
      record fired { state = clear_end_variables engine fired.state index }

  unfoldable pub end_all_early :
      Running F R → Text → ℕ → List (ActiveTimer F R × MatchMap) → Running F R
  unfolding end_early
  end_all_early r line now [] = r
  end_all_early r line now ((timer, captures) ∷ rest) =
      end_all_early (end_early r line now timer captures) line now rest

  unfoldable pub check_timer_enders : Running F R → Text → ℕ → Running F R
  unfolding end_all_early early_ended stays
  check_timer_enders r line now =
      end_all_early
        (record r { state = record r.state { timers = keep (stays r.state line) r.state.timers } })
        line now (early_ended r.state line r.state.timers)
