-- ===== src/Triggers/Handle.antt =====
-- `handle_trigger`: a trigger fires, unless it is locked out.
use stonemite.Triggers.{is_above_zero, wrapping_add, MatchMap}
use stonemite.Triggers.Repeats.{Buckets, update_repeated}
use stonemite.Triggers.Audio.{push_audio}
use stonemite.Triggers.State.{TriggerEngine, CharState, Running, initial}
use stonemite.Triggers.Actions.{apply_variable_actions}
use stonemite.Triggers.Firing.{start_timer_of, display_initial, timer_name_of, trigger_count_key}
use stonemite.Base.Text.{Text}
use stonemite.Base.Dict.{lookup, insert}
use stonemite.Base.{ℕ, Bool, false, ◌&&◌, ◌||◌, Option, none, some, leb, ◌==◌, if◌then◌else◌}

abbrev pub is_until : Option ℕ → ℕ → Bool
is_until none now = false
is_until (some until) now = leb now until

module _ {F R : Type 0} (engine : TriggerEngine F R) where
  unfoldable pub uses_counter : ℕ → Bool
  uses_counter index =
      (engine.triggers index).speak_flags.counter
      || ((engine.triggers index).display_flags.counter
          || (engine.triggers index).timer_flags.counter)

  -- `{counter}` counts every firing, whatever it shows.
  unfoldable pub count_firing : Buckets → ℕ → ℕ → Buckets × Option ℕ
  unfolding uses_counter update_repeated trigger_count_key
  count_firing buckets index now =
      if uses_counter index
      then update_repeated engine.seconds buckets index trigger_count_key now
          (engine.triggers index).repeated_reset_seconds
      else (buckets, none)

  -- `{repeated}` in the name of a timer counts the firings under this name.
  unfoldable pub count_timer_name : Buckets → ℕ → Text → ℕ → Buckets
  unfolding update_repeated
  count_timer_name buckets index name now =
      if (engine.triggers index).timer_flags.repeated
      then (update_repeated engine.seconds buckets index name now
          (engine.triggers index).repeated_reset_seconds).0
      else buckets

  -- The counters, the variables and the lockout are up to date before the timer starts.
  unfoldable pub prepare : CharState F R → ℕ → Text → MatchMap → MatchMap → ℕ → CharState F R
  unfolding count_firing apply_variable_actions count_timer_name timer_name_of
  prepare state index line captures previous now = record state {
    counter_times = (count_firing state.counter_times index now).0;
    variables =
        apply_variable_actions engine state.variables (engine.triggers index).variable_actions line
          captures previous now;
    repeated_timer =
        count_timer_name state.repeated_timer index
          (timer_name_of engine state index line captures previous) now;
  }

  -- `handle_trigger` behind the lockout.
  unfoldable pub fire :
      Running F R → ℕ → Text → Option Text → MatchMap → MatchMap → Option F → ℕ → ℕ → Running F R
  unfolding prepare count_firing start_timer_of timer_name_of push_audio display_initial
  fire r index line log_time captures previous dynamic now loop_count =
      let trigger = engine.triggers index in
      let count = (count_firing r.state.counter_times index now).1 in
      let prepared = record r { state = prepare r.state index line captures previous now } in
      let started =
        start_timer_of engine prepared index trigger.timer
          (timer_name_of engine r.state index line captures previous) dynamic line log_time captures
          previous now loop_count count in
      let heard =
        push_audio engine started index initial trigger.sound trigger.speak_template line
          (some captures) none (some previous) log_time count now in
      display_initial engine heard index line log_time captures previous now count

  unfoldable pub lock_out : CharState F R → ℕ → ℕ → CharState F R
  unfolding insert
  lock_out state index now = record state {
    lockout_until =
        insert index
          (wrapping_add now (engine.seconds.millis (engine.triggers index).lockout_seconds))
          state.lockout_until;
  }

  -- Only a first firing is locked out, not the repeat of a looping timer.
  unfoldable pub handle_trigger :
      Running F R → ℕ → Text → Option Text → MatchMap → MatchMap → Option F → ℕ → ℕ → Running F R
  unfolding lookup lock_out fire
  handle_trigger r index line log_time captures previous dynamic now loop_count =
      if loop_count == 0 && is_above_zero engine.seconds (engine.triggers index).lockout_seconds
      then if is_until (lookup index r.state.lockout_until) now
        then r
        else fire (record r { state = lock_out r.state index now }) index line log_time captures
            previous dynamic now loop_count
      else fire r index line log_time captures previous dynamic now loop_count
