-- ===== src/Triggers/Firing.antt =====
-- What a trigger does when it fires: its timer and its text.
use stonemite.Triggers.{
  is_above_zero, wrapping_add, MatchMap, TimerKind, countdown, progress, TimerBehavior,
  EnderTemplate,
}
use stonemite.Triggers.Substitute.{
  resolve_template, replace_code, replace_from_matches, replace_line_code, replace_tokens,
  character_code, counter_code, repeated_code,
}
use stonemite.Triggers.Variables.{get, as_match_map}
use stonemite.Triggers.Repeats.{get_repeated}
use stonemite.Triggers.Timers.{
  CompiledEnder, regex_ender, literal_ender, ActiveTimer, make_room, warning_time, reset_time,
}
use stonemite.Triggers.State.{TriggerEngine, CharState, Running, initial, display_event}
use stonemite.Triggers.Audio.{count_text_if, with_code_if, with_log_time}
use stonemite.Base.Text.{Text}
use stonemite.Base.{
  ℕ, Bool, true, false, ◌&&◌, ◌||◌, Option, none, some, List, [], ◌∷◌, ◌++◌, if◌then◌else◌,
}
use stonemite.Triggers.Actions.{or_else}

-- `trigger-count`, under which a trigger itself is counted.
unfoldable pub trigger_count_key : Text
trigger_count_key =
    b't' ∷ b'r' ∷ b'i' ∷ b'g' ∷ b'g' ∷ b'e' ∷ b'r' ∷ b'-' ∷ b'c' ∷ b'o' ∷ b'u' ∷ b'n' ∷ b't' ∷ []

abbrev pub accepts_dynamic_duration : TimerKind → Bool
accepts_dynamic_duration countdown = true
accepts_dynamic_duration progress = true
accepts_dynamic_duration kind = false

module _ {F R : Type 0} (engine : TriggerEngine F R) where
  -- A pattern that ends the timer, with what was captured written into it.
  unfoldable pub ender_pattern : Text → MatchMap → MatchMap → Text → Text
  unfolding replace_from_matches replace_code character_code
  ender_pattern pattern captures previous character =
      replace_code
        (replace_from_matches engine.texts
          (replace_from_matches engine.texts pattern (some captures)) (some previous))
        character_code character

  -- An expression that cannot be compiled is left out.
  unfoldable pub compile_ender : Bool → Text → List (CompiledEnder F R)
  compile_ender false pattern = literal_ender pattern ∷ []
  compile_ender true pattern =
      let expanded = engine.patterns.expand pattern in
      elim (engine.patterns.compile expanded.0) [
        | none ↦ []
        | some regex ↦ regex_ender regex expanded.1 ∷ []
      ]

  unfoldable pub early_enders :
      List EnderTemplate → MatchMap → MatchMap → Text → List (CompiledEnder F R)
  unfolding ender_pattern compile_ender
  early_enders [] captures previous character = []
  early_enders (template ∷ templates) captures previous character =
      compile_ender template.use_regex (ender_pattern template.pattern captures previous character)
      ++ early_enders templates captures previous character

  unfoldable pub new_timer :
      CharState F R
      → ℕ
      → TimerBehavior F
      → Text
      → Text
      → Option F
      → Text
      → Option Text
      → MatchMap
      → MatchMap
      → ℕ
      → ℕ
      → Option ℕ
      → ActiveTimer F R
  unfolding reset_time warning_time early_enders get_repeated
  new_timer state index behavior name template dynamic line log_time captures previous now
        loop_count counter_count =
      let trigger = engine.triggers index in
      let duration = or_else dynamic behavior.duration_seconds in
      record {
        trigger_index = index;
        trigger_id = trigger.id;
        kind = behavior.kind;
        display_name = name;
        display_name_template = template;
        begin = now;
        end = wrapping_add now (engine.seconds.millis duration);
        duration_ms = engine.seconds.millis duration;
        reset_at = reset_time engine.seconds behavior now;
        warning_at = warning_time engine.seconds behavior duration now;
        warned = false;
        loop_count = loop_count;
        early_enders = early_enders trigger.ender_templates captures previous state.character_name;
        original_matches = captures;
        previous_matches = previous;
        source_line = line;
        log_time = log_time;
        counter_count = if trigger.timer_flags.counter then counter_count else none;
        repeated_count =
            if trigger.timer_flags.repeated
            then get_repeated state.repeated_timer index template
            else none;
      }

  -- The new timer stands behind those that go on, unless none may start.
  unfoldable pub add_timer :
      Running F R → Option (List (ActiveTimer F R)) → ActiveTimer F R → Running F R
  add_timer r none timer = r
  add_timer r (some timers) timer = record {
    state = record r.state { timers = timers ++ timer ∷ [] };
    batch = record r.batch { timers_changed = true };
  }

  unfoldable pub start_timer :
      Running F R
      → ℕ
      → TimerBehavior F
      → Text
      → Text
      → Option F
      → Text
      → Option Text
      → MatchMap
      → MatchMap
      → ℕ
      → ℕ
      → Option ℕ
      → Running F R
  unfolding make_room new_timer add_timer
  start_timer r index behavior name template dynamic line log_time captures previous now loop_count
        counter_count =
      add_timer r (make_room behavior.restart_mode index name r.state.timers) (
        new_timer r.state index behavior name template dynamic line log_time captures previous now
          loop_count counter_count)

  -- A duration from the line, if this kind of timer takes one.
  unfoldable pub dynamic_of : TimerBehavior F → Option F → Option F
  dynamic_of behavior none = none
  dynamic_of behavior (some duration) =
      if accepts_dynamic_duration behavior.kind && is_above_zero engine.seconds duration
      then some duration
      else none

  abbrev pub is_given : Option F → Bool
  is_given none = false
  is_given (some duration) = true

  unfoldable pub timer_name_of : CharState F R → ℕ → Text → MatchMap → MatchMap → Text
  unfolding replace_from_matches replace_line_code replace_code character_code
  timer_name_of state index line captures previous =
      replace_code
        (replace_line_code
          (replace_from_matches engine.texts
            (replace_from_matches engine.texts (engine.triggers index).timer_name_template
              (some captures))
            (some previous))
          line)
        character_code state.character_name

  unfoldable pub start_timer_of :
      Running F R
      → ℕ
      → Option (TimerBehavior F)
      → Text
      → Option F
      → Text
      → Option Text
      → MatchMap
      → MatchMap
      → ℕ
      → ℕ
      → Option ℕ
      → Running F R
  unfolding dynamic_of start_timer replace_tokens get
  start_timer_of r index none name dynamic line log_time captures previous now loop_count count = r
  start_timer_of r index (some behavior) name dynamic line log_time captures previous now loop_count
        count =
      let taken = dynamic_of behavior dynamic in
      if is_above_zero engine.seconds behavior.duration_seconds || is_given taken
      then (let started =
            start_timer r index behavior (replace_tokens engine.texts name (get r.state.variables))
              name taken line log_time captures previous now loop_count count in
          record started { batch = record started.batch { timers_changed = true } })
      else r

  -- The text that is shown when the trigger fires.
  unfoldable pub display_initial :
      Running F R → ℕ → Text → Option Text → MatchMap → MatchMap → ℕ → Option ℕ → Running F R
  unfolding resolve_template replace_code character_code count_text_if repeated_code counter_code
      display_event
  display_initial r index line log_time captures previous now count =
      let trigger = engine.triggers index in
      elim (resolve_template engine.texts trigger.display_template line (some captures) none
        (some previous) (as_match_map r.state.variables)) [
          | none ↦ r
          | some resolved ↦
              (let text = replace_code resolved character_code r.state.character_name in
                let counted =
                  count_text_if engine trigger.display_flags.repeated r.state.repeated_text index
                    text now in
                display_event trigger initial
                  (with_log_time trigger.display_flags.logtime log_time (
                    with_code_if engine trigger.display_flags.counter counter_code count (
                      with_code_if engine trigger.display_flags.repeated repeated_code counted.1
                        text)))
                  (record r { state = record r.state { repeated_text = counted.0 } }))
        ]
