-- ===== src/Triggers/Lines.antt =====
-- `check_line` and `process_line`: which triggers a line of the log fires. The expressions compiled for
-- a character are compiled anew here, where the engine keeps them.
use stonemite.Conditions.Evaluate.{evaluate}
use stonemite.Triggers.{MatchMap, Matcher, regex, literal}
use stonemite.Triggers.Substitute.{replace_code, character_code}
use stonemite.Triggers.Variables.{VariableStore, get, get_match, empty_store}
use stonemite.Triggers.Profiles.{active_for}
use stonemite.Triggers.State.{
  TriggerEngine, CharState, Running, ActionBatch, SearchOutcome, no_match, over_budget, matching,
  empty_batch,
}
use stonemite.Triggers.Handle.{handle_trigger}
use stonemite.Triggers.Stages.{contains_ignore_case, non_empty, or_option}
use stonemite.Triggers.Clock.{expire_variables}
use stonemite.Triggers.Enders.{check_timer_enders}
use stonemite.Base.Text.{Text, is_empty}
use stonemite.Base.TextMap.{find, put}
use stonemite.Base.Arrays.{store}
use stonemite.Base.{
  ℕ, Bool, true, false, not, ◌&&◌, Option, none, some, List, [], ◌∷◌, if◌then◌else◌,
}

pub record LineMatch (F : Type 0) : Type 0 where
  pub captures : MatchMap
  pub dynamic_duration : Option F

-- The name of a character, and where it plays.
pub record CharacterContext : Type 0 where
  pub key : Text
  pub character : Text
  pub server : Text

module _ {F R : Type 0} (engine : TriggerEngine F R) where
  -- A condition sees variables first, then what was captured.
  unfoldable pub condition_value : VariableStore F → MatchMap → MatchMap → Text → Option Text
  unfolding get get_match
  condition_value variables captures previous name =
      or_option (non_empty (get variables name))
        (or_option (non_empty (get_match captures name)) (non_empty (get_match previous name)))

  unfoldable pub line_matches :
      CharState F R
      → ℕ
      → (MatchMap → Bool × Option F)
      → SearchOutcome
      → CharState F R × Option (LineMatch F)
  line_matches state index constraints no_match = (state, none)
  line_matches state index constraints over_budget =
      (record state { disabled = store state.disabled index true }, none)
  line_matches state index constraints (matching captures) = (
    state,
    if (constraints captures).0
        then some (record { captures = captures; dynamic_duration = (constraints captures).1 })
        else none,
  )

  unfoldable pub with_character : CharState F R → Bool → Text → Text
  unfolding replace_code character_code
  with_character state true text = replace_code text character_code state.character_name
  with_character state false text = text

  -- What an expression that names the character, or one that does not, makes of the line.
  unfoldable pub run_regex : CharState F R → R → Text → Bool → Text → SearchOutcome
  unfolding replace_code character_code
  run_regex state compiled expanded false line = engine.patterns.snapshot_matches compiled line
  run_regex state compiled expanded true line =
      elim (engine.patterns.compile
        (replace_code expanded character_code (engine.patterns.escape state.character_name))) [
          | none ↦ no_match
          | some own ↦ engine.patterns.snapshot_matches own line
        ]

  unfoldable pub check_matcher :
      CharState F R → ℕ → Text → Matcher F R → CharState F R × Option (LineMatch F)
  unfolding with_character contains_ignore_case is_empty line_matches run_regex
  check_matcher state index line (literal text needs_character) =
      let resolved = with_character state needs_character text in
      (
        state,
        if not (is_empty resolved) && contains_ignore_case line resolved
            then some (record { captures = []; dynamic_duration = none })
            else none,
      )
  check_matcher state index line (regex compiled constraints prefilter expanded needs_character) =
      if not (prefilter line)
      then (state, none)
      else line_matches state index constraints
          (run_regex state compiled expanded needs_character line)

  unfoldable pub check_line : CharState F R → ℕ → Text → Bool → CharState F R × Option (LineMatch F)
  unfolding check_matcher
  check_line state index line false = check_matcher state index line (engine.triggers index).matcher
  check_line state index line true = elim (engine.triggers index).previous [
    | none ↦ (state, none)
    | some matcher ↦ check_matcher state index line matcher
  ]

  -- The captures of the line before, for a trigger that asks for it; `none` if it does not match.
  unfoldable pub check_previous :
      CharState F R → ℕ → Option (Matcher F R) → Option Text → CharState F R × Option MatchMap
  unfolding check_line
  check_previous state index none line = (state, some [])
  check_previous state index (some matcher) none = (state, none)
  check_previous state index (some matcher) (some line) =
      let checked = check_line state index line true in
      (checked.0, elim checked.1 [ none ↦ none | some matched ↦ some matched.captures ])

  unfoldable pub passes : VariableStore F → ℕ → MatchMap → MatchMap → Bool
  unfolding condition_value evaluate
  passes variables index captures previous = elim (engine.triggers index).condition [
    | none ↦ not (engine.triggers index).condition_invalid
    | some condition ↦
        evaluate engine.seconds.floats (condition_value variables captures previous) condition
  ]

  -- A trigger that matches fires if its condition holds, with what has expired gone.
  unfoldable pub fire_if :
      Running F R → ℕ → Text → Option Text → LineMatch F → MatchMap → ℕ → Running F R
  unfolding passes handle_trigger
  fire_if r index line log_time matched previous now =
      if passes r.state.variables index matched.captures previous
      then handle_trigger engine r index line log_time matched.captures previous
          matched.dynamic_duration now 0
      else r

  abbrev pub with_state : Running F R → CharState F R → Running F R
  with_state r state = record r { state = state }

  -- Variables expire once in a line, before the first condition: the flag tells whether they have.
  unfoldable pub expire_once : Running F R → Bool → ℕ → Running F R
  unfolding expire_variables
  expire_once r true now = r
  expire_once r false now = expire_variables engine r now

  unfoldable pub try_previous :
      Running F R → Bool → ℕ → Text → Option Text → LineMatch F → ℕ → Running F R × Bool
  unfolding check_previous expire_once fire_if
  try_previous r expired index line log_time matched now =
      let checked =
        check_previous r.state index (engine.triggers index).previous r.state.previous_line in
      elim checked.1 [
        | none ↦ (with_state r checked.0, expired)
        | some previous ↦ (
          fire_if (expire_once (with_state r checked.0) expired now) index line log_time matched
              previous now,
          true,
        )
      ]

  unfoldable pub try_trigger : Running F R → Bool → ℕ → Text → Option Text → ℕ → Running F R × Bool
  unfolding check_line try_previous
  try_trigger r expired index line log_time now =
      if r.state.disabled index
      then (r, expired)
      else (let checked = check_line r.state index line false in
          elim checked.1 [
            | none ↦ (with_state r checked.0, expired)
            | some matched ↦
                try_previous (with_state r checked.0) expired index line log_time matched now
          ])

  unfoldable pub try_triggers : Running F R → Bool → List ℕ → Text → Option Text → ℕ → Running F R
  unfolding try_trigger
  try_triggers r expired [] line log_time now = r
  try_triggers r expired (index ∷ rest) line log_time now =
      let tried = try_trigger r expired index line log_time now in
      try_triggers tried.0 tried.1 rest line log_time now

  -- The triggers, then the timers that the line ends.
  unfoldable pub process_character : Running F R → Text → Option Text → ℕ → Running F R
  unfolding try_triggers check_timer_enders
  process_character r line log_time now =
      let ended =
        check_timer_enders engine (try_triggers r false r.state.active line log_time now) line
          now in
      record ended { state = record ended.state { previous_line = some line } }

  unfoldable pub new_state : CharacterContext → CharState F R
  unfolding empty_store active_for
  new_state context = record {
    key = context.key;
    character_name = context.character;
    active = active_for engine.trigger_count engine.profiles context.character context.server;
    disabled = λ index. false;
    variables = empty_store;
    counter_times = [];
    repeated_text = [];
    repeated_timer = [];
    repeated_speak = [];
    lockout_until = [];
    previous_line = none;
    timers = [];
  }

  unfoldable pub state_for : List (Text × CharState F R) → CharacterContext → CharState F R
  unfolding find new_state
  state_for characters context = elim (find context.key characters) [
    | none ↦ new_state context
    | some state ↦ state
  ]

  unfoldable pub process_line :
      List (Text × CharState F R)
      → CharacterContext
      → Text
      → Option Text
      → ℕ
      → List (Text × CharState F R) × ActionBatch
  unfolding is_empty empty_batch put state_for process_character
  process_line characters context line log_time now =
      if is_empty line
      then (characters, empty_batch)
      else (let done =
            process_character (record { state = state_for characters context; batch = empty_batch })
              line log_time now in
          (put context.key done.state characters, done.batch))
