-- ===== src/Triggers/Tests.antt =====
-- A trigger with a lockout and a timer, on fixed lines and times.
use stonemite.Conditions.Evaluate.{Floats}
use stonemite.Triggers.{
  Seconds, CompiledTrigger, TimerBehavior, TemplateFlags, literal, countdown, restart_same_name,
  regex,
}
use stonemite.Triggers.Substitute.{Texts, verbatim, replace_code, group_digits}
use stonemite.Triggers.Profiles.{CompiledProfile, active_for, global, characters, applies}
use stonemite.Triggers.Profiles.Ascending.{is_ascending, active_for-is_ascending}
use stonemite.Triggers.Variables.{VariableStore, get, set, expire, empty_store}
use stonemite.Triggers.Variables.Expiry.{expire-set, has_distinct_keys}
use stonemite.Triggers.Repeats.{get_repeated}
use stonemite.Triggers.Repeats.Counted.{update_all, update_all_counts, starts_anew, AreClose}
use stonemite.Triggers.State.{TriggerEngine, Running, empty_batch, no_match, over_budget}
use stonemite.Triggers.Firing.{start_timer}
use stonemite.Triggers.Handle.{handle_trigger}
use stonemite.Triggers.Clock.{advance_character}
use stonemite.Triggers.Lines.{CharacterContext, new_state, run_regex, try_trigger, try_triggers}
use stonemite.Triggers.Lockout.{handle_trigger_locked_out}
use stonemite.Triggers.Restart.{is_rival, start_timer_one_runs}
use stonemite.Triggers.Advanced.{ends_for_good, advance_character_twice}
use stonemite.Triggers.Disabled.Budget.{clock, log_line, run, over_budget_for_good}
use stonemite.Base.Text.{Text, eq_ignore_ascii_case, is_empty}
use stonemite.Base.Dict.{lookup}
use stonemite.Base.{
  ℕ, ◌+◌, ◌*◌, ◌≡◌, refl, true, false, ◌&&◌, none, some, [], ◌∷◌, length, keep, any, contains,
  arith, ltb, leb,
}

-- Numbers in place of floats.
abbrev naturals : Floats ℕ
naturals = record {
  float_zero = 0;
  gt = λ a b. ltb b a;
  ge = λ a b. leb b a;
  lt = ltb;
  le = leb;
  is_finite = λ x. true;
  is_plain = λ x. true;
  format_integer = λ x. (x + 48) ∷ [];
  format_float = λ x. (x + 48) ∷ [];
  parse_f64 = λ t. some (length t);
  trim = λ t. t;
  contains_ignore_case = eq_ignore_ascii_case;
}

abbrev whole_seconds : Seconds ℕ
whole_seconds = record {
  floats = naturals;
  plus = λ a b. a + b;
  millis = λ x. x * 1000;
  exceeds = λ x n. ltb n x;
}

abbrev plain_texts : Texts ℕ
plain_texts = record {
  pieces = λ t. verbatim t ∷ [];
  to_uppercase = λ t. t;
  to_lowercase = λ t. t;
  parse_f64 = λ t. none;
  parse_width = λ t. none;
  rounded = λ x. (false, (x + 48) ∷ []);
  trim = λ t. t;
  decimal = λ n. (n + 48) ∷ [];
}

-- A timer of ten seconds that warns three seconds before its end.
abbrev ten_seconds : TimerBehavior ℕ
ten_seconds = record {
  kind = countdown;
  duration_seconds = 10;
  reset_duration_seconds = 0;
  times_to_loop = 0;
  restart_mode = restart_same_name;
  warning_seconds = 3;
  warning_sound = none;
  end_sound = none;
  early_end_sound = none;
  end_early_repeated_count = 0;
  end_clear_variables = [];
}

abbrev no_flags : TemplateFlags
no_flags = record { counter = false; repeated = false; logtime = false }

-- `hit` shows `h`, warns `w`, and ends `e`; it is locked out for five seconds.
abbrev hit : CompiledTrigger ℕ ℕ
hit = record {
  id = 1;
  trigger_name = b't' ∷ [];
  lockout_seconds = 5;
  repeated_reset_seconds = 1;
  variable_actions = [];
  sound = none;
  timer = some ten_seconds;
  priority = 0;
  voice_rate = 0;
  volume = 4;
  text_overlays = [];
  font_color = none;
  target = 0;
  matcher = literal (b'h' ∷ b'i' ∷ b't' ∷ []) false;
  previous = none;
  condition = none;
  condition_invalid = false;
  display_template = b'h' ∷ [];
  speak_template = [];
  timer_name_template = b't' ∷ [];
  warning_display = b'w' ∷ [];
  warning_speak = [];
  end_display = b'e' ∷ [];
  end_speak = [];
  early_display = [];
  early_speak = [];
  ender_templates = [];
  speak_flags = no_flags;
  display_flags = no_flags;
  timer_flags = no_flags;
}

abbrev engine : TriggerEngine ℕ ℕ
engine = record {
  seconds = whole_seconds;
  texts = plain_texts;
  patterns = record {
    expand = λ t. (t, λ m. (true, none));
    compile = λ t. none;
    escape = λ t. t;
    snapshot_matches = λ x t. no_match;
  };
  triggers = λ index. hit;
  trigger_count = 1;
  profiles = [];
}

abbrev someone : CharacterContext
someone = record { key = b'a' ∷ []; character = b'A' ∷ []; server = [] }

abbrev at_first : Running ℕ ℕ
unfolding new_state empty_batch
at_first = record { state = new_state engine someone; batch = empty_batch }

abbrev line : Text
line = b'H' ∷ b'I' ∷ b'T' ∷ []

-- The trigger fired at zero.
abbrev fired : Running ℕ ℕ
unfolding at_first handle_trigger
fired = handle_trigger engine at_first 0 line none [] [] none 0 0

fired_test : length fired.batch.events ≡ 1
unfolding fired
fired_test = refl

one_timer_test : length fired.state.timers ≡ 1
unfolding fired
one_timer_test = refl

-- It warns at seven seconds, and ends at ten.
warning_test : length (advance_character engine fired 7000).batch.events ≡ 2
unfolding fired advance_character
warning_test = refl

ended_test : length (advance_character engine fired 10000).batch.events ≡ 3
unfolding fired advance_character
ended_test = refl

no_timer_test : length (advance_character engine fired 10000).state.timers ≡ 0
unfolding fired advance_character
no_timer_test = refl

handle_trigger_locked_out_example :
    handle_trigger engine
      (handle_trigger engine at_first 0 line none [] [] none 0 0)
      0
      line
      none
      []
      []
      none
      5000
      0
    ≡ handle_trigger engine at_first 0 line none [] [] none 0 0
unfolding at_first lookup
handle_trigger_locked_out_example =
    handle_trigger_locked_out engine at_first 0 0 5000 line line none none [] [] [] [] none none
      refl refl (omega arith)

advance_character_twice_example :
    advance_character engine (advance_character engine fired 10000) 10000
    ≡ advance_character engine fired 10000
unfolding fired ends_for_good
advance_character_twice_example = advance_character_twice engine fired 10000 refl

start_timer_one_runs_example :
    length (
      keep
        (is_rival restart_same_name 0 (b'T' ∷ []))
        (start_timer engine fired 0 ten_seconds
          (b'T' ∷ [])
          (b'T' ∷ [])
          none
          line
          none
          []
          []
          1000
          0
          none).state.timers)
    ≡ 1
unfolding fired is_rival
start_timer_one_runs_example =
    start_timer_one_runs engine fired 0 ten_seconds (b'T' ∷ []) (b'T' ∷ []) none line none [] []
      1000 0 none (cc) (omega arith)

-- Every search runs over its budget.
abbrev slow : TriggerEngine ℕ ℕ
slow = record engine {
  patterns = record engine.patterns { snapshot_matches = λ x t. over_budget };
  triggers = λ index. record hit { matcher = regex 0 (λ m. (true, none)) (λ t. true) [] false };
}

abbrev tried : Running ℕ ℕ
tried = (try_trigger slow at_first false 0 line none 0).0

abbrev afterwards : Running ℕ ℕ
afterwards = run slow tried (clock 500 ∷ log_line line none 700 ∷ [])

over_budget_for_good_example :
    (afterwards.state.disabled 0 ≡ true)
    × (try_triggers slow afterwards false (0 ∷ []) line none 900
        ≡ try_triggers slow afterwards false [] line none 900)
unfolding run_regex
over_budget_for_good_example =
    over_budget_for_good slow at_first false false 0 line line none none 0 900
      (clock 500 ∷ log_line line none 700 ∷ []) (0 ∷ []) 0 (λ m. (true, none)) (λ t. true) [] false
      refl refl refl

-- `t` is set to expire at five, and a pass at four leaves it.
abbrev set_t : VariableStore ℕ
set_t = set empty_store (b't' ∷ []) (b'x' ∷ []) (some 5)

expire-set_example :
    (get set_t (b'T' ∷ []) ≡ some (b'x' ∷ []))
    × (get (expire set_t 4) (b'T' ∷ []) ≡ some (b'x' ∷ []))
unfolding empty_store has_distinct_keys eq_ignore_ascii_case
expire-set_example = expire-set (empty_store {F = ℕ}) (b't' ∷ []) (b'x' ∷ []) 5 4 refl (b'T' ∷ [])

update_all_counts_example :
    get_repeated (update_all whole_seconds 0 line 1 [] (0 ∷ 900 ∷ 1900 ∷ [])) 0 line ≡ some 3
unfolding starts_anew update_all AreClose is_empty
update_all_counts_example =
    update_all_counts whole_seconds 0 line 1 [] 0 (900 ∷ 1900 ∷ []) refl refl refl
      (omega arith, (omega arith, tt))

-- A profile for everybody, and one for nobody.
abbrev first_profile : CompiledProfile
first_profile = record { assignment = global; members = 3 ∷ 1 ∷ 3 ∷ [] }

abbrev second_profile : CompiledProfile
second_profile = record { assignment = characters []; members = 2 ∷ [] }

active_for_test : active_for 4 (first_profile ∷ second_profile ∷ []) (b'a' ∷ []) [] ≡ 1 ∷ 3 ∷ []
unfolding active_for
active_for_test = refl

active_for-is_ascending_example :
    (is_ascending (active_for 4 (first_profile ∷ second_profile ∷ []) (b'a' ∷ []) []) ≡ true)
    × ((k : ℕ)
        → contains k (active_for 4 (first_profile ∷ second_profile ∷ []) (b'a' ∷ []) [])
          ≡ any
              (λ p. applies (b'a' ∷ []) [] p.assignment && contains k p.members)
              (first_profile ∷ second_profile ∷ []))
active_for-is_ascending_example =
    active_for-is_ascending 4 first_profile (second_profile ∷ []) (b'a' ∷ []) []

digits_test : group_digits (b'1' ∷ b'2' ∷ b'3' ∷ b'4' ∷ []) ≡ b'1' ∷ b',' ∷ b'2' ∷ b'3' ∷ b'4' ∷ []
unfolding group_digits
digits_test = refl

code_test :
    replace_code (b'a' ∷ b'{' ∷ b'C' ∷ b'}' ∷ b'b' ∷ []) (b'{' ∷ b'c' ∷ b'}' ∷ []) (b'x' ∷ [])
    ≡ b'a' ∷ b'x' ∷ b'b' ∷ []
unfolding replace_code
code_test = refl
