-- ===== src/Triggers/Disabled/Off.antt =====
-- A trigger that is switched off, on the lines of the log and as time goes by.
use stonemite.Triggers.{MatchMap, Matcher, regex, literal}
use stonemite.Triggers.State.{
  TriggerEngine, CharState, Running, SearchOutcome, no_match, over_budget, matching,
}
use stonemite.Triggers.Clock.{expire_variables}
use stonemite.Triggers.Lines.{
  LineMatch, line_matches, check_matcher, check_line, check_previous, fire_if, expire_once,
  try_previous, try_trigger, try_triggers, process_character, with_state,
}
use stonemite.Base.Text.{Text}
use stonemite.Base.{
  ℕ, ◌≡◌, refl, ap, ◌∙◌, Bool, true, false, not, Option, none, some, List, [], ◌∷◌, keep, ◌==◌,
  arith, Bool-cases, Option-cases, inl, inr, ==_iff,
}
use stonemite.Triggers.Disabled.{handle_trigger-disabled, check_timer_enders-disabled}

module _ {F R : Type 0} (engine : TriggerEngine F R) where
  abbrev pub IsOff : ℕ → Running F R → Type 0
  IsOff index r = r.state.disabled index ≡ true

  line_matches-IsOff :
      (state : CharState F R) (k index : ℕ) (constraints : MatchMap → Bool × Option F)
      (outcome : SearchOutcome)
      → state.disabled index ≡ true
      → (line_matches engine state k constraints outcome).0.disabled index ≡ true
  unfolding line_matches
  line_matches-IsOff state k index constraints no_match off = off
  line_matches-IsOff state k index constraints over_budget off = ground (arith, off)
  line_matches-IsOff state k index constraints (matching captures) off = off

  check_matcher-IsOff :
      (state : CharState F R) (k index : ℕ) (line : Text) (matcher : Matcher F R)
      → state.disabled index ≡ true
      → (check_matcher engine state k line matcher).0.disabled index ≡ true
  unfolding check_matcher
  check_matcher-IsOff state k index line (literal text needs) off = off
  check_matcher-IsOff state k index line (regex compiled constraints prefilter expanded needs) off =
      ground (arith, off, λ (o : SearchOutcome). line_matches-IsOff state k index constraints o off)

  check_line-IsOff :
      (state : CharState F R) (k index : ℕ) (line : Text) (previous : Bool)
      → state.disabled index ≡ true
      → (check_line engine state k line previous).0.disabled index ≡ true
  unfolding check_line
  check_line-IsOff state k index line false off =
      check_matcher-IsOff state k index line (engine.triggers k).matcher off
  check_line-IsOff state k index line true off =
      ground (arith, off, λ (m : Matcher F R). check_matcher-IsOff state k index line m off)

  check_previous-IsOff :
      (state : CharState F R) (k index : ℕ) (matcher : Option (Matcher F R)) (line : Option Text)
      → state.disabled index ≡ true
      → (check_previous engine state k matcher line).0.disabled index ≡ true
  unfolding check_previous
  check_previous-IsOff state k index none line off = off
  check_previous-IsOff state k index (some matcher) none off = off
  check_previous-IsOff state k index (some matcher) (some line) off =
      check_line-IsOff state k index line true off

  fire_if-disabled :
      (r : Running F R) (index : ℕ) (line : Text) (log_time : Option Text) (matched : LineMatch F)
      (previous : MatchMap) (now : ℕ)
      → (fire_if engine r index line log_time matched previous now).state.disabled
        ≡ r.state.disabled
  unfolding fire_if
  fire_if-disabled r index line log_time matched previous now = ground (
    arith,
    handle_trigger-disabled engine r index line log_time matched.captures previous
        matched.dynamic_duration now 0,
  )

  expire_once-disabled :
      (r : Running F R) (expired : Bool) (now : ℕ)
      → (expire_once engine r expired now).state.disabled ≡ r.state.disabled
  unfolding expire_once expire_variables
  expire_once-disabled r true now = refl
  expire_once-disabled r false now = refl

  try_previous-IsOff :
      (r : Running F R) (expired : Bool) (k index : ℕ) (line : Text) (log_time : Option Text)
      (matched : LineMatch F) (now : ℕ)
      → IsOff index r
      → IsOff index (try_previous engine r expired k line log_time matched now).0
  unfolding try_previous
  try_previous-IsOff r expired k index line log_time matched now off =
      let checked =
        check_previous engine r.state k (engine.triggers k).previous r.state.previous_line in
      let kept =
        check_previous-IsOff r.state k index (engine.triggers k).previous r.state.previous_line
          off in
      let s = expire_once engine (with_state engine r checked.0) expired now in
      elim (Option-cases checked.1) [
        | inl out ↦ rw (try_previous, out) kept
        | inr (p, out) ↦
            rw (try_previous, out)
              (ap (λ d. d index)
                  (fire_if-disabled s k line log_time matched p now
                    ∙ expire_once-disabled (with_state engine r checked.0) expired now)
                ∙ kept)
      ]

  try_trigger-IsOff :
      (r : Running F R) (expired : Bool) (k index : ℕ) (line : Text) (log_time : Option Text)
      (now : ℕ)
      → IsOff index r
      → IsOff index (try_trigger engine r expired k line log_time now).0
  unfolding try_trigger
  try_trigger-IsOff r expired k index line log_time now off =
      let checked = check_line engine r.state k line false in
      let kept = check_line-IsOff r.state k index line false off in
      elim (Bool-cases (r.state.disabled k)) [
        | inl skipped ↦ rw skipped off
        | inr tried ↦ elim (Option-cases checked.1) [
          | inl out ↦ rw (tried, out) kept
          | inr (m, out) ↦
              rw (tried, out)
                (try_previous-IsOff (with_state engine r checked.0) expired k index line log_time m
                  now kept)
        ]
      ]

  try_triggers-IsOff :
      (r : Running F R) (expired : Bool) (ks : List ℕ) (index : ℕ) (line : Text)
      (log_time : Option Text) (now : ℕ)
      → IsOff index r
      → IsOff index (try_triggers engine r expired ks line log_time now)
  unfolding try_triggers
  try_triggers-IsOff r expired [] index line log_time now off = off
  try_triggers-IsOff r expired (k ∷ ks) index line log_time now off =
      let tried = try_trigger engine r expired k line log_time now in
      try_triggers-IsOff tried.0 tried.1 ks index line log_time now
        (try_trigger-IsOff r expired k index line log_time now off)

  -- A trigger that is off might as well not be there.
  pub try_triggers-keep :
      (r : Running F R) (expired : Bool) (ks : List ℕ) (index : ℕ) (line : Text)
      (log_time : Option Text) (now : ℕ)
      → IsOff index r
      → try_triggers engine r expired ks line log_time now
        ≡ try_triggers engine r expired (keep (λ k. not (k == index)) ks) line log_time now
  unfolding try_triggers try_trigger
  try_triggers-keep r expired [] index line log_time now off = refl
  try_triggers-keep r expired (k ∷ ks) index line log_time now off =
      elim (Bool-cases (k == index)) [
        | inl own ↦ rw own (
            skip (ap (λ x. r.state.disabled x) ((==_iff k index).0 own) ∙ off)
            ∙ try_triggers-keep r expired ks index line log_time now off)
        | inr other ↦ rw other (
            try_triggers-keep (try_trigger engine r expired k line log_time now).0
              (try_trigger engine r expired k line log_time now).1 ks index line log_time now
              (try_trigger-IsOff r expired k index line log_time now off))
      ]
    where
      skip :
          r.state.disabled k ≡ true
          → try_triggers engine
              (try_trigger engine r expired k line log_time now).0
              (try_trigger engine r expired k line log_time now).1
              ks
              line
              log_time
              now
            ≡ try_triggers engine r expired ks line log_time now
      skip h = rw h refl

  pub process_character-IsOff :
      (r : Running F R) (index : ℕ) (line : Text) (log_time : Option Text) (now : ℕ)
      → IsOff index r
      → IsOff index (process_character engine r line log_time now)
  unfolding process_character
  process_character-IsOff r index line log_time now off =
      ap (λ d. d index)
        (check_timer_enders-disabled engine
          (try_triggers engine r false r.state.active line log_time now) line now)
      ∙ try_triggers-IsOff r false r.state.active index line log_time now off
