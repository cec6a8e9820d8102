-- ===== src/Encounters/Phases/Passes.antt =====
-- `advance_time` pass by pass.
use mathlib.Core.Option
use stonemite.Encounters.Lifecycle.{
  is_expired, enter_if_inactive, enter_inactive, end_if_over, end_all, has_expired, without_expired,
  remove_expired, with_sources, advance_time,
}
use stonemite.Encounters.{EncounterState, CombatEngine, keys}
use stonemite.Sources.{advance_sources}
use stonemite.Base.Dict.{lookup, remove, lookup-remove}
use stonemite.Base.{
  ℕ, ◌≡◌, refl, ap, ◌∙◌, ◌≢◌, inl, inr, Bool, true, false, ◌||◌, Option, none, some, List, [], ◌∷◌,
  contains, arith, ℕ_discrete, ==_refl, ==_ne, Bool-cases, ◌==◌, is_some, if◌then◌else◌,
}
use stonemite.Encounters.Phases.{quieted, ended, kept, advanced, applied}
use stonemite.Encounters.Phases.Each.{enter-lookup, quieted_again, ended_again, end-lookup}
use stonemite.Encounters.Phases.Rules.{
  HasSameRules, end_if_over-HasSameRules, enter_if_inactive-HasSameRules,
}

-- A pass applies its step once more to the encounters that it has gone through already.
applied_or :
    (a b : Bool) (f : EncounterState → EncounterState) (o : Option EncounterState)
    → ((e : EncounterState) → f (f e) ≡ f e)
    → applied b f (applied a f o) ≡ applied (a || b) f o
applied_or true true f none again = refl
applied_or true true f (some e) again = ap some (again e)
applied_or true false f o again = refl
applied_or false b f o again = refl

pass_enter :
    (now : ℕ) (ids : List ℕ) (c : CombatEngine) (k : ℕ)
    → (lookup k (enter_inactive now ids c).encounters
        ≡ applied (contains k ids) (quieted now c.policy) (lookup k c.encounters))
      × HasSameRules c (enter_inactive now ids c)
unfolding enter_inactive
pass_enter now [] c k = (refl, (refl, refl))
pass_enter now (id ∷ ids) c k =
    let next = enter_if_inactive now c id (lookup id c.encounters) in
    let (rules, logs) = enter_if_inactive-HasSameRules now c id (lookup id c.encounters) in
    let (found, (later_rules, later_logs)) = pass_enter now ids next k in
    (
      found
          ∙ ap (λ p. applied (contains k ids) (quieted now p) (lookup k next.encounters)) rules
          ∙ ap (applied (contains k ids) (quieted now c.policy)) (enter-lookup now c id k)
          ∙ applied_or (id == k) (contains k ids) _ (lookup k c.encounters)
              (quieted_again now c.policy),
      (later_rules ∙ rules, later_logs ∙ logs),
    )

pass_end :
    (now : ℕ) (ids : List ℕ) (c : CombatEngine) (k : ℕ)
    → (lookup k (end_all now ids c).encounters
        ≡ applied (contains k ids) (ended now c.policy c.log_engine) (lookup k c.encounters))
      × HasSameRules c (end_all now ids c)
unfolding end_all
pass_end now [] c k = (refl, (refl, refl))
pass_end now (id ∷ ids) c k =
    let next = end_if_over now c id (lookup id c.encounters) in
    let (rules, logs) = end_if_over-HasSameRules now c id (lookup id c.encounters) in
    let (found, (later_rules, later_logs)) = pass_end now ids next k in
    (
      found
          ∙ ap
              (λ p.
                applied (contains k ids) (ended now p next.log_engine) (lookup k next.encounters))
              rules
          ∙ ap (λ l. applied (contains k ids) (ended now c.policy l) (lookup k next.encounters))
              logs
          ∙ ap (applied (contains k ids) (ended now c.policy c.log_engine)) (end-lookup now c id k)
          ∙ applied_or (id == k) (contains k ids) _ (lookup k c.encounters)
              (ended_again now c.policy c.log_engine),
      (later_rules ∙ rules, later_logs ∙ logs),
    )

-- What is left of an encounter by a pass that looks at it, or does not.
abbrev pub kept_if : ℕ → Bool → Option EncounterState → Option EncounterState
unfolding kept
kept_if now b none = none
kept_if now true (some e) = kept now e
kept_if now false (some e) = some e

kept_if-false : (now : ℕ) (o : Option EncounterState) → o ≡ kept_if now false o
unfolding kept
kept_if-false now none = refl
kept_if-false now (some e) = refl

kept_or :
    (now : ℕ) (a b : Bool) (o : Option EncounterState)
    → kept_if now b (kept_if now a o) ≡ kept_if now (a || b) o
unfolding kept
kept_or now a b none = refl
kept_or now true true (some e) = elim (Bool-cases (is_expired now e.phase)) [
  | inl q ↦ rw q refl
  | inr q ↦ rw (q, q) refl
]
kept_or now true false (some e) = elim (Bool-cases (is_expired now e.phase)) [
  | inl q ↦ rw q refl
  | inr q ↦ rw q refl
]
kept_or now false b (some e) = refl

lookup-expired :
    (now : ℕ) (id k : ℕ) (encounters : List (ℕ × EncounterState))
    → lookup k (if has_expired now (lookup id encounters) then remove id encounters else encounters)
      ≡ kept_if now (id == k) (lookup k encounters)
unfolding is_expired kept
lookup-expired now id k encounters = elim (ℕ_discrete id k) [
  | yes same ↦ rw (same, ==_refl k) (at_k (lookup k encounters) refl)
  | no other ↦ rw (==_ne id k other) (elsewhere other (has_expired now (lookup id encounters)))
]
  where
    at_k :
        (o : Option EncounterState)
        → lookup k encounters ≡ o
        → lookup k (if has_expired now o then remove k encounters else encounters)
          ≡ kept_if now true o
    at_k none h = h
    at_k (some e) h = elim (Bool-cases (is_expired now e.phase)) [
      | inl q ↦ rw q (lookup-remove k k encounters ∙ rw (==_refl k) refl)
      | inr q ↦ rw q h
    ]

    elsewhere :
        id ≢ k
        → (expired : Bool)
        → lookup k (if expired then remove id encounters else encounters)
          ≡ kept_if now false (lookup k encounters)
    elsewhere other true =
        rw (lookup-remove id k encounters, ==_ne id k other)
          (kept_if-false now (lookup k encounters))
    elsewhere other false = kept_if-false now (lookup k encounters)

pub pass_expired :
    (now : ℕ) (ids : List ℕ) (k : ℕ) (encounters : List (ℕ × EncounterState))
    → lookup k (without_expired now ids encounters)
      ≡ kept_if now (contains k ids) (lookup k encounters)
unfolding without_expired kept is_expired
pass_expired now [] k encounters = kept_if-false now (lookup k encounters)
pass_expired now (id ∷ ids) k encounters =
    pass_expired now ids k _
    ∙ ap (kept_if now (contains k ids)) (lookup-expired now id k encounters)
    ∙ kept_or now (id == k) (contains k ids) (lookup k encounters)

contains-keys :
    (k : ℕ) (encounters : List (ℕ × EncounterState))
    → contains k (keys encounters) ≡ is_some (lookup k encounters)
unfolding keys lookup
contains-keys k [] = refl
contains-keys k ((id, e) ∷ rest) = ground (arith, contains-keys k rest)

-- A pass over all ids looks at every encounter that there is.
applied-keys :
    (f : EncounterState → EncounterState) (k : ℕ) (encounters : List (ℕ × EncounterState))
    → applied (contains k (keys encounters)) f (lookup k encounters)
      ≡ Option.map f (lookup k encounters)
applied-keys f k encounters = rw (contains-keys k encounters) (every (lookup k encounters))
  where
    every : (o : Option EncounterState) → applied (is_some o) f o ≡ Option.map f o
    every none = refl
    every (some e) = refl

kept-keys :
    (now k : ℕ) (encounters : List (ℕ × EncounterState))
    → kept_if now (contains k (keys encounters)) (lookup k encounters)
      ≡ kept_if now true (lookup k encounters)
unfolding kept
kept-keys now k encounters = rw (contains-keys k encounters) (every (lookup k encounters))
  where
    every : (o : Option EncounterState) → kept_if now (is_some o) o ≡ kept_if now true o
    every none = refl
    every (some e) = refl

-- `advance_time` goes over the encounters pass by pass and changes them in the map. It comes to the
-- same as to advance each encounter by itself, by the clock, the policy and the sources, these
-- advanced first.
pub lookup-advance_time :
    (c : CombatEngine) (k : ℕ)
    → lookup k (advance_time c).encounters
      ≡ advanced c.log_engine.now c.policy (advance_sources c.log_engine) (lookup k c.encounters)
unfolding advance_time remove_expired quieted ended kept
lookup-advance_time c k =
    let now = c.log_engine.now in
    let closed = with_sources c (advance_sources c.log_engine) in
    let inactive = enter_inactive now (keys closed.encounters) closed in
    let over = end_all now (keys inactive.encounters) inactive in
    let (quiet, (rules, logs)) = pass_enter now (keys closed.encounters) closed k in
    let (ended_here, _) = pass_end now (keys inactive.encounters) inactive k in
    pass_expired now (keys over.encounters) k over.encounters
    ∙ kept-keys now k over.encounters
    ∙ ap (kept_if now true) (
        ended_here
        ∙ applied-keys (ended now inactive.policy inactive.log_engine) k inactive.encounters
        ∙ ap (λ p. Option.map (ended now p inactive.log_engine) (lookup k inactive.encounters))
            rules
        ∙ ap (λ l. Option.map (ended now c.policy l) (lookup k inactive.encounters)) logs
        ∙ ap (Option.map (ended now c.policy (advance_sources c.log_engine)))
            (quiet ∙ applied-keys (quieted now c.policy) k c.encounters))
    ∙ together (lookup k c.encounters)
  where
    together :
        (o : Option EncounterState)
        → kept_if c.log_engine.now true (
            Option.map
              (ended c.log_engine.now c.policy (advance_sources c.log_engine))
              (Option.map (quieted c.log_engine.now c.policy) o))
          ≡ advanced c.log_engine.now c.policy (advance_sources c.log_engine) o
    together none = refl
    together (some e) = refl

pub advance_time_rules : (c : CombatEngine) → (advance_time c).policy ≡ c.policy
unfolding advance_time remove_expired
advance_time_rules c =
    let now = c.log_engine.now in
    let closed = with_sources c (advance_sources c.log_engine) in
    let inactive = enter_inactive now (keys closed.encounters) closed in
    (pass_end now (keys inactive.encounters) inactive 0).1.0
    ∙ (pass_enter now (keys closed.encounters) closed 0).1.0

pub advance_time_logs :
    (c : CombatEngine) → (advance_time c).log_engine ≡ advance_sources c.log_engine
unfolding advance_time remove_expired
advance_time_logs c =
    let now = c.log_engine.now in
    let closed = with_sources c (advance_sources c.log_engine) in
    let inactive = enter_inactive now (keys closed.encounters) closed in
    (pass_end now (keys inactive.encounters) inactive 0).1.1
    ∙ (pass_enter now (keys closed.encounters) closed 0).1.1
