-- ===== src/Encounters/Held.antt =====
-- How long an encounter stays.
use stonemite.Encounters.Phases.{advanced, quieted, ended, kept}
use stonemite.Encounters.Phases.Passes.{lookup-advance_time, advance_time_rules, advance_time_logs}
use stonemite.Encounters.Lifecycle.{is_inactive, is_over, is_expired, with_sources}
use stonemite.Encounters.Run.{tick}
use stonemite.Encounters.{
  PhaseState, active, ending, held, EncounterState, CombatPolicy, CombatEngine,
}
use stonemite.Sources.{Engine, clocked, advance_sources}
use stonemite.Base.Dict.{lookup}
use stonemite.Base.{ℕ, ◌+◌, max, ◌≤◌, ◌≡◌, refl, ap, ◌∙◌, Option, none, some, arith}

-- The encounter entered its ending by the one time, or is held until the other at the latest.
abbrev EndsBy : ℕ → ℕ → PhaseState → Type 0
EndsBy entered until active = ⊥
EndsBy entered until (ending reason entered_at cutoff closure_sources) = entered_at ≤ entered
EndsBy entered until (held reason u) = u ≤ until

abbrev MostlyEndsBy : ℕ → ℕ → Option EncounterState → Type 0
MostlyEndsBy entered until none = Unit
MostlyEndsBy entered until (some e) = EndsBy entered until e.phase

abbrev IsHeldBy : ℕ → Option EncounterState → Type 0
IsHeldBy until none = Unit
IsHeldBy until (some e) = elim e.phase [ held reason u ↦ u ≤ until | _ ↦ ⊥ ]

first_step :
    (now : ℕ) (p : CombatPolicy) (logs : Engine) (e : EncounterState)
    → e.phase ≡ active
    → e.last_sustain_receipt + p.inactivity_ms ≤ now
    → MostlyEndsBy now (now + p.held_ms) (advanced now p logs (some e))
unfolding quieted ended kept is_inactive is_over is_expired
first_step now p logs e phase due = ground (arith, phase, due)

second_step :
    (before now : ℕ) (p : CombatPolicy) (logs : Engine) (o : Option EncounterState)
    → MostlyEndsBy before (before + p.held_ms) o
    → before + p.ending_grace_ms ≤ now
    → IsHeldBy (now + p.held_ms) (advanced now p logs o)
unfolding quieted ended kept is_inactive is_over is_expired
second_step before now p logs none h due = tt
second_step before now p logs (some e) h due = ground (arith, h, due)

third_step :
    (before now : ℕ) (p : CombatPolicy) (logs : Engine) (o : Option EncounterState)
    → IsHeldBy before o
    → before ≤ now
    → advanced now p logs o ≡ none
unfolding quieted ended kept is_inactive is_over is_expired
third_step before now p logs none h due = refl
third_step before now p logs (some e) h due = ground (arith, h, due)

clocked_now : (c : CombatEngine) (now : ℕ) → c.log_engine.now ≤ now → max c.log_engine.now now ≡ now
clocked_now c now h = omega (arith, h)

lookup-tick :
    (c : CombatEngine) (now id : ℕ)
    → c.log_engine.now ≤ now
    → lookup id (tick c now).encounters
      ≡ advanced now c.policy (advance_sources (clocked c.log_engine now)) (lookup id c.encounters)
unfolding tick
lookup-tick c now id h =
    lookup-advance_time (with_sources c (clocked c.log_engine now)) id
    ∙ ap
        (λ n.
          advanced n c.policy (advance_sources (clocked c.log_engine now)) (lookup id c.encounters))
        (clocked_now c now h)

tick_policy : (c : CombatEngine) (now : ℕ) → (tick c now).policy ≡ c.policy
unfolding tick
tick_policy c now = advance_time_rules (with_sources c (clocked c.log_engine now))

tick_clock :
    (c : CombatEngine) (now : ℕ) → c.log_engine.now ≤ now → (tick c now).log_engine.now ≡ now
unfolding tick
tick_clock c now h =
    ap (λ l. l.now) (advance_time_logs (with_sources c (clocked c.log_engine now)))
    ∙ clocked_now c now h

-- An active encounter whose sources fall silent is gone after three looks at the clock: the first
-- when the time without sustaining blows is out, the second after the grace of the ending, the
-- third after the time for which an encounter is held. No log has to be read for that.
pub lookup-tick_thrice :
    (c : CombatEngine) (id : ℕ) (e : EncounterState) (first second third : ℕ)
    → lookup id c.encounters ≡ some e
    → e.phase ≡ active
    → c.log_engine.now ≤ first
    → e.last_sustain_receipt + c.policy.inactivity_ms ≤ first
    → first + c.policy.ending_grace_ms ≤ second
    → second + c.policy.held_ms ≤ third
    → lookup id (tick (tick (tick c first) second) third).encounters ≡ none
lookup-tick_thrice c id e first second third found phase forward inactive grace over =
    let c1 = tick c first in
    let c2 = tick c1 second in
    let p1 = tick_policy c first in
    let p2 : c2.policy ≡ c.policy = tick_policy c1 second ∙ p1 in
    let t1 = tick_clock c first forward in
    let t2 = tick_clock c1 second (omega (arith, t1, grace)) in
    let h1 : MostlyEndsBy first (first + c1.policy.held_ms) (lookup id c1.encounters) =
      rw (lookup-tick c first id forward, found, p1)
        (first_step first c.policy _ e phase inactive) in
    let h2 : IsHeldBy (second + c2.policy.held_ms) (lookup id c2.encounters) =
      rw (lookup-tick c1 second id (omega (arith, t1, grace)), tick_policy c1 second)
        (second_step first second c1.policy _ (lookup id c1.encounters) h1 (rw p1 grace)) in
    lookup-tick c2 third id (omega (arith, t2, over))
    ∙ third_step (second + c2.policy.held_ms) third c2.policy _ (lookup id c2.encounters) h2
        (rw p2 over)
