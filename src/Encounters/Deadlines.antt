-- ===== src/Encounters/Deadlines.antt =====
-- The deadline that the engine gives.
use stonemite.Encounters.Phases.{advanced, quieted, ended, kept}
use stonemite.Encounters.Phases.Passes.{lookup-advance_time, advance_time_logs}
use stonemite.Encounters.Lifecycle.{
  is_inactive, is_over, all_closed, is_expired, advance_time, encounter_deadline, eof_deadline,
  encounter_deadlines, eof_deadlines, next_deadline, earliest,
}
use stonemite.Encounters.{PhaseState, ending, EncounterState, CombatEngine, validate}
use stonemite.Sources.{SourceState, Engine, close_at_eof, advance_sources}
use stonemite.Base.Dict.{lookup, map_values}
use stonemite.Base.{
  ℕ, ◌<◌, ◌≡◌, refl, ap, ◌∙◌, sym, true, false, Option, none, some, List, [], ◌∷◌, arith,
  Bool-cases, inl, inr, ◌==◌,
}

-- The deadline, if there is one, is still to come.
abbrev pub IsAhead : ℕ → Option ℕ → Type 0
IsAhead now none = Unit
IsAhead now (some t) = now < t

earliest-IsAhead :
    (now : ℕ) (a b : Option ℕ) → IsAhead now (earliest a b) → IsAhead now a × IsAhead now b
earliest-IsAhead now none none h = (tt, tt)
earliest-IsAhead now none (some b) h = (tt, h)
earliest-IsAhead now (some a) none h = (h, tt)
earliest-IsAhead now (some a) (some b) h = (omega (arith, h), omega (arith, h))

encounter-IsAhead :
    (now : ℕ) (c : CombatEngine) (id : ℕ) (e : EncounterState)
    (encounters : List (ℕ × EncounterState))
    → lookup id encounters ≡ some e
    → IsAhead now (encounter_deadlines c encounters)
    → now < encounter_deadline c e
unfolding encounter_deadlines lookup
encounter-IsAhead now c id e [] found ahead = absurd (cc (found))
encounter-IsAhead now c id e ((at, first) ∷ rest) found ahead = elim (Bool-cases (at == id)) [
  | inl q ↦
      let same : first ≡ e = ground (arith, q, found) in
      rw (sym same)
        (earliest-IsAhead now (some (encounter_deadline c first)) (encounter_deadlines c rest)
          ahead).0
  | inr q ↦
      encounter-IsAhead now c id e rest (ground (arith, q, found))
        (earliest-IsAhead now (some (encounter_deadline c first)) (encounter_deadlines c rest)
          ahead).1
]

no_eof :
    (now : ℕ) (c : CombatEngine) (s : SourceState)
    → validate c ≡ true
    → IsAhead now (eof_deadline c s)
    → close_at_eof now c.log_engine.stable_eof_ms s ≡ s
unfolding eof_deadline close_at_eof validate
no_eof now c s valid ahead = ground (arith, valid, ahead)

no_eofs :
    (c : CombatEngine) (sources : List (ℕ × SourceState))
    → validate c ≡ true
    → IsAhead c.log_engine.now (eof_deadlines c sources)
    → map_values (close_at_eof c.log_engine.now c.log_engine.stable_eof_ms) sources ≡ sources
unfolding map_values eof_deadlines
no_eofs c [] valid ahead = refl
no_eofs c ((id, s) ∷ rest) valid ahead =
    let (here, there) =
      earliest-IsAhead c.log_engine.now (eof_deadline c s) (eof_deadlines c rest) ahead in
    rw (no_eof c.log_engine.now c s valid here, no_eofs c rest valid there) refl

sources_same :
    (c : CombatEngine)
    → validate c ≡ true
    → IsAhead c.log_engine.now (eof_deadlines c c.log_engine.sources)
    → advance_sources c.log_engine ≡ c.log_engine
unfolding advance_sources
sources_same c valid ahead =
    ap (λ s. record c.log_engine { sources = s }) (no_eofs c c.log_engine.sources valid ahead)

-- The encounter waits for a source: it is not in an ending that all its sources have closed.
abbrev pub IsWaiting : Engine → PhaseState → Type 0
unfolding all_closed
IsWaiting logs (ending reason entered_at cutoff closure_sources) =
    all_closed logs cutoff closure_sources ≡ false
IsWaiting logs p = Unit

not_due :
    (c : CombatEngine) (logs : Engine) (e : EncounterState)
    → validate c ≡ true
    → IsWaiting logs e.phase
    → c.log_engine.now < encounter_deadline c e
    → advanced c.log_engine.now c.policy logs (some e) ≡ some e
unfolding quieted ended kept is_inactive is_over is_expired encounter_deadline all_closed validate
not_due c logs e valid waits early = ground (arith, valid, waits, early)

-- Before the deadline that the engine gives, a look at the clock changes no source, and no encounter
-- but one in an ending that all its sources have closed. The policy is one that passes validation.
pub advance_time-next_deadline :
    (c : CombatEngine) (id : ℕ) (e : EncounterState)
    → validate c ≡ true
    → IsAhead c.log_engine.now (next_deadline c)
    → lookup id c.encounters ≡ some e
    → IsWaiting c.log_engine e.phase
    → (lookup id (advance_time c).encounters ≡ some e)
      × ((advance_time c).log_engine ≡ c.log_engine)
unfolding next_deadline
advance_time-next_deadline c id e valid ahead found waits =
    let (here, there) =
      earliest-IsAhead c.log_engine.now (encounter_deadlines c c.encounters)
        (eof_deadlines c c.log_engine.sources) ahead in
    let same : advance_sources c.log_engine ≡ c.log_engine = sources_same c valid there in
    (
      lookup-advance_time c id
          ∙ ap (λ l. advanced c.log_engine.now c.policy l (lookup id c.encounters)) same
          ∙ ap (advanced c.log_engine.now c.policy c.log_engine) found
          ∙ not_due c c.log_engine e valid waits
              (encounter-IsAhead c.log_engine.now c id e c.encounters found here),
      advance_time_logs c ∙ same,
    )
