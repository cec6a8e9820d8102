-- ===== src/Encounters/Immutable/Run.antt =====
-- What an input of the engine does to the held encounters.
use stonemite.Encounters.Immutable.{IsSafe, IsSafe-trans, IsSafe-refl}
use stonemite.Encounters.Immutable.Damage.{IsFresh, process_fact-IsSafe}
use stonemite.Encounters.Phases.{advanced, quieted, ended, kept}
use stonemite.Encounters.Phases.Passes.{lookup-advance_time}
use stonemite.Encounters.Phases.Live.{is_live, IsTracked, All-weaken, advance_time-IsTracked}
use stonemite.Encounters.Facts.Process.{process_fact}
use stonemite.Encounters.Lifecycle.{is_inactive, is_expired, with_sources}
use stonemite.Encounters.Run.{
  mark_partial, mark_all_partial, receive_event, bound_ledger, process_facts, facts_of, opens_gap,
  marked_by, conclude, receive_record, CombatInput, of_source, of_record, receive_input, apply,
}
use stonemite.Encounters.{
  EndReason, held, is_held, EncounterState, LedgerFact, CombatPolicy, CombatEngine, with_member,
}
use stonemite.Sources.{
  Engine, Outcome, rejected, untimed, replay_history, counted, EngineInput, source_registered,
  source_removed, source_gap, source_stable_eof, record_read, apply_record, clocked,
  advance_sources, receive, CombatRecord, register_source,
}
use stonemite.Base.Dict.{lookup, lookup-map_values}
use mathlib.Core.Option
use stonemite.Base.{
  ℕ, ◌+◌, max, ◌<◌, ◌≡◌, refl, ap, ◌∙◌, true, false, Option, none, some, List, [], ◌∷◌, length, ltb,
  arith, Bool-cases, inl, inr,
}

marked_live :
    (source : ℕ) (o : Option EncounterState)
    → is_live o ≡ true
    → is_live (Option.map (mark_partial source) o) ≡ true
unfolding with_member
marked_live source none h = h
marked_live source (some e) h = ground (arith, h)

mark_partial-held :
    (source : ℕ) (e : EncounterState) → is_held e.phase ≡ true → mark_partial source e ≡ e
unfolding with_member
mark_partial-held source e h = ground (arith, h)

mark_all_partial-IsSafe :
    (c : CombatEngine) (source : ℕ) → IsTracked c → IsSafe c (mark_all_partial c source)
unfolding mark_all_partial
mark_all_partial-IsSafe c source h = (
  All-weaken c.source_active
      (λ entry live.
        ap is_live (lookup-map_values (mark_partial source) c.encounters (entry.1))
        ∙ marked_live source (lookup (entry.1) c.encounters) live)
      h,
  (
    λ id e found at.
        lookup-map_values (mark_partial source) c.encounters id
        ∙ ap (Option.map (mark_partial source)) found
        ∙ ap some (mark_partial-held source e at),
    refl,
  ),
)

-- No damage gets, when it is processed, the id of an encounter that is held then.
abbrev pub AreFresh : CombatEngine → List LedgerFact → Type 0
unfolding process_fact
AreFresh c [] = Unit
AreFresh c (f ∷ fs) = IsFresh c f.event × AreFresh (process_fact c f) fs

process_facts-IsSafe :
    (c : CombatEngine) (facts : List LedgerFact)
    → AreFresh c facts
    → IsTracked c
    → IsSafe c (process_facts c facts)
unfolding process_facts process_fact
process_facts-IsSafe c [] fresh h = IsSafe-refl c h
process_facts-IsSafe c (f ∷ fs) (fresh, later_fresh) h =
    IsSafe-trans c (process_fact c f) (process_facts (process_fact c f) fs)
      (process_fact-IsSafe c f fresh h) (process_facts-IsSafe (process_fact c f) fs later_fresh)

conclude-IsSafe :
    (outcome : Outcome) (read marked : CombatEngine) (incoming : ℕ) (facts : List LedgerFact)
    → ltb marked.policy.max_ledger_facts (length marked.ledger + incoming) ≡ false
    → AreFresh marked facts
    → IsTracked read
    → IsSafe read marked
    → IsSafe read (conclude outcome read marked incoming facts)
unfolding conclude bound_ledger process_fact
conclude-IsSafe rejected read marked incoming facts room fresh h safe = IsSafe-refl read h
conclude-IsSafe untimed read marked incoming facts room fresh h safe = safe
conclude-IsSafe replay_history read marked incoming facts room fresh h safe = safe
conclude-IsSafe counted read marked incoming facts room fresh h safe = rw room (
    IsSafe-trans read marked (process_facts marked facts) safe
      (process_facts-IsSafe marked facts fresh))

-- The engine with its sources after an input, and nothing else done.
abbrev heard : CombatEngine → ℕ → EngineInput → CombatEngine
unfolding receive
heard c now i = with_sources c (receive c.log_engine now i)

marked_by-IsSafe :
    (c : CombatEngine) (now : ℕ) (r : CombatRecord)
    → IsTracked c
    → IsSafe (heard c now (record_read r)) (marked_by c now r)
unfolding marked_by receive
marked_by-IsSafe c now r h =
    let read = with_sources c (apply_record c.log_engine r now).0 in
    elim (Bool-cases (opens_gap c.log_engine r now)) [
      | inl q ↦ rw q (mark_all_partial-IsSafe read r.source h)
      | inr q ↦ rw q (IsSafe-refl read h)
    ]

receive_event-IsSafe :
    (c : CombatEngine) (now : ℕ) (i : EngineInput)
    → IsTracked c
    → IsSafe (heard c now i) (receive_event c now i)
unfolding receive_event
receive_event-IsSafe c now (source_removed source) h =
    mark_all_partial-IsSafe (heard c now (source_removed source)) source h
receive_event-IsSafe c now (source_gap source generation reason) h =
    mark_all_partial-IsSafe (heard c now (source_gap source generation reason)) source h
receive_event-IsSafe c now (source_registered source descriptor generation) h =
    IsSafe-refl (heard c now (source_registered source descriptor generation)) h
receive_event-IsSafe c now (source_stable_eof source generation) h =
    IsSafe-refl (heard c now (source_stable_eof source generation)) h
receive_event-IsSafe c now (record_read r) h = IsSafe-refl (heard c now (record_read r)) h

-- The ledger has room for the facts of a record, and they are fresh one after the other.
abbrev pub IsFitting : CombatEngine → ℕ → CombatInput → Type 0
unfolding marked_by process_fact
IsFitting c now (of_source i) = Unit
IsFitting c now (of_record r server incoming events) =
    (ltb (marked_by c now r).policy.max_ledger_facts (length (marked_by c now r).ledger + incoming)
      ≡ false)
    × AreFresh (marked_by c now r) (facts_of r server now r.eq_time events)

-- What the sources hear of an input.
abbrev engine_input : CombatInput → EngineInput
engine_input (of_source i) = i
engine_input (of_record r server incoming events) = record_read r

receive_input-IsSafe :
    (c : CombatEngine) (now : ℕ) (i : CombatInput)
    → IsFitting c now i
    → IsTracked c
    → IsSafe (heard c now (engine_input i)) (receive_input c now i)
unfolding receive_input receive_record marked_by process_fact receive
receive_input-IsSafe c now (of_source i) fits h = receive_event-IsSafe c now i h
receive_input-IsSafe c now (of_record r server incoming events) (room, fresh) h =
    conclude-IsSafe (apply_record c.log_engine r now).1 (heard c now (record_read r))
      (marked_by c now r) incoming (facts_of r server now r.eq_time events) room fresh h
      (marked_by-IsSafe c now r h)

-- The sources leave the clock alone.
receive_now : (logs : Engine) (now : ℕ) (i : EngineInput) → (receive logs now i).now ≡ logs.now
unfolding receive register_source apply_record
receive_now logs now (source_registered source descriptor generation) = refl
receive_now logs now (source_removed source) = ground arith
receive_now logs now (source_gap source generation reason) = ground arith
receive_now logs now (source_stable_eof source generation) = ground arith
receive_now logs now (record_read r) = ground arith

held_stays :
    (now : ℕ) (p : CombatPolicy) (logs : Engine) (e : EncounterState) (reason : EndReason)
    (until : ℕ)
    → e.phase ≡ held reason until
    → now < until
    → advanced now p logs (some e) ≡ some e
unfolding quieted ended kept is_inactive is_expired
held_stays now p logs e reason until phase early = ground (arith, phase, early)

-- If the active encounter of every log exists and is not held, then that holds also after the engine
-- has applied an input, and an encounter that is held until a later time than the input's and the
-- engine's own is found as it was. The input is anything of a source, or a record whose facts fit
-- into the ledger and do not get the id of a held encounter.
pub apply-held :
    (c : CombatEngine) (now : ℕ) (i : CombatInput) (id : ℕ) (e : EncounterState)
    (reason : EndReason) (until : ℕ)
    → IsTracked c
    → IsFitting (with_sources c (clocked c.log_engine now)) now i
    → lookup id c.encounters ≡ some e
    → e.phase ≡ held reason until
    → max c.log_engine.now now < until
    → IsTracked (apply c now i) × (lookup id (apply c now i).encounters ≡ some e)
unfolding apply
apply-held c now i id e reason until h fits found phase early =
    let clock = with_sources c (clocked c.log_engine now) in
    let next = receive_input clock now i in
    let (tracked, (keeps, same)) = receive_input-IsSafe clock now i fits h in
    let at : next.log_engine.now ≡ max c.log_engine.now now =
      ap (λ l. l.now) same ∙ receive_now clock.log_engine now (engine_input i) in
    let still : lookup id next.encounters ≡ some e = keeps id e found (ap is_held phase) in
    (
      advance_time-IsTracked next tracked,
      lookup-advance_time next id
          ∙ ap (advanced next.log_engine.now next.policy (advance_sources next.log_engine)) still
          ∙ held_stays next.log_engine.now next.policy (advance_sources next.log_engine) e reason
              until phase (rw at early),
    )
