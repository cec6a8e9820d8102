-- ===== src/Encounters/Lifecycle.antt =====
-- crates/eqcombat/src/engine.rs: how an encounter ends, by the clock or by its targets, and when the
-- engine next has to look at the clock: `enter_ending`, `finalize`, `advance_time`, `next_deadline`.
use stonemite.Encounters.{
  EndReason, inactivity, PhaseState, active, ending, held, is_active_state, EncounterState,
  CombatPolicy, CombatEngine, update_encounter, keys, saturating_add, with_member,
}
use stonemite.Sources.{SourceState, Engine, advance_sources}
use stonemite.Base.Dict.{lookup, remove, any_value}
use stonemite.Base.{
  not, ℕ, ◌-◌, min, Bool, true, false, ◌&&◌, ◌||◌, Option, none, some, List, [], ◌∷◌, all, leb,
  ◌==◌, if◌then◌else◌,
}

abbrev pub set_ending : EndReason → ℕ → ℕ → EncounterState → EncounterState
set_ending reason now cutoff e =
    if is_active_state e.phase then record e { phase = ending reason now cutoff e.sources } else e

unfoldable pub enter_ending : CombatEngine → ℕ → EndReason → ℕ → ℕ → CombatEngine
unfolding update_encounter
enter_ending c id reason now cutoff = update_encounter c id (set_ending reason now cutoff)

-- `retain` on `source_active`.
unfoldable pub without_value : ℕ → List (ℕ × ℕ) → List (ℕ × ℕ)
without_value id [] = []
without_value id ((source, at) ∷ rest) =
    if at == id then without_value id rest else (source, at) ∷ without_value id rest

unfoldable pub finalize : CombatEngine → ℕ → EndReason → ℕ → CombatEngine
unfolding update_encounter without_value
finalize c id reason now =
    let next =
      update_encounter c id
        (λ e. record e { phase = held reason (saturating_add now c.policy.held_ms) }) in
    record next { source_active = without_value id next.source_active }

unfoldable pub is_inactive : ℕ → CombatPolicy → EncounterState → Bool
is_inactive now p e = is_active_state e.phase && leb p.inactivity_ms (now - e.last_sustain_receipt)

abbrev pub is_closed_at : ℕ → Option SourceState → Bool
is_closed_at cutoff none = false
is_closed_at cutoff (some s) = elim s.closed_through [
  | none ↦ false
  | some closed ↦ leb cutoff closed
]

unfoldable pub source_is_closed : Engine → ℕ → ℕ → Bool
source_is_closed logs cutoff source = is_closed_at cutoff (lookup source logs.sources)

-- The sources that have not closed the cutoff leave the encounter partial.
unfoldable pub mark_open : Engine → ℕ → List ℕ → List ℕ → List ℕ
unfolding source_is_closed with_member
mark_open logs cutoff [] partial = partial
mark_open logs cutoff (source ∷ rest) partial =
    mark_open logs cutoff rest
      (if source_is_closed logs cutoff source then partial else with_member source partial)

-- Whether all closure sources have closed the cutoff, and whether the ending is over.
unfoldable pub all_closed : Engine → ℕ → List ℕ → Bool
unfolding source_is_closed
all_closed logs cutoff closure_sources = all (source_is_closed logs cutoff) closure_sources

unfoldable pub is_over : ℕ → CombatPolicy → Engine → PhaseState → Bool
unfolding all_closed
is_over now p logs (ending reason entered_at cutoff closure_sources) =
    all_closed logs cutoff closure_sources || leb p.ending_grace_ms (now - entered_at)
is_over now p logs phase = false

unfoldable pub end_encounter : ℕ → CombatEngine → ℕ → PhaseState → CombatEngine
unfolding update_encounter mark_open finalize all_closed
end_encounter now c id (ending reason entered_at cutoff closure_sources) =
    let marked = update_encounter c id (λ e. record e {
      partial_sources = mark_open c.log_engine cutoff closure_sources e.partial_sources;
    }) in
    finalize (if all_closed c.log_engine cutoff closure_sources then c else marked) id reason now
end_encounter now c id phase = c

unfoldable pub is_expired : ℕ → PhaseState → Bool
is_expired now (held reason until) = leb until now
is_expired now phase = false

-- The three passes over the encounters. The source collects those that a pass goes through before
-- it changes any; what it does to one says nothing of the others.
abbrev pub enter_if_inactive : ℕ → CombatEngine → ℕ → Option EncounterState → CombatEngine
unfolding is_inactive enter_ending
enter_if_inactive now c id none = c
enter_if_inactive now c id (some e) =
    if is_inactive now c.policy e then enter_ending c id inactivity now e.last_sustain_eq else c

unfoldable pub enter_inactive : ℕ → List ℕ → CombatEngine → CombatEngine
unfolding enter_ending is_inactive
enter_inactive now [] c = c
enter_inactive now (id ∷ ids) c =
    enter_inactive now ids (enter_if_inactive now c id (lookup id c.encounters))

abbrev pub end_if_over : ℕ → CombatEngine → ℕ → Option EncounterState → CombatEngine
unfolding is_over end_encounter
end_if_over now c id none = c
end_if_over now c id (some e) =
    if is_over now c.policy c.log_engine e.phase then end_encounter now c id e.phase else c

unfoldable pub end_all : ℕ → List ℕ → CombatEngine → CombatEngine
unfolding end_encounter is_over
end_all now [] c = c
end_all now (id ∷ ids) c = end_all now ids (end_if_over now c id (lookup id c.encounters))

abbrev pub has_expired : ℕ → Option EncounterState → Bool
unfolding is_expired
has_expired now none = false
has_expired now (some e) = is_expired now e.phase

unfoldable pub without_expired : ℕ → List ℕ → List (ℕ × EncounterState) → List (ℕ × EncounterState)
unfolding is_expired
without_expired now [] encounters = encounters
without_expired now (id ∷ ids) encounters =
    without_expired now ids
      (if has_expired now (lookup id encounters) then remove id encounters else encounters)

abbrev pub is_nil {ℓ} : {A : Type ℓ} → List A → Bool
is_nil [] = true
is_nil (x ∷ xs) = false

unfoldable pub remove_expired : ℕ → CombatEngine → CombatEngine
unfolding without_expired keys any_value is_expired
remove_expired now c =
    let kept = without_expired now (keys c.encounters) c.encounters in
    let had_expired = any_value (λ e. is_expired now e.phase) c.encounters in
    let clear = had_expired && is_nil kept && not (is_nil c.ledger) in
    record c {
      encounters = kept;
      ledger = if clear then [] else c.ledger;
      assignments = if clear then [] else c.assignments;
    }

abbrev pub with_sources : CombatEngine → Engine → CombatEngine
with_sources c logs = record c { log_engine = logs }

-- At the engine's own `now`.
unfoldable pub advance_time : CombatEngine → CombatEngine
unfolding advance_sources enter_inactive end_all remove_expired keys
advance_time c =
    let now = c.log_engine.now in
    let closed = with_sources c (advance_sources c.log_engine) in
    let inactive = enter_inactive now (keys closed.encounters) closed in
    let ended = end_all now (keys inactive.encounters) inactive in remove_expired now ended

-- The deadlines of an encounter and of a source.
unfoldable pub encounter_deadline : CombatEngine → EncounterState → ℕ
encounter_deadline c e = elim e.phase [
  | active ↦ saturating_add e.last_sustain_receipt c.policy.inactivity_ms
  | ending reason entered_at cutoff closure_sources ↦
      saturating_add entered_at c.policy.ending_grace_ms
  | held reason until ↦ until
]

abbrev pub deadline_after : Option ℕ → ℕ → Option ℕ
deadline_after none span = none
deadline_after (some at) span = some (saturating_add at span)

unfoldable pub eof_deadline : CombatEngine → SourceState → Option ℕ
eof_deadline c s =
    if leb 2 s.eof_passes then deadline_after s.eof_first_at c.log_engine.stable_eof_ms else none

-- `min` of an iterator.
abbrev pub earliest : Option ℕ → Option ℕ → Option ℕ
earliest none b = b
earliest (some a) none = some a
earliest (some a) (some b) = some (min a b)

unfoldable pub encounter_deadlines : CombatEngine → List (ℕ × EncounterState) → Option ℕ
unfolding encounter_deadline
encounter_deadlines c [] = none
encounter_deadlines c ((id, e) ∷ rest) =
    earliest (some (encounter_deadline c e)) (encounter_deadlines c rest)

unfoldable pub eof_deadlines : CombatEngine → List (ℕ × SourceState) → Option ℕ
unfolding eof_deadline
eof_deadlines c [] = none
eof_deadlines c ((id, s) ∷ rest) = earliest (eof_deadline c s) (eof_deadlines c rest)

unfoldable pub next_deadline : CombatEngine → Option ℕ
unfolding encounter_deadlines eof_deadlines
next_deadline c =
    earliest (encounter_deadlines c c.encounters) (eof_deadlines c c.log_engine.sources)
