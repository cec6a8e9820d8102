-- ===== src/Encounters/Run.antt =====
-- crates/eqcombat/src/engine.rs: `apply_record` with its facts, `apply` and `tick`.
use stonemite.Encounters.Facts.Process.{process_fact}
use stonemite.Encounters.Lifecycle.{advance_time, with_sources}
use stonemite.Encounters.{is_held, EncounterState, FactEvent, LedgerFact, CombatEngine, with_member}
use stonemite.Sources.{
  Outcome, Engine, CombatRecord, rejected, untimed, replay_history, counted, EngineInput,
  source_removed, source_gap, receive, apply_record, found_or_first, gap_of, clocked,
}
use stonemite.Base.Dict.{lookup, map_values}
use stonemite.Base.{
  ℕ, ◌+◌, Bool, not, ◌&&◌, Option, none, some, List, [], ◌∷◌, length, contains, ltb, is_some,
  if◌then◌else◌,
}

abbrev pub mark_partial : ℕ → EncounterState → EncounterState
unfolding with_member
mark_partial source e =
    if contains source e.sources && not (is_held e.phase)
    then record e { partial_sources = with_member source e.partial_sources }
    else e

unfoldable pub mark_all_partial : CombatEngine → ℕ → CombatEngine
unfolding map_values with_member
mark_all_partial c source = record c { encounters = map_values (mark_partial source) c.encounters }

-- An input that is no record, and what it does to the encounters of its source.
unfoldable pub receive_event : CombatEngine → ℕ → EngineInput → CombatEngine
unfolding receive mark_all_partial
receive_event c now (source_removed source) =
    mark_all_partial (with_sources c (receive c.log_engine now (source_removed source))) source
receive_event c now (source_gap source generation reason) =
    mark_all_partial
      (with_sources c (receive c.log_engine now (source_gap source generation reason))) source
receive_event c now i = with_sources c (receive c.log_engine now i)

-- The bound of the ledger, beyond which all encounters are withdrawn.
unfoldable pub bound_ledger : CombatEngine → ℕ → CombatEngine
bound_ledger c incoming =
    if ltb c.policy.max_ledger_facts (length c.ledger + incoming)
    then record c { encounters = []; source_active = []; ledger = []; assignments = [] }
    else c

unfoldable pub process_facts : CombatEngine → List LedgerFact → CombatEngine
unfolding process_fact
process_facts c [] = c
process_facts c (f ∷ fs) = process_facts (process_fact c f) fs

abbrev pub facts_of : CombatRecord → ℕ → ℕ → Option ℕ → List FactEvent → List LedgerFact
facts_of r server now none events = []
facts_of r server now (some eq_time) [] = []
facts_of r server now (some eq_time) (event ∷ events) =
    record {
      fact_source = r.source;
      fact_server = server;
      eq_time = eq_time;
      receipt = now;
      event = event;
    }
    ∷ facts_of r server now (some eq_time) events

abbrev pub opens_gap : Engine → CombatRecord → ℕ → Bool
unfolding gap_of
opens_gap logs r now = is_some (gap_of (found_or_first (lookup r.source logs.sources) r now) r)

-- The engine behind the part of `apply_record` that `Sources` models, the gap marked.
unfoldable pub marked_by : CombatEngine → ℕ → CombatRecord → CombatEngine
unfolding apply_record mark_all_partial gap_of
marked_by c now r =
    let read = with_sources c (apply_record c.log_engine r now).0 in
    if opens_gap c.log_engine r now then mark_all_partial read r.source else read

-- How it goes on, by the outcome for the source.
unfoldable pub conclude :
    Outcome → (read marked : CombatEngine) → (incoming : ℕ) → List LedgerFact → CombatEngine
unfolding bound_ledger process_facts
conclude rejected read marked incoming facts = read
conclude untimed read marked incoming facts = marked
conclude replay_history read marked incoming facts = marked
conclude counted read marked incoming facts = process_facts (bound_ledger marked incoming) facts

-- `apply_record` as a whole.
unfoldable pub receive_record :
    CombatEngine → ℕ → CombatRecord → (server incoming : ℕ) → List FactEvent → CombatEngine
unfolding apply_record marked_by conclude
receive_record c now r server incoming events =
    let (logs, outcome) = apply_record c.log_engine r now in
    conclude outcome (with_sources c logs) (marked_by c now r) incoming
      (facts_of r server now r.eq_time events)

-- `EngineInput`. A record comes with the server of its source, the number of its damage, attempt
-- and slain events, and those of them that `is_replayed_occurrence` lets pass.
pub data CombatInput : Type 0 where
  of_source : EngineInput → CombatInput
  of_record : CombatRecord → (server incoming : ℕ) → List FactEvent → CombatInput

unfoldable pub receive_input : CombatEngine → ℕ → CombatInput → CombatEngine
unfolding receive_event receive_record
receive_input c now (of_source i) = receive_event c now i
receive_input c now (of_record r server incoming events) =
    receive_record c now r server incoming events

-- `CombatEngine::apply` and `CombatEngine::tick`.
unfoldable pub apply : CombatEngine → ℕ → CombatInput → CombatEngine
unfolding advance_time receive_input
apply c now i = advance_time (receive_input (with_sources c (clocked c.log_engine now)) now i)

unfoldable pub tick : CombatEngine → ℕ → CombatEngine
unfolding advance_time
tick c now = advance_time (with_sources c (clocked c.log_engine now))
