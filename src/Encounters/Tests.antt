-- ===== src/Encounters/Tests.antt =====
-- Runs of the encounters on small inputs.
use stonemite.Encounters.{
  EndReason, inactivity, PhaseState, active, ending, held, EncounterState, DamageFact, FactEvent,
  damage, slain, LedgerFact, CombatEngine, validate,
}
use stonemite.Encounters.Facts.{correlated_with}
use stonemite.Encounters.Facts.Process.{process_fact, process_damage}
use stonemite.Encounters.Lifecycle.{advance_time, next_deadline, all_closed}
use stonemite.Encounters.Run.{tick}
use stonemite.Encounters.Phases.{advanced}
use stonemite.Encounters.Phases.Passes.{lookup-advance_time}
use stonemite.Encounters.Phases.Live.{IsTracked}
use stonemite.Encounters.Immutable.Run.{apply-held}
use stonemite.Encounters.Run.{apply, marked_by, CombatInput, of_record}
use stonemite.Encounters.Held.{lookup-tick_thrice}
use stonemite.Encounters.Deadlines.{advance_time-next_deadline}
use stonemite.Encounters.Tracked.{process_damage-gone}
use stonemite.Sources.{Engine, advance_sources, is_obsolete, first_state, is_replayed, take_record}
use stonemite.Base.Dict.{lookup, insert, remove}
use stonemite.Base.{ℕ, ◌≡◌, refl, true, false, Option, none, some, List, [], ◌∷◌, arith}

abbrev logs_at : ℕ → Engine
logs_at now = record {
  sources = [];
  accepted = [];
  now = now;
  max_record_ids = 100;
  stable_eof_ms = 2000;
}

abbrev empty_engine : CombatEngine
empty_engine = record {
  policy = record {
    inactivity_ms = 30000;
    ending_grace_ms = 2000;
    held_ms = 8000;
    max_encounters = 16;
    max_ledger_facts = 100;
  };
  log_engine = logs_at 10;
  ledger = [];
  assignments = [];
  encounters = [];
  source_active = [];
}

-- A blow of participant 1 against target 5 that starts the encounter with the given id.
abbrev blow : (own_id fingerprint : ℕ) → DamageFact
blow own_id fingerprint = record {
  amount = 12;
  is_hit = true;
  participant = 1;
  defender = 5;
  attacker_verified = true;
  participant_verified = true;
  defender_is_player = false;
  attacker_may_be_player = true;
  target = 5;
  fingerprint = fingerprint;
  own_id = own_id;
}

abbrev fact : (source eq_time receipt : ℕ) → FactEvent → LedgerFact
fact source eq_time receipt event = record {
  fact_source = source;
  fact_server = 1;
  eq_time = eq_time;
  receipt = receipt;
  event = event;
}

-- The phases that are found.
abbrev phases : List (ℕ × EncounterState) → List (ℕ × PhaseState)
phases [] = []
phases ((id, e) ∷ rest) = (id, e.phase) ∷ phases rest

abbrev fighting : CombatEngine
unfolding process_fact lookup insert remove
fighting = process_fact empty_engine (fact 1 100 10 (damage (blow 7 3)))

fighting_test : phases fighting.encounters ≡ (7, active) ∷ []
unfolding process_fact lookup insert remove
fighting_test = refl

-- The target falls, and the encounter ends.
slain_test :
    phases (process_fact fighting (fact 1 104 20 (slain 5))).encounters
    ≡ (7, ending EndReason.all_targets_terminal 20 104 (1 ∷ [])) ∷ []
unfolding process_fact lookup insert remove
slain_test = refl

abbrev quiet : CombatEngine
unfolding process_fact tick lookup insert remove
quiet = tick fighting 30010

quiet_test : phases quiet.encounters ≡ (7, ending inactivity 30010 100 (1 ∷ [])) ∷ []
unfolding process_fact tick lookup insert remove
quiet_test = refl

abbrev held_engine : CombatEngine
unfolding process_fact tick lookup insert remove
held_engine = tick quiet 32010

held_test : phases held_engine.encounters ≡ (7, held inactivity 40010) ∷ []
unfolding process_fact tick lookup insert remove
held_test = refl

-- The second log comes late: it reports the first blow, under another fingerprint, when the encounter
-- is held. The blow has the id of that encounter, and the log points to it from then on.
abbrev late_engine : CombatEngine
unfolding process_fact tick lookup insert remove
late_engine = process_fact held_engine (fact 2 100 33000 (damage (blow 7 4)))

late_test : late_engine.source_active ≡ (2, 7) ∷ []
unfolding process_fact tick lookup insert remove
late_test = refl

abbrev gone_engine : CombatEngine
unfolding process_fact tick lookup insert remove
gone_engine = tick late_engine 41000

gone_test : phases gone_engine.encounters ≡ []
unfolding process_fact tick lookup insert remove
gone_test = refl

dangling_test : gone_engine.source_active ≡ (2, 7) ∷ []
unfolding process_fact tick lookup insert remove
dangling_test = refl

-- A new fight that the second log reports does not start an encounter; the first log's does.
stuck_test :
    phases (process_fact gone_engine (fact 2 200 50000 (damage (blow 8 5)))).encounters ≡ []
unfolding process_fact tick lookup insert remove
stuck_test = refl

started_test :
    phases (process_fact gone_engine (fact 1 200 50000 (damage (blow 8 5)))).encounters
    ≡ (8, active) ∷ []
unfolding process_fact tick lookup insert remove
started_test = refl

process_damage-gone_example :
    ((process_damage gone_engine 0 (fact 2 200 50000 (damage (blow 8 5))) (blow 8 5)).encounters
      ≡ gone_engine.encounters)
    × (lookup 2
          (process_damage gone_engine 0
            (fact 2 200 50000 (damage (blow 8 5)))
            (blow 8 5)).source_active
        ≡ some 7)
unfolding process_fact tick correlated_with lookup insert remove
process_damage-gone_example =
    process_damage-gone gone_engine 0 (fact 2 200 50000 (damage (blow 8 5))) (blow 8 5) 7 refl refl
      refl

lookup-advance_time_example :
    lookup 7 (advance_time quiet).encounters
    ≡ advanced 30010 quiet.policy (advance_sources quiet.log_engine) (lookup 7 quiet.encounters)
unfolding process_fact tick lookup insert remove
lookup-advance_time_example = lookup-advance_time quiet 7

-- The encounter of the engine that fights, after a look at the clock.
abbrev found : Option EncounterState → EncounterState
found (some e) = e
found none = record {
  server = 0;
  phase = active;
  sources = [];
  source_continuity = [];
  partial_sources = [];
  targets = [];
  facts = [];
  fingerprints = [];
  start_eq = 0;
  end_eq = 0;
  last_sustain_eq = 0;
  start_receipt = 0;
  last_sustain_receipt = 0;
}

lookup-tick_thrice_example :
    lookup 7 (tick (tick (tick fighting 30010) 32010) 40010).encounters ≡ none
unfolding process_fact lookup insert remove
lookup-tick_thrice_example =
    lookup-tick_thrice fighting 7 (found (lookup 7 fighting.encounters)) 30010 32010 40010 refl refl
      (omega arith) (omega arith) (omega arith) (omega arith)

advance_time-next_deadline_example :
    (lookup 7 (advance_time fighting).encounters ≡ some (found (lookup 7 fighting.encounters)))
    × ((advance_time fighting).log_engine ≡ fighting.log_engine)
unfolding process_fact lookup validate next_deadline insert all_closed remove
advance_time-next_deadline_example =
    advance_time-next_deadline fighting 7 (found (lookup 7 fighting.encounters)) refl (omega arith)
      refl tt

-- The second log reports a new fight while the first encounter is held.
abbrev report : CombatInput
report =
    of_record
      (record {
        id = record { id_source = 2; id_generation = 1; id_sequence = 1 };
        source = 2;
        source_descriptor = 2;
        eq_time = some 200;
      })
      1 1 (damage (blow 8 5) ∷ [])

reported_test :
    phases (apply held_engine 33000 report).encounters
    ≡ (7, held inactivity 40010) ∷ (8, active) ∷ []
unfolding process_fact tick apply lookup insert remove is_obsolete first_state is_replayed
    take_record
reported_test = refl

apply-held_example :
    IsTracked (apply held_engine 33000 report)
    × (lookup 7 (apply held_engine 33000 report).encounters
        ≡ some (found (lookup 7 held_engine.encounters)))
unfolding process_fact tick marked_by lookup insert remove first_state
apply-held_example =
    apply-held held_engine 33000 report 7 (found (lookup 7 held_engine.encounters)) inactivity 40010
      tt (refl, (refl, tt)) refl refl (omega arith)
