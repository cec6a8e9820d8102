-- ===== src/Encounters/Facts.antt =====
-- crates/eqcombat/src/engine.rs: what a fact read from a log does to the encounters:
-- `process_damage`, `process_attempt` and `process_slain`.
pub mod Merge
pub mod Process
use stonemite.Encounters.Facts.Merge.{merge_encounters}
use stonemite.Encounters.{
  EndReason, all_targets_terminal, inactivity, PhaseState, active, ending, held, is_active_state,
  is_held, TargetState, EncounterState, DamageFact, FactEvent, damage, attempt, slain, LedgerFact,
  CombatEngine, update_encounter, has_target, encounter_satisfies, find_id, with_member,
}
use stonemite.Sources.{SourceState}
use stonemite.Base.Dict.{lookup, insert, any_value}
use stonemite.Base.{
  ℕ, zero, suc, ◌+◌, ◌-◌, min, max, Bool, true, false, not, ◌&&◌, ◌||◌, Option, none, some, List,
  [], ◌∷◌, ◌++◌, length, contains, ltb, leb, ◌==◌, is_some, if◌then◌else◌,
}

abbrev pub is_positive : DamageFact → Bool
is_positive d = ltb 0 d.amount && d.is_hit

abbrev pub is_self_attack : DamageFact → Bool
is_self_attack d = d.participant == d.defender

unfoldable pub start_qualified : DamageFact → Bool
start_qualified d =
    is_positive d && d.attacker_verified && not d.defender_is_player && not (is_self_attack d)

unfoldable pub correlated_with : CombatEngine → LedgerFact → DamageFact → Option ℕ
unfolding find_id
correlated_with c f d =
    find_id
      (λ e.
        not (is_held e.phase) && e.server == f.fact_server && contains d.fingerprint e.fingerprints)
      c

-- The encounter of the fact's source, merged with the one that has seen the same blow elsewhere.
abbrev pub joined : CombatEngine → Option ℕ → Option ℕ → CombatEngine × Option ℕ
joined c none correlated = (c, correlated)
joined c (some current) none = (c, some current)
joined c (some current) (some correlated) =
    let (merged, id) = merge_encounters c current correlated in
    if current == correlated then (c, some current) else (merged, some id)

unfoldable pub locate : CombatEngine → LedgerFact → DamageFact → CombatEngine × Option ℕ
unfolding correlated_with merge_encounters
locate c f d = joined c (lookup f.fact_source c.source_active) (correlated_with c f d)

-- `ignored` is the return for a fact that is excluded from closure.
pub data Decision : Type 0 where
  ignored : Decision
  goes_to : Option ℕ → Decision

abbrev pub reviving : DamageFact → EncounterState → EncounterState
reviving d e = record e {
  phase = active;
  targets = elim (lookup d.target e.targets) [
    | none ↦ e.targets
    | some t ↦ insert d.target (record t { terminal = false; terminal_at = none }) e.targets
  ];
}

abbrev pub may_resume : EndReason → Bool → Bool → Bool
may_resume inactivity known_target after_cutoff = true
may_resume all_targets_terminal known_target after_cutoff = known_target && after_cutoff

-- What is decided of a fact that falls to an encounter in the given phase.
unfoldable pub decide_in_phase :
    CombatEngine → LedgerFact → DamageFact → ℕ → PhaseState → CombatEngine × Decision
unfolding update_encounter has_target
decide_in_phase c f d id (ending reason entered_at cutoff closure_sources) =
    let closure_source = contains f.fact_source closure_sources in
    let after_cutoff = ltb cutoff f.eq_time in
    if closure_source
      && may_resume reason (encounter_satisfies c id (has_target d.target)) after_cutoff
    then (update_encounter c id (reviving d), goes_to (some id))
    else if not closure_source || after_cutoff
    then (c, if not closure_source && leb f.eq_time cutoff then ignored else goes_to none)
    else (c, goes_to (some id))
decide_in_phase c f d id p = (c, goes_to (some id))

unfoldable pub decide : CombatEngine × Option ℕ → LedgerFact → DamageFact → CombatEngine × Decision
unfolding decide_in_phase
decide (c, none) f d = (c, goes_to none)
decide (c, some id) f d = elim (lookup id c.encounters) [
  | none ↦ (c, goes_to (some id))
  | some e ↦ decide_in_phase c f d id e.phase
]

-- The fact is older than what a held encounter of its source covers.
unfoldable pub is_late : CombatEngine → LedgerFact → Bool
unfolding any_value
is_late c f =
    any_value
      (λ e.
        is_held e.phase
        && contains f.fact_source e.sources
        && e.server == f.fact_server
        && leb f.eq_time e.end_eq)
      c.encounters

abbrev pub continuity_of : CombatEngine → ℕ → ℕ
continuity_of c source = elim (lookup source c.log_engine.sources) [
  | none ↦ 0
  | some s ↦ s.continuity
]

unfoldable pub new_encounter : CombatEngine → LedgerFact → EncounterState
new_encounter c f = record {
  server = f.fact_server;
  phase = active;
  sources = f.fact_source ∷ [];
  source_continuity = (f.fact_source, continuity_of c f.fact_source) ∷ [];
  partial_sources = [];
  targets = [];
  facts = [];
  fingerprints = [];
  start_eq = f.eq_time;
  end_eq = f.eq_time;
  last_sustain_eq = f.eq_time;
  start_receipt = f.receipt;
  last_sustain_receipt = f.receipt;
}

unfoldable pub is_full : CombatEngine → ℕ → Bool
is_full c id =
    not (is_some (lookup id c.encounters)) && leb c.policy.max_encounters (length c.encounters)

unfoldable pub start_encounter : CombatEngine → LedgerFact → ℕ → CombatEngine
unfolding new_encounter
start_encounter c f id =
    if is_some (lookup id c.encounters)
    then c
    else record c { encounters = insert id (new_encounter c f) c.encounters }

abbrev pub is_registered_after : Option SourceState → ℕ → Bool
is_registered_after none start = true
is_registered_after (some s) start = ltb start s.registered_at

unfoldable pub joined_by : CombatEngine → ℕ → EncounterState → EncounterState
unfolding with_member
joined_by c source e = if contains source e.sources then e else record e {
  sources = source ∷ e.sources;
  source_continuity = insert source (continuity_of c source) e.source_continuity;
  partial_sources =
      if is_registered_after (lookup source c.log_engine.sources) e.start_receipt
      then with_member source e.partial_sources
      else e.partial_sources;
}

unfoldable pub add_source_member : CombatEngine → ℕ → ℕ → CombatEngine
unfolding update_encounter joined_by
add_source_member c id source = update_encounter c id (joined_by c source)

abbrev pub hit_target : LedgerFact → Option TargetState → TargetState
hit_target f none = record {
  terminal = false;
  first_damage = f.eq_time;
  last_damage = f.eq_time;
  terminal_at = none;
}
hit_target f (some t) = record t {
  last_damage = max t.last_damage f.eq_time;
  terminal = false;
  terminal_at = if t.terminal then none else t.terminal_at;
}

unfoldable pub contributing : LedgerFact → DamageFact → EncounterState → EncounterState
unfolding with_member
contributing f d e = record e {
  targets = insert d.target (hit_target f (lookup d.target e.targets)) e.targets;
  fingerprints = with_member d.fingerprint e.fingerprints;
  start_eq = min e.start_eq f.eq_time;
  start_receipt = min e.start_receipt f.receipt;
  end_eq = max e.end_eq f.eq_time;
}

abbrev pub sustained : LedgerFact → ℕ → EncounterState → EncounterState
sustained f index e = record e {
  last_sustain_eq = max e.last_sustain_eq f.eq_time;
  last_sustain_receipt = max e.last_sustain_receipt f.receipt;
  facts = e.facts ++ index ∷ [];
}

-- The prior facts that `promote_prior_facts` takes: damage of the last 30 seconds to the same
-- target, from the same log, that no encounter has.
unfoldable pub is_promoted : CombatEngine → ℕ → ℕ → ℕ → ℕ → LedgerFact → Bool
is_promoted c source target anchor index f =
    not (is_some (lookup index c.assignments))
    && f.fact_source == source
    && leb (anchor - 30) f.eq_time
    && leb f.eq_time anchor
    && elim f.event [ damage d ↦ d.target == target && d.attacker_may_be_player | _ ↦ false ]

-- The facts of the ledger that satisfy `p`, with their indices.
abbrev pub enumerated : (ℕ → LedgerFact → Bool) → ℕ → List LedgerFact → List (ℕ × LedgerFact)
enumerated p index [] = []
enumerated p index (f ∷ fs) =
    let rest = enumerated p (suc index) fs in if p index f then (index, f) ∷ rest else rest

abbrev pub with_prior_fact : ℕ × LedgerFact → EncounterState → EncounterState
with_prior_fact (index, f) e = record e {
  facts = e.facts ++ index ∷ [];
  start_eq = min e.start_eq f.eq_time;
  start_receipt = min e.start_receipt f.receipt;
  end_eq = max e.end_eq f.eq_time;
}

unfoldable pub promote_all : CombatEngine → ℕ → List (ℕ × LedgerFact) → CombatEngine
unfolding update_encounter
promote_all c id [] = c
promote_all c id ((index, f) ∷ rest) =
    let next = update_encounter c id (with_prior_fact (index, f)) in
    promote_all (record next { assignments = insert index id next.assignments }) id rest

unfoldable pub promote_prior_facts : CombatEngine → ℕ → ℕ → ℕ → ℕ → CombatEngine
unfolding promote_all is_promoted
promote_prior_facts c id source target anchor =
    promote_all c id (enumerated (is_promoted c source target anchor) 0 c.ledger)
