-- ===== src/Encounters/Facts/Process.antt =====
-- crates/eqcombat/src/engine.rs: `process_damage`, `process_attempt` and `process_slain`.
use stonemite.Encounters.Facts.{
  start_qualified, is_positive, is_self_attack, locate, Decision, ignored, goes_to, decide, is_late,
  is_full, start_encounter, add_source_member, contributing, sustained, promote_prior_facts,
}
use stonemite.Encounters.Lifecycle.{enter_ending}
use stonemite.Encounters.{
  all_targets_terminal, inactivity, PhaseState, active, ending, is_held, TargetState,
  EncounterState, DamageFact, damage, attempt, slain, LedgerFact, CombatEngine, update_encounter,
  has_target, encounter_satisfies, find_id,
}
use stonemite.Base.Dict.{lookup, insert}
use stonemite.Base.{
  ℕ, max, Bool, true, false, not, ◌&&◌, ◌||◌, Option, none, some, List, [], ◌∷◌, ◌++◌, length, ◌==◌,
  if◌then◌else◌,
}

abbrev pub contributes : DamageFact → Bool → Bool
unfolding start_qualified
contributes d known_target =
    is_positive d
    && not d.defender_is_player
    && not (is_self_attack d)
    && (start_qualified d
        || (known_target
            && (d.attacker_verified || d.participant_verified || d.attacker_may_be_player)))

unfoldable pub store_damage : CombatEngine → ℕ → LedgerFact → DamageFact → ℕ → Bool → CombatEngine
unfolding add_source_member update_encounter contributing promote_prior_facts start_qualified
store_damage c index f d id contributes =
    let member = add_source_member c id f.fact_source in
    let counted =
      update_encounter member id
        (λ e. sustained f index (if contributes then contributing f d e else e)) in
    let stored = record counted {
      assignments = insert index id counted.assignments;
      source_active = insert f.fact_source id counted.source_active;
    } in
    if start_qualified d
    then promote_prior_facts stored id f.fact_source d.target f.eq_time
    else stored

-- The end of `process_damage`, with the encounter chosen.
unfoldable pub record_damage : CombatEngine → ℕ → LedgerFact → DamageFact → ℕ → CombatEngine
unfolding has_target store_damage start_qualified
record_damage c index f d id =
    let known_target = encounter_satisfies c id (has_target d.target) in
    if contributes d known_target || known_target
    then store_damage c index f d id (contributes d known_target)
    else c

unfoldable pub settle : CombatEngine × Decision → ℕ → LedgerFact → DamageFact → CombatEngine
unfolding record_damage is_late start_qualified is_full start_encounter
settle (c, ignored) index f d = c
settle (c, goes_to (some id)) index f d = record_damage c index f d id
settle (c, goes_to none) index f d =
    if is_late c f
    then c
    else if start_qualified d && not (is_full c d.own_id)
    then record_damage (start_encounter c f d.own_id) index f d d.own_id
    else c

unfoldable pub process_damage : CombatEngine → ℕ → LedgerFact → DamageFact → CombatEngine
unfolding settle decide locate
process_damage c index f d = settle (decide (locate c f d) f d) index f d

abbrev pub resumed_by_attempt : PhaseState → PhaseState
resumed_by_attempt (ending inactivity entered_at cutoff closure_sources) = active
resumed_by_attempt p = p

unfoldable pub attempted : LedgerFact → ℕ → EncounterState → EncounterState
attempted f index e = sustained f index (record e { phase = resumed_by_attempt e.phase })

unfoldable pub process_attempt : CombatEngine → ℕ → LedgerFact → ℕ → ℕ → CombatEngine
unfolding has_target update_encounter attempted
process_attempt c index f attacker defender = elim (lookup f.fact_source c.source_active) [
  | none ↦ c
  | some id ↦
      let next = update_encounter c id (attempted f index) in
      if encounter_satisfies c id (λ e. has_target defender e || has_target attacker e)
      then record next { assignments = insert index id next.assignments }
      else c
]

abbrev pub slay : LedgerFact → ℕ → EncounterState → List (ℕ × TargetState)
slay f target e = elim (lookup target e.targets) [
  | none ↦ e.targets
  | some t ↦ insert target (record t { terminal = true; terminal_at = some f.eq_time }) e.targets
]

unfoldable pub slain_in : LedgerFact → ℕ → ℕ → EncounterState → EncounterState
slain_in f index target e = record e {
  targets = slay f target e;
  end_eq = max e.end_eq f.eq_time;
  facts = e.facts ++ index ∷ [];
}

unfoldable pub all_terminal : List (ℕ × TargetState) → Bool
all_terminal [] = true
all_terminal ((id, t) ∷ rest) = t.terminal && all_terminal rest

abbrev pub is_finished : EncounterState → Bool
unfolding all_terminal
is_finished e = elim e.targets [ [] ↦ false | t ∷ ts ↦ all_terminal (t ∷ ts) ]

-- The encounter of a slain target: that of the fact's source, or the first that has the target.
unfoldable pub slain_encounter : CombatEngine → LedgerFact → ℕ → Option ℕ
unfolding has_target find_id
slain_encounter c f target =
    let found =
      find_id (λ e. not (is_held e.phase) && e.server == f.fact_server && has_target target e) c in
    elim (lookup f.fact_source c.source_active) [
      | none ↦ found
      | some id ↦ if encounter_satisfies c id (has_target target) then some id else found
    ]

unfoldable pub process_slain : CombatEngine → ℕ → LedgerFact → ℕ → CombatEngine
unfolding slain_encounter add_source_member update_encounter slain_in enter_ending all_terminal
process_slain c index f target = elim (slain_encounter c f target) [
  | none ↦ c
  | some id ↦
      let member = add_source_member c id f.fact_source in
      let marked = update_encounter member id (slain_in f index target) in
      let assigned = record marked { assignments = insert index id marked.assignments } in
      if encounter_satisfies assigned id is_finished
      then enter_ending assigned id all_targets_terminal f.receipt f.eq_time
      else assigned
]

-- A fact is added to the ledger, and processed with its index there.
unfoldable pub process_fact : CombatEngine → LedgerFact → CombatEngine
unfolding process_damage process_attempt process_slain
process_fact c f =
    let index = length c.ledger in
    let pushed = record c { ledger = c.ledger ++ f ∷ [] } in
    elim f.event [
      | damage d ↦ process_damage pushed index f d
      | attempt attacker defender ↦ process_attempt pushed index f attacker defender
      | slain target ↦ process_slain pushed index f target
    ]
