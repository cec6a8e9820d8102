-- ===== src/Encounters/Tracked.antt =====
-- What becomes of a log whose entry in `source_active` names an encounter that is gone.
use stonemite.Encounters.Phases.Update.{update_unknown}
use stonemite.Encounters.Facts.{
  locate, correlated_with, decide, add_source_member, joined_by, with_prior_fact, promote_all,
  promote_prior_facts, start_qualified, enumerated, is_promoted, goes_to,
}
use stonemite.Encounters.Facts.Process.{
  process_damage, settle, record_damage, store_damage, contributes,
}
use stonemite.Encounters.{
  EncounterState, DamageFact, LedgerFact, CombatEngine, has_target, encounter_satisfies,
}
use stonemite.Base.Dict.{lookup, insert, lookup-insert}
use stonemite.Base.{
  ℕ, ◌≡◌, refl, ap, ◌∙◌, sym, Bool, true, false, none, some, List, [], ◌∷◌, ==_refl, subst,
  Bool-cases, inl, inr,
}

promote_unknown :
    (c : CombatEngine) (id : ℕ) (facts : List (ℕ × LedgerFact))
    → lookup id c.encounters ≡ none
    → ((promote_all c id facts).encounters ≡ c.encounters)
      × ((promote_all c id facts).source_active ≡ c.source_active)
unfolding promote_all
promote_unknown c id [] gone = (refl, refl)
promote_unknown c id ((index, f) ∷ rest) gone =
    subst
      (λ next.
        ((promote_all (record next { assignments = insert index id next.assignments }) id
            rest).encounters
          ≡ c.encounters)
        × ((promote_all (record next { assignments = insert index id next.assignments }) id
              rest).source_active
            ≡ c.source_active))
      (sym (update_unknown c id (with_prior_fact (index, f)) gone))
      (promote_unknown (record c { assignments = insert index id c.assignments }) id rest gone)

prior_unknown :
    (c : CombatEngine) (id source target anchor : ℕ)
    → lookup id c.encounters ≡ none
    → ((promote_prior_facts c id source target anchor).encounters ≡ c.encounters)
      × ((promote_prior_facts c id source target anchor).source_active ≡ c.source_active)
unfolding promote_prior_facts
prior_unknown c id source target anchor gone =
    promote_unknown c id (enumerated (is_promoted c source target anchor) 0 c.ledger) gone

store_unknown :
    (c : CombatEngine) (index : ℕ) (f : LedgerFact) (d : DamageFact) (id : ℕ) (contributes : Bool)
    → lookup id c.encounters ≡ none
    → ((store_damage c index f d id contributes).encounters ≡ c.encounters)
      × (lookup f.fact_source (store_damage c index f d id contributes).source_active ≡ some id)
unfolding store_damage add_source_member
store_unknown c index f d id contributes gone =
    let stored = record c {
      assignments = insert index id c.assignments;
      source_active = insert f.fact_source id c.source_active;
    } in
    let points : lookup f.fact_source stored.source_active ≡ some id =
      lookup-insert f.fact_source f.fact_source id c.source_active
      ∙ rw (==_refl f.fact_source) refl in
    rw (update_unknown c id (joined_by c f.fact_source) gone, update_unknown c id _ gone)
      (elim (Bool-cases (start_qualified d)) [
        | inl q ↦
            let (same, same_active) =
              prior_unknown stored id f.fact_source d.target f.eq_time gone in
            rw q (same, ap (lookup f.fact_source) same_active ∙ points)
        | inr q ↦ rw q (refl, points)
      ])

unknown_has_nothing :
    (c : CombatEngine) (id : ℕ) (p : EncounterState → Bool)
    → lookup id c.encounters ≡ none
    → encounter_satisfies c id p ≡ false
unknown_has_nothing c id p gone = rw (encounter_satisfies, gone) refl

record_unknown :
    (c : CombatEngine) (index : ℕ) (f : LedgerFact) (d : DamageFact) (id : ℕ)
    → lookup id c.encounters ≡ none
    → lookup f.fact_source c.source_active ≡ some id
    → ((record_damage c index f d id).encounters ≡ c.encounters)
      × (lookup f.fact_source (record_damage c index f d id).source_active ≡ some id)
unfolding record_damage
record_unknown c index f d id gone points = elim (Bool-cases (contributes d false)) [
  | inl q ↦
      rw (unknown_has_nothing c id (has_target d.target) gone, q)
        (store_unknown c index f d id true gone)
  | inr q ↦ rw (unknown_has_nothing c id (has_target d.target) gone, q) (refl, points)
]

decide_gone :
    (c : CombatEngine) (id : ℕ) (f : LedgerFact) (d : DamageFact)
    → lookup id c.encounters ≡ none
    → decide (c, some id) f d ≡ (c, goes_to (some id))
unfolding decide
decide_gone c id f d gone = rw (decide, gone) refl

-- If a log's active encounter is one that does not exist any more, and no encounter that is not held
-- has the fingerprint of a blow on the same server, then this blow, read from that log, neither
-- starts an encounter nor reaches one, and the log's active encounter remains the one that is gone.
pub process_damage-gone :
    (c : CombatEngine) (index : ℕ) (f : LedgerFact) (d : DamageFact) (id : ℕ)
    → lookup f.fact_source c.source_active ≡ some id
    → lookup id c.encounters ≡ none
    → correlated_with c f d ≡ none
    → ((process_damage c index f d).encounters ≡ c.encounters)
      × (lookup f.fact_source (process_damage c index f d).source_active ≡ some id)
unfolding process_damage locate settle
process_damage-gone c index f d id points gone alone =
    rw (points, alone, decide_gone c id f d gone) (record_unknown c index f d id gone points)
