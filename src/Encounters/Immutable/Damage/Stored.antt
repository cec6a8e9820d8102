-- ===== src/Encounters/Immutable/Damage/Stored.antt =====
-- Storing damage with an encounter.
use stonemite.Encounters.Immutable.{
  IsSafe, IsSafe-trans, IsSafe-refl, IsOpen, LeavesOpen, open_then, with_prior_fact-LeavesOpen,
}
use stonemite.Encounters.Immutable.Facts.{joined_by-LeavesOpen}
use stonemite.Encounters.Immutable.Merge.{IsNotHeld, inserted_live, live_of}
use stonemite.Encounters.Phases.Live.{is_live, IsTracked, All-weaken}
use stonemite.Encounters.Facts.{
  start_qualified, new_encounter, start_encounter, add_source_member, joined_by, contributing,
  sustained, is_promoted, enumerated, with_prior_fact, promote_all, promote_prior_facts,
}
use stonemite.Encounters.Facts.Process.{contributes, store_damage, record_damage}
use stonemite.Encounters.{
  is_held, EncounterState, DamageFact, LedgerFact, CombatEngine, update_encounter, has_target,
  encounter_satisfies,
}
use stonemite.Base.Dict.{lookup, insert, lookup-insert}
use stonemite.Base.{
  ℕ, ◌≡◌, refl, ap, ◌∙◌, subst, Bool, true, false, ◌||◌, none, List, [], ◌∷◌, All, ◌==◌, ==_ne,
  ==_refl, ℕ_discrete, Bool-cases, Option-cases, inl, inr, if◌then◌else◌,
}

All-insert :
    (P : ℕ → Type 0) (source id : ℕ) (entries : List (ℕ × ℕ))
    → P id
    → All (λ entry. P (entry.1)) entries
    → All (λ entry. P (entry.1)) (insert source id entries)
unfolding insert
All-insert P source id [] h hs = (h, tt)
All-insert P source id ((at, first) ∷ rest) h (here, there) = elim (Bool-cases (at == source)) [
  | inl q ↦ rw q (h, there)
  | inr q ↦ rw q (here, All-insert P source id rest h there)
]

promote_all-IsSafe :
    (c : CombatEngine) (id : ℕ) (facts : List (ℕ × LedgerFact))
    → IsOpen c id
    → IsTracked c
    → IsSafe c (promote_all c id facts)
unfolding promote_all
promote_all-IsSafe c id [] live h = IsSafe-refl c h
promote_all-IsSafe c id ((index, f) ∷ rest) live h =
    let next = update_encounter c id (with_prior_fact (index, f)) in
    let stored = record next { assignments = insert index id next.assignments } in
    open_then c id (with_prior_fact (index, f)) (promote_all stored id rest)
      (with_prior_fact-LeavesOpen (index, f)) live h (promote_all-IsSafe stored id rest)

promote_prior_facts-IsSafe :
    (c : CombatEngine) (id source target anchor : ℕ)
    → IsOpen c id
    → IsTracked c
    → IsSafe c (promote_prior_facts c id source target anchor)
unfolding promote_prior_facts
promote_prior_facts-IsSafe c id source target anchor live h =
    promote_all-IsSafe c id (enumerated (is_promoted c source target anchor) 0 c.ledger) live h

counted-LeavesOpen :
    (f : LedgerFact) (index : ℕ) (d : DamageFact) (contributes : Bool)
    → LeavesOpen (λ e. sustained f index (if contributes then contributing f d e else e))
unfolding contributing
counted-LeavesOpen f index d true e h = h
counted-LeavesOpen f index d false e h = h

store_damage-IsSafe :
    (c : CombatEngine) (index : ℕ) (f : LedgerFact) (d : DamageFact) (id : ℕ) (contributes : Bool)
    → IsOpen c id
    → IsTracked c
    → IsSafe c (store_damage c index f d id contributes)
unfolding store_damage add_source_member
store_damage-IsSafe c index f d id contributes live h =
    let member = update_encounter c id (joined_by c f.fact_source) in
    let counted =
      update_encounter member id
        (λ e. sustained f index (if contributes then contributing f d e else e)) in
    let stored = record counted {
      assignments = insert index id counted.assignments;
      source_active = insert f.fact_source id counted.source_active;
    } in
    let result =
      if start_qualified d
      then promote_prior_facts stored id f.fact_source d.target f.eq_time
      else stored in
    open_then c id (joined_by c f.fact_source) result (joined_by-LeavesOpen c f.fact_source) live h
      λ live tracked.
        open_then member id _ result (counted-LeavesOpen f index d contributes) live tracked
          λ live tracked.
            IsSafe-trans counted stored result
              (
                All-insert (IsOpen counted) f.fact_source id counted.source_active live tracked,
                (λ k e found at. found, refl),
              )
              λ tracked. elim (Bool-cases (start_qualified d)) [
                | inl q ↦ rw q (
                    promote_prior_facts-IsSafe stored id f.fact_source d.target f.eq_time live
                      tracked)
                | inr q ↦ rw q (IsSafe-refl stored tracked)
              ]

pub record_damage-IsSafe :
    (c : CombatEngine) (index : ℕ) (f : LedgerFact) (d : DamageFact) (id : ℕ)
    → IsOpen c id
    → IsTracked c
    → IsSafe c (record_damage c index f d id)
unfolding record_damage
record_damage-IsSafe c index f d id live h =
    let known_target = encounter_satisfies c id (has_target d.target) in
    elim (Bool-cases (contributes d known_target || known_target)) [
      | inl q ↦ rw q (store_damage-IsSafe c index f d id (contributes d known_target) live h)
      | inr q ↦ rw q (IsSafe-refl c h)
    ]

insert-IsSafe :
    (c : CombatEngine) (id : ℕ) (e : EncounterState)
    → lookup id c.encounters ≡ none
    → is_held e.phase ≡ false
    → IsTracked c
    → IsSafe c (record c { encounters = insert id e c.encounters })
insert-IsSafe c id e unknown open_phase tracked = (
  All-weaken c.source_active
      (λ entry live.
        rw (lookup-insert id (entry.1) e c.encounters)
          (inserted_live (id == entry.1) e (lookup (entry.1) c.encounters) open_phase live))
      tracked,
  (
    λ k other found at. elim (ℕ_discrete id k) [
      | yes same ↦
          let unknown_k : lookup k c.encounters ≡ none =
            subst (λ i. lookup i c.encounters ≡ none) same unknown in
          absurd (cc (unknown_k, found))
      | no differs ↦ rw (lookup-insert id k e c.encounters, ==_ne id k differs) found
    ],
    refl,
  ),
)

pub started-IsSafe :
    (c : CombatEngine) (f : LedgerFact) (id : ℕ)
    → IsNotHeld c id
    → IsTracked c
    → IsSafe c (start_encounter c f id) × IsOpen (start_encounter c f id) id
unfolding start_encounter new_encounter
started-IsSafe c f id h tracked = elim (Option-cases (lookup id c.encounters)) [
  | inl q ↦
      let now_at = lookup-insert id id (new_encounter c f) c.encounters in
      rw (start_encounter, q)
        (
          insert-IsSafe c id (new_encounter c f) q refl tracked,
          ap is_live now_at ∙ rw (==_refl id) refl,
        )
  | inr (e, q) ↦
      let live : IsOpen c id = live_of (lookup id c.encounters) e h q in
      rw (start_encounter, q) (IsSafe-refl c tracked, live)
]
