-- ===== src/Encounters/Immutable/Facts.antt =====
-- What attempts and slain targets do to the held encounters.
use stonemite.Encounters.Phases.Live.{is_live, IsTracked}
use stonemite.Encounters.Lifecycle.{set_ending, enter_ending}
use stonemite.Encounters.Facts.{add_source_member, joined_by}
use stonemite.Encounters.Facts.Process.{
  process_attempt, attempted, process_slain, slain_encounter, slain_in, is_finished,
}
use stonemite.Encounters.{
  EndReason, all_targets_terminal, is_held, EncounterState, LedgerFact, CombatEngine,
  update_encounter, has_target, encounter_satisfies, find_among, find_id, keys, lesser,
}
use stonemite.Base.Dict.{lookup, insert}
use stonemite.Base.{
  ℕ, ◌≡◌, ◌⊎◌, refl, ◌∙◌, sym, subst, Bool, true, false, not, ◌&&◌, ◌||◌, Option, none, some, List,
  [], ◌∷◌, arith, ◌==◌, Bool-cases, Option-cases, inl, inr, if◌then◌else◌,
}
use stonemite.Encounters.Immutable.{
  IsSafe, IsSafe-refl, IsOpen, LeavesOpen, update-IsSafe, open_then, tracked-IsOpen,
}

lesser_cases : (a : ℕ) (o : Option ℕ) (id : ℕ) → lesser a o ≡ some id → (id ≡ a) ⊎ (o ≡ some id)
lesser_cases a none id h = ground (arith, h)
lesser_cases a (some b) id h = ground (arith, h)

-- A search finds what it looks for.
pub find_among-satisfies :
    (p : EncounterState → Bool) (c : CombatEngine) (ids : List ℕ) (id : ℕ)
    → find_among p c ids ≡ some id
    → encounter_satisfies c id p ≡ true
unfolding find_among
find_among-satisfies p c [] id h = absurd (cc (h))
find_among-satisfies p c (first ∷ rest) id h = elim (Bool-cases (encounter_satisfies c first p)) [
  | inl q ↦ elim (lesser_cases first (find_among p c rest) id (sym (rw q refl) ∙ h)) [
    | inl same ↦ rw same q
    | inr later ↦ find_among-satisfies p c rest id later
  ]
  | inr q ↦ find_among-satisfies p c rest id (sym (rw q refl) ∙ h)
]

pub joined_by-LeavesOpen : (c : CombatEngine) (source : ℕ) → LeavesOpen (joined_by c source)
unfolding joined_by
joined_by-LeavesOpen c source e h = ground (arith, h)

attempted-LeavesOpen : (f : LedgerFact) (index : ℕ) → LeavesOpen (attempted f index)
unfolding attempted
attempted-LeavesOpen f index e h = ground (arith, h)

slain_in-LeavesOpen : (f : LedgerFact) (index target : ℕ) → LeavesOpen (slain_in f index target)
unfolding slain_in
slain_in-LeavesOpen f index target e h = h

set_ending-LeavesOpen :
    (reason : EndReason) (now cutoff : ℕ) → LeavesOpen (set_ending reason now cutoff)
set_ending-LeavesOpen reason now cutoff e h = ground (arith, h)

pub satisfied-IsOpen :
    (c : CombatEngine) (id : ℕ) (p : EncounterState → Bool)
    → ((e : EncounterState) → p e ≡ true → is_held e.phase ≡ false)
    → encounter_satisfies c id p ≡ true
    → IsOpen c id
satisfied-IsOpen c id p implies h = by_lookup (lookup id c.encounters) h
  where
    by_lookup :
        (o : Option EncounterState)
        → (elim o [ none ↦ false | some e ↦ p e ]) ≡ true
        → is_live o ≡ true
    by_lookup none q = absurd (cc (q))
    by_lookup (some e) q = ground (arith, implies e q)

pub process_attempt-IsSafe :
    (c : CombatEngine) (index : ℕ) (f : LedgerFact) (attacker defender : ℕ)
    → IsTracked c
    → IsSafe c (process_attempt c index f attacker defender)
unfolding process_attempt
process_attempt-IsSafe c index f attacker defender h =
    elim (Option-cases (lookup f.fact_source c.source_active)) [
      | inl none_here ↦ rw (process_attempt, none_here) (IsSafe-refl c h)
      | inr (id, found) ↦
          elim (Bool-cases
            (encounter_satisfies c id (λ e. has_target defender e || has_target attacker e))) [
              | inl q ↦
                  rw (process_attempt, found, q)
                    (update-IsSafe c id (attempted f index) (attempted-LeavesOpen f index)
                      (tracked-IsOpen c f.fact_source id found h) h)
              | inr q ↦ rw (process_attempt, found, q) (IsSafe-refl c h)
            ]
    ]

-- The encounter that a slain target is looked up in is open.
slain_encounter-IsOpen :
    (c : CombatEngine) (f : LedgerFact) (target id : ℕ)
    → slain_encounter c f target ≡ some id
    → IsTracked c
    → IsOpen c id
unfolding slain_encounter find_id
slain_encounter-IsOpen c f target id h tracked =
    elim (Option-cases (lookup f.fact_source c.source_active)) [
      | inl nowhere ↦ searched (sym (rw (slain_encounter, nowhere) refl) ∙ h)
      | inr (at, found) ↦ elim (Bool-cases (encounter_satisfies c at (has_target target))) [
        | inl q ↦
            let same : at ≡ id = some_eq (sym (rw (slain_encounter, found, q) refl) ∙ h) in
            subst (IsOpen c) same (tracked-IsOpen c f.fact_source at found tracked)
        | inr q ↦ searched (sym (rw (slain_encounter, found, q) refl) ∙ h)
      ]
    ]
  where
    some_eq : {a b : ℕ} → some a ≡ some b → a ≡ b
    some_eq q = cc (q)

    searched :
        find_among
            (λ e. not (is_held e.phase) && e.server == f.fact_server && has_target target e)
            c
            (keys c.encounters)
          ≡ some id
        → IsOpen c id
    searched found =
        satisfied-IsOpen c id _ (λ e q. ground (arith, q))
          (find_among-satisfies _ c (keys c.encounters) id found)

pub process_slain-IsSafe :
    (c : CombatEngine) (index : ℕ) (f : LedgerFact) (target : ℕ)
    → IsTracked c
    → IsSafe c (process_slain c index f target)
unfolding process_slain add_source_member enter_ending
process_slain-IsSafe c index f target h = elim (Option-cases (slain_encounter c f target)) [
  | inl nowhere ↦ rw (process_slain, nowhere) (IsSafe-refl c h)
  | inr (id, found) ↦
      let member = update_encounter c id (joined_by c f.fact_source) in
      let marked = update_encounter member id (slain_in f index target) in
      let assigned = record marked { assignments = insert index id marked.assignments } in
      let result =
        if encounter_satisfies assigned id is_finished
        then enter_ending assigned id all_targets_terminal f.receipt f.eq_time
        else assigned in
      rw (process_slain, found)
        (open_then c id (joined_by c f.fact_source) result (joined_by-LeavesOpen c f.fact_source)
          (slain_encounter-IsOpen c f target id found h) h
          λ live tracked.
            open_then member id (slain_in f index target) result
              (slain_in-LeavesOpen f index target) live tracked
              λ live tracked. elim (Bool-cases (encounter_satisfies assigned id is_finished)) [
                | inl q ↦ rw q (
                    update-IsSafe assigned id _
                      (set_ending-LeavesOpen all_targets_terminal f.receipt f.eq_time) live tracked)
                | inr q ↦ rw q (IsSafe-refl assigned tracked)
              ])
]
