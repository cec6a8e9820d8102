-- ===== src/Encounters/Immutable.antt =====
-- What updates do to the held encounters.
pub mod Facts
pub mod Merge
pub mod Damage
pub mod Run
use stonemite.Encounters.Phases.{applied}
use stonemite.Encounters.Phases.Update.{lookup-update_encounter, update_encounter_rest}
use stonemite.Encounters.Phases.Live.{is_live, IsTracked, All-weaken}
use stonemite.Encounters.Lifecycle.{set_ending, enter_ending}
use stonemite.Encounters.Facts.{
  add_source_member, joined_by, with_prior_fact, promote_all, sustained,
}
use stonemite.Encounters.Facts.Process.{
  process_attempt, attempted, process_slain, slain_encounter, slain_in, is_finished,
}
use stonemite.Encounters.{
  EndReason, all_targets_terminal, PhaseState, active, ending, held, is_held, EncounterState,
  LedgerFact, CombatEngine, update_encounter, has_target, encounter_satisfies, find_among, find_id,
  keys, lesser,
}
use stonemite.Base.Dict.{lookup, insert, lookup-insert}
use stonemite.Base.{
  ℕ, min, ◌≡◌, ◌≢◌, ◌⊎◌, refl, ap, ◌∙◌, sym, subst, Bool, true, false, not, ◌&&◌, ◌||◌, Option,
  none, some, List, [], ◌∷◌, All, arith, ◌==◌, ==_ne, ==_refl, ℕ_discrete, Bool-cases, Option-cases,
  inl, inr, if◌then◌else◌,
}

-- Every held encounter of the one is found unchanged in the other.
abbrev pub KeepsHeld : CombatEngine → CombatEngine → Type 0
KeepsHeld c d =
    (id : ℕ) (e : EncounterState)
    → lookup id c.encounters ≡ some e
    → is_held e.phase ≡ true
    → lookup id d.encounters ≡ some e

-- The invariant on the active encounters holds afterwards, and held encounters and sources are as before.
abbrev pub IsSafe : CombatEngine → CombatEngine → Type 0
IsSafe c d = IsTracked d × (KeepsHeld c d × (d.log_engine ≡ c.log_engine))

pub IsSafe-trans : (a b c : CombatEngine) → IsSafe a b → (IsTracked b → IsSafe b c) → IsSafe a c
IsSafe-trans a b c (tracked, (keeps, same)) next =
    let (still_tracked, (still_keeps, still_same)) = next tracked in
    (still_tracked, (λ id e found at. still_keeps id e (keeps id e found at) at, still_same ∙ same))

pub IsSafe-refl : (c : CombatEngine) → IsTracked c → IsSafe c c
IsSafe-refl c h = (h, (λ id e found at. found, refl))

abbrev pub IsOpen : CombatEngine → ℕ → Type 0
IsOpen c id = is_live (lookup id c.encounters) ≡ true

-- What does not hold an encounter.
abbrev pub LeavesOpen : (EncounterState → EncounterState) → Type 0
LeavesOpen f = (e : EncounterState) → is_held e.phase ≡ false → is_held (f e).phase ≡ false

applied_live :
    (b : Bool) (f : EncounterState → EncounterState) (o : Option EncounterState)
    → LeavesOpen f
    → is_live o ≡ true
    → is_live (applied b f o) ≡ true
applied_live b f none opens h = absurd (cc (h))
applied_live true f (some e) opens h = ground (arith, opens e (ground (arith, h)))
applied_live false f (some e) opens h = h

pub update-IsOpen :
    (c : CombatEngine) (id k : ℕ) (f : EncounterState → EncounterState)
    → LeavesOpen f
    → IsOpen c k
    → IsOpen (update_encounter c id f) k
update-IsOpen c id k f opens h =
    rw (lookup-update_encounter c id k f) (applied_live (id == k) f (lookup k c.encounters) opens h)

held_elsewhere :
    (id k : ℕ) (f : EncounterState → EncounterState) (encounters : List (ℕ × EncounterState))
    (e : EncounterState)
    → is_live (lookup id encounters) ≡ true
    → lookup k encounters ≡ some e
    → is_held e.phase ≡ true
    → applied (id == k) f (lookup k encounters) ≡ some e
held_elsewhere id k f encounters e live found is_e_held = elim (ℕ_discrete id k) [
  | yes same ↦
      let held_live : is_live (lookup k encounters) ≡ true =
        subst (λ i. is_live (lookup i encounters) ≡ true) same live in
      absurd (not_both e (sym (ap is_live found) ∙ held_live) is_e_held)
  | no other ↦ rw (==_ne id k other) found
]
  where
    not_both : (e : EncounterState) → not (is_held e.phase) ≡ true → is_held e.phase ≡ true → ⊥
    not_both e a b = ground (arith, a, b)

pub update-IsSafe :
    (c : CombatEngine) (id : ℕ) (f : EncounterState → EncounterState)
    → LeavesOpen f
    → IsOpen c id
    → IsTracked c
    → IsSafe c (update_encounter c id f)
update-IsSafe c id f opens live h = (
  subst (All (λ entry. IsOpen (update_encounter c id f) (entry.1)))
      (sym (update_encounter_rest c id f).1.1)
      (All-weaken c.source_active (λ entry here. update-IsOpen c id (entry.1) f opens here) h),
  (
    λ k e found at.
        lookup-update_encounter c id k f ∙ held_elsewhere id k f c.encounters e live found at,
    (update_encounter_rest c id f).1.0,
  ),
)

pub with_prior_fact-LeavesOpen : (entry : ℕ × LedgerFact) → LeavesOpen (with_prior_fact entry)
with_prior_fact-LeavesOpen entry e h = h

-- Updates of an open encounter, one after the other.
pub open_then :
    (c : CombatEngine) (id : ℕ) (f : EncounterState → EncounterState) (d : CombatEngine)
    → LeavesOpen f
    → IsOpen c id
    → IsTracked c
    → (IsOpen (update_encounter c id f) id
        → IsTracked (update_encounter c id f)
        → IsSafe (update_encounter c id f) d)
    → IsSafe c d
open_then c id f d opens live h next =
    IsSafe-trans c (update_encounter c id f) d (update-IsSafe c id f opens live h)
      λ tracked. next (update-IsOpen c id id f opens live) tracked

lookup-All :
    (P : ℕ → Type 0) (source id : ℕ) (entries : List (ℕ × ℕ))
    → lookup source entries ≡ some id
    → All (λ entry. P (entry.1)) entries
    → P id
unfolding lookup
lookup-All P source id [] found hs = absurd (cc (found))
lookup-All P source id ((at, first) ∷ rest) found (here, there) = elim (Bool-cases (at == source)) [
  | inl is ↦ let same : first ≡ id = ground (arith, is, found) in subst P same here
  | inr isnt ↦ lookup-All P source id rest (ground (arith, isnt, found)) there
]

pub tracked-IsOpen :
    (c : CombatEngine) (source id : ℕ)
    → lookup source c.source_active ≡ some id
    → IsTracked c
    → IsOpen c id
tracked-IsOpen c source id found h = lookup-All (IsOpen c) source id c.source_active found h
