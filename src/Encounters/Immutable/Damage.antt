-- ===== src/Encounters/Immutable/Damage.antt =====
-- What damage does to the held encounters, and a fact of any kind.
pub mod Stored
pub mod Decided
use stonemite.Encounters.Immutable.{
  KeepsHeld, IsSafe, IsSafe-trans, IsSafe-refl, IsOpen, LeavesOpen, update-IsOpen, update-IsSafe,
  open_then, tracked-IsOpen, with_prior_fact-LeavesOpen,
}
use stonemite.Encounters.Immutable.Facts.{
  satisfied-IsOpen, find_among-satisfies, process_attempt-IsSafe, process_slain-IsSafe,
  joined_by-LeavesOpen,
}
use stonemite.Encounters.Immutable.Merge.{
  is_held_at, IsNotHeld, inserted_live, live_of, merge-IsSafe, merge-IsNotHeld,
}
use stonemite.Encounters.Phases.Live.{is_live, IsTracked, All-weaken}
use stonemite.Encounters.Facts.{
  start_qualified, correlated_with, locate, joined, Decision, ignored, goes_to, reviving, decide,
  decide_in_phase, is_late, is_full, may_resume, new_encounter, start_encounter, add_source_member,
  joined_by, contributing, sustained, is_promoted, enumerated, with_prior_fact, promote_all,
  promote_prior_facts,
}
use stonemite.Encounters.Facts.Merge.{merged, merge_known, merge_encounters, redirected}
use stonemite.Encounters.Facts.Process.{
  contributes, store_damage, record_damage, settle, process_damage, process_attempt, process_slain,
  process_fact,
}
use stonemite.Encounters.{
  PhaseState, active, ending, held, is_held, EncounterState, DamageFact, FactEvent, damage, attempt,
  slain, LedgerFact, CombatEngine, update_encounter, has_target, encounter_satisfies, find_id, keys,
}
use stonemite.Base.Dict.{
  lookup, insert, map_values, remove, lookup-insert, lookup-remove, lookup-map_values,
}
use stonemite.Base.{
  ℕ, ◌≡◌, ◌≢◌, refl, ap, ◌∙◌, sym, subst, Bool, true, false, not, ◌&&◌, ◌||◌, Option, none, some,
  List, [], ◌∷◌, All, arith, ◌==◌, ==_ne, ==_refl, ℕ_discrete, Bool-cases, Option-cases, inl, inr,
  contains, leb, ltb, ◌++◌, length, if◌then◌else◌,
}
use stonemite.Encounters.Immutable.Damage.Stored.{record_damage-IsSafe, started-IsSafe}
use stonemite.Encounters.Immutable.Damage.Decided.{IsDecided, locate-IsLocated, decide-IsDecided}

settle-IsSafe :
    (c : CombatEngine) (r : CombatEngine × Decision) (index : ℕ) (f : LedgerFact) (d : DamageFact)
    → IsDecided c r
    → IsNotHeld c d.own_id
    → IsSafe c (settle r index f d)
unfolding settle
settle-IsSafe c (next, ignored) index f d safe fresh = safe
settle-IsSafe c (next, goes_to (some id)) index f d (safe, live) fresh =
    IsSafe-trans c next (record_damage next index f d id) safe
      λ tracked. record_damage-IsSafe next index f d id live tracked
settle-IsSafe c (next, goes_to none) index f d (safe, keeps) fresh =
    let begun = start_encounter next f d.own_id in
    let result = record_damage begun index f d d.own_id in
    elim (Bool-cases (is_late next f)) [
      | inl late ↦ rw late safe
      | inr timely ↦ elim (Bool-cases (start_qualified d && not (is_full next d.own_id))) [
        | inl starts ↦
            rw (timely, starts)
              (IsSafe-trans c next result safe λ tracked.
                let (started, live) =
                  started-IsSafe next f d.own_id (keeps d.own_id fresh) tracked in
                IsSafe-trans next begun result started
                  λ tracked. record_damage-IsSafe begun index f d d.own_id live tracked)
        | inr waits ↦ rw (timely, waits) safe
      ]
    ]

pub process_damage-IsSafe :
    (c : CombatEngine) (index : ℕ) (f : LedgerFact) (d : DamageFact)
    → IsNotHeld c d.own_id
    → IsTracked c
    → IsSafe c (process_damage c index f d)
unfolding process_damage
process_damage-IsSafe c index f d fresh h =
    settle-IsSafe c (decide (locate c f d) f d) index f d
      (decide-IsDecided c (locate c f d) f d (locate-IsLocated c f d h)) fresh

-- A damage fact does not get the id of a held encounter, should it start one.
abbrev pub IsFresh : CombatEngine → FactEvent → Type 0
IsFresh c (damage d) = IsNotHeld c d.own_id
IsFresh c event = Unit

-- The active encounter of every log exists and is not held: a fact that is processed keeps that,
-- changes no held encounter, if it is no damage whose own id is that of one, and changes no source.
pub process_fact-IsSafe :
    (c : CombatEngine) (f : LedgerFact)
    → IsFresh c f.event
    → IsTracked c
    → IsSafe c (process_fact c f)
unfolding process_fact
process_fact-IsSafe c f fresh h = by_event f.event fresh
  where
    pushed : CombatEngine
    pushed = record c { ledger = c.ledger ++ f ∷ [] }

    by_event :
        (event : FactEvent)
        → IsFresh c event
        → IsSafe c (elim event [
          | damage d ↦ process_damage pushed (length c.ledger) f d
          | attempt attacker defender ↦ process_attempt pushed (length c.ledger) f attacker defender
          | slain target ↦ process_slain pushed (length c.ledger) f target
        ])
    by_event (damage d) is_fresh = process_damage-IsSafe pushed (length c.ledger) f d is_fresh h
    by_event (attempt attacker defender) is_fresh =
        process_attempt-IsSafe pushed (length c.ledger) f attacker defender h
    by_event (slain target) is_fresh = process_slain-IsSafe pushed (length c.ledger) f target h
