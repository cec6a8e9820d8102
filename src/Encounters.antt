-- ===== src/Encounters.antt =====
-- crates/eqcombat/src/engine.rs: the life of an encounter, and how facts read from the logs reach
-- it. Ids (of encounters, sources, targets, participants, fingerprints and servers without their
-- case) are numbers, ordered as their texts; an `EqSecond` is as in `Sources`. A `BTreeSet` is a
-- list without repetitions. Snapshots, managed participants and diagnostics are left out.
pub mod Facts
pub mod Lifecycle
pub mod Run
pub mod Phases
pub mod Held
pub mod Deadlines
pub mod Tracked
pub mod Immutable
mod Tests
use stonemite.Base.Dict.{lookup, insert}
use stonemite.Sources.{Engine}
use stonemite.Base.{
  ℕ, ◌+◌, min, Bool, true, false, not, ◌&&◌, ◌==◌, Option, none, some, List, [], ◌∷◌, contains,
  if◌then◌else◌,
}

-- 2 ^ 64 - 1
abbrev pub u64_max : ℕ
u64_max = 18446744073709551615

abbrev pub saturating_add : ℕ → ℕ → ℕ
saturating_add a b = min (a + b) u64_max

-- `BTreeSet::insert` and `BTreeSet::extend`.
unfoldable pub with_member : ℕ → List ℕ → List ℕ
with_member x xs = if contains x xs then xs else x ∷ xs

unfoldable pub with_members : List ℕ → List ℕ → List ℕ
unfolding with_member
with_members [] ys = ys
with_members (x ∷ xs) ys = with_member x (with_members xs ys)

pub data EndReason : Type 0 where
  all_targets_terminal inactivity : EndReason

pub data PhaseState : Type 0 where
  active : PhaseState
  ending : EndReason → (entered_at cutoff : ℕ) → (closure_sources : List ℕ) → PhaseState
  held : EndReason → (until : ℕ) → PhaseState

abbrev pub is_active_state : PhaseState → Bool
is_active_state active = true
is_active_state p = false

abbrev pub is_held : PhaseState → Bool
is_held (held reason until) = true
is_held p = false

pub record TargetState : Type 0 where
  pub terminal : Bool
  pub first_damage : ℕ
  pub last_damage : ℕ
  pub terminal_at : Option ℕ

pub record EncounterState : Type 0 where
  pub server : ℕ
  pub phase : PhaseState
  pub sources : List ℕ
  pub source_continuity : List (ℕ × ℕ)
  pub partial_sources : List ℕ
  pub targets : List (ℕ × TargetState)
  pub facts : List ℕ
  pub fingerprints : List ℕ
  pub start_eq : ℕ
  pub end_eq : ℕ
  pub last_sustain_eq : ℕ
  pub start_receipt : ℕ
  pub last_sustain_receipt : ℕ

-- A damage event with its names resolved: the target, the participant that is credited, whether
-- the engine knows the attacker, the credited one and the defender as players, whether the
-- attacker's name may be a player's, and the id that an encounter that it starts gets.
pub record DamageFact : Type 0 where
  pub amount : ℕ
  pub is_hit : Bool
  pub participant : ℕ
  pub defender : ℕ
  pub attacker_verified : Bool
  pub participant_verified : Bool
  pub defender_is_player : Bool
  pub attacker_may_be_player : Bool
  pub target : ℕ
  pub fingerprint : ℕ
  pub own_id : ℕ

pub data FactEvent : Type 0 where
  damage : DamageFact → FactEvent
  attempt : (attacker defender : ℕ) → FactEvent
  slain : (slain_target : ℕ) → FactEvent

pub record LedgerFact : Type 0 where
  pub fact_source : ℕ
  pub fact_server : ℕ
  pub eq_time : ℕ
  pub receipt : ℕ
  pub event : FactEvent

pub record CombatPolicy : Type 0 where
  pub inactivity_ms : ℕ
  pub ending_grace_ms : ℕ
  pub held_ms : ℕ
  pub max_encounters : ℕ
  pub max_ledger_facts : ℕ

-- `CombatEngine`: `log_engine` is the part that `Sources` models.
pub record CombatEngine : Type 0 where
  pub policy : CombatPolicy
  pub log_engine : Engine
  pub ledger : List LedgerFact
  pub assignments : List (ℕ × ℕ)
  pub encounters : List (ℕ × EncounterState)
  pub source_active : List (ℕ × ℕ)

-- `if let Some(encounter) = self.encounters.get_mut(id)`.
unfoldable pub update_encounter :
    CombatEngine → ℕ → (EncounterState → EncounterState) → CombatEngine
update_encounter c id f = elim (lookup id c.encounters) [
  | none ↦ c
  | some e ↦ record c { encounters = insert id (f e) c.encounters }
]

unfoldable pub has_target : ℕ → EncounterState → Bool
has_target target e = elim (lookup target e.targets) [ none ↦ false | some t ↦ true ]

-- `self.encounters.get(&id).is_some_and(p)`.
abbrev pub encounter_satisfies : CombatEngine → ℕ → (EncounterState → Bool) → Bool
encounter_satisfies c id p = elim (lookup id c.encounters) [ none ↦ false | some e ↦ p e ]

-- The `find` over the encounters, which come by their ids: the least id of those that satisfy `p`.
abbrev pub lesser : ℕ → Option ℕ → Option ℕ
lesser id none = some id
lesser id (some other) = some (min id other)

unfoldable pub keys : List (ℕ × EncounterState) → List ℕ
keys [] = []
keys ((id, e) ∷ rest) = id ∷ keys rest

unfoldable pub find_among : (EncounterState → Bool) → CombatEngine → List ℕ → Option ℕ
find_among p c [] = none
find_among p c (id ∷ ids) =
    let rest = find_among p c ids in if encounter_satisfies c id p then lesser id rest else rest

unfoldable pub find_id : (EncounterState → Bool) → CombatEngine → Option ℕ
unfolding find_among keys
find_id p c = find_among p c (keys c.encounters)

-- `CombatPolicy::validate` on the bounds that are modelled; `CombatEngine::new` refuses others.
unfoldable pub validate : CombatEngine → Bool
validate c =
    not (c.policy.inactivity_ms == 0)
    && not (c.policy.ending_grace_ms == 0)
    && not (c.policy.held_ms == 0)
    && not (c.log_engine.stable_eof_ms == 0)
    && not (c.policy.max_encounters == 0)
    && not (c.policy.max_ledger_facts == 0)
    && not (c.log_engine.max_record_ids == 0)
