-- ===== src/Encounters/Facts/Merge.antt =====
-- crates/eqcombat/src/engine.rs: `merge_encounters`.
use stonemite.Encounters.{active, TargetState, EncounterState, CombatEngine, with_members}
use stonemite.Sources.{later}
use stonemite.Base.Dict.{lookup, insert, map_values}
use stonemite.Base.{
  ℕ, min, max, ◌&&◌, Option, none, some, List, [], ◌∷◌, ◌++◌, ltb, leb, ◌==◌, if◌then◌else◌,
}
use stonemite.Base.Dict

abbrev pub merge_target : TargetState → TargetState → TargetState
merge_target current target = record {
  first_damage = min current.first_damage target.first_damage;
  last_damage = max current.last_damage target.last_damage;
  terminal = current.terminal && target.terminal;
  terminal_at = later current.terminal_at target.terminal_at;
}

abbrev pub merge_found : TargetState → Option TargetState → TargetState
merge_found target none = target
merge_found target (some current) = merge_target current target

unfoldable pub merge_targets :
    List (ℕ × TargetState) → List (ℕ × TargetState) → List (ℕ × TargetState)
merge_targets chosen [] = chosen
merge_targets chosen ((id, target) ∷ rest) =
    merge_targets (insert id (merge_found target (lookup id chosen)) chosen) rest

-- `BTreeMap::extend`.
abbrev pub extend : List (ℕ × ℕ) → List (ℕ × ℕ) → List (ℕ × ℕ)
extend chosen [] = chosen
extend chosen ((key, value) ∷ rest) = extend (insert key value chosen) rest

-- `sort_unstable` and `dedup`: each number once, in ascending order.
abbrev pub place : ℕ → List ℕ → List ℕ
place x [] = x ∷ []
place x (y ∷ ys) = if ltb x y then x ∷ y ∷ ys else if x == y then y ∷ ys else y ∷ place x ys

abbrev pub sorted : List ℕ → List ℕ
sorted [] = []
sorted (x ∷ xs) = place x (sorted xs)

unfoldable pub merged : EncounterState → EncounterState → EncounterState
unfolding with_members merge_targets
merged chosen other = record {
  server = chosen.server;
  phase = active;
  sources = with_members other.sources chosen.sources;
  source_continuity = extend chosen.source_continuity other.source_continuity;
  partial_sources = with_members other.partial_sources chosen.partial_sources;
  targets = merge_targets chosen.targets other.targets;
  facts = sorted (chosen.facts ++ other.facts);
  fingerprints = with_members other.fingerprints chosen.fingerprints;
  start_eq = min chosen.start_eq other.start_eq;
  end_eq = max chosen.end_eq other.end_eq;
  last_sustain_eq = max chosen.last_sustain_eq other.last_sustain_eq;
  start_receipt = min chosen.start_receipt other.start_receipt;
  last_sustain_receipt = max chosen.last_sustain_receipt other.last_sustain_receipt;
}

abbrev pub redirected : ℕ → ℕ → ℕ → ℕ
redirected chosen_id other_id id = if id == other_id then chosen_id else id

-- The end of `merge_encounters`, with what it finds under the lesser id and under the other.
abbrev pub merge_known :
    CombatEngine → ℕ → ℕ → Option EncounterState → Option EncounterState → CombatEngine × ℕ
merge_known c chosen_id other_id none other = (c, other_id)
merge_known c chosen_id other_id (some chosen) none = (c, chosen_id)
merge_known c chosen_id other_id (some chosen) (some other) = (
  record c {
    assignments = map_values (redirected chosen_id other_id) c.assignments;
    source_active = map_values (redirected chosen_id other_id) c.source_active;
    encounters = insert chosen_id (merged chosen other) (Dict.remove other_id c.encounters);
  },
  chosen_id,
)

unfoldable pub merge_encounters : CombatEngine → ℕ → ℕ → CombatEngine × ℕ
unfolding merged
merge_encounters c left right =
    let chosen_id = if leb left right then left else right in
    let other_id = if leb left right then right else left in
    if left == right
    then (c, left)
    else merge_known c chosen_id other_id (lookup chosen_id c.encounters)
        (lookup other_id c.encounters)
