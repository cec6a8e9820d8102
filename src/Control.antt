-- ===== src/Control.antt =====
-- crates/trushar/src/control.rs: the public ids of clients, the published state, and the bounds on
-- the input that a remote controller may send. A `ClientId` is the number that its text shows.
pub mod Ids
pub mod Input
pub mod Revisions
mod Tests
use stonemite.Base.Dict.{lookup, insert}
use stonemite.Base.{
  ℕ, zero, suc, ◌+◌, min, Bool, true, false, not, ◌&&◌, ◌||◌, Option, none, some, List, [], ◌∷◌,
  ◌++◌, length, drop, any, all, contains, ltb, leb, ◌==◌, if◌then◌else◌,
}

-- 2 ^ 64 - 1
abbrev pub u64_max : ℕ
u64_max = 18446744073709551615

abbrev pub max_retired : ℕ
max_retired = 256

pub record SnapshotMapper : Type 0 where
  pub ids : List (ℕ × ℕ)
  pub retired_ids : List ℕ
  pub next_id : ℕ

-- The ids of the keys that are live, and those that are not, in the order of the map.
unfoldable pub live_ids : List ℕ → List (ℕ × ℕ) → List (ℕ × ℕ)
live_ids live [] = []
live_ids live ((key, id) ∷ ids) =
    if contains key live then (key, id) ∷ live_ids live ids else live_ids live ids

unfoldable pub dead_ids : List ℕ → List (ℕ × ℕ) → List ℕ
dead_ids live [] = []
dead_ids live ((key, id) ∷ ids) =
    if contains key live then dead_ids live ids else id ∷ dead_ids live ids

abbrev pub bounded : List ℕ → List ℕ
bounded retired = if ltb max_retired (length retired) then drop 1 retired else retired

-- `push_back`, and `pop_front` beyond 256.
unfoldable pub retire_ids : List ℕ → List ℕ → List ℕ
retire_ids retired [] = retired
retire_ids retired (id ∷ ids) = retire_ids (bounded (retired ++ id ∷ [])) ids

-- `entry(key).or_insert_with(...)` for each source in turn.
unfoldable pub assign_ids : List ℕ → List (ℕ × ℕ) → ℕ → List (ℕ × ℕ) × ℕ
assign_ids [] ids next_id = (ids, next_id)
assign_ids (key ∷ keys) ids next_id = elim (lookup key ids) [
  | some id ↦ assign_ids keys ids next_id
  | none ↦ let fresh = min (next_id + 1) u64_max in assign_ids keys (insert key fresh ids) fresh
]

-- `SnapshotMapper::map`, as far as it goes to the ids; the sources are given by their keys.
unfoldable pub map_ids : SnapshotMapper → List ℕ → SnapshotMapper
unfolding live_ids dead_ids retire_ids assign_ids
map_ids m keys =
    let r = assign_ids keys (live_ids keys m.ids) m.next_id in
    record {
      ids = r.0;
      retired_ids = retire_ids m.retired_ids (dead_ids keys m.ids);
      next_id = r.1;
    }

-- What `StateHub` publishes, for states of any type that are compared by `same`.
pub record StateSnapshot (D : Type 0) : Type 0 where
  pub revision : ℕ
  pub state : D

unfoldable pub publish : {D : Type 0} → (D → D → Bool) → StateSnapshot D → D → StateSnapshot D
publish same s d =
    if same s.state d then s else record { revision = min (s.revision + 1) u64_max; state = d }

abbrev pub max_keys_per_stroke : ℕ
max_keys_per_stroke = 8

abbrev pub max_key_strokes : ℕ
max_key_strokes = 64

abbrev pub max_input_duration_ms : ℕ
max_input_duration_ms = 15000

abbrev pub max_eq_target_windows : ℕ
max_eq_target_windows = 6

-- A key is a number, for its name.
pub record KeyStroke : Type 0 where
  pub keys : List ℕ
  pub hold_ms : ℕ
  pub pause_ms : ℕ

-- `keys.iter().all(|key| unique.insert(key.clone()))`, with what `unique` holds.
unfoldable pub all_inserted : List ℕ → List ℕ → Bool
all_inserted unique [] = true
all_inserted unique (key ∷ keys) =
    let rest = all_inserted (key ∷ unique) keys in if contains key unique then false else rest

-- `KeyStroke::new`; `none` is `ErrorCode::InvalidArgument`.
unfoldable pub key_stroke : List ℕ → ℕ → ℕ → Option KeyStroke
unfolding all_inserted
key_stroke keys hold_ms pause_ms =
    if length keys == 0 || ltb max_keys_per_stroke (length keys)
    then none
    else if hold_ms == 0 || ltb 1000 hold_ms || ltb 1000 pause_ms
    then none
    else if not (all_inserted [] keys)
    then none
    else some (record { keys = keys; hold_ms = hold_ms; pause_ms = pause_ms })

unfoldable pub duration_of : List KeyStroke → ℕ
duration_of [] = 0
duration_of (stroke ∷ strokes) = stroke.hold_ms + stroke.pause_ms + duration_of strokes

-- Whether the strokes are accepted.
unfoldable pub validate_key_strokes : List KeyStroke → Bool
unfolding duration_of
validate_key_strokes strokes =
    if length strokes == 0 || ltb max_key_strokes (length strokes)
    then false
    else if ltb max_input_duration_ms (duration_of strokes)
    then false
    else true

-- The size of `window_numbers.iter().copied().collect::<HashSet<_>>()`.
unfoldable pub unique_count : List ℕ → ℕ
unique_count [] = 0
unique_count (number ∷ numbers) = (if contains number numbers then 0 else 1) + unique_count numbers

-- `EqActionTargets::validate` of window numbers.
unfoldable pub validate_window_numbers : List ℕ → Bool
unfolding unique_count
validate_window_numbers numbers = not (
    length numbers == 0
    || ltb max_eq_target_windows (length numbers)
    || not (unique_count numbers == length numbers)
    || any (λ number. not (leb 1 number && leb number max_eq_target_windows)) numbers)
