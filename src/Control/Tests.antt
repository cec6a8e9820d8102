-- ===== src/Control/Tests.antt =====
-- The theorems of the remote control at concrete clients, states and keys.
use stonemite.Control.{SnapshotMapper, map_ids, StateSnapshot, publish, live_ids, assign_ids}
use stonemite.Control.Ids.{is_sound, map_ids-is_sound, map_ids-fresh}
use stonemite.Control.Revisions.{publish_all, revision_names_state}
use stonemite.Base.Dict.{lookup, insert}
use stonemite.Base.{ℕ, ◌<◌, ◌≡◌, refl, Bool, true, some, none, [], ◌∷◌, arith, ◌==◌}

-- Clients 70 and 71 are loaded, and client 69 is gone.
abbrev mapper : SnapshotMapper
mapper = record { ids = (70, 2) ∷ (71, 3) ∷ []; retired_ids = 1 ∷ []; next_id = 3 }

-- Client 70 goes, and client 69 is back.
map_ids-is_sound_example : is_sound (map_ids mapper (71 ∷ 69 ∷ [])) ≡ true
map_ids-is_sound_example = map_ids-is_sound mapper (71 ∷ 69 ∷ []) refl (omega arith)

known : lookup 71 mapper.ids ≡ some 3
unfolding lookup
known = refl

unknown : lookup 69 mapper.ids ≡ none
unfolding lookup
unknown = refl

returned : lookup 69 (map_ids mapper (71 ∷ 69 ∷ [])).ids ≡ some 4
unfolding map_ids live_ids assign_ids lookup insert
returned = refl

map_ids-fresh_example : mapper.next_id < 4
map_ids-fresh_example = map_ids-fresh mapper (71 ∷ 69 ∷ []) 69 4 unknown returned (omega arith)

abbrev same : ℕ → ℕ → Bool
same a b = a == b

abbrev snapshot : StateSnapshot ℕ
snapshot = record { revision = 6; state = 40 }

unchanged : (publish_all same snapshot (40 ∷ 40 ∷ [])).revision ≡ snapshot.revision
unfolding publish_all publish
unchanged = refl

revision_names_state_example : publish_all same snapshot (40 ∷ 40 ∷ []) ≡ snapshot
revision_names_state_example =
    revision_names_state same snapshot (40 ∷ 40 ∷ []) (omega arith) unchanged
