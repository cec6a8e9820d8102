-- ===== src/Control/Ids.antt =====
-- A client's id is its own as long as it is loaded, and nobody else's afterwards.
use stonemite.Control.{
  SnapshotMapper, live_ids, dead_ids, bounded, retire_ids, assign_ids, map_ids, u64_max,
}
use stonemite.Base.Dict.{lookup, insert, lookup-insert}
use stonemite.Base.{
  ℕ, suc, ◌+◌, min, ◌≤◌, ◌<◌, ◌≡◌, refl, Bool, true, false, not, ◌&&◌, ◌||◌, none, some, List, [],
  ◌∷◌, ◌++◌, length, drop, all, contains, distinct, contains-append, distinct-append, arith, leb,
  if◌then◌else◌, Option-cases, inl, inr,
}

abbrev pub values : List (ℕ × ℕ) → List ℕ
values [] = []
values ((key, id) ∷ ids) = id ∷ values ids

abbrev pub all_below : ℕ → List ℕ → Bool
all_below n ids = all (λ id. leb id n) ids

-- No number is in both lists.
abbrev pub apart : List ℕ → List ℕ → Bool
apart [] others = true
apart (id ∷ ids) others = not (contains id others) && apart ids others

-- The live ids are distinct, none of them is retired, and all come from the counter.
abbrev pub sound : List ℕ → List ℕ → ℕ → Bool
sound ids retired next_id =
    distinct ids && apart ids retired && all_below next_id ids && all_below next_id retired

abbrev pub is_sound : SnapshotMapper → Bool
is_sound m = sound (values m.ids) m.retired_ids m.next_id

absent_live :
    (x : ℕ) (live : List ℕ) (ids : List (ℕ × ℕ))
    → contains x (values ids) ≡ false
    → (contains x (values (live_ids live ids)) || contains x (dead_ids live ids)) ≡ false
unfolding live_ids dead_ids
absent_live x live [] h = refl
absent_live x live ((key, id) ∷ ids) h = ground (arith, absent_live x live ids)

apart_cons : (xs ys : List ℕ) (y : ℕ) → apart xs (y ∷ ys) ≡ (apart xs ys && not (contains y xs))
apart_cons [] ys y = refl
apart_cons (x ∷ xs) ys y = ground (arith, apart_cons xs ys y)

apart_append :
    (xs ys : List ℕ) (y : ℕ) → apart xs (ys ++ y ∷ []) ≡ (apart xs ys && not (contains y xs))
apart_append [] ys y = refl
apart_append (x ∷ xs) ys y = ground (arith, apart_append xs ys y, contains-append x y ys)

live_dead :
    (live : List ℕ) (ids : List (ℕ × ℕ))
    → distinct (values ids) ≡ true
    → (distinct (values (live_ids live ids))
        && apart (values (live_ids live ids)) (dead_ids live ids))
      ≡ true
unfolding live_ids dead_ids
live_dead live [] h = refl
live_dead live ((key, id) ∷ ids) h = ground (
  arith,
  live_dead live ids,
  absent_live id live ids,
  apart_cons (values (live_ids live ids)) (dead_ids live ids) id,
)

below_live :
    (n : ℕ) (live : List ℕ) (ids : List (ℕ × ℕ))
    → all_below n (values ids) ≡ true
    → (all_below n (values (live_ids live ids)) && all_below n (dead_ids live ids)) ≡ true
unfolding live_ids dead_ids
below_live n live [] h = refl
below_live n live ((key, id) ∷ ids) h = ground (arith, below_live n live ids)

apart_live :
    (live retired : List ℕ) (ids : List (ℕ × ℕ))
    → apart (values ids) retired ≡ true
    → apart (values (live_ids live ids)) retired ≡ true
unfolding live_ids
apart_live live retired [] h = refl
apart_live live retired ((key, id) ∷ ids) h = ground (arith, apart_live live retired ids)

apart-drop : (xs ys : List ℕ) → apart xs ys ≡ true → apart xs (drop 1 ys) ≡ true
apart-drop xs [] h = h
apart-drop xs (y ∷ ys) h = ground (arith, apart_cons xs ys y)

below_append : (n y : ℕ) (ys : List ℕ) → all_below n (ys ++ y ∷ []) ≡ (all_below n ys && leb y n)
below_append n y [] = ground arith
below_append n y (z ∷ ys) = ground (arith, below_append n y ys)

below_drop : (n : ℕ) (ys : List ℕ) → all_below n ys ≡ true → all_below n (drop 1 ys) ≡ true
below_drop n [] h = h
below_drop n (y ∷ ys) h = ground arith

retire_lem :
    (n : ℕ) (xs retired dead : List ℕ)
    → apart xs retired ≡ true
    → apart xs dead ≡ true
    → all_below n retired ≡ true
    → all_below n dead ≡ true
    → (apart xs (retire_ids retired dead) && all_below n (retire_ids retired dead)) ≡ true
unfolding retire_ids
retire_lem n xs retired [] a d b e = ground arith
retire_lem n xs retired (y ∷ dead) a d b e =
    let pushed = retired ++ y ∷ [] in
    ground (
      arith,
      retire_lem n xs (bounded pushed) dead,
      apart_append xs retired y,
      apart_cons xs dead y,
      apart-drop xs pushed,
      below_append n y retired,
      below_drop n pushed,
    )

fresh :
    (n : ℕ) (xs : List ℕ)
    → all_below n xs ≡ true
    → (contains (n + 1) xs ≡ false) × (all_below (n + 1) xs ≡ true)
fresh n [] h = (refl, refl)
fresh n (x ∷ xs) h = ground (arith, fresh n xs)

values-insert :
    (key id : ℕ) (ids : List (ℕ × ℕ))
    → lookup key ids ≡ none
    → values (insert key id ids) ≡ values ids ++ id ∷ []
unfolding lookup insert
values-insert key id [] h = refl
values-insert key id ((at, old) ∷ ids) h = ground (arith, values-insert key id ids)

apart_snoc :
    (xs ys : List ℕ) (x : ℕ) → apart (xs ++ x ∷ []) ys ≡ (apart xs ys && not (contains x ys))
apart_snoc [] ys x = ground arith
apart_snoc (z ∷ xs) ys x = ground (arith, apart_snoc xs ys x)

insert-sound :
    (key n : ℕ) (ids : List (ℕ × ℕ)) (retired : List ℕ)
    → sound (values ids) retired n ≡ true
    → lookup key ids ≡ none
    → sound (values (insert key (n + 1) ids)) retired (n + 1) ≡ true
insert-sound key n ids retired h new = rw (values-insert key (n + 1) ids new) (
    ground (
      arith,
      distinct-append (n + 1) (values ids),
      apart_snoc (values ids) retired (n + 1),
      below_append (n + 1) (n + 1) (values ids),
      fresh n (values ids),
      fresh n retired,
    ))

room : (n k : ℕ) → n + suc k ≤ u64_max → min (n + 1) u64_max ≡ n + 1
room n k h = omega arith

assign-new :
    (key : ℕ) (keys : List ℕ) (ids : List (ℕ × ℕ)) (n : ℕ)
    → lookup key ids ≡ none
    → assign_ids (key ∷ keys) ids n
      ≡ assign_ids keys (insert key (min (n + 1) u64_max) ids) (min (n + 1) u64_max)
unfolding assign_ids
assign-new key keys ids n new = rw (assign_ids, new) refl

assign-known :
    (key i : ℕ) (keys : List ℕ) (ids : List (ℕ × ℕ)) (n : ℕ)
    → lookup key ids ≡ some i
    → assign_ids (key ∷ keys) ids n ≡ assign_ids keys ids n
unfolding assign_ids
assign-known key i keys ids n known = rw (assign_ids, known) refl

assign-sound :
    (keys : List ℕ) (ids : List (ℕ × ℕ)) (retired : List ℕ) (n : ℕ)
    → sound (values ids) retired n ≡ true
    → n + length keys ≤ u64_max
    → sound (values (assign_ids keys ids n).0) retired (assign_ids keys ids n).1 ≡ true
unfolding assign_ids
assign-sound [] ids retired n h fits = h
assign-sound (key ∷ keys) ids retired n h fits = elim (Option-cases (lookup key ids)) [
  | inl new ↦
      rw (assign-new key keys ids n new, room n (length keys) fits)
        (assign-sound keys (insert key (n + 1) ids) retired (n + 1)
          (insert-sound key n ids retired h new) (omega (arith, fits)))
  | inr (id, known) ↦
      rw (assign-known key id keys ids n known)
        (assign-sound keys ids retired n h (omega (arith, fits)))
]

-- Ids stay sound: while the counter has room, whichever clients are loaded next, the live ids stay
-- distinct, none of them was retired, and all were given out by the counter.
pub map_ids-is_sound :
    (m : SnapshotMapper) (keys : List ℕ)
    → is_sound m ≡ true
    → m.next_id + length keys ≤ u64_max
    → is_sound (map_ids m keys) ≡ true
unfolding map_ids
map_ids-is_sound m keys h fits =
    let dead = dead_ids keys m.ids in
    let alive = live_ids keys m.ids in
    let swept : sound (values alive) (retire_ids m.retired_ids dead) m.next_id ≡ true = ground (
      arith,
      live_dead keys m.ids,
      below_live m.next_id keys m.ids,
      apart_live keys m.retired_ids m.ids,
      retire_lem m.next_id (values alive) m.retired_ids dead,
    ) in
    assign-sound keys alive (retire_ids m.retired_ids dead) m.next_id swept fits

lookup-live :
    (k : ℕ) (live : List ℕ) (ids : List (ℕ × ℕ))
    → lookup k (live_ids live ids) ≡ (if contains k live then lookup k ids else none)
unfolding lookup live_ids
lookup-live k live [] = ground arith
lookup-live k live ((key, id) ∷ ids) = ground (arith, lookup-live k live ids)

assign-stable :
    (k i : ℕ) (keys : List ℕ) (ids : List (ℕ × ℕ)) (n : ℕ)
    → lookup k ids ≡ some i
    → lookup k (assign_ids keys ids n).0 ≡ some i
unfolding assign_ids
assign-stable k i [] ids n h = h
assign-stable k i (key ∷ keys) ids n h = elim (Option-cases (lookup key ids)) [
  | inl new ↦
      let id = min (n + 1) u64_max in
      rw (assign-new key keys ids n new) (
        assign-stable k i keys (insert key id ids) id
          (ground (arith, new, h, lookup-insert key k id ids)))
  | inr (id, known) ↦ rw (assign-known key id keys ids n known) (assign-stable k i keys ids n h)
]

assign-fresh :
    (k i : ℕ) (keys : List ℕ) (ids : List (ℕ × ℕ)) (n : ℕ)
    → lookup k ids ≡ none
    → lookup k (assign_ids keys ids n).0 ≡ some i
    → n + length keys ≤ u64_max
    → n < i
unfolding assign_ids
assign-fresh k i [] ids n h found fits = ground (arith, h, found)
assign-fresh k i (key ∷ keys) ids n h found fits = elim (Option-cases (lookup key ids)) [
  | inl new ↦ ground (
    arith,
    assign-new key keys ids n new,
    room n (length keys) fits,
    lookup-insert key k (n + 1) ids,
    assign-fresh k i keys (insert key (n + 1) ids) (n + 1),
    assign-stable k (n + 1) keys (insert key (n + 1) ids) (n + 1),
  )
  | inr (id, known) ↦
      ground (arith, assign-known key id keys ids n known, assign-fresh k i keys ids n)
]

-- A client that stays loaded keeps its id.
pub map_ids-stable :
    (m : SnapshotMapper) (keys : List ℕ) (key id : ℕ)
    → lookup key m.ids ≡ some id
    → contains key keys ≡ true
    → lookup key (map_ids m keys).ids ≡ some id
unfolding map_ids
map_ids-stable m keys key id known loaded =
    assign-stable key id keys (live_ids keys m.ids) m.next_id
      (rw (lookup-live key keys m.ids, loaded) known)

-- A client that was not known gets an id beyond all that the counter has given out, while it has
-- room: an id never comes back, not even to a client that returns.
pub map_ids-fresh :
    (m : SnapshotMapper) (keys : List ℕ) (key id : ℕ)
    → lookup key m.ids ≡ none
    → lookup key (map_ids m keys).ids ≡ some id
    → m.next_id + length keys ≤ u64_max
    → m.next_id < id
unfolding map_ids
map_ids-fresh m keys key id unknown found fits =
    assign-fresh key id keys (live_ids keys m.ids) m.next_id
      (ground (arith, lookup-live key keys m.ids, unknown)) found fits
