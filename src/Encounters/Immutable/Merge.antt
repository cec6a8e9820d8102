-- ===== src/Encounters/Immutable/Merge.antt =====
-- What a merge does to the held encounters.
use stonemite.Encounters.Immutable.{IsSafe, IsSafe-refl, IsOpen}
use stonemite.Encounters.Phases.Live.{is_live, IsTracked, All-weaken}
use stonemite.Encounters.Facts.Merge.{merged, merge_known, merge_encounters, redirected}
use stonemite.Encounters.{is_held, EncounterState, CombatEngine}
use stonemite.Base.Dict.{lookup, insert, map_values, remove, lookup-insert, lookup-remove}
use stonemite.Base.{
  ℕ, ◌≡◌, refl, ap, ◌∙◌, sym, subst, Bool, true, false, not, Option, none, some, List, [], ◌∷◌, All,
  arith, ◌==◌, ==_ne, ==_refl, ℕ_discrete, Bool-cases, inl, inr, leb, if◌then◌else◌,
}

-- The id is not that of a held encounter.
abbrev pub is_held_at : Option EncounterState → Bool
is_held_at none = false
is_held_at (some e) = is_held e.phase

abbrev pub IsNotHeld : CombatEngine → ℕ → Type 0
IsNotHeld c id = is_held_at (lookup id c.encounters) ≡ false

pub inserted_live :
    (b : Bool) (e : EncounterState) (o : Option EncounterState)
    → is_held e.phase ≡ false
    → is_live o ≡ true
    → is_live (if b then some e else o) ≡ true
inserted_live true e o h live = ground (arith, h)
inserted_live false e o h live = live

pub live_of :
    (o : Option EncounterState) (e : EncounterState)
    → is_held_at o ≡ false
    → o ≡ some e
    → is_live o ≡ true
live_of none e h q = absurd (cc (q))
live_of (some e') e h q = ground (arith, h)

-- `merge_encounters`, of two open encounters.
lookup-merged :
    (chosen_id other_id k : ℕ) (m : EncounterState) (encounters : List (ℕ × EncounterState))
    → lookup k (insert chosen_id m (remove other_id encounters))
      ≡ (if chosen_id == k then some m else if other_id == k then none else lookup k encounters)
lookup-merged chosen_id other_id k m encounters =
    lookup-insert chosen_id k m (remove other_id encounters)
    ∙ ap (λ o. if chosen_id == k then some m else o) (lookup-remove other_id k encounters)

redirected_live :
    (chosen_id other_id at : ℕ) (m : EncounterState) (encounters : List (ℕ × EncounterState))
    → is_held m.phase ≡ false
    → is_live (lookup at encounters) ≡ true
    → is_live (
        lookup (redirected chosen_id other_id at) (insert chosen_id m (remove other_id encounters)))
      ≡ true
redirected_live chosen_id other_id at m encounters open_phase live =
    rw (lookup-merged chosen_id other_id (redirected chosen_id other_id at) m encounters)
      (elim (ℕ_discrete at other_id) [
        | yes same ↦ rw (same, ==_refl other_id, ==_refl chosen_id) (rw open_phase refl)
        | no apart ↦
            rw (==_ne at other_id apart, ==_ne other_id at (λ q. apart (sym q)))
              (inserted_live (chosen_id == at) m (lookup at encounters) open_phase live)
      ])

map_values-All :
    (P : ℕ → Type 0) (f : ℕ → ℕ) (entries : List (ℕ × ℕ))
    → All (λ entry. P (f (entry.1))) entries
    → All (λ entry. P (entry.1)) (map_values f entries)
unfolding map_values
map_values-All P f [] h = tt
map_values-All P f (entry ∷ rest) (h, hs) = (h, map_values-All P f rest hs)

held_differs :
    (id k : ℕ) (e : EncounterState) (encounters : List (ℕ × EncounterState))
    → is_live (lookup id encounters) ≡ true
    → lookup k encounters ≡ some e
    → is_held e.phase ≡ true
    → (id == k) ≡ false
held_differs id k e encounters live found at = elim (ℕ_discrete id k) [
  | yes same ↦
      let live_k : is_live (lookup k encounters) ≡ true =
        subst (λ i. is_live (lookup i encounters) ≡ true) same live in
      let live_e : not (is_held e.phase) ≡ true = sym (ap is_live found) ∙ live_k in
      absurd (cc (sym live_e ∙ ap not at))
  | no apart ↦ ==_ne id k apart
]

merge_known-IsSafe :
    (c : CombatEngine) (chosen_id other_id : ℕ) (chosen other : EncounterState)
    → IsOpen c chosen_id
    → IsOpen c other_id
    → IsTracked c
    → IsSafe c (merge_known c chosen_id other_id (some chosen) (some other)).0
      × IsOpen (merge_known c chosen_id other_id (some chosen) (some other)).0 chosen_id
unfolding merged
merge_known-IsSafe c chosen_id other_id chosen other chosen_live other_live tracked =
    let m = merged chosen other in
    (
      (
        map_values-All _ (redirected chosen_id other_id) c.source_active (
            All-weaken c.source_active
              (λ entry live. redirected_live chosen_id other_id (entry.1) m c.encounters refl live)
              tracked),
        (
          λ k e found at.
              lookup-merged chosen_id other_id k m c.encounters
              ∙ rw
                  (
                    held_differs chosen_id k e c.encounters chosen_live found at,
                    held_differs other_id k e c.encounters other_live found at,
                  )
                  found,
          refl,
        ),
      ),
      ap is_live (lookup-merged chosen_id other_id chosen_id m c.encounters)
          ∙ rw (==_refl chosen_id) refl,
    )

live_found : (o : Option EncounterState) → is_live o ≡ true → (e : EncounterState) × (o ≡ some e)
live_found none h = absurd (cc (h))
live_found (some e) h = (e, refl)

pub merge-IsSafe :
    (c : CombatEngine) (left right : ℕ)
    → IsOpen c left
    → IsOpen c right
    → IsTracked c
    → IsSafe c (merge_encounters c left right).0
      × IsOpen (merge_encounters c left right).0 (merge_encounters c left right).1
unfolding merge_encounters
merge-IsSafe c left right left_live right_live tracked =
    let (l, left_found) = live_found (lookup left c.encounters) left_live in
    let (r, right_found) = live_found (lookup right c.encounters) right_live in
    elim (Bool-cases (left == right)) [
      | inl same ↦ rw (merge_encounters, same) (IsSafe-refl c tracked, left_live)
      | inr differ ↦ elim (Bool-cases (leb left right)) [
        | inl q ↦
            rw (merge_encounters, differ, q, left_found, right_found)
              (merge_known-IsSafe c left right l r left_live right_live tracked)
        | inr q ↦
            rw (merge_encounters, differ, q, left_found, right_found)
              (merge_known-IsSafe c right left r l right_live left_live tracked)
      ]
    ]

merged_not_held :
    (a b : Bool) (m : EncounterState) (o : Option EncounterState)
    → is_held m.phase ≡ false
    → is_held_at o ≡ false
    → is_held_at (if a then some m else if b then none else o) ≡ false
merged_not_held true b m o open_phase h = open_phase
merged_not_held false true m o open_phase h = refl
merged_not_held false false m o open_phase h = h

pub merge-IsNotHeld :
    (c : CombatEngine) (left right k : ℕ)
    → IsOpen c left
    → IsOpen c right
    → IsNotHeld c k
    → IsNotHeld (merge_encounters c left right).0 k
unfolding merge_encounters merged
merge-IsNotHeld c left right k left_live right_live h =
    let (l, left_found) = live_found (lookup left c.encounters) left_live in
    let (r, right_found) = live_found (lookup right c.encounters) right_live in
    elim (Bool-cases (left == right)) [
      | inl same ↦ rw (merge_encounters, same) h
      | inr differ ↦ elim (Bool-cases (leb left right)) [
        | inl q ↦
            rw (merge_encounters, differ, q, left_found, right_found)
              (rw (lookup-merged left right k (merged l r) c.encounters)
                (merged_not_held (left == k) (right == k) (merged l r) _ refl h))
        | inr q ↦
            rw (merge_encounters, differ, q, left_found, right_found)
              (rw (lookup-merged right left k (merged r l) c.encounters)
                (merged_not_held (right == k) (left == k) (merged r l) _ refl h))
      ]
    ]
