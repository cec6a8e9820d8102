-- ===== src/Triggers/Profiles/Ascending.antt =====
-- The order of the active triggers, and which they are.
use stonemite.Triggers.Profiles.{
  CompiledProfile, applies, all_members, sorted_insert, sort, dedup, active_for,
}
use stonemite.Base.Text.{Text}
use stonemite.Base.{
  ℕ, ◌≡◌, refl, ap, ◌∙◌, Bool, true, ◌&&◌, ◌||◌, List, [], ◌∷◌, ◌++◌, any, keep, contains, ltb, leb,
  ◌==◌, arith,
}

-- Each number is below the next.
abbrev pub is_ascending : List ℕ → Bool
is_ascending [] = true
is_ascending (n ∷ []) = true
is_ascending (n ∷ m ∷ ms) = ltb n m && is_ascending (m ∷ ms)

abbrev is_sorted : List ℕ → Bool
is_sorted [] = true
is_sorted (n ∷ []) = true
is_sorted (n ∷ m ∷ ms) = leb n m && is_sorted (m ∷ ms)

contains-sorted_insert :
    (k n : ℕ) (ns : List ℕ) → contains k (sorted_insert n ns) ≡ (n == k || contains k ns)
unfolding sorted_insert
contains-sorted_insert k n [] = refl
contains-sorted_insert k n (m ∷ ms) = ground (arith, contains-sorted_insert k n ms)

contains-sort : (k : ℕ) (ns : List ℕ) → contains k (sort ns) ≡ contains k ns
unfolding sort
contains-sort k [] = refl
contains-sort k (n ∷ ns) =
    contains-sorted_insert k n (sort ns) ∙ ap (λ b. n == k || b) (contains-sort k ns)

contains-dedup : (k : ℕ) (ns : List ℕ) → contains k (dedup ns) ≡ contains k ns
unfolding dedup
contains-dedup k [] = refl
contains-dedup k (n ∷ []) = refl
contains-dedup k (n ∷ m ∷ ms) = ground (arith, contains-dedup k (m ∷ ms))

sorted_insert-is_sorted :
    (n : ℕ) (ns : List ℕ) → is_sorted ns ≡ true → is_sorted (sorted_insert n ns) ≡ true
unfolding sorted_insert
sorted_insert-is_sorted n [] h = refl
sorted_insert-is_sorted n (m ∷ []) h = ground arith
sorted_insert-is_sorted n (m ∷ k ∷ ks) h = ground (arith, sorted_insert-is_sorted n (k ∷ ks))

sort-is_sorted : (ns : List ℕ) → is_sorted (sort ns) ≡ true
unfolding sort
sort-is_sorted [] = refl
sort-is_sorted (n ∷ ns) = sorted_insert-is_sorted n (sort ns) (sort-is_sorted ns)

-- The head of a deduplicated list is the head of the list.
abbrev starts_below : ℕ → List ℕ → Bool
starts_below n [] = true
starts_below n (m ∷ ms) = ltb n m

dedup_starts : (n m : ℕ) (ms : List ℕ) → starts_below n (dedup (m ∷ ms)) ≡ ltb n m
unfolding dedup
dedup_starts n m [] = refl
dedup_starts n m (k ∷ ks) = ground (arith, dedup_starts n k ks)

follows :
    (n : ℕ) (ms : List ℕ)
    → starts_below n ms ≡ true
    → is_ascending ms ≡ true
    → is_ascending (n ∷ ms) ≡ true
follows n [] h k = refl
follows n (m ∷ ms) h k = ground arith

dedup-is_ascending : (ns : List ℕ) → is_sorted ns ≡ true → is_ascending (dedup ns) ≡ true
unfolding dedup
dedup-is_ascending [] h = refl
dedup-is_ascending (n ∷ []) h = refl
dedup-is_ascending (n ∷ m ∷ ms) h =
    ground (arith, dedup-is_ascending (m ∷ ms), dedup_starts n m ms, follows n (dedup (m ∷ ms)))

contains_join : (k : ℕ) (xs ys : List ℕ) → contains k (xs ++ ys) ≡ (contains k xs || contains k ys)
contains_join k [] ys = refl
contains_join k (x ∷ xs) ys = ground (arith, contains_join k xs ys)

contains-all_members :
    (k : ℕ) (p : CompiledProfile → Bool) (profiles : List CompiledProfile)
    → contains k (all_members (keep p profiles)) ≡ any (λ q. p q && contains k q.members) profiles
unfolding all_members
contains-all_members k p [] = refl
contains-all_members k p (q ∷ qs) =
    ground (arith, contains-all_members k p qs, contains_join k q.members (all_members (keep p qs)))

-- With profiles, the triggers that are active for a character ascend, so none stands twice, and a
-- trigger is among them just if a profile that applies to the character has it.
pub active_for-is_ascending :
    (count : ℕ) (profile : CompiledProfile) (profiles : List CompiledProfile)
    (character server : Text)
    → (is_ascending (active_for count (profile ∷ profiles) character server) ≡ true)
      × ((k : ℕ)
          → contains k (active_for count (profile ∷ profiles) character server)
            ≡ any
                (λ p. applies character server p.assignment && contains k p.members)
                (profile ∷ profiles))
unfolding active_for
active_for-is_ascending count profile profiles character server =
    let members =
      all_members (keep (λ p. applies character server p.assignment) (profile ∷ profiles)) in
    (
      dedup-is_ascending (sort members) (sort-is_sorted members),
      λ k.
          contains-dedup k (sort members)
          ∙ contains-sort k members
          ∙ contains-all_members k (λ p. applies character server p.assignment)
              (profile ∷ profiles),
    )
