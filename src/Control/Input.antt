-- ===== src/Control/Input.antt =====
-- The bounds on keys and on the windows that an action names.
use stonemite.Control.{
  all_inserted, key_stroke, unique_count, validate_window_numbers, max_keys_per_stroke,
  max_eq_target_windows,
}
use stonemite.Base.{
  ℕ, ◌≤◌, ◌≡◌, refl, Bool, true, not, ◌&&◌, is_some, List, [], ◌∷◌, length, all, any, contains,
  distinct, arith, leb, ◌==◌,
}

-- No key of the list is in `unique`.
abbrev pub unseen : List ℕ → List ℕ → Bool
unseen unique [] = true
unseen unique (key ∷ keys) = not (contains key unique) && unseen unique keys

unseen_cons :
    (u : ℕ) (unique keys : List ℕ)
    → unseen (u ∷ unique) keys ≡ (not (contains u keys) && unseen unique keys)
unseen_cons u unique [] = refl
unseen_cons u unique (key ∷ keys) = ground (arith, unseen_cons u unique keys)

all_inserted-distinct :
    (unique keys : List ℕ) → all_inserted unique keys ≡ (distinct keys && unseen unique keys)
unfolding all_inserted
all_inserted-distinct unique [] = refl
all_inserted-distinct unique (key ∷ keys) =
    ground (arith, all_inserted-distinct (key ∷ unique) keys, unseen_cons key unique keys)

unseen_nil : (keys : List ℕ) → unseen [] keys ≡ true
unseen_nil [] = refl
unseen_nil (key ∷ keys) = unseen_nil keys

-- A key stroke is made exactly of 1 to 8 distinct keys, held for 1 to 1000 ms, with a pause of at
-- most 1000 ms.
pub key_stroke_lem :
    (keys : List ℕ) (hold pause : ℕ)
    → is_some (key_stroke keys hold pause) ≡ (
        leb 1 (length keys)
        && leb (length keys) max_keys_per_stroke
        && distinct keys
        && leb 1 hold
        && leb hold 1000
        && leb pause 1000)
unfolding key_stroke
key_stroke_lem keys hold pause = ground (arith, all_inserted-distinct [] keys, unseen_nil keys)

unique_count-le : (numbers : List ℕ) → unique_count numbers ≤ length numbers
unfolding unique_count
unique_count-le [] = omega arith
unique_count-le (n ∷ numbers) = ground (arith, unique_count-le numbers)

unique_count-distinct :
    (numbers : List ℕ) → (unique_count numbers == length numbers) ≡ distinct numbers
unfolding unique_count
unique_count-distinct [] = refl
unique_count-distinct (n ∷ numbers) =
    ground (arith, unique_count-distinct numbers, unique_count-le numbers)

any-not :
    (numbers : List ℕ)
    → any (λ n. not (leb 1 n && leb n max_eq_target_windows)) numbers
      ≡ not (all (λ n. leb 1 n && leb n max_eq_target_windows) numbers)
any-not [] = refl
any-not (n ∷ numbers) = ground (arith, any-not numbers)

-- The windows that an action names are accepted exactly if they are 1 to 6 distinct numbers from 1
-- to 6.
pub validate_window_numbers_lem :
    (numbers : List ℕ)
    → validate_window_numbers numbers ≡ (
        leb 1 (length numbers)
        && leb (length numbers) max_eq_target_windows
        && distinct numbers
        && all (λ n. leb 1 n && leb n max_eq_target_windows) numbers)
unfolding validate_window_numbers
validate_window_numbers_lem numbers = ground (arith, unique_count-distinct numbers, any-not numbers)
