-- ===== src/Triggers/Substitute/Enough.antt =====
-- The fuel of `replace_code`.
use stonemite.Triggers.Substitute.{behind_prefix, find_code, replace_loop, replaced}
use stonemite.Base.Text.{Text}
use stonemite.Base.{
  ℕ, zero, suc, ◌≤◌, ◌≡◌, refl, ap, Option, none, some, [], ◌∷◌, ◌++◌, length, arith,
}

abbrev rest_length : Option Text → ℕ
rest_length none = 0
rest_length (some rest) = length rest

abbrev behind_length : Option (Text × Text) → ℕ
behind_length none = 0
behind_length (some (before, behind)) = length behind

behind_prefix_le : (code text : Text) → rest_length (behind_prefix code text) ≤ length text
unfolding behind_prefix
behind_prefix_le [] text = omega arith
behind_prefix_le (c ∷ cs) [] = omega arith
behind_prefix_le (c ∷ cs) (d ∷ ds) = ground (arith, behind_prefix_le cs ds)

-- Behind a code that is not empty, less than the text is left.
behind_prefix_lt :
    (c d : ℕ) (cs ds : Text) → rest_length (behind_prefix (c ∷ cs) (d ∷ ds)) ≤ length ds
unfolding behind_prefix
behind_prefix_lt c d cs ds = ground (arith, behind_prefix_le cs ds)

find_code_lt : (c d : ℕ) (cs ds : Text) → behind_length (find_code (c ∷ cs) (d ∷ ds)) ≤ length ds
unfolding find_code
find_code_lt c d cs [] = ground (arith, behind_prefix_lt c d cs [])
find_code_lt c d cs (e ∷ es) =
    ground (arith, behind_prefix_lt c d cs (e ∷ es), find_code_lt c e cs es)

replaced_alike :
    (found : Option (Text × Text)) (n : ℕ) (rest value : Text) (loop other : Text → Text)
    → behind_length found ≤ n
    → ((t : Text) → length t ≤ n → loop t ≡ other t)
    → replaced found rest value loop ≡ replaced found rest value other
replaced_alike none n rest value loop other h same = refl
replaced_alike (some (before, behind)) n rest value loop other h same =
    ap (λ t. before ++ (value ++ t)) (same behind h)

-- Fuel beyond the length of the text changes nothing of what a code is replaced by.
pub replace_loop_stable :
    (f g c : ℕ) (text cs value : Text)
    → length text ≤ f
    → length text ≤ g
    → replace_loop f text (c ∷ cs) value ≡ replace_loop g text (c ∷ cs) value
unfolding replace_loop find_code
replace_loop_stable zero zero c [] cs value h k = refl
replace_loop_stable zero (suc g) c [] cs value h k = refl
replace_loop_stable (suc f) zero c [] cs value h k = refl
replace_loop_stable (suc f) (suc g) c [] cs value h k = refl
replace_loop_stable zero g c (d ∷ ds) cs value h k = absurd (omega (arith, h))
replace_loop_stable (suc f) zero c (d ∷ ds) cs value h k = absurd (omega (arith, k))
replace_loop_stable (suc f) (suc g) c (d ∷ ds) cs value h k =
    replaced_alike (find_code (c ∷ cs) (d ∷ ds)) (length ds) (d ∷ ds) value
      (λ behind. replace_loop f behind (c ∷ cs) value)
      (λ behind. replace_loop g behind (c ∷ cs) value) (find_code_lt c d cs ds)
      (λ t short.
        replace_loop_stable f g c t cs value (omega (arith, short, h)) (omega (arith, short, k)))
