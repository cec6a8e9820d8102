-- ===== src/Base/TextMap.antt =====
-- Maps with texts as keys, as association lists. The order of the entries is never observed.
use mathlib.Core.Path.{◌≡◌, refl}
use mathlib.Core.List.{List, [], ◌∷◌}
use mathlib.Core.Option.{Option, none, some}
use native.Mathlib.Omega.{arith}
use stonemite.Base.Tests.{if◌then◌else◌}
use stonemite.Base.Text.{Text, same_text, same_text_join, same_text_agree}

module _ {ℓ} {V : Type ℓ} where
  unfoldable pub find : Text → List (Text × V) → Option V
  unfolding same_text
  find key [] = none
  find key ((at, value) ∷ rest) = if same_text at key then some value else find key rest

  unfoldable pub erase : Text → List (Text × V) → List (Text × V)
  unfolding same_text
  erase key [] = []
  erase key ((at, value) ∷ rest) =
      if same_text at key then erase key rest else (at, value) ∷ erase key rest

  unfoldable pub put : Text → V → List (Text × V) → List (Text × V)
  unfolding same_text
  put key value [] = (key, value) ∷ []
  put key value ((at, old) ∷ rest) =
      if same_text at key then (key, value) ∷ rest else (at, old) ∷ put key value rest

  pub find-erase :
      (key other : Text) (m : List (Text × V))
      → find other (erase key m) ≡ (if same_text key other then none else find other m)
  unfolding find erase
  find-erase key other [] = ground arith
  find-erase key other ((at, value) ∷ rest) =
      ground (
        arith,
        same_text_join at key other,
        same_text_agree at key other,
        find-erase key other rest,
      )

  pub find-put :
      (key other : Text) (value : V) (m : List (Text × V))
      → find other (put key value m) ≡ (if same_text key other then some value else find other m)
  unfolding find put
  find-put key other value [] = refl
  find-put key other value ((at, old) ∷ rest) = ground (
    arith,
    same_text_join at key other,
    same_text_agree at key other,
    find-put key other value rest,
  )
