-- ===== src/Base/Dict.antt =====
-- Maps with numbers as keys, as association lists. The order of the entries is never observed.
use Prim.Native.Nat.{ℕ}
use mathlib.Core.Path.{◌≡◌, refl}
use mathlib.Core.Bool.{Bool, false, ◌||◌}
use mathlib.Core.List.{List, [], ◌∷◌}
use mathlib.Core.Option
use mathlib.Core.Option.{Option, none, some}
use native.Mathlib.Omega.{arith}
use stonemite.Base.Tests.{if◌then◌else◌, ◌==◌}

module _ {ℓ} {V : Type ℓ} where
  unfoldable pub any_value : (V → Bool) → List (ℕ × V) → Bool
  any_value p [] = false
  any_value p ((_, value) ∷ rest) = p value || any_value p rest

  unfoldable pub lookup : ℕ → List (ℕ × V) → Option V
  lookup key [] = none
  lookup key ((at, value) ∷ rest) = if at == key then some value else lookup key rest

  unfoldable pub map_values : (V → V) → List (ℕ × V) → List (ℕ × V)
  map_values f [] = []
  map_values f ((at, value) ∷ rest) = (at, f value) ∷ map_values f rest

  unfoldable pub remove : ℕ → List (ℕ × V) → List (ℕ × V)
  remove key [] = []
  remove key ((at, value) ∷ rest) =
      if at == key then remove key rest else (at, value) ∷ remove key rest

  pub lookup-remove :
      (key other : ℕ) (entries : List (ℕ × V))
      → lookup other (remove key entries) ≡ (if key == other then none else lookup other entries)
  unfolding lookup remove
  lookup-remove key other [] = ground arith
  lookup-remove key other ((at, value) ∷ rest) = ground (arith, lookup-remove key other rest)

  unfoldable pub insert : ℕ → V → List (ℕ × V) → List (ℕ × V)
  insert key value [] = (key, value) ∷ []
  insert key value ((at, old) ∷ rest) =
      if at == key then (key, value) ∷ rest else (at, old) ∷ insert key value rest

  pub lookup-insert :
      (key other : ℕ) (value : V) (entries : List (ℕ × V))
      → lookup other (insert key value entries)
        ≡ (if key == other then some value else lookup other entries)
  unfolding lookup insert
  lookup-insert key other value [] = refl
  lookup-insert key other value ((at, old) ∷ rest) =
      ground (arith, lookup-insert key other value rest)

  pub lookup-map_values :
      (f : V → V) (entries : List (ℕ × V)) (key : ℕ)
      → lookup key (map_values f entries) ≡ Option.map f (lookup key entries)
  unfolding lookup map_values
  lookup-map_values f [] key = refl
  lookup-map_values f ((at, value) ∷ rest) key = ground (arith, lookup-map_values f rest key)
