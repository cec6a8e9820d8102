-- ===== src/Base/Arrays.antt =====
-- Fixed arrays, and families by an index, as functions.
use Prim.Native.Nat.{ℕ}
use stonemite.Base.Tests.{if◌then◌else◌, ◌==◌}

abbrev pub Array : Type 0
Array = ℕ → ℕ

abbrev pub store {ℓ} : {A : Type ℓ} → (ℕ → A) → ℕ → A → ℕ → A
store a i v j = if j == i then v else a j
