-- ===== src/Triggers/Profiles.antt =====
-- `active_for`: which triggers are active for a character.
pub mod Ascending
use stonemite.Base.Text.{Text, eq_ignore_ascii_case, is_empty}
use stonemite.Base.{
  ℕ, zero, suc, ◌+◌, Bool, true, false, ◌&&◌, ◌||◌, List, [], ◌∷◌, ◌++◌, any, keep, leb, ◌==◌,
  if◌then◌else◌,
}

pub record CharacterSelector : Type 0 where
  pub character : Text
  pub server : Text

pub data ProfileAssignment : Type 0 where
  global : ProfileAssignment
  characters : List CharacterSelector → ProfileAssignment

pub record CompiledProfile : Type 0 where
  pub assignment : ProfileAssignment
  pub members : List ℕ

-- `CharacterSelector.matches`.
unfoldable pub selects : Text → Text → CharacterSelector → Bool
unfolding eq_ignore_ascii_case is_empty
selects character server selector =
    eq_ignore_ascii_case selector.character character
    && (is_empty selector.server || eq_ignore_ascii_case selector.server server)

unfoldable pub applies : Text → Text → ProfileAssignment → Bool
unfolding selects
applies character server global = true
applies character server (characters selectors) = any (selects character server) selectors

unfoldable pub all_members : List CompiledProfile → List ℕ
all_members [] = []
all_members (profile ∷ rest) = profile.members ++ all_members rest

unfoldable pub sorted_insert : ℕ → List ℕ → List ℕ
sorted_insert n [] = n ∷ []
sorted_insert n (m ∷ ms) = let rest = sorted_insert n ms in if leb n m then n ∷ m ∷ ms else m ∷ rest

-- `sort_unstable`: equal numbers cannot be told apart.
unfoldable pub sort : List ℕ → List ℕ
unfolding sorted_insert
sort [] = []
sort (n ∷ ns) = sorted_insert n (sort ns)

unfoldable pub dedup : List ℕ → List ℕ
dedup [] = []
dedup (n ∷ []) = n ∷ []
dedup (n ∷ m ∷ ms) = let rest = dedup (m ∷ ms) in if n == m then rest else n ∷ rest

abbrev pub range_from : ℕ → ℕ → List ℕ
range_from n zero = []
range_from n (suc count) = n ∷ range_from (suc n) count

unfoldable pub active_for : ℕ → List CompiledProfile → Text → Text → List ℕ
unfolding applies all_members sort dedup
active_for count [] character server = range_from 0 count
active_for count (profile ∷ profiles) character server =
    dedup
      (sort (all_members (keep (λ p. applies character server p.assignment) (profile ∷ profiles))))
