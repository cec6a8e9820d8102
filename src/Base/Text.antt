-- ===== src/Base/Text.antt =====
-- Texts as lists of bytes or characters, and the comparison that ignores the case of ASCII letters.
use Prim.Native.Nat.{ℕ, ◌+◌}
use mathlib.Core.Path.{◌≡◌, refl, ap, sym, ◌∙◌, subst}
use native.Mathlib.Omega.{arith}
use mathlib.Core.Bool.{Bool, true, false, ◌&&◌}
use mathlib.Core.List.{List, [], ◌∷◌}
use stonemite.Base.Tests.{if◌then◌else◌, leb, ◌==◌}

abbrev pub Text : Type 0
Text = List ℕ

unfoldable pub to_ascii_lowercase : ℕ → ℕ
to_ascii_lowercase c = if leb b'A' c && leb c b'Z' then c + 32 else c

unfoldable pub eq_ignore_ascii_case : Text → Text → Bool
unfolding to_ascii_lowercase
eq_ignore_ascii_case [] [] = true
eq_ignore_ascii_case [] (d ∷ ds) = false
eq_ignore_ascii_case (c ∷ cs) [] = false
eq_ignore_ascii_case (c ∷ cs) (d ∷ ds) =
    to_ascii_lowercase c == to_ascii_lowercase d && eq_ignore_ascii_case cs ds

unfoldable pub same_text : Text → Text → Bool
same_text [] [] = true
same_text (c ∷ cs) (d ∷ ds) = c == d && same_text cs ds
same_text cs ds = false

pub same_text→≡ : (a b : Text) → same_text a b ≡ true → a ≡ b
unfolding same_text
same_text→≡ [] [] h = refl
same_text→≡ [] (d ∷ ds) h = absurd (cc h)
same_text→≡ (c ∷ cs) [] h = absurd (cc h)
same_text→≡ (c ∷ cs) (d ∷ ds) h = grind (arith, same_text→≡ cs ds)

pub same_text_refl : (a : Text) → same_text a a ≡ true
unfolding same_text
same_text_refl [] = refl
same_text_refl (c ∷ cs) = ground (arith, same_text_refl cs)

-- `str::to_ascii_lowercase`, under which keys are kept.
unfoldable pub lowercase : Text → Text
unfolding to_ascii_lowercase
lowercase [] = []
lowercase (c ∷ cs) = to_ascii_lowercase c ∷ lowercase cs

unfoldable pub is_empty : Text → Bool
is_empty [] = true
is_empty (c ∷ cs) = false

-- Texts that agree but for the case of letters have one key.
pub eq_ignore_ascii_case-lowercase :
    (a b : Text) → eq_ignore_ascii_case a b ≡ same_text (lowercase a) (lowercase b)
unfolding eq_ignore_ascii_case same_text lowercase
eq_ignore_ascii_case-lowercase [] [] = refl
eq_ignore_ascii_case-lowercase [] (d ∷ ds) = refl
eq_ignore_ascii_case-lowercase (c ∷ cs) [] = refl
eq_ignore_ascii_case-lowercase (c ∷ cs) (d ∷ ds) = rw (eq_ignore_ascii_case-lowercase cs ds) refl

-- Two texts that are a third are each other.
pub same_text_join :
    (a b c : Text) → same_text a c ≡ true → same_text b c ≡ true → same_text a b ≡ true
same_text_join a b c h k =
    subst (λ d. same_text a d ≡ true) (same_text→≡ a c h ∙ sym (same_text→≡ b c k))
      (same_text_refl a)

pub same_text_agree : (a b c : Text) → same_text a b ≡ true → same_text a c ≡ same_text b c
same_text_agree a b c h = ap (λ d. same_text d c) (same_text→≡ a b h)
