-- ===== src/Conditions/Tokens/Read.antt =====
-- What the tokenizer reads at the start of a text.
use mathlib.Core.List.{append_assoc}
use stonemite.Conditions.{Operand, number, operand}
use stonemite.Conditions.Tokens.{
  Chars, Lexed, token, unknown, until, span, closed, after_brace, fraction, number_text, next_is,
  starts_number, is_word_char, word_or_str, number_token, read_number, bare_word, plain_token,
  visible_token, next_token, is_ascii_digit, is_ascii_letter,
}
use stonemite.Base.Text.{Text}
use stonemite.Base.{
  ℕ, ◌≡◌, refl, ap, ◌∙◌, Bool, true, false, ◌||◌, ◌&&◌, Option, none, some, [], ◌∷◌, ◌++◌, ◌==◌,
  all, contains, ltb, leb, arith,
}
use stonemite.Conditions.Tokens.Writer.{fraction_text, sign_then}

span_append :
    (p : ℕ → Bool) (xs rest : Text) (y : ℕ)
    → all p xs ≡ true
    → p y ≡ false
    → span p (xs ++ y ∷ rest) ≡ (xs, y ∷ rest)
unfolding span
span_append p [] rest y h k = ground arith
span_append p (x ∷ xs) rest y h k = ground (arith, span_append p xs rest y)

until_append :
    (stop : ℕ) (xs rest : Text)
    → contains stop xs ≡ false
    → until stop (xs ++ stop ∷ rest) ≡ some (xs, rest)
unfolding until
until_append stop [] rest h = ground arith
until_append stop (x ∷ xs) rest h = ground (arith, until_append stop xs rest)

pub closed_append :
    {F : Type 0} (make : Text → Operand F) (stop : ℕ) (xs rest : Text)
    → contains stop xs ≡ false
    → closed make stop ((xs ++ stop ∷ []) ++ b' ' ∷ rest) ≡ token (operand (make xs)) (b' ' ∷ rest)
unfolding closed
closed_append make stop xs rest h =
    ap (closed make stop) (append_assoc xs (stop ∷ []) (b' ' ∷ rest))
    ∙ rw (closed, until_append stop xs (b' ' ∷ rest) h) refl

fraction_append :
    (o : Option Text) (rest : Text)
    → elim o [ none ↦ true | some digits ↦ all is_ascii_digit digits ] ≡ true
    → fraction (fraction_text o ++ b' ' ∷ rest) ≡ (fraction_text o, b' ' ∷ rest)
unfolding fraction
fraction_append none rest h = refl
fraction_append (some digits) rest h = rw (span_append is_ascii_digit digits rest b' ' h refl) refl

whole_append :
    (xs : Text) (o : Option Text) (rest : Text)
    → all is_ascii_digit xs ≡ true
    → span is_ascii_digit (xs ++ (fraction_text o ++ b' ' ∷ rest))
      ≡ (xs, fraction_text o ++ b' ' ∷ rest)
whole_append xs none rest h = span_append is_ascii_digit xs rest b' ' h refl
whole_append xs (some digits) rest h =
    span_append is_ascii_digit xs (digits ++ b' ' ∷ rest) b'.' h refl

number_text_append :
    (c : ℕ) (xs : Text) (o : Option Text) (rest : Text)
    → all is_ascii_digit xs ≡ true
    → elim o [ none ↦ true | some digits ↦ all is_ascii_digit digits ] ≡ true
    → number_text c (xs ++ (fraction_text o ++ b' ' ∷ rest))
      ≡ (c ∷ (xs ++ fraction_text o), b' ' ∷ rest)
unfolding number_text
number_text_append c xs o rest h k = rw (whole_append xs o rest h, fraction_append o rest k) refl

module _ {F : Type 0} (chars : Chars F) where
  -- A character of ASCII that is no white space is looked at.
  pub visible :
      (c : ℕ) (cs : Text)
      → ltb c 128 ≡ true
      → (c == b' ' || leb 9 c && leb c 13) ≡ false
      → next_token chars c cs ≡ visible_token chars c cs
  unfolding next_token
  visible c cs h k = rw (chars.whitespace_ascii c (ground (arith, h)) ∙ k) refl

  all_word_chars :
      (w : Text)
      → all (λ c. ltb c 128 && is_ascii_letter c) w ≡ true
      → all (is_word_char chars) w ≡ true
  unfolding is_word_char
  all_word_chars [] h = refl
  all_word_chars (c ∷ w) h = ground (arith, chars.alphanumeric_ascii c, all_word_chars w)

  space_ends : is_word_char chars b' ' ≡ false
  unfolding is_word_char
  space_ends = rw (chars.alphanumeric_ascii b' ' (omega arith)) refl

  letter_alphabetic :
      (c : ℕ) (w : Text)
      → all (λ c. ltb c 128 && is_ascii_letter c) (c ∷ w) ≡ true
      → chars.is_alphabetic c ≡ true
  letter_alphabetic c w h = ground (arith, chars.alphabetic_ascii c)

  pub bare_word_append :
      (c : ℕ) (w rest : Text)
      → all (λ c. ltb c 128 && is_ascii_letter c) (c ∷ w) ≡ true
      → bare_word chars c (w ++ b' ' ∷ rest) ≡ token (word_or_str (c ∷ w)) (b' ' ∷ rest)
  unfolding bare_word word_or_str
  bare_word_append c w rest h =
      rw
        (
          letter_alphabetic c w h,
          span_append (is_word_char chars) (c ∷ w) rest b' ' (all_word_chars (c ∷ w) h) space_ends,
        )
        refl

  sign_or_digit :
      (c : ℕ) (cs : Text) → starts_number c cs ≡ true → (is_ascii_digit c || c == b'-') ≡ true
  unfolding starts_number
  sign_or_digit c cs h = ground arith

  starts_number_token :
      (c : ℕ) (cs : Text)
      → starts_number c cs ≡ true
      → next_token chars c cs ≡ number_token chars c cs
  unfolding next_token visible_token plain_token after_brace
  starts_number_token c cs h = ground (arith, sign_or_digit c cs h, chars.whitespace_ascii c)

  numeral_token :
      (c : ℕ) (xs : Text) (o : Option Text) (rest : Text) (value : F)
      → starts_number c (xs ++ (fraction_text o ++ b' ' ∷ rest)) ≡ true
      → all is_ascii_digit xs ≡ true
      → elim o [ none ↦ true | some digits ↦ all is_ascii_digit digits ] ≡ true
      → chars.parse_f64 (c ∷ (xs ++ fraction_text o)) ≡ some value
      → next_token chars c (xs ++ (fraction_text o ++ b' ' ∷ rest))
        ≡ token (operand (number value)) (b' ' ∷ rest)
  unfolding number_token read_number
  numeral_token c xs o rest value start h k reads =
      starts_number_token c (xs ++ (fraction_text o ++ b' ' ∷ rest)) start
      ∙ ap (read_number chars) (number_text_append c xs o rest h k)
      ∙ rw (read_number, reads) refl

  abbrev pub first_token : Text → Lexed F
  first_token [] = unknown
  first_token (c ∷ cs) = next_token chars c cs

  pub numeral_text_token :
      (negative : Bool) (c : ℕ) (xs : Text) (o : Option Text) (rest : Text) (value : F)
      → (is_ascii_digit c
          && (all is_ascii_digit xs
              && elim o [ none ↦ true | some digits ↦ all is_ascii_digit digits ]))
        ≡ true
      → chars.parse_f64 (sign_then negative (c ∷ (xs ++ fraction_text o))) ≡ some value
      → first_token (sign_then negative (c ∷ (xs ++ fraction_text o)) ++ b' ' ∷ rest)
        ≡ token (operand (number value)) (b' ' ∷ rest)
  unfolding starts_number next_is
  numeral_text_token true c xs o rest value h reads =
      ap (next_token chars b'-') (append_assoc (c ∷ xs) (fraction_text o) (b' ' ∷ rest))
      ∙ numeral_token b'-' (c ∷ xs) o rest value (ground arith) (ground arith) (ground arith) reads
  numeral_text_token false c xs o rest value h reads =
      ap (next_token chars c) (append_assoc xs (fraction_text o) (b' ' ∷ rest))
      ∙ numeral_token c xs o rest value (ground arith) (ground arith) (ground arith) reads
