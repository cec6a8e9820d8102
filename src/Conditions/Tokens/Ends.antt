-- ===== src/Conditions/Tokens/Ends.antt =====
-- How much of a text a round of the tokenizer leaves, and the fuel.
use stonemite.Conditions.{Operand, Token, str, variable}
use stonemite.Conditions.Parser.{Result, parsed, invalid, out_of_fuel, parse_tokens, ◌>>=◌}
use stonemite.Conditions.Fuel.{parse_tokens_ends}
use stonemite.Conditions.Tokens.{
  Chars, Lexed, blank, token, unknown, until, span, closed, after_brace, behind_dollar, fraction,
  number_text, sign_token, is_word_char, number_token, read_number, bare_word, plain_token,
  visible_token, next_token, tokenize_loop, tokenize, go_on, parse, is_ascii_digit,
}
use stonemite.Base.Text.{Text}
use stonemite.Base.{
  ℕ, zero, suc, ◌≤◌, ◌≡◌, ◌≢◌, refl, ap, Bool, Option, none, some, List, [], ◌∷◌, length, all,
  arith, inl, inr, Bool-cases, Option-cases,
}

-- How long the text is that a round leaves.
abbrev left_length : {F : Type 0} → Lexed F → ℕ
left_length (blank rest) = length rest
left_length (token t rest) = length rest
left_length unknown = 0

abbrev behind_length : Option (Text × Text) → ℕ
behind_length none = 0
behind_length (some (before, after)) = length after

until_shrinks : (stop : ℕ) (cs : Text) → behind_length (until stop cs) ≤ length cs
unfolding until
until_shrinks stop [] = omega arith
until_shrinks stop (c ∷ cs) = ground (arith, until_shrinks stop cs)

span_shrinks : (p : ℕ → Bool) (cs : Text) → length (span p cs).1 ≤ length cs
unfolding span
span_shrinks p [] = omega arith
span_shrinks p (c ∷ cs) = ground (arith, span_shrinks p cs)

closed_shrinks :
    {F : Type 0} (make : Text → Operand F) (stop : ℕ) (cs : Text)
    → left_length (closed make stop cs) ≤ length cs
unfolding closed
closed_shrinks make stop cs = ground (arith, until_shrinks stop cs)

fraction_shrinks : (cs : Text) → length (fraction cs).1 ≤ length cs
unfolding fraction
fraction_shrinks [] = omega arith
fraction_shrinks (c ∷ cs) = ground (arith, span_shrinks is_ascii_digit cs)

number_text_shrinks : (c : ℕ) (cs : Text) → length (number_text c cs).1 ≤ length cs
unfolding number_text
number_text_shrinks c cs =
    omega (arith, fraction_shrinks (span is_ascii_digit cs).1, span_shrinks is_ascii_digit cs)

sign_token_shrinks :
    (F : Type 0) (c : ℕ) (cs : Text) → left_length (sign_token {F = F} c cs) ≤ length cs
unfolding sign_token
sign_token_shrinks F c [] = ground arith
sign_token_shrinks F c (d ∷ ds) = ground arith

after_brace_shrinks :
    (c : ℕ) (cs inside : Text) → after_brace c cs ≡ some inside → length inside ≤ length cs
unfolding after_brace behind_dollar
after_brace_shrinks c [] inside h = ground arith
after_brace_shrinks c (d ∷ ds) inside h = ground arith

then_ends :
    {A B : Type 0} (r : Result A) (f : A → Result B)
    → r ≢ out_of_fuel
    → ((a : A) → f a ≢ out_of_fuel)
    → (r >>= f) ≢ out_of_fuel
then_ends (parsed a) f h k = k a
then_ends invalid f h k = cc
then_ends out_of_fuel f h k = absurd (h refl)

go_on_alike :
    {F : Type 0} (l : Lexed F) (n : ℕ) (loop other : Text → Result (List (Token F)))
    → left_length l ≤ n
    → ((rest : Text) → length rest ≤ n → loop rest ≡ other rest)
    → go_on l loop ≡ go_on l other
go_on_alike (blank rest) n loop other h same = same rest h
go_on_alike (token t rest) n loop other h same = ap (λ r. r >>= λ ts. parsed (t ∷ ts)) (same rest h)
go_on_alike unknown n loop other h same = refl

go_on_ends :
    {F : Type 0} (l : Lexed F) (n : ℕ) (loop : Text → Result (List (Token F)))
    → left_length l ≤ n
    → ((rest : Text) → length rest ≤ n → loop rest ≢ out_of_fuel)
    → go_on l loop ≢ out_of_fuel
go_on_ends (blank rest) n loop h ends = ends rest h
go_on_ends (token t rest) n loop h ends =
    then_ends (loop rest) (λ ts. parsed (t ∷ ts)) (ends rest h) (λ ts. cc)
go_on_ends unknown n loop h ends = cc

module _ {F : Type 0} (chars : Chars F) where
  read_number_shrinks : (read : Text × Text) → left_length (read_number chars read) ≤ length read.1
  unfolding read_number
  read_number_shrinks (text, rest) = ground arith

  number_token_shrinks : (c : ℕ) (cs : Text) → left_length (number_token chars c cs) ≤ length cs
  unfolding number_token
  number_token_shrinks c cs =
      omega (arith, read_number_shrinks (number_text c cs), number_text_shrinks c cs)

  bare_word_shrinks : (c : ℕ) (cs : Text) → left_length (bare_word chars c cs) ≤ length cs
  unfolding bare_word
  bare_word_shrinks c cs =
      ground (arith, chars.alphabetic-alphanumeric c, span_shrinks (is_word_char chars) cs)

  plain_token_shrinks : (c : ℕ) (cs : Text) → left_length (plain_token chars c cs) ≤ length cs
  unfolding plain_token
  plain_token_shrinks c cs = ground (
    arith,
    closed_shrinks {F = F} str c cs,
    number_token_shrinks c cs,
    sign_token_shrinks F c cs,
    bare_word_shrinks c cs,
  )

  visible_token_shrinks : (c : ℕ) (cs : Text) → left_length (visible_token chars c cs) ≤ length cs
  unfolding visible_token
  visible_token_shrinks c cs = elim (Option-cases (after_brace c cs)) [
    | inl q ↦ rw (visible_token, q) (plain_token_shrinks c cs)
    | inr (inside, q) ↦
        rw (visible_token, q)
          (omega
            (arith, closed_shrinks {F = F} variable b'}' inside, after_brace_shrinks c cs inside q))
  ]

  pub next_token_shrinks : (c : ℕ) (cs : Text) → left_length (next_token chars c cs) ≤ length cs
  unfolding next_token
  next_token_shrinks c cs = ground (arith, visible_token_shrinks c cs)

  -- Fuel beyond the length of the text changes nothing.
  pub tokenize_loop_stable :
      (f g : ℕ) (cs : Text)
      → length cs ≤ f
      → length cs ≤ g
      → tokenize_loop chars f cs ≡ tokenize_loop chars g cs
  unfolding tokenize_loop
  tokenize_loop_stable zero zero cs h k = refl
  tokenize_loop_stable zero (suc g) [] h k = refl
  tokenize_loop_stable zero (suc g) (c ∷ cs) h k = absurd (omega (arith, h))
  tokenize_loop_stable (suc f) zero [] h k = refl
  tokenize_loop_stable (suc f) zero (c ∷ cs) h k = absurd (omega (arith, k))
  tokenize_loop_stable (suc f) (suc g) [] h k = refl
  tokenize_loop_stable (suc f) (suc g) (c ∷ cs) h k =
      go_on_alike (next_token chars c cs) (length cs) (tokenize_loop chars f)
        (tokenize_loop chars g) (next_token_shrinks c cs)
        (λ rest short.
          tokenize_loop_stable f g rest (omega (arith, short, h)) (omega (arith, short, k)))

  tokenize_loop_ends : (f : ℕ) (cs : Text) → length cs ≤ f → tokenize_loop chars f cs ≢ out_of_fuel
  unfolding tokenize_loop
  tokenize_loop_ends zero [] h = cc
  tokenize_loop_ends zero (c ∷ cs) h = absurd (omega (arith, h))
  tokenize_loop_ends (suc f) [] h = cc
  tokenize_loop_ends (suc f) (c ∷ cs) h =
      go_on_ends (next_token chars c cs) (length cs) (tokenize_loop chars f)
        (next_token_shrinks c cs)
        (λ rest short. tokenize_loop_ends f rest (omega (arith, short, h)))

  -- The tokenizer and the parser end on every text, within the fuel that `parse` gives them.
  pub parse_ends : (text : Text) → parse chars text ≢ out_of_fuel
  unfolding parse tokenize
  parse_ends text = elim (Bool-cases (all chars.is_whitespace text)) [
    | inl q ↦ rw q cc
    | inr q ↦ rw q (
        then_ends {A = List (Token F)} (tokenize_loop chars (length text) text)
          (λ ts. parse_tokens ts) (tokenize_loop_ends (length text) text (omega arith))
          parse_tokens_ends)
  ]
