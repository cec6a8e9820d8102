-- ===== src/Conditions/Tokens.antt =====
-- `tokenize` and `word_token`. What is left of the text stands for the index, and the loop runs on
-- fuel. The parser ends where the tokens do, so `End` is not written.
pub mod Ends
pub mod Writer
pub mod Read
pub mod Written
use stonemite.Conditions.{
  CompareOp, Operand, Condition, variable, str, number, bool, null, Token, operand, op, and_sign,
  or_sign, not_sign, left_paren, right_paren,
}
use stonemite.Conditions.Parser.{Result, parsed, invalid, out_of_fuel, parse_tokens, ◌>>=◌}
use stonemite.Base.Text.{same_text, Text, to_ascii_lowercase}
use stonemite.Base.{
  ℕ, zero, suc, ◌+◌, ◌<◌, ◌≡◌, Bool, true, false, not, ◌&&◌, ◌||◌, Option, none, some, List, [],
  ◌∷◌, ◌++◌, map, length, all, leb, ◌==◌, if◌then◌else◌,
}

abbrev pub is_ascii_digit : ℕ → Bool
is_ascii_digit c = leb b'0' c && leb c b'9'

abbrev pub is_ascii_letter : ℕ → Bool
is_ascii_letter c = leb b'a' c && leb c b'z' || leb b'A' c && leb c b'Z'

-- The standard library on characters and on f64, with what it documents for ASCII.
pub record Chars (F : Type 0) : Type 0 where
  pub is_whitespace : ℕ → Bool
  pub is_alphabetic : ℕ → Bool
  pub is_alphanumeric : ℕ → Bool
  pub parse_f64 : Text → Option F
  pub alphabetic-alphanumeric : (c : ℕ) → is_alphabetic c ≡ true → is_alphanumeric c ≡ true
  pub whitespace_ascii : (c : ℕ) → c < 128 → is_whitespace c ≡ (c == b' ' || leb 9 c && leb c 13)
  pub alphabetic_ascii : (c : ℕ) → c < 128 → is_alphabetic c ≡ is_ascii_letter c
  pub alphanumeric_ascii :
      (c : ℕ) → c < 128 → is_alphanumeric c ≡ (is_ascii_letter c || is_ascii_digit c)

-- The text before the first character `stop`, and the text behind it.
unfoldable pub until : ℕ → Text → Option (Text × Text)
until stop [] = none
until stop (c ∷ cs) =
    let rest = until stop cs in
    if c == stop
    then some ([], cs)
    else elim rest [ none ↦ none | some (before, after) ↦ some (c ∷ before, after) ]

-- The longest prefix of such characters, and the rest.
unfoldable pub span : (ℕ → Bool) → Text → Text × Text
span p [] = ([], [])
span p (c ∷ cs) = let rest = span p cs in if p c then (c ∷ rest.0, rest.1) else ([], c ∷ cs)

-- `chars.get(i + 1)`, asked for a property.
unfoldable pub next_is : (ℕ → Bool) → Text → Bool
next_is p [] = false
next_is p (c ∷ cs) = p c

-- One round of the loop: a character skipped, a token read, or `return None`.
pub data Lexed (F : Type 0) : Type 0 where
  blank : Text → Lexed F
  token : Token F → Text → Lexed F
  unknown : Lexed F

unfoldable pub word_token : {F : Type 0} → Text → Option (Token F)
unfolding same_text to_ascii_lowercase
word_token word =
    let lower = map to_ascii_lowercase word in
    if same_text lower (b'e' ∷ b'q' ∷ [])
    then some (op CompareOp.eq)
    else if same_text lower (b'n' ∷ b'e' ∷ b'q' ∷ [])
    then some (op CompareOp.ne)
    else if same_text lower (b'g' ∷ b't' ∷ [])
    then some (op CompareOp.gt)
    else if same_text lower (b'g' ∷ b'e' ∷ []) || same_text lower (b'g' ∷ b't' ∷ b'e' ∷ [])
    then some (op CompareOp.ge)
    else if same_text lower (b'l' ∷ b't' ∷ [])
    then some (op CompareOp.lt)
    else if same_text lower (b'l' ∷ b'e' ∷ []) || same_text lower (b'l' ∷ b't' ∷ b'e' ∷ [])
    then some (op CompareOp.le)
    else if same_text lower (b'c' ∷ b'o' ∷ b'n' ∷ b't' ∷ b'a' ∷ b'i' ∷ b'n' ∷ b's' ∷ [])
    then some (op CompareOp.contains)
    else if same_text lower (b'a' ∷ b'n' ∷ b'd' ∷ [])
    then some and_sign
    else if same_text lower (b'o' ∷ b'r' ∷ [])
    then some or_sign
    else if same_text lower (b'n' ∷ b'o' ∷ b't' ∷ [])
    then some not_sign
    else if same_text lower (b't' ∷ b'r' ∷ b'u' ∷ b'e' ∷ [])
    then some (operand (bool true))
    else if same_text lower (b'f' ∷ b'a' ∷ b'l' ∷ b's' ∷ b'e' ∷ [])
    then some (operand (bool false))
    else if same_text lower (b'n' ∷ b'u' ∷ b'l' ∷ b'l' ∷ [])
    then some (operand null)
    else none

-- `word_token(&word).unwrap_or(Token::Str(word))`.
unfoldable pub word_or_str : {F : Type 0} → Text → Token F
unfolding word_token
word_or_str word = elim (word_token word) [ none ↦ operand (str word) | some t ↦ t ]

-- A text up to its closing brace or quote.
unfoldable pub closed : {F : Type 0} → (Text → Operand F) → ℕ → Text → Lexed F
unfolding until
closed make stop cs = elim (until stop cs) [
  | none ↦ unknown
  | some (before, after) ↦ token (operand (make before)) after
]

-- `{`, or `${`, and what follows it.
unfoldable pub behind_dollar : Text → Option Text
behind_dollar [] = none
behind_dollar (c ∷ cs) = if c == b'{' then some cs else none

unfoldable pub after_brace : ℕ → Text → Option Text
unfolding behind_dollar
after_brace c cs = if c == b'{' then some cs else if c == b'$' then behind_dollar cs else none

unfoldable pub starts_number : ℕ → Text → Bool
unfolding next_is
starts_number c cs = is_ascii_digit c || c == b'-' && next_is is_ascii_digit cs

-- The point of a number with the digits behind it, if it follows.
unfoldable pub fraction : Text → Text × Text
unfolding span
fraction [] = ([], [])
fraction (c ∷ cs) =
    if c == b'.' then (c ∷ (span is_ascii_digit cs).0, (span is_ascii_digit cs).1) else ([], c ∷ cs)

-- The text of a number: its first character, which may be a sign, digits, and the fraction.
unfoldable pub number_text : ℕ → Text → Text × Text
unfolding span fraction
number_text c cs =
    let whole = span is_ascii_digit cs in
    let rest = fraction whole.1 in (c ∷ (whole.0 ++ rest.0), rest.1)

-- The characters of `"=!<>&|"`.
unfoldable pub is_sign : ℕ → Bool
is_sign c = c == b'=' || (c == b'!' || (c == b'<' || (c == b'>' || (c == b'&' || c == b'|'))))

unfoldable pub two_signs : {F : Type 0} → ℕ → ℕ → Option (Token F)
two_signs c d =
    if c == b'=' && d == b'='
    then some (op CompareOp.eq)
    else if c == b'!' && d == b'=' || c == b'<' && d == b'>'
    then some (op CompareOp.ne)
    else if c == b'>' && d == b'='
    then some (op CompareOp.ge)
    else if c == b'<' && d == b'='
    then some (op CompareOp.le)
    else if c == b'&' && d == b'&'
    then some and_sign
    else if c == b'|' && d == b'|'
    then some or_sign
    else none

unfoldable pub one_sign : {F : Type 0} → ℕ → Option (Token F)
one_sign c =
    if c == b'='
    then some (op CompareOp.eq)
    else if c == b'>'
    then some (op CompareOp.gt)
    else if c == b'<'
    then some (op CompareOp.lt)
    else if c == b'!'
    then some not_sign
    else none

abbrev pub read_token : {F : Type 0} → Option (Token F) → Text → Lexed F
read_token none rest = unknown
read_token (some t) rest = token t rest

-- Two characters if they are a sign, else the first one alone.
unfoldable pub sign_token : {F : Type 0} → ℕ → Text → Lexed F
unfolding two_signs one_sign
sign_token c [] = read_token (one_sign c) []
sign_token c (d ∷ ds) = elim (two_signs c d) [
  | none ↦ read_token (one_sign c) (d ∷ ds)
  | some t ↦ token t ds
]

-- The rounds that follow one.
abbrev pub go_on :
    {F : Type 0} → Lexed F → (Text → Result (List (Token F))) → Result (List (Token F))
go_on (blank rest) loop = loop rest
go_on (token t rest) loop = loop rest >>= λ ts. parsed (t ∷ ts)
go_on unknown loop = invalid

module _ {F : Type 0} (chars : Chars F) where
  unfoldable pub is_word_char : ℕ → Bool
  is_word_char c = chars.is_alphanumeric c || (c == b'_' || c == b'.')

  -- `text.parse().ok()?`, with what follows the text.
  unfoldable pub read_number : Text × Text → Lexed F
  read_number (text, rest) = elim (chars.parse_f64 text) [
    | none ↦ unknown
    | some value ↦ token (operand (number value)) rest
  ]

  unfoldable pub number_token : ℕ → Text → Lexed F
  unfolding number_text read_number
  number_token c cs = read_number (number_text c cs)

  unfoldable pub bare_word : ℕ → Text → Lexed F
  unfolding span is_word_char word_or_str
  bare_word c cs =
      if chars.is_alphabetic c || c == b'_'
      then token (word_or_str (span is_word_char (c ∷ cs)).0) (span is_word_char (c ∷ cs)).1
      else unknown

  -- What a character starts that is neither white space nor the brace of a variable.
  unfoldable pub plain_token : ℕ → Text → Lexed F
  unfolding closed starts_number number_token is_sign sign_token bare_word
  plain_token c cs =
      if c == b'"' || c == b'\''
      then closed str c cs
      else if c == b'('
      then token left_paren cs
      else if c == b')'
      then token right_paren cs
      else if starts_number c cs
      then number_token c cs
      else if is_sign c
      then sign_token c cs
      else bare_word c cs

  unfoldable pub visible_token : ℕ → Text → Lexed F
  unfolding after_brace closed plain_token
  visible_token c cs = elim (after_brace c cs) [
    | some inside ↦ closed variable b'}' inside
    | none ↦ plain_token c cs
  ]

  unfoldable pub next_token : ℕ → Text → Lexed F
  unfolding visible_token
  next_token c cs = if chars.is_whitespace c then blank cs else visible_token c cs

  unfoldable pub tokenize_loop : ℕ → Text → Result (List (Token F))
  unfolding next_token
  tokenize_loop zero [] = parsed []
  tokenize_loop zero (c ∷ cs) = out_of_fuel
  tokenize_loop (suc f) [] = parsed []
  tokenize_loop (suc f) (c ∷ cs) = go_on (next_token c cs) (tokenize_loop f)

  -- A round reads a character at least, so the length of the text is fuel enough.
  unfoldable pub tokenize : Text → Result (List (Token F))
  unfolding tokenize_loop
  tokenize text = tokenize_loop (length text) text

  -- What is blank when trimmed holds nothing but white space.
  unfoldable pub parse : Text → Result (Condition F)
  unfolding tokenize parse_tokens
  parse text =
      if all chars.is_whitespace text then invalid else (tokenize text >>= λ ts. parse_tokens ts)
