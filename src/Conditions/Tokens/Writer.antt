-- ===== src/Conditions/Tokens/Writer.antt =====
-- An expression as a text, for the tokenizer to be measured by: each token with a space behind it.
use stonemite.Conditions.{
  CompareOp, Operand, variable, str, number, bool, null, Token, operand, op, and_sign, or_sign,
  not_sign, left_paren, right_paren,
}
use stonemite.Conditions.Tokens.{Chars, is_ascii_digit}
use stonemite.Base.Text.{Text}
use stonemite.Base.{
  ℕ, ◌≡◌, Bool, true, false, ◌&&◌, Option, none, some, List, [], ◌∷◌, ◌++◌, all, contains,
}

-- A numeral: a sign, digits, and the digits behind a point.
pub record Numeral : Type 0 where
  pub negative : Bool
  pub first : ℕ
  pub more : Text
  pub behind_point : Option Text

abbrev pub fraction_text : Option Text → Text
fraction_text none = []
fraction_text (some digits) = b'.' ∷ digits

abbrev pub sign_then : Bool → Text → Text
sign_then true text = b'-' ∷ text
sign_then false text = text

abbrev pub numeral_text : Numeral → Text
numeral_text n = sign_then n.negative (n.first ∷ (n.more ++ fraction_text n.behind_point))

abbrev pub all_digits : Numeral → Bool
all_digits n =
    is_ascii_digit n.first
    && (all is_ascii_digit n.more
        && elim n.behind_point [ none ↦ true | some digits ↦ all is_ascii_digit digits ])

abbrev pub write_op : CompareOp → Text
write_op CompareOp.eq = b'=' ∷ b'=' ∷ []
write_op CompareOp.ne = b'!' ∷ b'=' ∷ []
write_op CompareOp.gt = b'>' ∷ []
write_op CompareOp.ge = b'>' ∷ b'=' ∷ []
write_op CompareOp.lt = b'<' ∷ []
write_op CompareOp.le = b'<' ∷ b'=' ∷ []
write_op CompareOp.contains = b'c' ∷ b'o' ∷ b'n' ∷ b't' ∷ b'a' ∷ b'i' ∷ b'n' ∷ b's' ∷ []

module _ {F : Type 0} (spell : F → Numeral) where
  abbrev pub write_operand : Operand F → Text
  write_operand (variable name) = b'{' ∷ (name ++ b'}' ∷ [])
  write_operand (str text) = b'"' ∷ (text ++ b'"' ∷ [])
  write_operand (number value) = numeral_text (spell value)
  write_operand (bool true) = b't' ∷ b'r' ∷ b'u' ∷ b'e' ∷ []
  write_operand (bool false) = b'f' ∷ b'a' ∷ b'l' ∷ b's' ∷ b'e' ∷ []
  write_operand null = b'n' ∷ b'u' ∷ b'l' ∷ b'l' ∷ []

  abbrev pub write_token : Token F → Text
  write_token (operand o) = write_operand o
  write_token (op o) = write_op o
  write_token and_sign = b'&' ∷ b'&' ∷ []
  write_token or_sign = b'|' ∷ b'|' ∷ []
  write_token not_sign = b'!' ∷ []
  write_token left_paren = b'(' ∷ []
  write_token right_paren = b')' ∷ []

  abbrev pub write : List (Token F) → Text
  write [] = []
  write (t ∷ ts) = write_token t ++ b' ' ∷ write ts

  -- A name holds no closing brace and a text no quote; a number is spelt as a numeral that the
  -- standard library reads as that number.
  abbrev pub IsWritable : Chars F → Token F → Type 0
  IsWritable chars (operand (variable name)) = contains b'}' name ≡ false
  IsWritable chars (operand (str text)) = contains b'"' text ≡ false
  IsWritable chars (operand (number value)) =
      (all_digits (spell value) ≡ true)
      × (chars.parse_f64 (numeral_text (spell value)) ≡ some value)
  IsWritable chars (_) = Unit
