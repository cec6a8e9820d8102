-- ===== src/Conditions/Tests.antt =====
-- The parser on fixed tokens, and the evaluation of fixed expressions.
use stonemite.Conditions.{
  Condition, Operand, CompareOp, either, both, negated, compare, truthy, variable, str, number,
  null, bool, Token, operand, op, and_sign, or_sign, not_sign, left_paren, right_paren,
}
use stonemite.Conditions.Parser.{parsed, invalid, out_of_fuel, parse_tokens}
use stonemite.Conditions.Printer.{print, nesting, outermost}
use stonemite.Conditions.Tokens.{Chars, parse, is_ascii_letter, is_ascii_digit}
use stonemite.Conditions.Tokens.Ends.{parse_ends}
use stonemite.Conditions.Tokens.Writer.{Numeral, write}
use stonemite.Conditions.Tokens.Written.{parse-write}
use stonemite.Conditions.Evaluate.{Floats, evaluate}
use stonemite.Base.Text.{Text, eq_ignore_ascii_case}
use stonemite.Base.{
  ℕ, ◌≡◌, ◌≢◌, refl, true, Option, none, some, List, [], ◌∷◌, arith, length, ◌+◌, ◌-◌, ◌||◌, ◌&&◌,
  ◌==◌, false, ltb, leb, if◌then◌else◌,
}

abbrev hp : Operand ℕ
hp = variable (b'h' ∷ b'p' ∷ [])

abbrev zone : Operand ℕ
zone = variable (b'z' ∷ [])

-- `({hp} || {z} == {hp}) && !({z} && true) && {hp}`
abbrev condition : Condition ℕ
condition =
    both
      (both (either (truthy hp) (compare zone CompareOp.eq hp))
        (negated (both (truthy zone) (truthy (bool true)))))
      (truthy hp)

abbrev tokens : List (Token ℕ)
tokens =
    left_paren
    ∷ operand hp
    ∷ or_sign
    ∷ operand zone
    ∷ op CompareOp.eq
    ∷ operand hp
    ∷ right_paren
    ∷ and_sign
    ∷ not_sign
    ∷ left_paren
    ∷ operand zone
    ∷ and_sign
    ∷ operand (bool true)
    ∷ right_paren
    ∷ and_sign
    ∷ operand hp
    ∷ []

print_test : print outermost condition ≡ tokens
unfolding print
print_test = refl

parse_test : parse_tokens tokens ≡ parsed condition
unfolding parse_tokens
parse_test = refl

-- Nothing may follow an expression, and a parenthesised one is compared with nothing.
trailing_test : parse_tokens (operand hp ∷ operand zone ∷ []) ≡ invalid
unfolding parse_tokens
trailing_test = refl

group_test :
    parse_tokens (left_paren ∷ operand hp ∷ right_paren ∷ op CompareOp.eq ∷ operand zone ∷ [])
    ≡ invalid
unfolding parse_tokens
group_test = refl

abbrev one_digit : Text → Option ℕ
one_digit (d ∷ []) = some (d - 48)
one_digit text = none

-- Characters of ASCII, and a number of one digit, that is read as its value.
letter_or_digit :
    (c : ℕ) → is_ascii_letter c ≡ true → (is_ascii_letter c || is_ascii_digit c) ≡ true
letter_or_digit c h = ground arith

abbrev ascii : Chars ℕ
ascii = record {
  is_whitespace = λ c. c == b' ' || leb 9 c && leb c 13;
  is_alphabetic = is_ascii_letter;
  is_alphanumeric = λ c. is_ascii_letter c || is_ascii_digit c;
  parse_f64 = one_digit;
  alphabetic-alphanumeric = letter_or_digit;
  whitespace_ascii = λ c h. refl;
  alphabetic_ascii = λ c h. refl;
  alphanumeric_ascii = λ c h. refl;
}

abbrev spelt : ℕ → Numeral
spelt n = record { negative = false; first = n + 48; more = []; behind_point = none }

-- `({hp} || {z} == 7) && !true`
abbrev spelt_condition : Condition ℕ
spelt_condition =
    both (either (truthy hp) (compare zone CompareOp.eq (number 7))) (negated (truthy (bool true)))

-- `$ {` is no variable, and `a.b` is a text.
dollar_test : parse ascii (b'$' ∷ b' ' ∷ b'{' ∷ b'}' ∷ []) ≡ invalid
unfolding parse
dollar_test = refl

word_test :
    parse ascii (b'a' ∷ b'.' ∷ b'b' ∷ b'>' ∷ b'5' ∷ [])
    ≡ parsed (compare (str (b'a' ∷ b'.' ∷ b'b' ∷ [])) CompareOp.gt (number 5))
unfolding parse
word_test = refl

-- The brace of the variable is never closed.
parse_ends_example : parse ascii (b'1' ∷ b'{' ∷ b'a' ∷ []) ≢ out_of_fuel
parse_ends_example = parse_ends ascii (b'1' ∷ b'{' ∷ b'a' ∷ [])

parse-write_example :
    parse ascii (write spelt (print outermost spelt_condition)) ≡ parsed spelt_condition
unfolding print nesting
parse-write_example =
    parse-write ascii spelt spelt_condition
      (tt, (refl, (tt, (refl, (tt, ((refl, refl), (tt, (tt, (tt, (tt, tt)))))))))) (omega arith)

-- Numbers in place of floats: a text is parsed to its length.
abbrev naturals : Floats ℕ
naturals = record {
  float_zero = 0;
  gt = λ a b. ltb b a;
  ge = λ a b. leb b a;
  lt = ltb;
  le = leb;
  is_finite = λ x. true;
  is_plain = λ x. true;
  format_integer = λ x. x ∷ [];
  format_float = λ x. x ∷ [];
  parse_f64 = λ t. some (length t);
  trim = λ t. t;
  contains_ignore_case = eq_ignore_ascii_case;
}

-- Only `hp` is set.
abbrev with_hp : Text → Option Text
unfolding eq_ignore_ascii_case
with_hp name = if eq_ignore_ascii_case name (b'h' ∷ b'p' ∷ []) then some (b'7' ∷ []) else none

evaluate_test : evaluate naturals with_hp condition ≡ true
unfolding evaluate eq_ignore_ascii_case
evaluate_test = refl

-- An unset variable is null, and counts as zero.
null_test : evaluate naturals with_hp (compare zone CompareOp.eq null) ≡ true
unfolding evaluate eq_ignore_ascii_case
null_test = refl

unset_test : evaluate naturals with_hp (compare zone CompareOp.lt hp) ≡ true
unfolding evaluate eq_ignore_ascii_case
unset_test = refl
