-- ===== src/Conditions/Tokens/Written.antt =====
-- What the tokenizer reads of a written expression, and the parser of it.
use stonemite.Conditions.{
  CompareOp, Operand, Condition, variable, str, number, bool, null, Token, operand, op, and_sign,
  or_sign, not_sign, left_paren, right_paren,
}
use stonemite.Conditions.Parser.{parsed, parse_tokens, max_nesting_depth, ◌>>=◌}
use stonemite.Conditions.Printer.{print, nesting, outermost}
use stonemite.Conditions.RoundTrip.{parse_tokens-print}
use stonemite.Conditions.Tokens.{
  Chars, token, after_brace, starts_number, is_sign, two_signs, one_sign, sign_token, word_or_str,
  word_token, go_on, blank, plain_token, visible_token, next_token, tokenize_loop, tokenize, parse,
}
use stonemite.Conditions.Tokens.Ends.{tokenize_loop_stable}
use stonemite.Base.Text.{same_text, Text, to_ascii_lowercase}
use stonemite.Base.{
  ℕ, drop, zero, suc, ◌+◌, ◌≤◌, ◌≡◌, ◌≢◌, refl, ap, ◌∙◌, true, false, List, [], ◌∷◌, ◌++◌, length,
  all, All, arith,
}
use stonemite.Conditions.Tokens.Writer.{
  Numeral, write_op, write_operand, write_token, write, IsWritable,
}
use stonemite.Conditions.Tokens.Read.{
  closed_append, visible, bare_word_append, first_token, numeral_text_token,
}

no_tokens : {F : Type 0} (c : Condition F) → parse_tokens [] ≢ parsed c
unfolding parse_tokens
no_tokens c h = cc h

module _ {F : Type 0} (chars : Chars F) where
  op_token :
      (o : CompareOp) (rest : Text)
      → first_token chars (write_op o ++ b' ' ∷ rest) ≡ token (op o) (b' ' ∷ rest)
  unfolding visible_token after_brace plain_token starts_number is_sign sign_token two_signs
      one_sign word_or_str word_token same_text to_ascii_lowercase
  op_token CompareOp.eq rest = visible chars b'=' _ refl refl
  op_token CompareOp.ne rest = visible chars b'!' _ refl refl
  op_token CompareOp.gt rest = visible chars b'>' _ refl refl
  op_token CompareOp.ge rest = visible chars b'>' _ refl refl
  op_token CompareOp.lt rest = visible chars b'<' _ refl refl
  op_token CompareOp.le rest = visible chars b'<' _ refl refl
  op_token CompareOp.contains rest =
      visible chars b'c' _ refl refl
      ∙ bare_word_append chars b'c' (drop 1 (write_op CompareOp.contains)) rest refl

  module _ (spell : F → Numeral) where
    write_operand_lem :
        (o : Operand F) (rest : Text)
        → IsWritable spell chars (operand o)
        → first_token chars (write_operand spell o ++ b' ' ∷ rest) ≡ token (operand o) (b' ' ∷ rest)
    unfolding visible_token after_brace plain_token starts_number word_or_str word_token same_text
        to_ascii_lowercase
    write_operand_lem (variable name) rest h =
        visible chars b'{' _ refl refl ∙ closed_append variable b'}' name rest h
    write_operand_lem (str text) rest h =
        visible chars b'"' _ refl refl ∙ closed_append str b'"' text rest h
    write_operand_lem (number value) rest h =
        let n = spell value in
        numeral_text_token chars n.negative n.first n.more n.behind_point rest value h.0 h.1
    write_operand_lem (bool true) rest h =
        visible chars b't' _ refl refl
        ∙ bare_word_append chars b't' (drop 1 (write_operand spell (bool true))) rest refl
    write_operand_lem (bool false) rest h =
        visible chars b'f' _ refl refl
        ∙ bare_word_append chars b'f' (drop 1 (write_operand spell (bool false))) rest refl
    write_operand_lem null rest h =
        visible chars b'n' _ refl refl
        ∙ bare_word_append chars b'n' (drop 1 (write_operand spell null)) rest refl

    write_token_lem :
        (t : Token F) (rest : Text)
        → IsWritable spell chars t
        → first_token chars (write_token spell t ++ b' ' ∷ rest) ≡ token t (b' ' ∷ rest)
    unfolding visible_token after_brace plain_token starts_number is_sign sign_token two_signs
        one_sign
    write_token_lem (operand o) rest h = write_operand_lem o rest h
    write_token_lem (op o) rest h = op_token o rest
    write_token_lem and_sign rest h = visible chars b'&' _ refl refl
    write_token_lem or_sign rest h = visible chars b'|' _ refl refl
    write_token_lem not_sign rest h = visible chars b'!' _ refl refl
    write_token_lem left_paren rest h = visible chars b'(' _ refl refl
    write_token_lem right_paren rest h = visible chars b')' _ refl refl

    -- A space behind a token is skipped in a round of its own.
    space : (rest : Text) → next_token chars b' ' rest ≡ blank rest
    unfolding next_token
    space rest = rw (chars.whitespace_ascii b' ' (omega arith)) refl

    first_token_go :
        (f : ℕ) (cs : Text) (t : Token F) (rest : Text)
        → first_token chars cs ≡ token t rest
        → tokenize_loop chars (suc f) cs ≡ (tokenize_loop chars f rest >>= λ ts. parsed (t ∷ ts))
    unfolding tokenize_loop
    first_token_go f [] t rest h = absurd (cc h)
    first_token_go f (c ∷ cs) t rest h = ap (λ l. go_on l (tokenize_loop chars f)) h

    loop-write :
        (ts : List (Token F)) (f : ℕ)
        → All (IsWritable spell chars) ts
        → length ts + length ts ≤ f
        → tokenize_loop chars f (write spell ts) ≡ parsed ts
    unfolding tokenize_loop
    loop-write [] zero h k = refl
    loop-write [] (suc f) h k = refl
    loop-write (t ∷ ts) zero h k = absurd (omega (arith, k))
    loop-write (t ∷ ts) (suc zero) h k = absurd (omega (arith, k))
    loop-write (t ∷ ts) (suc (suc f)) h k =
        first_token_go (suc f) (write spell (t ∷ ts)) t (b' ' ∷ write spell ts)
          (write_token_lem t (write spell ts) h.0)
        ∙ ap (λ l. go_on l (tokenize_loop chars f) >>= λ ts. parsed (t ∷ ts))
            (space (write spell ts))
        ∙ ap (λ r. r >>= λ ts. parsed (t ∷ ts)) (loop-write ts f h.1 (omega (arith, k)))

    tokenize-write :
        (ts : List (Token F))
        → All (IsWritable spell chars) ts
        → tokenize chars (write spell ts) ≡ parsed ts
    unfolding tokenize
    tokenize-write ts h =
        tokenize_loop_stable chars (length (write spell ts))
          (length (write spell ts) + (length ts + length ts)) (write spell ts) (omega arith)
          (omega arith)
        ∙ loop-write ts _ h (omega arith)

    token_visible :
        (cs : Text) (t : Token F) (rest : Text)
        → first_token chars cs ≡ token t rest
        → all chars.is_whitespace cs ≡ false
    unfolding next_token
    token_visible [] t rest h = absurd (cc h)
    token_visible (c ∷ cs) t rest h = ground arith

    parse-write_tokens :
        (ts : List (Token F)) (c : Condition F)
        → All (IsWritable spell chars) ts
        → parse_tokens ts ≡ parsed c
        → parse chars (write spell ts) ≡ parsed c
    unfolding parse
    parse-write_tokens [] c h k = absurd (no_tokens c k)
    parse-write_tokens (t ∷ ts) c h k =
        rw
          (
            token_visible (write spell (t ∷ ts)) t _ (write_token_lem t (write spell ts) h.0),
            tokenize-write (t ∷ ts) h,
          )
          k

-- An expression, written as text with a space behind each token and the parentheses that the grammar
-- needs, is parsed to itself, if its parentheses and negations are nested no deeper than ten, no name
-- of a variable holds a closing brace, no text a double quote, and each number is spelt as a numeral
-- that the standard library reads as it.
pub parse-write :
    {F : Type 0} (chars : Chars F) (spell : F → Numeral) (c : Condition F)
    → All (IsWritable spell chars) (print outermost c)
    → nesting outermost c ≤ max_nesting_depth
    → parse chars (write spell (print outermost c)) ≡ parsed c
parse-write chars spell c h deep =
    parse-write_tokens chars spell (print outermost c) c h (parse_tokens-print c deep)
