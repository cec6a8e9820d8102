-- ===== src/Triggers/Substitute.antt =====
-- crates/eqtrigger/src/substitute.rs: the texts of actions, whose `{name}` stands for a capture, a
-- variable or the like. Tokens are found by a regular expression of the regex crate.
pub mod Enough
use stonemite.Triggers.{MatchMap}
use stonemite.Triggers.Variables.{get_match}
use stonemite.Base.Text.{
  Text, to_ascii_lowercase, eq_ignore_ascii_case, lowercase, same_text, is_empty,
}
use stonemite.Base.{
  ℕ, zero, suc, ◌-◌, ◌/◌, ◌%◌, not, contains, Bool, true, false, ◌&&◌, ◌||◌, Option, none, some,
  List, [], ◌∷◌, ◌++◌, length, keep, leb, ltb, ◌==◌, if◌then◌else◌,
}

-- A piece of a text: what stands between tokens, or a token with its own text, its name, and its
-- modifier and argument.
pub data Piece : Type 0 where
  verbatim : Text → Piece
  hole : Text → Text → Option Text → Option Text → Piece

-- The matches of the expression for tokens in a text, and the standard library on texts. A rounded
-- number is its sign and its digits.
pub record Texts (F : Type 0) : Type 0 where
  pub pieces : Text → List Piece
  pub to_uppercase : Text → Text
  pub to_lowercase : Text → Text
  pub parse_f64 : Text → Option F
  pub parse_width : Text → Option ℕ
  pub rounded : F → Bool × Text
  pub trim : Text → Text
  pub decimal : ℕ → Text

unfoldable pub character_code : Text
character_code = b'{' ∷ b'c' ∷ b'}' ∷ []

unfoldable pub counter_code : Text
counter_code = b'{' ∷ b'c' ∷ b'o' ∷ b'u' ∷ b'n' ∷ b't' ∷ b'e' ∷ b'r' ∷ b'}' ∷ []

unfoldable pub repeated_code : Text
repeated_code = b'{' ∷ b'r' ∷ b'e' ∷ b'p' ∷ b'e' ∷ b'a' ∷ b't' ∷ b'e' ∷ b'd' ∷ b'}' ∷ []

unfoldable pub logtime_code : Text
logtime_code = b'{' ∷ b'l' ∷ b'o' ∷ b'g' ∷ b't' ∷ b'i' ∷ b'm' ∷ b'e' ∷ b'}' ∷ []

unfoldable pub null_code : Text
null_code = b'{' ∷ b'n' ∷ b'u' ∷ b'l' ∷ b'l' ∷ b'}' ∷ []

unfoldable pub line_code : Text
line_code = b'{' ∷ b'l' ∷ b'}' ∷ []

-- What follows a prefix, in whatever case it stands.
unfoldable pub behind_prefix : Text → Text → Option Text
unfolding to_ascii_lowercase
behind_prefix [] text = some text
behind_prefix (c ∷ cs) [] = none
behind_prefix (c ∷ cs) (d ∷ ds) =
    let rest = behind_prefix cs ds in
    if to_ascii_lowercase c == to_ascii_lowercase d then rest else none

-- The text before the first place where the code stands, and the text behind it.
unfoldable pub find_code : Text → Text → Option (Text × Text)
unfolding behind_prefix
find_code code [] = none
find_code code (c ∷ cs) =
    let later = find_code code cs in
    elim (behind_prefix code (c ∷ cs)) [
      | some behind ↦ some ([], behind)
      | none ↦ elim later [ none ↦ none | some (before, behind) ↦ some (c ∷ before, behind) ]
    ]

-- A round of the loop: what stands before the code, the value, and the rounds that follow.
abbrev pub replaced : Option (Text × Text) → Text → Text → (Text → Text) → Text
replaced none rest value loop = rest
replaced (some (before, behind)) rest value loop = before ++ (value ++ loop behind)

-- Each code is a character long at least, so the length of the text is fuel enough.
unfoldable pub replace_loop : ℕ → Text → Text → Text → Text
unfolding find_code
replace_loop zero rest code value = rest
replace_loop (suc f) rest code value =
    replaced (find_code code rest) rest value (λ behind. replace_loop f behind code value)

unfoldable pub replace_code : Text → Text → Text → Text
unfolding replace_loop
replace_code text code value =
    if ltb (length text) (length code) then text else replace_loop (length text) text code value

unfoldable pub replace_line_code : Text → Text → Text
unfolding replace_code line_code
replace_line_code text line = replace_code text line_code line

abbrev pub spaces : ℕ → Text
spaces zero = []
spaces (suc n) = b' ' ∷ spaces n

pub data Pad : Type 0 where
  left right center : Pad

abbrev pub pad_by : Text → ℕ → Pad → Text
pad_by value missing left = spaces missing ++ value
pad_by value missing right = value ++ spaces missing
pad_by value missing center = spaces (missing / 2) ++ (value ++ spaces (missing - missing / 2))

abbrev pub comma_if : Bool → Text
comma_if true = b',' ∷ []
comma_if false = []

-- A comma stands wherever a multiple of three digits follows.
unfoldable pub group_digits : Text → Text
group_digits [] = []
group_digits (d ∷ ds) =
    let rest = group_digits ds in d ∷ (comma_if (ltb 0 (length ds) && length ds % 3 == 0) ++ rest)

-- The characters that may be spoken.
unfoldable pub is_spoken : ℕ → Bool
is_spoken c =
    leb b'a' c && leb c b'z'
    || (leb b'A' c && leb c b'Z'
        || (leb b'0' c && leb c b'9'
            || (c == b' '
                || (c == b'.'
                    || (c == b','
                        || (c == b'!'
                            || (c == b'?'
                                || (c == b';'
                                    || (c == b':'
                                        || (c == b'\''
                                            || (c == b'"'
                                                || (c == b'-'
                                                    || (c == b'(' || c == b')')))))))))))))

unfoldable pub sanitize_tts : Text → Text
unfolding is_spoken
sanitize_tts text = keep is_spoken text

module _ {F : Type 0} (texts : Texts F) where
  abbrev pub width_of : Option Text → ℕ
  width_of none = 0
  width_of (some arg) = elim (texts.parse_width (texts.trim arg)) [ none ↦ 0 | some n ↦ n ]

  unfoldable pub pad : Text → Option Text → Pad → Text
  pad value argument side =
      if leb (width_of argument) (length value)
      then value
      else pad_by value (width_of argument - length value) side

  unfoldable pub group_thousands : F → Text
  group_thousands number =
      let (negative, digits) = texts.rounded number in
      if negative then b'-' ∷ group_digits digits else group_digits digits

  unfoldable pub capitalize : Text → Text
  capitalize [] = []
  capitalize (c ∷ cs) = texts.to_uppercase (c ∷ []) ++ cs

  unfoldable pub apply_modifier : Text → Option Text → Option Text → Text
  unfolding lowercase same_text capitalize group_thousands pad group_digits
  apply_modifier value none argument = value
  apply_modifier value (some modifier) argument =
      let name = lowercase modifier in
      if same_text name (b'c' ∷ b'a' ∷ b'p' ∷ b'i' ∷ b't' ∷ b'a' ∷ b'l' ∷ b'i' ∷ b'z' ∷ b'e' ∷ [])
      then capitalize value
      else if same_text name (b'u' ∷ b'p' ∷ b'p' ∷ b'e' ∷ b'r' ∷ [])
      then texts.to_uppercase value
      else if same_text name (b'l' ∷ b'o' ∷ b'w' ∷ b'e' ∷ b'r' ∷ [])
      then texts.to_lowercase value
      else if same_text name (b'n' ∷ b'u' ∷ b'm' ∷ b'b' ∷ b'e' ∷ b'r' ∷ [])
      then elim (texts.parse_f64 value) [ none ↦ value | some number ↦ group_thousands number ]
      else if same_text name (b'p' ∷ b'a' ∷ b'd' ∷ b'l' ∷ b'e' ∷ b'f' ∷ b't' ∷ [])
      then pad value argument left
      else if same_text name (b'p' ∷ b'a' ∷ b'd' ∷ b'r' ∷ b'i' ∷ b'g' ∷ b'h' ∷ b't' ∷ [])
      then pad value argument right
      else if same_text name (b'c' ∷ b'e' ∷ b'n' ∷ b't' ∷ b'e' ∷ b'r' ∷ [])
      then pad value argument center
      else value

  unfoldable pub write_pieces : List Piece → (Text → Option Text) → Text
  unfolding apply_modifier
  write_pieces [] resolve = []
  write_pieces (verbatim text ∷ rest) resolve = text ++ write_pieces rest resolve
  write_pieces (hole whole name modifier argument ∷ rest) resolve =
      elim (resolve name) [ none ↦ whole | some value ↦ apply_modifier value modifier argument ]
      ++ write_pieces rest resolve

  unfoldable pub replace_tokens : Text → (Text → Option Text) → Text
  unfolding write_pieces
  replace_tokens text resolve =
      if not (contains b'{' text) then text else write_pieces (texts.pieces text) resolve

  unfoldable pub replace_from_matches : Text → Option MatchMap → Text
  unfolding replace_tokens get_match
  replace_from_matches text none = text
  replace_from_matches text (some captures) =
      if is_empty text then text else replace_tokens text (get_match captures)

  unfoldable pub resolve_template :
      Text → Text → Option MatchMap → Option MatchMap → Option MatchMap → MatchMap → Option Text
  unfolding is_empty eq_ignore_ascii_case null_code replace_from_matches replace_line_code
      replace_tokens get_match
  resolve_template template line captures original previous variables =
      if is_empty template || eq_ignore_ascii_case template null_code
      then none
      else some (
          replace_tokens
            (replace_line_code
              (replace_from_matches
                (replace_from_matches (replace_from_matches template original) captures) previous)
              line)
            (get_match variables))
