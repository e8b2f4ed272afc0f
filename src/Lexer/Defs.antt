-- ===== src/Lexer/Defs.antt =====
-- `lex` of src/frontend/lexer.cpp. A position in the source text is the suffix from there; one round of
-- the loop passes at least one character, so a round for each is enough fuel. The `int` that counts
-- lines is a natural number: the two agree on a text of fewer than 2 ^ 31 - 1 newlines.
use uasm.Base.{
  ℕ, zero, suc, ◌+◌, Bool, true, false, not, ◌&&◌, ◌||◌, ◌==◌, List, [], ◌∷◌, ◌++◌, length, Text,
  Result, ok, err, if◌then◌else◌, ◌>>=◌,
}
use uasm.Lexer.Chars.{
  is_digit, is_space, is_ident_start, is_ident_char, is_newline, starts_digit, span, strtoll,
}

pub data TokenKind : Type 0 where
  identifier register param_ref int_literal float_literal arrow colon comma lparen rparen lbrace
        rbrace dot minus end_of_source :
      TokenKind

-- `floatValue` is the pattern of the `double`.
pub record Token : Type 0 where
  pub kind : TokenKind
  pub text : Text
  pub int_value : ℕ
  pub float_value : ℕ
  pub line : ℕ

-- The messages, with the line. `out_of_rounds` is none: it is the end of the fuel.
pub data LexError : Type 0 where
  expected_name : ℕ → LexError
  unexpected_character : ℕ → ℕ → LexError
  out_of_rounds : LexError

-- What the code takes from the C library: `std::strtod` of a text, as the pattern of the `double`.
pub record FloatReader : Type 0 where
  pub strtod : Text → ℕ

-- `makeToken`.
unfoldable pub make_token : TokenKind → Text → ℕ → Token
make_token kind text line = record {
  kind = kind;
  text = text;
  int_value = 0;
  float_value = 0;
  line = line;
}

-- What a round of the loop does: it goes on at a suffix and a line, pushes a token before that, or
-- throws.
pub data Round : Type 0 where
  skip : Text → ℕ → Round
  token : Token → Text → Round
  fail : LexError → Round

-- The fraction behind the digits of a number: `.` and digits. A number with a sign needs no digit
-- behind the point.
unfoldable pub fraction : Bool → Text → Text × Text
unfolding span starts_digit
fraction signed [] = ([], [])
fraction signed (c ∷ s) =
    let (digits, rest) = span is_digit s in
    if c == 46 && (signed || starts_digit s) then (c ∷ digits, rest) else ([], c ∷ s)

unfoldable pub is_empty : Text → Bool
is_empty [] = true
is_empty (c ∷ s) = false

-- The `switch` on the other characters.
unfoldable pub punctuation : ℕ → Text → ℕ → Round
unfolding make_token
punctuation c s line =
    if c == 58
    then token (make_token TokenKind.colon (c ∷ []) line) s
    else if c == 44
    then token (make_token TokenKind.comma (c ∷ []) line) s
    else if c == 40
    then token (make_token TokenKind.lparen (c ∷ []) line) s
    else if c == 41
    then token (make_token TokenKind.rparen (c ∷ []) line) s
    else if c == 123
    then token (make_token TokenKind.lbrace (c ∷ []) line) s
    else if c == 125
    then token (make_token TokenKind.rbrace (c ∷ []) line) s
    else if c == 46
    then token (make_token TokenKind.dot (c ∷ []) line) s
    else if c == 45
    then token (make_token TokenKind.minus (c ∷ []) line) s
    else fail (LexError.unexpected_character c line)

unfoldable pub register_token : ℕ → Text → ℕ → Round
unfolding span strtoll
register_token c s line =
    let (digits, rest) = span is_digit s in
    token
      (record {
        kind = TokenKind.register;
        text = c ∷ digits;
        int_value = strtoll false digits;
        float_value = 0;
        line = line;
      })
      rest

unfoldable pub identifier_token : ℕ → Text → ℕ → Round
unfolding span make_token
identifier_token c s line =
    let (chars, rest) = span is_ident_char s in
    token (make_token TokenKind.identifier (c ∷ chars) line) rest

-- `$` and a name.
unfoldable pub param_token : Text → ℕ → Round
unfolding span make_token
param_token s line =
    let (name, rest) = span is_ident_char s in
    elim name [
      | [] ↦ fail (LexError.expected_name line)
      | c ∷ chars ↦
          if is_ident_start c
          then token (make_token TokenKind.param_ref (c ∷ chars) line) rest
          else fail (LexError.expected_name line)
    ]

-- `->`, or a lone character.
unfoldable pub arrow_or_other : ℕ → Text → ℕ → Round
unfolding make_token
arrow_or_other c [] line = if c == 36 then param_token [] line else punctuation c [] line
arrow_or_other c (d ∷ s) line =
    if c == 45 && d == 62
    then token (make_token TokenKind.arrow (c ∷ d ∷ []) line) s
    else if c == 36
    then param_token (d ∷ s) line
    else punctuation c (d ∷ s) line

module _ ⦃reader : FloatReader⦄ where
  -- A number, where `sign` is the sign before its digits.
  unfoldable pub number_token : Text → Text → ℕ → Round
  unfolding span fraction strtoll is_empty
  number_token sign s line =
      let (digits, behind) = span is_digit s in
      let (part, rest) = fraction (not (is_empty sign)) behind in
      let text = sign ++ digits ++ part in
      if is_empty part
      then token
          (record {
            kind = TokenKind.int_literal;
            text = text;
            int_value = strtoll (not (is_empty sign)) digits;
            float_value = 0;
            line = line;
          })
          rest
      else token
          (record {
            kind = TokenKind.float_literal;
            text = text;
            int_value = 0;
            float_value = reader.strtod text;
            line = line;
          })
          rest

  -- One round of the loop, at the character `c`.
  unfoldable pub lex_round : ℕ → Text → ℕ → Round
  unfolding span starts_digit
  lex_round c s line =
      if is_newline c
      then skip s (line + 1)
      else if is_space c
      then skip s line
      else if c == 59
      then skip (span (λ d. not (is_newline d)) s).1 line
      else if c == 45 && starts_digit s
      then number_token (c ∷ []) s line
      else if is_digit c
      then number_token [] (c ∷ s) line
      else if c == 114 && starts_digit s
      then register_token c s line
      else if is_ident_start c
      then identifier_token c s line
      else arrow_or_other c s line

  unfoldable pub lex_from : ℕ → Text → ℕ → Result LexError (List Token)
  unfolding make_token
  lex_from fuel [] line = ok (make_token TokenKind.end_of_source [] line ∷ [])
  lex_from zero (c ∷ s) line = err LexError.out_of_rounds
  lex_from (suc fuel) (c ∷ s) line = elim (lex_round c s line) [
    | skip rest line' ↦ lex_from fuel rest line'
    | token t rest ↦ lex_from fuel rest line >>= λ ts. ok (t ∷ ts)
    | fail e ↦ err e
  ]

  -- `lex`.
  unfoldable pub lex : Text → Result LexError (List Token)
  unfolding lex_from
  lex src = lex_from (length src) src 1
