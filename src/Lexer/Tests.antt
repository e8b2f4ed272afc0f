-- ===== src/Lexer/Tests.antt =====
-- src/frontend/lexer.cpp on a small text. The C library's `strtod` returns 0.
use uasm.Base.{◌++◌, ◌-◌, ◌^◌, ◌+◌, ◌≡◌, refl, [], ◌∷◌, Text, codes, ok}
use uasm.Lexer.Defs.{
  TokenKind, FloatReader, lex, lex_from, lex_round, make_token, identifier_token, register_token,
  arrow_or_other, punctuation, number_token,
}
use uasm.Lexer.Chars.{is_space, is_digit, is_ident_start, is_alpha, is_ident_char}
use uasm.Lexer.Rounds.{newlines}
use uasm.Lexer.Correct.{IsLexed, lex-IsLexed}

abbrev zero_reader : FloatReader
zero_reader = record { strtod = λ s. 0 }

-- An instruction, and a comment on the next line.
abbrev source : Text
source = codes "add r1, -12" ++ (10 ∷ codes "; x")

lex-IsLexed_example : IsLexed 1 (1 + newlines source) (lex ⦃reader = zero_reader⦄ source)
lex-IsLexed_example = lex-IsLexed ⦃reader = zero_reader⦄ source

tokens :
    lex ⦃reader = zero_reader⦄ source
    ≡ ok (
        make_token TokenKind.identifier (codes "add") 1
        ∷ record (make_token TokenKind.register (codes "r1") 1) { int_value = 1 }
        ∷ make_token TokenKind.comma (codes ",") 1
        ∷ record (make_token TokenKind.int_literal (codes "-12") 1) { int_value = 2 ^ 64 - 12 }
        ∷ make_token TokenKind.end_of_source [] 2
        ∷ [])
unfolding lex lex_from lex_round make_token is_space is_digit is_ident_start is_alpha
    identifier_token is_ident_char register_token arrow_or_other punctuation number_token
tokens = refl
