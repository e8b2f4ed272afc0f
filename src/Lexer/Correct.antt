-- ===== src/Lexer/Correct.antt =====
-- `lex` of src/frontend/lexer.cpp ends, and its tokens and exceptions have the lines where they stand.
use uasm.Base.{
  ℕ, zero, suc, ◌+◌, ◌≤◌, ◌≡◌, refl, subst, sym, ◌∙◌, arith, true, false, List, [], ◌∷◌, length,
  Text, Result, ok, err, Bool-cases, inl, inr, ◌>>=◌,
}
use uasm.Lexer.Chars.{is_newline}
use uasm.Lexer.Defs.{
  Token, LexError, FloatReader, Round, skip, token, fail, make_token, lex_round, lex_from, lex,
}
use uasm.Lexer.Rounds.{
  newlines, is_end, Passes, IsThrownAt, lex_round-Goes, lex_round-is_newline, newlines_other,
  newlines-is_newline,
}

-- The last token, and no other, is the end of the source; the lines do not go down from `line`, and
-- the last is `last`.
pub data IsTokens (last : ℕ) : ℕ → List Token → Type 0 where
  ends :
      {line : ℕ} {t : Token}
      → is_end t.kind ≡ true
      → line ≤ last
      → t.line ≡ last
      → IsTokens last line (t ∷ [])
  goes_on :
      {line : ℕ} {t : Token} {ts : List Token}
      → is_end t.kind ≡ false
      → line ≤ t.line
      → IsTokens last t.line ts
      → IsTokens last line (t ∷ ts)

-- Tokens as above, or an exception of the source at one of the lines.
abbrev pub IsLexed : ℕ → ℕ → Result LexError (List Token) → Type 0
IsLexed line last (ok ts) = IsTokens last line ts
IsLexed line last (err e) = (l : ℕ) × (line ≤ l) × (l ≤ last) × IsThrownAt l e

later-IsTokens :
    (last line line' : ℕ) (ts : List Token)
    → line ≤ line'
    → IsTokens last line' ts
    → IsTokens last line ts
later-IsTokens last line line' ts h (ends e p q) = ends e (omega arith) q
later-IsTokens last line line' ts h (goes_on e p q) = goes_on e (omega arith) q

later :
    (last line line' : ℕ) (r : Result LexError (List Token))
    → line ≤ line'
    → IsLexed line' last r
    → IsLexed line last r
later last line line' (ok ts) h k = later-IsTokens last line line' ts h k
later last line line' (err e) h (l, p, q, thrown) = (l, omega arith, q, thrown)

-- A token in front.
pushed :
    (last line : ℕ) (t : Token) (r : Result LexError (List Token))
    → is_end t.kind ≡ false
    → t.line ≡ line
    → IsLexed line last r
    → IsLexed line last (r >>= λ ts. ok (t ∷ ts))
pushed last line t (ok ts) e same k =
    goes_on e (omega arith) (subst (λ l. IsTokens last l ts) (sym same) k)
pushed last line t (err thrown) e same k = k

module _ ⦃reader : FloatReader⦄ where
  -- The loop goes on well after a round.
  abbrev Follows : ℕ → ℕ → ℕ → Round → Type 0
  Follows fuel line last r = IsLexed line last (elim r [
    | skip rest line' ↦ lex_from fuel rest line'
    | token t rest ↦ lex_from fuel rest line >>= λ ts. ok (t ∷ ts)
    | fail e ↦ err e
  ])

  follow :
      (fuel line c last : ℕ) (s : Text) (r : Round)
      → ((rest : Text) (line' : ℕ)
          → length rest ≤ length s
          → line' + newlines rest ≡ last
          → IsLexed line' last (lex_from fuel rest line'))
      → line + newlines (c ∷ s) ≡ last
      → is_newline c ≡ false
      → Passes line c s r
      → Follows fuel line last r
  follow fuel line c last s (skip rest line') ih e other (short, below, sum) =
      later last line line' _ below (ih rest line' short (sum ∙ e))
  follow fuel line c last s (token t rest) ih e other (behind, same, more) =
      pushed last line t _ more same
        (ih rest line behind.shorter (omega (arith, behind.same_line, newlines_other c s other)))
  follow fuel line c last s (fail thrown) ih e other at_line =
      (line, omega arith, omega arith, at_line)

  lex_from-IsLexed :
      (fuel : ℕ) (s : Text) (line last : ℕ)
      → length s ≤ fuel
      → line + newlines s ≡ last
      → IsLexed line last (lex_from fuel s line)
  unfolding lex_from make_token newlines
  lex_from-IsLexed fuel [] line last h e = ends refl (omega arith) (omega arith)
  lex_from-IsLexed zero (c ∷ s) line last h e = absurd (omega arith)
  lex_from-IsLexed (suc fuel) (c ∷ s) line last h e = elim (Bool-cases (is_newline c)) [
    | inl newline ↦ subst (Follows fuel line last) (sym (lex_round-is_newline line c s newline)) (
        later last line (line + 1) _ (omega arith) (
          lex_from-IsLexed fuel s (line + 1) last (omega arith)
            (omega (arith, e, newlines-is_newline c s newline))))
    | inr other ↦
        follow fuel line c last s (lex_round c s line)
          (λ rest line' short sum. lex_from-IsLexed fuel rest line' last (omega arith) sum) e other
          (lex_round-Goes line c s).at
  ]

  -- On every text, with a round for each character, `lex` returns tokens of which the last and no
  -- other is the end of the source, whose lines do not go down from 1, and whose last line is 1
  -- plus the number of newlines; or it throws an exception of the source, with a line between
  -- those two.
  pub lex-IsLexed : (src : Text) → IsLexed 1 (1 + newlines src) (lex src)
  unfolding lex
  lex-IsLexed src = lex_from-IsLexed (length src) src 1 (1 + newlines src) (omega arith) refl
