-- ===== src/Lexer/Rounds.antt =====
-- What one round of `lex` of src/frontend/lexer.cpp passes.
use uasm.Base.{
  ℕ, ◌+◌, ◌≤◌, ◌≡◌, refl, sym, ◌∙◌, ap, arith, Bool, true, false, not, ◌&&◌, ◌||◌, ◌==◌, [], ◌∷◌,
  length, Text, if◌then◌else◌, Bool-cases, inl, inr,
}
use uasm.Lexer.Chars.{
  is_digit, is_alpha, is_space, is_ident_start, is_ident_char, is_newline, starts_digit, span,
}
use uasm.Lexer.Defs.{
  TokenKind, Token, LexError, FloatReader, Round, skip, token, fail, make_token, fraction, is_empty,
  punctuation, register_token, identifier_token, param_token, arrow_or_other, number_token,
  lex_round,
}

-- The number of newlines in a text.
unfoldable pub newlines : Text → ℕ
newlines [] = 0
newlines (c ∷ s) = (if is_newline c then 1 else 0) + newlines s

-- An exception of the source, at a line.
abbrev pub IsThrownAt : ℕ → LexError → Type 0
IsThrownAt line (LexError.expected_name l) = l ≡ line
IsThrownAt line (LexError.unexpected_character c l) = l ≡ line
IsThrownAt line LexError.out_of_rounds = ⊥

-- `rest` is behind `s` with no newline between.
pub record IsBehind (s rest : Text) : Type 0 where
  pub shorter : length rest ≤ length s
  pub same_line : newlines rest ≡ newlines s

abbrev pub is_end : TokenKind → Bool
is_end TokenKind.end_of_source = true
is_end _ = false

-- From `s` at a line, a round goes on behind it, with the newlines counted, or throws at the line.
abbrev pub Passes : ℕ → ℕ → Text → Round → Type 0
Passes line c s (skip rest line') =
    (length rest ≤ length s) × (line ≤ line') × (line' + newlines rest ≡ line + newlines (c ∷ s))
Passes line c s (token t rest) = IsBehind s rest × (t.line ≡ line) × (is_end t.kind ≡ false)
Passes line c s (fail e) = IsThrownAt line e

IsBehind-self : (s : Text) → IsBehind s s
IsBehind-self s = record { shorter = omega arith; same_line = refl }

IsBehind-trans : (s t u : Text) → IsBehind s t → IsBehind t u → IsBehind s u
IsBehind-trans s t u h k = record {
  shorter = omega (arith, h.shorter, k.shorter);
  same_line = k.same_line ∙ h.same_line;
}

-- The characters that a loop passes are no newlines.
NoNewlines : (ℕ → Bool) → Type 0
NoNewlines p = (c : ℕ) → p c ≡ true → is_newline c ≡ false

digit-NoNewlines : NoNewlines is_digit
unfolding NoNewlines is_digit
digit-NoNewlines c h = ground arith

ident_char-NoNewlines : NoNewlines is_ident_char
unfolding NoNewlines is_ident_char is_digit is_alpha
ident_char-NoNewlines c h = ground arith

other-NoNewlines : NoNewlines (λ c. not (is_newline c))
unfolding NoNewlines
other-NoNewlines c h = ground arith

IsBehind-cons : (c : ℕ) (s : Text) → is_newline c ≡ false → IsBehind (c ∷ s) s
unfolding newlines
IsBehind-cons c s h = record {
  shorter = omega arith;
  same_line = sym (ap (λ b. (if b then 1 else 0) + newlines s) h ∙ omega arith);
}

span-IsBehind : (p : ℕ → Bool) → NoNewlines p → (s : Text) → IsBehind s (span p s).1
unfolding span NoNewlines
span-IsBehind p h [] = IsBehind-self []
span-IsBehind p h (c ∷ s) = elim (Bool-cases (p c)) [
  | inl passes ↦
      rw passes (IsBehind-trans (c ∷ s) s _ (IsBehind-cons c s (h c passes)) (span-IsBehind p h s))
  | inr stops ↦ rw stops (IsBehind-self (c ∷ s))
]

fraction-IsBehind : (signed : Bool) (s : Text) → IsBehind s (fraction signed s).1
unfolding fraction span
fraction-IsBehind signed [] = IsBehind-self []
fraction-IsBehind signed (c ∷ s) = elim (Bool-cases (c == 46 && (signed || starts_digit s))) [
  | inl point ↦ rw point (
      IsBehind-trans (c ∷ s) s _ (IsBehind-cons c s (ground arith))
        (span-IsBehind is_digit digit-NoNewlines s))
  | inr other ↦ rw other (IsBehind-self (c ∷ s))
]

digits-IsBehind : (s : Text) → IsBehind s (span is_digit s).1
digits-IsBehind = span-IsBehind is_digit digit-NoNewlines

name-IsBehind : (s : Text) → IsBehind s (span is_ident_char s).1
name-IsBehind = span-IsBehind is_ident_char ident_char-NoNewlines

pub record Goes (line c : ℕ) (s : Text) (r : Round) : Type 0 where
  pub at : Passes line c s r

module _ {line c : ℕ} {s : Text} where
  Goes-if :
      (b : Bool) (x y : Round)
      → Goes line c s x
      → Goes line c s y
      → Goes line c s (if b then x else y)
  Goes-if true x y h k = h
  Goes-if false x y h k = k

  Goes-token :
      (t : Token) (rest : Text)
      → IsBehind s rest
      → t.line ≡ line
      → is_end t.kind ≡ false
      → Goes line c s (token t rest)
  Goes-token t rest h e k = record { at = (h, e, k) }

  Goes-unexpected : (d : ℕ) → Goes line c s (fail (LexError.unexpected_character d line))
  Goes-unexpected d = record { at = refl }

  Goes-no_name : Goes line c s (fail (LexError.expected_name line))
  Goes-no_name = record { at = refl }

  ruleset round_rules = (
    Goes-if, Goes-token, Goes-unexpected, Goes-no_name, digits-IsBehind, name-IsBehind,
    IsBehind-self, refl,
  )

module _ (line c : ℕ) where
  punctuation-Goes : (s : Text) → Goes line c s (punctuation c s line)
  unfolding punctuation
  punctuation-Goes s = search round_rules depth 20

  register_token-Goes : (s : Text) → Goes line c s (register_token c s line)
  unfolding register_token
  register_token-Goes s = search round_rules depth 20

  identifier_token-Goes : (s : Text) → Goes line c s (identifier_token c s line)
  unfolding identifier_token
  identifier_token-Goes s = search round_rules depth 20

  param_token-Goes : (s : Text) → Goes line c s (param_token s line)
  unfolding param_token
  param_token-Goes s = named (span is_ident_char s).0 (span is_ident_char s).1 (name-IsBehind s)
    where
      named :
          (name rest : Text)
          → IsBehind s rest
          → Goes line c s (elim name [
            | [] ↦ fail (LexError.expected_name line)
            | d ∷ chars ↦
                if is_ident_start d
                then token (make_token TokenKind.param_ref (d ∷ chars) line) rest
                else fail (LexError.expected_name line)
          ])
      named [] rest h = Goes-no_name
      named (d ∷ chars) rest h = search round_rules depth 10

  arrow_or_other-Goes : (s : Text) → Goes line c s (arrow_or_other c s line)
  unfolding arrow_or_other
  arrow_or_other-Goes [] = search (round_rules, param_token-Goes, punctuation-Goes) depth 10
  arrow_or_other-Goes (d ∷ s) = elim (Bool-cases (c == 45 && d == 62)) [
    | inl arrow ↦ rw arrow (Goes-token _ _ (IsBehind-cons d s (ground arith)) refl refl)
    | inr other ↦
        rw other (Goes-if (c == 36) _ _ (param_token-Goes (d ∷ s)) (punctuation-Goes (d ∷ s)))
  ]

module _ ⦃reader : FloatReader⦄ (line c : ℕ) where
  number_token-Goes :
      (sign s s' : Text)
      → IsBehind s' (span is_digit s).1
      → Goes line c s' (number_token sign s line)
  unfolding number_token
  number_token-Goes sign s s' h =
      let behind =
        IsBehind-trans s' _ _ h (fraction-IsBehind (not (is_empty sign)) (span is_digit s).1) in
      search (round_rules, behind) depth 10

  digits_from : (s : Text) → is_digit c ≡ true → IsBehind s (span is_digit (c ∷ s)).1
  unfolding span
  digits_from s h = rw h (digits-IsBehind s)

  skipped :
      (s rest : Text) → is_newline c ≡ false → IsBehind s rest → Goes line c s (skip rest line)
  skipped s rest h k = record {
    at = (
      k.shorter,
      omega arith,
      ap (λ n. line + n) (k.same_line ∙ (IsBehind-cons c s h).same_line),
    );
  }

  newline_skipped : (s : Text) → is_newline c ≡ true → Goes line c s (skip s (line + 1))
  unfolding newlines
  newline_skipped s h = record { at = (omega arith, omega arith, rw h (omega arith)) }

  other_round :
      (s : Text)
      → Goes line c s (
          if c == 114 && starts_digit s
          then register_token c s line
          else if is_ident_start c
          then identifier_token c s line
          else arrow_or_other c s line)
  other_round s = Goes-if (c == 114 && starts_digit s) _ _ (register_token-Goes line c s) (
      Goes-if (is_ident_start c) _ _ (identifier_token-Goes line c s)
        (arrow_or_other-Goes line c s))

  -- What a round at the character `c` does.
  pub lex_round-Goes : (s : Text) → Goes line c s (lex_round c s line)
  unfolding lex_round
  lex_round-Goes s = elim (Bool-cases (is_newline c)) [
    | inl newline ↦ rw (newline, lex_round) (newline_skipped s newline)
    | inr other ↦
        rw (other, lex_round)
          (Goes-if (is_space c) _ _ (skipped s s other (IsBehind-self s)) (
            Goes-if (c == 59) _ _
              (skipped s _ other (span-IsBehind (λ d. not (is_newline d)) other-NoNewlines s))
              (Goes-if (c == 45 && starts_digit s) _ _
                (number_token-Goes (c ∷ []) s s (digits-IsBehind s))
                (elim (Bool-cases (is_digit c)) [
                  | inl digit ↦ rw digit (number_token-Goes [] (c ∷ s) s (digits_from s digit))
                  | inr no_digit ↦ rw no_digit (other_round s)
                ]))))
  ]

  pub lex_round-is_newline :
      (s : Text) → is_newline c ≡ true → lex_round c s line ≡ skip s (line + 1)
  unfolding lex_round
  lex_round-is_newline s h = rw h refl

pub newlines_other : (c : ℕ) (s : Text) → is_newline c ≡ false → newlines (c ∷ s) ≡ newlines s
newlines_other c s h = sym (IsBehind-cons c s h).same_line

pub newlines-is_newline :
    (c : ℕ) (s : Text) → is_newline c ≡ true → newlines (c ∷ s) ≡ 1 + newlines s
unfolding newlines
newlines-is_newline c s h = ap (λ b. (if b then 1 else 0) + newlines s) h
