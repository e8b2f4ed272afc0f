-- ===== src/Serializer/Prefix.antt =====
-- Files that end too early. A reader that does not run out of bytes behaves the same on a longer
-- input, so no proper prefix of a written file reads as a program.
use uasm.Base.{
  ℕ, zero, suc, ◌+◌, ◌-◌, ◌<◌, ◌≤◌, ◌≡◌, refl, sym, ap, ◌∙◌, List, [], ◌∷◌, ◌++◌, length, Result,
  ok, err, arith, append-nil, inl, inr, some, take, drop, take-append, drop-append, Bool-cases,
  text_eq, subst, ltb→lt, take-append-drop, ◌>>=◌ as ◌>>=ᵣ◌, take-length_append, ltb,
}
use uasm.Ast.{Program}
use uasm.Serializer.Writer
use uasm.Serializer.Writer.{uo_version}
use uasm.Serializer.Reader
use uasm.Serializer.Reader.{Read, ◌>>=◌, pure, SerializeError}
use uasm.Serializer.Encode.{write_program, write_uo}
use uasm.Serializer.Decode.{
  read_each, read_function, read_program, read_uo, read_bytes, read_body, read_version,
}
use uasm.Serializer.RoundTrip.{FitsProgram, Reads-program, file_head, read_uo-file_head}
use uasm.Serializer.Stable.{extend, Stable-program}

no_rest :
    {A : Type 0} {a : A} (r : Result SerializeError (A × List ℕ)) (x : ℕ) (back : List ℕ)
    → ok (a, []) ≡ extend (x ∷ back) r
    → ⊥
no_rest (ok (b, [])) x back h = cc
no_rest (ok (b, y ∷ rest)) x back h = cc
no_rest (err e) x back h = cc

-- A proper prefix of the bytes of a program runs out.
read_program_truncated :
    (p : Program) (x : ℕ) (front back : List ℕ)
    → FitsProgram p
    → write_program p ≡ front ++ (x ∷ back)
    → read_program uo_version front ≡ err SerializeError.unexpected_end
read_program_truncated p x front back h e = elim ((Stable-program uo_version).on front (x ∷ back)) [
  | inl short ↦ short
  | inr same ↦ absurd (
      no_rest (read_program uo_version front) x back
        (sym (rw (append-nil, e) at ((Reads-program p h).on [])) ∙ same))
]

-- A file that ends inside the head: what is left of the head is no whole count.
short_file :
    (j : ℕ) (body : List ℕ)
    → j < 8
    → read_uo (some (take (6 + j) (file_head body))) ≡ err SerializeError.unexpected_end
unfolding file_head read_uo read_bytes read_body read_version read_program read_each read_function
    Reader.u32 Reader.str Reader.chars ◌>>=◌ text_eq
short_file zero body h = refl
short_file (suc zero) body h = refl
short_file (suc (suc zero)) body h = refl
short_file (suc (suc (suc zero))) body h = refl
short_file (suc (suc (suc (suc zero)))) body h = refl
short_file (suc (suc (suc (suc (suc zero))))) body h = refl
short_file (suc (suc (suc (suc (suc (suc zero)))))) body h = refl
short_file (suc (suc (suc (suc (suc (suc (suc zero))))))) body h = refl
short_file (suc (suc (suc (suc (suc (suc (suc (suc j)))))))) body h = absurd (omega arith)

take-length-eq {ℓ} : {A : Type ℓ} (l xs ys : List A) → l ≡ xs ++ ys → take (length xs) l ≡ xs
take-length-eq l xs ys e = rw e (take-length_append xs ys)

module _ (p : Program) (x : ℕ) (front back : List ℕ) (e : write_uo p ≡ front ++ (x ∷ back)) where
  short_front :
      6 ≤ length front
      → length front < 14
      → read_uo (some front) ≡ err SerializeError.unexpected_end
  unfolding write_uo file_head
  short_front six short =
      let n : length front ≡ 6 + (length front - 6) = omega arith in
      let whole : take (6 + (length front - 6)) (file_head (write_program p)) ≡ front =
        rw (← n) (take-length-eq _ front (x ∷ back) e) in
      subst (λ l. read_uo (some l) ≡ err SerializeError.unexpected_end) whole
        (short_file (length front - 6) (write_program p) (omega arith))

  long_front : 14 ≤ length front → front ≡ file_head (drop 14 front)
  unfolding write_uo file_head
  long_front long =
      sym (take-append-drop 14 front)
      ∙ ap (λ l. l ++ drop 14 front)
          (sym (take-append 14 front (x ∷ back) long) ∙ ap (take 14) (sym e))

  long_rest : 14 ≤ length front → write_program p ≡ drop 14 front ++ (x ∷ back)
  unfolding write_uo Writer.u32
  long_rest long = ap (drop 14) e ∙ drop-append 14 front (x ∷ back) long

-- For a program that fits the format, every proper prefix of the written file that has the six
-- bytes of the magic number fails to read, with the error for a file that ends too early.
pub read_uo_truncated :
    (p : Program) (x : ℕ) (front back : List ℕ)
    → FitsProgram p
    → 6 ≤ length front
    → write_uo p ≡ front ++ (x ∷ back)
    → read_uo (some front) ≡ err SerializeError.unexpected_end
unfolding file_head
read_uo_truncated p x front back h six e = elim (Bool-cases (ltb (length front) 14)) [
  | inl short ↦ short_front p x front back e six (omega (arith, ltb→lt _ _ short))
  | inr long ↦
      let n : 14 ≤ length front = ground arith in
      rw (long_front p x front back e n) (read_uo-file_head (drop 14 front))
      ∙ ap (λ r. r >>=ᵣ λ y. ok y.0)
          (read_program_truncated p x (drop 14 front) back h (long_rest p x front back e n))
]
