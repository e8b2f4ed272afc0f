-- ===== src/Serializer/Stable.antt =====
-- Readers and longer inputs: a reader that does not run out of bytes does the same whatever follows.
use uasm.Base.{
  ℕ, zero, suc, ◌≡◌, refl, sym, ap, ◌∙◌, Bool, true, false, ◌==◌, List, [], ◌∷◌, ◌++◌, length,
  Result, ok, err, arith, leb, ◌⊎◌, inl, inr, if◌then◌else◌, take-append, drop-append, Bool-cases,
  Result-cases, length-append,
}
use uasm.Serializer.Reader
use uasm.Serializer.Reader.{Read, ◌>>=◌, pure, SerializeError}
use uasm.Serializer.Decode.{
  read_each, read_operand, read_operand_of, read_header, read_instruction, read_param, read_block,
  read_function, read_program,
}

-- What a reader answers where `more` stands behind the input that it was given.
abbrev pub extend :
    {A : Type 0} → List ℕ → Result SerializeError (A × List ℕ) → Result SerializeError (A × List ℕ)
extend more (ok (a, rest)) = ok (a, rest ++ more)
extend more (err e) = err e

-- The reader runs out of bytes, or it does the same whatever follows the input.
pub record Stable {A : Type 0} (r : Read A) : Type 0 where
  pub on :
      (front more : List ℕ)
      → (r front ≡ err SerializeError.unexpected_end) ⊎ (r (front ++ more) ≡ extend more (r front))

Stable-pure : {A : Type 0} (a : A) → Stable (pure a)
unfolding pure
Stable-pure a = record { on = λ front more. inr refl }

module _ {A B : Type 0} (m : Read A) (f : A → Read B) where
  bind-ok :
      {front : List ℕ} {a : A} {rest : List ℕ} → m front ≡ ok (a, rest) → (m >>= f) front ≡ f a rest
  unfolding ◌>>=◌
  bind-ok e = rw (e, ◌>>=◌)

  bind-err : {front : List ℕ} {e : SerializeError} → m front ≡ err e → (m >>= f) front ≡ err e
  unfolding ◌>>=◌
  bind-err e = rw (e, ◌>>=◌)

Stable-bind :
    {A B : Type 0} {m : Read A} (f : A → Read B)
    → Stable m
    → ((a : A) → Stable (f a))
    → Stable (m >>= f)
Stable-bind {m = m} f h k = record {
  on = λ front more. elim (Result-cases (m front)) [
    | inl ((a, rest), e) ↦ elim (h.on front more) [
      | inl short ↦ inl (bind-err m f short)
      | inr same ↦ elim ((k a).on rest more) [
        | inl short ↦ inl (bind-ok m f e ∙ short)
        | inr same' ↦
            inr (bind-ok m f (rw e at same) ∙ same' ∙ ap (extend more) (sym (bind-ok m f e)))
      ]
    ]
    | inr (x, e) ↦ elim (h.on front more) [
      | inl short ↦ inl (bind-err m f short)
      | inr same ↦ inr (bind-err m f (rw e at same) ∙ ap (extend more) (sym (bind-err m f e)))
    ]
  ];
}

Stable-if :
    {A : Type 0} (b : Bool) {r s : Read A} → Stable r → Stable s → Stable (if b then r else s)
Stable-if true h k = h
Stable-if false h k = k

Stable-err : {A : Type 0} (e : SerializeError) → Stable {A = A} (λ rest. err e)
Stable-err e = record { on = λ front more. inr refl }

abbrev ReadsOn : (List ℕ → Result SerializeError (ℕ × List ℕ)) → List ℕ → List ℕ → Type 0
ReadsOn r front more =
    (r front ≡ err SerializeError.unexpected_end) ⊎ (r (front ++ more) ≡ extend more (r front))

u8_on : (front more : List ℕ) → ReadsOn Reader.u8 front more
unfolding Reader.u8
u8_on [] more = inl refl
u8_on (a ∷ rest) more = inr refl

u16_on : (front more : List ℕ) → ReadsOn Reader.u16 front more
unfolding Reader.u16
u16_on (a ∷ b ∷ rest) more = inr refl
u16_on _ more = inl refl

u32_on : (front more : List ℕ) → ReadsOn Reader.u32 front more
unfolding Reader.u32
u32_on (a ∷ b ∷ c ∷ d ∷ rest) more = inr refl
u32_on _ more = inl refl

i64_on : (front more : List ℕ) → ReadsOn Reader.i64 front more
unfolding Reader.i64
i64_on (a ∷ b ∷ c ∷ d ∷ e ∷ f ∷ g ∷ h ∷ rest) more = inr refl
i64_on _ more = inl refl

Stable-u8 : Stable Reader.u8
Stable-u8 = record { on = u8_on }

Stable-u16 : Stable Reader.u16
Stable-u16 = record { on = u16_on }

Stable-u32 : Stable Reader.u32
Stable-u32 = record { on = u32_on }

Stable-i64 : Stable Reader.i64
Stable-i64 = record { on = i64_on }

Stable-f64 : Stable Reader.f64
unfolding Reader.f64
Stable-f64 = Stable-i64

Stable-chars : (len : ℕ) → Stable (Reader.chars len)
unfolding Reader.chars
Stable-chars len = record {
  on = λ front more. elim (Bool-cases (leb len (length front))) [
    | inl fits ↦ inr (
        ground
          (arith, take-append len front more, drop-append len front more, length-append front more))
    | inr short ↦ inl (rw short)
  ];
}

Stable-str : Stable Reader.str
unfolding Reader.str
Stable-str = Stable-bind _ Stable-u32 Stable-chars

Stable-each : {A : Type 0} (count : ℕ) {r : Read A} → Stable r → Stable (read_each count r)
unfolding read_each
Stable-each zero h = Stable-pure []
Stable-each (suc count) h =
    Stable-bind _ h (λ x. Stable-bind _ (Stable-each count h) (λ xs. Stable-pure _))

Stable-operand : Stable read_operand
unfolding read_operand read_operand_of
Stable-operand = Stable-bind _ Stable-u8 (λ kind.
    Stable-if (kind == 0) (Stable-bind _ Stable-u32 (λ r. Stable-pure _)) (
      Stable-if (kind == 1) (Stable-bind _ Stable-i64 (λ v. Stable-pure _)) (
        Stable-if (kind == 2) (Stable-bind _ Stable-f64 (λ v. Stable-pure _)) (
          Stable-if (kind == 3) (Stable-bind _ Stable-str (λ name. Stable-pure _))
            (Stable-err _)))))

Stable-header : (version : ℕ) → Stable (read_header version)
unfolding read_header
Stable-header version =
    Stable-if (leb 1 version)
      (Stable-bind _ Stable-u16
        (λ op. Stable-bind _ Stable-u8 (λ t. Stable-bind _ Stable-u8 (λ t2. Stable-pure _))))
      (Stable-bind _ Stable-u8 (λ op. Stable-bind _ Stable-u8 (λ t. Stable-pure _)))

Stable-instruction : (version : ℕ) → Stable (read_instruction version)
unfolding read_instruction
Stable-instruction version = Stable-bind _ (Stable-header version) (λ head.
    Stable-bind _ Stable-u8 (λ flag. Stable-bind _ Stable-u32 (λ dest.
      Stable-bind _ Stable-u8
        (λ count. Stable-bind _ (Stable-each count Stable-operand) (λ ops. Stable-pure _)))))

Stable-param : Stable read_param
unfolding read_param
Stable-param = Stable-bind _ Stable-u8 (λ tag. Stable-pure _)

Stable-block : (version : ℕ) → Stable (read_block version)
unfolding read_block
Stable-block version = Stable-bind _ Stable-str (λ label. Stable-bind _ Stable-u32 (λ count.
    Stable-bind _ (Stable-each count (Stable-instruction version)) (λ instrs. Stable-pure _)))

Stable-function : (version : ℕ) → Stable (read_function version)
unfolding read_function
Stable-function version = Stable-bind _ Stable-str (λ name. Stable-bind _ Stable-str (λ module_name.
    Stable-bind _ Stable-u8 (λ exported. Stable-bind _ Stable-u8 (λ params.
      Stable-bind _ (Stable-each params Stable-param) (λ ps. Stable-bind _ Stable-u8 (λ return_type.
        Stable-bind _ Stable-u32 (λ blocks.
          Stable-bind _ (Stable-each blocks (Stable-block version)) (λ bs. Stable-pure _))))))))

pub Stable-program : (version : ℕ) → Stable (read_program version)
unfolding read_program
Stable-program version = Stable-bind _ Stable-u32 (λ count.
    Stable-bind _ (Stable-each count (Stable-function version))
      (λ fs. Stable-bind _ Stable-u32 (λ entry. Stable-pure _)))
