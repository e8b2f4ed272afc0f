-- ===== src/Memory/Coding.antt =====
-- Round trips of the UTF-8 cases of src/vm/interpreter.cpp.
use uasm.Base.{
  subst, >>=-eq-ok, ℕ, zero, suc, ◌+◌, ◌-◌, ◌*◌, ◌/◌, ◌%◌, ◌^◌, ◌<◌, ◌≤◌, ◌≡◌, refl, ◌∙◌, ap, Bool,
  true, false, List, [], ◌∷◌, length, some, ltb, leb, ◌==◌, ok, inl, inr, Bool-cases, arith,
  Option-cases,
}
use Prim.Native.Nat.{bit_or}
use uasm.Memory.Bytes.{Bytes, update}
use uasm.Memory.Defs.{check_range, check_bounds, memory_size}
use uasm.Memory.Utf8

-- The lead byte of four bytes.
lead_four : (k : ℕ) → k < 8 → bit_or 240 k ≡ 240 + k
lead_four zero h = refl
lead_four (suc zero) h = refl
lead_four (suc (suc zero)) h = refl
lead_four (suc (suc (suc zero))) h = refl
lead_four (suc (suc (suc (suc zero)))) h = refl
lead_four (suc (suc (suc (suc (suc zero))))) h = refl
lead_four (suc (suc (suc (suc (suc (suc zero)))))) h = refl
lead_four (suc (suc (suc (suc (suc (suc (suc zero))))))) h = refl
lead_four (suc (suc (suc (suc (suc (suc (suc (suc n)))))))) h = absurd (omega arith)

check_range-inside : (p len : ℕ) → p + len ≤ memory_size → check_range p len ≡ ok tt
unfolding check_range check_bounds
check_range-inside p len h = ground arith

-- A lead byte whose `n` continuation bytes are in memory.
decode-lead :
    (mem : Bytes) (p n : ℕ)
    → Utf8.extra_bytes (mem p) ≡ some n
    → p + (n + 1) ≤ memory_size
    → Utf8.decode mem p ≡ Utf8.decode_rest mem (p + 1) (Utf8.lead_bits (mem p) n) n
unfolding Utf8.decode
decode-lead mem p n lead h =
    rw (check_range-inside p 1 (omega arith), lead, check_range-inside p (n + 1) h, Utf8.decode)
      refl

decode_rest-next :
    (mem : Bytes) (at cp x n : ℕ)
    → mem at ≡ Utf8.continuation x
    → Utf8.decode_rest mem at cp (suc n) ≡ Utf8.decode_rest mem (at + 1) (cp * 2 ^ 6 + x % 2 ^ 6) n
unfolding Utf8.decode_rest Utf8.continuation Utf8.is_continuation
decode_rest-next mem at cp x n e =
    let top : Utf8.is_continuation (mem at) ≡ true = ground arith in
    let low : mem at % 2 ^ 6 ≡ x % 2 ^ 6 = omega arith in rw (top, low, Utf8.decode_rest) refl

-- Memory that holds the bytes of a code point.
abbrev pub Holds : Bytes → ℕ → List ℕ → Type 0
Holds mem p [] = Unit
Holds mem p (b ∷ rest) = (mem p ≡ b) × Holds mem (p + 1) rest

write_list-below :
    (mem : Bytes) (p a : ℕ) (bs : List ℕ) → a < p → Utf8.write_list mem p bs a ≡ mem a
unfolding Utf8.write_list
write_list-below mem p a [] h = refl
write_list-below mem p a (b ∷ rest) h =
    ground (arith, write_list-below (update mem p b) (p + 1) a rest)

write_list-Holds : (mem : Bytes) (p : ℕ) (bs : List ℕ) → Holds (Utf8.write_list mem p bs) p bs
unfolding Utf8.write_list
write_list-Holds mem p [] = tt
write_list-Holds mem p (b ∷ rest) = (
  ground (arith, write_list-below (update mem p b) (p + 1) p rest),
  write_list-Holds (update mem p b) (p + 1) rest,
)

module _ (mem : Bytes) (p cp : ℕ) where
  decode_one : cp < 128 → p + 1 ≤ memory_size → mem p ≡ cp → Utf8.decode mem p ≡ ok cp
  unfolding Utf8.extra_bytes Utf8.lead_bits Utf8.decode_rest
  decode_one h room e = decode-lead mem p 0 (ground arith) room ∙ ap ok e

  decode_two :
      128 ≤ cp
      → cp < 2048
      → p + 2 ≤ memory_size
      → mem p ≡ 192 + cp / 2 ^ 6
      → mem (p + 1) ≡ Utf8.continuation cp
      → Utf8.decode mem p ≡ ok cp
  unfolding Utf8.extra_bytes Utf8.lead_bits Utf8.decode_rest
  decode_two l h room e e₁ =
      decode-lead mem p 1 (ground arith) room
      ∙ decode_rest-next mem (p + 1) _ cp 0 e₁
      ∙ ap ok (omega arith)

  decode_three :
      2048 ≤ cp
      → cp < 65536
      → p + 3 ≤ memory_size
      → mem p ≡ 224 + cp / 2 ^ 12
      → mem (p + 1) ≡ Utf8.continuation (cp / 2 ^ 6)
      → mem (p + 1 + 1) ≡ Utf8.continuation cp
      → Utf8.decode mem p ≡ ok cp
  unfolding Utf8.extra_bytes Utf8.lead_bits Utf8.decode_rest
  decode_three l h room e e₁ e₂ =
      decode-lead mem p 2 (ground arith) room
      ∙ decode_rest-next mem (p + 1) _ (cp / 2 ^ 6) 1 e₁
      ∙ decode_rest-next mem (p + 1 + 1) _ cp 0 e₂
      ∙ ap ok (omega arith)

  decode_four :
      65536 ≤ cp
      → cp < 2 ^ 21
      → p + 4 ≤ memory_size
      → mem p ≡ bit_or 240 (cp / 2 ^ 18) % 2 ^ 8
      → mem (p + 1) ≡ Utf8.continuation (cp / 2 ^ 12)
      → mem (p + 1 + 1) ≡ Utf8.continuation (cp / 2 ^ 6)
      → mem (p + 1 + 1 + 1) ≡ Utf8.continuation cp
      → Utf8.decode mem p ≡ ok cp
  unfolding Utf8.extra_bytes Utf8.lead_bits Utf8.decode_rest
  decode_four l h room e e₁ e₂ e₃ =
      let lead : mem p ≡ 240 + cp / 2 ^ 18 =
        e ∙ ap (λ b. b % 2 ^ 8) (lead_four (cp / 2 ^ 18) (omega arith)) ∙ omega arith in
      decode-lead mem p 3 (ground arith) room
      ∙ decode_rest-next mem (p + 1) _ (cp / 2 ^ 12) 2 e₁
      ∙ decode_rest-next mem (p + 1 + 1) _ (cp / 2 ^ 6) 1 e₂
      ∙ decode_rest-next mem (p + 1 + 1 + 1) _ cp 0 e₃
      ∙ ap ok (omega arith)

decode-Holds :
    (mem : Bytes) (p cp : ℕ)
    → cp < 2 ^ 21
    → p + length (Utf8.encoded cp) ≤ memory_size
    → Holds mem p (Utf8.encoded cp)
    → Utf8.decode mem p ≡ ok cp
unfolding Utf8.encoded
decode-Holds mem p cp small room held = elim (Bool-cases (ltb cp 128)) [
  | inl one ↦ decode_one mem p cp (ground arith) (rw one at room) (rw one at held).0
  | inr more ↦ elim (Bool-cases (ltb cp 2048)) [
    | inl two ↦
        let (e, (e₁, _)) = rw (more, two) at held in
        decode_two mem p cp (ground arith) (ground arith) (rw (more, two) at room) e e₁
    | inr more' ↦ elim (Bool-cases (ltb cp 65536)) [
      | inl three ↦
          let (e, (e₁, (e₂, _))) = rw (more, more', three) at held in
          decode_three mem p cp (ground arith) (ground arith) (rw (more, more', three) at room) e e₁
            e₂
      | inr four ↦
          let (e, (e₁, (e₂, (e₃, _)))) = rw (more, more', four) at held in
          decode_four mem p cp (ground arith) small (rw (more, more', four) at room) e e₁ e₂ e₃
    ]
  ]
]

check_range-room : (p len : ℕ) → check_range p len ≡ ok tt → p + len ≤ memory_size
unfolding check_range check_bounds
check_range-room p len h = ground arith

-- If encoding a number below 2 ^ 21 at an address succeeds, then decoding at that address gives the
-- number.
pub decode-encode :
    (mem mem' : Bytes) (p cp n : ℕ)
    → cp < 2 ^ 21
    → Utf8.encode mem p cp ≡ ok (n, mem')
    → Utf8.decode mem' p ≡ ok cp
unfolding Utf8.encode
decode-encode mem mem' p cp n small e =
    let (_, inside, done) = >>=-eq-ok (check_range p (length (Utf8.encoded cp))) _ e in
    let written : Utf8.write_list mem p (Utf8.encoded cp) ≡ mem' = cc (done) in
    subst (λ m. Utf8.decode m p ≡ ok cp) written
      (decode-Holds _ p cp small (check_range-room p _ inside)
        (write_list-Holds mem p (Utf8.encoded cp)))

-- The checking loop has enough rounds if it has more than there are bytes.
valid_within-ok :
    (rounds : ℕ) (mem : Bytes) (p len : ℕ)
    → len < rounds
    → (b : Bool) × (Utf8.valid_within mem p len rounds ≡ ok b)
unfolding Utf8.valid_within
valid_within-ok zero mem p len h = absurd (omega arith)
valid_within-ok (suc rounds) mem p len h = elim (Bool-cases (len == 0)) [
  | inl done ↦ (true, rw done refl)
  | inr more ↦ elim (Option-cases (Utf8.extra_bytes (mem p))) [
    | inl bad ↦ (false, rw (more, bad, Utf8.valid_within) refl)
    | inr (extra, lead) ↦ elim (Bool-cases (leb len extra)) [
      | inl short ↦ (false, rw (more, lead, short, Utf8.valid_within) refl)
      | inr fits ↦ elim (Bool-cases (Utf8.all_continuation mem (p + 1) extra)) [
        | inr broken ↦ (false, rw (more, lead, fits, broken, Utf8.valid_within) refl)
        | inl whole ↦
            let (b, e) =
              valid_within-ok rounds mem (p + extra + 1) (len - extra - 1) (ground arith) in
            (b, rw (more, lead, fits, whole, Utf8.valid_within) e)
      ]
    ]
  ]
]

-- Checking a range of bytes always ends with an answer: the bound on the rounds is enough.
pub is_valid-ok : (mem : Bytes) (p len : ℕ) → (b : Bool) × (Utf8.is_valid mem p len ≡ ok b)
unfolding Utf8.is_valid
is_valid-ok mem p len = valid_within-ok (len + 1) mem p len (omega arith)
