-- ===== src/Alu/Mirror.antt =====
-- `bitreverseGeneric` of src/vm/interpreter.cpp, bit by bit.
use uasm.Base.{
  ℕ, zero, suc, ◌+◌, ◌-◌, ◌*◌, ◌/◌, ◌%◌, ◌^◌, ◌<◌, ◌≤◌, ◌≡◌, sym, subst, ap, ◌∙◌, ◌==◌, inl, inr,
  Bool-cases, ok, arith,
}
use native.Mathlib.Nat.{pow-suc, pow-le-pow_right, div-div-eq-div-mul}
use uasm.Types.{ValueType, i8, u8, i16, u16, i32, u32, i64, u64, i128, u128, ptr, size_of_type}
use uasm.Ast.Opcode
use uasm.Value.Float.{FloatOps}
use uasm.Value.Defs.{value}
use uasm.Value.Conversions.{IsInteger, FitsType}
use uasm.Alu.Bits.{bit, bit_width, bitreverse_loop, bitreverse_generic, bit_unary_of, bit_unary}
use uasm.Alu.Signed.{unsigned_of-value}
use uasm.Alu.Counting.{value_of-fits}
use uasm.Alu.Modular.{IsInteger-float}

bit-half : (v i : ℕ) → bit (v / 2) i ≡ bit v (suc i)
bit-half v i =
    ap (λ x. x % 2) (div-div-eq-div-mul v 2 (2 ^ i) ∙ ap (λ x. v / x) (omega (arith, pow-suc 2 i)))

bit-half_at : (v i j : ℕ) → j ≡ suc i → bit (v / 2) i ≡ bit v j
bit-half_at v i j next = bit-half v i ∙ ap (bit v) (sym next)

-- One round: the lowest bit of `v` goes below those of `r`.
abbrev pushed : ℕ → ℕ → ℕ
pushed r v = r * 2 % 2 ^ 128 + v % 2

pushed-fits : (r v k : ℕ) → r < 2 ^ k → pushed r v < 2 ^ suc k
pushed-fits r v k h = omega (arith, pow-suc 2 k)

bit-pushed : (r v k j : ℕ) → r < 2 ^ k → suc k ≤ 128 → bit (pushed r v) (suc j) ≡ bit r j
bit-pushed r v k j h room =
    let most : 2 ^ k ≤ 2 ^ 127 = pow-le-pow_right (omega arith) {i = k} {j = 127} (omega arith) in
    let halved : pushed r v / 2 ≡ r = omega arith in
    sym (bit-half (pushed r v) j) ∙ ap (λ x. bit x j) halved

bit-pushed_first : (r v : ℕ) → bit (pushed r v) 0 ≡ bit v 0
bit-pushed_first r v = omega arith

bitreverse_loop-fits : (r v k n : ℕ) → r < 2 ^ k → bitreverse_loop r v n < 2 ^ (n + k)
unfolding bitreverse_loop
bitreverse_loop-fits r v k zero h = subst (λ x. r < 2 ^ x) (omega arith) h
bitreverse_loop-fits r v k (suc n) h =
    subst (λ x. bitreverse_loop (pushed r v) (v / 2) n < 2 ^ x) (omega arith)
      (bitreverse_loop-fits (pushed r v) (v / 2) (suc k) n (pushed-fits r v k h))

-- The bits that are there move up by the rounds that are left.
bitreverse_loop-high :
    (r v k n j i : ℕ)
    → r < 2 ^ k
    → n + k ≤ 128
    → i ≡ n + j
    → bit (bitreverse_loop r v n) i ≡ bit r j
unfolding bitreverse_loop
bitreverse_loop-high r v k zero j i h room place = ap (bit r) (omega arith)
bitreverse_loop-high r v k (suc n) j i h room place =
    bitreverse_loop-high (pushed r v) (v / 2) (suc k) n (suc j) i (pushed-fits r v k h)
      (omega arith) (omega arith)
    ∙ bit-pushed r v k j h (omega arith)

-- The bits below them are those of `v`, the other way round.
bitreverse_loop-low :
    (r v k n j : ℕ)
    → r < 2 ^ k
    → n + k ≤ 128
    → j < n
    → bit (bitreverse_loop r v n) j ≡ bit v (n - 1 - j)
unfolding bitreverse_loop
bitreverse_loop-low r v k zero j h room inside = absurd (omega arith)
bitreverse_loop-low r v k (suc n) j h room inside = elim (Bool-cases (j == n)) [
  | inl last ↦
      bitreverse_loop-high (pushed r v) (v / 2) (suc k) n 0 j (pushed-fits r v k h) (omega arith)
        (ground arith)
      ∙ bit-pushed_first r v
      ∙ ap (bit v) {x = 0} (ground arith)
  | inr below ↦
      bitreverse_loop-low (pushed r v) (v / 2) (suc k) n j (pushed-fits r v k h) (omega arith)
        (ground arith)
      ∙ bit-half_at v (n - 1 - j) (suc n - 1 - j) (ground arith)
]

-- The 128 bits of the loop's result have room for every width.
width-le : (t : ValueType) → IsInteger t → bit_width t ≤ 128
unfolding bit_width size_of_type
width-le i8 k = omega arith
width-le u8 k = omega arith
width-le i16 k = omega arith
width-le u16 k = omega arith
width-le i32 k = omega arith
width-le u32 k = omega arith
width-le i64 k = omega arith
width-le u64 k = omega arith
width-le i128 k = omega arith
width-le u128 k = omega arith
width-le ptr k = omega arith
width-le _ k = absurd k

module _ ⦃fl : FloatOps⦄ where
  -- For a value of an integer or pointer type of w bits whose bits fit it, `Bitreverse` returns a
  -- value of the type whose bits fit it, and whose bit i is bit w - 1 - i of the operand, for
  -- every i below w.
  pub bit_unary-bitreverse :
      (t : ValueType) (x : ℕ)
      → IsInteger t
      → FitsType (value t x)
      → (r : ℕ) × (bit_unary Opcode.bitreverse t (value t x) ≡ ok (value t r))
        × (r < 2 ^ bit_width t)
        × ((i : ℕ) → i < bit_width t → bit r i ≡ bit x (bit_width t - 1 - i))
  unfolding bit_unary bit_unary_of bitreverse_generic
  bit_unary-bitreverse t x k h =
      let w = bit_width t in
      let room = width-le t k in
      let fits : bitreverse_loop 0 x w < 2 ^ w =
        subst (λ n. bitreverse_loop 0 x w < 2 ^ n) (omega arith)
          (bitreverse_loop-fits 0 x 0 w (omega arith)) in
      (
        bitreverse_loop 0 x w,
        rw (IsInteger-float t k, unsigned_of-value t x k h) (ap ok (value_of-fits t _ k fits)),
        fits,
        λ i inside. bitreverse_loop-low 0 x 0 w i (omega arith) (omega arith) inside,
      )
