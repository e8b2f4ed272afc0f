-- ===== src/Alu/Counting.antt =====
-- `clzGeneric` and `ctzGeneric` of src/vm/interpreter.cpp, which count zero bits.
use uasm.Base.{
  ℕ, zero, suc, ◌+◌, ◌-◌, ◌*◌, ◌/◌, ◌%◌, ◌^◌, ◌<◌, ◌≤◌, ◌≡◌, ◌⊎◌, inl, inr, refl, sym, subst, ap,
  ◌∙◌, ◌==◌, Bool-cases, true, false, ok, arith,
}
use native.Mathlib.Nat.{
  pow-suc, one-le-pow, mul_assoc, mul-div-le, mul-le-mul_left, lt-mul-div-succ, div-lt_iff_lt-mul,
  mul-div_right, zero-lt-suc, mul-zero,
}
use uasm.Types.{ValueType, i8, u8, i16, u16, i32, u32, i64, u64, i128, u128, ptr, size_of_type}
use uasm.Ast.Opcode
use uasm.Value.Float.{FloatOps}
use uasm.Value.Defs.{value, from_int128, from_int128_bits}
use uasm.Value.Conversions.{IsInteger, FitsType}
use uasm.Alu.Bits.{
  bit, bit_width, clz_loop, clz_generic, ctz_loop, ctz_generic, bit_unary_of, bit_unary,
}
use uasm.Alu.Signed.{unsigned_of-value}
use uasm.Alu.Modular.{IsInteger-float}

-- `c` zeros stand above the highest one of the `w` bits of `x`.
abbrev pub IsLeadingZeros : ℕ → ℕ → ℕ → Type 0
IsLeadingZeros w x c = ((x ≡ 0) × (c ≡ w)) ⊎ ((c < w) × (2 ^ (w - 1 - c) ≤ x) × (x < 2 ^ (w - c)))

-- `c` zeros stand below the lowest one of the `w` bits of `x`.
abbrev pub IsTrailingZeros : ℕ → ℕ → ℕ → Type 0
IsTrailingZeros w x c = ((x ≡ 0) × (c ≡ w)) ⊎ ((c < w) × (q : ℕ) × (x ≡ 2 ^ c * (2 * q + 1)))

leading-le : (w x c : ℕ) → IsLeadingZeros w x c → c ≤ w
leading-le w x c (inl (z, all)) = omega arith
leading-le w x c (inr (below, found, r)) = omega arith

trailing-le : (w x c : ℕ) → IsTrailingZeros w x c → c ≤ w
trailing-le w x c (inl (z, all)) = omega arith
trailing-le w x c (inr (below, found, r)) = omega arith

width : (t : ValueType) → 8 * size_of_type t ≡ bit_width t
unfolding bit_width
width t = omega arith

power_pos : (p : ℕ) → 0 < 2 ^ p
power_pos p = omega (arith, one-le-pow p 2 (omega arith))

below_power : (w : ℕ) → w < 2 ^ w
below_power zero = omega arith
below_power (suc w) = omega (arith, below_power w, pow-suc 2 w)

power_next : (i : ℕ) → 2 ^ i * 2 ≡ 2 ^ (i + 1)
power_next i = sym (pow-suc 2 i) ∙ ap (λ n. 2 ^ n) (omega arith)

module _ (v w : ℕ) where
  bit-least : (i : ℕ) → (bit v i == 1) ≡ true → 2 ^ i ≤ v
  bit-least i one =
      let above : 1 ≤ v / 2 ^ i = ground arith in
      omega (arith, mul-le-mul_left (2 ^ i) above, mul-div-le v (2 ^ i))

  bit-above : (i : ℕ) → v < 2 ^ suc i → (bit v i == 1) ≡ false → v < 2 ^ i
  bit-above i small unset =
      let quotient : v / 2 ^ i < 2 =
        (div-lt_iff_lt-mul (power_pos i)).1 (omega (arith, pow-suc 2 i)) in
      let none_left : v / 2 ^ i ≡ 0 = ground arith in
      let below = lt-mul-div-succ v (power_pos i) in
      omega (arith, ap (λ x. 2 ^ i * (x + 1)) none_left)

  clz_loop-IsLeadingZeros : (i : ℕ) → i ≤ w → v < 2 ^ i → IsLeadingZeros w v (clz_loop v w i)
  unfolding clz_loop
  clz_loop-IsLeadingZeros zero h small = inl (omega arith, refl)
  clz_loop-IsLeadingZeros (suc i) h small = elim (Bool-cases (bit v i == 1)) [
    | inl one ↦
        let place : w - 1 - (w - 1 - i) ≡ i = omega arith in
        let next : w - (w - 1 - i) ≡ suc i = omega arith in
        rw one (inr (omega arith, rw place (bit-least i one), rw next small))
    | inr unset ↦ rw unset (clz_loop-IsLeadingZeros i (omega arith) (bit-above i small unset))
  ]

  bit_of-split : (i u : ℕ) → v ≡ 2 ^ i * u → bit v i ≡ u % 2
  bit_of-split i u split =
      ap (λ x. x / 2 ^ i % 2) split ∙ ap (λ x. x % 2) (mul-div_right u (power_pos i))

  ctz_loop-IsTrailingZeros :
      (i n u : ℕ) → i + n ≡ w → v ≡ 2 ^ i * u → v < 2 ^ w → IsTrailingZeros w v (ctz_loop v w i n)
  unfolding ctz_loop
  ctz_loop-IsTrailingZeros i zero zero at_end split small = inl (split ∙ mul-zero (2 ^ i), refl)
  ctz_loop-IsTrailingZeros i zero (suc u) at_end split small =
      let end : 2 ^ i ≡ 2 ^ w = ap (λ x. 2 ^ x) (omega arith) in
      absurd (omega (arith, mul-le-mul_left (2 ^ i) (zero-lt-suc u)))
  ctz_loop-IsTrailingZeros i (suc n) u at_end split small = elim (Bool-cases (bit v i == 1)) [
    | inl one ↦
        let odd : u ≡ 2 * (u / 2) + 1 = let b = bit_of-split i u split in ground arith in
        rw one (inr (omega arith, u / 2, split ∙ ap (λ x. 2 ^ i * x) odd))
    | inr unset ↦
        let even : u ≡ 2 * (u / 2) = let b = bit_of-split i u split in ground arith in
        rw unset (
          ctz_loop-IsTrailingZeros (i + 1) n (u / 2) (omega arith)
            (split
              ∙ ap (λ x. 2 ^ i * x) even
              ∙ sym (mul_assoc (2 ^ i) 2 (u / 2))
              ∙ ap (λ x. x * (u / 2)) (power_next i))
            small)
  ]

module _ ⦃fl : FloatOps⦄ where
  -- A number below 2 to the width of the type is one of its values.
  pub value_of-fits :
      (t : ValueType) (c : ℕ) → IsInteger t → c < 2 ^ bit_width t → from_int128 t c ≡ value t c
  unfolding from_int128 from_int128_bits bit_width size_of_type
  value_of-fits i8 c k h = ap (value i8) (omega arith)
  value_of-fits u8 c k h = ap (value u8) (omega arith)
  value_of-fits i16 c k h = ap (value i16) (omega arith)
  value_of-fits u16 c k h = ap (value u16) (omega arith)
  value_of-fits i32 c k h = ap (value i32) (omega arith)
  value_of-fits u32 c k h = ap (value u32) (omega arith)
  value_of-fits i64 c k h = ap (value i64) (omega arith)
  value_of-fits u64 c k h = ap (value u64) (omega arith)
  value_of-fits i128 c k h = ap (value i128) (omega arith)
  value_of-fits u128 c k h = ap (value u128) (omega arith)
  value_of-fits ptr c k h = ap (value ptr) (omega arith)
  value_of-fits _ c k h = absurd k

  value_of-count :
      (t : ValueType) (c : ℕ) → IsInteger t → c ≤ bit_width t → from_int128 t c ≡ value t c
  value_of-count t c k h =
      let room : bit_width t < 2 ^ bit_width t = below_power (bit_width t) in
      value_of-fits t c k (omega arith)

  -- For a value of an integer or pointer type whose bits fit it, `Clz` returns the number of zeros
  -- above the highest bit that is set and `Ctz` the number of zeros below the lowest; both return
  -- the width if no bit is set.
  pub bit_unary-clz-ctz :
      (t : ValueType) (x : ℕ)
      → IsInteger t
      → FitsType (value t x)
      → ((c : ℕ) × (bit_unary Opcode.clz t (value t x) ≡ ok (value t c))
          × IsLeadingZeros (bit_width t) x c)
        × ((c : ℕ) × (bit_unary Opcode.ctz t (value t x) ≡ ok (value t c))
            × IsTrailingZeros (bit_width t) x c)
  unfolding bit_unary bit_unary_of clz_generic ctz_generic
  bit_unary-clz-ctz t x k h =
      let w = bit_width t in
      let fits : x < 2 ^ bit_width t = subst (λ n. x < 2 ^ n) (width t) h in
      let leading = clz_loop-IsLeadingZeros x w w (omega arith) fits in
      let trailing = ctz_loop-IsTrailingZeros x w 0 w x (omega arith) (omega arith) fits in
      (
        (
          clz_loop x w w,
          rw (IsInteger-float t k, unsigned_of-value t x k h)
              (ap ok (value_of-count t _ k (leading-le w x _ leading))),
          leading,
        ),
        (
          ctz_loop x w 0 w,
          rw (IsInteger-float t k, unsigned_of-value t x k h)
              (ap ok (value_of-count t _ k (trailing-le w x _ trailing))),
          trailing,
        ),
      )
