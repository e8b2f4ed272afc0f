-- ===== src/Alu/Signed.antt =====
-- Signed and unsigned numbers of a width, as src/vm/interpreter.cpp reads them off a value.
use uasm.Base.{
  ℕ, ◌+◌, ◌-◌, ◌*◌, ◌%◌, ◌^◌, ◌<◌, ◌≤◌, ◌≡◌, refl, Bool, false, ◌||◌, leb, ltb, if◌then◌else◌,
  arith,
}
use uasm.Types.{
  ValueType, i8, u8, i16, u16, i32, u32, i64, u64, i128, u128, ptr, size_of_type, is_float_type,
}
use uasm.Value.Float.{FloatOps}
use uasm.Value.Defs.{value, as_int128_of, as_int128}
use uasm.Value.Conversions.{IsInteger}
use uasm.Alu.Bits.{bit_width, mask_to_width, unsigned_of}

-- The bits of a signed number of `w` bits, moved so that the signed order is theirs.
abbrev pub biased : ℕ → ℕ → ℕ
biased w x = (x + 2 ^ (w - 1)) % 2 ^ w

abbrev pub least : ℕ → ℕ → ℕ
least a b = if ltb a b then a else b

-- The signed types up to 64 bits.
abbrev pub IsSigned : ValueType → Type 0
IsSigned i8 = Unit
IsSigned i16 = Unit
IsSigned i32 = Unit
IsSigned i64 = Unit
IsSigned _ = ⊥

pub IsSigned-float : (t : ValueType) → IsSigned t → is_float_type t ≡ false
unfolding is_float_type
IsSigned-float i8 k = refl
IsSigned-float i16 k = refl
IsSigned-float i32 k = refl
IsSigned-float i64 k = refl
IsSigned-float _ k = absurd k

-- The exact sum and difference of two signed numbers, moved like `biased`, and cut off at both ends.
abbrev pub sum_within : ℕ → ℕ → ℕ → ℕ
sum_within w x y = least (biased w x + biased w y - 2 ^ (w - 1)) (2 ^ w - 1)

abbrev pub difference_within : ℕ → ℕ → ℕ → ℕ
difference_within w x y = least (biased w x + 2 ^ (w - 1) - biased w y) (2 ^ w - 1)

pub IsSigned-IsInteger : (t : ValueType) → IsSigned t → IsInteger t
IsSigned-IsInteger i8 k = k
IsSigned-IsInteger i16 k = k
IsSigned-IsInteger i32 k = k
IsSigned-IsInteger i64 k = k
IsSigned-IsInteger _ k = absurd k

-- At most 64 bits.
pub IsSigned-size : (t : ValueType) → IsSigned t → size_of_type t ≤ 8
unfolding size_of_type
IsSigned-size i8 k = omega arith
IsSigned-size i16 k = omega arith
IsSigned-size i32 k = omega arith
IsSigned-size i64 k = omega arith
IsSigned-size _ k = absurd k

-- The exact sum of two signed numbers is no signed number of `w` bits.
abbrev pub leaves_range : ℕ → ℕ → ℕ → Bool
leaves_range w x y =
    ltb (biased w x + biased w y) (2 ^ (w - 1))
    || leb (2 ^ (w - 1) + 2 ^ w) (biased w x + biased w y)

module _ ⦃fl : FloatOps⦄ where
  pub unsigned_of-value :
      (t : ValueType) (x : ℕ)
      → IsInteger t
      → x < 2 ^ (8 * size_of_type t)
      → unsigned_of (value t x) t ≡ x
  unfolding unsigned_of mask_to_width bit_width as_int128 as_int128_of size_of_type
  unsigned_of-value i8 x k h = ground arith
  unsigned_of-value u8 x k h = ground arith
  unsigned_of-value i16 x k h = ground arith
  unsigned_of-value u16 x k h = ground arith
  unsigned_of-value i32 x k h = ground arith
  unsigned_of-value u32 x k h = ground arith
  unsigned_of-value i64 x k h = ground arith
  unsigned_of-value u64 x k h = ground arith
  unsigned_of-value i128 x k h = ground arith
  unsigned_of-value u128 x k h = ground arith
  unsigned_of-value ptr x k h = ground arith
  unsigned_of-value _ x k h = absurd k
