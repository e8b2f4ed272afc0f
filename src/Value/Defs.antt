-- ===== src/Value/Defs.antt =====
-- include/uasm/value.h and src/core/value.cpp: a typed value and its conversions.
-- The union `bits` is the number that its 64 bytes spell, lowest byte first, on a little-endian
-- host; a member reads and writes its low bytes, and `Bits()` clears the rest.
use uasm.Base.{ℕ, ◌+◌, ◌-◌, ◌*◌, ◌%◌, ◌^◌, ltb, if◌then◌else◌}
use uasm.Types.{
  ValueType, i8, u8, i16, u16, i32, u32, i64, u64, i128, u128, f32, f64, ptr, size_of_type,
}
use uasm.Value.Float.{FloatOps}

pub record Value : Type 0 where
  pub type : ValueType
  pub bits : ℕ

abbrev pub value : ValueType → ℕ → Value
value t b = record { type = t; bits = b }

unfoldable pub make_i32 : ℕ → Value
make_i32 v = value i32 (v % 2 ^ 32)

-- The low `w` bits read as a signed number, as an `Int128` pattern.
abbrev pub sign_extend : ℕ → ℕ → ℕ
sign_extend w b = let u = b % 2 ^ w in if ltb u (2 ^ (w - 1)) then u else u + (2 ^ 128 - 2 ^ w)

module _ ⦃fl : FloatOps⦄ where
  -- `asDouble`, as the pattern of the `double`.
  unfoldable pub as_double_of : ValueType → ℕ → ℕ
  as_double_of i8 b = fl.of_int128 (sign_extend 8 b)
  as_double_of u8 b = fl.of_int128 (b % 2 ^ 8)
  as_double_of i16 b = fl.of_int128 (sign_extend 16 b)
  as_double_of u16 b = fl.of_int128 (b % 2 ^ 16)
  as_double_of i32 b = fl.of_int128 (sign_extend 32 b)
  as_double_of u32 b = fl.of_int128 (b % 2 ^ 32)
  as_double_of i64 b = fl.of_int128 (sign_extend 64 b)
  as_double_of u64 b = fl.of_int128 (b % 2 ^ 64)
  as_double_of i128 b = fl.of_int128 (b % 2 ^ 128)
  as_double_of u128 b = fl.of_uint128 (b % 2 ^ 128)
  as_double_of f32 b = fl.of_f32 (b % 2 ^ 32)
  as_double_of f64 b = b % 2 ^ 64
  as_double_of ptr b = fl.of_int128 (b % 2 ^ 64)
  as_double_of _ b = 0

  unfoldable pub as_double : Value → ℕ
  unfolding as_double_of
  as_double v = as_double_of v.type v.bits

  -- `asInt128`.
  unfoldable pub as_int128_of : ValueType → ℕ → ℕ
  as_int128_of i8 b = sign_extend 8 b
  as_int128_of u8 b = b % 2 ^ 8
  as_int128_of i16 b = sign_extend 16 b
  as_int128_of u16 b = b % 2 ^ 16
  as_int128_of i32 b = sign_extend 32 b
  as_int128_of u32 b = b % 2 ^ 32
  as_int128_of i64 b = sign_extend 64 b
  as_int128_of u64 b = b % 2 ^ 64
  as_int128_of i128 b = b % 2 ^ 128
  as_int128_of u128 b = b % 2 ^ 128
  as_int128_of f32 b = fl.f32_to_int128 (b % 2 ^ 32)
  as_int128_of f64 b = fl.to_int128 (b % 2 ^ 64)
  as_int128_of ptr b = b % 2 ^ 64
  as_int128_of _ b = 0

  unfoldable pub as_int128 : Value → ℕ
  unfolding as_int128_of
  as_int128 v = as_int128_of v.type v.bits

  -- `fromDouble`: the bits that the value gets.
  unfoldable pub from_double_bits : ValueType → ℕ → ℕ
  from_double_bits i8 v = fl.to_integer i8 v % 2 ^ 8
  from_double_bits u8 v = fl.to_integer u8 v % 2 ^ 8
  from_double_bits i16 v = fl.to_integer i16 v % 2 ^ 16
  from_double_bits u16 v = fl.to_integer u16 v % 2 ^ 16
  from_double_bits i32 v = fl.to_integer i32 v % 2 ^ 32
  from_double_bits u32 v = fl.to_integer u32 v % 2 ^ 32
  from_double_bits i64 v = fl.to_integer i64 v % 2 ^ 64
  from_double_bits u64 v = fl.to_integer u64 v % 2 ^ 64
  from_double_bits i128 v = fl.to_integer i128 v % 2 ^ 128
  from_double_bits u128 v = fl.to_integer u128 v % 2 ^ 128
  from_double_bits f32 v = fl.to_f32 v % 2 ^ 32
  from_double_bits f64 v = v % 2 ^ 64
  from_double_bits ptr v = fl.to_integer ptr v % 2 ^ 64
  from_double_bits _ v = 0

  unfoldable pub from_double : ValueType → ℕ → Value
  unfolding from_double_bits
  from_double t v = value t (from_double_bits t v)

  -- `fromInt128`: the bits that the value gets.
  unfoldable pub from_int128_bits : ValueType → ℕ → ℕ
  from_int128_bits i8 v = v % 2 ^ 8
  from_int128_bits u8 v = v % 2 ^ 8
  from_int128_bits i16 v = v % 2 ^ 16
  from_int128_bits u16 v = v % 2 ^ 16
  from_int128_bits i32 v = v % 2 ^ 32
  from_int128_bits u32 v = v % 2 ^ 32
  from_int128_bits i64 v = v % 2 ^ 64
  from_int128_bits u64 v = v % 2 ^ 64
  from_int128_bits i128 v = v % 2 ^ 128
  from_int128_bits u128 v = v % 2 ^ 128
  from_int128_bits f32 v = fl.int128_to_f32 v % 2 ^ 32
  from_int128_bits f64 v = fl.of_int128 v % 2 ^ 64
  from_int128_bits ptr v = v % 2 ^ 64
  from_int128_bits _ v = 0

  unfoldable pub from_int128 : ValueType → ℕ → Value
  unfolding from_int128_bits
  from_int128 t v = value t (from_int128_bits t v)

-- `minSize`.
abbrev pub min_size : ℕ → ℕ → ℕ
min_size a b = if ltb a b then a else b

-- `bitcast`: the low bytes that both types have.
unfoldable pub bitcast : ValueType → Value → Value
bitcast dest src =
    value dest (src.bits % 2 ^ (8 * min_size (size_of_type src.type) (size_of_type dest)))
