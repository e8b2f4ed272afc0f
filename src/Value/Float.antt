-- ===== src/Value/Float.antt =====
-- What the code takes from the compiler and the C library for `float` and `double`.
-- A `double` is its 64-bit pattern and a `float` its 32-bit pattern; the operations are parameters.
use uasm.Base.{ℕ, Bool}
use uasm.Types.{ValueType}

pub record FloatOps : Type 0 where
  -- `static_cast<double>` of a `float` pattern and of an `Int128` pattern read as signed, or
  -- as unsigned.
  pub of_f32 : ℕ → ℕ
  pub of_int128 : ℕ → ℕ
  pub of_uint128 : ℕ → ℕ
  -- `static_cast<float>` of a `double` and of an `Int128`.
  pub to_f32 : ℕ → ℕ
  pub int128_to_f32 : ℕ → ℕ
  -- `static_cast<Int128>` of a `double` and of a `float`.
  pub to_int128 : ℕ → ℕ
  pub f32_to_int128 : ℕ → ℕ
  -- `static_cast<UInt128>` of a `double`.
  pub to_uint128 : ℕ → ℕ
  -- `static_cast` of a `double` to the C++ type of an integer or pointer type, as its pattern.
  pub to_integer : ValueType → ℕ → ℕ
  pub add : ℕ → ℕ → ℕ
  pub sub : ℕ → ℕ → ℕ
  pub mul : ℕ → ℕ → ℕ
  pub div : ℕ → ℕ → ℕ
  pub neg : ℕ → ℕ
  pub fabs : ℕ → ℕ
  -- The pattern of 0.0.
  pub zero : ℕ
  -- x < y, x == y and x == 0.0.
  pub lt : ℕ → ℕ → Bool
  pub equal : ℕ → ℕ → Bool
  pub is_zero : ℕ → Bool

-- What the code takes from the C library: the functions of <cmath> on `double` patterns. `frexp` and
-- `modf` return both of their results, `frexp` its exponent as an `Int128` pattern; `ldexp` takes the
-- pattern of an `int`.
pub record MathLib : Type 0 where
  pub sqrt : ℕ → ℕ
  pub cbrt : ℕ → ℕ
  pub floor : ℕ → ℕ
  pub ceil : ℕ → ℕ
  pub trunc : ℕ → ℕ
  pub sin : ℕ → ℕ
  pub cos : ℕ → ℕ
  pub tan : ℕ → ℕ
  pub asin : ℕ → ℕ
  pub acos : ℕ → ℕ
  pub atan : ℕ → ℕ
  pub sinh : ℕ → ℕ
  pub cosh : ℕ → ℕ
  pub tanh : ℕ → ℕ
  pub log : ℕ → ℕ
  pub log10 : ℕ → ℕ
  pub exp : ℕ → ℕ
  pub erf : ℕ → ℕ
  pub erfc : ℕ → ℕ
  pub tgamma : ℕ → ℕ
  pub lgamma : ℕ → ℕ
  pub pow : ℕ → ℕ → ℕ
  pub atan2 : ℕ → ℕ → ℕ
  pub fmod : ℕ → ℕ → ℕ
  pub nextafter : ℕ → ℕ → ℕ
  pub ldexp : ℕ → ℕ → ℕ
  pub frexp : ℕ → ℕ × ℕ
  pub modf : ℕ → ℕ × ℕ
