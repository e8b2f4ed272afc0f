-- ===== src/Value/Tests.antt =====
-- Floats whose every operation returns 0, and the results on values of include/uasm/value.h and
-- src/core/value.cpp.
use uasm.Base.{◌≡◌, refl, false, arith, ok, err, codes, text_eq}
use uasm.Types.{i16, size_of_type, type_from_name, is_float_type}
use uasm.Value.Float.{FloatOps}
use uasm.Value.Defs.{value, as_int128, from_int128}
use uasm.Value.Parse.{NumberReader, InvalidTypedValue, split_colon, parse_value, parse_typed_value}
use uasm.Value.Conversions.{from_int128-as_int128}

abbrev pub zero_floats : FloatOps
zero_floats = record {
  of_f32 = λ x. 0;
  of_int128 = λ x. 0;
  of_uint128 = λ x. 0;
  to_f32 = λ x. 0;
  int128_to_f32 = λ x. 0;
  to_int128 = λ x. 0;
  f32_to_int128 = λ x. 0;
  to_uint128 = λ x. 0;
  to_integer = λ t x. 0;
  add = λ x y. 0;
  sub = λ x y. 0;
  mul = λ x y. 0;
  div = λ x y. 0;
  neg = λ x. 0;
  fabs = λ x. 0;
  zero = 0;
  lt = λ x y. false;
  equal = λ x y. false;
  is_zero = λ x. false;
}

from_int128-as_int128_example :
    from_int128 ⦃fl = zero_floats⦄ i16 (as_int128 ⦃fl = zero_floats⦄ (value i16 65535))
    ≡ value i16 65535
unfolding size_of_type
from_int128-as_int128_example =
    from_int128-as_int128 ⦃fl = zero_floats⦄ (value i16 65535) tt (omega arith)

-- A library that reads every text as 10, of two characters.
abbrev ten_reader : NumberReader
ten_reader = record { strtod = λ s. (0, 0); strtoll = λ s. (10, 2) }

ten_parsed :
    (parse_typed_value ⦃fl = zero_floats⦄ ⦃reader = ten_reader⦄ (codes "i16:10")
      ≡ ok (value i16 10))
    × (parse_typed_value ⦃fl = zero_floats⦄ ⦃reader = ten_reader⦄ (codes "i16:10x")
        ≡ err InvalidTypedValue.invalid_value)
unfolding parse_typed_value parse_value split_colon type_from_name text_eq is_float_type from_int128
ten_parsed = (refl, refl)
