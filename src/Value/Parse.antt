-- ===== src/Value/Parse.antt =====
-- `parseTypedValue` of src/core/value.cpp: a typed argument of the command line, as in `i32:10`.
use uasm.Base.{
  ℕ, not, ◌==◌, Option, none, some, [], ◌∷◌, length, Text, Result, ok, err, if◌then◌else◌,
}
use uasm.Types.{ValueType, is_void, type_from_name, is_float_type}
use uasm.Value.Float.{FloatOps}
use uasm.Value.Defs.{Value, from_double, from_int128, sign_extend}

-- What the code takes from the C library: `std::strtod` and `std::strtoll` in base 0 of a text. Both
-- return the number, as a pattern of 64 bits, and how many characters of the text they read.
pub record NumberReader : Type 0 where
  pub strtod : Text → ℕ × ℕ
  pub strtoll : Text → ℕ × ℕ

-- The messages of `InvalidTypedValue`, without the texts that they print.
pub data InvalidTypedValue : Type 0 where
  not_type_and_value unknown_type void_type missing_value invalid_value : InvalidTypedValue

-- `spec.find(':')`, with the texts before and behind it.
unfoldable pub split_colon : Text → Option (Text × Text)
split_colon [] = none
split_colon (c ∷ s) =
    let rest = split_colon s in
    if c == 58
    then some ([], s)
    else elim rest [ none ↦ none | some (name, behind) ↦ some (c ∷ name, behind) ]

module _ ⦃fl : FloatOps⦄ ⦃reader : NumberReader⦄ where
  -- The part of `parseTypedValue` from `valueStr` on.
  unfoldable pub parse_value : ValueType → Text → Result InvalidTypedValue Value
  parse_value type [] = err InvalidTypedValue.missing_value
  parse_value type (c ∷ s) =
      let (d, read_d) = reader.strtod (c ∷ s) in
      let (n, read_n) = reader.strtoll (c ∷ s) in
      if is_float_type type
      then (if not (read_d == length (c ∷ s))
          then err InvalidTypedValue.invalid_value
          else ok (from_double type d))
      else if not (read_n == length (c ∷ s))
      then err InvalidTypedValue.invalid_value
      else ok (from_int128 type (sign_extend 64 n))

  unfoldable pub parse_typed_value : Text → Result InvalidTypedValue Value
  parse_typed_value spec = elim (split_colon spec) [
    | none ↦ err InvalidTypedValue.not_type_and_value
    | some (name, behind) ↦ elim (type_from_name name) [
      | none ↦ err InvalidTypedValue.unknown_type
      | some type ↦
          if is_void type then err InvalidTypedValue.void_type else parse_value type behind
    ]
  ]
