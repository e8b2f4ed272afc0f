-- ===== src/Alu/FloatExt.antt =====
-- The float helpers `roundEven` to `floatPredicate` of src/vm/interpreter.cpp.
use uasm.Base.{
  ℕ, ◌/◌, ◌%◌, ◌^◌, Bool, not, ◌&&◌, ◌||◌, ◌==◌, [], ◌∷◌, ok, err, if◌then◌else◌, switch,
}
use uasm.Runtime.{RuntimeError, Run}
use uasm.Types.{ValueType, f32, is_float_type}
use uasm.Ast.{Opcode}
use uasm.Ast.Opcode
use uasm.Value.Int128
use uasm.Value.Float.{FloatOps, MathLib}
use uasm.Value.Defs.{Value, as_double, as_int128}
use uasm.Alu.Float.{
  half, one_double, two_double, ten_double, half_turn, pi, max_double, min_normal, bool_number,
  as_float, as_small, is_nan,
}

module _ ⦃fl : FloatOps⦄ where
  module _ ⦃ml : MathLib⦄ where
    -- `roundEven`, from the rounded `r`.
    unfoldable pub round_even_from : ℕ → ℕ → ℕ
    round_even_from x r =
        if fl.equal (fl.sub r x) half && not (fl.is_zero (ml.fmod r two_double))
        then fl.sub r one_double
        else r

    unfoldable pub round_even : ℕ → ℕ
    round_even x = round_even_from x (ml.floor (fl.add x half))

    unfoldable pub float_unary_ext : Opcode → ValueType → Value → Run Value
    float_unary_ext op type a =
        if is_float_type type
        then (let x = as_double a in
            as_float type (
              switch op
                ((
                  Opcode.asinh ∷ [],
                  ok (ml.log (fl.add x (ml.sqrt (fl.add (fl.mul x x) one_double)))),
                )
                  ∷ (
                    Opcode.acosh ∷ [],
                    ok (ml.log (fl.add x (ml.sqrt (fl.sub (fl.mul x x) one_double)))),
                  )
                  ∷ (
                    Opcode.atanh ∷ [],
                    ok (fl.mul half (ml.log (fl.div (fl.add one_double x) (fl.sub one_double x)))),
                  )
                  ∷ (Opcode.exp10 ∷ [], ok (ml.pow ten_double x))
                  ∷ (Opcode.expm1 ∷ [], ok (fl.sub (ml.exp x) one_double))
                  ∷ (Opcode.log1p ∷ [], ok (ml.log (fl.add one_double x)))
                  ∷ (Opcode.erf ∷ [], ok (ml.erf x))
                  ∷ (Opcode.erfc ∷ [], ok (ml.erfc x))
                  ∷ (Opcode.tgamma ∷ [], ok (ml.tgamma x))
                  ∷ (Opcode.lgamma ∷ [], ok (ml.lgamma x))
                  ∷ (Opcode.rint ∷ Opcode.nearbyint ∷ Opcode.roundeven ∷ [], ok (round_even x))
                  ∷ (
                    Opcode.logb ∷ [],
                    ok (ml.floor (fl.div (ml.log (fl.fabs x)) (ml.log two_double))),
                  )
                  ∷ (Opcode.recip ∷ [], ok (fl.div one_double x))
                  ∷ (Opcode.rsqrt ∷ [], ok (fl.div one_double (ml.sqrt x)))
                  ∷ (Opcode.fract ∷ [], ok (fl.sub x (ml.floor x)))
                  ∷ (
                    Opcode.fsat ∷ [],
                    ok (
                        if fl.lt x fl.zero
                        then fl.zero
                        else if fl.lt one_double x
                        then one_double
                        else x),
                  )
                  ∷ (Opcode.degrees ∷ [], ok (fl.mul x (fl.div half_turn pi)))
                  ∷ (Opcode.radians ∷ [], ok (fl.mul x (fl.div pi half_turn)))
                  ∷ (Opcode.sinpi ∷ [], ok (ml.sin (fl.mul pi x)))
                  ∷ (Opcode.cospi ∷ [], ok (ml.cos (fl.mul pi x)))
                  ∷ (Opcode.tanpi ∷ [], ok (ml.tan (fl.mul pi x)))
                  ∷ (Opcode.frexp ∷ [], ok ((ml.frexp x).0))
                  ∷ (Opcode.modf ∷ [], ok ((ml.modf x).0))
                  ∷ (Opcode.modfi ∷ [], ok ((ml.modf x).1))
                  ∷ [])
                (err RuntimeError.not_float_unary)))
        else err RuntimeError.requires_float

    unfoldable pub float_binary_ext : Opcode → ValueType → Value → Value → Run Value
    float_binary_ext op type a b =
        if is_float_type type
        then (let x = as_double a in
            let y = as_double b in
            as_float type (
              switch op
                ((Opcode.nextafter ∷ [], ok (ml.nextafter x y))
                  ∷ (Opcode.ldexp ∷ Opcode.scalbn ∷ [], ok (ml.ldexp x (as_int128 b % 2 ^ 32)))
                  ∷ (Opcode.fdim ∷ [], ok (if fl.lt y x then fl.sub x y else fl.zero))
                  ∷ (
                    Opcode.fmax ∷ [],
                    ok (if is_nan x then y else if is_nan y then x else if fl.lt y x then x else y),
                  )
                  ∷ (
                    Opcode.fmin ∷ [],
                    ok (if is_nan x then y else if is_nan y then x else if fl.lt x y then x else y),
                  )
                  ∷ [])
                (err RuntimeError.not_float_binary)))
        else err RuntimeError.requires_float

  -- `isInf`, `isZero` and `isSub` of `floatPredicate`.
  unfoldable pub is_inf : ℕ → Bool
  unfolding is_nan
  is_inf x = not (is_nan x) && (fl.lt max_double x || fl.lt x (fl.neg max_double))

  unfoldable pub is_zero_double : ℕ → Bool
  unfolding is_nan
  is_zero_double x = not (is_nan x) && fl.is_zero x

  unfoldable pub is_subnormal : ℕ → Bool
  unfolding is_nan is_inf is_zero_double
  is_subnormal x =
      not (is_nan x)
      && not (is_inf x)
      && not (is_zero_double x)
      && fl.lt (if is_nan x then fl.zero else if fl.lt x fl.zero then fl.neg x else x) min_normal

  -- Signbit: the top bit of the `float` or the `double`.
  unfoldable pub sign_bit : ValueType → ℕ → Bool
  sign_bit f32 x = not (fl.to_f32 x % 2 ^ 32 / 2 ^ 31 == 0)
  sign_bit _ x = not (x % 2 ^ 64 / 2 ^ 63 == 0)

  -- Fpclassify.
  unfoldable pub float_class : ℕ → ℕ
  float_class x =
      if is_nan x
      then 0
      else if is_inf x
      then 1
      else if is_zero_double x
      then 2
      else if is_subnormal x
      then 3
      else 4

  module _ ⦃ml : MathLib⦄ where
    unfoldable pub float_predicate : Opcode → ValueType → Value → Run Value
    float_predicate op type a =
        if is_float_type type
        then (let x = as_double a in
            as_small (
              switch op
                ((Opcode.isnan ∷ [], ok (bool_number (is_nan x)))
                  ∷ (Opcode.isinf ∷ [], ok (bool_number (is_inf x)))
                  ∷ (Opcode.isfinite ∷ [], ok (bool_number (not (is_nan x) && not (is_inf x))))
                  ∷ (
                    Opcode.isnormal ∷ [],
                    ok (
                        bool_number (
                          not (is_nan x)
                          && not (is_inf x)
                          && not (is_zero_double x)
                          && not (is_subnormal x))),
                  )
                  ∷ (Opcode.issubnormal ∷ [], ok (bool_number (is_subnormal x)))
                  ∷ (Opcode.signbit ∷ [], ok (bool_number (sign_bit type x)))
                  ∷ (Opcode.fpclassify ∷ [], ok (float_class x))
                  ∷ (Opcode.ilogb ∷ [], ok (Int128.sub (ml.frexp x).1 1))
                  ∷ (Opcode.frexpe ∷ [], ok (ml.frexp x).1)
                  ∷ [])
                (err RuntimeError.not_float_predicate)))
        else err RuntimeError.requires_float
