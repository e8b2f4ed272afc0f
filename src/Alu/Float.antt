-- ===== src/Alu/Float.antt =====
-- The float helpers of src/vm/interpreter.cpp: `floatUnary`, `floatBinary` and
-- `fmaValue`. A literal is the pattern of its `double`.
use uasm.Base.{ℕ, Bool, not, [], ◌∷◌, ok, err, ◌>>=◌, if◌then◌else◌, switch}
use uasm.Runtime.{RuntimeError, Run}
use uasm.Types.{ValueType, i32, is_float_type}
use uasm.Ast.{Opcode}
use uasm.Ast.Opcode
use uasm.Value.Float.{FloatOps, MathLib}
use uasm.Value.Defs.{Value, as_double, from_double, from_int128}

-- `0.5`.
abbrev pub half : ℕ
half = 4602678819172646912

-- `1.0`.
abbrev pub one_double : ℕ
one_double = 4607182418800017408

-- `2.0`.
abbrev pub two_double : ℕ
two_double = 4611686018427387904

-- `10.0`.
abbrev pub ten_double : ℕ
ten_double = 4621819117588971520

-- `180.0`.
abbrev pub half_turn : ℕ
half_turn = 4640537203540230144

-- `kPi`.
abbrev pub pi : ℕ
pi = 4614256656552045848

-- `1.7976931348623157e308`.
abbrev pub max_double : ℕ
max_double = 9218868437227405311

-- `2.2250738585072014e-308`.
abbrev pub min_normal : ℕ
min_normal = 4503599627370496

abbrev pub bool_number : Bool → ℕ
bool_number b = if b then 1 else 0

module _ ⦃fl : FloatOps⦄ where
  -- `x != x`.
  unfoldable pub is_nan : ℕ → Bool
  is_nan x = not (fl.equal x x)

  -- `return Value::fromDouble(type, r)`, and of an `int` at i32.
  abbrev pub as_float : ValueType → Run ℕ → Run Value
  as_float type result = result >>= λ r. ok (from_double type r)

  abbrev pub as_small : Run ℕ → Run Value
  as_small result = result >>= λ r. ok (from_int128 i32 r)

  module _ ⦃ml : MathLib⦄ where
    unfoldable pub float_unary : Opcode → ValueType → Value → Run Value
    float_unary op type a =
        if is_float_type type
        then (let x = as_double a in
            as_float type (
              switch op
                ((Opcode.sqrt ∷ [], ok (ml.sqrt x))
                  ∷ (Opcode.cbrt ∷ [], ok (ml.cbrt x))
                  ∷ (Opcode.floor ∷ [], ok (ml.floor x))
                  ∷ (Opcode.ceil ∷ [], ok (ml.ceil x))
                  ∷ (Opcode.round ∷ [], ok (ml.floor (fl.add x half)))
                  ∷ (Opcode.trunc ∷ [], ok (ml.trunc x))
                  ∷ (Opcode.sin ∷ [], ok (ml.sin x))
                  ∷ (Opcode.cos ∷ [], ok (ml.cos x))
                  ∷ (Opcode.tan ∷ [], ok (ml.tan x))
                  ∷ (Opcode.asin ∷ [], ok (ml.asin x))
                  ∷ (Opcode.acos ∷ [], ok (ml.acos x))
                  ∷ (Opcode.atan ∷ [], ok (ml.atan x))
                  ∷ (Opcode.sinh ∷ [], ok (ml.sinh x))
                  ∷ (Opcode.cosh ∷ [], ok (ml.cosh x))
                  ∷ (Opcode.tanh ∷ [], ok (ml.tanh x))
                  ∷ (Opcode.log ∷ [], ok (ml.log x))
                  ∷ (Opcode.log2 ∷ [], ok (fl.div (ml.log x) (ml.log two_double)))
                  ∷ (Opcode.log10 ∷ [], ok (ml.log10 x))
                  ∷ (Opcode.exp ∷ [], ok (ml.exp x))
                  ∷ (Opcode.exp2 ∷ [], ok (ml.pow two_double x))
                  ∷ [])
                (err RuntimeError.not_float_unary)))
        else err RuntimeError.requires_float

    unfoldable pub float_binary : Opcode → ValueType → Value → Value → Run Value
    float_binary op type a b =
        if is_float_type type
        then (let x = as_double a in
            let y = as_double b in
            as_float type (
              switch op
                ((Opcode.pow ∷ [], ok (ml.pow x y))
                  ∷ (Opcode.atan2 ∷ [], ok (ml.atan2 x y))
                  ∷ (Opcode.hypot ∷ [], ok (ml.sqrt (fl.add (fl.mul x x) (fl.mul y y))))
                  ∷ (
                    Opcode.copysign ∷ [],
                    ok (if fl.lt y fl.zero then fl.neg (fl.fabs x) else fl.fabs x),
                  )
                  ∷ (Opcode.fmod ∷ [], ok (ml.fmod x y))
                  ∷ [])
                (err RuntimeError.not_float_binary)))
        else err RuntimeError.requires_float

  unfoldable pub fma_value : ValueType → Value → Value → Value → Run Value
  fma_value type a b c =
      if is_float_type type
      then ok (from_double type (fl.add (fl.mul (as_double a) (as_double b)) (as_double c)))
      else err RuntimeError.requires_float
