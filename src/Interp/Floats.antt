-- ===== src/Interp/Floats.antt =====
-- The cases of `Interpreter::call` in src/vm/interpreter.cpp from Asinh to Inf.
use uasm.Base.{ℕ, [], ◌∷◌, if◌then◌else◌, switch, one_of}
use uasm.Types.{ValueType, i32}
use uasm.Ast.{Instruction}
use uasm.Ast.Opcode
use uasm.Value.Float.{FloatOps, MathLib}
use uasm.Value.Defs.{Value, from_double}
use uasm.Alu.Float.{one_double}
use uasm.Alu.FloatExt.{float_unary_ext, float_binary_ext, float_predicate}
use uasm.Interp.Basic.{unary}
use uasm.Interp.Machine.{Exec, ◌>>=◌, ◌>>◌, lift, assign, operand, arg, double, require_float}

module _ ⦃fl : FloatOps⦄ ⦃ml : MathLib⦄ where
  -- Lerp and Fclamp.
  unfoldable pub lerp : ValueType → ℕ → ℕ → ℕ → Value
  lerp type a b t = from_double type (fl.add a (fl.mul t (fl.sub b a)))

  unfoldable pub float_clamp : ValueType → ℕ → ℕ → ℕ → Value
  float_clamp type x lo hi =
      from_double type (if fl.lt x lo then lo else if fl.lt hi x then hi else x)

module _ ⦃fl : FloatOps⦄ ⦃ml : MathLib⦄ where
  unfoldable pub floats : Instruction → Exec (Unit {0}) → Exec (Unit {0})
  floats instr others =
      switch instr.opcode
        ((
          Opcode.asinh ∷ Opcode.acosh ∷ Opcode.atanh ∷ Opcode.exp10 ∷ Opcode.expm1 ∷ Opcode.log1p
              ∷ Opcode.erf ∷ Opcode.erfc ∷ Opcode.tgamma ∷ Opcode.lgamma ∷ Opcode.rint
              ∷ Opcode.nearbyint ∷ Opcode.roundeven ∷ Opcode.logb ∷ Opcode.recip ∷ Opcode.rsqrt
              ∷ Opcode.fract ∷ Opcode.fsat ∷ Opcode.degrees ∷ Opcode.radians ∷ Opcode.sinpi
              ∷ Opcode.cospi ∷ Opcode.tanpi ∷ Opcode.frexp ∷ Opcode.modf ∷ Opcode.modfi ∷ [],
          unary instr (float_unary_ext instr.opcode instr.type),
        )
          ∷ (
            Opcode.nextafter ∷ Opcode.ldexp ∷ Opcode.scalbn ∷ Opcode.fdim ∷ Opcode.fmax
                ∷ Opcode.fmin ∷ [],
            (do
              a ← arg instr 0
              b ← operand instr 1 (
                  if one_of instr.opcode (Opcode.ldexp ∷ Opcode.scalbn ∷ [])
                  then i32
                  else instr.type)
              v ← lift (float_binary_ext instr.opcode instr.type a b)
              assign instr v),
          )
          ∷ (
            Opcode.isnan ∷ Opcode.isinf ∷ Opcode.isfinite ∷ Opcode.isnormal ∷ Opcode.issubnormal
                ∷ Opcode.signbit ∷ Opcode.fpclassify ∷ Opcode.ilogb ∷ Opcode.frexpe ∷ [],
            unary instr (float_predicate instr.opcode instr.type),
          )
          ∷ (
            Opcode.lerp ∷ [],
            (do
              require_float instr.type
              a ← double instr 0
              b ← double instr 1
              t ← double instr 2
              assign instr (lerp instr.type a b t)),
          )
          ∷ (
            Opcode.fclamp ∷ [],
            (do
              require_float instr.type
              x ← double instr 0
              lo ← double instr 1
              hi ← double instr 2
              assign instr (float_clamp instr.type x lo hi)),
          )
          ∷ (
            Opcode.nan ∷ [],
            (do
              require_float instr.type
              assign instr (from_double instr.type (ml.sqrt (fl.neg one_double)))),
          )
          ∷ (
            Opcode.inf ∷ [],
            (do
              require_float instr.type
              assign instr (from_double instr.type (fl.div one_double fl.zero))),
          )
          ∷ [])
        others
