-- ===== src/Interp/Numeric.antt =====
-- The cases of `Interpreter::call` in src/vm/interpreter.cpp from Sqrt to Mls.
use uasm.Base.{ℕ, Bool, ◌||◌, ltb, ◌==◌, [], ◌∷◌, ok, if◌then◌else◌, switch}
use uasm.Runtime.{RuntimeError}
use uasm.Types.{ValueType}
use uasm.Ast.{Instruction, Opcode}
use uasm.Ast.Opcode
use uasm.Value.Int128
use uasm.Value.Float.{FloatOps, MathLib}
use uasm.Value.Defs.{Value, as_int128, from_int128}
use uasm.Alu.Arith.{abs_value, min_max_value}
use uasm.Alu.Bits.{bit_width, unsigned_of, bit_unary, rotate_value, bit_index_op}
use uasm.Alu.Float.{float_unary, float_binary, fma_value}
use uasm.Alu.Division.{unsigned_max_of_width}
use uasm.Alu.Integer.{int_unary_ext, int_binary_ext}
use uasm.Alu.Convert.{unsigned_compare}
use uasm.Frame.{flag_byte}
use uasm.Interp.Machine.{
  Exec, ◌>>=◌, ◌>>◌, pure, throw_if, get_frame, put_frame, assign, arg, require_int,
}
use uasm.Interp.Basic.{unary, binary, ternary, set_cmp_flag}

module _ ⦃fl : FloatOps⦄ ⦃ml : MathLib⦄ where
  unfoldable pub mathematics : Instruction → Exec (Unit {0}) → Exec (Unit {0})
  mathematics instr others =
      switch instr.opcode
        ((
          Opcode.sqrt ∷ Opcode.cbrt ∷ Opcode.floor ∷ Opcode.ceil ∷ Opcode.round ∷ Opcode.trunc
              ∷ Opcode.sin ∷ Opcode.cos ∷ Opcode.tan ∷ Opcode.asin ∷ Opcode.acos ∷ Opcode.atan
              ∷ Opcode.sinh ∷ Opcode.cosh ∷ Opcode.tanh ∷ Opcode.log ∷ Opcode.log2 ∷ Opcode.log10
              ∷ Opcode.exp ∷ Opcode.exp2 ∷ [],
          unary instr (float_unary instr.opcode instr.type),
        )
          ∷ (Opcode.abs ∷ [], unary instr (λ a. ok (abs_value instr.type a)))
          ∷ (
            Opcode.min ∷ Opcode.max ∷ [],
            binary instr (λ a b. ok (min_max_value instr.opcode instr.type a b)),
          )
          ∷ (
            Opcode.pow ∷ Opcode.atan2 ∷ Opcode.hypot ∷ Opcode.copysign ∷ Opcode.fmod ∷ [],
            binary instr (float_binary instr.opcode instr.type),
          )
          ∷ (Opcode.fma ∷ [], ternary instr (fma_value instr.type))
          ∷ [])
        others

module _ ⦃fl : FloatOps⦄ where
  unfoldable pub integers : Instruction → Exec (Unit {0}) → Exec (Unit {0})
  integers instr others =
      switch instr.opcode
        ((
          Opcode.popcount ∷ Opcode.clz ∷ Opcode.ctz ∷ Opcode.parity ∷ Opcode.ffs ∷ Opcode.bitreverse
              ∷ Opcode.bswap ∷ [],
          unary instr (bit_unary instr.opcode instr.type),
        )
          ∷ (Opcode.rotl ∷ Opcode.rotr ∷ [], binary instr (rotate_value instr.opcode instr.type))
          ∷ (
            Opcode.bitset ∷ Opcode.bitclear ∷ Opcode.bittest ∷ [],
            binary instr (bit_index_op instr.opcode instr.type),
          )
          ∷ (
            Opcode.udiv ∷ Opcode.umod ∷ Opcode.sar ∷ Opcode.mulhi ∷ Opcode.umulhi ∷ Opcode.umin
                ∷ Opcode.umax ∷ Opcode.absdiff ∷ Opcode.uabsdiff ∷ Opcode.avg ∷ Opcode.uavg
                ∷ Opcode.nand ∷ Opcode.nor ∷ Opcode.xnor ∷ Opcode.andnot ∷ Opcode.ornot
                ∷ Opcode.powi ∷ Opcode.gcd ∷ Opcode.lcm ∷ Opcode.divceil ∷ Opcode.divfloor
                ∷ Opcode.diveuclid ∷ Opcode.modeuclid ∷ Opcode.alignup ∷ Opcode.aligndown ∷ [],
            binary instr (int_binary_ext instr.opcode instr.type),
          )
          ∷ (
            Opcode.inc ∷ Opcode.dec ∷ Opcode.signum ∷ Opcode.sqr ∷ Opcode.isqrt ∷ Opcode.ilog2
                ∷ Opcode.ilog10 ∷ Opcode.ispow2 ∷ Opcode.nextpow2 ∷ Opcode.prevpow2 ∷ Opcode.negsat
                ∷ [],
            unary instr (int_unary_ext instr.opcode instr.type),
          )
          ∷ [])
        others

  unfoldable pub set_carry : Bool → Exec (Unit {0})
  set_carry flag = do f ← get_frame; put_frame (record f { carry_flag = flag })

  -- The carry and the result of Addc and Subb on `ux`, `uy` and the carry `c`.
  unfoldable pub add_carry : ValueType → ℕ → ℕ → ℕ → Bool × ℕ
  add_carry type ux uy c =
      let r = Int128.add (Int128.add ux uy) c in
      ((ltb (unsigned_max_of_width (bit_width type)) r || ltb r ux), r)

  unfoldable pub subtract_borrow : ℕ → ℕ → ℕ → Bool × ℕ
  subtract_borrow ux uy c = (ltb ux (Int128.add uy c), Int128.sub (Int128.sub ux uy) c)

  -- Clamp and Uclamp.
  unfoldable pub clamped : Opcode → ValueType → Value → Value → Value → Value
  clamped op type a lo hi =
      if op == Opcode.clamp
      then from_int128 type (
          if Int128.lt_signed (as_int128 a) (as_int128 lo)
          then as_int128 lo
          else if Int128.lt_signed (as_int128 hi) (as_int128 a)
          then as_int128 hi
          else as_int128 a)
      else from_int128 type (
          if ltb (unsigned_of a type) (unsigned_of lo type)
          then unsigned_of lo type
          else if ltb (unsigned_of hi type) (unsigned_of a type)
          then unsigned_of hi type
          else unsigned_of a type)

  -- Mla and Mls.
  unfoldable pub multiply_add : Opcode → ValueType → Value → Value → Value → Value
  multiply_add op type a b c =
      let product = Int128.mul (as_int128 a) (as_int128 b) in
      from_int128 type (
        if op == Opcode.mla
        then Int128.add product (as_int128 c)
        else Int128.sub (as_int128 c) product)

  unfoldable pub carries : Instruction → Exec (Unit {0}) → Exec (Unit {0})
  carries instr others =
      switch instr.opcode
        ((
          Opcode.addc ∷ Opcode.subb ∷ [],
          (do
            require_int instr.type
            a ← arg instr 0
            b ← arg instr 1
            f ← get_frame
            (carry, r) ← pure (
                let c = if f.carry_flag then 1 else 0 in
                if instr.opcode == Opcode.addc
                then add_carry instr.type (unsigned_of a instr.type) (unsigned_of b instr.type) c
                else subtract_borrow (unsigned_of a instr.type) (unsigned_of b instr.type) c)
            set_carry carry
            assign instr (from_int128 instr.type r)),
        )
          ∷ (
            Opcode.mulwide ∷ Opcode.umulwide ∷ [],
            (do
              require_int instr.type
              throw_if (ltb 64 (bit_width instr.type)) RuntimeError.mulwide_128
              a ← arg instr 0
              b ← arg instr 1
              assign instr (
                  from_int128 instr.type2 (
                    if instr.opcode == Opcode.mulwide
                    then Int128.mul (as_int128 a) (as_int128 b)
                    else Int128.mul (unsigned_of a instr.type) (unsigned_of b instr.type)))),
          )
          ∷ (
            Opcode.ucmp ∷ [],
            (do
              a ← arg instr 0
              b ← arg instr 1
              set_cmp_flag (flag_byte (unsigned_compare instr.type a b))),
          )
          ∷ (
            Opcode.clamp ∷ Opcode.uclamp ∷ [],
            (do
              require_int instr.type
              ternary instr (λ a lo hi. ok (clamped instr.opcode instr.type a lo hi))),
          )
          ∷ (
            Opcode.mla ∷ Opcode.mls ∷ [],
            (do
              require_int instr.type
              ternary instr (λ a b c. ok (multiply_add instr.opcode instr.type a b c))),
          )
          ∷ [])
        others
