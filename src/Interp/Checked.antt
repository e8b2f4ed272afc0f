-- ===== src/Interp/Checked.antt =====
-- The cases of `Interpreter::call` in src/vm/interpreter.cpp from Addsat to Bitconv.
use uasm.Base.{ℕ, Bool, false, ◌&&◌, ◌==◌, [], ◌∷◌, ok, err, if◌then◌else◌, switch}
use uasm.Runtime.{RuntimeError, Run}
use uasm.Types.{ValueType}
use uasm.Ast.{Instruction}
use uasm.Ast.Opcode
use uasm.Value.Int128
use uasm.Value.Float.{FloatOps}
use uasm.Value.Defs.{Value, as_int128, from_int128}
use uasm.Alu.Bits.{bit_width}
use uasm.Alu.Division.{signed_min_of_width}
use uasm.Alu.Saturating.{saturating_op, compute_with_overflow}
use uasm.Alu.Convert.{convert_op}
use uasm.Interp.Machine.{
  Exec, ◌>>=◌, ◌>>◌, lift, throw_if, get_frame, put_frame, assign, arg, require_int,
}
use uasm.Interp.Basic.{unary, binary}

module _ ⦃fl : FloatOps⦄ where
  unfoldable pub set_overflow : Bool → Exec (Unit {0})
  set_overflow flag = do f ← get_frame; put_frame (record f { overflow_flag = flag })

  -- Divchk.
  unfoldable pub divide_checked : ValueType → ℕ → ℕ → Run Value
  divide_checked type x y =
      if y == 0
      then err RuntimeError.division_by_zero
      else if (x == signed_min_of_width (bit_width type)) && (y == Int128.neg 1)
      then err RuntimeError.overflowed
      else ok (from_int128 type (Int128.div_signed x y))

  unfoldable pub checks : Instruction → Exec (Unit {0}) → Exec (Unit {0})
  checks instr others =
      switch instr.opcode
        ((
          Opcode.addsat ∷ Opcode.subsat ∷ Opcode.mulsat ∷ Opcode.shlsat ∷ Opcode.uaddsat
              ∷ Opcode.usubsat ∷ Opcode.umulsat ∷ [],
          binary instr (saturating_op instr.opcode instr.type),
        )
          ∷ (
            Opcode.addo ∷ Opcode.subo ∷ Opcode.mulo ∷ Opcode.shlo ∷ Opcode.uaddo ∷ Opcode.usubo
                ∷ Opcode.umulo ∷ [],
            (do
              require_int instr.type
              a ← arg instr 0
              b ← arg instr 1
              (flag, r) ← lift (compute_with_overflow instr.opcode instr.type a b)
              set_overflow flag
              assign instr (from_int128 instr.type r)),
          )
          ∷ (
            Opcode.nego ∷ [],
            (do
              require_int instr.type
              a ← arg instr 0
              (flag, r) ←
                  lift (compute_with_overflow instr.opcode instr.type a (from_int128 instr.type 0))
              set_overflow flag
              assign instr (from_int128 instr.type r)),
          )
          ∷ (
            Opcode.addchk ∷ Opcode.subchk ∷ Opcode.mulchk ∷ Opcode.uaddchk ∷ Opcode.usubchk
                ∷ Opcode.umulchk ∷ [],
            (do
              require_int instr.type
              a ← arg instr 0
              b ← arg instr 1
              (flag, r) ← lift (compute_with_overflow instr.opcode instr.type a b)
              throw_if flag RuntimeError.overflowed
              assign instr (from_int128 instr.type r)),
          )
          ∷ (
            Opcode.divchk ∷ [],
            (do
              require_int instr.type
              binary instr (λ a b. divide_checked instr.type (as_int128 a) (as_int128 b))),
          )
          ∷ (
            Opcode.seto ∷ [],
            (do
              f ← get_frame
              assign instr (from_int128 instr.type (if f.overflow_flag then 1 else 0))),
          )
          ∷ (
            Opcode.clro ∷ [],
            (do f ← get_frame; put_frame (record f { overflow_flag = false; carry_flag = false })),
          )
          ∷ (
            Opcode.sext ∷ Opcode.zext ∷ Opcode.itrunc ∷ Opcode.fpext ∷ Opcode.fptrunc
                ∷ Opcode.fptosi ∷ Opcode.fptoui ∷ Opcode.sitofp ∷ Opcode.uitofp ∷ Opcode.bitconv
                ∷ [],
            unary instr (convert_op instr.opcode instr.type instr.type2),
          )
          ∷ [])
        others
