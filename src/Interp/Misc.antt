-- ===== src/Interp/Misc.antt =====
-- The cases of `Interpreter::call` in src/vm/interpreter.cpp from Assert to Sideeffect, and Syscall.
use uasm.Base.{◌%◌, ◌^◌, ◌==◌, [], ◌∷◌, ok, switch}
use uasm.Runtime.{RuntimeError}
use uasm.Types.{i64}
use uasm.Ast.{Instruction}
use uasm.Ast.Opcode
use uasm.Value.Float.{FloatOps}
use uasm.Value.Defs.{from_int128}
use uasm.Value.Defs.{sign_extend}
use uasm.Interp.Pointers.{offset_behind}
use uasm.Interp.Buffers.{get_memory, put_memory}
use uasm.Interp.Basic.{Host, unary}
use uasm.Interp.Machine.{Exec, ◌>>=◌, ◌>>◌, pure, lift, throw_if, assign, number}

module _ ⦃fl : FloatOps⦄ ⦃host : Host⦄ where
  unfoldable pub misc : Instruction → Exec (Unit {0}) → Exec (Unit {0})
  misc instr others =
      switch instr.opcode
        ((
          Opcode.assert ∷ [],
          (do c ← number instr 0 instr.type; throw_if (c == 0) RuntimeError.assertion_failed),
        )
          ∷ (Opcode.expect ∷ Opcode.freeze ∷ [], unary instr (λ a. ok a))
          ∷ (Opcode.poison ∷ [], assign instr (from_int128 instr.type 0))
          ∷ (
            Opcode.nop ∷ Opcode.breakpoint ∷ Opcode.assume ∷ Opcode.prefetch ∷ Opcode.hint
                ∷ Opcode.dbgloc ∷ Opcode.trace ∷ Opcode.probe ∷ Opcode.noopt ∷ Opcode.sideeffect
                ∷ [],
            pure tt,
          )
          ∷ (
            Opcode.syscall ∷ [],
            (do
              sid ← number instr 0 i64
              a0 ← offset_behind instr 1 1
              a1 ← offset_behind instr 2 2
              a2 ← offset_behind instr 3 3
              mem ← get_memory
              (result, mem') ←
                  lift (host.syscall (sid % 2 ^ 64) (a0 % 2 ^ 64) (a1 % 2 ^ 64) (a2 % 2 ^ 64) mem)
              put_memory mem'
              assign instr (from_int128 instr.type (sign_extend 64 result))),
          )
          ∷ [])
        others
