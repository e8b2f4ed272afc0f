-- ===== src/Interp/Flags.antt =====
-- The cases of `Interpreter::call` in src/vm/interpreter.cpp from Select to Cmpuno.
use uasm.Base.{not, ◌||◌, ◌==◌, [], ◌∷◌, if◌then◌else◌, switch}
use uasm.Types.{i32}
use uasm.Ast.{Instruction}
use uasm.Ast.Opcode
use uasm.Value.Float.{FloatOps}
use uasm.Alu.Arith.{compare}
use uasm.Alu.Convert.{compare_result, unsigned_compare}
use uasm.Frame.{flag_order}
use uasm.Interp.Machine.{Exec, ◌>>=◌, pure, lift, get_frame, assign, make_bool, arg, number, double}

module _ ⦃fl : FloatOps⦄ where
  unfoldable pub flags : Instruction → Exec (Unit {0}) → Exec (Unit {0})
  flags instr others =
      switch instr.opcode
        ((
          Opcode.select ∷ [],
          (do
            c ← number instr 0 i32
            a ← arg instr 1
            b ← arg instr 2
            assign instr (if c == 0 then b else a)),
        )
          ∷ (
            Opcode.seteq ∷ Opcode.setne ∷ Opcode.setlt ∷ Opcode.setgt ∷ Opcode.setle ∷ Opcode.setge
                ∷ [],
            (do
              f ← get_frame
              b ← lift (compare_result instr.opcode (flag_order f.cmp_flag))
              assign instr (make_bool b)),
          )
          ∷ (Opcode.setc ∷ [], (do f ← get_frame; assign instr (make_bool f.carry_flag)))
          ∷ (Opcode.setnc ∷ [], (do f ← get_frame; assign instr (make_bool (not f.carry_flag))))
          ∷ (
            Opcode.seteqz ∷ Opcode.setnez ∷ [],
            (do
              n ← number instr 0 instr.type
              assign instr
                  (make_bool (if instr.opcode == Opcode.seteqz then n == 0 else not (n == 0)))),
          )
          ∷ (
            Opcode.cmpeq ∷ Opcode.cmpne ∷ Opcode.cmplt ∷ Opcode.cmpgt ∷ Opcode.cmple ∷ Opcode.cmpge
                ∷ [],
            (do
              a ← arg instr 0
              b ← arg instr 1
              r ← lift (compare_result instr.opcode (compare instr.type a b))
              assign instr (make_bool r)),
          )
          ∷ (
            Opcode.ucmplt ∷ Opcode.ucmpgt ∷ Opcode.ucmple ∷ Opcode.ucmpge ∷ [],
            (do
              a ← arg instr 0
              b ← arg instr 1
              r ← lift (compare_result instr.opcode (unsigned_compare instr.type a b))
              assign instr (make_bool r)),
          )
          ∷ (
            Opcode.cmpord ∷ Opcode.cmpuno ∷ [],
            (do
              x ← double instr 0
              y ← double instr 1
              unordered ← pure (not (fl.equal x x) || not (fl.equal y y))
              assign instr
                  (make_bool (if instr.opcode == Opcode.cmpuno then unordered else not unordered))),
          )
          ∷ [])
        others
