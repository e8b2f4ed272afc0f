-- ===== src/Interp/Control.antt =====
-- The cases of `Interpreter::call` in src/vm/interpreter.cpp that choose the next instruction: the
-- branches, from Call to RetVoid, and Tailcall and Callindirect.
use uasm.Base.{
  ℕ, ◌+◌, ◌-◌, ◌%◌, ◌^◌, Bool, not, ◌&&◌, ◌||◌, ltb, leb, ◌==◌, List, [], ◌∷◌, length, none, some,
  ok, err, if◌then◌else◌, switch,
}
use uasm.Runtime.{RuntimeError, Run}
use uasm.Types.{i64}
use uasm.Ast.{Operand, Instruction, Opcode}
use uasm.Ast.Opcode
use uasm.Value.Int128
use uasm.Value.Float.{FloatOps}
use uasm.Value.Defs.{Value, value}
use uasm.Base.{Text, drop, map}
use uasm.Types.{void}
use uasm.Ast.{Program}
use uasm.Alu.Arith.{compare}
use uasm.Alu.Convert.{compare_result, unsigned_compare}
use uasm.Memory.Defs.{Store}
use uasm.Linker.Defs.{FunctionIndexMap, find, operand_name}
use uasm.Frame.{Frame, flag_order, should_branch, resolve_block}
use uasm.Interp.Frames.{release}
use uasm.Interp.Machine.{
  Exec, ◌>>=◌, ◌>>◌, pure, lift, throw, get_frame, assign, read, arg, number, operand_at,
  change_with,
}

-- What an instruction does to the loop over the instructions of a block: it goes on, `blockIdx`
-- is set and `jumped`, or `call` returns.
pub data Flow : Type 0 where
  next : Flow
  jump : ℕ → Flow
  finish : Value → Flow

-- `instr.operands[i].name`.
unfoldable pub name_at : Instruction → ℕ → Run Text
name_at instr i = elim (operand_at instr i) [ err e ↦ err e | ok op ↦ ok (operand_name op) ]

-- `blockIdx = resolveBlock(…); jumped = true;`.
unfoldable pub jump_to : FunctionIndexMap → Instruction → ℕ → Exec Flow
jump_to labels instr i = do
  label ← lift (name_at instr i)
  b ← lift (resolve_block labels label)
  pure (jump b)

unfoldable pub jump_if : Bool → FunctionIndexMap → Instruction → ℕ → Exec Flow
jump_if taken labels instr i = if taken then jump_to labels instr i else pure next

-- The operand that Switch jumps to: the default is the operand 1, the cases follow it.
unfoldable pub switch_target : ℕ → ℕ → ℕ
switch_target operands idx =
    if not (Int128.is_neg idx) && ltb (idx % 2 ^ 64) (operands - 2) then 2 + idx % 2 ^ 64 else 1

unfoldable pub flag_taken : Opcode → Frame → Bool
flag_taken op f =
    if op == Opcode.bcarry
    then f.carry_flag
    else if op == Opcode.bncarry
    then not f.carry_flag
    else if op == Opcode.bovf
    then f.overflow_flag
    else not f.overflow_flag

-- A `Value` of type `Void`.
abbrev pub void_value : Value
void_value = value void 0

-- An index of the names of a list: `index[name] = i` in order, the last insertion first.
unfoldable pub index_from : List Text → ℕ → FunctionIndexMap → FunctionIndexMap
index_from [] i index = index
index_from (name ∷ rest) i index = index_from rest (i + 1) ((name, i) ∷ index)

-- What `call` is inside `call`: the index of a function, its arguments and the store.
abbrev pub Callee : Type 0
Callee = ℕ → List Value → Store → Run (Value × Store)

unfoldable pub enter_callee : Callee → ℕ → List Value → Exec Value
enter_callee callee idx args = change_with (callee idx args)

-- `functionIndex_.find(name)`.
unfoldable pub find_function : FunctionIndexMap → Instruction → Run ℕ
find_function functions instr = elim (name_at instr 0) [
  | err e ↦ err e
  | ok name ↦ elim (find functions name) [
    | none ↦ err RuntimeError.unknown_function
    | some idx ↦ ok idx
  ]
]

-- The range check of Callindirect on `program_.functions.size()`.
unfoldable pub checked_index : ℕ → ℕ → Run ℕ
checked_index count fi =
    if Int128.is_neg fi || leb count (fi % 2 ^ 64)
    then err RuntimeError.function_out_of_range
    else ok (fi % 2 ^ 64)

module _ ⦃fl : FloatOps⦄ where
  -- `callArgs`.
  unfoldable pub read_args : List Operand → Exec (List Value)
  read_args [] = pure []
  read_args (op ∷ rest) = do v ← read op i64; vs ← read_args rest; pure (v ∷ vs)

  unfoldable pub args_of : Instruction → Exec (List Value)
  args_of instr = read_args (drop 1 instr.operands)

  -- `if (instr.hasDest) frame.reg(instr.dest) = result;`.
  unfoldable pub assign_result : Instruction → Value → Exec (Unit {0})
  assign_result instr v = if instr.has_dest then assign instr v else pure tt

  unfoldable pub branches : FunctionIndexMap → Instruction → Exec Flow → Exec Flow
  branches labels instr others =
      switch instr.opcode
        ((Opcode.jmp ∷ [], jump_to labels instr 0)
          ∷ (
            Opcode.beq ∷ Opcode.bne ∷ Opcode.blt ∷ Opcode.bgt ∷ Opcode.ble ∷ Opcode.bge ∷ [],
            (do
              f ← get_frame
              jump_if (should_branch instr.opcode (flag_order f.cmp_flag)) labels instr 0),
          )
          ∷ (
            Opcode.switch ∷ [],
            (do
              idx ← number instr 0 instr.type
              jump_to labels instr (switch_target (length instr.operands) idx)),
          )
          ∷ (
            Opcode.brz ∷ Opcode.brnz ∷ [],
            (do
              n ← number instr 0 instr.type
              jump_if (if instr.opcode == Opcode.brz then n == 0 else not (n == 0)) labels instr 1),
          )
          ∷ (
            Opcode.breq ∷ Opcode.brne ∷ Opcode.brlt ∷ Opcode.brgt ∷ Opcode.brle ∷ Opcode.brge ∷ [],
            (do
              a ← arg instr 0
              b ← arg instr 1
              taken ← lift (compare_result instr.opcode (compare instr.type a b))
              jump_if taken labels instr 2),
          )
          ∷ (
            Opcode.ubrlt ∷ Opcode.ubrgt ∷ Opcode.ubrle ∷ Opcode.ubrge ∷ [],
            (do
              a ← arg instr 0
              b ← arg instr 1
              taken ← lift (compare_result instr.opcode (unsigned_compare instr.type a b))
              jump_if taken labels instr 2),
          )
          ∷ (
            Opcode.bcarry ∷ Opcode.bncarry ∷ Opcode.bovf ∷ Opcode.bnovf ∷ [],
            (do f ← get_frame; jump_if (flag_taken instr.opcode f) labels instr 0),
          )
          ∷ (Opcode.trap ∷ [], throw RuntimeError.trap)
          ∷ (Opcode.unreachable ∷ [], throw RuntimeError.unreachable)
          ∷ (Opcode.abort ∷ [], throw RuntimeError.abort)
          ∷ [])
        others

  unfoldable pub calls : Program → Callee → Instruction → Exec Flow → Exec Flow
  calls program callee instr others =
      switch instr.opcode
        ((
          Opcode.call ∷ [],
          (do
            idx ← lift (find_function (index_from (map (λ g. g.name) program.functions) 0 []) instr)
            args ← args_of instr
            v ← enter_callee callee idx args
            assign_result instr v
            pure next),
        )
          ∷ (Opcode.ret ∷ [], (do v ← arg instr 0; release; pure (finish v)))
          ∷ (Opcode.ret_void ∷ [], (do release; pure (finish void_value)))
          ∷ [])
        others

  unfoldable pub far_calls : Program → Callee → Instruction → Exec Flow → Exec Flow
  far_calls program callee instr others =
      switch instr.opcode
        ((
          Opcode.tailcall ∷ [],
          (do
            idx ← lift (find_function (index_from (map (λ g. g.name) program.functions) 0 []) instr)
            args ← args_of instr
            release
            v ← enter_callee callee idx args
            pure (finish v)),
        )
          ∷ (
            Opcode.callindirect ∷ [],
            (do
              fi ← number instr 0 i64
              idx ← lift (checked_index (length program.functions) fi)
              args ← args_of instr
              v ← enter_callee callee idx args
              assign_result instr v
              pure next),
          )
          ∷ [])
        others
