-- ===== src/Interp/Call.antt =====
-- `Interpreter::call` and `run` of src/vm/interpreter.cpp. `call` is recursive and loops over blocks
-- until an instruction returns; here both are on fuel, which bounds the depth of the calls and the
-- number of blocks that one call runs, and whose end is the error `out_of_fuel`.
use uasm.Base.{
  ℕ, zero, suc, ◌+◌, ◌%◌, ◌^◌, not, ◌&&◌, ltb, leb, ◌==◌, List, [], ◌∷◌, length, none, some, ok,
  err, if◌then◌else◌,
}
use uasm.Runtime.{RuntimeError, Run}
use uasm.Ast.{Instruction}
use uasm.Ast.Opcode
use uasm.Value.Float.{FloatOps, MathLib}
use uasm.Value.Defs.{Value}
use uasm.Interp.Machine.{Machine, Exec, ◌>>=◌, ◌>>◌, pure, lift, throw, get_frame, put_frame}
use uasm.Base.{map, get_elem?}
use uasm.Ast.{Program, Function, Block}
use uasm.Memory.Defs.{Store, initial_store}
use uasm.Linker.Defs.{FunctionIndexMap}
use uasm.Frame.{Frame, empty_frame, write_reg}
use uasm.Interp.Basic.{Host, basic, memory}
use uasm.Interp.Numeric.{mathematics, integers, carries}
use uasm.Interp.Checked.{checks}
use uasm.Interp.Floats.{floats}
use uasm.Interp.Flags.{flags}
use uasm.Interp.Frames.{frames}
use uasm.Interp.Pointers.{pointers}
use uasm.Interp.Bitfields.{bitfields}
use uasm.Interp.Buffers.{buffers}
use uasm.Interp.Strings.{strings, utf8}
use uasm.Interp.Misc.{misc}
use uasm.Interp.Control.{Flow, next, jump, finish, Callee, index_from, branches, calls, far_calls}

-- The instructions of src/include/uasm/opcodes_simd.def, which src/vm/vector_ops.cpp computes.
pub record VectorUnit : Type 0 where
  pub execute : Instruction → Exec (Unit {0})

-- `for (…) frame.reg(i) = args[i];`.
unfoldable pub write_args : Frame → ℕ → List Value → Run Frame
write_args f i [] = ok f
write_args f i (v ∷ rest) = elim (write_reg f i v) [
  | err e ↦ err e
  | ok f' ↦ write_args f' (i + 1) rest
]

unfoldable pub count_instruction : Exec (Unit {0})
count_instruction = do f ← get_frame; put_frame (record f { pc = (f.pc + 1) % 2 ^ 64 })

unfoldable pub block_at : Function → ℕ → Run Block
block_at fn b = elim (get_elem? fn.blocks b) [
  | none ↦ err RuntimeError.undefined
  | some block ↦ ok block
]

-- `blockIndex`.
unfoldable pub block_index : Function → FunctionIndexMap
block_index fn = index_from (map (λ b. b.label) fn.blocks) 0 []

-- The frame ends with the call.
unfoldable pub leave : Run (Value × Machine) → Run (Value × Store)
leave (err e) = err e
leave (ok (v, m)) = ok (v, m.store)

-- `if (jumped) break;`, with the rest of the block.
unfoldable pub after_instruction : Exec Flow → Flow → Exec Flow
after_instruction rest next = rest
after_instruction rest (jump b) = pure (jump b)
after_instruction rest (finish v) = pure (finish v)

-- The end of a round, with the rounds from the next block on.
unfoldable pub after_block : (ℕ → Exec Value) → Flow → Exec Value
after_block again next = throw RuntimeError.fell_off_block
after_block again (jump b) = again b
after_block again (finish v) = pure v

module _ ⦃fl : FloatOps⦄ ⦃ml : MathLib⦄ ⦃host : Host⦄ ⦃unit : VectorUnit⦄ where
  -- The cases that go on with the next instruction. An opcode behind the tables has no case.
  unfoldable pub compute : Instruction → Exec (Unit {0})
  compute instr =
      if leb Opcode.core_count instr.opcode && ltb instr.opcode Opcode.opcode_count
      then unit.execute instr
      else basic instr (
          memory instr (
            mathematics instr (
              integers instr (
                carries instr (
                  checks instr (
                    floats instr (
                      flags instr (
                        frames instr (
                          pointers instr (
                            bitfields instr (
                              buffers instr
                                (strings instr (utf8 instr (misc instr (pure tt)))))))))))))))

  -- The body of the loop over the instructions of a block.
  unfoldable pub step : Program → Callee → FunctionIndexMap → Instruction → Exec Flow
  step program callee labels instr =
      count_instruction
      >> branches labels instr
          (calls program callee instr (far_calls program callee instr (compute instr >> pure next)))

  unfoldable pub run_instructions :
      Program → Callee → FunctionIndexMap → List Instruction → Exec Flow
  run_instructions program callee labels [] = pure next
  run_instructions program callee labels (instr ∷ instrs) =
      let rest = run_instructions program callee labels instrs in
      step program callee labels instr >>= after_instruction rest

  -- `while (true)` from the block `b`, which `resolveBlock` gave, in at most `rounds` rounds.
  unfoldable pub run_blocks : Program → Callee → Function → FunctionIndexMap → ℕ → ℕ → Exec Value
  run_blocks program callee fn labels zero b = throw RuntimeError.out_of_fuel
  run_blocks program callee fn labels (suc rounds) b = do
    block ← lift (block_at fn b)
    flow ← run_instructions program callee labels block.instructions
    after_block (run_blocks program callee fn labels rounds) flow

  -- `call` on a function, with `callee` for the calls that it makes.
  unfoldable pub call_function :
      Program → Callee → ℕ → Function → List Value → Store → Run (Value × Store)
  call_function program callee rounds fn args s =
      if not (length args == length fn.params)
      then err RuntimeError.wrong_argument_count
      else elim (write_args empty_frame 0 args) [
        | err e ↦ err e
        | ok f ↦
            if length fn.blocks == 0
            then err RuntimeError.no_blocks
            else leave (
                run_blocks program callee fn (block_index fn) rounds 0
                  (record { store = s; frame = f }))
      ]

  -- `program_.functions[functionIdx]`, which the source does not check, is undefined past the end.
  unfoldable pub call : Program → ℕ → ℕ → List Value → Store → Run (Value × Store)
  call program zero idx args s = err RuntimeError.out_of_fuel
  call program (suc fuel) idx args s = elim (get_elem? program.functions idx) [
    | none ↦ err RuntimeError.undefined
    | some fn ↦ call_function program (call program fuel) fuel fn args s
  ]

  unfoldable pub run : Program → ℕ → List Value → Run Value
  run program fuel args = elim (call program fuel program.entry_index args initial_store) [
    | err e ↦ err e
    | ok (v, s) ↦ ok v
  ]
