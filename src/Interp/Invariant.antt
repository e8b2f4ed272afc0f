-- ===== src/Interp/Invariant.antt =====
-- `Interpreter::call` as a whole keeps the stack pointer and the heap's bump pointer inside their
-- vectors.
use uasm.Base.{
  ℕ, zero, suc, ◌==◌, inl, inr, Bool-cases, Option-cases, Result-cases, List, [], ◌∷◌, length,
  get_elem?, ok, err, Ensures,
}
use uasm.Runtime.{Run}
use uasm.Ast.{Instruction, Program, Function}
use uasm.Value.Float.{FloatOps, MathLib}
use uasm.Value.Defs.{Value}
use uasm.Memory.Defs.{Store}
use uasm.Memory.Within.{IsWithin, IsSafeWith}
use uasm.Linker.Defs.{FunctionIndexMap}
use uasm.Frame.{empty_frame}
use uasm.Interp.Machine.{Machine, Exec}
use uasm.Interp.Basic.{Host}
use uasm.Interp.Control.{Flow, next, Callee, enter_callee, calls, far_calls}
use uasm.Interp.Call.{
  VectorUnit, compute, step, run_instructions, run_blocks, call_function, call, block_at,
  block_index, write_args, leave,
}
use uasm.Interp.Keeps.{Keeps, Keeps-pure, Keeps-lift, Keeps-bind, Keeps-if}
use uasm.Interp.Groups.{
  case_rules, Keeps-mathematics, Keeps-integers, Keeps-carries, Keeps-checks, Keeps-floats,
  Keeps-flags, Keeps-bitfields,
}
use uasm.Interp.Bounded.{
  basic-IsWithin, memory-IsWithin, frames-IsWithin, pointers-IsWithin, buffers-IsWithin,
  strings-IsWithin, utf8-IsWithin, misc-IsWithin, release-IsWithin,
}
use uasm.Interp.Passing.{
  Keeps-after_instruction, Keeps-after_block, Keeps-count_instruction, Keeps-args_of,
  Keeps-assign_result, Keeps-branches, Keeps-enter_callee,
}

-- A store within its bounds is left so by what a callee returns.
abbrev SafeCallee : Callee → Type 0
SafeCallee callee =
    (idx : ℕ) (args : List Value) (s : Store) → IsWithin s → IsSafeWith (callee idx args s)

module _ ⦃fl : FloatOps⦄ (callee : Callee) (safe : SafeCallee callee) where
  calls-IsWithin :
      (program : Program) (instr : Instruction) (others : Exec Flow)
      → Keeps IsWithin others
      → Keeps IsWithin (calls program callee instr others)
  unfolding calls
  calls-IsWithin program instr others k =
      let entered : (idx : ℕ) (args : List Value) → Keeps IsWithin (enter_callee callee idx args) =
        λ idx args. Keeps-enter_callee callee idx args safe in
      search (case_rules, Keeps-args_of, Keeps-assign_result, entered, release-IsWithin) depth 40
        fits 5000

  far_calls-IsWithin :
      (program : Program) (instr : Instruction) (others : Exec Flow)
      → Keeps IsWithin others
      → Keeps IsWithin (far_calls program callee instr others)
  unfolding far_calls
  far_calls-IsWithin program instr others k =
      let entered : (idx : ℕ) (args : List Value) → Keeps IsWithin (enter_callee callee idx args) =
        λ idx args. Keeps-enter_callee callee idx args safe in
      search (case_rules, Keeps-args_of, Keeps-assign_result, entered, release-IsWithin) depth 40
        fits 5000

module _ ⦃fl : FloatOps⦄ ⦃ml : MathLib⦄ ⦃host : Host⦄ ⦃unit : VectorUnit⦄
    (vectors : (instr : Instruction) → Keeps IsWithin (unit.execute instr)) where
  compute-IsWithin : (instr : Instruction) → Keeps IsWithin (compute instr)
  unfolding compute
  compute-IsWithin instr = Keeps-if _ _ _ (vectors instr) (
      basic-IsWithin instr _ (
        memory-IsWithin instr _ (
          Keeps-mathematics instr _ (
            Keeps-integers instr _ (
              Keeps-carries instr _ (
                Keeps-checks instr _ (
                  Keeps-floats instr _ (
                    Keeps-flags instr _ (
                      frames-IsWithin instr _ (
                        pointers-IsWithin instr _ (
                          Keeps-bitfields instr _ (
                            buffers-IsWithin instr _ (
                              strings-IsWithin instr _ (
                                utf8-IsWithin instr _
                                  (misc-IsWithin instr _ (Keeps-pure tt))))))))))))))))

  module _ (program : Program) (callee : Callee) (safe : SafeCallee callee) where
    step-IsWithin :
        (labels : FunctionIndexMap) (instr : Instruction)
        → Keeps IsWithin (step program callee labels instr)
    unfolding step
    step-IsWithin labels instr = Keeps-bind _ _ Keeps-count_instruction (λ _.
        Keeps-branches labels instr _ (
          calls-IsWithin callee safe program instr _ (
            far_calls-IsWithin callee safe program instr _
              (Keeps-bind _ _ (compute-IsWithin instr) (λ _. Keeps-pure next)))))

    run_instructions-IsWithin :
        (labels : FunctionIndexMap) (instrs : List Instruction)
        → Keeps IsWithin (run_instructions program callee labels instrs)
    unfolding run_instructions
    run_instructions-IsWithin labels [] = Keeps-pure next
    run_instructions-IsWithin labels (instr ∷ instrs) =
        Keeps-bind _ _ (step-IsWithin labels instr)
          (Keeps-after_instruction _ (run_instructions-IsWithin labels instrs))

    run_blocks-IsWithin :
        (fn : Function) (labels : FunctionIndexMap) (rounds b : ℕ)
        → Keeps IsWithin (run_blocks program callee fn labels rounds b)
    unfolding run_blocks
    run_blocks-IsWithin fn labels zero b = Keeps-lift _
    run_blocks-IsWithin fn labels (suc rounds) b =
        Keeps-bind _ _ (Keeps-lift (block_at fn b)) (λ block.
          Keeps-bind _ _ (run_instructions-IsWithin labels block.instructions)
            (Keeps-after_block _ (run_blocks-IsWithin fn labels rounds)))

    leave-IsSafe :
        (r : Run (Value × Machine)) → Ensures (λ x. IsWithin x.1.store) r → IsSafeWith (leave r)
    unfolding leave
    leave-IsSafe (err e) h = tt
    leave-IsSafe (ok (v, m)) h = h

    call_function-IsSafe :
        (rounds : ℕ) (fn : Function) (args : List Value) (s : Store)
        → IsWithin s
        → IsSafeWith (call_function program callee rounds fn args s)
    unfolding call_function
    call_function-IsSafe rounds fn args s w = elim (Bool-cases (length args == length fn.params)) [
      | inr wrong ↦ rw (wrong, call_function) tt
      | inl right ↦ elim (Result-cases (write_args empty_frame 0 args)) [
        | inr (e, failed) ↦ rw (right, failed, call_function) tt
        | inl (f, written) ↦ elim (Bool-cases (length fn.blocks == 0)) [
          | inl none_there ↦ rw (right, written, none_there, call_function) tt
          | inr there ↦
              rw (right, written, there, call_function)
                (leave-IsSafe _ (
                  (run_blocks-IsWithin fn (block_index fn) rounds 0).at
                    (record { store = s; frame = f }) w))
        ]
      ]
    ]

  -- If the vector instructions keep the stack pointer at most at the stack's size and the heap's
  -- bump pointer at most at the memory's, then so does a call of any function of any program on any
  -- arguments, whatever it executes, where it returns.
  pub call-IsWithin :
      (program : Program) (fuel idx : ℕ) (args : List Value) (s : Store)
      → IsWithin s
      → IsSafeWith (call program fuel idx args s)
  unfolding call
  call-IsWithin program zero idx args s w = tt
  call-IsWithin program (suc fuel) idx args s w =
      elim (Option-cases (get_elem? program.functions idx)) [
        | inl missing ↦ rw (missing, call) tt
        | inr (fn, found) ↦
            rw (found, call)
              (call_function-IsSafe program (call program fuel) (call-IsWithin program fuel) fuel fn
                args s w)
      ]
