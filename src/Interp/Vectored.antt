-- ===== src/Interp/Vectored.antt =====
-- `Interpreter::call` with the vector instructions of src/vm/vector_ops.cpp keeps the stack pointer
-- and the heap's bump pointer inside their vectors.
use uasm.Base.{ℕ, List, [], ◌∷◌}
use uasm.Ast.{Operand, Instruction, Program}
use uasm.Value.Float.{FloatOps, MathLib}
use uasm.Value.Defs.{Value}
use uasm.Memory.Defs.{Store}
use uasm.Memory.Within.{IsWithin, IsSafeWith}
use uasm.Vector.Memory.{Placement}
use uasm.Interp.Basic.{Host}
use uasm.Interp.Buffers.{get_memory}
use uasm.Interp.Call.{call}
use uasm.Interp.Vectors.{read_vargs, load_placed, store_placed, vector_memory, vectors, vector_unit}
use uasm.Interp.Keeps.{Keeps, Keeps-pure, Keeps-bind}
use uasm.Interp.Operands.{Keeps-read}
use uasm.Interp.Bounded.{within_rules}
use uasm.Interp.Passing.{Keeps-assign_result}
use uasm.Interp.Invariant.{call-IsWithin}

module _ ⦃fl : FloatOps⦄ ⦃ml : MathLib⦄ where
  Keeps-read_vargs :
      {P : Store → Type 0} (instr : Instruction) (ops : List Operand)
      → Keeps P (read_vargs instr ops)
  unfolding read_vargs
  Keeps-read_vargs instr [] = Keeps-pure []
  Keeps-read_vargs instr (op ∷ rest) =
      Keeps-bind _ _ (Keeps-read op _)
        (λ v. Keeps-bind _ _ (Keeps-read_vargs instr rest) (λ vs. Keeps-pure (v ∷ vs)))

  load_placed-IsWithin :
      (instr : Instruction) (place : Placement) → Keeps IsWithin (load_placed instr place)
  unfolding load_placed get_memory
  load_placed-IsWithin instr place = search within_rules depth 20

  store_placed-IsWithin :
      (instr : Instruction) (v : Value) (place : Placement)
      → Keeps IsWithin (store_placed instr v place)
  unfolding store_placed get_memory
  store_placed-IsWithin instr v place = search within_rules depth 20

  vector_memory-IsWithin : (instr : Instruction) → Keeps IsWithin (vector_memory instr)
  unfolding vector_memory get_memory
  vector_memory-IsWithin instr =
      search (within_rules, load_placed-IsWithin, store_placed-IsWithin) depth 40 fits 5000

  vectors-IsWithin : (instr : Instruction) → Keeps IsWithin (vectors instr)
  unfolding vectors
  vectors-IsWithin instr =
      search (within_rules, Keeps-read_vargs, Keeps-assign_result, vector_memory-IsWithin) depth 20

  module _ ⦃host : Host⦄ where
    -- A call of any function of any program on any arguments, with the vector instructions as they
    -- are modelled, on a store whose stack pointer and bump pointer are inside their vectors,
    -- leaves such a store where it returns.
    pub vectored_call-IsWithin :
        (program : Program) (fuel idx : ℕ) (args : List Value) (s : Store)
        → IsWithin s
        → IsSafeWith (call ⦃unit = vector_unit⦄ program fuel idx args s)
    vectored_call-IsWithin = call-IsWithin ⦃unit = vector_unit⦄ vectors-IsWithin
