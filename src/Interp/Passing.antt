-- ===== src/Interp/Passing.antt =====
-- The actions of `Interpreter::call` that choose the next instruction keep any invariant of the store
-- that the callees keep.
use uasm.Base.{ℕ, Bool, List, [], ◌∷◌, Ensures}
use uasm.Ast.{Instruction, Operand}
use uasm.Value.Float.{FloatOps}
use uasm.Value.Defs.{Value}
use uasm.Memory.Defs.{Store}
use uasm.Linker.Defs.{FunctionIndexMap}
use uasm.Interp.Machine.{Exec}
use uasm.Interp.Control.{
  Flow, next, jump, finish, Callee, jump_to, jump_if, read_args, args_of, assign_result,
  enter_callee, branches,
}
use uasm.Interp.Call.{count_instruction, after_instruction, after_block}
use uasm.Interp.Keeps.{Keeps, Keeps-pure, Keeps-lift, Keeps-bind, Keeps-change_with}
use uasm.Interp.Operands.{Keeps-read}
use uasm.Interp.Groups.{case_rules}

module _ {P : Store → Type 0} where
  Keeps-jump_to :
      (labels : FunctionIndexMap) (instr : Instruction) (i : ℕ) → Keeps P (jump_to labels instr i)
  unfolding jump_to
  Keeps-jump_to labels instr i = search case_rules depth 10

  Keeps-jump_if :
      (taken : Bool) (labels : FunctionIndexMap) (instr : Instruction) (i : ℕ)
      → Keeps P (jump_if taken labels instr i)
  unfolding jump_if
  Keeps-jump_if taken labels instr i = search (case_rules, Keeps-jump_to) depth 10

  pub Keeps-after_instruction :
      (rest : Exec Flow) → Keeps P rest → (flow : Flow) → Keeps P (after_instruction rest flow)
  unfolding after_instruction
  Keeps-after_instruction rest k next = k
  Keeps-after_instruction rest k (jump b) = Keeps-pure (jump b)
  Keeps-after_instruction rest k (finish v) = Keeps-pure (finish v)

  pub Keeps-after_block :
      (again : ℕ → Exec Value)
      → ((b : ℕ) → Keeps P (again b))
      → (flow : Flow) → Keeps P (after_block again flow)
  unfolding after_block
  Keeps-after_block again k next = Keeps-lift _
  Keeps-after_block again k (jump b) = k b
  Keeps-after_block again k (finish v) = Keeps-pure v

  pub Keeps-count_instruction : Keeps P count_instruction
  unfolding count_instruction
  Keeps-count_instruction = search case_rules depth 10

  module _ ⦃fl : FloatOps⦄ where
    Keeps-read_args : (ops : List Operand) → Keeps P (read_args ops)
    unfolding read_args
    Keeps-read_args [] = Keeps-pure []
    Keeps-read_args (op ∷ rest) =
        Keeps-bind _ _ (Keeps-read op _)
          (λ v. Keeps-bind _ _ (Keeps-read_args rest) (λ vs. Keeps-pure (v ∷ vs)))

    pub Keeps-args_of : (instr : Instruction) → Keeps P (args_of instr)
    unfolding args_of
    Keeps-args_of instr = Keeps-read_args _

    pub Keeps-assign_result : (instr : Instruction) (v : Value) → Keeps P (assign_result instr v)
    unfolding assign_result
    Keeps-assign_result instr v = search case_rules depth 10

    pub Keeps-branches :
        (labels : FunctionIndexMap) (instr : Instruction) (others : Exec Flow)
        → Keeps P others
        → Keeps P (branches labels instr others)
    unfolding branches
    Keeps-branches labels instr others k =
        search (case_rules, Keeps-jump_to, Keeps-jump_if) depth 40 fits 5000

    pub Keeps-enter_callee :
        (callee : Callee) (idx : ℕ) (args : List Value)
        → ((idx : ℕ) (args : List Value) (s : Store)
            → P s
            → Ensures (λ x. P x.1) (callee idx args s))
        → Keeps P (enter_callee callee idx args)
    unfolding enter_callee
    Keeps-enter_callee callee idx args kc = Keeps-change_with _ (kc idx args)
