-- ===== src/Interp/Groups.antt =====
-- The cases of `Interpreter::call` that do not change the store keep any invariant of it.
use uasm.Ast.{Instruction}
use uasm.Value.Float.{FloatOps, MathLib}
use uasm.Memory.Defs.{Store}
use uasm.Interp.Machine.{Exec}
use uasm.Interp.Numeric.{mathematics, integers, carries, set_carry}
use uasm.Interp.Checked.{checks, set_overflow}
use uasm.Interp.Floats.{floats}
use uasm.Interp.Flags.{flags}
use uasm.Interp.Bitfields.{bitfields}
use uasm.Interp.Keeps.{Keeps, Keeps-switch, row, end_of_rows}
use uasm.Interp.Operands.{
  keeps_rules, Keeps-assign, Keeps-operand, Keeps-pointer, Keeps-number, Keeps-word, Keeps-byte,
  Keeps-double, Keeps-bits_of, Keeps-offset_behind, Keeps-unary, Keeps-binary, Keeps-ternary,
  Keeps-set_cmp_flag,
}

pub ruleset case_rules = (
  keeps_rules, Keeps-switch, row, end_of_rows, Keeps-assign, Keeps-operand, Keeps-pointer,
  Keeps-number, Keeps-word, Keeps-byte, Keeps-double, Keeps-bits_of, Keeps-offset_behind,
  Keeps-unary, Keeps-binary, Keeps-ternary, Keeps-set_cmp_flag,
)

module _ {P : Store → Type 0} (instr : Instruction) (others : Exec (Unit {0})) where
  module _ ⦃fl : FloatOps⦄ ⦃ml : MathLib⦄ where
    pub Keeps-mathematics : Keeps P others → Keeps P (mathematics instr others)
    unfolding mathematics
    Keeps-mathematics k = search case_rules depth 30 fits 3000

    pub Keeps-floats : Keeps P others → Keeps P (floats instr others)
    unfolding floats
    Keeps-floats k = search case_rules depth 30 fits 3000

  module _ ⦃fl : FloatOps⦄ where
    pub Keeps-integers : Keeps P others → Keeps P (integers instr others)
    unfolding integers
    Keeps-integers k = search case_rules depth 30 fits 3000

    pub Keeps-carries : Keeps P others → Keeps P (carries instr others)
    unfolding carries set_carry
    Keeps-carries k = search case_rules depth 30 fits 3000

    pub Keeps-checks : Keeps P others → Keeps P (checks instr others)
    unfolding checks set_overflow
    Keeps-checks k = search case_rules depth 40 fits 5000

    pub Keeps-flags : Keeps P others → Keeps P (flags instr others)
    unfolding flags
    Keeps-flags k = search case_rules depth 30 fits 3000

    pub Keeps-bitfields : Keeps P others → Keeps P (bitfields instr others)
    unfolding bitfields
    Keeps-bitfields k = search case_rules depth 30 fits 3000
