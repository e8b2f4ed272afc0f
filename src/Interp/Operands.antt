-- ===== src/Interp/Operands.antt =====
-- The actions that read operands and assign results keep any invariant of the store.
use uasm.Base.{ℕ}
use uasm.Runtime.{Run}
use uasm.Types.{ValueType}
use uasm.Ast.{Operand, Instruction}
use uasm.Value.Float.{FloatOps}
use uasm.Value.Defs.{Value}
use uasm.Memory.Defs.{Store}
use uasm.Interp.Machine.{assign, read, operand, pointer, number, word, byte, double}
use uasm.Interp.Basic.{unary, binary, ternary, set_cmp_flag}
use uasm.Interp.Pointers.{offset_behind}
use uasm.Interp.Bitfields.{bits_of}
use uasm.Interp.Keeps.{
  Keeps, Keeps-pure, Keeps-lift, Keeps-get_frame, Keeps-put_frame, Keeps-if, Keeps-bind,
  Keeps-query, Keeps-switch, row, end_of_rows,
}

pub ruleset keeps_rules =
    (Keeps-pure, Keeps-lift, Keeps-get_frame, Keeps-put_frame, Keeps-if, Keeps-bind, Keeps-query)

module _ {P : Store → Type 0} where
  pub Keeps-assign : (instr : Instruction) (v : Value) → Keeps P (assign instr v)
  unfolding assign
  Keeps-assign instr v = search keeps_rules depth 8

  module _ ⦃fl : FloatOps⦄ where
    pub Keeps-read : (op : Operand) (type : ValueType) → Keeps P (read op type)
    unfolding read
    Keeps-read op type = search keeps_rules depth 8

    pub Keeps-operand :
        (instr : Instruction) (i : ℕ) (type : ValueType) → Keeps P (operand instr i type)
    unfolding operand
    Keeps-operand instr i type = search (keeps_rules, Keeps-read) depth 8

    pub Keeps-pointer : (instr : Instruction) (i : ℕ) → Keeps P (pointer instr i)
    unfolding pointer
    Keeps-pointer instr i = search (keeps_rules, Keeps-operand) depth 8

    pub Keeps-number :
        (instr : Instruction) (i : ℕ) (type : ValueType) → Keeps P (number instr i type)
    unfolding number
    Keeps-number instr i type = search (keeps_rules, Keeps-operand) depth 8

    pub Keeps-word : (instr : Instruction) (i : ℕ) → Keeps P (word instr i)
    unfolding word
    Keeps-word instr i = search (keeps_rules, Keeps-number) depth 8

    pub Keeps-byte : (instr : Instruction) (i : ℕ) → Keeps P (byte instr i)
    unfolding byte
    Keeps-byte instr i = search (keeps_rules, Keeps-number) depth 8

    pub Keeps-double : (instr : Instruction) (i : ℕ) → Keeps P (double instr i)
    unfolding double
    Keeps-double instr i = search (keeps_rules, Keeps-operand) depth 8

    pub Keeps-bits_of : (instr : Instruction) (i : ℕ) → Keeps P (bits_of instr i)
    unfolding bits_of
    Keeps-bits_of instr i = search (keeps_rules, Keeps-operand) depth 8

    pub Keeps-offset_behind : (instr : Instruction) (n i : ℕ) → Keeps P (offset_behind instr n i)
    unfolding offset_behind
    Keeps-offset_behind instr n i = search (keeps_rules, Keeps-number) depth 8

    pub Keeps-unary : (instr : Instruction) (f : Value → Run Value) → Keeps P (unary instr f)
    unfolding unary
    Keeps-unary instr f = search (keeps_rules, Keeps-operand, Keeps-assign) depth 8

    pub Keeps-binary :
        (instr : Instruction) (f : Value → Value → Run Value) → Keeps P (binary instr f)
    unfolding binary
    Keeps-binary instr f = search (keeps_rules, Keeps-operand, Keeps-assign) depth 8

    pub Keeps-ternary :
        (instr : Instruction) (f : Value → Value → Value → Run Value) → Keeps P (ternary instr f)
    unfolding ternary
    Keeps-ternary instr f = search (keeps_rules, Keeps-operand, Keeps-assign) depth 8

    pub Keeps-set_cmp_flag : (flag : ℕ) → Keeps P (set_cmp_flag flag)
    unfolding set_cmp_flag
    Keeps-set_cmp_flag flag = search keeps_rules depth 8
