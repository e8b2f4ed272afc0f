-- ===== src/Interp/Flagging.antt =====
-- The flags of a frame of src/vm/interpreter.cpp: what a comparison leaves and a branch tests, and what
-- Pushf saves and Popf restores.
use uasm.Base.{ℕ, ◌+◌, ◌%◌, ◌/◌, ◌<◌, ◌≡◌, refl, Bool, true, false, ok, if◌then◌else◌, arith, ◌==◌}
use Prim.Native.Nat.{Ordering}
use uasm.Ast.{Opcode}
use uasm.Ast.Opcode
use uasm.Alu.Convert.{compare_result}
use uasm.Frame.{Frame, flag_byte, flag_order, should_branch}
use uasm.Interp.Frames.{packed_flags, unpack_flags}

-- A condition, as the branches on the flag, the branches that compare and the instructions that set
-- a register name it.
pub data Condition : Type 0 where
  equal unequal less greater less_equal greater_equal : Condition

abbrev pub branch_on_flag : Condition → Opcode
branch_on_flag Condition.equal = Opcode.beq
branch_on_flag Condition.unequal = Opcode.bne
branch_on_flag Condition.less = Opcode.blt
branch_on_flag Condition.greater = Opcode.bgt
branch_on_flag Condition.less_equal = Opcode.ble
branch_on_flag Condition.greater_equal = Opcode.bge

abbrev pub compare_and_branch : Condition → Opcode
compare_and_branch Condition.equal = Opcode.breq
compare_and_branch Condition.unequal = Opcode.brne
compare_and_branch Condition.less = Opcode.brlt
compare_and_branch Condition.greater = Opcode.brgt
compare_and_branch Condition.less_equal = Opcode.brle
compare_and_branch Condition.greater_equal = Opcode.brge

abbrev pub set_on_flag : Condition → Opcode
set_on_flag Condition.equal = Opcode.seteq
set_on_flag Condition.unequal = Opcode.setne
set_on_flag Condition.less = Opcode.setlt
set_on_flag Condition.greater = Opcode.setgt
set_on_flag Condition.less_equal = Opcode.setle
set_on_flag Condition.greater_equal = Opcode.setge

-- For each of the six conditions and each outcome of a comparison: the branch on the flag that the
-- comparison leaves is taken exactly if the branch that compares by itself is, and exactly if the
-- instruction that sets a register from the flag sets it to true.
pub should_branch-compare_result :
    (c : Condition) (o : Ordering)
    → (compare_result (compare_and_branch c) o
        ≡ ok (should_branch (branch_on_flag c) (flag_order (flag_byte o))))
      × (compare_result (set_on_flag c) (flag_order (flag_byte o))
          ≡ ok (should_branch (branch_on_flag c) (flag_order (flag_byte o))))
unfolding compare_result should_branch
should_branch-compare_result Condition.equal Ordering.lt = (refl, refl)
should_branch-compare_result Condition.equal Ordering.eq = (refl, refl)
should_branch-compare_result Condition.equal Ordering.gt = (refl, refl)
should_branch-compare_result Condition.unequal Ordering.lt = (refl, refl)
should_branch-compare_result Condition.unequal Ordering.eq = (refl, refl)
should_branch-compare_result Condition.unequal Ordering.gt = (refl, refl)
should_branch-compare_result Condition.less Ordering.lt = (refl, refl)
should_branch-compare_result Condition.less Ordering.eq = (refl, refl)
should_branch-compare_result Condition.less Ordering.gt = (refl, refl)
should_branch-compare_result Condition.greater Ordering.lt = (refl, refl)
should_branch-compare_result Condition.greater Ordering.eq = (refl, refl)
should_branch-compare_result Condition.greater Ordering.gt = (refl, refl)
should_branch-compare_result Condition.less_equal Ordering.lt = (refl, refl)
should_branch-compare_result Condition.less_equal Ordering.eq = (refl, refl)
should_branch-compare_result Condition.less_equal Ordering.gt = (refl, refl)
should_branch-compare_result Condition.greater_equal Ordering.lt = (refl, refl)
should_branch-compare_result Condition.greater_equal Ordering.eq = (refl, refl)
should_branch-compare_result Condition.greater_equal Ordering.gt = (refl, refl)

packed_parts :
    (c : ℕ) (x y : Bool)
    → c < 256
    → let n = c + (if x then 256 else 0) + (if y then 512 else 0) in
      (n % 256 ≡ c) × ((n / 256 % 2 == 1) ≡ x) × ((n / 512 % 2 == 1) ≡ y)
packed_parts c true true h = (omega arith, ground arith, ground arith)
packed_parts c true false h = (omega arith, ground arith, ground arith)
packed_parts c false true h = (omega arith, ground arith, ground arith)
packed_parts c false false h = (omega arith, ground arith, ground arith)

-- If the comparison flag is a byte, then what Popf reads from what Pushf packed restores the three
-- flags and nothing else of the frame, whatever they were before.
pub unpack_flags-packed_flags :
    (f g : Frame)
    → f.cmp_flag < 256
    → unpack_flags (packed_flags f) g ≡ record g {
      cmp_flag = f.cmp_flag;
      carry_flag = f.carry_flag;
      overflow_flag = f.overflow_flag;
    }
unfolding unpack_flags packed_flags
unpack_flags-packed_flags f g h =
    let (low, carry, overflow) = packed_parts f.cmp_flag f.carry_flag f.overflow_flag h in
    rw (low, carry, overflow) refl
