-- ===== src/Interp/Tests.antt =====
-- A program of src/vm/interpreter.cpp: a recursive factorial. The C library's functions return 0, no
-- system call is known; and a sum of vectors.
use uasm.Base.{ℕ, ◌≡◌, refl, true, List, [], ◌∷◌, codes, text_eq, ok, err, arith, switch, one_of}
use uasm.Runtime.{RuntimeError, Run}
use uasm.Types.{v128, i32, i64, size_of_type, is_float_type}
use uasm.Ast.{Operand, Instruction, Function, Program, Opcode}
use uasm.Ast.Opcode
use uasm.Value.Float.{MathLib}
use uasm.Value.Defs.{Value, value, as_int128, from_int128}
use uasm.Value.Tests.{zero_floats}
use uasm.Memory.Defs.{Store, initial_store}
use uasm.Memory.Within.{IsWithin, IsSafeWith}
use uasm.Frame.{write_reg, grow, read_operand, read_reg, resolve_block}
use uasm.Linker.Defs.{operand_name, find}
use uasm.Memory.Heap.{free_allocas}
use uasm.Alu.Arith
use uasm.Interp.Basic.{Host, basic, memory, binary}
use uasm.Interp.Machine.{
  pure, ◌>>=◌, lift, get_frame, put_frame, get_store, put_store, change, change_with, assign, read,
  operand, number,
}
use uasm.Interp.Control.{
  index_from, branches, calls, far_calls, jump_to, jump_if, name_at, find_function, read_args,
  args_of, assign_result, enter_callee,
}
use uasm.Interp.Frames.{release}
use uasm.Interp.Call.{
  VectorUnit, call, call_function, write_args, run_blocks, block_at, block_index, run_instructions,
  step, count_instruction, compute, leave, after_instruction, after_block,
}
use uasm.Interp.Vectors.{vector_unit}
use uasm.Interp.Vectored.{vectored_call-IsWithin}
use uasm.Base.{All}
use uasm.Ast.{Block}
use Prim.Native.Nat.{Ordering}
use uasm.Alu.Convert.{compare_result}
use uasm.Frame.{Frame, empty_frame, should_branch, flag_byte, flag_order}
use uasm.Interp.Frames.{packed_flags, unpack_flags}
use uasm.Interp.Flagging.{Condition, should_branch-compare_result, unpack_flags-packed_flags}
use uasm.Interp.Linked.{Enters, link-Enters}
use uasm.Linker.Correct.{link_complete}
use uasm.Linker.Tests.{
  main_function, two_objects, linked, two_objects-distinct, two_objects-resolved,
}

abbrev pub zero_math : MathLib
zero_math = record {
  sqrt = λ x. 0;
  cbrt = λ x. 0;
  floor = λ x. 0;
  ceil = λ x. 0;
  trunc = λ x. 0;
  sin = λ x. 0;
  cos = λ x. 0;
  tan = λ x. 0;
  asin = λ x. 0;
  acos = λ x. 0;
  atan = λ x. 0;
  sinh = λ x. 0;
  cosh = λ x. 0;
  tanh = λ x. 0;
  log = λ x. 0;
  log10 = λ x. 0;
  exp = λ x. 0;
  erf = λ x. 0;
  erfc = λ x. 0;
  tgamma = λ x. 0;
  lgamma = λ x. 0;
  pow = λ x y. 0;
  atan2 = λ x y. 0;
  fmod = λ x y. 0;
  nextafter = λ x y. 0;
  ldexp = λ x n. 0;
  frexp = λ x. (0, 0);
  modf = λ x. (0, 0);
}

abbrev pub no_host : Host
no_host = record { memcmp_result = λ o. 0; syscall = λ a b c d mem. err RuntimeError.undefined }

abbrev pub no_vectors : VectorUnit
no_vectors = record { execute = λ instr. pure tt }

abbrev instruction : Opcode → List Operand → Instruction
instruction op operands = record {
  opcode = op;
  type = i64;
  type2 = i64;
  has_dest = true;
  dest = 1;
  operands = operands;
  line = 0;
}

abbrev factorial_function : Function
factorial_function = record {
  name = codes "fact";
  module_name = codes "m";
  is_exported = true;
  params = record { name = codes "n"; type = i64 } ∷ [];
  return_type = i64;
  blocks =
      record {
        label = codes "entry";
        instructions =
            instruction Opcode.brz (Operand.register 0 ∷ Operand.label (codes "base") ∷ [])
            ∷ instruction Opcode.sub (Operand.register 0 ∷ Operand.immediate_int 1 ∷ [])
            ∷ instruction Opcode.call (Operand.symbol (codes "fact") ∷ Operand.register 1 ∷ [])
            ∷ instruction Opcode.mul (Operand.register 0 ∷ Operand.register 1 ∷ [])
            ∷ instruction Opcode.ret (Operand.register 1 ∷ [])
            ∷ [];
      }
      ∷ record {
        label = codes "base";
        instructions = instruction Opcode.ret (Operand.immediate_int 1 ∷ []) ∷ [];
      }
      ∷ [];
}

abbrev pub factorial : Program
factorial = record { functions = factorial_function ∷ []; entry_index = 0 }

abbrev factorial_call : ℕ → Run (Value × Store)
factorial_call fuel =
    call ⦃fl = zero_floats⦄ ⦃ml = zero_math⦄ ⦃host = no_host⦄ ⦃unit = no_vectors⦄ factorial fuel 0
      (value i64 3 ∷ []) initial_store

-- 3! is 6.
factorial_run : factorial_call 8 ≡ ok (value i64 6, initial_store)
unfolding call call_function write_args write_reg grow run_blocks block_at block_index index_from
    run_instructions step count_instruction branches calls far_calls compute basic memory switch
    one_of text_eq leave after_instruction after_block ◌>>=◌ pure lift get_frame put_frame get_store
    put_store change change_with assign read operand number read_operand read_reg jump_to jump_if
    name_at operand_name resolve_block find find_function read_args args_of assign_result
    enter_callee release binary Arith.arith free_allocas size_of_type is_float_type Arith.int_arith
    as_int128 from_int128
factorial_run = refl

initial_store-IsWithin : IsWithin initial_store
initial_store-IsWithin = record { stack = omega arith; heap = omega arith }

-- The sum of the lanes of two vectors in the memory, and its store behind them.
abbrev vector_instruction : Opcode → ℕ → List Operand → Instruction
vector_instruction op dest operands = record {
  opcode = op;
  type = v128;
  type2 = i32;
  has_dest = true;
  dest = dest;
  operands = operands;
  line = 0;
}

abbrev vector_sum : Program
vector_sum = record {
  functions =
      record {
        name = codes "sum";
        module_name = codes "m";
        is_exported = true;
        params = [];
        return_type = i64;
        blocks =
            record {
              label = codes "entry";
              instructions =
                  vector_instruction Opcode.v_load 0 (Operand.immediate_int 0 ∷ [])
                  ∷ vector_instruction Opcode.v_load 1 (Operand.immediate_int 16 ∷ [])
                  ∷ vector_instruction Opcode.v_add 2 (Operand.register 0 ∷ Operand.register 1 ∷ [])
                  ∷ vector_instruction Opcode.v_store 0
                      (Operand.immediate_int 32 ∷ Operand.register 2 ∷ [])
                  ∷ instruction Opcode.ret (Operand.immediate_int 0 ∷ [])
                  ∷ [];
            }
            ∷ [];
      }
      ∷ [];
  entry_index = 0;
}

vectored_call-IsWithin_example : IsSafeWith (
    call ⦃fl = zero_floats⦄ ⦃ml = zero_math⦄ ⦃host = no_host⦄
      ⦃unit = vector_unit ⦃fl = zero_floats⦄ ⦃ml = zero_math⦄⦄ vector_sum 2 0 [] initial_store)
vectored_call-IsWithin_example =
    vectored_call-IsWithin ⦃fl = zero_floats⦄ ⦃ml = zero_math⦄ ⦃host = no_host⦄ vector_sum 2 0 []
      initial_store initial_store-IsWithin

should_branch-compare_result_example :
    (compare_result Opcode.brle Ordering.lt
      ≡ ok (should_branch Opcode.ble (flag_order (flag_byte Ordering.lt))))
    × (compare_result Opcode.setle (flag_order (flag_byte Ordering.lt))
        ≡ ok (should_branch Opcode.ble (flag_order (flag_byte Ordering.lt))))
should_branch-compare_result_example = should_branch-compare_result Condition.less_equal Ordering.lt

-- A frame after a comparison that found less, with an overflow.
abbrev flagged : Frame
flagged = record empty_frame { cmp_flag = 255; overflow_flag = true }

unpack_flags-packed_flags_example : unpack_flags (packed_flags flagged) empty_frame ≡ flagged
unpack_flags-packed_flags_example = unpack_flags-packed_flags flagged empty_frame (omega arith)

link-Enters_example :
    All
      (λ (fn : Function).
        All (λ (b : Block). All (Enters linked.functions) b.instructions) fn.blocks)
      linked.functions
link-Enters_example = link-Enters two_objects linked (omega arith) (
    link_complete two_objects 1 two_objects-distinct two_objects-resolved
      (main_function, refl, refl, refl))
