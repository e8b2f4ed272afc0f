-- ===== src/Serializer/Tests.antt =====
-- A sample program for src/core/serializer.cpp, and the results on it.
use uasm.Base.{◌≡◌, refl, true, [], ◌∷◌, take, drop, codes, ok, err, some, arith}
use uasm.Types.{i32, i64}
use uasm.Ast.{Operand, Instruction, Function, Program}
use uasm.Ast.Opcode
use uasm.Serializer.Writer
use uasm.Serializer.Encode.{write_each, write_function, write_program, write_uo}
use uasm.Serializer.Decode.{read_uo}
use uasm.Serializer.Reader.{SerializeError}
use uasm.Serializer.RoundTrip.{
  FitsInstruction, FitsFunction, FitsProgram, strip_program, read_uo-write_uo,
}
use uasm.Serializer.Prefix.{read_uo_truncated}

abbrev add_one : Instruction
add_one = record {
  opcode = Opcode.add;
  type = i32;
  type2 = i32;
  has_dest = true;
  dest = 1;
  operands = Operand.register 0 ∷ Operand.immediate_int 1 ∷ [];
  line = 3;
}

abbrev sample_function : Function
sample_function = record {
  name = codes "main";
  module_name = codes "m";
  is_exported = true;
  params = record { name = codes "x"; type = i32 } ∷ [];
  return_type = i64;
  blocks = record { label = codes "entry"; instructions = add_one ∷ [] } ∷ [];
}

abbrev sample : Program
sample = record { functions = sample_function ∷ []; entry_index = 0 }

add_one-FitsInstruction : FitsInstruction add_one
add_one-FitsInstruction = record {
  opcode = omega arith;
  type = tt;
  type2 = tt;
  dest = omega arith;
  operand_count = omega arith;
  operands = (omega arith, (omega arith, tt));
}

sample_function-FitsFunction : FitsFunction sample_function
sample_function-FitsFunction = record {
  name = omega arith;
  module_name = omega arith;
  param_count = omega arith;
  params = (tt, tt);
  return_type = tt;
  block_count = omega arith;
  blocks = (
    record {
      label = omega arith;
      count = omega arith;
      instructions = (add_one-FitsInstruction, tt);
    },
    tt,
  );
}

sample-FitsProgram : FitsProgram sample
sample-FitsProgram = record {
  count = omega arith;
  functions = (sample_function-FitsFunction, tt);
  entry = omega arith;
}

read_uo-write_uo_example : read_uo (some (write_uo sample)) ≡ ok (strip_program sample)
read_uo-write_uo_example = read_uo-write_uo sample sample-FitsProgram

read_uo_truncated_example :
    read_uo (some (take 30 (write_uo sample))) ≡ err SerializeError.unexpected_end
unfolding write_uo Writer.u32 Writer.str write_program write_each write_function
read_uo_truncated_example =
    read_uo_truncated sample 109 (take 30 (write_uo sample)) (drop 31 (write_uo sample))
      sample-FitsProgram (omega arith) refl
