-- ===== src/Runtime.antt =====
-- The exceptions of src/vm/interpreter.cpp.
use uasm.Base.{Result}

-- The messages of `RuntimeError`, without the numbers and names that they print. `undefined` is no
-- message: the source's behaviour is undefined there, or its loop does not end. Nor is
-- `out_of_fuel`, where a run has not ended within the fuel that it was given. The messages on too few
-- operands of a vector instruction are one error.
pub data RuntimeError : Type 0 where
  load_out_of_bounds store_out_of_bounds memory_out_of_bounds : RuntimeError
  stack_overflow stack_underflow out_of_memory : RuntimeError
  free_untracked untracked_pointer unterminated_string undefined : RuntimeError
  division_by_zero modulo_by_zero : RuntimeError
  not_arithmetic not_bitwise bitwise_on_float shift_on_float shift_out_of_range : RuntimeError
  bits_on_float not_bit_unary rotate_out_of_range bit_index_out_of_range not_bit_index :
      RuntimeError
  requires_integer negative_exponent isqrt_negative ilog2_zero ilog10_zero : RuntimeError
  not_integer_unary not_integer_binary mulhi_128 umulhi_128 align_to_zero : RuntimeError
  mulsat_128 umulsat_128 not_saturating checked_mul_128 not_checked : RuntimeError
  lowmask_negative himask_out_of_range not_manip_unary : RuntimeError
  sextbit_out_of_range zextbit_out_of_range not_manip_binary : RuntimeError
  not_comparison requires_float_types fptosi_source fptoui_source : RuntimeError
  sitofp_destination uitofp_destination not_conversion : RuntimeError
  symbol_as_value unknown_block : RuntimeError
  requires_float not_float_unary not_float_binary not_float_predicate : RuntimeError
  invalid_opcode wrong_argument_count no_blocks unknown_function function_out_of_range :
      RuntimeError
  fell_off_block trap unreachable abort assertion_failed : RuntimeError
  overflowed mulwide_128 stack_pointer_out_of_range : RuntimeError
  align_not_positive bitfield_out_of_range utf8_lead utf8_continuation : RuntimeError
  requires_vector invalid_lane out_of_fuel : RuntimeError
  vector_operand_missing not_vector_comparison not_vector_binary not_vector_unary : RuntimeError
  vector_division_by_zero vector_shift_out_of_range vector_mulhi_128 vector_sqrt_negative :
      RuntimeError
  mask_shift_out_of_range lane_index_out_of_range lane_128_out_of_range : RuntimeError
  vector_not_implemented : RuntimeError

abbrev pub Run : Type 0 → Type 0
Run A = Result RuntimeError A
