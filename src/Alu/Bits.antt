-- ===== src/Alu/Bits.antt =====
-- The bit manipulation of src/vm/interpreter.cpp: `maskToWidth` to `bitIndexOp`.
-- A `UInt128` is a number below 2 ^ 128. Where the two sides of a `|` have no bit in common by a
-- shift just before, it is a sum.
use uasm.Base.{ℕ, zero, suc, ◌+◌, ◌-◌, ◌*◌, ◌/◌, ◌%◌, ◌^◌, ◌||◌, leb, ◌==◌, if◌then◌else◌, ok, err}
use Prim.Native.Nat.{bit_and, bit_or}
use uasm.Runtime.{RuntimeError, Run}
use uasm.Types.{ValueType, size_of_type, is_float_type}
use uasm.Ast.{Opcode}
use uasm.Ast.Opcode
use uasm.Value.Int128
use uasm.Value.Float.{FloatOps}
use uasm.Value.Defs.{Value, as_int128, from_int128}

-- `bitWidth`.
unfoldable pub bit_width : ValueType → ℕ
bit_width t = size_of_type t * 8

unfoldable pub mask_to_width : ℕ → ℕ → ℕ
mask_to_width v bits = if leb 128 bits then v else v % 2 ^ bits

-- `(v >> i) & 1`.
abbrev pub bit : ℕ → ℕ → ℕ
bit v i = v / 2 ^ i % 2

-- The loop of `popcountGeneric` from `i`, with `rounds` bits left.
unfoldable pub popcount_loop : ℕ → ℕ → ℕ → ℕ → ℕ
popcount_loop v c i zero = c
popcount_loop v c i (suc rounds) =
    popcount_loop v (if bit v i == 1 then c + 1 else c) (i + 1) rounds

unfoldable pub popcount_generic : ℕ → ℕ → ℕ
unfolding popcount_loop
popcount_generic v bits = popcount_loop v 0 0 bits

-- The loop of `clzGeneric`, where the bits below `i` are left.
unfoldable pub clz_loop : ℕ → ℕ → ℕ → ℕ
clz_loop v bits zero = bits
clz_loop v bits (suc i) =
    let rest = clz_loop v bits i in if bit v i == 1 then bits - 1 - i else rest

unfoldable pub clz_generic : ℕ → ℕ → ℕ
unfolding clz_loop
clz_generic v bits = clz_loop v bits bits

-- The loop of `ctzGeneric` from `i`, with `rounds` bits left.
unfoldable pub ctz_loop : ℕ → ℕ → ℕ → ℕ → ℕ
ctz_loop v bits i zero = bits
ctz_loop v bits i (suc rounds) =
    let rest = ctz_loop v bits (i + 1) rounds in if bit v i == 1 then i else rest

unfoldable pub ctz_generic : ℕ → ℕ → ℕ
unfolding ctz_loop
ctz_generic v bits = ctz_loop v bits 0 bits

-- The loop of `bitreverseGeneric`.
unfoldable pub bitreverse_loop : ℕ → ℕ → ℕ → ℕ
bitreverse_loop r v zero = r
bitreverse_loop r v (suc rounds) = bitreverse_loop (r * 2 % 2 ^ 128 + v % 2) (v / 2) rounds

unfoldable pub bitreverse_generic : ℕ → ℕ → ℕ
unfolding bitreverse_loop
bitreverse_generic v bits = bitreverse_loop 0 v bits

-- The loop of `bswapGeneric` from `i`, with `rounds` bytes left.
unfoldable pub bswap_loop : ℕ → ℕ → ℕ → ℕ → ℕ
bswap_loop v r i zero = r
bswap_loop v r i (suc rounds) =
    bswap_loop v (r * 2 ^ 8 % 2 ^ 128 + v / 2 ^ (i * 8) % 2 ^ 8) (i + 1) rounds

unfoldable pub bswap_generic : ℕ → ℕ → ℕ
unfolding bswap_loop
bswap_generic v bytes = bswap_loop v 0 0 bytes

unfoldable pub rotl_generic : ℕ → ℕ → ℕ → ℕ
rotl_generic v bits amount =
    if amount == 0 then v else bit_or (v * 2 ^ amount % 2 ^ 128) (v / 2 ^ (bits - amount))

unfoldable pub rotr_generic : ℕ → ℕ → ℕ → ℕ
rotr_generic v bits amount =
    if amount == 0 then v else bit_or (v / 2 ^ amount) (v * 2 ^ (bits - amount) % 2 ^ 128)

module _ ⦃fl : FloatOps⦄ where
  -- `maskToWidth(static_cast<UInt128>(a.asInt128()), bitWidth(type))`, which is `unsignedOf` too.
  unfoldable pub unsigned_of : Value → ValueType → ℕ
  unsigned_of v type = mask_to_width (as_int128 v) (bit_width type)

  -- The `switch` of `bitUnary`.
  unfoldable pub bit_unary_of : Opcode → ValueType → ℕ → ℕ → Run Value
  bit_unary_of op type v bits =
      if op == Opcode.popcount
      then ok (from_int128 type (popcount_generic v bits))
      else if op == Opcode.clz
      then ok (from_int128 type (clz_generic v bits))
      else if op == Opcode.ctz
      then ok (from_int128 type (ctz_generic v bits))
      else if op == Opcode.parity
      then ok (from_int128 type (popcount_generic v bits % 2))
      else if op == Opcode.ffs
      then ok (from_int128 type (if v == 0 then 0 else ctz_generic v bits + 1))
      else if op == Opcode.bitreverse
      then ok (from_int128 type (bitreverse_generic v bits))
      else if op == Opcode.bswap
      then ok (from_int128 type (bswap_generic v (size_of_type type)))
      else err RuntimeError.not_bit_unary

  unfoldable pub bit_unary : Opcode → ValueType → Value → Run Value
  bit_unary op type a =
      if is_float_type type
      then err RuntimeError.bits_on_float
      else bit_unary_of op type (unsigned_of a type) (bit_width type)

  -- `n` is the amount; `static_cast<size_t>` keeps its low 64 bits.
  unfoldable pub rotate_by : Opcode → ValueType → ℕ → ℕ → Run Value
  rotate_by op type v n =
      if Int128.is_neg n || leb (bit_width type) (n % 2 ^ 64)
      then err RuntimeError.rotate_out_of_range
      else if op == Opcode.rotl
      then ok (from_int128 type (rotl_generic v (bit_width type) (n % 2 ^ 64)))
      else ok (from_int128 type (rotr_generic v (bit_width type) (n % 2 ^ 64)))

  unfoldable pub rotate_value : Opcode → ValueType → Value → Value → Run Value
  rotate_value op type a amount =
      if is_float_type type
      then err RuntimeError.bits_on_float
      else rotate_by op type (unsigned_of a type) (as_int128 amount)

  -- The `switch` of `bitIndexOp`.
  unfoldable pub bit_index_of : Opcode → ValueType → ℕ → ℕ → Run Value
  bit_index_of op type v idx =
      if Int128.is_neg idx || leb (bit_width type) (idx % 2 ^ 64)
      then err RuntimeError.bit_index_out_of_range
      else (let mask = 2 ^ (idx % 2 ^ 64) % 2 ^ 128 in
          if op == Opcode.bitset
          then ok (from_int128 type (bit_or v mask))
          else if op == Opcode.bitclear
          then ok (from_int128 type (bit_and v (Int128.complement mask)))
          else if op == Opcode.bittest
          then ok (from_int128 type (if bit_and v mask == 0 then 0 else 1))
          else err RuntimeError.not_bit_index)

  unfoldable pub bit_index_op : Opcode → ValueType → Value → Value → Run Value
  bit_index_op op type a index =
      if is_float_type type
      then err RuntimeError.bits_on_float
      else bit_index_of op type (unsigned_of a type) (as_int128 index)
