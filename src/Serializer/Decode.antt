-- ===== src/Serializer/Decode.antt =====
-- The `read…` functions and `readUo` of src/format/serializer.cpp.
use uasm.Base.{
  ℕ, zero, suc, ◌+◌, ◌*◌, ◌^◌, not, ◌&&◌, Option, none, some, List, [], ◌∷◌, length, take, drop,
  leb, ltb, ◌==◌, if◌then◌else◌, text_eq, Result, ok, err,
}
use uasm.Base.{◌>>=◌ as ◌>>=ᵣ◌}
use uasm.Types.{ValueType, type_of_tag}
use uasm.Ast.{Operand, Instruction, Block, Param, Function, Program, Opcode}
use uasm.Serializer.Writer.{magic, lib_magic, version_sentinel, uo_version}
use uasm.Serializer.Reader
use uasm.Serializer.Reader.{SerializeError, Read, ◌>>=◌, pure}

-- A loop that reads `count` items into a vector.
unfoldable pub read_each : {A : Type 0} → ℕ → Read A → Read (List A)
read_each zero r = pure []
read_each (suc count) r = do x ← r; xs ← read_each count r; pure (x ∷ xs)

-- The `switch` of `readOperand`.
unfoldable pub read_operand_of : ℕ → Read Operand
read_operand_of kind =
    if kind == 0
    then (do r ← Reader.u32; pure (Operand.register r))
    else if kind == 1
    then (do v ← Reader.i64; pure (Operand.immediate_int v))
    else if kind == 2
    then (do v ← Reader.f64; pure (Operand.immediate_float v))
    else if kind == 3
    then (do name ← Reader.str; pure (Operand.symbol name))
    else λ rest. err SerializeError.corrupt_operand_kind

unfoldable pub read_operand : Read Operand
read_operand = do kind ← Reader.u8; read_operand_of kind

-- The opcode and the two types, by the version of the file.
unfoldable pub read_header : ℕ → Read (Opcode × ValueType × ValueType)
read_header version =
    if leb 1 version
    then (do
      opcode ← Reader.u16
      type ← Reader.u8
      type2 ← Reader.u8
      pure (opcode, type_of_tag type, type_of_tag type2))
    else (do
      opcode ← Reader.u8
      type ← Reader.u8
      pure (opcode, type_of_tag type, type_of_tag type))

unfoldable pub read_instruction : ℕ → Read Instruction
read_instruction version = do
  (op, t, t2) ← read_header version
  has_dest ← Reader.u8
  dest ← Reader.u32
  count ← Reader.u8
  operands ← read_each count read_operand
  pure (record {
    opcode = op;
    type = t;
    type2 = t2;
    has_dest = not (has_dest == 0);
    dest = dest;
    operands = operands;
    line = 0;
  })

unfoldable pub read_param : Read Param
read_param = do tag ← Reader.u8; pure (record { name = []; type = type_of_tag tag })

unfoldable pub read_block : ℕ → Read Block
read_block version = do
  label ← Reader.str
  count ← Reader.u32
  instructions ← read_each count (read_instruction version)
  pure (record { label = label; instructions = instructions })

unfoldable pub read_function : ℕ → Read Function
read_function version = do
  name ← Reader.str
  module_name ← Reader.str
  exported ← Reader.u8
  param_count ← Reader.u8
  params ← read_each param_count read_param
  return_type ← Reader.u8
  block_count ← Reader.u32
  blocks ← read_each block_count (read_block version)
  pure (record {
    name = name;
    module_name = module_name;
    is_exported = not (exported == 0);
    params = params;
    return_type = type_of_tag return_type;
    blocks = blocks;
  })

unfoldable pub read_program : ℕ → Read Program
read_program version = do
  count ← Reader.u32
  functions ← read_each count (read_function version)
  entry ← Reader.u32
  pure (record { functions = functions; entry_index = entry })

-- The version of the file and the bytes behind it: 0 where no sentinel stands.
unfoldable pub read_version : List ℕ → Result SerializeError (ℕ × List ℕ)
read_version (a ∷ b ∷ c ∷ d ∷ e ∷ f ∷ g ∷ h ∷ rest) =
    let first = a + b * 2 ^ 8 + c * 2 ^ 16 + d * 2 ^ 24 in
    let v = e + f * 2 ^ 8 + g * 2 ^ 16 + h * 2 ^ 24 in
    if first == version_sentinel
    then (if ltb uo_version v then err (SerializeError.newer_version v) else ok (v, rest))
    else ok (0, a ∷ b ∷ c ∷ d ∷ e ∷ f ∷ g ∷ h ∷ rest)
read_version body = ok (0, body)

-- What follows the magic number.
unfoldable pub read_body : List ℕ → Result SerializeError Program
read_body body =
    read_version body >>=ᵣ λ (version, rest). read_program version rest >>=ᵣ λ r. ok r.0

unfoldable pub read_bytes : List ℕ → Result SerializeError Program
read_bytes bytes =
    if leb 6 (length bytes) && text_eq (take 6 bytes) magic
    then read_body (drop 6 bytes)
    else if leb 6 (length bytes) && text_eq (take 6 bytes) lib_magic
    then err SerializeError.library_archive
    else err SerializeError.bad_magic

-- `none` is a file that cannot be opened.
unfoldable pub read_uo : Option (List ℕ) → Result SerializeError Program
read_uo none = err SerializeError.cannot_open
read_uo (some bytes) = read_bytes bytes
