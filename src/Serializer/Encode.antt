-- ===== src/Serializer/Encode.antt =====
-- The `write…` functions of src/format/serializer.cpp.
use uasm.Base.{ℕ, ◌%◌, ◌^◌, List, [], ◌∷◌, ◌++◌, length, if◌then◌else◌}
use uasm.Types.{type_tag}
use uasm.Ast.{Operand, Instruction, Block, Param, Function, Program}
use uasm.Serializer.Writer
use uasm.Serializer.Writer.{magic, version_sentinel, uo_version}

-- The bytes that a `for` loop over a vector appends.
unfoldable pub write_each : {A : Type 0} → (A → List ℕ) → List A → List ℕ
write_each w [] = []
write_each w (x ∷ xs) = w x ++ write_each w xs

unfoldable pub write_operand : Operand → List ℕ
write_operand (Operand.register r) = Writer.u8 0 ++ Writer.u32 r
write_operand (Operand.immediate_int v) = Writer.u8 1 ++ Writer.i64 v
write_operand (Operand.immediate_float v) = Writer.u8 2 ++ Writer.f64 v
write_operand (Operand.symbol name) = Writer.u8 3 ++ Writer.str name
write_operand (Operand.label name) = Writer.u8 3 ++ Writer.str name

unfoldable pub write_instruction : Instruction → List ℕ
write_instruction instr =
    (Writer.u16 (instr.opcode % 2 ^ 16)
      ++ (Writer.u8 (type_tag instr.type) ++ Writer.u8 (type_tag instr.type2)))
    ++ (Writer.u8 (if instr.has_dest then 1 else 0)
        ++ (Writer.u32 instr.dest
            ++ (Writer.u8 (length instr.operands) ++ write_each write_operand instr.operands)))

unfoldable pub write_param : Param → List ℕ
write_param p = Writer.u8 (type_tag p.type)

unfoldable pub write_block : Block → List ℕ
write_block block =
    Writer.str block.label
    ++ (Writer.u32 (length block.instructions % 2 ^ 32)
        ++ write_each write_instruction block.instructions)

unfoldable pub write_function : Function → List ℕ
write_function fn =
    Writer.str fn.name
    ++ (Writer.str fn.module_name
        ++ (Writer.u8 (if fn.is_exported then 1 else 0)
            ++ (Writer.u8 (length fn.params)
                ++ (write_each write_param fn.params
                    ++ (Writer.u8 (type_tag fn.return_type)
                        ++ (Writer.u32 (length fn.blocks % 2 ^ 32)
                            ++ write_each write_block fn.blocks))))))

unfoldable pub write_program : Program → List ℕ
write_program program =
    Writer.u32 (length program.functions % 2 ^ 32)
    ++ (write_each write_function program.functions ++ Writer.u32 program.entry_index)

-- The contents of the file, where it can be opened and written.
unfoldable pub write_uo : Program → List ℕ
write_uo program =
    magic ++ (Writer.u32 version_sentinel ++ (Writer.u32 uo_version ++ write_program program))
