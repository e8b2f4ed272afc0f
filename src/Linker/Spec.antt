-- ===== src/Linker/Spec.antt =====
-- What a linked program is, said without the linker's tables.
use uasm.Base.{
  ℕ, ◌≡◌, Bool, true, false, List, [], ◌∷◌, ◌++◌, get_elem?, if◌then◌else◌, Text, text_eq, some,
  All,
}
use uasm.Ast.{Instruction, Block, Function, Object, Operand}
use uasm.Ast.Opcode
use uasm.Linker.Defs.{operand_name, main_name}

-- The functions of all objects, in order.
abbrev pub all_functions : List Object → List Function
all_functions [] = []
all_functions (obj ∷ objs) = obj.functions ++ all_functions objs

-- Some function of the list has the name.
unfoldable pub declares : List Function → Text → Bool
declares [] name = false
declares (fn ∷ fns) name = if text_eq fn.name name then true else declares fns name

abbrev pub DistinctNames : List Function → Type 0
DistinctNames [] = Unit
DistinctNames (fn ∷ fns) = (declares fns fn.name ≡ false) × DistinctNames fns

-- A call names a function of the list.
abbrev pub IsResolved : List Function → Instruction → Type 0
IsResolved fns instr =
    instr.opcode ≡ Opcode.call
    → (op : Operand) × (get_elem? instr.operands 0 ≡ some op)
      × (declares fns (operand_name op) ≡ true)

abbrev pub CallsResolved : List Function → List Function → Type 0
CallsResolved fns =
    All (λ (fn : Function). All (λ (b : Block). All (IsResolved fns) b.instructions) fn.blocks)

-- The function at the index is the exported `main`.
abbrev pub IsEntry : List Function → ℕ → Type 0
IsEntry fns i =
    (fn : Function) × (get_elem? fns i ≡ some fn) × (fn.name ≡ main_name) × (fn.is_exported ≡ true)
