-- ===== src/Linker/Defs.antt =====
-- src/linker/linker.cpp: merging objects into a program.
-- `functionIndex` is an association list, last insertion first, and `exported` a list of names.
-- A `call` with no operand, which the source reads past the vector's end, is `out_of_bounds`.
use uasm.Base.{
  ℕ, ◌%◌, ◌^◌, Bool, true, false, Option, none, some, List, [], ◌∷◌, ◌++◌, length, get_elem?, ◌==◌,
  if◌then◌else◌, Text, codes, text_eq, Result, ok, err, ◌>>=◌, ◌>>◌,
}
use uasm.Ast.{Operand, Instruction, Block, Function, Object, Program}
use uasm.Ast.Opcode

-- The messages of `LinkError`, and the out-of-bounds reads that the source leaves undefined.
pub data LinkError : Type 0 where
  duplicate_function duplicate_export : Text → LinkError
  unresolved_call : Text → Text → LinkError
  no_main main_not_exported out_of_bounds : LinkError

abbrev pub FunctionIndexMap : Type 0
FunctionIndexMap = List (Text × ℕ)

-- `functionIndex.find(name)`.
unfoldable pub find : FunctionIndexMap → Text → Option ℕ
find [] name = none
find ((n, i) ∷ rest) name = if text_eq n name then some i else find rest name

-- `functionIndex.count(name) != 0`.
unfoldable pub contains : FunctionIndexMap → Text → Bool
contains [] name = false
contains ((n, i) ∷ rest) name = if text_eq n name then true else contains rest name

-- `exported.count(name) != 0`.
unfoldable pub contains_name : List Text → Text → Bool
contains_name [] name = false
contains_name (n ∷ rest) name = if text_eq n name then true else contains_name rest name

-- `Operand::name`, which is empty for an operand that is no name.
unfoldable pub operand_name : Operand → Text
operand_name (Operand.symbol name) = name
operand_name (Operand.label name) = name
operand_name _ = []

-- The variables of `link` in its first loop.
pub record Merge : Type 0 where
  pub functions : List Function
  pub function_index : FunctionIndexMap
  pub exported : List Text

unfoldable pub add_function : Merge → Function → Result LinkError Merge
add_function m fn =
    if contains m.function_index fn.name
    then err (LinkError.duplicate_function fn.name)
    else (let index = (fn.name, length m.functions) ∷ m.function_index in
        let functions = m.functions ++ fn ∷ [] in
        if fn.is_exported
        then (if contains_name m.exported fn.name
            then err (LinkError.duplicate_export fn.name)
            else ok (record {
              functions = functions;
              function_index = index;
              exported = fn.name ∷ m.exported;
            }))
        else ok (record { functions = functions; function_index = index; exported = m.exported }))

unfoldable pub add_functions : Merge → List Function → Result LinkError Merge
add_functions m [] = ok m
add_functions m (fn ∷ fns) = do m' ← add_function m fn; add_functions m' fns

unfoldable pub add_objects : Merge → List Object → Result LinkError Merge
add_objects m [] = ok m
add_objects m (obj ∷ objs) = do m' ← add_functions m obj.functions; add_objects m' objs

-- The body of the second loop, for one instruction.
unfoldable pub check_instruction :
    FunctionIndexMap → Text → Instruction → Result LinkError (Unit {0})
check_instruction index caller instr =
    if instr.opcode == Opcode.call
    then elim (get_elem? instr.operands 0) [
      | none ↦ err LinkError.out_of_bounds
      | some op ↦
          if contains index (operand_name op)
          then ok tt
          else err (LinkError.unresolved_call (operand_name op) caller)
    ]
    else ok tt

-- A loop that stops at the first exception.
unfoldable pub for_each :
    {A : Type 0} → (A → Result LinkError (Unit {0})) → List A → Result LinkError (Unit {0})
for_each check [] = ok tt
for_each check (x ∷ xs) = do check x; for_each check xs

unfoldable pub check_block : FunctionIndexMap → Text → Block → Result LinkError (Unit {0})
check_block index caller block = for_each (check_instruction index caller) block.instructions

unfoldable pub check_function : FunctionIndexMap → Function → Result LinkError (Unit {0})
check_function index fn = for_each (check_block index fn.name) fn.blocks

abbrev pub main_name : Text
main_name = codes "main"

-- The choice of the entry. The index is one of `functions`.
unfoldable pub find_entry : Merge → Result LinkError Program
find_entry m = elim (find m.function_index main_name) [
  | none ↦ err LinkError.no_main
  | some i ↦ elim (get_elem? m.functions i) [
    | none ↦ err LinkError.out_of_bounds
    | some fn ↦
        if fn.is_exported
        then ok (record { functions = m.functions; entry_index = i % 2 ^ 32 })
        else err LinkError.main_not_exported
  ]
]

abbrev pub empty_merge : Merge
empty_merge = record { functions = []; function_index = []; exported = [] }

unfoldable pub link : List Object → Result LinkError Program
link objects = do
  m ← add_objects empty_merge objects
  for_each (check_function m.function_index) m.functions
  find_entry m
