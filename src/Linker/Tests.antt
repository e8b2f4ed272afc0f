-- ===== src/Linker/Tests.antt =====
-- Two objects for src/linker/linker.cpp, one of which calls into the other.
use uasm.Base.{◌≡◌, refl, true, false, List, [], ◌∷◌, codes, text_eq, ok, arith}
use uasm.Types.{i64}
use uasm.Ast.{Operand, Instruction, Function, Object, Program}
use uasm.Ast.Opcode
use uasm.Linker.Defs.{operand_name, link}
use uasm.Linker.Spec.{declares, all_functions, DistinctNames, CallsResolved, IsEntry}
use uasm.Linker.Correct.{link_sound, link_complete}

abbrev pub call_helper : Instruction
call_helper = record {
  opcode = Opcode.call;
  type = i64;
  type2 = i64;
  has_dest = false;
  dest = 0;
  operands = Operand.symbol (codes "helper") ∷ [];
  line = 2;
}

abbrev pub main_function : Function
main_function = record {
  name = codes "main";
  module_name = codes "a";
  is_exported = true;
  params = [];
  return_type = i64;
  blocks = record { label = codes "entry"; instructions = call_helper ∷ [] } ∷ [];
}

abbrev pub helper_function : Function
helper_function = record {
  name = codes "helper";
  module_name = codes "b";
  is_exported = true;
  params = [];
  return_type = i64;
  blocks = [];
}

abbrev pub two_objects : List Object
two_objects =
    record { name = codes "b"; functions = helper_function ∷ [] }
    ∷ record { name = codes "a"; functions = main_function ∷ [] }
    ∷ []

abbrev pub linked : Program
linked = record { functions = helper_function ∷ main_function ∷ []; entry_index = 1 }

pub two_objects-distinct : DistinctNames (all_functions two_objects)
unfolding declares text_eq
two_objects-distinct = (refl, (refl, tt))

pub two_objects-resolved : CallsResolved (all_functions two_objects) (all_functions two_objects)
unfolding declares operand_name text_eq
two_objects-resolved = (tt, (((λ e. (Operand.symbol (codes "helper"), refl, refl), tt), tt), tt))

link_complete_example : link two_objects ≡ ok linked
link_complete_example =
    link_complete two_objects 1 two_objects-distinct two_objects-resolved
      (main_function, refl, refl, refl)

link_sound_example :
    (linked.functions ≡ all_functions two_objects)
    × DistinctNames linked.functions
    × CallsResolved linked.functions linked.functions
    × IsEntry linked.functions linked.entry_index
link_sound_example = link_sound two_objects linked (omega arith) link_complete_example
