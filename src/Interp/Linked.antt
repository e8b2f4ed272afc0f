-- ===== src/Interp/Linked.antt =====
-- What src/linker/linker.cpp checks, and the function index that src/vm/interpreter.cpp builds of the
-- linked program.
use uasm.Base.{
  ℕ, suc, ◌+◌, ◌^◌, ◌<◌, ◌≡◌, refl, sym, ◌∙◌, ap, true, false, Bool-cases, inl, inr, List, [], ◌∷◌,
  length, map, get_elem?, some, ok, Text, text_eq, text_eq→eq, All, All-map, arith,
}
use uasm.Ast.{Instruction, Block, Function, Object, Program}
use uasm.Ast.Opcode
use uasm.Linker.Defs.{FunctionIndexMap, find, operand_name, link}
use uasm.Linker.Spec.{all_functions, declares, IsResolved}
use uasm.Linker.Correct.{link_sound}
use uasm.Interp.Control.{index_from, name_at, find_function}

abbrev names : List Function → List Text
names fns = map (λ g. g.name) fns

find-undeclared :
    (fns : List Function) (i : ℕ) (index : FunctionIndexMap) (name : Text)
    → declares fns name ≡ false
    → find (index_from (names fns) i index) name ≡ find index name
unfolding index_from declares find
find-undeclared [] i index name h = refl
find-undeclared (fn ∷ fns) i index name h = elim (Bool-cases (text_eq fn.name name)) [
  | inl same ↦ absurd (cc (rw same at h))
  | inr other ↦
      find-undeclared fns (i + 1) ((fn.name, i) ∷ index) name (rw other at h)
      ∙ rw (other, find) refl
]

-- The function of a name, at its index.
abbrev FoundFrom : List Function → ℕ → FunctionIndexMap → Text → Type 0
FoundFrom fns i index name =
    (k : ℕ) × (callee : Function) × (find index name ≡ some (i + k))
    × (get_elem? fns k ≡ some callee)
    × (callee.name ≡ name)

find-declared :
    (fns : List Function) (i : ℕ) (index : FunctionIndexMap) (name : Text)
    → declares fns name ≡ true
    → FoundFrom fns i (index_from (names fns) i index) name
unfolding index_from declares
find-declared [] i index name h = absurd (cc)
find-declared (fn ∷ fns) i index name h = elim (Bool-cases (declares fns name)) [
  | inl later ↦
      let (k, callee, found, there, same) =
        find-declared fns (i + 1) ((fn.name, i) ∷ index) name later in
      (suc k, callee, found ∙ ap some (omega arith), there, same)
  | inr last ↦ elim (Bool-cases (text_eq fn.name name)) [
    | inl same ↦
        let found : find (index_from (names fns) (i + 1) ((fn.name, i) ∷ index)) name ≡ some i =
          find-undeclared fns (i + 1) ((fn.name, i) ∷ index) name last
          ∙ unfold find in rw same refl in
        (0, fn, found ∙ ap some (omega arith), refl, text_eq→eq fn.name name same)
    | inr other ↦ absurd (cc (rw (other, last) at h))
  ]
]

-- The interpreter's function index resolves the call to a function that has the called name.
abbrev pub Enters : List Function → Instruction → Type 0
Enters fns instr =
    instr.opcode ≡ Opcode.call
    → (idx : ℕ) × (callee : Function) × (find_function (index_from (names fns) 0 []) instr ≡ ok idx)
      × (get_elem? fns idx ≡ some callee)
      × (name_at instr 0 ≡ ok callee.name)

IsResolved-Enters :
    (fns : List Function) (instr : Instruction) → IsResolved fns instr → Enters fns instr
unfolding find_function name_at
IsResolved-Enters fns instr resolved e =
    let (op, first, declared) = resolved e in
    let (k, callee, found, there, same) = find-declared fns 0 [] (operand_name op) declared in
    (
      k,
      callee,
      rw (first, found, find_function, name_at) (ap ok (omega arith)),
      there,
      rw (first, name_at) (ap ok (sym same)),
    )

-- If the objects have fewer than 2 ^ 32 functions and linking them succeeds, then for every `call`
-- instruction of the linked program, the function index that the interpreter builds of the program
-- has the called name, at the index of a function of that name: the interpreter does not fail with
-- an unknown function there.
pub link-Enters :
    (objects : List Object) (p : Program)
    → length (all_functions objects) < 2 ^ 32
    → link objects ≡ ok p
    → All
        (λ (fn : Function). All (λ (b : Block). All (Enters p.functions) b.instructions) fn.blocks)
        p.functions
link-Enters objects p h e =
    let (_, _, resolved, _) = link_sound objects p h e in
    All-map (λ fn. All-map (λ b. All-map (IsResolved-Enters p.functions) b.instructions) fn.blocks)
      p.functions resolved
