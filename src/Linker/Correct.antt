-- ===== src/Linker/Correct.antt =====
-- `link` against the specification of a linked program.
use uasm.Base.{
  ℕ, ◌<◌, ◌≡◌, refl, sym, ap, ◌∙◌, true, some, List, [], ◌∷◌, length, get_elem?, ◌==◌, ==_iff, Text,
  Result, ok, ◌>>◌, arith, All, ◌^◌, ◌%◌, Bool-cases, Option-cases, inl, inr, >>=-eq-ok, subst,
}
use native.Mathlib.Nat.{mod-eq_of_lt}
use uasm.Ast.{Instruction, Function, Object, Operand, Program}
use uasm.Ast.Opcode
use uasm.Linker.Defs.{
  find, contains, contains_name, Merge, LinkError, add_objects, check_instruction, for_each,
  check_block, check_function, main_name, find_entry, empty_merge, link, operand_name,
}
use uasm.Linker.Spec.{all_functions, declares, DistinctNames, IsResolved, CallsResolved, IsEntry}
use uasm.Linker.Merging.{
  IsMerged, get_elem?-lt, found_at, add_functions-ok, add_functions-distinct,
  add_objects-eq-add_functions,
}

for_each-ok :
    {A : Type 0} {check : A → Result LinkError (Unit {0})} {P : A → Type 0}
    → ((a : A) → check a ≡ ok tt → P a)
    → (xs : List A) → for_each check xs ≡ ok tt
    → All P xs
unfolding for_each
for_each-ok each [] e = tt
for_each-ok {check = check} each (x ∷ xs) e =
    let (_, first, rest) = >>=-eq-ok (check x) _ e in (each x first, for_each-ok each xs rest)

ok-for_each :
    {A : Type 0} {check : A → Result LinkError (Unit {0})} {P : A → Type 0}
    → ((a : A) → P a → check a ≡ ok tt)
    → (xs : List A) → All P xs
    → for_each check xs ≡ ok tt
unfolding for_each
ok-for_each each [] h = refl
ok-for_each each (x ∷ xs) (h, hs) = rw (each x h) (ok-for_each each xs hs)

module _ (m : Merge) (v : IsMerged m) where
  IsResolved-of_check :
      (caller : Text) (i : Instruction)
      → check_instruction m.function_index caller i ≡ ok tt
      → IsResolved m.functions i
  unfolding check_instruction
  IsResolved-of_check caller i e call = elim (Option-cases (get_elem? i.operands 0)) [
    | inl missing ↦ absurd (cc (rw (call, missing) at e))
    | inr (op, at_0) ↦ (op, at_0, sym (v.indexed (operand_name op)) ∙ known op at_0)
  ]
    where
      known :
          (op : Operand)
          → get_elem? i.operands 0 ≡ some op
          → contains m.function_index (operand_name op) ≡ true
      known op at_0 = elim (Bool-cases (contains m.function_index (operand_name op))) [
        | inl c ↦ c
        | inr c ↦ absurd (cc (rw (call, at_0, c) at e))
      ]

  check_of_resolved :
      (caller : Text) (i : Instruction)
      → IsResolved m.functions i
      → check_instruction m.function_index caller i ≡ ok tt
  unfolding check_instruction
  check_of_resolved caller i h = elim (Bool-cases (i.opcode == Opcode.call)) [
    | inl call ↦
        let (op, at_0, named) = h ((==_iff _ _).0 call) in
        rw (call, at_0, v.indexed (operand_name op), named)
    | inr other ↦ rw other
  ]

  resolved_of_checks :
      (fns : List Function)
      → for_each (check_function m.function_index) fns ≡ ok tt
      → CallsResolved m.functions fns
  unfolding check_function check_block
  resolved_of_checks =
      for_each-ok (λ fn.
        for_each-ok (λ b. for_each-ok (IsResolved-of_check fn.name) b.instructions) fn.blocks)

  checks_of_resolved :
      (fns : List Function)
      → CallsResolved m.functions fns
      → for_each (check_function m.function_index) fns ≡ ok tt
  unfolding check_function check_block
  checks_of_resolved =
      ok-for_each
        (λ fn. ok-for_each (λ b. ok-for_each (check_of_resolved fn.name) b.instructions) fn.blocks)

empty-IsMerged : IsMerged empty_merge
unfolding contains find contains_name declares
empty-IsMerged = record {
  indexed = λ name. refl;
  found = λ name i e. absurd (cc);
  exported = λ name e. absurd (cc);
  distinct = tt;
}

-- The exported `main` is chosen.
find_entry_of :
    (m : Merge) (i : ℕ)
    → IsMerged m
    → IsEntry m.functions i
    → find_entry m ≡ ok (record { functions = m.functions; entry_index = i % 2 ^ 32 })
unfolding find_entry
find_entry_of m i v (fn, at_i, named, exp) =
    let found : find m.function_index main_name ≡ some i = rw named at (found_at m i fn v at_i) in
    rw (found, find_entry) (rw at_i (rw exp))

-- The entry that is chosen is the exported `main`.
find_entry-ok :
    (m : Merge) (p : Program)
    → IsMerged m
    → length m.functions < 2 ^ 32
    → find_entry m ≡ ok p
    → (p.functions ≡ m.functions) × IsEntry m.functions p.entry_index
unfolding find_entry
find_entry-ok m p v h e = elim (Option-cases (find m.function_index main_name)) [
  | inl missing ↦ absurd (cc (rw (missing, find_entry) at e))
  | inr (i, at_i) ↦
      let (fn, e', named) = v.found main_name i at_i in
      elim (Bool-cases fn.is_exported) [
        | inl exp ↦
            let same : p ≡ record { functions = m.functions; entry_index = i % 2 ^ 32 } =
              cc (e, find_entry_of m i v (fn, e', named, exp)) in
            let small : i < 2 ^ 32 = omega (arith, get_elem?-lt m.functions i e', h) in
            rw (same, mod-eq_of_lt small) (refl, (fn, e', named, exp))
        | inr priv ↦ absurd (cc (rw (at_i, e', priv, find_entry) at e))
      ]
]

-- If the objects have fewer than 2 ^ 32 functions and linking them succeeds, the program has the
-- functions of all objects in order, their names are distinct, every call names one of them, and
-- the entry index is that of an exported `main`.
pub link_sound :
    (objects : List Object) (p : Program)
    → length (all_functions objects) < 2 ^ 32
    → link objects ≡ ok p
    → (p.functions ≡ all_functions objects)
      × DistinctNames p.functions
      × CallsResolved p.functions p.functions
      × IsEntry p.functions p.entry_index
unfolding link
link_sound objects p h e =
    let (m, merged, e') = >>=-eq-ok (add_objects empty_merge objects) _ e in
    let (_, checked, entry) =
      >>=-eq-ok (for_each (check_function m.function_index) m.functions) _ e' in
    let (v, same) =
      add_functions-ok empty_merge m (all_functions objects) empty-IsMerged
        (sym (add_objects-eq-add_functions empty_merge objects) ∙ merged) in
    let (fs, en) = find_entry-ok m p v (rw same h) entry in
    rw (fs, ← same) (refl, v.distinct, resolved_of_checks m v m.functions checked, en)

-- Objects whose functions have distinct names, whose calls name functions among them, and whose
-- function i is an exported `main`, link; the program has all their functions in order and the
-- entry index i as a `uint32_t`.
pub link_complete :
    (objects : List Object) (i : ℕ)
    → DistinctNames (all_functions objects)
    → CallsResolved (all_functions objects) (all_functions objects)
    → IsEntry (all_functions objects) i
    → link objects ≡ ok (record { functions = all_functions objects; entry_index = i % 2 ^ 32 })
unfolding link
link_complete objects i d r (fn, at_i, named, exp) =
    let (m, e) = add_functions-distinct empty_merge (all_functions objects) empty-IsMerged d in
    let (v, same) = add_functions-ok empty_merge m (all_functions objects) empty-IsMerged e in
    rw (add_objects-eq-add_functions empty_merge objects, e) (all_merged m v same)
  where
    all_merged :
        (m : Merge)
        → IsMerged m
        → m.functions ≡ all_functions objects
        → (for_each (check_function m.function_index) m.functions >> find_entry m)
          ≡ ok (record { functions = all_functions objects; entry_index = i % 2 ^ 32 })
    all_merged m v same =
        rw
          (
            checks_of_resolved m v m.functions (subst (λ fs. CallsResolved fs fs) (sym same) r),
            find_entry_of m i v (subst (λ fs. IsEntry fs i) (sym same) (fn, at_i, named, exp)),
          )
          (ap (λ fs. ok (record { functions = fs; entry_index = i % 2 ^ 32 })) same)
