-- ===== src/Linker/Merging.antt =====
-- The first loop of `link`: what its tables hold.
use uasm.Base.{
  ℕ, zero, suc, ◌<◌, ◌≡◌, refl, sym, ap, ◌∙◌, true, false, some, List, [], ◌∷◌, ◌++◌, length,
  get_elem?, if◌then◌else◌, Text, text_eq, text_eq_symm, text_eq→eq, text_eq_self, ok, err, ◌>>=◌,
  arith, Bool-cases, Result-cases, inl, inr, append_assoc, append-nil,
}
use uasm.Ast.{Function, Object}
use uasm.Linker.Defs.{
  FunctionIndexMap, find, contains, contains_name, Merge, LinkError, add_function, add_functions,
  add_objects,
}
use uasm.Linker.Spec.{all_functions, declares, DistinctNames}

-- The tables speak of `functions`.
pub record IsMerged (m : Merge) : Type 0 where
  pub indexed : (name : Text) → contains m.function_index name ≡ declares m.functions name
  pub found :
      (name : Text) (i : ℕ)
      → find m.function_index name ≡ some i
      → (fn : Function) × (get_elem? m.functions i ≡ some fn) × (fn.name ≡ name)
  pub exported :
      (name : Text) → contains_name m.exported name ≡ true → declares m.functions name ≡ true
  pub distinct : DistinctNames m.functions

declares-append :
    (xs ys : List Function) (name : Text)
    → declares (xs ++ ys) name ≡ (if declares xs name then true else declares ys name)
unfolding declares
declares-append [] ys name = refl
declares-append (x ∷ xs) ys name = ground (arith, declares-append xs ys name)

get_elem?-length {ℓ} :
    {A : Type ℓ} (xs : List A) (x : A) → get_elem? (xs ++ x ∷ []) (length xs) ≡ some x
get_elem?-length [] x = refl
get_elem?-length (y ∷ xs) x = get_elem?-length xs x

get_elem?-append {ℓ} :
    {A : Type ℓ} (xs : List A) (ys : List A) (i : ℕ) {x : A}
    → get_elem? xs i ≡ some x
    → get_elem? (xs ++ ys) i ≡ some x
get_elem?-append [] ys i e = cc
get_elem?-append (y ∷ xs) ys zero e = e
get_elem?-append (y ∷ xs) ys (suc i) e = get_elem?-append xs ys i e

-- What the loop does with a new name.
abbrev push : Merge → Function → Merge
push m fn = record {
  functions = m.functions ++ fn ∷ [];
  function_index = (fn.name, length m.functions) ∷ m.function_index;
  exported = if fn.is_exported then fn.name ∷ m.exported else m.exported;
}

DistinctNames-push :
    (xs : List Function) (fn : Function)
    → DistinctNames xs
    → declares xs fn.name ≡ false
    → DistinctNames (xs ++ fn ∷ [])
unfolding declares
DistinctNames-push [] fn d h = (refl, tt)
DistinctNames-push (x ∷ xs) fn (dx, d) h = (
  ground (arith, declares-append xs (fn ∷ []) x.name, text_eq_symm x.name fn.name),
  DistinctNames-push xs fn d (ground arith),
)

DistinctNames-middle :
    (xs ys : List Function) (fn : Function)
    → DistinctNames (xs ++ fn ∷ ys)
    → declares xs fn.name ≡ false
unfolding declares
DistinctNames-middle [] ys fn d = refl
DistinctNames-middle (x ∷ xs) ys fn (dx, d) = ground (
  arith,
  declares-append xs (fn ∷ ys) x.name,
  text_eq_symm x.name fn.name,
  DistinctNames-middle xs ys fn d,
)

module _ (m : Merge) (fn : Function) (v : IsMerged m) where
  add_function-new : declares m.functions fn.name ≡ false → add_function m fn ≡ ok (push m fn)
  unfolding add_function
  add_function-new h = ground (arith, v.indexed fn.name, v.exported fn.name)

  add_function-old :
      declares m.functions fn.name ≡ true
      → add_function m fn ≡ err (LinkError.duplicate_function fn.name)
  unfolding add_function
  add_function-old h = rw (v.indexed fn.name ∙ h)

  push-indexed :
      (name : Text) → contains (push m fn).function_index name ≡ declares (push m fn).functions name
  unfolding contains declares
  push-indexed name = ground (arith, v.indexed name, declares-append m.functions (fn ∷ []) name)

  push-found :
      (name : Text) (i : ℕ)
      → find (push m fn).function_index name ≡ some i
      → (g : Function) × (get_elem? (push m fn).functions i ≡ some g) × (g.name ≡ name)
  unfolding find
  push-found name i e = elim (Bool-cases (text_eq fn.name name)) [
    | inl same ↦ (fn, at_end (cc (rw same at e)), text_eq→eq fn.name name same)
    | inr other ↦
        let (g, at_i, named) = v.found name i (rw other at e) in
        (g, get_elem?-append m.functions (fn ∷ []) i at_i, named)
  ]
    where
      at_end : length m.functions ≡ i → get_elem? (m.functions ++ fn ∷ []) i ≡ some fn
      at_end p = rw (← p) (get_elem?-length m.functions fn)

  push-exported :
      (name : Text)
      → contains_name (push m fn).exported name ≡ true
      → declares (push m fn).functions name ≡ true
  unfolding contains_name declares
  push-exported name e = ground (arith, v.exported name, declares-append m.functions (fn ∷ []) name)

  push-IsMerged : declares m.functions fn.name ≡ false → IsMerged (push m fn)
  push-IsMerged h = record {
    indexed = push-indexed;
    found = push-found;
    exported = push-exported;
    distinct = DistinctNames-push m.functions fn v.distinct h;
  }

-- The first loop appends the functions, or stops at a name that is there already.
pub add_functions-ok :
    (m m' : Merge) (fns : List Function)
    → IsMerged m
    → add_functions m fns ≡ ok m'
    → IsMerged m' × (m'.functions ≡ m.functions ++ fns)
unfolding add_functions
add_functions-ok m m' [] v e = let same : m ≡ m' = cc in rw (← same, append-nil) (v, refl)
add_functions-ok m m' (fn ∷ fns) v e = elim (Bool-cases (declares m.functions fn.name)) [
  | inl old ↦ absurd (cc (rw (add_function-old m fn v old) at e))
  | inr new ↦
      let (v', same) =
        add_functions-ok (push m fn) m' fns (push-IsMerged m fn v new)
          (rw (add_function-new m fn v new) at e) in
      (v', same ∙ append_assoc m.functions (fn ∷ []) fns)
]

pub add_functions-distinct :
    (m : Merge) (fns : List Function)
    → IsMerged m
    → DistinctNames (m.functions ++ fns)
    → (m' : Merge) × (add_functions m fns ≡ ok m')
unfolding add_functions
add_functions-distinct m [] v d = (m, refl)
add_functions-distinct m (fn ∷ fns) v d =
    let new : declares m.functions fn.name ≡ false = DistinctNames-middle m.functions fns fn d in
    let (m', e) =
      add_functions-distinct (push m fn) fns (push-IsMerged m fn v new)
        (rw (append_assoc m.functions (fn ∷ []) fns) d) in
    (m', rw (add_function-new m fn v new) e)

-- A failure of the loop names a function that the list has twice.
pub add_functions-err :
    (m : Merge) (fns : List Function) (x : LinkError)
    → IsMerged m
    → add_functions m fns ≡ err x
    → (name : Text) × (x ≡ LinkError.duplicate_function name)
unfolding add_functions
add_functions-err m [] x v e = absurd (cc)
add_functions-err m (fn ∷ fns) x v e = elim (Bool-cases (declares m.functions fn.name)) [
  | inl old ↦ (fn.name, cc (rw (add_function-old m fn v old) at e))
  | inr new ↦
      add_functions-err (push m fn) fns x (push-IsMerged m fn v new)
        (rw (add_function-new m fn v new) at e)
]

add_functions-append :
    (m : Merge) (xs ys : List Function)
    → add_functions m (xs ++ ys) ≡ (add_functions m xs >>= λ m'. add_functions m' ys)
unfolding add_functions
add_functions-append m [] ys = refl
add_functions-append m (x ∷ xs) ys = elim (Result-cases (add_function m x)) [
  | inl (m', e) ↦ rw e (add_functions-append m' xs ys)
  | inr (x', e) ↦ rw e
]

-- The loop over the objects is one loop over all functions.
pub add_objects-eq-add_functions :
    (m : Merge) (objs : List Object) → add_objects m objs ≡ add_functions m (all_functions objs)
unfolding add_objects
add_objects-eq-add_functions m [] = unfold add_functions in refl
add_objects-eq-add_functions m (obj ∷ objs) =
    (λ i. add_functions m obj.functions >>= λ m'. add_objects-eq-add_functions m' objs i)
    ∙ sym (add_functions-append m obj.functions (all_functions objs))

pub get_elem?-lt {ℓ} :
    {A : Type ℓ} (xs : List A) (i : ℕ) {x : A} → get_elem? xs i ≡ some x → i < length xs
get_elem?-lt [] i e = cc
get_elem?-lt (y ∷ xs) zero e = omega arith
get_elem?-lt (y ∷ xs) (suc i) e = omega (arith, get_elem?-lt xs i e)

declares-get_elem? :
    (fns : List Function) (i : ℕ) {fn : Function}
    → get_elem? fns i ≡ some fn
    → declares fns fn.name ≡ true
unfolding declares
declares-get_elem? [] i e = cc
declares-get_elem? (x ∷ fns) zero e = ground (arith, text_eq_self x.name)
declares-get_elem? (x ∷ fns) (suc i) {fn = fn} e =
    ground (arith, declares-get_elem? fns i {fn = fn} e)

-- Among distinct names the index of a name is unique.
pub DistinctNames-unique :
    (fns : List Function) (i j : ℕ) {f g : Function}
    → DistinctNames fns
    → get_elem? fns i ≡ some f
    → get_elem? fns j ≡ some g
    → f.name ≡ g.name
    → i ≡ j
DistinctNames-unique [] i j d p q same = cc
DistinctNames-unique (x ∷ fns) zero zero d p q same = refl
DistinctNames-unique (x ∷ fns) zero (suc j) {g = g} (dx, d) p q same =
    cc (dx, declares-get_elem? fns j {fn = g} q)
DistinctNames-unique (x ∷ fns) (suc i) zero {f = f} (dx, d) p q same =
    cc (dx, declares-get_elem? fns i {fn = f} p)
DistinctNames-unique (x ∷ fns) (suc i) (suc j) (dx, d) p q same =
    ap suc (DistinctNames-unique fns i j d p q same)

find_of_contains :
    (index : FunctionIndexMap) (name : Text)
    → contains index name ≡ true
    → (i : ℕ) × (find index name ≡ some i)
unfolding contains find
find_of_contains [] name h = absurd (cc)
find_of_contains ((n, i) ∷ rest) name h = elim (Bool-cases (text_eq n name)) [
  | inl same ↦ (i, rw same)
  | inr other ↦ let (j, e) = find_of_contains rest name (rw other at h) in (j, rw other e)
]

-- A function at an index is found by its name.
pub found_at :
    (m : Merge) (i : ℕ) (fn : Function)
    → IsMerged m
    → get_elem? m.functions i ≡ some fn
    → find m.function_index fn.name ≡ some i
found_at m i fn v e =
    let (j, at_j) =
      find_of_contains m.function_index fn.name
        (v.indexed fn.name ∙ declares-get_elem? m.functions i e) in
    let (g, e', same) = v.found fn.name j at_j in
    at_j ∙ ap some (DistinctNames-unique m.functions j i v.distinct e' e same)
