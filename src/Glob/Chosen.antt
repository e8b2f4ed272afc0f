-- ===== src/Glob/Chosen.antt =====
-- Which paths `expandGlob` of src/util/glob.cpp returns of its candidates.
use uasm.Base.{
  ◌≡◌, refl, sym, ◌∙◌, ap, subst, Bool, true, false, ◌&&◌, ◌||◌, Bool-cases, inl, inr, List, [],
  ◌∷◌, length, ◌==◌, Text, text_eq, text_eq→eq, ok, if◌then◌else◌,
}
use uasm.Glob.Defs.{ends_with_uasm, base_name}
use uasm.Glob.Spec.{matches}
use uasm.Glob.Correct.{match_segment-matches}
use uasm.Glob.Expand.{selects, select, text_less, insert, sort, unique, finish}

-- The path stands in the list.
abbrev pub among : Text → List Text → Bool
among p [] = false
among p (q ∷ rest) = text_eq q p || among p rest

-- A file of the language whose name matches.
abbrev pub wanted : Text → Text → Bool
wanted name_pattern p = ends_with_uasm p && matches name_pattern (base_name p)

selects-wanted : (name_pattern p : Text) → selects name_pattern p ≡ wanted name_pattern p
unfolding selects
selects-wanted name_pattern p =
    rw (match_segment-matches name_pattern (base_name p)) (both (ends_with_uasm p))
  where
    both :
        (b : Bool)
        → (if b then matches name_pattern (base_name p) else false)
          ≡ (b && matches name_pattern (base_name p))
    both true = refl
    both false = refl

and_false : (b : Bool) → (b && false) ≡ false
and_false true = refl
and_false false = refl

or_swap : (a b c : Bool) → (a || (b || c)) ≡ (b || (a || c))
or_swap true true c = refl
or_swap true false c = refl
or_swap false b c = refl

or_twice : (a b : Bool) → (a || (a || b)) ≡ (a || b)
or_twice true b = refl
or_twice false b = refl

select-cons :
    (name_pattern q p : Text) (rest : List Text)
    → among p (select name_pattern rest) ≡ (among p rest && selects name_pattern p)
    → among p (select name_pattern (q ∷ rest)) ≡ (among p (q ∷ rest) && selects name_pattern p)
unfolding select
select-cons name_pattern q p rest before = elim (Bool-cases (text_eq q p)) [
  | inl same ↦
      let here : q ≡ p = text_eq→eq q p same in
      elim (Bool-cases (selects name_pattern q)) [
        | inl chosen ↦
            let chosen' : selects name_pattern p ≡ true =
              subst (λ r. selects name_pattern r ≡ true) here chosen in
            rw (chosen, chosen', same) refl
        | inr dropped ↦
            let dropped' : selects name_pattern p ≡ false =
              subst (λ r. selects name_pattern r ≡ false) here dropped in
            rw (dropped, same, before, dropped') (and_false (among p rest))
      ]
  | inr other ↦ elim (Bool-cases (selects name_pattern q)) [
    | inl chosen ↦ rw (chosen, other) before
    | inr dropped ↦ rw (dropped, other) before
  ]
]

among-select :
    (name_pattern p : Text) (paths : List Text)
    → among p (select name_pattern paths) ≡ (among p paths && selects name_pattern p)
unfolding select
among-select name_pattern p [] = refl
among-select name_pattern p (q ∷ rest) =
    select-cons name_pattern q p rest (among-select name_pattern p rest)

among-insert :
    (p q : Text) (paths : List Text) → among p (insert q paths) ≡ (text_eq q p || among p paths)
unfolding insert
among-insert p q [] = refl
among-insert p q (r ∷ rest) = elim (Bool-cases (text_less r q)) [
  | inl behind ↦
      rw (behind, among-insert p q rest) (or_swap (text_eq r p) (text_eq q p) (among p rest))
  | inr before ↦ rw before refl
]

among-sort : (p : Text) (paths : List Text) → among p (sort paths) ≡ among p paths
unfolding sort
among-sort p [] = refl
among-sort p (q ∷ rest) =
    among-insert p q (sort rest) ∙ ap (λ b. text_eq q p || b) (among-sort p rest)

among-unique : (p : Text) (paths : List Text) → among p (unique paths) ≡ among p paths
unfolding unique
among-unique p [] = refl
among-unique p (q ∷ []) = refl
among-unique p (q ∷ r ∷ rest) = elim (Bool-cases (text_eq q r)) [
  | inl same ↦
      let here : q ≡ r = text_eq→eq q r same in
      rw same (
        among-unique p (r ∷ rest)
        ∙ sym (
            subst
              (λ t. (text_eq t p || (text_eq r p || among p rest)) ≡ (text_eq r p || among p rest))
              (sym here) (or_twice (text_eq r p) (among p rest))))
  | inr other ↦ rw other (ap (λ b. text_eq q p || b) (among-unique p (r ∷ rest)))
]

-- Where the pattern of a name has results among the candidates, a path stands among the results
-- exactly if it is a candidate that ends with ".uasm" and whose last part matches the pattern:
-- sorting and dropping repeated paths loses none.
pub finish-wanted :
    (name_pattern : Text) (candidates results : List Text)
    → finish name_pattern candidates ≡ ok results
    → (p : Text) → among p results ≡ (among p candidates && wanted name_pattern p)
unfolding finish
finish-wanted name_pattern candidates results e p =
    elim (Bool-cases (length (select name_pattern candidates) == 0)) [
      | inl bare ↦ absurd (cc (rw bare at e))
      | inr found ↦
          let done : unique (sort (select name_pattern candidates)) ≡ results =
            cc (rw found at e) in
          ap (among p) (sym done)
          ∙ among-unique p (sort (select name_pattern candidates))
          ∙ among-sort p (select name_pattern candidates)
          ∙ among-select name_pattern p candidates
          ∙ ap (λ b. among p candidates && b) (selects-wanted name_pattern p)
    ]
