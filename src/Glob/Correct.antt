-- ===== src/Glob/Correct.antt =====
-- The loop of `matchSegment` decides what a pattern matches.
use uasm.Base.{
  ℕ, zero, suc, ◌+◌, ◌≡◌, refl, sym, ◌∙◌, ap, subst, Bool, true, false, ◌||◌, Bool-cases,
  Option-cases, inl, inr, [], ◌∷◌, ◌++◌, append_assoc, length, drop, Option, none, some, ◌==◌, Text,
  arith,
}
use uasm.Glob.Defs.{star, Mark, only_stars, match_retry, match_round, match_loop, match_segment}
use uasm.Glob.Spec.{matches}
use uasm.Glob.Rounds.{match_segment-some}

only_stars-matches : (ps : Text) → only_stars ps ≡ matches ps []
unfolding only_stars matches
only_stars-matches [] = refl
only_stars-matches (x ∷ ps) = ground (arith, only_stars-matches ps)

-- A star can pass any characters.
star-drop : (k : ℕ) (ps ns : Text) → matches ps (drop k ns) ≡ true → matches (star ∷ ps) ns ≡ true
unfolding matches
star-drop zero ps [] h = h
star-drop zero ps (c ∷ ns) h = rw h refl
star-drop (suc k) ps [] h = h
star-drop (suc k) ps (c ∷ ns) h = ground (arith, star-drop k ps ns h)

-- and what follows it matches behind those that it passed.
drop-star :
    (ps ns : Text) → matches (star ∷ ps) ns ≡ true → (k : ℕ) × (matches ps (drop k ns) ≡ true)
unfolding matches
drop-star ps [] h = (0, h)
drop-star ps (c ∷ ns) h = elim (Bool-cases (matches ps (c ∷ ns))) [
  | inl here ↦ (0, here)
  | inr later ↦ let (k, e) = drop-star ps ns (rw later at h) in (suc k, e)
]

-- No character of the text is a star.
abbrev pub Plain : Text → Type 0
Plain [] = Unit
Plain (x ∷ u) = ((x == star) ≡ false) × Plain u

drop-Plain :
    (u ps ns : Text)
    → Plain u
    → matches (u ++ ps) ns ≡ true
    → matches ps (drop (length u) ns) ≡ true
unfolding matches
drop-Plain [] ps ns plain h = h
drop-Plain (x ∷ u) ps [] (no_star, plain) h = absurd (cc (rw no_star at h))
drop-Plain (x ∷ u) ps (c ∷ ns) (no_star, plain) h = drop-Plain u ps ns plain (ground arith)

drop_nil : (n : ℕ) → ◌≡◌ {A = Text} (drop n []) []
drop_nil zero = refl
drop_nil (suc n) = refl

drop-drop : (a b : ℕ) (xs : Text) → drop a (drop b xs) ≡ drop (b + a) xs
drop-drop a zero xs = ap (λ n. drop n xs) (omega arith)
drop-drop a (suc b) [] = drop_nil a ∙ sym (drop_nil (suc b + a))
drop-drop a (suc b) (x ∷ xs) =
    let next : suc (b + a) ≡ suc b + a = omega arith in
    drop-drop a b xs ∙ ap (λ n. drop n (x ∷ xs)) next

drop_comm : (a b : ℕ) (xs : Text) → drop a (drop b xs) ≡ drop b (drop a xs)
drop_comm a b xs = drop-drop a b xs ∙ ap (λ n. drop n xs) (omega arith) ∙ sym (drop-drop b a xs)

drop-append : (u ns : Text) → drop (length u) (u ++ ns) ≡ ns
drop-append [] ns = refl
drop-append (x ∷ u) ns = drop-append u ns

-- What the pattern behind the last star can still match, going on behind `starN`.
unfoldable later : Mark → Bool
later none = false
later (some (sp, [])) = false
later (some (sp, c ∷ sn)) = matches (star ∷ sp) sn

-- Behind the mark stand characters without a star, which the pattern and the name share.
abbrev Follows : Mark → Text → Text → Type 0
Follows none ps ns = Unit
Follows (some (sp, sn)) ps ns = (u : Text) × Plain u × (sp ≡ u ++ ps) × (sn ≡ u ++ ns)

-- Starting again behind the mark is no better than a star where the loop stands.
Plain-append : (u : Text) (x : ℕ) → Plain u → (x == star) ≡ false → Plain (u ++ x ∷ [])
Plain-append [] x plain h = (h, tt)
Plain-append (y ∷ u) x (no_star, plain) h = (no_star, Plain-append u x plain h)

later-absorbed :
    (mark : Mark) (ps ns : Text)
    → Follows mark ps ns
    → later mark ≡ true
    → matches (star ∷ ps) ns ≡ true
unfolding later
later-absorbed none ps ns f h = absurd (cc)
later-absorbed (some (sp, [])) ps ns f h = absurd (cc)
later-absorbed (some (sp, c ∷ sn)) ps ns (u, plain, at_p, at_n) h =
    let (k, e) = drop-star sp sn h in
    let e' : matches (u ++ ps) (drop (suc k) (u ++ ns)) ≡ true =
      subst (λ t. matches (u ++ ps) (drop (suc k) t) ≡ true) at_n
        (subst (λ t. matches t (drop k sn) ≡ true) at_p e) in
    let moved : drop (length u) (drop (suc k) (u ++ ns)) ≡ drop (suc k) ns =
      drop_comm (length u) (suc k) (u ++ ns) ∙ ap (drop (suc k)) (drop-append u ns) in
    star-drop (suc k) ps ns
      (subst (λ t. matches ps t ≡ true) moved (drop-Plain u ps (drop (suc k) (u ++ ns)) plain e'))

star-star : (ps ns : Text) → matches (star ∷ star ∷ ps) ns ≡ true → matches (star ∷ ps) ns ≡ true
star-star ps ns h =
    let (k, e) = drop-star (star ∷ ps) ns h in
    let (k', e') = drop-star ps (drop k ns) e in
    star-drop (k + k') ps ns (subst (λ t. matches ps t ≡ true) (drop-drop k' k ns) e')

or_false : (b : Bool) → (b || false) ≡ b
or_false true = refl
or_false false = refl

-- What the loop still has to decide.
unfoldable pending : Text → Text → Mark → Bool
pending ps ns mark = matches ps ns || later mark

pending-end : (ps : Text) (mark : Mark) → Follows mark ps [] → pending ps [] mark ≡ only_stars ps
unfolding pending
pending-end ps mark f = elim (Bool-cases (later mark)) [
  | inl more ↦
      let whole : matches ps [] ≡ true = star_end (later-absorbed mark ps [] f more) in
      rw (only_stars-matches ps, whole) refl
  | inr none_left ↦ rw (only_stars-matches ps, none_left) (or_false (matches ps []))
]
  where
    star_end : matches (star ∷ ps) [] ≡ true → matches ps [] ≡ true
    star_end h = let (k, e) = drop-star ps [] h in subst (λ t. matches ps t ≡ true) (drop_nil k) e

-- A round leaves the question as it was, or answers it with no.
abbrev Agrees : Bool → Option (Text × Text × Mark) → Type 0
Agrees b none = b ≡ false
Agrees b (some (ps, ns, mark)) = (pending ps ns mark ≡ b) × Follows mark ps ns

match_retry-Agrees : (mark : Mark) → Agrees (later mark) (match_retry mark)
unfolding match_retry later pending matches
match_retry-Agrees none = refl
match_retry-Agrees (some (sp, [])) = refl
match_retry-Agrees (some (sp, c ∷ [])) = (or_false (matches sp []), ([], tt, refl, refl))
match_retry-Agrees (some (sp, c ∷ d ∷ sn)) = (refl, ([], tt, refl, refl))

Follows-next :
    (mark : Mark) (x : ℕ) (ps ns : Text)
    → (x == star) ≡ false
    → Follows mark (x ∷ ps) (x ∷ ns)
    → Follows mark ps ns
Follows-next none x ps ns no_star f = tt
Follows-next (some (sp, sn)) x ps ns no_star (u, plain, at_p, at_n) = (
  u ++ x ∷ [],
  Plain-append u x plain no_star,
  at_p ∙ sym (append_assoc u (x ∷ []) ps),
  at_n ∙ sym (append_assoc u (x ∷ []) ns),
)

match_round-star :
    (ps : Text) (c : ℕ) (ns : Text) (mark : Mark)
    → Follows mark (star ∷ ps) (c ∷ ns)
    → pending ps (c ∷ ns) (some (ps, c ∷ ns)) ≡ pending (star ∷ ps) (c ∷ ns) mark
unfolding pending later
match_round-star ps c ns mark f = elim (Bool-cases (later mark)) [
  | inl more ↦
      let whole : matches (star ∷ ps) (c ∷ ns) ≡ true =
        star-star ps (c ∷ ns) (later-absorbed mark (star ∷ ps) (c ∷ ns) f more) in
      star_parts ps c ns ∙ rw (whole) refl
  | inr none_left ↦
      rw none_left (star_parts ps c ns ∙ sym (or_false (matches (star ∷ ps) (c ∷ ns))))
]
  where
    star_parts :
        (ps : Text) (c : ℕ) (ns : Text)
        → (matches ps (c ∷ ns) || matches (star ∷ ps) ns) ≡ matches (star ∷ ps) (c ∷ ns)
    star_parts ps c ns = unfold matches in refl

match_round-at_star :
    (ps : Text) (c : ℕ) (ns : Text) (mark : Mark)
    → Follows mark (star ∷ ps) (c ∷ ns)
    → Agrees (pending (star ∷ ps) (c ∷ ns) mark) (match_round (star ∷ ps) c ns mark)
unfolding match_round
match_round-at_star ps c ns mark f = (match_round-star ps c ns mark f, ([], tt, refl, refl))

match_round-same :
    (x : ℕ) (ps ns : Text) (mark : Mark)
    → (x == star) ≡ false
    → Follows mark (x ∷ ps) (x ∷ ns)
    → Agrees (pending (x ∷ ps) (x ∷ ns) mark) (match_round (x ∷ ps) x ns mark)
unfolding match_round pending matches
match_round-same x ps ns mark no_star f =
    let self : (x == x) ≡ true = ground arith in
    rw (no_star, self) (refl, Follows-next mark x ps ns no_star f)

match_round-Agrees :
    (ps : Text) (c : ℕ) (ns : Text) (mark : Mark)
    → Follows mark ps (c ∷ ns)
    → Agrees (pending ps (c ∷ ns) mark) (match_round ps c ns mark)
unfolding match_round pending matches
match_round-Agrees [] c ns mark f = match_retry-Agrees mark
match_round-Agrees (x ∷ ps) c ns mark f = elim (Bool-cases (x == star)) [
  | inl is_star ↦
      let here : x ≡ star = ground arith in
      subst (λ y. Agrees (pending (y ∷ ps) (c ∷ ns) mark) (match_round (y ∷ ps) c ns mark))
        (sym here)
        (match_round-at_star ps c ns mark (subst (λ y. Follows mark (y ∷ ps) (c ∷ ns)) here f))
  | inr no_star ↦ elim (Bool-cases (x == c)) [
    | inl same ↦
        let here : x ≡ c = ground arith in
        subst (λ d. Agrees (pending (x ∷ ps) (d ∷ ns) mark) (match_round (x ∷ ps) d ns mark)) here
          (match_round-same x ps ns mark no_star
            (subst (λ d. Follows mark (x ∷ ps) (d ∷ ns)) (sym here) f))
    | inr other ↦ rw (no_star, other) (match_retry-Agrees mark)
  ]
]

-- Where the loop ends, it has decided what it had to.
match_loop-pending :
    (rounds : ℕ) (ps ns : Text) (mark : Mark) (b : Bool)
    → Follows mark ps ns
    → match_loop rounds ps ns mark ≡ some b
    → b ≡ pending ps ns mark
unfolding match_loop
match_loop-pending rounds ps [] mark b f e = cc (e) ∙ sym (pending-end ps mark f)
match_loop-pending zero ps (c ∷ ns) mark b f e = absurd (cc)
match_loop-pending (suc rounds) ps (c ∷ ns) mark b f e =
    elim (Option-cases (match_round ps c ns mark)) [
      | inl stop ↦
          let no : pending ps (c ∷ ns) mark ≡ false =
            subst (Agrees (pending ps (c ∷ ns) mark)) stop (match_round-Agrees ps c ns mark f) in
          rw no (cc (rw (stop, match_loop) at e))
      | inr ((ps', ns', mark'), go) ↦
          let (kept, f') =
            subst (Agrees (pending ps (c ∷ ns) mark)) go (match_round-Agrees ps c ns mark f) in
          match_loop-pending rounds ps' ns' mark' b f' (rw (go, match_loop) at e) ∙ kept
    ]

-- The loop of `matchSegment` ends within the rounds it is given, and its answer is whether the name
-- matches the pattern: the star it goes back to is the only one that it needs to remember.
pub match_segment-matches :
    (pattern name : Text) → match_segment pattern name ≡ some (matches pattern name)
unfolding match_segment pending later
match_segment-matches pattern name =
    let (b, e) = match_segment-some pattern name in
    let decided : b ≡ pending pattern name none = match_loop-pending _ pattern name none b tt e in
    e ∙ ap some (decided ∙ or_false (matches pattern name))
