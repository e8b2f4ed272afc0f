-- ===== src/Glob/Rounds.antt =====
-- The loop of `matchSegment` ends: it goes back at most once for each character of the name, and
-- passes at most the pattern in between.
use uasm.Base.{
  ℕ, zero, suc, ◌+◌, ◌*◌, ◌<◌, ◌≤◌, ◌≡◌, refl, subst, Bool, false, Bool-cases, Option-cases, inl,
  inr, [], ◌∷◌, length, Option, none, some, ◌==◌, Text, arith,
}
use uasm.Glob.Defs.{star, Mark, match_retry, match_round, match_loop, match_segment}

module _ (longest name_length : ℕ) where
  -- How often the loop can still go back, plus one before the first star.
  abbrev returns : Mark → ℕ
  returns none = name_length + 1
  returns (some (sp, sn)) = length sn

  abbrev IsWithin : Text → Text → Mark → Type 0
  IsWithin ps ns none = (length ps ≤ longest) × (length ns ≤ name_length)
  IsWithin ps ns (some (sp, sn)) =
      (length ps ≤ longest) × (length ns ≤ length sn) × (length sp ≤ longest)

  -- More rounds than any run from here takes.
  abbrev bound : Text → Mark → ℕ
  bound ps mark = returns mark * (longest + 1) + length ps

  -- A round that goes on comes nearer to the end.
  abbrev Shortens : ℕ → Option (Text × Text × Mark) → Type 0
  Shortens n none = Unit
  Shortens n (some (ps, ns, mark)) = (bound ps mark < n) × IsWithin ps ns mark

  match_retry-Shortens :
      (ps ns : Text) (mark : Mark)
      → IsWithin ps ns mark
      → Shortens (bound ps mark) (match_retry mark)
  unfolding match_retry
  match_retry-Shortens ps ns none w = tt
  match_retry-Shortens ps ns (some (sp, [])) w = tt
  match_retry-Shortens ps ns (some (sp, c ∷ sn)) (short, before, fits) =
      (grind arith, (fits, omega arith, fits))

  match_round-Shortens :
      (ps : Text) (c : ℕ) (ns : Text) (mark : Mark)
      → IsWithin ps (c ∷ ns) mark
      → Shortens (bound ps mark) (match_round ps c ns mark)
  unfolding match_round
  match_round-Shortens [] c ns mark w = match_retry-Shortens [] (c ∷ ns) mark w
  match_round-Shortens (x ∷ ps) c ns mark w = elim (Bool-cases (x == star)) [
    | inl is_star ↦ rw is_star (marked mark w)
    | inr no_star ↦ elim (Bool-cases (x == c)) [
      | inl same ↦ rw (no_star, same) (passed mark w)
      | inr other ↦ rw (no_star, other) (match_retry-Shortens (x ∷ ps) (c ∷ ns) mark w)
    ]
  ]
    where
      marked :
          (mark : Mark)
          → IsWithin (x ∷ ps) (c ∷ ns) mark
          → Shortens (bound (x ∷ ps) mark) (some (ps, c ∷ ns, some (ps, c ∷ ns)))
      marked none (short, before) = (grind arith, (omega arith, omega arith, omega arith))
      marked (some (sp, sn)) (short, before, fits) =
          (grind arith, (omega arith, omega arith, omega arith))

      passed :
          (mark : Mark)
          → IsWithin (x ∷ ps) (c ∷ ns) mark
          → Shortens (bound (x ∷ ps) mark) (some (ps, ns, mark))
      passed none (short, before) = (omega arith, (omega arith, omega arith))
      passed (some (sp, sn)) (short, before, fits) = (omega arith, (omega arith, omega arith, fits))

  match_loop-some :
      (rounds : ℕ) (ps ns : Text) (mark : Mark)
      → IsWithin ps ns mark
      → bound ps mark ≤ rounds
      → (b : Bool) × (match_loop rounds ps ns mark ≡ some b)
  unfolding match_loop
  match_loop-some rounds ps [] mark w le = (_, refl)
  match_loop-some zero ps (c ∷ ns) none (short, before) le = absurd (grind arith)
  match_loop-some zero ps (c ∷ ns) (some (sp, [])) (short, before, fits) le = absurd (omega arith)
  match_loop-some zero ps (c ∷ ns) (some (sp, d ∷ sn)) w le = absurd (grind arith)
  match_loop-some (suc rounds) ps (c ∷ ns) mark w le =
      elim (Option-cases (match_round ps c ns mark)) [
        | inl stop ↦ (false, rw (stop, match_loop) refl)
        | inr ((ps', ns', mark'), go) ↦
            let (nearer, w') =
              subst (Shortens (bound ps mark)) go (match_round-Shortens ps c ns mark w) in
            let (b, e) = match_loop-some rounds ps' ns' mark' w' (omega arith) in
            (b, rw (go, match_loop) e)
      ]

pub match_segment-some : (pattern name : Text) → (b : Bool) × (match_segment pattern name ≡ some b)
unfolding match_segment
match_segment-some pattern name =
    match_loop-some (length pattern) (length name) ((length name + 2) * (length pattern + 1))
      pattern name none (omega arith, omega arith) (grind arith)
