-- ===== src/Memory/Tiling.antt =====
-- The heap's blocks cover the memory below the bump pointer without gaps, and what the searches
-- of the list do to that.
use uasm.Base.{
  ℕ, ◌+◌, ◌-◌, ◌<◌, ◌≤◌, ◌≡◌, ◌≢◌, refl, sym, ◌∙◌, true, false, ◌&&◌, ◌⊎◌, inl, inr, leb, ltb,
  arith, none, some, List, [], ◌∷◌, Bool-cases, Option-cases,
}
use uasm.Memory.Defs.{HeapBlock}
use uasm.Memory.Heap.{take_block, alloc_in, is_at, free_in, size_in}

-- The blocks stand one behind the other from `lo` to `hi`, and none is empty.
abbrev pub Tiles : List HeapBlock → ℕ → ℕ → Type 0
Tiles [] lo hi = lo ≡ hi
Tiles (b ∷ rest) lo hi = (b.offset ≡ lo) × (0 < b.size) × Tiles rest (lo + b.size) hi

-- An allocated block of `n` bytes stands at `o`.
abbrev pub Live : ℕ → ℕ → List HeapBlock → Type 0
Live o n [] = ⊥
Live o n (b ∷ rest) = ((b.offset ≡ o) × (b.size ≡ n) × (b.free ≡ false)) ⊎ Live o n rest

-- Two ranges have no byte in common.
abbrev pub Apart : ℕ → ℕ → ℕ → ℕ → Type 0
Apart o n o' n' = (o + n ≤ o') ⊎ (o' + n' ≤ o)

pub Tiles-le : (bs : List HeapBlock) (lo hi : ℕ) → Tiles bs lo hi → lo ≤ hi
Tiles-le [] lo hi t = omega arith
Tiles-le (b ∷ rest) lo hi (_, _, t) = omega (arith, Tiles-le rest (lo + b.size) hi t)

pub Live-bounds :
    (bs : List HeapBlock) (lo hi o n : ℕ)
    → Tiles bs lo hi
    → Live o n bs
    → (lo ≤ o) × (o + n ≤ hi) × (0 < n)
Live-bounds [] lo hi o n t l = absurd l
Live-bounds (b ∷ rest) lo hi o n (e, p, t) (inl (at_o, at_n, _)) =
    let le = Tiles-le rest (lo + b.size) hi t in omega arith
Live-bounds (b ∷ rest) lo hi o n (e, p, t) (inr l) =
    let (a, c, d) = Live-bounds rest (lo + b.size) hi o n t l in omega arith

-- Two allocated blocks at different places, or at one place, are apart or the same.
pub Live-Apart :
    (bs : List HeapBlock) (lo hi o n o' n' : ℕ)
    → Tiles bs lo hi
    → Live o n bs
    → Live o' n' bs
    → o ≢ o'
    → Apart o n o' n'
Live-Apart [] lo hi o n o' n' t l l' ne = absurd l
Live-Apart (b ∷ rest) lo hi o n o' n' (e, p, t) (inl x) (inl y) ne = absurd (ne (sym x.0 ∙ y.0))
Live-Apart (b ∷ rest) lo hi o n o' n' (e, p, t) (inl x) (inr y) ne =
    let (a, c, d) = Live-bounds rest (lo + b.size) hi o' n' t y in inl (omega arith)
Live-Apart (b ∷ rest) lo hi o n o' n' (e, p, t) (inr x) (inl y) ne =
    let (a, c, d) = Live-bounds rest (lo + b.size) hi o n t x in inr (omega arith)
Live-Apart (b ∷ rest) lo hi o n o' n' (e, p, t) (inr x) (inr y) ne =
    Live-Apart rest (lo + b.size) hi o n o' n' t x y ne

-- What the search for a free block gives.
pub record IsTaken (bs bs' : List HeapBlock) (lo hi o size : ℕ) : Type 0 where
  pub tiles : Tiles bs' lo hi
  pub live : Live o size bs'
  pub keeps : (o' n : ℕ) → Live o' n bs → Live o' n bs' × Apart o' n o size

-- Behind a free block an allocated one stands in the rest of the list.
Live-behind :
    (b : HeapBlock) (rest : List HeapBlock) (lo hi o n : ℕ)
    → Tiles (b ∷ rest) lo hi
    → b.free ≡ true
    → Live o n (b ∷ rest)
    → Live o n rest × (lo + b.size ≤ o)
Live-behind b rest lo hi o n (e, p, t) f (inl (_, _, live)) = absurd (cc)
Live-behind b rest lo hi o n (e, p, t) f (inr l) =
    (l, (Live-bounds rest (lo + b.size) hi o n t l).0)

take_block-IsTaken :
    (b : HeapBlock) (rest : List HeapBlock) (lo hi size : ℕ)
    → Tiles (b ∷ rest) lo hi
    → 0 < size
    → b.free ≡ true
    → size ≤ b.size
    → IsTaken (b ∷ rest) (take_block b size rest) lo hi b.offset size
unfolding take_block
take_block-IsTaken b rest lo hi size (e, p, t) pos f h = elim (Bool-cases (ltb size b.size)) [
  | inl more ↦
      let whole : lo + b.size ≡ lo + size + (b.size - size) = omega arith in
      rw more (record {
        tiles = (e, pos, (omega arith, ground arith, rw whole at t));
        live = inl (refl, refl, refl);
        keeps = λ o' n l.
            let (l', le) = Live-behind b rest lo hi o' n (e, p, t) f l in
            (inr (inr l'), inr (omega arith));
      })
  | inr exact ↦
      let whole : b.size ≡ size = ground arith in
      rw exact (record {
        tiles = (e, p, t);
        live = inl (refl, whole, refl);
        keeps = λ o' n l.
            let (l', le) = Live-behind b rest lo hi o' n (e, p, t) f l in
            (inr l', inr (omega arith));
      })
]

-- The block found in the rest of the list is found in the whole.
IsTaken-cons :
    (b : HeapBlock) (rest bs' : List HeapBlock) (lo hi o size : ℕ)
    → Tiles (b ∷ rest) lo hi
    → IsTaken rest bs' (lo + b.size) hi o size
    → IsTaken (b ∷ rest) (b ∷ bs') lo hi o size
IsTaken-cons b rest bs' lo hi o size (e, p, t) r = record {
  tiles = (e, p, r.tiles);
  live = inr r.live;
  keeps = keeps;
}
  where
    keeps : (o' n : ℕ) → Live o' n (b ∷ rest) → Live o' n (b ∷ bs') × Apart o' n o size
    keeps o' n (inl x) =
        let (a, c, d) = Live-bounds bs' (lo + b.size) hi o size r.tiles r.live in
        (inl x, inl (omega arith))
    keeps o' n (inr l) = let (l', apart) = r.keeps o' n l in (inr l', apart)

pub alloc_in-IsTaken :
    (bs bs' : List HeapBlock) (lo hi o size : ℕ)
    → Tiles bs lo hi
    → 0 < size
    → alloc_in bs size ≡ some (o, bs')
    → IsTaken bs bs' lo hi o size
unfolding alloc_in
alloc_in-IsTaken [] bs' lo hi o size t pos e = absurd (cc)
alloc_in-IsTaken (b ∷ rest) bs' lo hi o size t pos e =
    elim (Bool-cases (b.free && leb size b.size)) [
      | inl fits ↦
          let at_b : o ≡ b.offset = cc (rw fits at e) in
          let split : bs' ≡ take_block b size rest = cc (rw fits at e) in
          rw (at_b, split)
            (take_block-IsTaken b rest lo hi size t pos (ground arith) (ground arith))
      | inr skip ↦ elim (Option-cases (alloc_in rest size)) [
        | inl no_block ↦ absurd (cc (rw (skip, no_block) at e))
        | inr ((o', rest'), found) ↦
            let at_o : o ≡ o' = cc (rw (skip, found) at e) in
            let split : bs' ≡ b ∷ rest' = cc (rw (skip, found) at e) in
            rw (at_o, split)
              (IsTaken-cons b rest rest' lo hi o' size t
                (alloc_in-IsTaken rest rest' (lo + b.size) hi o' size t.2 pos found))
      ]
    ]

-- What marking a block free does.
pub record IsFreed (bs bs' : List HeapBlock) (lo hi o : ℕ) : Type 0 where
  pub tiles : Tiles bs' lo hi
  pub keeps : (o' n : ℕ) → Live o' n bs → o' ≢ o → Live o' n bs'
  pub gone : (n : ℕ) → ¬ (Live o n bs')

IsFreed-head :
    (b : HeapBlock) (rest : List HeapBlock) (lo hi o : ℕ)
    → Tiles (b ∷ rest) lo hi
    → b.offset ≡ o
    → IsFreed (b ∷ rest) (record b { free = true } ∷ rest) lo hi o
IsFreed-head b rest lo hi o (e, p, t) at_b = record {
  tiles = (e, p, t);
  keeps = keeps;
  gone = gone;
}
  where
    keeps : (o' n : ℕ) → Live o' n (b ∷ rest) → o' ≢ o → Live o' n (record b { free = true } ∷ rest)
    keeps o' n (inl (at_o', _, _)) ne = absurd (ne (sym at_o' ∙ at_b))
    keeps o' n (inr l) ne = inr l

    gone : (n : ℕ) → ¬ (Live o n (record b { free = true } ∷ rest))
    gone n (inl (_, _, live)) = cc
    gone n (inr l) =
        let (a, c, d) = Live-bounds rest (lo + b.size) hi o n t l in absurd (omega arith)

IsFreed-tail :
    (b : HeapBlock) (rest bs' : List HeapBlock) (lo hi o : ℕ)
    → Tiles (b ∷ rest) lo hi
    → is_at o b ≡ false
    → IsFreed rest bs' (lo + b.size) hi o
    → IsFreed (b ∷ rest) (b ∷ bs') lo hi o
unfolding is_at
IsFreed-tail b rest bs' lo hi o (e, p, t) skip r = record {
  tiles = (e, p, r.tiles);
  keeps = keeps;
  gone = gone;
}
  where
    keeps : (o' n : ℕ) → Live o' n (b ∷ rest) → o' ≢ o → Live o' n (b ∷ bs')
    keeps o' n (inl x) ne = inl x
    keeps o' n (inr l) ne = inr (r.keeps o' n l ne)

    gone : (n : ℕ) → ¬ (Live o n (b ∷ bs'))
    gone n (inl (at_o, at_n, live)) = ground arith
    gone n (inr l) = r.gone n l

pub free_in-IsFreed :
    (bs bs' : List HeapBlock) (lo hi o : ℕ)
    → Tiles bs lo hi
    → free_in bs o ≡ some bs'
    → IsFreed bs bs' lo hi o
unfolding free_in
free_in-IsFreed [] bs' lo hi o t e = absurd (cc)
free_in-IsFreed (b ∷ rest) bs' lo hi o t e = elim (Bool-cases (is_at o b)) [
  | inl found ↦
      let same : bs' ≡ record b { free = true } ∷ rest = cc (rw found at e) in
      rw same (IsFreed-head b rest lo hi o t (unfold is_at in ground arith))
  | inr skip ↦ elim (Option-cases (free_in rest o)) [
    | inl no_block ↦ absurd (cc (rw (skip, no_block) at e))
    | inr (rest', found) ↦
        let same : bs' ≡ b ∷ rest' = cc (rw (skip, found) at e) in
        rw same (
          IsFreed-tail b rest rest' lo hi o t skip
            (free_in-IsFreed rest rest' (lo + b.size) hi o t.2 found))
  ]
]

-- An allocated block is found with its size, and can be freed.
pub size_in-Live :
    (bs : List HeapBlock) (lo hi o n : ℕ) → Tiles bs lo hi → Live o n bs → size_in bs o ≡ some n
unfolding size_in is_at
size_in-Live [] lo hi o n t l = absurd l
size_in-Live (b ∷ rest) lo hi o n (e, p, t) (inl (at_o, at_n, live)) = ground arith
size_in-Live (b ∷ rest) lo hi o n (e, p, t) (inr l) =
    let (a, c, d) = Live-bounds rest (lo + b.size) hi o n t l in
    ground (arith, size_in-Live rest (lo + b.size) hi o n t l)

pub free_in-Live :
    (bs : List HeapBlock) (o n : ℕ)
    → Live o n bs
    → (bs' : List HeapBlock) × (free_in bs o ≡ some bs')
unfolding free_in
free_in-Live [] o n l = absurd l
free_in-Live (b ∷ rest) o n l = elim (Bool-cases (is_at o b)) [
  | inl found ↦ (record b { free = true } ∷ rest, rw found)
  | inr skip ↦ let (rest', e) = free_in-Live rest o n (behind l skip) in (b ∷ rest', rw (skip, e))
]
  where
    behind : Live o n (b ∷ rest) → is_at o b ≡ false → Live o n rest
    behind (inl (at_o, at_n, live)) skip = absurd (unfold is_at in ground arith)
    behind (inr l) skip = l

-- A place with no allocated block cannot be freed.
pub free_in-not_Live :
    (bs : List HeapBlock) (o : ℕ) → ((n : ℕ) → ¬ (Live o n bs)) → free_in bs o ≡ none
unfolding free_in
free_in-not_Live [] o h = refl
free_in-not_Live (b ∷ rest) o h = elim (Bool-cases (is_at o b)) [
  | inl found ↦ absurd (h b.size (inl (unfold is_at in ground arith)))
  | inr skip ↦ rw (skip, free_in-not_Live rest o (λ n l. h n (inr l)))
]
