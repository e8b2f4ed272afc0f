-- ===== src/Memory/Realloc.antt =====
-- `heapRealloc` on a heap whose blocks tile the memory in use.
use uasm.Base.{
  ℕ, ◌+◌, ◌-◌, ◌^◌, ◌<◌, ◌≤◌, ◌≡◌, ◌≢◌, sym, ap, ◌∙◌, inl, inr, ltb, if◌then◌else◌, arith, ok,
  ◌>>=◌, >>=-eq-ok,
}
use uasm.Memory.Defs.{Store, move_bytes}
use uasm.Memory.Heap.{
  at_least_one, heap_alloc, heap_free, heap_block_size, copy_block, heap_realloc, realloc_known,
}
use uasm.Memory.Tiling.{Live, Apart, Live-bounds, size_in-Live}
use uasm.Memory.HeapSafety.{IsHeap, IsAllocated, heap_alloc-IsAllocated, heap_free-allocated}

copy_block_parts :
    (s s' : Store) (dst src len : ℕ)
    → copy_block s dst src len ≡ ok s'
    → s' ≡ record s { memory = move_bytes s.memory dst src len }
unfolding copy_block
copy_block_parts s s' dst src len e = ground arith

abbrev smaller : ℕ → ℕ → ℕ
smaller a b = if ltb a b then a else b

-- What a reallocation of the block of `n` bytes at `o` promises.
pub record IsReallocated (s s' : Store) (o n o' size : ℕ) : Type 0 where
  pub heap : IsHeap s'
  pub live : Live o' (at_least_one size) s'.heap_blocks
  pub copied : (i : ℕ) → i < smaller n size → s'.memory (o' + i) ≡ s.memory (o + i)
  pub keeps :
      (p m : ℕ)
      → Live p m s.heap_blocks
      → p ≢ o
      → Live p m s'.heap_blocks × ((i : ℕ) → i < m → s'.memory (p + i) ≡ s.memory (p + i))

-- The bytes of a range that the copy does not touch.
moved_elsewhere :
    (s : Store) (dst src len p m i : ℕ)
    → Apart p m dst len
    → i < m
    → move_bytes s.memory dst src len (p + i) ≡ s.memory (p + i)
unfolding move_bytes
moved_elsewhere s dst src len p m i (inl below) h = ground arith
moved_elsewhere s dst src len p m i (inr behind) h = ground arith

moved_here :
    (s : Store) (dst src len i : ℕ)
    → i < len
    → move_bytes s.memory dst src len (dst + i) ≡ s.memory (src + i)
unfolding move_bytes
moved_here s dst src len i h =
    let back : dst + i - dst ≡ i = omega arith in
    ground (arith, ap (λ (k : ℕ). s.memory (src + k)) back)

-- The steps of a reallocation that succeeds.
heap_realloc_parts :
    (s s' : Store) (o n o' size : ℕ)
    → IsHeap s
    → Live o n s.heap_blocks
    → heap_realloc s o size ≡ ok (o', s')
    → (s₁ : Store) × (heap_alloc s size ≡ ok (o', s₁))
      × (s₂ : Store) × (copy_block s₁ o' o (smaller n size) ≡ ok s₂)
      × (heap_free s₂ o ≡ ok s')
unfolding heap_realloc heap_block_size realloc_known
heap_realloc_parts s s' o n o' size v l e =
    let known : heap_block_size s o ≡ ok n =
      rw (size_in-Live s.heap_blocks 0 s.heap_bump_ptr o n v.tiles l, heap_block_size) in
    after_size (rw (known, heap_realloc) at e)
  where
    after_free :
        (o₁ : ℕ) (s₁ s₂ : Store)
        → heap_alloc s size ≡ ok (o₁, s₁)
        → copy_block s₁ o₁ o (smaller n size) ≡ ok s₂
        → ◌>>=◌ {B = ℕ × Store} (heap_free s₂ o) (λ s₃. ok (o₁, s₃)) ≡ ok (o', s')
        → (s₁ : Store) × (heap_alloc s size ≡ ok (o', s₁))
          × (s₂ : Store) × (copy_block s₁ o' o (smaller n size) ≡ ok s₂)
          × (heap_free s₂ o ≡ ok s')
    after_free o₁ s₁ s₂ alloc copy e₂ =
        let (s₃, free, e₃) = >>=-eq-ok (heap_free s₂ o) (λ s₃. ok (o₁, s₃)) e₂ in
        let at_o : o₁ ≡ o' = cc in (s₁, cc (alloc, at_o), s₂, rw (← at_o) copy, cc (free, e₃))

    after_size :
        realloc_known s o size n ≡ ok (o', s')
        → (s₁ : Store) × (heap_alloc s size ≡ ok (o', s₁))
          × (s₂ : Store) × (copy_block s₁ o' o (smaller n size) ≡ ok s₂)
          × (heap_free s₂ o ≡ ok s')
    after_size e₀ =
        let ((o₁, s₁), alloc, e₁) = >>=-eq-ok (heap_alloc s size) _ e₀ in
        let (s₂, copy, e₂) = >>=-eq-ok (copy_block s₁ o₁ o (smaller n size)) _ e₁ in
        after_free o₁ s₁ s₂ alloc copy e₂

Apart-ne : (o n o' n' : ℕ) → 0 < n → 0 < n' → Apart o n o' n' → o ≢ o'
Apart-ne o n o' n' p p' (inl h) = omega arith
Apart-ne o n o' n' p p' (inr h) = omega arith

Apart-shorter : (p m o k k' : ℕ) → k' ≤ k → Apart p m o k → Apart p m o k'
Apart-shorter p m o k k' h (inl below) = inl below
Apart-shorter p m o k k' h (inr behind) = inr (omega arith)

-- After the copy the old block is still there, and freeing it gives the result.
module _ (s s₁ s' : Store) (o n o' size : ℕ) (v : IsHeap s) (l : Live o n s.heap_blocks)
    (a : IsAllocated s s₁ o' (at_least_one size)) where
  abbrev copied_store : Store
  copied_store = record s₁ { memory = move_bytes s₁.memory o' o (smaller n size) }

  realloc_keeps :
      ((p m : ℕ) → Live p m s₁.heap_blocks → p ≢ o → Live p m s'.heap_blocks)
      → s'.memory ≡ copied_store.memory
      → (p m : ℕ) → Live p m s.heap_blocks
      → p ≢ o
      → Live p m s'.heap_blocks × ((i : ℕ) → i < m → s'.memory (p + i) ≡ s.memory (p + i))
  realloc_keeps keeps mem p m live ne =
      let (live₁, apart) = a.keeps p m live in
      (
        keeps p m live₁ ne,
        λ i h. rw mem (
            moved_elsewhere s₁ o' o (smaller n size) p m i
              (Apart-shorter p m o' (at_least_one size) (smaller n size) (ground arith) apart) h
            ∙ ap (λ (f : ℕ → ℕ). f (p + i)) a.memory),
      )

  realloc_freed : heap_free copied_store o ≡ ok s' → IsReallocated s s' o n o' size
  realloc_freed free =
      let (live₁, apart) = a.keeps o n l in
      let pos : 0 < n = (Live-bounds s.heap_blocks 0 s.heap_bump_ptr o n v.tiles l).2 in
      let (s₄, free', heap, keeps, _, mem) =
        heap_free-allocated copied_store o n (record { tiles = a.heap.tiles; fits = a.heap.fits })
          live₁ in
      let same : s₄ ≡ s' = cc in
      let ne : o' ≢ o = λ e. Apart-ne o n o' (at_least_one size) pos (ground arith) apart (sym e) in
      record {
        heap = rw same at heap;
        live = rw same at (keeps o' (at_least_one size) a.live ne);
        copied = λ i h.
            rw (← same, mem)
              (moved_here s₁ o' o (smaller n size) i h ∙ ap (λ (f : ℕ → ℕ). f (o + i)) a.memory);
        keeps = realloc_keeps (rw same at keeps) (rw same at mem);
      }

-- On a heap whose blocks tile the memory in use, if the bump pointer plus the new size does not
-- wrap, a reallocation of an allocated block that succeeds gives a block of the new size that
-- starts with the bytes of the old one, as many as both have; every other allocated block stays,
-- with its bytes, and the blocks tile the memory in use again.
pub heap_realloc-IsReallocated :
    (s s' : Store) (o n o' size : ℕ)
    → IsHeap s
    → Live o n s.heap_blocks
    → s.heap_bump_ptr + at_least_one size < 2 ^ 64
    → heap_realloc s o size ≡ ok (o', s')
    → IsReallocated s s' o n o' size
heap_realloc-IsReallocated s s' o n o' size v l h e =
    let (s₁, alloc, s₂, copy, free) = heap_realloc_parts s s' o n o' size v l e in
    let a = heap_alloc-IsAllocated s s₁ o' size v h alloc in
    let moved = copy_block_parts s₁ s₂ o' o (smaller n size) copy in
    realloc_freed s s₁ s' o n o' size v l a (rw moved at free)
