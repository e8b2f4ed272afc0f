-- ===== src/Memory/Access.antt =====
-- `loadValue` and `storeValue`.
use uasm.Base.{
  ℕ, ◌+◌, ◌*◌, ◌^◌, ◌<◌, ◌≤◌, ◌≡◌, refl, ap, ◌⊎◌, inl, inr, arith, ok, err, ◌>>◌, >>=-eq-ok,
}
use uasm.Types.{ValueType, i8, size_of_type, other}
use uasm.Value.Defs.{Value, value}
use uasm.Value.Conversions.{FitsType}
use uasm.Memory.Bytes.{
  Bytes, read_bytes, write_bytes, read_bytes-write_bytes, read_bytes_congr, write_bytes-below,
  write_bytes-behind,
}
use uasm.Runtime.{RuntimeError}
use uasm.Memory.Defs.{Store, memory_size, check_bounds, load_value, store_value}

-- A type's bits are its bytes.
pub pow-size : (t : ValueType) → 2 ^ (8 * size_of_type t) ≡ 256 ^ size_of_type t
unfolding size_of_type
pow-size i8 = refl
pow-size (other n) = refl
pow-size _ = refl

pub size_of_type-le : (t : ValueType) → size_of_type t ≤ 64
unfolding size_of_type
size_of_type-le i8 = omega arith
size_of_type-le (other n) = omega arith
size_of_type-le _ = omega arith

pub read_value :
    (mem : Bytes) (addr : ℕ) (v : Value)
    → FitsType v
    → value v.type
        (read_bytes (write_bytes mem addr (size_of_type v.type) v.bits) addr (size_of_type v.type))
      ≡ v
read_value mem addr v h =
    ap (value v.type)
      (read_bytes-write_bytes mem addr (size_of_type v.type) v.bits (rw (← pow-size v.type) h))

-- What a check says of the range, on every address of 64 bits.
pub check_bounds_cases :
    (e : RuntimeError) (addr len : ℕ)
    → addr < 2 ^ 64
    → len ≤ memory_size
    → (addr + len ≤ memory_size → check_bounds e addr len ≡ ok tt)
      × (memory_size < addr + len → addr + len < 2 ^ 64 → check_bounds e addr len ≡ err e)
      × (2 ^ 64 ≤ addr + len → check_bounds e addr len ≡ err RuntimeError.undefined)
unfolding check_bounds
check_bounds_cases e addr len ha hl = (λ p. ground arith, λ p q. ground arith, λ p. ground arith)

-- At every address below 2 ^ 64: a load inside the memory gives the bytes there; one that runs
-- past its end throws, if the sum of address and size does not wrap; if it wraps, the source's
-- check passes and the load is undefined.
pub load_value_cases :
    (s : Store) (addr : ℕ) (t : ValueType)
    → addr < 2 ^ 64
    → (addr + size_of_type t ≤ memory_size
        → load_value s addr t ≡ ok (value t (read_bytes s.memory addr (size_of_type t))))
      × (memory_size < addr + size_of_type t
          → addr + size_of_type t < 2 ^ 64
          → load_value s addr t ≡ err RuntimeError.load_out_of_bounds)
      × (2 ^ 64 ≤ addr + size_of_type t → load_value s addr t ≡ err RuntimeError.undefined)
unfolding load_value
load_value_cases s addr t h =
    let (a, b, c) =
      check_bounds_cases RuntimeError.load_out_of_bounds addr (size_of_type t) h
        (omega (arith, size_of_type-le t)) in
    (λ p. rw (a p), λ p q. rw (b p q), λ p. rw (c p))

-- The error to throw does not matter where the check passes.
check_bounds_ok :
    (e e' : RuntimeError) (addr len : ℕ)
    → check_bounds e addr len ≡ ok tt
    → check_bounds e' addr len ≡ ok tt
unfolding check_bounds
check_bounds_ok e e' addr len h = ground arith

store_value_parts :
    (s s' : Store) (addr : ℕ) (v : Value)
    → store_value s addr v ≡ ok s'
    → (check_bounds RuntimeError.store_out_of_bounds addr (size_of_type v.type) ≡ ok tt)
      × (s' ≡ record s { memory = write_bytes s.memory addr (size_of_type v.type) v.bits })
unfolding store_value
store_value_parts s s' addr v e =
    let (_, checked, same) =
      >>=-eq-ok (check_bounds RuntimeError.store_out_of_bounds addr (size_of_type v.type)) _ e in
    (checked, cc)

-- If storing a value whose bits fit its type succeeds, a load of that type from that address gives
-- the value.
pub load_value-store_value :
    (s s' : Store) (addr : ℕ) (v : Value)
    → FitsType v
    → store_value s addr v ≡ ok s'
    → load_value s' addr v.type ≡ ok v
unfolding load_value
load_value-store_value s s' addr v h e =
    let (checked, same) = store_value_parts s s' addr v e in
    rw (check_bounds_ok _ RuntimeError.load_out_of_bounds addr (size_of_type v.type) checked)
      (rw same (ap ok (read_value s.memory addr v h)))

-- If storing a value succeeds, a load from a range that has no byte in common with the stored one
-- gives the same as before, be it a value or an error.
pub load_value-store_value_elsewhere :
    (s s' : Store) (addr addr' : ℕ) (v : Value) (t : ValueType)
    → (addr + size_of_type v.type ≤ addr') ⊎ (addr' + size_of_type t ≤ addr)
    → store_value s addr v ≡ ok s'
    → load_value s' addr' t ≡ load_value s addr' t
unfolding load_value
load_value-store_value_elsewhere s s' addr addr' v t apart e =
    let (_, same) = store_value_parts s s' addr v e in
    rw same (
      ap
        (λ (w : ℕ).
          check_bounds RuntimeError.load_out_of_bounds addr' (size_of_type t) >> ok (value t w))
        (read_bytes_congr _ s.memory addr' (size_of_type t) (kept apart)))
  where
    kept :
        (addr + size_of_type v.type ≤ addr') ⊎ (addr' + size_of_type t ≤ addr)
        → (a : ℕ) → addr' ≤ a
        → a < addr' + size_of_type t
        → write_bytes s.memory addr (size_of_type v.type) v.bits a ≡ s.memory a
    kept (inl behind) a lo hi =
        write_bytes-behind s.memory addr (size_of_type v.type) v.bits a (omega arith)
    kept (inr below) a lo hi =
        write_bytes-below s.memory addr (size_of_type v.type) v.bits a (omega arith)
