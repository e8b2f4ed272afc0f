-- ===== src/Vector/Masks.antt =====
-- The mask registers in src/vm/vector_ops.cpp: `vectorMaskedBase`, `vectorOpIsMemory`,
-- `vectorOpIsWide`, and the cases from Kset to Kvalid of `vectorComputeWide`.
use uasm.Base.{
  ℕ, zero, suc, ◌+◌, ◌-◌, ◌/◌, ◌%◌, ◌^◌, Bool, not, ◌&&◌, ◌||◌, ltb, leb, ◌==◌, List, [], ◌∷◌, ok,
  err, if◌then◌else◌, switch, one_of, ◌>>=◌,
}
use Prim.Native.Nat.{bit_and, bit_or, bit_xor}
use uasm.Runtime.{RuntimeError, Run}
use uasm.Types.{ValueType, i32, i64}
use uasm.Ast.{Opcode}
use uasm.Ast.Opcode
use uasm.Value.Int128
use uasm.Value.Float.{FloatOps}
use uasm.Value.Defs.{Value, as_int128, from_int128}
use uasm.Vector.Lanes.{lane_mask, masked, get_lane, arg_at, for_lanes, lane_unsigned}
use uasm.Alu.Bits.{popcount_generic}

-- What `vectorMaskedBase` returns, for 0, 1, 2 and -1.
pub data MaskKind : Type 0 where
  merging zeroing embedded unmasked : MaskKind

-- `vectorMaskedBase`, with the base opcode; where there is none the source leaves `baseOp` as its
-- caller set it, to `op`.
unfoldable pub masked_base : Opcode → MaskKind × Opcode
masked_base op =
    switch op
      ((Opcode.v_addz ∷ [], (MaskKind.zeroing, Opcode.v_add))
        ∷ (Opcode.v_addk ∷ [], (MaskKind.merging, Opcode.v_add))
        ∷ (Opcode.v_subz ∷ [], (MaskKind.zeroing, Opcode.v_sub))
        ∷ (Opcode.v_subk ∷ [], (MaskKind.merging, Opcode.v_sub))
        ∷ (Opcode.v_mulz ∷ [], (MaskKind.zeroing, Opcode.v_mul))
        ∷ (Opcode.v_mulk ∷ [], (MaskKind.merging, Opcode.v_mul))
        ∷ (Opcode.v_divz ∷ [], (MaskKind.zeroing, Opcode.v_div))
        ∷ (Opcode.v_divk ∷ [], (MaskKind.merging, Opcode.v_div))
        ∷ (Opcode.v_minz ∷ [], (MaskKind.zeroing, Opcode.v_min))
        ∷ (Opcode.v_mink ∷ [], (MaskKind.merging, Opcode.v_min))
        ∷ (Opcode.v_maxz ∷ [], (MaskKind.zeroing, Opcode.v_max))
        ∷ (Opcode.v_maxk ∷ [], (MaskKind.merging, Opcode.v_max))
        ∷ (Opcode.v_sqrtz ∷ [], (MaskKind.zeroing, Opcode.v_sqrt))
        ∷ (Opcode.v_sqrtk ∷ [], (MaskKind.merging, Opcode.v_sqrt))
        ∷ (Opcode.v_absz ∷ [], (MaskKind.zeroing, Opcode.v_abs))
        ∷ (Opcode.v_absk ∷ [], (MaskKind.merging, Opcode.v_abs))
        ∷ (Opcode.v_negz ∷ [], (MaskKind.zeroing, Opcode.v_neg))
        ∷ (Opcode.v_negk ∷ [], (MaskKind.merging, Opcode.v_neg))
        ∷ (Opcode.v_fmaz ∷ [], (MaskKind.zeroing, Opcode.v_mla))
        ∷ (Opcode.v_fmak ∷ [], (MaskKind.merging, Opcode.v_mla))
        ∷ (Opcode.v_addb ∷ [], (MaskKind.embedded, Opcode.v_add))
        ∷ (Opcode.v_subb ∷ [], (MaskKind.embedded, Opcode.v_sub))
        ∷ (Opcode.v_mulb ∷ [], (MaskKind.embedded, Opcode.v_mul))
        ∷ (Opcode.v_divb ∷ [], (MaskKind.embedded, Opcode.v_div))
        ∷ (Opcode.v_fmab ∷ [], (MaskKind.embedded, Opcode.v_mla))
        ∷ [])
      (MaskKind.unmasked, op)

unfoldable pub is_memory_op : Opcode → Bool
is_memory_op op = one_of op (
    Opcode.v_load ∷ Opcode.v_loadu ∷ Opcode.v_store ∷ Opcode.v_storeu ∷ Opcode.v_gather
    ∷ Opcode.v_scatter ∷ Opcode.v_loadsplat ∷ Opcode.v_maskload ∷ Opcode.v_maskstore
    ∷ Opcode.v_loadk ∷ Opcode.v_loadz ∷ Opcode.v_storek ∷ Opcode.v_gatherk ∷ Opcode.v_scatterk
    ∷ Opcode.v_expandload ∷ Opcode.v_compressstore ∷ [])

-- `vectorOpIsWide`: the opcodes of Simd256 and Simd512 end the table.
unfoldable pub is_wide_op : Opcode → Bool
is_wide_op op = leb Opcode.v_perm128 op && ltb op Opcode.opcode_count

-- `maskBit`, on what `maskBitsOf` returns.
unfoldable pub mask_bit : ℕ → ℕ → Bool
mask_bit m i = m / 2 ^ i % 2 == 1

-- The loops of `Kfirst` and `Klast`.
unfoldable pub first_set : ℕ → ℕ → ℕ → ℕ
first_set m i zero = 2 ^ 128 - 1
first_set m i (suc rounds) =
    let rest = first_set m (i + 1) rounds in if mask_bit m i then i else rest

unfoldable pub last_set : ℕ → ℕ → ℕ
last_set m n = for_lanes (λ i r. if mask_bit m i then i else r) 0 n (2 ^ 128 - 1)

-- The amount of `Kshiftl` and `Kshiftr`.
unfoldable pub mask_shift : ℕ → ℕ → Run ℕ
mask_shift k n =
    if Int128.is_neg k || ltb n (k % 2 ^ 64)
    then err RuntimeError.mask_shift_out_of_range
    else ok (k % 2 ^ 64)

module _ ⦃fl : FloatOps⦄ where
  unfoldable pub mask_value : ℕ → Value
  mask_value bits = from_int128 i64 bits

  -- `… ? 1 : 0` as an `int`.
  abbrev test_value : Bool → Value
  test_value b = from_int128 i32 (if b then 1 else 0)

  -- `Kcvtmask`.
  unfoldable pub mask_of_lanes : ValueType → ℕ → Value → ℕ
  mask_of_lanes lane n a =
      for_lanes
        (λ i m.
          if lane_unsigned (get_lane a lane i) lane == 0 then m else bit_or m (Int128.shl 1 i))
        0 n 0

  -- The cases from `Kmov` to `Kunpack`.
  unfoldable pub mask_logic :
      Opcode → ValueType → ValueType → ℕ → List Value → Run Value → Run Value
  mask_logic op width lane n args others =
      switch op
        ((Opcode.kmov ∷ [], (do a ← arg_at args 0; ok (mask_value (masked (as_int128 a) n))))
          ∷ (
            Opcode.knot ∷ [],
            (do a ← arg_at args 0; ok (mask_value (masked (Int128.complement (as_int128 a)) n))),
          )
          ∷ (
            Opcode.kand ∷ [],
            (do
              a ← arg_at args 0
              b ← arg_at args 1
              x ← ok (as_int128 a)
              y ← ok (as_int128 b)
              ok (mask_value (masked (bit_and x y) n))),
          )
          ∷ (
            Opcode.kor ∷ [],
            (do
              a ← arg_at args 0
              b ← arg_at args 1
              x ← ok (as_int128 a)
              y ← ok (as_int128 b)
              ok (mask_value (masked (bit_or x y) n))),
          )
          ∷ (
            Opcode.kxor ∷ [],
            (do
              a ← arg_at args 0
              b ← arg_at args 1
              x ← ok (as_int128 a)
              y ← ok (as_int128 b)
              ok (mask_value (masked (bit_xor x y) n))),
          )
          ∷ (
            Opcode.kandn ∷ [],
            (do
              a ← arg_at args 0
              b ← arg_at args 1
              x ← ok (as_int128 a)
              y ← ok (as_int128 b)
              ok (mask_value (masked (bit_and (Int128.complement x) y) n))),
          )
          ∷ (
            Opcode.kxnor ∷ [],
            (do
              a ← arg_at args 0
              b ← arg_at args 1
              x ← ok (as_int128 a)
              y ← ok (as_int128 b)
              ok (mask_value (masked (Int128.complement (bit_xor x y)) n))),
          )
          ∷ (
            Opcode.kadd ∷ [],
            (do
              a ← arg_at args 0
              b ← arg_at args 1
              x ← ok (as_int128 a)
              y ← ok (as_int128 b)
              ok (mask_value (masked (Int128.add x y) n))),
          )
          ∷ (
            Opcode.kshiftl ∷ [],
            (do
              a ← arg_at args 0
              b ← arg_at args 1
              x ← ok (as_int128 a)
              y ← ok (as_int128 b)
              k ← mask_shift y n
              ok (mask_value (masked (Int128.shl x k) n))),
          )
          ∷ (
            Opcode.kshiftr ∷ [],
            (do
              a ← arg_at args 0
              b ← arg_at args 1
              x ← ok (as_int128 a)
              y ← ok (as_int128 b)
              k ← mask_shift y n
              ok (mask_value (masked x n / 2 ^ k))),
          )
          ∷ (
            Opcode.ktest ∷ [],
            (do
              a ← arg_at args 0
              b ← arg_at args 1
              x ← ok (as_int128 a)
              y ← ok (as_int128 b)
              ok (test_value (not (masked (bit_and x y) n == 0)))),
          )
          ∷ (
            Opcode.kortest ∷ [],
            (do
              a ← arg_at args 0
              b ← arg_at args 1
              x ← ok (as_int128 a)
              y ← ok (as_int128 b)
              ok (test_value (not (masked (bit_or x y) n == 0)))),
          )
          ∷ (
            Opcode.kunpack ∷ [],
            (do
              a ← arg_at args 0
              b ← arg_at args 1
              x ← ok (as_int128 a)
              y ← ok (as_int128 b)
              ok (mask_value (bit_or (masked x (n / 2)) (Int128.shl (masked y (n / 2)) (n / 2))))),
          )
          ∷ [])
        others

  -- The cases from `Kcvtmask` on.
  unfoldable pub mask_counts :
      Opcode → ValueType → ValueType → ℕ → List Value → Run Value → Run Value
  mask_counts op width lane n args others =
      switch op
        ((Opcode.kcvtmask ∷ [], (do a ← arg_at args 0; ok (mask_value (mask_of_lanes lane n a))))
          ∷ (
            Opcode.kcount ∷ [],
            (do
              a ← arg_at args 0
              ok (from_int128 i32 (popcount_generic (masked (as_int128 a) n) n))),
          )
          ∷ (
            Opcode.kfirst ∷ [],
            (do a ← arg_at args 0; ok (from_int128 i32 (first_set (masked (as_int128 a) n) 0 n))),
          )
          ∷ (
            Opcode.klast ∷ [],
            (do a ← arg_at args 0; ok (from_int128 i32 (last_set (masked (as_int128 a) n) n))),
          )
          ∷ (
            Opcode.kvalid ∷ [],
            (do
              a ← arg_at args 0
              ok (test_value (bit_and (as_int128 a) (Int128.complement (lane_mask n)) == 0))),
          )
          ∷ [])
        others
