-- ===== src/Interp/Bitfields.antt =====
-- The cases of `Interpreter::call` in src/vm/interpreter.cpp from Blsi to Bitselect.
use uasm.Base.{
  ℕ, ◌+◌, ◌-◌, ◌/◌, ◌%◌, ◌^◌, ◌||◌, ltb, leb, ◌==◌, [], ◌∷◌, ok, err, if◌then◌else◌, switch,
}
use Prim.Native.Nat.{bit_and, bit_or}
use uasm.Runtime.{RuntimeError, Run}
use uasm.Types.{i64}
use uasm.Ast.{Instruction, Opcode}
use uasm.Ast.Opcode
use uasm.Value.Int128
use uasm.Value.Float.{FloatOps}
use uasm.Value.Defs.{from_int128}
use uasm.Alu.Bits.{bit_width, mask_to_width, unsigned_of}
use uasm.Alu.BitManip.{low_mask, bit_manip_unary, bit_manip_binary}
use uasm.Interp.Basic.{unary, binary}
use uasm.Interp.Machine.{Exec, ◌>>=◌, ◌>>◌, pure, lift, assign, arg, number, require_int}

-- `start` and `len` as `size_t`. A shift by the width of `UInt128` or more is undefined.
unfoldable pub field_range : ℕ → ℕ → ℕ → Run (ℕ × ℕ)
field_range bits start len =
    if Int128.is_neg start || Int128.is_neg len || ltb bits (Int128.add start len % 2 ^ 64)
    then err RuntimeError.bitfield_out_of_range
    else if leb 128 (start % 2 ^ 64)
    then err RuntimeError.undefined
    else ok (start % 2 ^ 64, len % 2 ^ 64)

unfoldable pub extract_field : ℕ → ℕ → ℕ → ℕ
extract_field v start len = bit_and (v / 2 ^ start) (low_mask len)

-- The result of Bfinsert, Bfclear and Bfset before `maskToWidth`.
unfoldable pub change_field : Opcode → ℕ → ℕ → ℕ → ℕ → ℕ
change_field op v field start len =
    let mask = Int128.shl (low_mask len) start in
    if op == Opcode.bfinsert
    then bit_or (bit_and v (Int128.complement mask)) (bit_and (Int128.shl field start) mask)
    else if op == Opcode.bfclear
    then bit_and v (Int128.complement mask)
    else bit_or v mask

-- Shld and Shrd before `maskToWidth`.
unfoldable pub funnel_shift : Opcode → ℕ → ℕ → ℕ → ℕ → Run ℕ
funnel_shift op bits hi lo n =
    let s = n % 2 ^ 64 in
    if Int128.is_neg n || leb bits s
    then err RuntimeError.shift_out_of_range
    else ok (
        if s == 0
        then (if op == Opcode.shld then hi else lo)
        else if op == Opcode.shld
        then bit_or (Int128.shl hi s) (lo / 2 ^ (bits - s))
        else bit_or (lo / 2 ^ s) (Int128.shl hi (bits - s)))

module _ ⦃fl : FloatOps⦄ where
  -- `unsignedOf(readOperand(…, instr.type), instr.type)`.
  unfoldable pub bits_of : Instruction → ℕ → Exec ℕ
  bits_of instr i = do v ← arg instr i; pure (unsigned_of v instr.type)

module _ ⦃fl : FloatOps⦄ where
  unfoldable pub bitfields : Instruction → Exec (Unit {0}) → Exec (Unit {0})
  bitfields instr others =
      switch instr.opcode
        ((
          Opcode.blsi ∷ Opcode.blsr ∷ Opcode.blsmsk ∷ Opcode.gray ∷ Opcode.ungray ∷ Opcode.clrsb
              ∷ Opcode.zerocount ∷ Opcode.hibit ∷ Opcode.lobit ∷ Opcode.msbmask ∷ Opcode.nibbleswap
              ∷ Opcode.bitrev8 ∷ Opcode.bswap16 ∷ Opcode.bswap32 ∷ Opcode.bswap64
              ∷ Opcode.bitinterleave ∷ Opcode.bitdeinterleave ∷ Opcode.lowmask ∷ Opcode.himask ∷ [],
          unary instr (bit_manip_unary instr.opcode instr.type),
        )
          ∷ (
            Opcode.bext ∷ Opcode.bdep ∷ Opcode.sextbit ∷ Opcode.zextbit ∷ [],
            binary instr (bit_manip_binary instr.opcode instr.type),
          )
          ∷ (
            Opcode.bfextract ∷ [],
            (do
              require_int instr.type
              v ← bits_of instr 0
              start ← number instr 1 i64
              len ← number instr 2 i64
              (start', len') ← lift (field_range (bit_width instr.type) start len)
              assign instr (from_int128 instr.type (extract_field v start' len'))),
          )
          ∷ (
            Opcode.bfinsert ∷ Opcode.bfclear ∷ Opcode.bfset ∷ [],
            (do
              require_int instr.type
              v ← bits_of instr 0
              base ← pure (if instr.opcode == Opcode.bfinsert then 2 else 1)
              field ← (if instr.opcode == Opcode.bfinsert then bits_of instr 1 else pure 0)
              start ← number instr base i64
              len ← number instr (base + 1) i64
              (start', len') ← lift (field_range (bit_width instr.type) start len)
              assign instr (
                  from_int128 instr.type (
                    mask_to_width (change_field instr.opcode v field start' len')
                      (bit_width instr.type)))),
          )
          ∷ (
            Opcode.shld ∷ Opcode.shrd ∷ [],
            (do
              require_int instr.type
              hi ← bits_of instr 0
              lo ← bits_of instr 1
              n ← number instr 2 i64
              r ← lift (funnel_shift instr.opcode (bit_width instr.type) hi lo n)
              assign instr (from_int128 instr.type (mask_to_width r (bit_width instr.type)))),
          )
          ∷ (
            Opcode.bitselect ∷ [],
            (do
              require_int instr.type
              a ← bits_of instr 0
              b ← bits_of instr 1
              m ← bits_of instr 2
              assign instr (
                  from_int128 instr.type (bit_or (bit_and a m) (bit_and b (Int128.complement m))))),
          )
          ∷ [])
        others
