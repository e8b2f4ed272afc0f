-- ===== src/Interp/Vectors.antt =====
-- The cases of `Interpreter::call` in src/vm/interpreter.cpp for the opcodes of
-- include/uasm/opcodes_simd.def.
use uasm.Base.{Bool, true, false, [], ◌∷◌, List, if◌then◌else◌, switch, ◌==◌}
use uasm.Runtime.{Run}
use uasm.Types.{i64, vector_bytes, size_of_type}
use uasm.Ast.{Operand, Instruction}
use uasm.Ast.Opcode
use uasm.Value.Float.{FloatOps, MathLib}
use uasm.Value.Defs.{Value, value}
use uasm.Memory.Bytes.{read_bytes, write_bytes}
use uasm.Vector.Lanes.{lane_count, blank}
use uasm.Vector.Masks.{MaskKind, masked_base, is_memory_op, is_wide_op}
use uasm.Vector.Compute.{vector_compute}
use uasm.Vector.WideCompute.{vector_compute_wide, vector_compute_masked}
use uasm.Vector.Memory.{
  Placement, masked_place, packed_place, indexed_place, masked_index_place, truthy_place,
  load_lanes, store_lanes,
}
use uasm.Interp.Machine.{
  Exec, ◌>>=◌, ◌>>◌, pure, lift, in_range, assign, read, pointer, number, arg,
}
use uasm.Interp.Buffers.{get_memory, put_memory}
use uasm.Interp.Control.{assign_result}
use uasm.Interp.Call.{VectorUnit}

abbrev is_register : Operand → Bool
is_register (Operand.register r) = true
is_register _ = false

module _ ⦃fl : FloatOps⦄ ⦃ml : MathLib⦄ where
  -- `vargs`.
  unfoldable pub read_vargs : Instruction → List Operand → Exec (List Value)
  read_vargs instr [] = pure []
  read_vargs instr (op ∷ rest) = do
    v ← read op (if is_register op then instr.type else instr.type2)
    vs ← read_vargs instr rest
    pure (v ∷ vs)

  -- Which of the three functions computes the result.
  unfoldable pub vector_result : Instruction → List Value → Run Value
  vector_result instr args =
      let (kind, base) = masked_base instr.opcode in
      elim kind [
        | MaskKind.embedded ↦ vector_compute base instr.type instr.type2 args
        | MaskKind.merging ↦ vector_compute_masked base instr.type instr.type2 args false
        | MaskKind.zeroing ↦ vector_compute_masked base instr.type instr.type2 args true
        | MaskKind.unmasked ↦
            if is_wide_op instr.opcode
            then vector_compute_wide instr.opcode instr.type instr.type2 args
            else vector_compute instr.opcode instr.type instr.type2 args
      ]

  -- The loops of the loads, and of the stores of `v`, over all lanes.
  unfoldable pub load_placed : Instruction → Placement → Exec (Unit {0})
  load_placed instr place = do
    n ← lift (lane_count instr.type instr.type2)
    mem ← get_memory
    v ← lift (load_lanes mem instr.type2 place 0 0 n (blank instr.type))
    assign instr v

  unfoldable pub store_placed : Instruction → Value → Placement → Exec (Unit {0})
  store_placed instr v place = do
    n ← lift (lane_count instr.type instr.type2)
    mem ← get_memory
    mem' ← lift (store_lanes v instr.type2 place 0 0 n mem)
    put_memory mem'

  unfoldable pub vector_memory : Instruction → Exec (Unit {0})
  vector_memory instr =
      switch instr.opcode
        ((
          Opcode.v_loadk ∷ Opcode.v_loadz ∷ Opcode.v_expandload ∷ [],
          (do
            addr ← pointer instr 0
            m ← number instr 1 i64
            load_placed instr (
                if instr.opcode == Opcode.v_expandload
                then packed_place instr.type2 addr m
                else masked_place instr.type2 addr m)),
        )
          ∷ (
            Opcode.v_storek ∷ Opcode.v_compressstore ∷ [],
            (do
              addr ← pointer instr 0
              m ← number instr 1 i64
              src ← arg instr 2
              store_placed instr src (
                  if instr.opcode == Opcode.v_compressstore
                  then packed_place instr.type2 addr m
                  else masked_place instr.type2 addr m)),
          )
          ∷ (
            Opcode.v_gatherk ∷ [],
            (do
              base ← pointer instr 0
              m ← number instr 1 i64
              idx ← arg instr 2
              load_placed instr (masked_index_place instr.type2 base m idx)),
          )
          ∷ (
            Opcode.v_scatterk ∷ [],
            (do
              base ← pointer instr 0
              m ← number instr 1 i64
              idx ← arg instr 2
              _ ← lift (lane_count instr.type instr.type2)
              src ← arg instr 3
              store_placed instr src (masked_index_place instr.type2 base m idx)),
          )
          ∷ (
            Opcode.v_load ∷ Opcode.v_loadu ∷ [],
            (do
              addr ← pointer instr 0
              in_range addr (vector_bytes instr.type)
              mem ← get_memory
              assign instr (value instr.type (read_bytes mem addr (vector_bytes instr.type)))),
          )
          ∷ (
            Opcode.v_store ∷ Opcode.v_storeu ∷ [],
            (do
              addr ← pointer instr 0
              v ← arg instr 1
              in_range addr (vector_bytes instr.type)
              mem ← get_memory
              put_memory (write_bytes mem addr (vector_bytes instr.type) v.bits)),
          )
          ∷ (
            Opcode.v_loadsplat ∷ [],
            (do
              addr ← pointer instr 0
              in_range addr (size_of_type instr.type2)
              mem ← get_memory
              v ← lift (
                  vector_compute Opcode.v_splat instr.type instr.type2
                    (value instr.type2 (read_bytes mem addr (size_of_type instr.type2)) ∷ []))
              assign instr v),
          )
          ∷ (
            Opcode.v_gather ∷ [],
            (do
              base ← pointer instr 0
              idx ← arg instr 1
              load_placed instr (indexed_place instr.type2 base idx)),
          )
          ∷ (
            Opcode.v_scatter ∷ [],
            (do
              base ← pointer instr 0
              idx ← arg instr 1
              src ← arg instr 2
              store_placed instr src (indexed_place instr.type2 base idx)),
          )
          ∷ (
            Opcode.v_maskload ∷ [],
            (do
              addr ← pointer instr 0
              mask ← arg instr 1
              load_placed instr (truthy_place instr.type2 addr mask)),
          )
          ∷ (
            Opcode.v_maskstore ∷ [],
            (do
              addr ← pointer instr 0
              mask ← arg instr 1
              src ← arg instr 2
              store_placed instr src (truthy_place instr.type2 addr mask)),
          )
          ∷ [])
        (pure tt)

  unfoldable pub vectors : Instruction → Exec (Unit {0})
  vectors instr = if is_memory_op instr.opcode then vector_memory instr else (do
    args ← read_vargs instr instr.operands
    r ← lift (vector_result instr args)
    assign_result instr r)

  -- What `compute` takes the vector instructions from.
  abbrev pub vector_unit : VectorUnit
  vector_unit = record { execute = vectors }
