-- ===== src/Interp/Frames.antt =====
-- The cases of `Interpreter::call` in src/vm/interpreter.cpp from Enter to Popf.
use uasm.Base.{
  ℕ, ◌+◌, ◌-◌, ◌*◌, ◌/◌, ◌%◌, ◌^◌, ◌||◌, ltb, ◌==◌, [], ◌∷◌, ◌++◌, length, ok, err, if◌then◌else◌,
  switch,
}
use uasm.Runtime.{RuntimeError, Run}
use uasm.Types.{i32}
use uasm.Ast.{Instruction}
use uasm.Ast.Opcode
use uasm.Value.Int128
use uasm.Value.Float.{FloatOps}
use uasm.Value.Defs.{as_int128, from_int128}
use uasm.Memory.Defs.{Store, stack_size}
use uasm.Memory.Heap.{free_allocas}
use uasm.Frame.{Frame}
use uasm.Interp.Basic.{push, pop, allocate}
use uasm.Interp.Machine.{
  Exec, ◌>>=◌, ◌>>◌, get_frame, put_frame, query, assign, make_ptr, number, word, change,
}

-- `freeAllocas(frame)`.
unfoldable pub release : Exec (Unit {0})
release = do
  f ← get_frame
  change (λ s. free_allocas s f.allocas)
  put_frame (record f { allocas = [] })

-- What Pushf packs, and what Popf reads.
unfoldable pub packed_flags : Frame → ℕ
packed_flags f =
    f.cmp_flag + (if f.carry_flag then 256 else 0) + (if f.overflow_flag then 512 else 0)

unfoldable pub unpack_flags : ℕ → Frame → Frame
unpack_flags packed f = record f {
  cmp_flag = packed % 2 ^ 8;
  carry_flag = packed / 2 ^ 8 % 2 == 1;
  overflow_flag = packed / 2 ^ 9 % 2 == 1;
}

-- Setsp and Stackrestore.
unfoldable pub set_stack_pointer : ℕ → Store → Run Store
set_stack_pointer sp s =
    if Int128.is_neg sp || ltb stack_size (sp % 2 ^ 64)
    then err RuntimeError.stack_pointer_out_of_range
    else ok (record s { stack_pointer = sp % 2 ^ 64 })

module _ ⦃fl : FloatOps⦄ where
  unfoldable pub frames : Instruction → Exec (Unit {0}) → Exec (Unit {0})
  frames instr others =
      switch instr.opcode
        ((
          Opcode.enter ∷ [],
          (do n ← word instr 0; f ← get_frame; put_frame (record f { enter_size = n })),
        )
          ∷ (Opcode.leave ∷ [], (do f ← get_frame; put_frame (record f { enter_size = 0 })))
          ∷ (
            Opcode.alloca ∷ [],
            (do
              n ← word instr 0
              off ← allocate n
              f ← get_frame
              put_frame (record f { allocas = f.allocas ++ (off ∷ []) })
              assign instr (make_ptr off)),
          )
          ∷ (
            Opcode.getsp ∷ Opcode.stacksave ∷ [],
            (do sp ← query (λ s. ok s.stack_pointer); assign instr (from_int128 instr.type sp)),
          )
          ∷ (
            Opcode.setsp ∷ Opcode.stackrestore ∷ [],
            (do sp ← number instr 0 instr.type; change (set_stack_pointer sp)),
          )
          ∷ (
            Opcode.getfp ∷ [],
            (do f ← get_frame; assign instr (from_int128 instr.type f.frame_pointer)),
          )
          ∷ (
            Opcode.setfp ∷ [],
            (do n ← word instr 0; f ← get_frame; put_frame (record f { frame_pointer = n })),
          )
          ∷ (Opcode.getpc ∷ [], (do f ← get_frame; assign instr (from_int128 instr.type f.pc)))
          ∷ (
            Opcode.framesize ∷ [],
            (do
              f ← get_frame
              assign instr (from_int128 instr.type ((length f.regs * 8 + f.enter_size) % 2 ^ 64))),
          )
          ∷ (
            Opcode.stackdepth ∷ [],
            (do
              sp ← query (λ s. ok s.stack_pointer)
              assign instr (from_int128 instr.type (stack_size - sp))),
          )
          ∷ (Opcode.stackfree ∷ [], release)
          ∷ (Opcode.pushf ∷ [], (do f ← get_frame; push (from_int128 i32 (packed_flags f))))
          ∷ (
            Opcode.popf ∷ [],
            (do v ← pop i32; f ← get_frame; put_frame (unpack_flags (as_int128 v % 2 ^ 32) f)),
          )
          ∷ [])
        others
