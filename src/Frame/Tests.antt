-- ===== src/Frame/Tests.antt =====
-- A register of an empty frame of src/vm/interpreter.cpp, assigned and read.
use uasm.Base.{◌≡◌, refl, [], ◌∷◌, ok}
use uasm.Types.{i64}
use uasm.Value.Defs.{value}
use uasm.Frame.{Frame, empty_frame, default_value, grow, read_reg, write_reg, read_reg-write_reg}

abbrev third_set : Frame
third_set = record empty_frame { regs = default_value ∷ default_value ∷ value i64 7 ∷ [] }

read_reg-write_reg_example : read_reg third_set 2 ≡ ok (value i64 7, third_set)
unfolding write_reg grow
read_reg-write_reg_example = read_reg-write_reg empty_frame third_set 2 (value i64 7) refl
