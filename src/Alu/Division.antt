-- ===== src/Alu/Division.antt =====
-- The limits of a width and the rounded divisions of src/vm/interpreter.cpp: `signedMinOfWidth`
-- to `unsignedMaxOfWidth`, and `floorDiv` to `euclidMod`.
use uasm.Base.{ℕ, ◌-◌, ◌/◌, Bool, ◌&&◌, not, leb, ◌==◌, if◌then◌else◌, ok, err}
use uasm.Runtime.{RuntimeError, Run}
use uasm.Value.Int128

unfoldable pub signed_min_of_width : ℕ → ℕ
signed_min_of_width bits =
    if leb 128 bits then Int128.shl 1 127 else Int128.neg (Int128.shl 1 (bits - 1))

unfoldable pub signed_max_of_width : ℕ → ℕ
signed_max_of_width bits =
    if leb 128 bits then Int128.complement 0 / 2 else Int128.sub (Int128.shl 1 (bits - 1)) 1

unfoldable pub unsigned_max_of_width : ℕ → ℕ
unsigned_max_of_width bits =
    if leb 128 bits then Int128.complement 0 else Int128.sub (Int128.shl 1 bits) 1

-- `(a < 0) == (b < 0)`.
abbrev pub same_sign : ℕ → ℕ → Bool
same_sign a b = if Int128.is_neg a then Int128.is_neg b else not (Int128.is_neg b)

unfoldable pub floor_div : ℕ → ℕ → Run ℕ
floor_div a b =
    if b == 0
    then err RuntimeError.division_by_zero
    else ok (
        if not (Int128.mod_signed a b == 0) && not (same_sign a b)
        then Int128.sub (Int128.div_signed a b) 1
        else Int128.div_signed a b)

unfoldable pub ceil_div : ℕ → ℕ → Run ℕ
ceil_div a b =
    if b == 0
    then err RuntimeError.division_by_zero
    else ok (
        if not (Int128.mod_signed a b == 0) && same_sign a b
        then Int128.add (Int128.div_signed a b) 1
        else Int128.div_signed a b)

-- `b > 0` is `not (is_neg b)`, since b is not 0.
unfoldable pub euclid_div : ℕ → ℕ → Run ℕ
euclid_div a b =
    if b == 0
    then err RuntimeError.division_by_zero
    else ok (
        if Int128.is_neg (Int128.mod_signed a b)
        then (if Int128.is_neg b
            then Int128.add (Int128.div_signed a b) 1
            else Int128.sub (Int128.div_signed a b) 1)
        else Int128.div_signed a b)

unfoldable pub euclid_mod : ℕ → ℕ → Run ℕ
euclid_mod a b =
    if b == 0
    then err RuntimeError.modulo_by_zero
    else ok (
        if Int128.is_neg (Int128.mod_signed a b)
        then Int128.add (Int128.mod_signed a b) (if Int128.is_neg b then Int128.neg b else b)
        else Int128.mod_signed a b)
