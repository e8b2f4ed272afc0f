-- ===== src/Serializer/Writer.antt =====
-- The class `Writer` of src/format/serializer.cpp and the constants of serializer.h.
-- Each function returns the bytes that it appends to `buf_`. A loop over the four or eight bytes
-- of a word is written out, and every `static_cast` to a shorter type is a remainder.
use uasm.Base.{ℕ, ◌/◌, ◌%◌, ◌^◌, List, [], ◌∷◌, ◌++◌, length, Text, codes}

-- `kMagic`, `kLibMagic`, `kUoVersionSentinel`, `kUoVersion`.
abbrev pub magic : Text
magic = codes "UASM!0"

abbrev pub lib_magic : Text
lib_magic = codes "UASM!1"

abbrev pub version_sentinel : ℕ
version_sentinel = 0xFFFF_FFFF

abbrev pub uo_version : ℕ
uo_version = 1

unfoldable pub u8 : ℕ → List ℕ
u8 v = v % 2 ^ 8 ∷ []

unfoldable pub u16 : ℕ → List ℕ
u16 v = v % 2 ^ 8 ∷ v / 2 ^ 8 % 2 ^ 8 ∷ []

unfoldable pub u32 : ℕ → List ℕ
u32 v = v % 2 ^ 8 ∷ v / 2 ^ 8 % 2 ^ 8 ∷ v / 2 ^ 16 % 2 ^ 8 ∷ v / 2 ^ 24 % 2 ^ 8 ∷ []

-- The argument is the 64-bit pattern of the `int64_t`.
unfoldable pub i64 : ℕ → List ℕ
i64 v =
    v % 2 ^ 8
    ∷ v / 2 ^ 8 % 2 ^ 8
    ∷ v / 2 ^ 16 % 2 ^ 8
    ∷ v / 2 ^ 24 % 2 ^ 8
    ∷ v / 2 ^ 32 % 2 ^ 8
    ∷ v / 2 ^ 40 % 2 ^ 8
    ∷ v / 2 ^ 48 % 2 ^ 8
    ∷ v / 2 ^ 56 % 2 ^ 8
    ∷ []

-- The argument is the 64-bit pattern of the `double`.
unfoldable pub f64 : ℕ → List ℕ
unfolding i64
f64 v = i64 v

unfoldable pub str : Text → List ℕ
str s = u32 (length s % 2 ^ 32) ++ s
