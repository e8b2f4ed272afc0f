-- ===== src/Serializer/Reader.antt =====
-- The class `Reader` of src/format/serializer.cpp.
-- A reader is the list of the bytes from `data_ + pos_` on; `need(n)` fails where fewer than n are
-- left. The bytes of a word take disjoint bits, so the `|` that joins them is a sum.
use uasm.Base.{
  ℕ, ◌+◌, ◌*◌, ◌^◌, List, [], ◌∷◌, length, take, drop, leb, if◌then◌else◌, Text, Result, ok, err,
}

-- The messages of `SerializeError`.
pub data SerializeError : Type 0 where
  unexpected_end corrupt_operand_kind cannot_open library_archive bad_magic : SerializeError
  newer_version : ℕ → SerializeError

abbrev pub Read : Type 0 → Type 0
Read A = List ℕ → Result SerializeError (A × List ℕ)

infixl 5 ◌>>=◌
unfoldable pub ◌>>=◌ : {A B : Type 0} → Read A → (A → Read B) → Read B
◌>>=◌ m f rest = elim (m rest) [ err e ↦ err e | ok (a, rest') ↦ f a rest' ]

unfoldable pub pure : {A : Type 0} → A → Read A
pure a rest = ok (a, rest)

unfoldable pub u8 : Read ℕ
u8 [] = err SerializeError.unexpected_end
u8 (a ∷ rest) = ok (a, rest)

unfoldable pub u16 : Read ℕ
u16 (a ∷ b ∷ rest) = ok (a + b * 2 ^ 8, rest)
u16 _ = err SerializeError.unexpected_end

unfoldable pub u32 : Read ℕ
u32 (a ∷ b ∷ c ∷ d ∷ rest) = ok (a + b * 2 ^ 8 + c * 2 ^ 16 + d * 2 ^ 24, rest)
u32 _ = err SerializeError.unexpected_end

-- The 64-bit pattern of the `int64_t`.
unfoldable pub i64 : Read ℕ
i64 (a ∷ b ∷ c ∷ d ∷ e ∷ f ∷ g ∷ h ∷ rest) = ok (
  a + b * 2 ^ 8 + c * 2 ^ 16 + d * 2 ^ 24 + e * 2 ^ 32 + f * 2 ^ 40 + g * 2 ^ 48 + h * 2 ^ 56,
  rest,
)
i64 _ = err SerializeError.unexpected_end

unfoldable pub f64 : Read ℕ
unfolding i64
f64 = i64

-- `need(len)`, then the `len` bytes.
unfoldable pub chars : ℕ → Read Text
chars len rest =
    if leb len (length rest)
    then ok (take len rest, drop len rest)
    else err SerializeError.unexpected_end

unfoldable pub str : Read Text
unfolding u32 chars
str = do len ← u32; chars len
