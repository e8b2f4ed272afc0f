-- ===== src/Types.antt =====
-- include/uasm/types.h and src/core/types.cpp: the value types, their names, sizes and tags.
-- An enum value may be read from a file by `static_cast<Type::Value>`, so a tag past the last
-- enumerator is a value too: `other`.
pub mod Tags
use uasm.Base.{
  ℕ, Bool, true, false, Option, none, some, List, [], ◌∷◌, ◌==◌, if◌then◌else◌, Text, codes,
  text_eq,
}

pub data ValueType : Type 0 where
  i8 u8 i16 u16 i32 u32 i64 u64 i128 u128 f32 f64 void ptr v128 v256 v512 : ValueType
  other : ℕ → ValueType

-- The enumerator's number, as `static_cast<uint8_t>(type)` reads it.
unfoldable pub type_tag : ValueType → ℕ
type_tag i8 = 0
type_tag u8 = 1
type_tag i16 = 2
type_tag u16 = 3
type_tag i32 = 4
type_tag u32 = 5
type_tag i64 = 6
type_tag u64 = 7
type_tag i128 = 8
type_tag u128 = 9
type_tag f32 = 10
type_tag f64 = 11
type_tag void = 12
type_tag ptr = 13
type_tag v128 = 14
type_tag v256 = 15
type_tag v512 = 16
type_tag (other n) = n

-- `static_cast<Type::Value>(tag)`.
unfoldable pub type_of_tag : ℕ → ValueType
type_of_tag n =
    if n == 0
    then i8
    else if n == 1
    then u8
    else if n == 2
    then i16
    else if n == 3
    then u16
    else if n == 4
    then i32
    else if n == 5
    then u32
    else if n == 6
    then i64
    else if n == 7
    then u64
    else if n == 8
    then i128
    else if n == 9
    then u128
    else if n == 10
    then f32
    else if n == 11
    then f64
    else if n == 12
    then void
    else if n == 13
    then ptr
    else if n == 14
    then v128
    else if n == 15
    then v256
    else if n == 16
    then v512
    else other n

unfoldable pub size_of_type : ValueType → ℕ
size_of_type i8 = 1
size_of_type u8 = 1
size_of_type i16 = 2
size_of_type u16 = 2
size_of_type i32 = 4
size_of_type u32 = 4
size_of_type i64 = 8
size_of_type u64 = 8
size_of_type i128 = 16
size_of_type u128 = 16
size_of_type f32 = 4
size_of_type f64 = 8
size_of_type void = 0
size_of_type ptr = 8
size_of_type v128 = 16
size_of_type v256 = 32
size_of_type v512 = 64
size_of_type (other n) = 0

-- `kTypeNames`, with the enumerator that each name stands for.
abbrev type_names : List (Text × ValueType)
type_names =
    (codes "i8", i8)
    ∷ (codes "u8", u8)
    ∷ (codes "i16", i16)
    ∷ (codes "u16", u16)
    ∷ (codes "i32", i32)
    ∷ (codes "u32", u32)
    ∷ (codes "i64", i64)
    ∷ (codes "u64", u64)
    ∷ (codes "i128", i128)
    ∷ (codes "u128", u128)
    ∷ (codes "f32", f32)
    ∷ (codes "f64", f64)
    ∷ (codes "void", void)
    ∷ (codes "ptr", ptr)
    ∷ (codes "v128", v128)
    ∷ (codes "v256", v256)
    ∷ (codes "v512", v512)
    ∷ []

-- The loop of `typeFromName` over the names that are left.
type_from_names : List (Text × ValueType) → Text → Option ValueType
type_from_names [] name = none
type_from_names ((n, t) ∷ rest) name = if text_eq name n then some t else type_from_names rest name

unfoldable pub type_from_name : Text → Option ValueType
unfolding type_from_names
type_from_name name = type_from_names type_names name

-- `typeName`; past the table the source reads out of bounds, which is `none`.
unfoldable pub type_name : ValueType → Option Text
type_name i8 = some (codes "i8")
type_name u8 = some (codes "u8")
type_name i16 = some (codes "i16")
type_name u16 = some (codes "u16")
type_name i32 = some (codes "i32")
type_name u32 = some (codes "u32")
type_name i64 = some (codes "i64")
type_name u64 = some (codes "u64")
type_name i128 = some (codes "i128")
type_name u128 = some (codes "u128")
type_name f32 = some (codes "f32")
type_name f64 = some (codes "f64")
type_name void = some (codes "void")
type_name ptr = some (codes "ptr")
type_name v128 = some (codes "v128")
type_name v256 = some (codes "v256")
type_name v512 = some (codes "v512")
type_name (other n) = none

unfoldable pub is_vector_type : ValueType → Bool
is_vector_type v128 = true
is_vector_type v256 = true
is_vector_type v512 = true
is_vector_type _ = false

-- `type == Type::Void`.
abbrev pub is_void : ValueType → Bool
is_void void = true
is_void _ = false

unfoldable pub vector_bytes : ValueType → ℕ
vector_bytes v128 = 16
vector_bytes v256 = 32
vector_bytes v512 = 64
vector_bytes _ = 0

-- The helper `isFloatType` of value.cpp, interpreter.cpp and encoder.cpp.
unfoldable pub is_float_type : ValueType → Bool
is_float_type f32 = true
is_float_type f64 = true
is_float_type _ = false

-- A value of the enum: one of its enumerators.
abbrev pub IsEnumerator : ValueType → Type 0
IsEnumerator (other n) = ⊥
IsEnumerator _ = Unit
