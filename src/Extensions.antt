-- ===== src/Extensions.antt =====
-- include/uasm/extensions.h and src/core/extensions.cpp: the instruction set extensions.
pub mod Tests
use uasm.Base.{
  ℕ, ◌-◌, ◌^◌, ◌≡◌, refl, Bool, not, Option, none, some, List, [], ◌∷◌, ◌==◌, if◌then◌else◌, Text,
  codes, text_eq,
}
use Prim.Native.Nat.{bit_and, bit_or}

-- `Extension::Value`, without its count of enumerators.
pub data Extension : Type 0 where
  core simd128 simd256 simd512 atomic thread coroutine : Extension
  exception float16 decimal fixed bigint crypto crc : Extension
  bitfield dsp matrix gpu random memmodel reflect : Extension

-- The number of an enumerator.
unfoldable pub extension_number : Extension → ℕ
extension_number core = 0
extension_number simd128 = 1
extension_number simd256 = 2
extension_number simd512 = 3
extension_number atomic = 4
extension_number thread = 5
extension_number coroutine = 6
extension_number exception = 7
extension_number float16 = 8
extension_number decimal = 9
extension_number fixed = 10
extension_number bigint = 11
extension_number crypto = 12
extension_number crc = 13
extension_number bitfield = 14
extension_number dsp = 15
extension_number matrix = 16
extension_number gpu = 17
extension_number random = 18
extension_number memmodel = 19
extension_number reflect = 20

-- `kExtensionNames`, at the enumerator's place.
unfoldable pub extension_name : Extension → Text
extension_name core = codes "core"
extension_name simd128 = codes "simd128"
extension_name simd256 = codes "simd256"
extension_name simd512 = codes "simd512"
extension_name atomic = codes "atomic"
extension_name thread = codes "thread"
extension_name coroutine = codes "coroutine"
extension_name exception = codes "exception"
extension_name float16 = codes "float16"
extension_name decimal = codes "decimal"
extension_name fixed = codes "fixed"
extension_name bigint = codes "bigint"
extension_name crypto = codes "crypto"
extension_name crc = codes "crc"
extension_name bitfield = codes "bitfield"
extension_name dsp = codes "dsp"
extension_name matrix = codes "matrix"
extension_name gpu = codes "gpu"
extension_name random = codes "random"
extension_name memmodel = codes "memmodel"
extension_name reflect = codes "reflect"

abbrev pub all_extensions : List Extension
all_extensions =
    core ∷ simd128 ∷ simd256 ∷ simd512 ∷ atomic ∷ thread ∷ coroutine ∷ exception ∷ float16 ∷ decimal
    ∷ fixed ∷ bigint ∷ crypto ∷ crc ∷ bitfield ∷ dsp ∷ matrix ∷ gpu ∷ random ∷ memmodel ∷ reflect
    ∷ []

-- The loop of `extensionFromName` over the enumerators that are left.
unfoldable pub extension_among : List Extension → Text → Option Extension
extension_among [] name = none
extension_among (e ∷ rest) name =
    if text_eq name (extension_name e) then some e else extension_among rest name

unfoldable pub extension_from_name : Text → Option Extension
unfolding extension_among
extension_from_name name = extension_among all_extensions name

-- `bits_` of `ExtensionSet`, an `unsigned long` of 64 bits.
pub record ExtensionSet : Type 0 where
  pub bits : ℕ

abbrev pub mask : Extension → ℕ
mask e = 2 ^ extension_number e

abbrev pub empty_set : ExtensionSet
empty_set = record { bits = 1 }

unfoldable pub enable : ExtensionSet → Extension → ExtensionSet
enable s e = record { bits = bit_or s.bits (mask e) }

-- `bits_ &= ~mask(e)`, and Core stays.
unfoldable pub disable : ExtensionSet → Extension → ExtensionSet
disable s core = s
disable s e = record { bits = bit_and s.bits (2 ^ 64 - 1 - mask e) }

unfoldable pub has : ExtensionSet → Extension → Bool
has s e = not (bit_and s.bits (mask e) == 0)

-- `~0u` is an `unsigned int`, of 32 bits.
unfoldable pub enable_all : ExtensionSet → ExtensionSet
enable_all s = record { bits = 2 ^ 32 - 1 }

unfoldable pub set_bits : ExtensionSet → ℕ → ExtensionSet
set_bits s b = record { bits = bit_or b 1 }

-- For every extension, `extensionFromName` of its name finds that extension.
pub extension_from_name-extension_name :
    (e : Extension) → extension_from_name (extension_name e) ≡ some e
unfolding extension_from_name extension_among extension_name text_eq
extension_from_name-extension_name core = refl
extension_from_name-extension_name simd128 = refl
extension_from_name-extension_name simd256 = refl
extension_from_name-extension_name simd512 = refl
extension_from_name-extension_name atomic = refl
extension_from_name-extension_name thread = refl
extension_from_name-extension_name coroutine = refl
extension_from_name-extension_name exception = refl
extension_from_name-extension_name float16 = refl
extension_from_name-extension_name decimal = refl
extension_from_name-extension_name fixed = refl
extension_from_name-extension_name bigint = refl
extension_from_name-extension_name crypto = refl
extension_from_name-extension_name crc = refl
extension_from_name-extension_name bitfield = refl
extension_from_name-extension_name dsp = refl
extension_from_name-extension_name matrix = refl
extension_from_name-extension_name gpu = refl
extension_from_name-extension_name random = refl
extension_from_name-extension_name memmodel = refl
extension_from_name-extension_name reflect = refl
