-- ===== src/Types/Tags.antt =====
-- Tags and names of the value types.
use uasm.Base.{◌<◌, ◌≡◌, refl, arith}
use uasm.Types.{ValueType, i8, other, type_tag, type_of_tag, IsEnumerator}

pub type_of_tag-type_tag : (t : ValueType) → IsEnumerator t → type_of_tag (type_tag t) ≡ t
unfolding type_of_tag type_tag
type_of_tag-type_tag (other n) h = absurd h
type_of_tag-type_tag i8 h = refl
type_of_tag-type_tag _ h = refl

pub type_tag-lt : (t : ValueType) → IsEnumerator t → type_tag t < 17
unfolding type_tag
type_tag-lt (other n) h = absurd h
type_tag-lt i8 h = omega arith
type_tag-lt _ h = omega arith
