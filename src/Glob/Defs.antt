-- ===== src/Glob/Defs.antt =====
-- `matchSegment`, `hasRecursiveWildcard`, `endsWithUasm` and `baseName` of src/util/glob.cpp.
-- A position in a string is the suffix that starts there.
use uasm.Base.{
  ℕ, zero, suc, ◌+◌, ◌-◌, ◌*◌, Bool, true, false, ◌&&◌, [], ◌∷◌, length, drop, Option, none, some,
  leb, ◌==◌, if◌then◌else◌, Text, codes, text_eq,
}

-- '*'.
abbrev pub star : ℕ
star = 42

-- `starP + 1` and `starN`, where a star was met.
abbrev pub Mark : Type 0
Mark = Option (Text × Text)

-- `while (p < pattern.size() && pattern[p] == '*') ++p; return p == pattern.size();`.
unfoldable pub only_stars : Text → Bool
only_stars [] = true
only_stars (x ∷ ps) = if x == star then only_stars ps else false

-- What is left to match after the round: nothing where the loop returns false.
unfoldable pub match_retry : Mark → Option (Text × Text × Mark)
match_retry none = none
match_retry (some (sp, [])) = none
match_retry (some (sp, c ∷ sn)) = some (sp, sn, some (sp, sn))

unfoldable pub match_round : Text → ℕ → Text → Mark → Option (Text × Text × Mark)
match_round [] c ns mark = match_retry mark
match_round (x ∷ ps) c ns mark =
    if x == star
    then some (ps, c ∷ ns, some (ps, c ∷ ns))
    else if x == c
    then some (ps, ns, mark)
    else match_retry mark

-- The loop over the name, in at most `rounds` rounds.
unfoldable pub match_loop : ℕ → Text → Text → Mark → Option Bool
match_loop rounds ps [] mark = some (only_stars ps)
match_loop zero ps (c ∷ ns) mark = none
match_loop (suc rounds) ps (c ∷ ns) mark = elim (match_round ps c ns mark) [
  | none ↦ some false
  | some (ps', ns', mark') ↦ match_loop rounds ps' ns' mark'
]

unfoldable pub match_segment : Text → Text → Option Bool
match_segment pattern name = match_loop ((length name + 2) * (length pattern + 1)) pattern name none

-- `pattern.find("**") != npos`.
unfoldable pub has_recursive_wildcard : Text → Bool
has_recursive_wildcard [] = false
has_recursive_wildcard (x ∷ []) = false
has_recursive_wildcard (x ∷ y ∷ rest) =
    if (x == star) && (y == star) then true else has_recursive_wildcard (y ∷ rest)

unfoldable pub ends_with_uasm : Text → Bool
ends_with_uasm path = leb 5 (length path) && text_eq (drop (length path - 5) path) (codes ".uasm")

-- What stands behind the last '/'.
unfoldable pub base_name_from : Text → Text → Text
base_name_from name [] = name
base_name_from name (c ∷ rest) =
    if c == 47 then base_name_from rest rest else base_name_from name rest

unfoldable pub base_name : Text → Text
base_name path = base_name_from path path
