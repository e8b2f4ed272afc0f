-- ===== src/Glob/Expand.antt =====
-- `expandGlob` of src/util/glob.cpp. The three functions of src/util/glob_platform.h, which ask the
-- operating system for directories, are a parameter.
use uasm.Base.{
  ℕ, ◌+◌, Bool, true, false, not, ◌&&◌, List, [], ◌∷◌, length, drop, take, Option, none, some, ltb,
  ◌==◌, if◌then◌else◌, Text, codes, text_eq, Result, ok, err,
}
use uasm.Glob.Defs.{star, match_segment, has_recursive_wildcard, ends_with_uasm, base_name}

-- What the code takes from the operating system.
pub record Directories : Type 0 where
  pub exists : Text → Bool
  pub files_in : Text → List Text
  pub files_below : Text → List Text

pub data GlobError : Type 0 where
  no_directory no_match : GlobError

-- `pattern.find("**")`, where there is one, and `pattern.find_last_of('/')`.
unfoldable pub find_stars : Text → ℕ
find_stars [] = 0
find_stars (x ∷ []) = 0
find_stars (x ∷ y ∷ rest) =
    let behind = find_stars (y ∷ rest) in if (x == star) && (y == star) then 0 else behind + 1

unfoldable pub last_slash : Text → Option ℕ
last_slash [] = none
last_slash (c ∷ rest) = elim (last_slash rest) [
  | some i ↦ some (i + 1)
  | none ↦ if c == 47 then some 0 else none
]

unfoldable pub has_star : Text → Bool
has_star [] = false
has_star (c ∷ rest) = if c == star then true else has_star rest

-- The directory of a path, with what stands for an empty one, and what follows its last slash.
unfoldable pub directory_of : Text → Text → Text
directory_of path empty = elim (last_slash path) [
  | none ↦ codes "."
  | some i ↦ if i == 0 then empty else take i path
]

unfoldable pub behind_slash : Text → Text → Text
behind_slash path pattern = elim (last_slash path) [
  | none ↦ pattern
  | some i ↦ drop (i + 1) pattern
]

-- Every "**" becomes one star.
unfoldable pub single_stars : Text → Text
single_stars [] = []
single_stars (x ∷ []) = x ∷ []
single_stars (x ∷ y ∷ rest) =
    let short = single_stars rest in
    let long = single_stars (y ∷ rest) in
    if (x == star) && (y == star) then star ∷ short else x ∷ long

-- The loop over the candidates. The matcher always answers.
unfoldable pub selects : Text → Text → Bool
selects name_pattern path =
    if ends_with_uasm path
    then elim (match_segment name_pattern (base_name path)) [ none ↦ false | some b ↦ b ]
    else false

unfoldable pub select : Text → List Text → List Text
select name_pattern [] = []
select name_pattern (path ∷ rest) =
    let others = select name_pattern rest in
    if selects name_pattern path then path ∷ others else others

-- `std::sort` and `std::unique`: the order of the bytes, as `std::string` compares them.
unfoldable pub text_less : Text → Text → Bool
text_less [] [] = false
text_less [] (y ∷ ys) = true
text_less (x ∷ xs) [] = false
text_less (x ∷ xs) (y ∷ ys) = if x == y then text_less xs ys else ltb x y

unfoldable pub insert : Text → List Text → List Text
insert path [] = path ∷ []
insert path (p ∷ rest) =
    let behind = insert path rest in if text_less p path then p ∷ behind else path ∷ p ∷ rest

unfoldable pub sort : List Text → List Text
sort [] = []
sort (path ∷ rest) = insert path (sort rest)

unfoldable pub unique : List Text → List Text
unique [] = []
unique (p ∷ []) = p ∷ []
unique (p ∷ q ∷ rest) = let others = unique (q ∷ rest) in if text_eq p q then others else p ∷ others

unfoldable pub finish : Text → List Text → Result GlobError (List Text)
finish name_pattern candidates =
    let results = select name_pattern candidates in
    if length results == 0 then err GlobError.no_match else ok (unique (sort results))

unfoldable pub expand_glob : Directories → Text → Result GlobError (List Text)
expand_glob dirs pattern =
    if not (has_star pattern)
    then ok (pattern ∷ [])
    else if has_recursive_wildcard pattern
    then (let before = take (find_stars pattern) pattern in
        let root = directory_of before (codes ".") in
        if dirs.exists root
        then finish (single_stars (behind_slash before pattern)) (dirs.files_below root)
        else err GlobError.no_directory)
    else (let dir = directory_of pattern (codes "/") in
        if dirs.exists dir
        then finish (behind_slash pattern pattern) (dirs.files_in dir)
        else err GlobError.no_directory)
