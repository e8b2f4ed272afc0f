-- ===== src/Lexer/Chars.antt =====
-- The characters of src/frontend/lexer.cpp, as numbers below 256: the tests of <cctype> in the C locale,
-- `isIdentStart`, `isIdentChar`, and the loops that pass characters of one kind.
use uasm.Base.{
  ℕ, ◌+◌, ◌-◌, ◌*◌, ◌^◌, Bool, false, ◌&&◌, ◌||◌, leb, ◌==◌, [], ◌∷◌, Text, if◌then◌else◌,
}

-- `std::isdigit`, `std::isalpha` and `std::isspace`.
unfoldable pub is_digit : ℕ → Bool
is_digit c = leb 48 c && leb c 57

unfoldable pub is_alpha : ℕ → Bool
is_alpha c = leb 65 c && leb c 90 || leb 97 c && leb c 122

unfoldable pub is_space : ℕ → Bool
is_space c = c == 32 || leb 9 c && leb c 13

unfoldable pub is_ident_start : ℕ → Bool
is_ident_start c = is_alpha c || c == 95

unfoldable pub is_ident_char : ℕ → Bool
is_ident_char c = is_alpha c || is_digit c || c == 95

abbrev pub is_newline : ℕ → Bool
is_newline c = c == 10

-- `i < n && std::isdigit(src[i])` at the start of a suffix.
unfoldable pub starts_digit : Text → Bool
starts_digit [] = false
starts_digit (c ∷ s) = is_digit c

-- `while (i < n && p(src[i])) ++i;`: the characters passed and those left.
unfoldable pub span : (ℕ → Bool) → Text → Text × Text
span p [] = ([], [])
span p (c ∷ s) = let (passed, rest) = span p s in if p c then (c ∷ passed, rest) else ([], c ∷ s)

-- `std::strtoll` in base 10 on digits with at most one sign before them, which ends at the limits of
-- `long long`; as the pattern of an `int64_t`.
unfoldable pub digits_value : ℕ → Text → ℕ
digits_value acc [] = acc
digits_value acc (c ∷ s) = digits_value (acc * 10 + (c - 48)) s

unfoldable pub strtoll : Bool → Text → ℕ
unfolding digits_value
strtoll negative digits =
    let n = digits_value 0 digits in
    if negative
    then (if leb (2 ^ 63) n then 2 ^ 63 else if n == 0 then 0 else 2 ^ 64 - n)
    else if leb (2 ^ 63) n
    then 2 ^ 63 - 1
    else n
