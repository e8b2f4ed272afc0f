-- ===== src/Glob/Tests.antt =====
-- Patterns of src/util/glob.cpp on a few names.
use uasm.Base.{◌≡◌, refl, List, [], ◌∷◌, some, Text, text_eq, codes, ◌&&◌}
use uasm.Glob.Defs.{
  match_segment, match_loop, match_round, match_retry, only_stars, ends_with_uasm, base_name,
  base_name_from,
}
use uasm.Glob.Spec.{matches}
use uasm.Glob.Correct.{match_segment-matches}
use uasm.Glob.Expand.{selects, select, text_less, insert, sort, unique, finish}
use uasm.Glob.Chosen.{among, wanted, finish-wanted}

match_segment-matches_example :
    match_segment (codes "a*b*.uasm") (codes "aab.b.uasm")
    ≡ some (matches (codes "a*b*.uasm") (codes "aab.b.uasm"))
match_segment-matches_example = match_segment-matches (codes "a*b*.uasm") (codes "aab.b.uasm")

abbrev candidates : List Text
candidates = codes "x/b.uasm" ∷ codes "x/a.uasm" ∷ codes "x/b.uasm" ∷ codes "x/b.txt" ∷ []

abbrev results : List Text
results = codes "x/a.uasm" ∷ codes "x/b.uasm" ∷ []

finish-wanted_example :
    among (codes "x/b.uasm") results
    ≡ (among (codes "x/b.uasm") candidates && wanted (codes "*.uasm") (codes "x/b.uasm"))
unfolding finish select selects match_segment match_loop match_round match_retry only_stars
    ends_with_uasm base_name base_name_from text_eq text_less insert sort unique
finish-wanted_example = finish-wanted (codes "*.uasm") candidates results refl (codes "x/b.uasm")
