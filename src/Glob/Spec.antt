-- ===== src/Glob/Spec.antt =====
-- Which names a pattern matches, without positions to go back to.
use uasm.Base.{Bool, true, false, ◌&&◌, ◌||◌, [], ◌∷◌, ◌==◌, if◌then◌else◌, Text}
use uasm.Glob.Defs.{star}

-- A star stands for any characters, every other character for itself.
unfoldable pub matches : Text → Text → Bool
matches [] [] = true
matches [] (c ∷ ns) = false
matches (x ∷ ps) [] = (x == star) && matches ps []
matches (x ∷ ps) (c ∷ ns) =
    if x == star then matches ps (c ∷ ns) || matches (x ∷ ps) ns else (x == c) && matches ps ns
