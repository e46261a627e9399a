-- ===== src/Text/Cut.antt =====
-- A text cut at a character: str.split(c), str.split(c, 1)[0] and str.partition(c).
use dub_titlerr.Prelude.{ℕ, Option, none, some, List, [], ◌∷◌, ◌==◌, if◌then◌else◌}
use dub_titlerr.Text.{Text}

-- t.split(c, 1)[0]
unfoldable pub before : ℕ → Text → Text
before c [] = []
before c (d ∷ t) = let rest = before c t in if d == c then [] else d ∷ rest

-- What stands behind the first c, if there is one.
unfoldable pub behind : ℕ → Text → Option Text
behind c [] = none
behind c (d ∷ t) = let rest = behind c t in if d == c then some t else rest

abbrev onto_first : ℕ → List Text → List Text
onto_first d [] = (d ∷ []) ∷ []
onto_first d (part ∷ parts) = (d ∷ part) ∷ parts

-- t.split(c)
unfoldable pub split_at : ℕ → Text → List Text
split_at c [] = [] ∷ []
split_at c (d ∷ t) = let rest = split_at c t in if d == c then [] ∷ rest else onto_first d rest
