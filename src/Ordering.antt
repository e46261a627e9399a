-- ===== src/Ordering.antt =====
-- ordering.py: the order in which the files of a show are processed. A path is a text.
pub mod Sorted
use dub_titlerr.Prelude.{
  ℕ, zero, suc, Bool, true, false, not, ◌&&◌, ◌||◌, Option, none, some, List, [], ◌∷◌, ◌++◌, ltb,
  leb, ◌==◌, if◌then◌else◌,
}
use dub_titlerr.Prelude.Int.{ℤ, pos, negsuc}
use dub_titlerr.Text.{Text, text_le, decimal_text}
use dub_titlerr.Text.Decimal.{read_digits}

-- NO_SEASON
abbrev pub no_season : ℕ
no_season = 1000000

abbrev is_letter : ℕ → ℕ → ℕ → Bool
is_letter upper lower c = c == upper || c == lower

-- [Ee](\d+) at the front
unfoldable pub episode_at : Text → Option ℕ
unfolding read_digits
episode_at [] = none
episode_at (c ∷ t) =
    if is_letter b'E' b'e' c
    then elim (read_digits none t) [ none ↦ none | some (e, _) ↦ some e ]
    else none

-- [Ss](\d+)[Ee](\d+) at the front
unfoldable pub tag_at : Text → Option (ℕ × ℕ)
unfolding read_digits episode_at
tag_at [] = none
tag_at (c ∷ t) =
    if is_letter b'S' b's' c
    then elim (read_digits none t) [
      | none ↦ none
      | some (s, rest) ↦ elim (episode_at rest) [ none ↦ none | some e ↦ some (s, e) ]
    ]
    else none

-- _SE.search
unfoldable pub find_tag : Text → Option (ℕ × ℕ)
unfolding tag_at
find_tag [] = none
find_tag (c ∷ t) =
    let later = find_tag t in elim (tag_at (c ∷ t)) [ none ↦ later | some tag ↦ some tag ]

-- os.path.basename: what stands behind the last slash, with the name so far
unfoldable pub basename_from : Text → Text → Text
basename_from name [] = name
basename_from name (c ∷ t) = basename_from (if c == b'/' then [] else name ++ c ∷ []) t

unfoldable pub basename : Text → Text
unfolding basename_from
basename path = basename_from [] path

unfoldable pub season_ep : Text → ℕ × ℕ
unfolding find_tag basename
season_ep path = elim (find_tag (basename path)) [ none ↦ (no_season, 0) | some tag ↦ tag ]

-- f"{n:02d}"
unfoldable pub two_digits : ℕ → Text
unfolding decimal_text
two_digits n = if ltb n 10 then b'0' ∷ decimal_text n else decimal_text n

unfoldable pub episode_key : Text → Option Text
unfolding season_ep two_digits
episode_key path =
    if (season_ep path).0 == no_season
    then none
    else some (b'S' ∷ two_digits ((season_ep path).0) ++ (b'E' ∷ two_digits ((season_ep path).1)))

-- `s != NO_SEASON and s >= start`
abbrev pub is_ahead : ℕ → ℕ → Bool
is_ahead start s = not (s == no_season) && leb start s

-- The key of a path: its tier, its season and episode, and the path.
pub record Key : Type 0 where
  pub tier : ℕ
  pub season : ℕ
  pub episode : ℕ
  pub path : Text

unfoldable pub key : ℕ → Text → Key
unfolding season_ep
key start p = record {
  tier = if is_ahead start ((season_ep p).0) then 0 else 1;
  season = (season_ep p).0;
  episode = (season_ep p).1;
  path = p;
}

-- The order of two tuples.
unfoldable pub key_le : Key → Key → Bool
unfolding text_le
key_le a b =
    ltb a.tier b.tier
    || a.tier == b.tier
      && (ltb a.season b.season
          || a.season == b.season
            && (ltb a.episode b.episode || a.episode == b.episode && text_le a.path b.path))

-- sorted(…): `le` is the order of the keys
unfoldable pub insert_by : (Text → Text → Bool) → Text → List Text → List Text
insert_by le p [] = p ∷ []
insert_by le p (q ∷ qs) = let rest = insert_by le p qs in if le p q then p ∷ q ∷ qs else q ∷ rest

unfoldable pub sort_by : (Text → Text → Bool) → List Text → List Text
unfolding insert_by
sort_by le [] = []
sort_by le (p ∷ ps) = insert_by le p (sort_by le ps)

unfoldable pub order_files : List Text → ℤ → List Text
unfolding sort_by key_le key
order_files files (pos (suc n)) = sort_by (λ p q. key_le (key (suc n) p) (key (suc n) q)) files
order_files files _ = sort_by text_le files
