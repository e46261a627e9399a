-- ===== src/WatchQueue.antt =====
-- watch_queue.py: the shows that were watched, as directories of the library: `clean_title`, `fold`,
-- `_dir_index`, `resolve_dir`, `match_dirs` and `build`.
pub mod Matched
pub mod Queued
use dub_titlerr.Prelude.{
  ℕ, zero, suc, ◌+◌, ◌-◌, Bool, true, false, not, ◌&&◌, ◌||◌, Option, none, some, List, [], ◌∷◌,
  ◌++◌, length, drop, max, reverse, map, ltb, leb, ◌==◌, if◌then◌else◌,
}
use dub_titlerr.Text.{Text, codes, is_space, lstrip, strip, starts_with, same_text, one_of, text_le}
use dub_titlerr.Text.Digits.{is_digit}
use dub_titlerr.Text.Table.{find, put}
use dub_titlerr.Ordering.{sort_by}

-- The number of characters up to and with the first `}`.
unfoldable pub to_brace : Text → Option ℕ
to_brace [] = none
to_brace (c ∷ t) =
    let rest = to_brace t in
    if c == b'}' then some 1 else elim rest [ none ↦ none | some n ↦ some (suc n) ]

-- \(\d{4}\)
unfoldable pub is_year : Text → Bool
unfolding is_digit
is_year (p ∷ a ∷ b ∷ c ∷ d ∷ q ∷ t) =
    p == b'(' && is_digit a && is_digit b && is_digit c && is_digit d && q == b')'
is_year _ = false

-- The length of a suffix that stands here without the white space: a year, if years are to go, or
-- what is in braces.
unfoldable pub tag_length : Bool → Text → Option ℕ
unfolding is_year to_brace
tag_length years [] = none
tag_length years (c ∷ t) =
    if years && is_year (c ∷ t)
    then some 6
    else if c == b'{'
    then elim (to_brace t) [ none ↦ none | some n ↦ some (suc n) ]
    else none

-- re.sub of such suffixes by nothing; the number is of characters still to be left out.
unfoldable pub without_tags : Bool → ℕ → Text → Text
unfolding tag_length lstrip
without_tags years skip [] = []
without_tags years (suc skip) (c ∷ t) = without_tags years skip t
without_tags years zero (c ∷ t) =
    let spaces = length (c ∷ t) - length (lstrip (c ∷ t)) in
    elim (tag_length years (lstrip (c ∷ t))) [
      | none ↦ c ∷ without_tags years 0 t
      | some n ↦ without_tags years (spaces + n - 1) t
    ]

unfoldable pub clean_title : Text → Text
unfolding without_tags strip
clean_title t = strip (without_tags true 0 t)

-- _untag
unfoldable pub untagged : Text → Text
unfolding without_tags strip
untagged t = strip (without_tags false 0 t)

abbrev is_plain : ℕ → Bool
is_plain c = leb b'a' c && leb c b'z' || leb b'0' c && leb c b'9'

unfoldable pub plain : Text → Text
plain [] = []
plain (c ∷ t) = let rest = plain t in if is_plain c then c ∷ rest else rest

-- The digits in front of a `}`, one at least.
unfoldable pub id_digits : Text → Option Text
unfolding is_digit
id_digits [] = none
id_digits (c ∷ t) =
    let rest = id_digits t in
    if is_digit c
    then elim t [
      | [] ↦ none
      | d ∷ u ↦
          if d == b'}' then some (c ∷ []) else elim rest [ none ↦ none | some ds ↦ some (c ∷ ds) ]
    ]
    else none

-- _TVDB_RE.search
unfoldable pub tvdb_id : Text → Option Text
unfolding starts_with id_digits
tvdb_id [] = none
tvdb_id (c ∷ t) =
    let rest = tvdb_id t in
    let here = id_digits (drop 6 (c ∷ t)) in
    if starts_with (codes "{tvdb-") (c ∷ t)
    then elim here [ none ↦ rest | some ds ↦ some ds ]
    else rest

abbrev pub tier_key : Text × Option Text → Text
tier_key row = row.0

-- _unique: two directories of one key make it ambiguous
unfoldable pub unique : List (Text × Text) → List (Text × Option Text) → List (Text × Option Text)
unfolding find put
unique [] out = out
unique ((k, d) ∷ pairs) out = elim (find tier_key k out) [
  | none ↦ unique pairs (put tier_key (k, some d) out)
  | some row ↦ unique pairs (put tier_key (k, none) out)
]

-- index[tier].get(k), where an ambiguous key has nothing
abbrev pub in_tier : Text → List (Text × Option Text) → Option Text
in_tier k tier = elim (find tier_key k tier) [ none ↦ none | some row ↦ row.1 ]

unfoldable pub keyed_by : (Text → Text) → List Text → List (Text × Text)
keyed_by f [] = []
keyed_by f (d ∷ ds) = (f d, d) ∷ keyed_by f ds

unfoldable pub with_ids : List Text → List (Text × Text)
unfolding tvdb_id
with_ids [] = []
with_ids (d ∷ ds) =
    let rest = with_ids ds in elim (tvdb_id d) [ none ↦ rest | some i ↦ (i, d) ∷ rest ]

-- The directory with the id of a show.
abbrev pub by_id : List Text → Option Text → Option Text
by_id dirs none = none
by_id dirs (some i) = in_tier i (unique (with_ids dirs) [])

abbrev pub exactly : List Text → Text → Option Text
exactly dirs t = if one_of dirs t then some t else none

abbrev pub or_next : Option Text → Option Text → Option Text
or_next none next = next
or_next (some d) next = some d

-- Where two sources name a show, the later time counts.
unfoldable pub merged : List (Text × ℕ) → List (Text × ℕ) → List (Text × ℕ)
unfolding find put
merged [] out = out
merged ((t, ts) ∷ rest) out = merged rest (
    put (λ row. row.0)
      (t, max (elim (find (λ row. row.0) t out) [ none ↦ 0 | some row ↦ row.1 ]) ts) out)

-- The latest first, then by name.
unfoldable pub insert_hit : Text × ℕ → List (Text × ℕ) → List (Text × ℕ)
unfolding text_le
insert_hit p [] = p ∷ []
insert_hit p (q ∷ qs) =
    let rest = insert_hit p qs in
    if ltb q.1 p.1 || p.1 == q.1 && text_le p.0 q.0 then p ∷ q ∷ qs else q ∷ rest

unfoldable pub sort_hits : List (Text × ℕ) → List (Text × ℕ)
unfolding insert_hit
sort_hits [] = []
sort_hits (p ∷ ps) = insert_hit p (sort_hits ps)

abbrev pub names : List (Text × ℕ) → List Text
names [] = []
names (p ∷ ps) = p.0 ∷ names ps

unfoldable pub remove_first : Text → List Text → List Text
unfolding same_text
remove_first d [] = []
remove_first d (e ∷ es) = let rest = remove_first d es in if same_text e d then es else e ∷ rest

-- The loop of match_dirs: what resolves, and what does not.
unfoldable pub match_all :
    (Text → Option Text)
    → List (Text × ℕ)
    → List (Text × ℕ)
    → List Text
    → List (Text × ℕ) × List Text
unfolding merged
match_all resolve [] hits misses = (hits, misses)
match_all resolve ((t, ts) ∷ titles) hits misses = elim (resolve t) [
  | none ↦ match_all resolve titles hits (misses ++ t ∷ [])
  | some d ↦ match_all resolve titles (merged ((d, ts) ∷ []) hits) misses
]

unfoldable pub pin_all :
    (Text → Option Text) → List Text → List Text → List Text → List Text × List Text
unfolding remove_first
pin_all resolve [] order bad = (order, bad)
pin_all resolve (p ∷ pins) order bad = elim (resolve p) [
  | none ↦ pin_all resolve pins order (bad ++ p ∷ [])
  | some d ↦ pin_all resolve pins (d ∷ remove_first d order) bad
]

-- set(texts), in some order
unfoldable pub distinct : List Text → List Text
unfolding one_of
distinct [] = []
distinct (t ∷ ts) = let rest = distinct ts in if one_of rest t then rest else t ∷ rest

-- `casefold` is str.casefold.
module _ (casefold : Text → Text) where
  unfoldable pub fold : Text → Text
  unfolding plain clean_title
  fold t = plain (casefold (clean_title t))

  unfoldable pub resolve_dir : List Text → Text → Option Text
  unfolding unique keyed_by with_ids one_of untagged fold tvdb_id
  resolve_dir dirs t = or_next (by_id dirs (tvdb_id t)) (
      or_next (exactly dirs t) (
        or_next (exactly dirs (untagged t)) (
          or_next (in_tier (untagged t) (unique (keyed_by untagged dirs) [])) (
            or_next (in_tier (clean_title (untagged t)) (unique (keyed_by clean_title dirs) []))
              (in_tier (fold (untagged t)) (unique (keyed_by fold dirs) []))))))

  unfoldable pub match_dirs : List (Text × ℕ) → List Text → List Text × List Text
  unfolding resolve_dir match_all sort_hits sort_by text_le
  match_dirs titles dirs =
      let matched = match_all (resolve_dir dirs) titles [] [] in
      (names (sort_hits matched.0), sort_by text_le matched.1)

  -- None of a source, or of the library, is what cannot be read. The result is the order, the titles
  -- that are not matched, and the pins that name no directory.
  unfoldable pub build :
      Option (List (Text × ℕ))
      → Option (List (Text × ℕ))
      → Option (List Text)
      → List Text
      → Option (List Text × (List Text × List Text))
  unfolding merged match_dirs pin_all distinct
  build none plex library pins = none
  build (some watched) none library pins = none
  build (some []) (some []) library pins = none
  build (some watched) (some plex) none pins = none
  build (some watched) (some plex) (some dirs) pins =
      let matched = match_dirs (merged plex watched) dirs in
      let pinned = pin_all (resolve_dir dirs) (reverse pins) matched.0 [] in
      some (pinned.0, (matched.1, sort_by text_le (distinct pinned.1)))
