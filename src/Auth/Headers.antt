-- ===== src/Auth/Headers.antt =====
-- review_auth.py: what is read from the headers of a request: a header by its name, a cookie, and
-- the names of hosts. `hostname` is urllib.parse.urlsplit(...).hostname: none if it raises
-- ValueError, [] for no host.
use dub_titlerr.Prelude.{
  ◌∷◌, ◌++◌, Bool, true, false, not, ◌&&◌, ◌||◌, Option, none, some, List, [], reverse, ◌==◌,
  if◌then◌else◌,
}
use dub_titlerr.Text.{Text, codes, same_text, strip, one_of}
use dub_titlerr.Text.Lower.{lower}
use dub_titlerr.Text.Cut.{before, behind, split_at}

-- The items of the headers, or none for what has none.
abbrev pub Headers : Type 0
Headers = Option (List (Text × Text))

unfoldable pub header_in : Text → List (Text × Text) → Text
unfolding lower same_text
header_in wanted [] = []
header_in wanted ((key, value) ∷ items) =
    let rest = header_in wanted items in if same_text (lower key) wanted then value else rest

unfoldable pub header : Headers → Text → Text
unfolding header_in lower
header none name = []
header (some items) name = header_in (lower name) items

-- value[1:-1] for a value in double quotes
abbrev pub unquoted : Text → Text
unquoted [] = []
unquoted (q ∷ []) = q ∷ []
unquoted (q ∷ c ∷ value) = elim (reverse (c ∷ value)) [
  | [] ↦ q ∷ c ∷ value
  | e ∷ inner ↦ if q == e && e == b'"' then reverse inner else q ∷ c ∷ value
]

abbrev named_part : Text → Text → Option Text
named_part name part = elim (behind b'=' part) [
  | none ↦ none
  | some value ↦
      if same_text (strip (before b'=' part)) name then some (unquoted (strip value)) else none
]

unfoldable pub cookie_in : Text → List Text → Text
unfolding before behind strip same_text
cookie_in name [] = []
cookie_in name (part ∷ parts) =
    let rest = cookie_in name parts in
    elim (named_part name part) [ none ↦ rest | some value ↦ value ]

-- _cookie
unfoldable pub cookie : Headers → Text → Text
unfolding header cookie_in split_at
cookie headers name = elim (header headers (codes "Cookie")) [
  | [] ↦ []
  | c ∷ t ↦ cookie_in name (split_at b';' (c ∷ t))
]

abbrev pub is_read_only : Text → Bool
is_read_only method = one_of (codes "GET" ∷ codes "HEAD" ∷ []) method

module _ (hostname : Text → Option Text) where
  -- _hostname
  abbrev pub host_of : Text → Text
  host_of [] = []
  host_of (c ∷ t) = elim (hostname (codes "//" ++ c ∷ t)) [ none ↦ [] | some host ↦ host ]

  abbrev or_text : Text → Text → Text
  or_text [] u = u
  or_text (c ∷ t) u = c ∷ t

  -- The host that this server is reached at.
  unfoldable pub expected_host : Headers → Text
  unfolding header before strip
  expected_host headers =
      or_text (host_of (strip (before b',' (header headers (codes "X-Forwarded-Host")))))
        (host_of (header headers (codes "Host")))

  abbrev pub foreign_origin : Headers → Text → Bool
  foreign_origin headers [] = false
  foreign_origin headers (c ∷ t) = elim (hostname (c ∷ t)) [
    | none ↦ true
    | some [] ↦ true
    | some (h ∷ host) ↦ not (same_text (h ∷ host) (expected_host headers))
  ]

  -- _csrf_refusal
  unfoldable pub csrf_refusal : Text → Headers → Bool
  unfolding header expected_host same_text one_of
  csrf_refusal method headers =
      not (is_read_only method)
      && (not (same_text (header headers (codes "X-DubTitlerr-Request")) (codes "1"))
          || foreign_origin headers (header headers (codes "Origin")))
