-- ===== src/Reflow/Glue.antt =====
-- reflow.py: `_text`, which joins word records back into a line, and `_dur` and `_fits`.
pub mod Kept
use dub_titlerr.Prelude.{
  ℕ, ◌+◌, ◌-◌, Bool, true, false, ◌&&◌, ◌||◌, Option, none, some, List, [], ◌∷◌, ◌++◌, reverse,
  length, ltb, leb, ◌==◌, if◌then◌else◌,
}
use dub_titlerr.Text.{Text, strip, last?, has_outside, join}
use dub_titlerr.Text.Digits.{is_digit}
use dub_titlerr.Reflow.{Word, max_chars, max_dur}

-- "-—–"
abbrev dashes : Text
dashes = 0x2d ∷ 0x2014 ∷ 0x2013 ∷ []

starts_with_dash : Text → Bool
starts_with_dash [] = false
starts_with_dash (c ∷ t) = c == 0x2d

ends_with_dash : Text → Bool
unfolding last?
ends_with_dash t = elim (last? t) [ none ↦ false | some c ↦ c == 0x2d ]

-- t[:1] in ",." and t[1:2].isdigit()
is_fraction : Text → Bool
unfolding is_digit
is_fraction (p ∷ d ∷ t) = (p == 0x2c || p == 0x2e) && is_digit d
is_fraction _ = false

ends_with_digit : Text → Bool
unfolding last? is_digit
ends_with_digit t = elim (last? t) [ none ↦ false | some c ↦ is_digit c ]

-- Whether `t` continues the piece `prev` before it.
unfoldable pub welds : Text → Text → Bool
unfolding starts_with_dash ends_with_dash is_fraction ends_with_digit has_outside
welds prev t =
    starts_with_dash t && has_outside dashes t
    || ends_with_dash prev && has_outside dashes prev
    || is_fraction t && ends_with_digit prev

-- `out` with the next stripped token; its last piece stands first.
unfoldable pub add_token : List Text → Text → List Text
unfolding welds
add_token out [] = out
add_token [] (c ∷ t) = (c ∷ t) ∷ []
add_token (prev ∷ out) (c ∷ t) =
    if welds prev (c ∷ t) then (prev ++ c ∷ t) ∷ out else (c ∷ t) ∷ prev ∷ out

unfoldable pub tokens : List Text → List Word → List Text
unfolding add_token strip
tokens out [] = out
tokens out (w ∷ ws) = tokens (add_token out (strip w.text)) ws

unfoldable pub text_of : List Word → Text
unfolding tokens join
text_of words = join (b' ' ∷ []) (reverse (tokens [] words))

-- The first word's start and the last word's end.
abbrev pub first_start : List Word → ℕ
first_start [] = 0
first_start (w ∷ ws) = w.start

abbrev pub last_end : List Word → ℕ
last_end [] = 0
last_end (w ∷ []) = w.end
last_end (v ∷ w ∷ ws) = last_end (w ∷ ws)

-- Zero where the last word ends before the first one starts. The source only asks whether a
-- duration is at most some positive bound.
unfoldable pub dur_of : List Word → ℕ
dur_of words = last_end words - first_start words

unfoldable pub fits : List Word → Bool
unfolding dur_of
fits words = leb (length (text_of words)) max_chars && leb (dur_of words) max_dur
