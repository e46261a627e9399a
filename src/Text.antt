-- ===== src/Text.antt =====
-- The Python string operations that the modules share, over texts as lists of code points:
-- str.strip, str.lstrip, str.rstrip, str.split() and str.split("\n"), str.join, str.replace.
pub mod Digits
pub mod Control
pub mod Visible
pub mod Order
pub mod Table
pub mod Lower
pub mod Decimal
pub mod Cut
use Prim.Native.String.{String}
use Prim.Native.Char.{code}
use dub_titlerr.Prelude.{
  ℕ, zero, suc, ◌+◌, ◌/◌, ◌%◌, Bool, true, false, not, ◌&&◌, ◌||◌, Option, none, some, List, [],
  ◌∷◌, ◌++◌, reverse, ltb, leb, ◌==◌, if◌then◌else◌,
}

abbrev pub Text : Type 0
Text = List ℕ

-- The code points of a literal.
abbrev pub codes : String → Text
codes String.[] = []
codes (String.◌∷◌ c s) = code c ∷ codes s

abbrev within : ℕ → ℕ → ℕ → Bool
within lo hi c = leb lo c && leb c hi

-- str.isspace of one code point: the white space that strip() and split() know.
unfoldable pub is_space : ℕ → Bool
is_space c =
    within 9 13 c
    || within 28 32 c
    || c == 0x85
    || c == 0xa0
    || c == 0x1680
    || within 0x2000 0x200a c
    || within 0x2028 0x2029 c
    || c == 0x202f
    || c == 0x205f
    || c == 0x3000

abbrev pub elem : ℕ → Text → Bool
elem c [] = false
elem c (d ∷ t) = c == d || elem c t

unfoldable pub lstrip : Text → Text
unfolding is_space
lstrip [] = []
lstrip (c ∷ t) = let rest = lstrip t in if is_space c then rest else c ∷ t

unfoldable pub rstrip : Text → Text
unfolding lstrip
rstrip t = reverse (lstrip (reverse t))

unfoldable pub strip : Text → Text
unfolding rstrip
strip t = rstrip (lstrip t)

-- t[-1:], as an option
unfoldable pub last? {ℓ} : {A : Type ℓ} → List A → Option A
last? [] = none
last? (x ∷ []) = some x
last? (x ∷ y ∷ xs) = last? (y ∷ xs)

-- t.endswith(tuple(ends)), for one-character ends
unfoldable pub ends_in : Text → Text → Bool
unfolding last?
ends_in ends t = elim (last? t) [ none ↦ false | some c ↦ elem c ends ]

-- t.strip(chars) is not empty: some character is outside `chars`
unfoldable pub has_outside : Text → Text → Bool
has_outside chars [] = false
has_outside chars (c ∷ t) = not (elem c chars) || has_outside chars t

-- The word that is being read, put in front of the words after it.
abbrev close_word : Text → List Text → List Text
close_word [] ws = ws
close_word (c ∷ w) ws = (c ∷ w) ∷ ws

-- str.split(): the runs of characters that are not white space. `word` is the run so far.
unfoldable pub split_from : Text → Text → List Text
unfolding is_space
split_from word [] = close_word word []
split_from word (c ∷ t) =
    let ended = close_word word (split_from [] t) in
    let longer = split_from (word ++ c ∷ []) t in if is_space c then ended else longer

unfoldable pub split : Text → List Text
unfolding split_from
split t = split_from [] t

-- sep.join(parts)
unfoldable pub join : Text → List Text → Text
join sep [] = []
join sep (t ∷ []) = t
join sep (t ∷ u ∷ ts) = t ++ (sep ++ join sep (u ∷ ts))

-- t.split("\n"): always one line at least
unfoldable pub lines_from : Text → Text → List Text
lines_from line [] = line ∷ []
lines_from line (c ∷ t) =
    let ended = line ∷ lines_from [] t in
    let longer = lines_from (line ++ c ∷ []) t in if c == b'\n' then ended else longer

unfoldable pub split_lines : Text → List Text
unfolding lines_from
split_lines t = lines_from [] t

-- t.replace("\n", " ")
unfoldable pub flat : Text → Text
flat [] = []
flat (c ∷ t) = (if c == b'\n' then b' ' else c) ∷ flat t

-- t.startswith(prefix)
unfoldable pub starts_with : Text → Text → Bool
starts_with [] t = true
starts_with (p ∷ prefix) [] = false
starts_with (p ∷ prefix) (c ∷ t) = p == c && starts_with prefix t

-- part in t
unfoldable pub contains : Text → Text → Bool
unfolding starts_with
contains part [] = starts_with part []
contains part (c ∷ t) = starts_with part (c ∷ t) || contains part t

-- t.count(c), for one character
unfoldable pub count : ℕ → Text → ℕ
count c [] = 0
count c (d ∷ t) = (if c == d then 1 else 0) + count c t

unfoldable pub any : (ℕ → Bool) → Text → Bool
any p [] = false
any p (c ∷ t) = p c || any p t

-- Equality of texts.
unfoldable pub same_text : Text → Text → Bool
same_text [] [] = true
same_text [] (d ∷ t) = false
same_text (c ∷ s) [] = false
same_text (c ∷ s) (d ∷ t) = c == d && same_text s t

-- t in texts
unfoldable pub one_of : List Text → Text → Bool
unfolding same_text
one_of [] key = false
one_of (k ∷ ks) key = same_text key k || one_of ks key

-- t.endswith(suffix)
unfoldable pub ends_with : Text → Text → Bool
unfolding starts_with
ends_with suffix t = starts_with (reverse suffix) (reverse t)

-- str(n), on a bound that n itself satisfies
digits_within : ℕ → ℕ → Text
digits_within zero n = []
digits_within (suc bound) n =
    let front = digits_within bound (n / 10) in
    if ltb n 10 then (b'0' + n) ∷ [] else front ++ (b'0' + n % 10) ∷ []

unfoldable pub decimal_text : ℕ → Text
unfolding digits_within
decimal_text n = digits_within (suc n) n

-- s <= t, by code points
unfoldable pub text_le : Text → Text → Bool
text_le [] t = true
text_le (c ∷ s) [] = false
text_le (c ∷ s) (d ∷ t) = ltb c d || c == d && text_le s t
