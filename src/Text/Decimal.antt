-- ===== src/Text/Decimal.antt =====
-- The decimal digits (category Nd) that \\d matches and int reads, by the table of Unicode 14.0.0.
use dub_titlerr.Prelude.{
  ℕ, ◌+◌, ◌-◌, ◌*◌, ◌&&◌, Option, none, some, List, [], ◌∷◌, ltb, leb, if◌then◌else◌,
}
use dub_titlerr.Text.{Text}

-- The zeros; each is followed by the digits one to nine.
unfoldable pub zeros : List ℕ
zeros =
    0x30 ∷ 0x660 ∷ 0x6f0 ∷ 0x7c0 ∷ 0x966 ∷ 0x9e6 ∷ 0xa66 ∷ 0xae6 ∷ 0xb66 ∷ 0xbe6 ∷ 0xc66 ∷ 0xce6
    ∷ 0xd66 ∷ 0xde6 ∷ 0xe50 ∷ 0xed0 ∷ 0xf20 ∷ 0x1040 ∷ 0x1090 ∷ 0x17e0 ∷ 0x1810 ∷ 0x1946 ∷ 0x19d0
    ∷ 0x1a80 ∷ 0x1a90 ∷ 0x1b50 ∷ 0x1bb0 ∷ 0x1c40 ∷ 0x1c50 ∷ 0xa620 ∷ 0xa8d0 ∷ 0xa900 ∷ 0xa9d0
    ∷ 0xa9f0 ∷ 0xaa50 ∷ 0xabf0 ∷ 0xff10 ∷ 0x104a0 ∷ 0x10d30 ∷ 0x11066 ∷ 0x110f0 ∷ 0x11136 ∷ 0x111d0
    ∷ 0x112f0 ∷ 0x11450 ∷ 0x114d0 ∷ 0x11650 ∷ 0x116c0 ∷ 0x11730 ∷ 0x118e0 ∷ 0x11950 ∷ 0x11c50
    ∷ 0x11d50 ∷ 0x11da0 ∷ 0x16a60 ∷ 0x16ac0 ∷ 0x16b50 ∷ 0x1d7ce ∷ 0x1d7d8 ∷ 0x1d7e2 ∷ 0x1d7ec
    ∷ 0x1d7f6 ∷ 0x1e140 ∷ 0x1e2f0 ∷ 0x1e950 ∷ 0x1fbf0 ∷ []

unfoldable pub digit_from : List ℕ → ℕ → Option ℕ
digit_from [] c = none
digit_from (z ∷ zs) c =
    let rest = digit_from zs c in if leb z c && ltb c (z + 10) then some (c - z) else rest

-- The value of a digit.
unfoldable pub digit_value : ℕ → Option ℕ
unfolding digit_from zeros
digit_value c = digit_from zeros c

abbrev or_zero : Option ℕ → ℕ
or_zero none = 0
or_zero (some n) = n

abbrev with_text : Option ℕ → Text → Option (ℕ × Text)
with_text none t = none
with_text (some n) t = some (n, t)

-- The digits at the front of a text, read as a number, if there is one at least, and the text
-- behind them. The first argument is what the digits before them make.
unfoldable pub read_digits : Option ℕ → Text → Option (ℕ × Text)
unfolding digit_value
read_digits acc [] = with_text acc []
read_digits acc (c ∷ t) = elim (digit_value c) [
  | none ↦ with_text acc (c ∷ t)
  | some d ↦ read_digits (some (10 * or_zero acc + d)) t
]
