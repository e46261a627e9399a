-- ===== src/Requests/Schedule/Window.antt =====
-- review_requests.py: a schedule that is stored, and the window that it opens.
use dub_titlerr.Prelude.{
  ℕ, ◌+◌, ◌-◌, ◌*◌, ◌%◌, ◌<◌, ◌≤◌, ◌≡◌, refl, sym, ap, ◌∙◌, Bool, true, false, ◌&&◌, ◌||◌, Option,
  none, some, List, [], ◌∷◌, ltb, leb, ◌==◌, if◌then◌else◌, arith, AllOf, Bool-cases, inl, inr,
}
use dub_titlerr.Prelude.Int.{pos, ◌+ℤ◌}
use dub_titlerr.Text.{Text, is_space, strip, lstrip, rstrip}
use dub_titlerr.Text.Cut.{split_at}
use dub_titlerr.Text.Decimal.{digit_value, digit_from, zeros}
use dub_titlerr.Requests.Schedule.{
  int_digits, signed_int, minutes_of, times_60, is_end, read_int, inside,
}

-- Minutes of the day that go by from one to the other, past midnight where needed.
abbrev pub since : ℕ → ℕ → ℕ
since start now = (now + 1440 - start) % 1440

-- Between the two, the day taken as a circle; all day if the two are one.
abbrev pub in_window : ℕ → ℕ → ℕ → Bool
in_window first last now = if first == last then true else ltb (since first now) (since first last)

pub inside_window :
    (first last now : ℕ)
    → first < 1440
    → last < 1440
    → now < 1440
    → inside (pos first) (pos last) now ≡ in_window first last now
inside_window first last now o c n = ground (arith, o, c, n)

-- No digit is white space.
abbrev far : ℕ → Bool
far z =
    leb 33 z && leb z 100
    || leb 0xa1 z && leb z 0x1600
    || leb 0x1681 z && leb z 0x1f00
    || leb 0x3001 z

zeros_are_far : AllOf (λ z. far z ≡ true) zeros
unfolding zeros
zeros_are_far = ground arith

digit_from-is_space :
    (zs : List ℕ) (c d : ℕ)
    → AllOf (λ z. far z ≡ true) zs
    → digit_from zs c ≡ some d
    → (is_space c ≡ false) × (d < 10)
unfolding digit_from is_space
digit_from-is_space [] c d f h = absurd (ground (arith, h))
digit_from-is_space (z ∷ zs) c d f h = elim (Bool-cases (leb z c && ltb c (z + 10))) [
  | inl e ↦ ground (arith, e, f, rw e at h)
  | inr e ↦ digit_from-is_space zs c d f.1 (rw e at h)
]

pub digit-is_space : (c d : ℕ) → digit_value c ≡ some d → (is_space c ≡ false) × (d < 10)
unfolding digit_value
digit-is_space c d h = digit_from-is_space zeros c d zeros_are_far h

pub ascii_digit : (c : ℕ) → b'0' ≤ c → c ≤ b'9' → digit_value c ≡ some (c - b'0')
unfolding digit_value digit_from zeros
ascii_digit c l h = ground (arith, l, h)

strip_two : (c d : ℕ) → is_space c ≡ false → is_space d ≡ false → strip (c ∷ d ∷ []) ≡ c ∷ d ∷ []
unfolding strip rstrip lstrip
strip_two c d h k = rw h (rw k refl)

strip_two_newline :
    (c d : ℕ) → is_space c ≡ false → is_space d ≡ false → strip (c ∷ d ∷ b'\n' ∷ []) ≡ c ∷ d ∷ []
unfolding strip rstrip lstrip
strip_two_newline c d h k = rw h (rw k refl)

no_sign : (c : ℕ) → b'0' ≤ c → ((c == b'-') ≡ false) × ((c == b'+') ≡ false)
no_sign c l = (ground (arith, l), ground (arith, l))

-- Two digits, the first of them no sign.
signed_two :
    (c d a b : ℕ)
    → b'0' ≤ c
    → digit_value c ≡ some a
    → digit_value d ≡ some b
    → signed_int (c ∷ d ∷ []) ≡ some (pos (10 * a + b))
unfolding int_digits
signed_two c d a b l h k =
    rw ((no_sign c l).0, (no_sign c l).1, h, k) (ap (λ n. some (pos n)) (omega arith))

-- They are read, with a newline behind them too.
read_int_two :
    (c d a b : ℕ) (t : Text)
    → b'0' ≤ c
    → digit_value c ≡ some a
    → digit_value d ≡ some b
    → is_end t ≡ true
    → read_int (c ∷ d ∷ t) ≡ some (pos (10 * a + b))
unfolding read_int
read_int_two c d a b [] l h k e =
    ap signed_int (strip_two c d (digit-is_space c a h).0 (digit-is_space d b k).0)
    ∙ signed_two c d a b l h k
read_int_two c d a b (x ∷ []) l h k e =
    let nl : x ≡ b'\n' = ground (arith, e) in
    ap (λ y. signed_int (strip (c ∷ d ∷ y ∷ []))) nl
    ∙ ap signed_int (strip_two_newline c d (digit-is_space c a h).0 (digit-is_space d b k).0)
    ∙ signed_two c d a b l h k
read_int_two c d a b (x ∷ y ∷ t) l h k e = absurd (ground (arith, e))

-- The minute that a time of the form HH:MM names.
abbrev pub value_or_zero : Option ℕ → ℕ
value_or_zero none = 0
value_or_zero (some d) = d

abbrev pub digit_or : ℕ → ℕ
digit_or c = value_or_zero (digit_value c)

abbrev pub named_minute : Text → ℕ
named_minute (h ∷ i ∷ colon ∷ m ∷ n ∷ t) =
    60 * (10 * digit_or h + digit_or i) + (10 * digit_or m + digit_or n)
named_minute _ = 0

sixty : (a b : ℕ) → times_60 (pos a) +ℤ pos b ≡ pos (60 * a + b)
unfolding ◌+ℤ◌
sixty a b = ground arith

-- Two numbers with two digits each.
pub minutes_of_two :
    (h i m n a b c d : ℕ) (t : Text)
    → b'0' ≤ h
    → b'0' ≤ m
    → digit_value h ≡ some a
    → digit_value i ≡ some b
    → digit_value m ≡ some c
    → digit_value n ≡ some d
    → is_end t ≡ true
    → minutes_of ((h ∷ i ∷ []) ∷ (m ∷ n ∷ t) ∷ []) ≡ some (pos (60 * (10 * a + b) + (10 * c + d)))
minutes_of_two h i m n a b c d t lh lm eh ei em en e =
    rw (minutes_of, read_int_two h i a b [] lh eh ei refl, read_int_two m n c d t lm em en e)
      (ap some (sixty (10 * a + b) (10 * c + d)))

-- No digit is a colon, and what may end a time is none.
no_colon : (d : ℕ) → digit_value b':' ≡ some d → ⊥
unfolding digit_value digit_from zeros
no_colon d h = ground (arith, h)

pub digit-colon : (c d : ℕ) → digit_value c ≡ some d → (c == b':') ≡ false
digit-colon c d h = elim (Bool-cases (c == b':')) [
  | inl e ↦ let q : c ≡ b':' = ground (arith, e) in absurd (no_colon d (sym (ap digit_value q) ∙ h))
  | inr e ↦ e
]

pub split_time :
    (h i m n : ℕ) (t : Text)
    → (h == b':') ≡ false
    → (i == b':') ≡ false
    → (m == b':') ≡ false
    → (n == b':') ≡ false
    → is_end t ≡ true
    → split_at b':' (h ∷ i ∷ b':' ∷ m ∷ n ∷ t) ≡ (h ∷ i ∷ []) ∷ (m ∷ n ∷ t) ∷ []
unfolding split_at
split_time h i m n [] eh ei em en e = rw (eh, ei, em, en) refl
split_time h i m n (x ∷ []) eh ei em en e =
    let nl : (x == b':') ≡ false = ground (arith, e) in rw (eh, ei, em, en, nl) refl
split_time h i m n (x ∷ y ∷ t) eh ei em en e = absurd (ground (arith, e))
