-- ===== src/Requests/Schedule/Stored.antt =====
-- review_requests.py: a time that validate_schedule accepts is read again by is_window_open.
use dub_titlerr.Prelude.{
  ℕ, ◌+◌, ◌-◌, ◌*◌, ◌<◌, ◌≤◌, ◌≡◌, refl, sym, ap, ◌∙◌, Bool, true, false, ◌&&◌, ◌||◌, Option, none,
  some, [], ◌∷◌, leb, ◌==◌, if◌then◌else◌, arith, Bool-cases, Option-cases, inl, inr,
}
use dub_titlerr.Prelude.Int.{ℤ, pos}
use dub_titlerr.Text.{Text, codes}
use dub_titlerr.Text.Decimal.{digit_value}
use dub_titlerr.Requests.Json.{Json, null, int, decimal, array, str, bool, object, get}
use dub_titlerr.Requests.Schedule.{
  Schedule, Validated, ok, refused, checked_close, checked_open, checked_enabled, open_between,
  ScheduleFile, holds, is_time, validate_schedule, put_schedule, written, minutes_of, is_some,
  is_end, clock_minute, inside, is_window_open, get_schedule,
}
use dub_titlerr.Requests.Schedule.Window.{
  digit-is_space, ascii_digit, minutes_of_two, digit-colon, split_time, inside_window, in_window,
  value_or_zero, digit_or, named_minute,
}

-- A digit, with its value.
abbrev IsDigit : ℕ → Type 0
IsDigit c = (digit_value c ≡ some (digit_or c)) × (digit_or c < 10) × ((c == b':') ≡ false)

digit_value-IsDigit : (c d : ℕ) → digit_value c ≡ some d → IsDigit c × (digit_or c ≡ d)
digit_value-IsDigit c d e =
    let v : digit_or c ≡ d = ap value_or_zero e in
    ((e ∙ ap some (sym v), rw v ((digit-is_space c d e).1), digit-colon c d e), v)

some-IsDigit : (c : ℕ) → is_some (digit_value c) ≡ true → IsDigit c
some-IsDigit c h = elim (Option-cases (digit_value c)) [
  | inl e ↦ absurd (ground (arith, rw e at h))
  | inr (d, e) ↦ (digit_value-IsDigit c d e).0
]

ascii-IsDigit : (c : ℕ) → b'0' ≤ c → c ≤ b'9' → IsDigit c × (digit_or c ≡ c - b'0')
ascii-IsDigit c l h = digit_value-IsDigit c (c - b'0') (ascii_digit c l h)

-- What a time of the form HH:MM is made of.
abbrev HasForm : ℕ → ℕ → ℕ → ℕ → ℕ → Text → Type 0
HasForm h i colon m n t =
    (b'0' ≤ h)
    × IsDigit h
    × IsDigit i
    × (10 * digit_or h + digit_or i < 24)
    × (colon ≡ b':')
    × (b'0' ≤ m)
    × IsDigit m
    × (digit_or m < 6)
    × IsDigit n
    × (is_end t ≡ true)

hour_form :
    (h i : ℕ)
    → ((h == b'0' || h == b'1') && is_some (digit_value i) || h == b'2' && leb b'0' i && leb i b'3')
      ≡ true
    → (b'0' ≤ h) × IsDigit h × IsDigit i × (10 * digit_or h + digit_or i < 24)
hour_form h i e = elim (Bool-cases (h == b'2')) [
  | inl t ↦
      let low : (b'0' ≤ i) × (i ≤ b'3') × (h ≡ b'2') = ground (arith, e, t) in
      let d = ascii-IsDigit h (omega (arith, low.2)) (omega (arith, low.2)) in
      let f = ascii-IsDigit i low.0 (omega (arith, low.1)) in
      (omega (arith, low.2), d.0, f.0, omega (arith, d.1, f.1, low.0, low.1, low.2))
  | inr f ↦
      let low : (b'0' ≤ h) × (h ≤ b'1') × (is_some (digit_value i) ≡ true) = ground (arith, e, f) in
      let d = ascii-IsDigit h low.0 (omega (arith, low.1)) in
      let g = some-IsDigit i low.2 in (low.0, d.0, g, omega (arith, d.1, g.1, low.0, low.1))
]

is_time-HasForm :
    (h i colon m n : ℕ) (t : Text)
    → is_time (h ∷ i ∷ colon ∷ m ∷ n ∷ t) ≡ true
    → HasForm h i colon m n t
unfolding is_time
is_time-HasForm h i colon m n t e =
    let hour : ((h == b'0' || h == b'1') && is_some (digit_value i)
          || h == b'2' && leb b'0' i && leb i b'3')
        ≡ true =
      ground (arith, e) in
    let rest : (colon ≡ b':')
        × (b'0' ≤ m)
        × (m ≤ b'5')
        × (is_some (digit_value n) ≡ true)
        × (is_end t ≡ true) =
      ground (arith, e) in
    let f = hour_form h i hour in
    let d = ascii-IsDigit m rest.1 (omega (arith, rest.2)) in
    (
      f.0,
      f.1,
      f.2,
      f.3,
      rest.0,
      rest.1,
      d.0,
      omega (arith, d.1, rest.1, rest.2),
      some-IsDigit n rest.3,
      rest.4,
    )

-- Too short for a time.
abbrev IsShort : Text → Type 0
IsShort (h ∷ i ∷ j ∷ k ∷ l ∷ t) = ⊥
IsShort _ = Unit

no_time : (t : Text) → IsShort t → is_time t ≡ true → ⊥
unfolding is_time
no_time [] s e = ground (arith, e)
no_time (h ∷ []) s e = ground (arith, e)
no_time (h ∷ i ∷ []) s e = ground (arith, e)
no_time (h ∷ i ∷ j ∷ []) s e = ground (arith, e)
no_time (h ∷ i ∷ j ∷ k ∷ []) s e = ground (arith, e)
no_time (h ∷ i ∷ j ∷ k ∷ l ∷ t) s e = s

-- An accepted time, with the minute of the day that it names.
pub clock_minute-is_time :
    (t : Text)
    → is_time t ≡ true
    → (clock_minute (str t) ≡ some (pos (named_minute t))) × (named_minute t < 1440)
unfolding clock_minute
clock_minute-is_time (h ∷ i ∷ colon ∷ m ∷ n ∷ t) e =
    let f = is_time-HasForm h i colon m n t e in
    (
      ap (λ c. clock_minute (str (h ∷ i ∷ c ∷ m ∷ n ∷ t))) f.4
          ∙ ap minutes_of (split_time h i m n t f.1.2 f.2.2 f.6.2 f.8.2 f.9)
          ∙ minutes_of_two h i m n (digit_or h) (digit_or i) (digit_or m) (digit_or n) t f.0 f.5
              f.1.0 f.2.0 f.6.0 f.8.0 f.9,
      omega (arith, f.3, f.7, f.8.1),
    )
clock_minute-is_time [] e = absurd (no_time [] tt e)
clock_minute-is_time (h ∷ []) e = absurd (no_time (h ∷ []) tt e)
clock_minute-is_time (h ∷ i ∷ []) e = absurd (no_time (h ∷ i ∷ []) tt e)
clock_minute-is_time (h ∷ i ∷ j ∷ []) e = absurd (no_time (h ∷ i ∷ j ∷ []) tt e)
clock_minute-is_time (h ∷ i ∷ j ∷ k ∷ []) e = absurd (no_time (h ∷ i ∷ j ∷ k ∷ []) tt e)

-- What validate_schedule has seen of a schedule.
abbrev HasTimes : Validated → Type 0
HasTimes (ok s) = (is_time s.open_at ≡ true) × (is_time s.close_at ≡ true)
HasTimes (refused why) = Unit

checked_close-HasTimes :
    (known : Text → Bool) (enabled : Bool) (open_at : Text) (close_at tz : Option Json)
    → is_time open_at ≡ true
    → HasTimes (checked_close known enabled open_at close_at tz)
checked_close-HasTimes known enabled open_at close_at tz h = ground (arith, h)

checked_open-HasTimes :
    (known : Text → Bool) (enabled : Bool) (open_at close_at tz : Option Json)
    → HasTimes (checked_open known enabled open_at close_at tz)
checked_open-HasTimes known enabled (some (str t)) close_at tz = elim (Bool-cases (is_time t)) [
  | inl e ↦ rw e (checked_close-HasTimes known enabled t close_at tz e)
  | inr e ↦ rw e tt
]
checked_open-HasTimes known enabled none close_at tz = tt
checked_open-HasTimes known enabled (some null) close_at tz = tt
checked_open-HasTimes known enabled (some (bool b)) close_at tz = tt
checked_open-HasTimes known enabled (some (int z)) close_at tz = tt
checked_open-HasTimes known enabled (some (decimal z k)) close_at tz = tt
checked_open-HasTimes known enabled (some (array a)) close_at tz = tt
checked_open-HasTimes known enabled (some (object d)) close_at tz = tt

checked_enabled-HasTimes :
    (known : Text → Bool) (enabled open_at close_at tz : Option Json)
    → HasTimes (checked_enabled known enabled open_at close_at tz)
checked_enabled-HasTimes known none open_at close_at tz = tt
checked_enabled-HasTimes known (some (bool b)) open_at close_at tz =
    checked_open-HasTimes known b open_at close_at tz
checked_enabled-HasTimes known (some null) open_at close_at tz = tt
checked_enabled-HasTimes known (some (str t)) open_at close_at tz = tt
checked_enabled-HasTimes known (some (int z)) open_at close_at tz = tt
checked_enabled-HasTimes known (some (decimal z k)) open_at close_at tz = tt
checked_enabled-HasTimes known (some (array a)) open_at close_at tz = tt
checked_enabled-HasTimes known (some (object d)) open_at close_at tz = tt

validate_schedule-HasTimes :
    (known : Text → Bool) (body : Json) → HasTimes (validate_schedule known body)
unfolding validate_schedule
validate_schedule-HasTimes known (object d) = ground (
  arith,
  checked_enabled-HasTimes known (get d (codes "enabled")) (get d (codes "open"))
      (get d (codes "close")) (get d (codes "tz")),
)
validate_schedule-HasTimes known null = tt
validate_schedule-HasTimes known (bool b) = tt
validate_schedule-HasTimes known (int z) = tt
validate_schedule-HasTimes known (decimal z k) = tt
validate_schedule-HasTimes known (str t) = tt
validate_schedule-HasTimes known (array a) = tt

-- What the window of a schedule is, with the minute now.
abbrev pub promised : Schedule → ℕ → Bool
promised s now =
    if s.enabled then in_window (named_minute s.open_at) (named_minute s.close_at) now else true

opened :
    (minute : Option ℕ) (o c : Option ℤ) (now first last : ℕ)
    → minute ≡ some now
    → o ≡ some (pos first)
    → c ≡ some (pos last)
    → ◌≡◌ {A = Bool}
        (elim minute [ none ↦ true | some m ↦ open_between o c m ])
        (inside (pos first) (pos last) now)
opened minute o c now first last e f g = rw (e, f, g) refl

written-is_window_open :
    (minute_in : Text → Option ℕ) (s : Schedule) (now : ℕ)
    → HasTimes (ok s)
    → minute_in s.tz ≡ some now
    → now < 1440
    → is_window_open minute_in (holds (written s)) ≡ promised s now
unfolding is_window_open get
written-is_window_open minute_in s now h m n =
    let o = clock_minute-is_time s.open_at h.0 in
    let c = clock_minute-is_time s.close_at h.1 in
    let e =
      opened (minute_in s.tz) (clock_minute (str s.open_at)) (clock_minute (str s.close_at)) now
        (named_minute s.open_at) (named_minute s.close_at) m o.0 c.0
      ∙ inside_window (named_minute s.open_at) (named_minute s.close_at) now o.1 c.1 n in
    elim (Bool-cases s.enabled) [ inl b ↦ rw b e | inr b ↦ rw b refl ]

get_schedule-written :
    (shown : Json → Text) (s : Schedule) → get_schedule shown (holds (written s)) ≡ s
unfolding get_schedule
get_schedule-written shown s = refl

abbrev pub IsStored :
    (Json → Text) → (Text → Option ℕ) → ℕ → ScheduleFile → ScheduleFile × Validated → Type 0
IsStored shown minute_in now old (file, ok s) =
    (get_schedule shown file ≡ s)
    × (minute_in s.tz ≡ some now → is_window_open minute_in file ≡ promised s now)
IsStored shown minute_in now old (file, refused why) = (file ≡ old)

-- An accepted schedule is the one that is read back from the file, and it opens the window, at a
-- minute of the day in its time zone, if it is not enabled, or if that minute lies between its two
-- times, the day taken as a circle; between one time and itself lies all of the day. A refused
-- schedule leaves the file as it is.
pub put_schedule-IsStored :
    (known : Text → Bool) (shown : Json → Text) (minute_in : Text → Option ℕ) (now : ℕ)
    (body : Json) (file : ScheduleFile)
    → now < 1440
    → IsStored shown minute_in now file (put_schedule known body file)
unfolding put_schedule
put_schedule-IsStored known shown minute_in now body file n =
    stored (validate_schedule known body) (validate_schedule-HasTimes known body)
  where
    stored :
        (v : Validated)
        → HasTimes v
        → IsStored shown minute_in now file
            (elim v [ ok s ↦ (holds (written s), ok s) | refused why ↦ (file, refused why) ])
    stored (ok s) h =
        (get_schedule-written shown s, λ m. written-is_window_open minute_in s now h m n)
    stored (refused why) h = refl
