-- ===== src/Requests/Schedule.antt =====
-- review_requests.py: the schedule of the runs: `validate_schedule`, `get_schedule`, `put_schedule`
-- and `is_window_open`. A schedule file is missing, no JSON, or its JSON value.
pub mod Window
pub mod Stored
use dub_titlerr.Prelude.{
  ℕ, ◌+◌, ◌*◌, Bool, true, false, not, ◌&&◌, ◌||◌, Option, none, some, List, [], ◌∷◌, ltb, leb,
  ◌==◌, if◌then◌else◌,
}
use dub_titlerr.Prelude.Int.{ℤ, pos, negsuc, pos_part, neg_part, ltb_ℤ, leb_ℤ, eqb_ℤ, ◌+ℤ◌, sub_ℕ}
use dub_titlerr.Text.{Text, codes, strip, one_of}
use dub_titlerr.Text.Cut.{split_at}
use dub_titlerr.Text.Decimal.{digit_value}
use dub_titlerr.Requests.Json.{
  Json, null, bool, int, decimal, str, array, object, Array, no_items, item, Dict, no_fields, field,
  get, all_known,
}

pub record Schedule : Type 0 where
  pub enabled : Bool
  pub open_at : Text
  pub close_at : Text
  pub tz : Text

abbrev pub default_schedule : Schedule
default_schedule = record {
  enabled = false;
  open_at = codes "00:00";
  close_at = codes "00:00";
  tz = codes "UTC";
}

-- The messages of a refusal, all with status 400.
pub data Refusal : Type 0 where
  no_object no_key no_such_key bad_enabled bad_open bad_close bad_zone unknown_zone : Refusal

pub data Validated : Type 0 where
  ok : Schedule → Validated
  refused : Refusal → Validated

pub data ScheduleFile : Type 0 where
  no_file not_json : ScheduleFile
  holds : Json → ScheduleFile

-- \d, and the two ranges that are written with ASCII digits
abbrev pub is_some {ℓ} : {A : Type ℓ} → Option A → Bool
is_some none = false
is_some (some a) = true

abbrev pub is_end : Text → Bool
is_end [] = true
is_end (c ∷ []) = c == b'\n'
is_end (c ∷ d ∷ t) = false

-- TIME_RE: `$` also matches in front of a newline at the end.
unfoldable pub is_time : Text → Bool
is_time (h ∷ i ∷ colon ∷ m ∷ n ∷ t) =
    ((h == b'0' || h == b'1') && is_some (digit_value i) || h == b'2' && leb b'0' i && leb i b'3')
    && colon == b':'
    && leb b'0' m
    && leb m b'5'
    && is_some (digit_value n)
    && is_end t
is_time _ = false

abbrev pub schedule_keys : List Text
schedule_keys = codes "enabled" ∷ codes "open" ∷ codes "close" ∷ codes "tz" ∷ []

abbrev is_empty_text : Text → Bool
is_empty_text [] = true
is_empty_text (c ∷ t) = false

abbrev pub has_all : Dict → Bool
has_all d =
    is_some (get d (codes "enabled"))
    && is_some (get d (codes "open"))
    && is_some (get d (codes "close"))
    && is_some (get d (codes "tz"))

abbrev pub checked_zone : (Text → Bool) → Bool → Text → Text → Text → Validated
checked_zone known enabled open_at close_at tz =
    if is_empty_text tz
    then refused bad_zone
    else if known tz
    then ok (record { enabled = enabled; open_at = open_at; close_at = close_at; tz = tz })
    else refused unknown_zone

abbrev pub checked_close : (Text → Bool) → Bool → Text → Option Json → Option Json → Validated
checked_close known enabled open_at (some (str close_at)) (some (str tz)) =
    if is_time close_at
    then checked_zone known enabled open_at close_at (strip tz)
    else refused bad_close
checked_close known enabled open_at (some (str close_at)) _ =
    if is_time close_at then refused bad_zone else refused bad_close
checked_close known enabled open_at _ _ = refused bad_close

abbrev pub checked_open : (Text → Bool) → Bool → Option Json → Option Json → Option Json → Validated
checked_open known enabled (some (str open_at)) close_at tz =
    if is_time open_at then checked_close known enabled open_at close_at tz else refused bad_open
checked_open known enabled _ close_at tz = refused bad_open

abbrev pub checked_enabled :
    (Text → Bool) → Option Json → Option Json → Option Json → Option Json → Validated
checked_enabled known (some (bool enabled)) open_at close_at tz =
    checked_open known enabled open_at close_at tz
checked_enabled known _ open_at close_at tz = refused bad_enabled

-- `known` says of a name whether it is one of a time zone.
unfoldable pub validate_schedule : (Text → Bool) → Json → Validated
unfolding is_time strip get all_known
validate_schedule known (object d) =
    if not (has_all d)
    then refused no_key
    else if not (all_known schedule_keys d)
    then refused no_such_key
    else checked_enabled known (get d (codes "enabled")) (get d (codes "open"))
        (get d (codes "close")) (get d (codes "tz"))
validate_schedule known _ = refused no_object

-- The JSON object that is written.
abbrev pub written : Schedule → Json
written s = object (
    field (codes "enabled") (bool s.enabled) (
      field (codes "open") (str s.open_at)
        (field (codes "close") (str s.close_at) (field (codes "tz") (str s.tz) no_fields))))

-- put_schedule: a refusal leaves the file as it is
unfoldable pub put_schedule : (Text → Bool) → Json → ScheduleFile → ScheduleFile × Validated
unfolding validate_schedule
put_schedule known body file = elim (validate_schedule known body) [
  | ok s ↦ (holds (written s), ok s)
  | refused why ↦ (file, refused why)
]

-- bool(v), of a JSON value
abbrev pub truthy : Json → Bool
truthy null = false
truthy (bool b) = b
truthy (int z) = not (eqb_ℤ z (pos 0))
truthy (decimal z k) = not (eqb_ℤ z (pos 0))
truthy (str []) = false
truthy (str (c ∷ t)) = true
truthy (array no_items) = false
truthy (array (item v vs)) = true
truthy (object no_fields) = false
truthy (object (field k v d)) = true

abbrev pub is_truthy : Option Json → Bool
is_truthy none = false
is_truthy (some v) = truthy v

-- str(v); `shown` is what str makes of a value that is no text
abbrev text_or : (Json → Text) → Text → Option Json → Text
text_or shown t none = t
text_or shown t (some (str u)) = u
text_or shown t (some v) = shown v

unfoldable pub get_schedule : (Json → Text) → ScheduleFile → Schedule
unfolding get
get_schedule shown (holds (object d)) = record {
  enabled = is_truthy (get d (codes "enabled"));
  open_at = text_or shown (codes "00:00") (get d (codes "open"));
  close_at = text_or shown (codes "00:00") (get d (codes "close"));
  tz = text_or shown (codes "UTC") (get d (codes "tz"));
}
get_schedule shown _ = default_schedule

-- The digits of int(t), with single underscores between them; whether one stands before, and the
-- number of those before.
unfoldable pub int_digits : Bool → ℕ → Text → Option ℕ
unfolding digit_value
int_digits behind acc [] = if behind then some acc else none
int_digits behind acc (c ∷ t) =
    let skipped = int_digits false acc t in
    elim (digit_value c) [
      | some d ↦ int_digits true (10 * acc + d) t
      | none ↦ if behind && c == b'_' then skipped else none
    ]

abbrev negated : ℕ → ℤ
negated n = sub_ℕ 0 n

abbrev pub signed_int : Text → Option ℤ
signed_int [] = none
signed_int (c ∷ t) =
    if c == b'-'
    then elim (int_digits false 0 t) [ some n ↦ some (negated n) | none ↦ none ]
    else if c == b'+'
    then elim (int_digits false 0 t) [ some n ↦ some (pos n) | none ↦ none ]
    else elim (int_digits false 0 (c ∷ t)) [ some n ↦ some (pos n) | none ↦ none ]

-- int(t)
unfoldable pub read_int : Text → Option ℤ
unfolding strip int_digits
read_int t = signed_int (strip t)

abbrev pub times_60 : ℤ → ℤ
times_60 z = sub_ℕ (60 * pos_part z) (60 * neg_part z)

abbrev pub minutes_of : List Text → Option ℤ
minutes_of (h ∷ m ∷ []) = elim (read_int h) [
  | none ↦ none
  | some hours ↦ elim (read_int m) [ none ↦ none | some minutes ↦ some (times_60 hours +ℤ minutes) ]
]
minutes_of _ = none

-- The minute of a time such as 08:30, if it can be read.
unfoldable pub clock_minute : Json → Option ℤ
unfolding split_at read_int ◌+ℤ◌
clock_minute (str t) = minutes_of (split_at b':' t)
clock_minute _ = none

abbrev pub json_or : Json → Option Json → Json
json_or v none = v
json_or v (some w) = w

abbrev pub inside : ℤ → ℤ → ℕ → Bool
inside open_min close_min now =
    if eqb_ℤ open_min close_min
    then true
    else if ltb_ℤ open_min close_min
    then leb_ℤ open_min (pos now) && ltb_ℤ (pos now) close_min
    else leb_ℤ open_min (pos now) || ltb_ℤ (pos now) close_min

abbrev pub open_between : Option ℤ → Option ℤ → ℕ → Bool
open_between (some o) (some c) now = inside o c now
open_between _ _ now = true

abbrev pub local_minute : (Text → Option ℕ) → Json → Option ℕ
local_minute minute_in (str tz) = minute_in tz
local_minute minute_in _ = none

-- `minute_in` is the minute of the day in a time zone, none for a name that is none of a zone.
unfoldable pub is_window_open : (Text → Option ℕ) → ScheduleFile → Bool
unfolding get clock_minute
is_window_open minute_in (holds (object d)) =
    let open_min = clock_minute (json_or (str (codes "00:00")) (get d (codes "open"))) in
    let close_min = clock_minute (json_or (str (codes "00:00")) (get d (codes "close"))) in
    if not (is_truthy (get d (codes "enabled")))
    then true
    else elim (local_minute minute_in (json_or (str (codes "UTC")) (get d (codes "tz")))) [
      | none ↦ true
      | some now ↦ open_between open_min close_min now
    ]
is_window_open minute_in _ = true
