-- ===== src/Tests/Ruling.antt =====
-- Schedules, verdicts, runs with a decision model and watched shows: small inputs.
use dub_titlerr.Prelude.{
  ℕ, ◌≡◌, refl, Bool, true, false, Option, none, some, List, [], ◌∷◌, arith, ◌==◌, AllOf,
}
use dub_titlerr.Text.{Text, codes, one_of, strip}
use dub_titlerr.Text.Decimal.{digit_value}
use dub_titlerr.Requests.Json.{Json, bool, str, object, field, no_fields}
use dub_titlerr.Requests.Schedule.{no_file, holds, put_schedule, is_time, is_window_open, read_int}
use dub_titlerr.Requests.Schedule.Stored.{IsStored, put_schedule-IsStored}
use dub_titlerr.Text.Lower.{lower}
use dub_titlerr.Text.Table.{DistinctKeys}
use dub_titlerr.WatchQueue.{match_dirs, resolve_dir}
use dub_titlerr.WatchQueue.Queued.{IsPlaced, match_dirs-IsMatched}
use dub_titlerr.Decisions.{
  Verdict, correct, force, reject, Entry, Given, ruling, record_verdict, lookup, corrected_text,
  forced_text, find_pair, key,
}
use dub_titlerr.Decisions.Ruled.{record_all, ruled_all, lookup-record_all}
use dub_titlerr.Decisions.Newest.{ShowsWords, corrected_text-record}
use dub_titlerr.GlossaryDecision.{Settings, Run, new_run, adjudicate_pair}

abbrev schedule : Text → Json
schedule start = object (
    field (codes "enabled") (bool true) (
      field (codes "open") (str start) (
        field (codes "close") (str (codes "06:00"))
          (field (codes "tz") (str (codes "UTC")) no_fields))))

abbrev nothing_shown : Json → Text
nothing_shown v = []

abbrev midnight : Text → Option ℕ
midnight tz = some 0

open_at_midnight :
    is_window_open midnight (put_schedule (λ t. true) (schedule (codes "22:30")) no_file).0 ≡ true
unfolding put_schedule is_window_open is_time digit_value read_int
open_at_midnight = refl

-- A newline behind the time is accepted.
accepted_with_newline :
    (put_schedule (λ t. true) (schedule (codes "22:30\n")) no_file).0
    ≡ holds (schedule (codes "22:30\n"))
unfolding put_schedule is_time digit_value
accepted_with_newline = refl

put_schedule-IsStored_example :
    IsStored nothing_shown midnight 0 no_file
      (put_schedule (λ t. true) (schedule (codes "22:30")) no_file)
put_schedule-IsStored_example =
    put_schedule-IsStored (λ t. true) nothing_shown midnight 0 (schedule (codes "22:30")) no_file
      (omega arith)

abbrev kept : Text → Text
kept t = t

abbrev hidden : ℕ → Bool
hidden c = c == b' '

abbrev verdict : Verdict → Text → Given
verdict v words = record {
  orig = codes "a  b";
  proposed = codes "c";
  verdict = v;
  words = words;
  note = [];
}

abbrev verdicts : List (ℕ × Given)
verdicts = (3, verdict reject []) ∷ (4, verdict correct (codes "D")) ∷ []

-- The second verdict takes the place of the first.
corrected_last :
    corrected_text kept hidden (record_all kept hidden verdicts []) (codes "a b") ≡ some (codes "D")
unfolding record_all corrected_text
corrected_last = refl

-- A correction to the original is a rejection.
restored :
    corrected_text kept hidden
      (record_verdict kept hidden 3 (verdict correct (codes "a b")) [])
      (codes "a b")
    ≡ none
unfolding record_verdict corrected_text
restored = refl

lookup-record_all_example :
    lookup kept hidden (record_all kept hidden verdicts []) (codes "a b") (codes "c")
    ≡ ruled_all kept hidden verdicts
        (λ q r. find_pair q r [])
        (key kept hidden (codes "a b"))
        (key kept hidden (codes "c"))
lookup-record_all_example = lookup-record_all kept hidden verdicts [] (codes "a b") (codes "c")

abbrev corrected : Entry
corrected = record {
  orig = codes "a b";
  proposed = codes "c";
  verdict = correct;
  words = some (codes "D");
  note = [];
  recorded_at = some 4;
}

corrects : ruling kept hidden 4 (verdict correct (codes "D")) ≡ some corrected
unfolding ruling
corrects = refl

shows_d : ShowsWords corrected
unfolding strip
shows_d = refl

corrected_text-record_example :
    (correct ≡ correct
      → corrected_text kept hidden
          (record_verdict kept hidden 4 (verdict correct (codes "D")) [])
          (codes "a  b")
        ≡ some (codes "D"))
    × (correct ≡ force
        → forced_text kept hidden
            (record_verdict kept hidden 4 (verdict correct (codes "D")) [])
            (codes "a  b")
          ≡ some (codes "D"))
corrected_text-record_example =
    corrected_text-record kept hidden 4 (verdict correct (codes "D")) corrected [] tt corrects
      shows_d

abbrev settings : Settings
settings = record { tau = 500000; acquire_tau = 800000; is_local = false; breaker = 1 }

-- The second pair is not asked: the breaker is open after one failure.
abbrev two_pairs : Run
two_pairs =
    (adjudicate_pair {L = Unit {0}} settings tt (some 900000)
      (adjudicate_pair {L = Unit {0}} settings tt none new_run).0).0

abbrev library : List Text
library =
    codes "Trigun (1998) {tvdb-1}"
    ∷ codes "TRIGUN Stampede (2023) {tvdb-2}"
    ∷ codes "Trigun (2003)"
    ∷ []

abbrev watched : List (Text × ℕ)
watched = (codes "Trigun Stampede", 9) ∷ (codes "Trigun", 8) ∷ (codes "Trigun {tvdb-1}", 7) ∷ []

-- Two directories are called Trigun; the id tells them apart.
queued : match_dirs lower watched library ≡ (
  codes "TRIGUN Stampede (2023) {tvdb-2}" ∷ codes "Trigun (1998) {tvdb-1}" ∷ [],
  codes "Trigun" ∷ [],
)
unfolding match_dirs lower resolve_dir
queued = refl

match_dirs-IsMatched_example :
    AllOf (λ d. one_of library d ≡ true) (match_dirs lower watched library).0
    × DistinctKeys (λ d. d) (match_dirs lower watched library).0
    × AllOf
        (λ row.
          IsPlaced
            (match_dirs lower watched library).0
            (match_dirs lower watched library).1
            row.0
            (resolve_dir lower library row.0))
        watched
match_dirs-IsMatched_example = match_dirs-IsMatched lower watched library
