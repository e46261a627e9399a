-- ===== src/Reflow.antt =====
-- reflow.py: the shapes of its data and the constants of its display profile.
--
-- Times are exact: a second is 17,000,000 ticks, so that every constant of the profile, every
-- millisecond timestamp and every quotient of a character count by MAX_CPS is a whole number of
-- ticks. A word starts at tick 0 or later.
pub mod Layout
pub mod Glue
pub mod Spans
pub mod Pieces
pub mod Wrap
pub mod Cascade
pub mod Timing
pub mod Normalize
pub mod Merge
pub mod Run
use dub_titlerr.Prelude.{ℕ, ◌+◌, ◌*◌, Option, List, [], ◌∷◌}
use dub_titlerr.Text.{Text}

abbrev pub ms : ℕ → ℕ
ms n = n * 17000

abbrev pub max_line : ℕ
max_line = 42

abbrev pub max_lines : ℕ
max_lines = 2

abbrev pub max_chars : ℕ
max_chars = 84

-- MAX_CPS is 17 characters a second: a character takes this many ticks to read.
abbrev pub char_ticks : ℕ
char_ticks = 1000000

abbrev pub min_dur : ℕ
min_dur = ms 830

abbrev pub max_dur : ℕ
max_dur = ms 7000

abbrev pub min_gap : ℕ
min_gap = ms 83

abbrev pub gap_max : ℕ
gap_max = ms 500

abbrev pub dejitter_gap : ℕ
dejitter_gap = gap_max

-- 1e-6 s
abbrev pub eps : ℕ
eps = 17

abbrev pub split_pause_min : ℕ
split_pause_min = ms 200

abbrev pub split_pause_k : ℕ
split_pause_k = 3

abbrev pub orphan_max_words : ℕ
orphan_max_words = 2

-- ".!?…" and ",;:"
abbrev pub sent_end : Text
sent_end = 0x2e ∷ 0x21 ∷ 0x3f ∷ 0x2026 ∷ []

abbrev pub clause_end : Text
clause_end = 0x2c ∷ 0x3b ∷ 0x3a ∷ []

-- A word as whisper gives it: a time may be missing. `prob` is in millionths.
pub record RawWord : Type 0 where
  pub text : Text
  pub start : Option ℕ
  pub end : Option ℕ
  pub prob : ℕ
  pub seg : ℕ

pub record Word : Type 0 where
  pub text : Text
  pub start : ℕ
  pub end : ℕ
  pub prob : ℕ
  pub seg : ℕ

pub record Segment : Type 0 where
  pub start : Option ℕ
  pub end : Option ℕ
  pub no_speech_prob : ℕ
