-- ===== src/Reflow/Run.antt =====
-- reflow.py: `reflow`, from whisper's words to finished cards. `card_confidence`, a mean of
-- logarithms, is a parameter.
pub mod Kept
pub mod Shown
use dub_titlerr.Prelude.{Option, none, some, List, [], ◌∷◌, ◌++◌, ℕ, Bool, if◌then◌else◌}
use dub_titlerr.Text.{Text, strip}
use dub_titlerr.Reflow.{RawWord, Word, Segment}
use dub_titlerr.Reflow.Glue.{text_of, first_start, last_end}
use dub_titlerr.Reflow.Spans.{split_spans}
use dub_titlerr.Reflow.Pieces.{segment_span}
use dub_titlerr.Reflow.Wrap.{wrap_balance}
use dub_titlerr.Reflow.Cascade.{Timed, Result, ok, raise, map_result}
use dub_titlerr.Reflow.Timing.{CascadeRecord, Timings, time_cards}
use dub_titlerr.Reflow.Normalize.{normalize, clamp_to_segments, dejitter}
use dub_titlerr.Reflow.Merge.{Group, MergeRecord, Merged, is_orphan_group, head_group, merge_runts}

pub record Card {ℓ} (C : Type ℓ) : Type ℓ where
  pub start : ℕ
  pub end : ℕ
  pub source_start : ℕ
  pub source_end : ℕ
  pub text : Text
  pub confidence : C
  pub orphan : Bool

-- The cards, and what merge_log and cascade_log are extended with.
pub record Reflowed {ℓ} (C : Type ℓ) : Type ℓ where
  pub cards : List (Card C)
  pub merge_log : List MergeRecord
  pub cascade_log : List CascadeRecord

-- `if _text(g).strip()`
abbrev pub unless_blank : Text → Group → List Group → List Group
unless_blank [] g rest = rest
unless_blank (c ∷ t) g rest = g ∷ rest

unfoldable pub drop_blank : List Group → List Group
drop_blank [] = []
drop_blank (g ∷ gs) = unless_blank (strip (text_of g)) g (drop_blank gs)

unfoldable pub groups_of : List (List Word) → List Group
unfolding drop_blank segment_span
groups_of [] = []
groups_of (span ∷ spans) = drop_blank (segment_span span) ++ groups_of spans

module _ {ℓ} {C : Type ℓ} (card_confidence : List Word → List Segment → C) where
  unfoldable pub finish : List Segment → Option Group → List Timed → List Group → List (Card C)
  unfolding wrap_balance
  finish segments prev [] gs = []
  finish segments prev (t ∷ ts) [] = []
  finish segments prev (t ∷ ts) (g ∷ gs) =
      record {
        start = t.start;
        end = t.end;
        source_start = first_start g;
        source_end = last_end g;
        text = wrap_balance (text_of g);
        confidence = card_confidence g segments;
        orphan = is_orphan_group g (head_group gs) prev;
      }
      ∷ finish segments (some g) ts gs

  abbrev pub cards_of : List Segment → Merged → Timings → Reflowed C
  cards_of segments m t = record {
    cards = finish segments none t.cards m.out;
    merge_log = m.merges;
    cascade_log = t.records;
  }

  unfoldable pub time_groups : Option ℕ → List Segment → List Group → Result (Reflowed C)
  unfolding finish time_cards merge_runts
  time_groups audio segments [] = ok (record { cards = []; merge_log = []; cascade_log = [] })
  time_groups audio segments (g ∷ gs) =
      let m = merge_runts (g ∷ gs) in map_result (cards_of segments m) (time_cards m.out audio)

  unfoldable pub reflow : List RawWord → List Segment → Option ℕ → Result (Reflowed C)
  unfolding time_groups groups_of split_spans dejitter clamp_to_segments normalize
  reflow words segments audio =
      time_groups audio segments
        (groups_of (split_spans (dejitter (clamp_to_segments segments (normalize words)))))
