-- ===== src/Reflow/Spans.antt =====
-- reflow.py: `split_spans` and `_split_sentences`.
pub mod Pauses
pub mod Sentences
use dub_titlerr.Prelude.{ℕ, ◌+◌, Bool, false, List, [], ◌∷◌, ◌++◌, ltb, if◌then◌else◌}
use dub_titlerr.Text.{Text, rstrip, ends_in}
use dub_titlerr.Reflow.{Word, gap_max, sent_end}
use dub_titlerr.Reflow.Glue.{last_end}

-- spans.append(cur), which is not done where cur is empty
abbrev pub close : List Word → List (List Word) → List (List Word)
close [] spans = spans
close (w ∷ ws) spans = (w ∷ ws) ∷ spans

-- `cur and w["start"] - cur[-1]["end"] > GAP_MAX`
abbrev pub breaks : List Word → Word → Bool
breaks [] w = false
breaks (v ∷ vs) w = ltb (last_end (v ∷ vs) + gap_max) w.start

-- The loop, with the span `cur` that is being filled.
unfoldable pub spans_from : List Word → List Word → List (List Word)
spans_from cur [] = close cur []
spans_from cur (w ∷ ws) =
    let broken = close cur (spans_from (w ∷ []) ws) in
    let longer = spans_from (cur ++ w ∷ []) ws in if breaks cur w then broken else longer

unfoldable pub split_spans : List Word → List (List Word)
unfolding spans_from
split_spans words = spans_from [] words

-- Whether the word's text ends in sentence-final punctuation.
unfoldable pub ends_sentence : Word → Bool
unfolding rstrip ends_in
ends_sentence w = ends_in sent_end (rstrip w.text)

unfoldable pub pieces_from : List Word → List Word → List (List Word)
pieces_from cur [] = close cur []
pieces_from cur (w ∷ ws) =
    let ended = (cur ++ w ∷ []) ∷ pieces_from [] ws in
    let longer = pieces_from (cur ++ w ∷ []) ws in if ends_sentence w then ended else longer

unfoldable pub split_sentences : List Word → List (List Word)
unfolding pieces_from
split_sentences span = pieces_from [] span
