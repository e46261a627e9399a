-- ===== src/Reflow/Normalize.antt =====
-- reflow.py: `_normalize`, `_clamp_to_segments` and `_dejitter`.
pub mod Bounds
pub mod Dejitter
use dub_titlerr.Prelude.{
  ℕ, zero, suc, ◌+◌, ◌-◌, min, max, Bool, ◌&&◌, Option, none, some, List, [], ◌∷◌, ◌++◌, get_elem?,
  ltb, leb, ◌==◌, if◌then◌else◌,
}
use dub_titlerr.Reflow.{RawWord, Word, Segment, dejitter_gap}

abbrev pub or_time : Option ℕ → ℕ → ℕ
or_time none t = t
or_time (some s) t = s

-- One word, with `t` the end of the word before it.
unfoldable pub filled : ℕ → RawWord → Word
filled t w =
    let start = or_time w.start t in
    let end = or_time w.end start in
    record {
      text = w.text;
      start = start;
      end = if ltb end start then start else end;
      prob = w.prob;
      seg = w.seg;
    }

unfoldable pub normalize_from : ℕ → List RawWord → List Word
unfolding filled
normalize_from t [] = []
normalize_from t (w ∷ ws) = let out = filled t w in out ∷ normalize_from out.end ws

unfoldable pub normalize : List RawWord → List Word
unfolding normalize_from
normalize words = normalize_from 0 words

abbrev pub clamp_between : Option ℕ → Option ℕ → Word → Word
clamp_between (some lo) (some hi) w =
    let start = min (max w.start lo) hi in
    if leb lo hi then record w { start = start; end = max (min (max w.end lo) hi) start } else w
clamp_between _ _ w = w

unfoldable pub clamp_word : List Segment → Word → Word
clamp_word segments w = elim (get_elem? segments w.seg) [
  | none ↦ w
  | some s ↦ clamp_between s.start s.end w
]

unfoldable pub clamp_to_segments : List Segment → List Word → List Word
unfolding clamp_word
clamp_to_segments segments [] = []
clamp_to_segments segments (w ∷ ws) = clamp_word segments w ∷ clamp_to_segments segments ws

abbrev pub later : ℕ → Word → Word
later gap w = record w { start = w.start + gap; end = w.end + gap }

abbrev pub all_later : ℕ → List Word → List Word
all_later gap [] = []
all_later gap (w ∷ ws) = later gap w ∷ all_later gap ws

-- The words of one segment up to index `k`, of which `last` is the one at `k`: if the gap to the
-- word `next` at `k + 1` is too large, they all move forward by it.
abbrev pub gap_to : Word → Word → ℕ
gap_to last next = if ltb (last.end + dejitter_gap) next.start then next.start - last.end else 0

-- The inner loop over `k`. `early` are the words of the run before `last`.
unfoldable pub close_gaps : List Word → Word → List Word → List Word
close_gaps early last [] = early ++ last ∷ []
close_gaps early last (next ∷ ws) =
    if next.seg == last.seg
    then (let gap = gap_to last next in
        close_gaps (all_later gap early ++ later gap last ∷ []) next ws)
    else early ++ last ∷ close_gaps [] next ws

unfoldable pub dejitter : List Word → List Word
unfolding close_gaps
dejitter [] = []
dejitter (w ∷ ws) = close_gaps [] w ws
