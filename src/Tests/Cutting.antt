-- ===== src/Tests/Cutting.antt =====
-- Words, spans, groups and lines of a short episode.
use mathlib.Core.List.{flatten}
use dub_titlerr.Prelude.{ℕ, ◌+◌, ◌≤◌, ◌≡◌, refl, List, [], ◌∷◌, length, arith}
use dub_titlerr.Text.{Text, codes, strip, split, join, flat}
use dub_titlerr.Reflow.{Word}
use dub_titlerr.Reflow.Glue.{text_of}
use dub_titlerr.Reflow.Spans.{split_spans, split_sentences}
use dub_titlerr.Reflow.Spans.Pauses.{AllJoined, AreApart, split_spans_exact}
use dub_titlerr.Reflow.Spans.Sentences.{AreSentences, split_sentences_exact}
use dub_titlerr.Reflow.Pieces.{distance, segment_span}
use dub_titlerr.Reflow.Pieces.Ended.{AllReturn, segment_span-AllReturn}
use dub_titlerr.Reflow.Pieces.Sizes.{AllFit, segment_span_exact}
use dub_titlerr.Reflow.Wrap.{spaced, wrap_balance}
use dub_titlerr.Reflow.Wrap.Balance.{IsCut, wrap_balance-IsCut}
use dub_titlerr.Reflow.Normalize.{dejitter}
use dub_titlerr.Reflow.Normalize.Dejitter.{AllClose, AllMoved, dejitter_exact}
use dub_titlerr.Reflow.Merge.{merge_runts}
use dub_titlerr.Reflow.Merge.Kept.{merge_runts_exact}
use dub_titlerr.Tests.Samples.{word}

abbrev talk : List Word
talk =
    word "Well," 0 200 0
    ∷ word "go" 900 1000 0
    ∷ word "home." 1000 1300 0
    ∷ word "Now" 1400 1500 1
    ∷ word "or" 5000 9000 1
    ∷ []

split_spans_exact_example :
    (flatten (split_spans talk) ≡ talk) × AllJoined (split_spans talk) × AreApart (split_spans talk)
split_spans_exact_example = split_spans_exact talk

split_sentences_exact_example :
    (flatten (split_sentences talk) ≡ talk) × AreSentences (split_sentences talk)
split_sentences_exact_example = split_sentences_exact talk

segment_span-AllReturn_example :
    AllReturn (split_sentences talk) (segment_span talk)
    × ((out : List (List Word)) → AllReturn (split_sentences talk) out → out ≡ segment_span talk)
segment_span-AllReturn_example = segment_span-AllReturn talk

segment_span_exact_example : (flatten (segment_span talk) ≡ talk) × AllFit (segment_span talk)
segment_span_exact_example = segment_span_exact talk

abbrev numbers : Text
numbers = codes " one two three four five six seven eight nine ten "

abbrev two_three_four : List Text
two_three_four = codes "two" ∷ codes "three" ∷ codes "four" ∷ []

abbrev six_to_ten : List Text
six_to_ten = codes "six" ∷ codes "seven" ∷ codes "eight" ∷ codes "nine" ∷ codes "ten" ∷ []

wrap_balance-IsCut_example :
    (score : ℕ) × IsCut (split (strip numbers)) score (wrap_balance numbers)
    × (score
        ≤ distance
            (length (spaced (codes "one" ∷ two_three_four)))
            (length (spaced (codes "five" ∷ six_to_ten))))
unfolding strip split join
wrap_balance-IsCut_example =
    wrap_balance-IsCut numbers (codes "one") two_three_four (codes "five") six_to_ten (omega arith)
      refl (omega arith) (omega arith)

dejitter_exact_example : AllClose (dejitter talk) × AllMoved talk (dejitter talk)
dejitter_exact_example = dejitter_exact talk

abbrev runts : List (List Word)
runts =
    (word "Well," 0 900 0 ∷ []) ∷ (word "go" 900 1000 0 ∷ []) ∷ (word "home." 1000 1300 0 ∷ []) ∷ []

runts_merged : length (merge_runts runts).out ≡ 1
unfolding merge_runts text_of flat
runts_merged = refl

merge_runts_exact_example :
    (flatten (merge_runts runts).out ≡ flatten runts)
    × (length (merge_runts runts).out + length (merge_runts runts).merges ≡ length runts)
merge_runts_exact_example = merge_runts_exact runts
