-- ===== src/Tests/Timing.antt =====
-- The display times of a short episode: two cards are pushed, and the last is cut by the audio.
use dub_titlerr.Prelude.{ℕ, ◌+◌, ◌≡◌, refl, Option, none, some, List, [], ◌∷◌}
use dub_titlerr.Text.{flat}
use dub_titlerr.Reflow.Glue.{text_of, fits}
use dub_titlerr.Reflow.Spans.{split_sentences, ends_sentence}
use dub_titlerr.Reflow.Pieces.{split_overflow}
use dub_titlerr.Reflow.{Word, Segment, ms}
use dub_titlerr.Reflow.Cascade.{Timed, Result, ok, raise, OnOk, cascade}
use dub_titlerr.Reflow.Cascade.Push.{OnRaise, Accounted, cascade-Accounted}
use dub_titlerr.Reflow.Cascade.Books.{
  DisplacedFrom, cascade-DisplacedFrom, lost_duration, cascade-lost_duration,
}
use dub_titlerr.Reflow.Timing.{Timings, time_cards}
use dub_titlerr.Reflow.Timing.Promise.{IsReadable, time_cards-IsReadable}
use dub_titlerr.Reflow.Run.{Reflowed, reflow}
use dub_titlerr.Reflow.Run.Kept.{shown, shown-reflow, heard}
use dub_titlerr.Reflow.Run.Shown.{AreShown, reflow-AreShown}
use dub_titlerr.Tests.Samples.{word, speech, speech_segments}

abbrev number_of_words : List Word → List Segment → ℕ
number_of_words [] segments = 0
number_of_words (w ∷ ws) segments = number_of_words ws segments + 1

abbrev or_empty {ℓ} : {A : Type ℓ} → A → Result A → A
or_empty d (ok a) = a
or_empty d (raise e) = d

abbrev audio : Option ℕ
audio = some (ms 2600)

abbrev speech_reflowed : Reflowed ℕ
speech_reflowed =
    or_empty (record { cards = []; merge_log = []; cascade_log = [] })
      (reflow number_of_words speech speech_segments audio)

returned : reflow number_of_words speech speech_segments audio ≡ ok speech_reflowed
unfolding reflow split_sentences ends_sentence split_overflow fits text_of flat
returned = refl

reflow-AreShown_example : AreShown audio speech_reflowed.cards
reflow-AreShown_example =
    reflow-AreShown number_of_words speech speech_segments audio speech_reflowed returned

shown-reflow_example : shown speech_reflowed.cards ≡ heard speech
shown-reflow_example =
    shown-reflow number_of_words speech speech_segments audio speech_reflowed returned

abbrev groups : List (List Word)
groups =
    (word "Hello" 100 300 0 ∷ word "there." 300 500 0 ∷ [])
    ∷ (word "Go!" 700 800 1 ∷ [])
    ∷ (word "Run." 3000 3900 2 ∷ [])
    ∷ []

abbrev groups_timed : Timings
groups_timed = or_empty (record { cards = []; records = [] }) (time_cards groups (some (ms 3500)))

groups_returned : time_cards groups (some (ms 3500)) ≡ ok groups_timed
unfolding time_cards text_of
groups_returned = refl

time_cards-IsReadable_example : IsReadable groups (some (ms 3500)) groups_timed.cards
time_cards-IsReadable_example =
    time_cards-IsReadable groups (some (ms 3500)) groups_timed groups_returned

abbrev card : ℕ → ℕ → Timed
card start end = record { start = ms start; end = ms end }

abbrev row : List Timed
row = card 1000 2500 ∷ card 2583 3600 ∷ card 3683 6000 ∷ []

cascade-DisplacedFrom_example :
    OnOk (λ p. DisplacedFrom 4 p.displaced row p.cards) (cascade none 4 0 (ms 1200) row)
cascade-DisplacedFrom_example = cascade-DisplacedFrom none 4 0 (ms 1200) row

cascade-lost_duration_example :
    OnOk (λ p. p.shortened ≡ lost_duration 4 row p.cards) (cascade none 4 0 (ms 1200) row)
cascade-lost_duration_example = cascade-lost_duration none 4 0 (ms 1200) row

cascade_out_of_audio :
    OnRaise
      (λ e. (e.index ≡ 5) × (e.applied ≡ ms 1200))
      (cascade (some (ms 3000)) 4 0 (ms 1200) row)
unfolding cascade
cascade_out_of_audio = (refl, refl)

cascade-Accounted_example :
    OnRaise (Accounted (some (ms 3000)) 4 0 row) (cascade (some (ms 3000)) 4 0 (ms 1200) row)
cascade-Accounted_example = cascade-Accounted (some (ms 3000)) 4 0 (ms 1200) row
