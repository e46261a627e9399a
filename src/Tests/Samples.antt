-- ===== src/Tests/Samples.antt =====
-- Words and cards for the tests.
use Prim.Native.String.{String}
use dub_titlerr.Prelude.{ℕ, ◌≡◌, refl, some, List, [], ◌∷◌}
use dub_titlerr.Text.{codes}
use dub_titlerr.Reflow.{RawWord, Word, Segment, ms}
use dub_titlerr.Reflow.Glue.{text_of}
use dub_titlerr.Reflow.Wrap.{wrap_balance}

-- A word with its times in milliseconds.
abbrev pub spoken : String → ℕ → ℕ → ℕ → RawWord
spoken t start end seg = record {
  text = codes t;
  start = some (ms start);
  end = some (ms end);
  prob = 900000;
  seg = seg;
}

abbrev pub word : String → ℕ → ℕ → ℕ → Word
word t start end seg = record {
  text = codes t;
  start = ms start;
  end = ms end;
  prob = 900000;
  seg = seg;
}

abbrev pub segment : ℕ → ℕ → Segment
segment start end = record { start = some (ms start); end = some (ms end); no_speech_prob = 0 }

abbrev pub hyphen : List Word
hyphen =
    word " Gum" 0 200 0 ∷ word "-gum" 200 400 0 ∷ word " 2" 400 500 0 ∷ word ",000" 500 700 0 ∷ []

hyphen_text : text_of hyphen ≡ codes "Gum-gum 2,000"
unfolding text_of
hyphen_text = refl

wrapped :
    wrap_balance (codes "  one two three four five six seven eight nine ten ")
    ≡ codes "one two three four five\nsix seven eight nine ten"
unfolding wrap_balance
wrapped = refl

abbrev pub speech : List RawWord
speech =
    spoken " Hello" 100 300 0
    ∷ spoken " there." 300 500 0
    ∷ spoken " Go!" 700 800 1
    ∷ spoken " Now" 1000 1100 2
    ∷ spoken " we" 1100 1300 2
    ∷ spoken " run." 1300 1500 2
    ∷ []

abbrev pub speech_segments : List Segment
speech_segments = segment 0 600 ∷ segment 600 900 ∷ segment 900 2000 ∷ []
