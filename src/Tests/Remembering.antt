-- ===== src/Tests/Remembering.antt =====
-- A remembered adjudication, and cards that whisper repeats.
use mathlib.Core.List.{flatten}
use dub_titlerr.Prelude.{◌≡◌, refl, true, false, none, some, List, [], ◌∷◌}
use dub_titlerr.Text.{codes}
use dub_titlerr.Requests.Json.{bool, str, Dict, no_fields, field, get}
use dub_titlerr.AcquireCache.{escalation_for, remember_escalation}
use dub_titlerr.AcquireCache.Remembered.{
  IsRemembered, remember_escalation-IsRemembered, remember_escalation-raises,
}
use dub_titlerr.Hallucination.{Card, collapse_runs, is_repetition}
use dub_titlerr.Hallucination.Runs.{AreRuns, Collapsed, collapse_runs_exact}
use dub_titlerr.Journal.{
  Journal, load, open_journal, encodes_text, encodes_dict, encodes_entry, is_written, new_entry,
  record_answer,
}
use dub_titlerr.Journal.Compact.{is_replaced, compact}
use dub_titlerr.Journal.Durable.{IsWritten, record_answer-IsWritten}
use dub_titlerr.Journal.Compacted.{IsCompacted, compact-Ends}

abbrev answer : Dict
answer = field (codes "same_entity") (bool true) no_fields

-- A cache of the old shape: a verdict for each token.
abbrev old_shape : Dict
old_shape = field (codes "Zolo") (str (codes "flag")) no_fields

remember_escalation-IsRemembered_example :
    IsRemembered old_shape
      (codes "Lufy")
      (codes "Luffy")
      answer
      (remember_escalation old_shape (codes "Lufy") (codes "Luffy") answer)
unfolding get
remember_escalation-IsRemembered_example =
    remember_escalation-IsRemembered old_shape (codes "Lufy") (codes "Luffy") answer refl tt

remember_escalation-raises_example :
    (remember_escalation old_shape (codes "Zolo") (codes "Zoro") answer ≡ none)
    × (escalation_for old_shape (codes "Zolo") (codes "Zoro") ≡ none)
unfolding get
remember_escalation-raises_example =
    remember_escalation-raises old_shape (codes "Zolo") (codes "Zoro") answer refl (λ s. s)

abbrev cards : List Card
cards =
    record { start = 1; end = 2; text = codes "No!"; source_start = none; source_end = none }
    ∷ record { start = 3; end = 4; text = codes "no"; source_start = none; source_end = none }
    ∷ record { start = 5; end = 6; text = codes "NO."; source_start = none; source_end = none }
    ∷ record { start = 7; end = 8; text = codes "No"; source_start = none; source_end = none }
    ∷ []

collapsed :
    collapse_runs cards
    ≡ record { start = 1; end = 8; text = codes "No!"; source_start = none; source_end = none } ∷ []
unfolding collapse_runs
collapsed = refl

looped : is_repetition (codes "Ha ha ha, ha ha ha, go!") ≡ true
unfolding is_repetition
looped = refl

not_looped : is_repetition (codes "We go to the sea and we find it") ≡ false
unfolding is_repetition
not_looped = refl

collapse_runs_exact_example :
    (bs : List (List Card)) × (flatten bs ≡ cards) × AreRuns bs × Collapsed bs (collapse_runs cards)
collapse_runs_exact_example = collapse_runs_exact cards

abbrev journal : Journal
journal = record {
  stage = codes "verify";
  file = none;
  entries = [];
  is_read = true;
  is_broken = false;
  max_age = 100;
}

answer_encodes : encodes_entry (new_entry 5 (codes "pick") (codes "p") answer journal) ≡ true
unfolding encodes_text encodes_dict
answer_encodes = refl

-- A key with a lone surrogate is not recorded, and the journal goes on.
surrogate_refused :
    record_answer is_written 5 (0xd800 ∷ []) (codes "p") answer journal ≡ (journal, false)
unfolding record_answer get
surrogate_refused = refl

record_answer-IsWritten_example :
    IsWritten 5
      (codes "pick")
      (codes "p")
      answer
      journal
      (record_answer is_written 5 (codes "pick") (codes "p") answer journal)
unfolding get load
record_answer-IsWritten_example =
    record_answer-IsWritten 5 (codes "pick") (codes "p") answer journal refl refl refl
      answer_encodes

-- A journal with an entry that has expired at 200, which is read again.
abbrev journal_then : Journal
journal_then =
    open_journal (codes "verify") 100 true true
      (record_answer is_written 5 (codes "pick") (codes "p") answer journal).0.file

compact-Ends_example : IsCompacted 200 journal_then (compact true is_replaced 200 journal_then)
unfolding get record_answer open_journal
compact-Ends_example = compact-Ends true is_replaced 200 journal_then refl refl

-- A file that could not be read for a moment is replaced by an empty one.
journal_erased : (compact false is_replaced 6 journal_then).0.file ≡ some []
unfolding get record_answer open_journal compact
journal_erased = refl
