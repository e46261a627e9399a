-- ===== src/Journal/Durable.antt =====
-- adjudication_journal.py: an answer is on disk as soon as it is recorded.
use mathlib.Core.Path.{subst}
use dub_titlerr.Prelude.{
  ℕ, ◌+◌, ◌≡◌, refl, sym, ap, ◌∙◌, Bool, true, false, not, ◌||◌, none, some, List, [], ◌∷◌, ◌++◌,
  arith, leb, if◌then◌else◌, Bool-cases, inl, inr,
}
use dub_titlerr.Text.{Text, same_text}
use dub_titlerr.Text.Order.{same_text_refl, same_text→eq}
use dub_titlerr.Requests.Json.{Dict}
use dub_titlerr.Journal.{
  Entry, Line, entry, unreadable, Journal, find_entry, put_entry, read_lines, put_all, load,
  open_journal, is_fresh, answer_of, lookup, appended, journalable, lines_of, encodes_entry,
  is_written, new_entry, record_answer,
}

pub find_entry-put_entry :
    (e : Entry) (es : List Entry) → find_entry e.key (put_entry e es) ≡ some e
unfolding find_entry put_entry
find_entry-put_entry e [] = ground (arith, same_text_refl e.key)
find_entry-put_entry e (f ∷ fs) = ground (arith, same_text_refl e.key, find_entry-put_entry e fs)

pub find_entry-put_other :
    (k : Text) (e : Entry) (es : List Entry)
    → same_text e.key k ≡ false
    → find_entry k (put_entry e es) ≡ find_entry k es
unfolding find_entry put_entry
find_entry-put_other k e [] h = ground (arith, h)
find_entry-put_other k e (f ∷ fs) h =
    ground (arith, h, find_entry-put_other k e fs h, same_text→eq f.key e.key)

read_lines-append :
    (stage : Text) (ls : List Line) (e : Entry)
    → same_text e.stage stage ≡ true
    → read_lines stage (ls ++ entry e ∷ []) ≡ read_lines stage ls ++ e ∷ []
unfolding read_lines
read_lines-append stage [] e h = rw (h)
read_lines-append stage (unreadable ∷ ls) e h = read_lines-append stage ls e h
read_lines-append stage (entry f ∷ ls) e h = elim (Bool-cases (same_text f.stage stage)) [
  | inl k ↦ rw (k) (ap (λ r. f ∷ r) (read_lines-append stage ls e h))
  | inr k ↦ rw (k) (read_lines-append stage ls e h)
]

put_all-append :
    (es : List Entry) (e : Entry) (d : List Entry)
    → put_all (es ++ e ∷ []) d ≡ put_entry e (put_all es d)
unfolding put_all
put_all-append [] e d = refl
put_all-append (f ∷ fs) e d = put_all-append fs e (put_entry f d)

-- The dictionary is what a new start would read from the file.
abbrev pub IsDurable : Journal → Type 0
IsDurable j = j.entries ≡ load j.stage (lines_of j.file)

-- An answer that is recorded is found for its key and provenance, while it is fresh, in this journal,
-- if it serves answers, and in one that is opened on the file later; the answers to other keys are as
-- before.
abbrev pub IsRecorded : ℕ → Text → Text → Dict → Journal → Journal → Type 0
IsRecorded clock key prov result before after =
    IsDurable after
    × ((later : ℕ)
        → leb later (clock + before.max_age) ≡ true
        → lookup later key prov (open_journal before.stage before.max_age true true after.file)
          ≡ some result)
    × ((later : ℕ)
        → leb later (clock + before.max_age) ≡ true
        → lookup later key prov after ≡ (if before.is_read then some result else none))
    × ((later : ℕ) (k p : Text)
        → same_text key k ≡ false
        → lookup later k p after ≡ lookup later k p before)

load-append :
    (stage : Text) (ls : List Line) (e : Entry)
    → same_text e.stage stage ≡ true
    → load stage (ls ++ entry e ∷ []) ≡ put_entry e (load stage ls)
unfolding load
load-append stage ls e h =
    ap (λ es. put_all es []) (read_lines-append stage ls e h)
    ∙ put_all-append (read_lines stage ls) e []

answer_of-same :
    (clock max_age : ℕ) (prov : Text) (e : Entry)
    → same_text e.prov prov ≡ true
    → is_fresh clock max_age e.at ≡ true
    → answer_of clock max_age prov (some e) ≡ some e.result
answer_of-same clock max_age prov e h k = rw (h, k)

module _ (j : Journal) (e : Entry) (durable : IsDurable j)
    (own : same_text e.stage j.stage ≡ true) where
  IsDurable-appended : IsDurable (appended j e)
  IsDurable-appended = ap (put_entry e) durable ∙ sym (load-append j.stage (lines_of j.file) e own)

  lookup-reopened :
      (later : ℕ)
      → is_fresh later j.max_age e.at ≡ true
      → lookup later e.key e.prov (open_journal j.stage j.max_age true true (appended j e).file)
        ≡ some e.result
  unfolding lookup open_journal
  lookup-reopened later h =
      ap (λ es. answer_of later j.max_age e.prov (find_entry e.key es))
        (load-append j.stage (lines_of j.file) e own)
      ∙ ap (answer_of later j.max_age e.prov)
          (find_entry-put_entry e (load j.stage (lines_of j.file)))
      ∙ answer_of-same later j.max_age e.prov e (same_text_refl e.prov) h

  lookup-appended :
      (later : ℕ)
      → is_fresh later j.max_age e.at ≡ true
      → lookup later e.key e.prov (appended j e) ≡ (if j.is_read then some e.result else none)
  unfolding lookup
  lookup-appended later h =
      ap (λ o. if j.is_read then o else none)
        (ap (answer_of later j.max_age e.prov) (find_entry-put_entry e j.entries)
          ∙ answer_of-same later j.max_age e.prov e (same_text_refl e.prov) h)

  lookup_others :
      (later : ℕ) (k p : Text)
      → same_text e.key k ≡ false
      → lookup later k p (appended j e) ≡ lookup later k p j
  unfolding lookup
  lookup_others later k p h =
      ap (λ o. if j.is_read then answer_of later j.max_age p o else none)
        (find_entry-put_other k e j.entries h)

if_written {ℓ} :
    {A : Type ℓ} (b c d : Bool) (x y : A)
    → b ≡ false
    → c ≡ true
    → d ≡ true
    → (if b || not c then x else if d then y else x) ≡ y
if_written b c d x y h k l = ground (arith, h, k, l)

-- What is returned for a recorded answer.
abbrev pub IsWritten : ℕ → Text → Text → Dict → Journal → Journal × Bool → Type 0
IsWritten clock key prov result j (after, written) =
    (written ≡ true) × IsRecorded clock key prov result j after

-- A journal that is not broken, and whose dictionary is what its file says, records a real
-- adjudication that can be encoded, if the line is written: the answer is found for its key and
-- provenance while it is fresh, by this journal, if it serves answers, and by one that is opened on
-- the file later; and the answers to other keys are as before.
pub record_answer-IsWritten :
    (clock : ℕ) (key prov : Text) (result : Dict) (j : Journal)
    → IsDurable j
    → j.is_broken ≡ false
    → journalable result ≡ true
    → encodes_entry (new_entry clock key prov result j) ≡ true
    → IsWritten clock key prov result j (record_answer is_written clock key prov result j)
unfolding record_answer
record_answer-IsWritten clock key prov result j d b h c =
    let e : Entry = new_entry clock key prov result j in
    subst (IsWritten clock key prov result j)
      (sym (
        if_written j.is_broken (journalable result) (encodes_entry e) (j, false)
          (appended j e, true) b h c))
      (
        refl,
        (
          IsDurable-appended j e d (same_text_refl j.stage),
          lookup-reopened j e d (same_text_refl j.stage),
          lookup-appended j e d (same_text_refl j.stage),
          lookup_others j e d (same_text_refl j.stage),
        ),
      )
