-- ===== src/Journal/Compacted.antt =====
-- adjudication_journal.py: what `compact` leaves in the file and in the dictionary.
use mathlib.Core.Path.{subst}
use dub_titlerr.Prelude.{
  AllOf, ℕ, ◌≤◌, ◌≡◌, refl, sym, ap, ◌∙◌, Bool, true, false, Option, none, some, List, [], ◌∷◌,
  arith, length, if◌then◌else◌,
}
use dub_titlerr.Text.{Text, same_text}
use dub_titlerr.Journal.{
  Entry, Line, Journal, Reading, has_lines, not_found, no_access, read_file, lines_of, find_entry,
  lookup, answer_of, read_lines, put_all, load, is_fresh,
}
use dub_titlerr.Journal.Compact.{
  kept_sorted, as_lines, Rewrite, is_same, is_replaced, is_stopped, compacted, compact,
}
use dub_titlerr.Journal.Durable.{IsDurable}
use dub_titlerr.Journal.Kept.{
  AllOf-put_all, AllOf-kept_sorted, OfStage, OfStage-read_lines, read_lines-as_lines,
  Fresh-kept_sorted,
}
use dub_titlerr.Journal.Answers.{DistinctKeys-load, answer_of-compacted}

length-as_lines : (es : List Entry) → length (as_lines es) ≡ length es
length-as_lines [] = refl
length-as_lines (e ∷ es) = omega (arith, length-as_lines es)

OfStage-load : (stage : Text) (ls : List Line) → OfStage stage (load stage ls)
unfolding load
OfStage-load stage ls =
    AllOf-put_all (λ e. same_text e.stage stage ≡ true) (read_lines stage ls) []
      (OfStage-read_lines stage ls) tt

-- What is returned where the file was read and its place was taken by what is kept: the dictionary is
-- what the file says, the lines are counted, no entry is left that has expired, and every question
-- from then on is answered as before.
abbrev pub IsCompacted : ℕ → Journal → Journal × ℕ → Type 0
IsCompacted clock j (after, count) =
    IsDurable after
    × (after.is_broken ≡ false)
    × (count ≡ length (lines_of after.file))
    × AllOf (λ e. is_fresh clock j.max_age e.at ≡ true) after.entries
    × ((later : ℕ) (k p : Text) → clock ≤ later → lookup later k p after ≡ lookup later k p j)

-- The journal is given up, with its file and its dictionary as they were.
abbrev pub IsGivenUp : Journal → Journal × ℕ → Type 0
IsGivenUp j r = r ≡ (record j { is_broken = true }, 0)

-- The file is there, and could not be read: it is empty now, and the dictionary, too.
abbrev pub IsErased : Journal → Journal × ℕ → Type 0
IsErased j r = r ≡ (record j { file = some []; entries = []; is_broken = true }, 0)

-- What compaction comes to, by what reading the file comes to and how the rewrite ends.
abbrev pub Ends : ℕ → Journal → Reading → Option (List Line) → Rewrite → Journal × ℕ → Type 0
Ends clock j (has_lines ls) file is_same = IsCompacted clock j
Ends clock j (has_lines ls) file is_replaced = IsCompacted clock j
Ends clock j (has_lines ls) file is_stopped = IsGivenUp j
Ends clock j not_found file rewrite = λ r. r ≡ (j, 0)
Ends clock j no_access none rewrite = IsGivenUp j
Ends clock j no_access (some ls) is_same = IsErased j
Ends clock j no_access (some ls) is_replaced = IsErased j
Ends clock j no_access (some ls) is_stopped = IsGivenUp j

IsCompacted-kept :
    (clock : ℕ) (j : Journal) (ls : List Line)
    → j.entries ≡ load j.stage ls
    → j.is_broken ≡ false
    → IsCompacted clock j (
      record j {
        file = some (as_lines (kept_sorted clock j.max_age (load j.stage ls)));
        entries = put_all (kept_sorted clock j.max_age (load j.stage ls)) [];
      },
      length (kept_sorted clock j.max_age (load j.stage ls)),
    )
unfolding load lookup
IsCompacted-kept clock j ls d b =
    let kept = kept_sorted clock j.max_age (load j.stage ls) in
    (
      ap (λ es. put_all es [])
          (sym (
            read_lines-as_lines j.stage kept (
              AllOf-kept_sorted (λ e. same_text e.stage j.stage ≡ true) clock j.max_age
                (load j.stage ls) (OfStage-load j.stage ls)))),
      b,
      sym (length-as_lines kept),
      AllOf-put_all (λ e. is_fresh clock j.max_age e.at ≡ true) kept []
          (Fresh-kept_sorted clock j.max_age (load j.stage ls)) tt,
      λ later k p l.
          ap (λ o. if j.is_read then o else none)
            (answer_of-compacted clock later j.max_age k p (load j.stage ls) l
                (DistinctKeys-load j.stage ls)
              ∙ ap (λ es. answer_of later j.max_age p (find_entry k es)) (sym d)),
    )

Ends-compacted :
    (readable : Bool) (rewrite : Rewrite) (clock : ℕ) (j : Journal) (file : Option (List Line))
    → j.entries ≡ load j.stage (lines_of file)
    → j.file ≡ file
    → j.is_broken ≡ false
    → Ends clock j
        (read_file readable file)
        file
        rewrite
        (compacted rewrite clock j (read_file readable file))
unfolding put_all
Ends-compacted true is_same clock j (some ls) d f b = IsCompacted-kept clock j ls d b
Ends-compacted true is_replaced clock j (some ls) d f b = IsCompacted-kept clock j ls d b
Ends-compacted true is_stopped clock j (some ls) d f b = refl
Ends-compacted true rewrite clock j none d f b = rw f refl
Ends-compacted false rewrite clock j none d f b = rw f refl
Ends-compacted false is_same clock j (some ls) d f b = rw f refl
Ends-compacted false is_replaced clock j (some ls) d f b = rw f refl
Ends-compacted false is_stopped clock j (some ls) d f b = rw f refl

-- Compacting a journal that is not broken, and whose dictionary is what its file says. Where the file
-- is read and the rewrite is not stopped, the dictionary is what the file says, its lines are
-- counted, no entry is left that has expired, and every question from then on is answered as
-- before. Where the file is missing, all stays as it is. Where an OSError stops the rewrite, or a
-- file that cannot be read is not there either, the journal is broken, and nothing else changes.
-- Where the file is there and cannot be read, but can be replaced, it and the dictionary are empty.
pub compact-Ends :
    (readable : Bool) (rewrite : Rewrite) (clock : ℕ) (j : Journal)
    → IsDurable j
    → j.is_broken ≡ false
    → Ends clock j (read_file readable j.file) j.file rewrite (compact readable rewrite clock j)
unfolding compact
compact-Ends readable rewrite clock j d b =
    subst (Ends clock j (read_file readable j.file) j.file rewrite)
      (sym
        (ap (λ x. if x then (j, 0) else compacted rewrite clock j (read_file readable j.file)) b))
      (Ends-compacted readable rewrite clock j j.file d refl b)
