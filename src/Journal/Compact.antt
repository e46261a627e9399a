-- ===== src/Journal/Compact.antt =====
-- adjudication_journal.py: `compact`.
use dub_titlerr.Prelude.{
  ℕ, Bool, true, false, ◌&&◌, ◌||◌, Option, none, some, List, [], ◌∷◌, length, ltb, ◌==◌,
  if◌then◌else◌,
}
use dub_titlerr.Text.{text_le}
use dub_titlerr.Journal.{
  Entry, Line, entry, Journal, Reading, has_lines, not_found, no_access, read_file, put_all, load,
  is_fresh,
}

-- The order of (at, key); entries without a time are not kept.
abbrev pub sooner : Entry → Entry → Bool
sooner e f = elim e.at [
  | none ↦ true
  | some s ↦ elim f.at [ none ↦ false | some t ↦ ltb s t || s == t && text_le e.key f.key ]
]

unfoldable pub insert_sooner : Entry → List Entry → List Entry
unfolding text_le
insert_sooner e [] = e ∷ []
insert_sooner e (f ∷ fs) =
    let rest = insert_sooner e fs in if sooner e f then e ∷ f ∷ fs else f ∷ rest

-- The entries that compaction keeps, in its order.
unfoldable pub kept_sorted : ℕ → ℕ → List Entry → List Entry
unfolding insert_sooner
kept_sorted clock max_age [] = []
kept_sorted clock max_age (e ∷ es) =
    let rest = kept_sorted clock max_age es in
    let inserted = insert_sooner e rest in if is_fresh clock max_age e.at then inserted else rest

abbrev pub as_lines : List Entry → List Line
as_lines [] = []
as_lines (e ∷ es) = entry e ∷ as_lines es

-- How the file comes to be what compaction keeps: it is so to the letter, it is replaced, or an
-- OSError keeps it as it was. A file that cannot be read is never known to be so already.
pub data Rewrite : Type 0 where
  is_same is_replaced is_stopped : Rewrite

abbrev pub rewritten : Rewrite → List Entry → Journal → Journal × ℕ
rewritten is_stopped kept j = (record j { is_broken = true }, 0)
rewritten _ kept j =
    (record j { file = some (as_lines kept); entries = put_all kept [] }, length kept)

abbrev pub unread : Rewrite → Option (List Line) → Journal → Journal × ℕ
unread rewrite none j = (j, 0)
unread rewrite (some lines) j = rewritten rewrite [] j

-- Nothing was read where the file is missing, or could not be read; only the second breaks the
-- journal, and the rest goes on as for a file without entries.
abbrev pub compacted : Rewrite → ℕ → Journal → Reading → Journal × ℕ
compacted rewrite clock j (has_lines lines) =
    rewritten rewrite (kept_sorted clock j.max_age (load j.stage lines)) j
compacted rewrite clock j not_found = unread rewrite j.file j
compacted rewrite clock j no_access = unread rewrite j.file (record j { is_broken = true })

-- Whether the file can be read, and how the rewrite ends, are arguments.
unfoldable pub compact : Bool → Rewrite → ℕ → Journal → Journal × ℕ
unfolding kept_sorted load put_all
compact readable rewrite clock j =
    if j.is_broken then (j, 0) else compacted rewrite clock j (read_file readable j.file)
