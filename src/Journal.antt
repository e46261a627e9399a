-- ===== src/Journal.antt =====
-- adjudication_journal.py: the journal of adjudications, one line of JSON for each. A file is its
-- lines; `prov` is the text of the object that says what an answer depended on; times are seconds.
-- Entries of a file are taken to have no lone surrogate, which only a hand-written line can have.
pub mod Durable
pub mod Compact
pub mod Kept
pub mod Answers
pub mod Compacted
use dub_titlerr.Prelude.{
  ℕ, ◌+◌, Bool, true, false, not, ◌&&◌, ◌||◌, Option, none, some, List, [], ◌∷◌, ◌++◌, length, ltb,
  leb, ◌==◌, if◌then◌else◌,
}
use dub_titlerr.Text.{Text, codes, any, same_text, text_le}
use dub_titlerr.Requests.Json.{
  Json, null, bool, int, decimal, str, array, object, Array, no_items, item, Dict, no_fields, field,
  get,
}
use dub_titlerr.Auth.{is_surrogate}
use dub_titlerr.AcquireCache.{truthy_at}

-- A line of the right version and shape. `at` is none where it is no number.
pub record Entry : Type 0 where
  pub stage : Text
  pub key : Text
  pub prov : Text
  pub result : Dict
  pub at : Option ℕ

-- A line is an entry, or torn, no JSON, or of another version or shape.
pub data Line : Type 0 where
  entry : Entry → Line
  unreadable : Line

-- An open journal: the file, none where it is missing, and the dictionary that is made of it.
pub record Journal : Type 0 where
  pub stage : Text
  pub file : Option (List Line)
  pub entries : List Entry
  pub is_read : Bool
  pub is_broken : Bool
  pub max_age : ℕ

unfoldable pub find_entry : Text → List Entry → Option Entry
unfolding same_text
find_entry k [] = none
find_entry k (e ∷ es) = let rest = find_entry k es in if same_text e.key k then some e else rest

-- entries[e["key"]] = e: at the place of the key, or behind the others
unfoldable pub put_entry : Entry → List Entry → List Entry
unfolding same_text
put_entry e [] = e ∷ []
put_entry e (f ∷ fs) =
    let rest = put_entry e fs in if same_text f.key e.key then e ∷ fs else f ∷ rest

-- _read_lines: the entries of the stage
unfoldable pub read_lines : Text → List Line → List Entry
unfolding same_text
read_lines stage [] = []
read_lines stage (unreadable ∷ ls) = read_lines stage ls
read_lines stage (entry e ∷ ls) =
    let rest = read_lines stage ls in if same_text e.stage stage then e ∷ rest else rest

-- Later entries win; the second argument is the dictionary so far.
unfoldable pub put_all : List Entry → List Entry → List Entry
unfolding put_entry
put_all [] d = d
put_all (e ∷ es) d = put_all es (put_entry e d)

unfoldable pub load : Text → List Line → List Entry
unfolding read_lines put_all
load stage lines = put_all (read_lines stage lines) []

-- What comes of opening the file: its lines, FileNotFoundError, or another OSError.
pub data Reading : Type 0 where
  has_lines : List Line → Reading
  not_found no_access : Reading

abbrev pub read_file : Bool → Option (List Line) → Reading
read_file true (some lines) = has_lines lines
read_file true none = not_found
read_file false file = no_access

abbrev pub loaded : Text → Reading → List Entry
loaded stage (has_lines lines) = load stage lines
loaded stage not_found = []
loaded stage no_access = []

abbrev pub is_unreadable : Reading → Bool
is_unreadable no_access = true
is_unreadable _ = false

-- The constructor of the class. A file that cannot be read breaks the journal.
unfoldable pub open_journal : Text → ℕ → Bool → Bool → Option (List Line) → Journal
unfolding load
open_journal stage max_age is_read readable file = record {
  stage = stage;
  file = file;
  entries = loaded stage (read_file readable file);
  is_read = is_read;
  is_broken = is_unreadable (read_file readable file);
  max_age = max_age;
}

-- Kept up to and including the limit.
abbrev pub is_fresh : ℕ → ℕ → Option ℕ → Bool
is_fresh clock max_age none = false
is_fresh clock max_age (some at) = leb clock (at + max_age)

abbrev pub answer_of : ℕ → ℕ → Text → Option Entry → Option Dict
answer_of clock max_age prov none = none
answer_of clock max_age prov (some e) =
    if same_text e.prov prov && is_fresh clock max_age e.at then some e.result else none

unfoldable pub lookup : ℕ → Text → Text → Journal → Option Dict
unfolding find_entry
lookup clock key prov j =
    if j.is_read then answer_of clock j.max_age prov (find_entry key j.entries) else none

abbrev pub journalable : Dict → Bool
journalable result =
    not (truthy_at (get result (codes "unavailable")))
    && not (truthy_at (get result (codes "fallback")))

-- The text and the values can be encoded as UTF-8: no lone surrogates.
unfoldable pub encodes_text : Text → Bool
unfolding any
encodes_text t = not (any is_surrogate t)

unfoldable mutual
  pub encodes_json : Json → Bool
  encodes_json null = true
  encodes_json (bool b) = true
  encodes_json (int n) = true
  encodes_json (decimal m k) = true
  encodes_json (str t) = encodes_text t
  encodes_json (array a) = encodes_array a
  encodes_json (object d) = encodes_dict d

  pub encodes_array : Array → Bool
  encodes_array no_items = true
  encodes_array (item v a) = encodes_json v && encodes_array a

  pub encodes_dict : Dict → Bool
  encodes_dict no_fields = true
  encodes_dict (field k v d) = encodes_text k && encodes_json v && encodes_dict d

abbrev pub encodes_entry : Entry → Bool
encodes_entry e =
    encodes_text e.stage && encodes_text e.key && encodes_text e.prov && encodes_dict e.result

-- How the write of a line ends: it is on disk, or an OSError leaves something or nothing of it.
pub data Write : Type 0 where
  is_written : Write
  fails_with : List Line → Write

abbrev pub lines_of : Option (List Line) → List Line
lines_of none = []
lines_of (some lines) = lines

abbrev pub extended : Option (List Line) → List Line → Option (List Line)
extended file [] = file
extended file (l ∷ ls) = some (lines_of file ++ l ∷ ls)

abbrev pub appended : Journal → Entry → Journal
appended j e = record j { file = extended j.file (entry e ∷ []); entries = put_entry e j.entries }

abbrev pub after_write : Write → Journal → Entry → Journal × Bool
after_write is_written j e = (appended j e, true)
after_write (fails_with left) j e =
    (record j { is_broken = true; file = extended j.file left }, false)

abbrev pub new_entry : ℕ → Text → Text → Dict → Journal → Entry
new_entry clock key prov result j = record {
  stage = j.stage;
  key = key;
  prov = prov;
  result = result;
  at = some clock;
}

-- `record`. A line is on disk before the dictionary has it; behind a torn last line it starts on its
-- own. What cannot be encoded is not written, and breaks nothing.
unfoldable pub record_answer : Write → ℕ → Text → Text → Dict → Journal → Journal × Bool
unfolding put_entry encodes_text encodes_dict
record_answer write clock key prov result j =
    if j.is_broken || not (journalable result)
    then (j, false)
    else if encodes_entry (new_entry clock key prov result j)
    then after_write write j (new_entry clock key prov result j)
    else (j, false)
