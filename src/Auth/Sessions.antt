-- ===== src/Auth/Sessions.antt =====
-- review_auth.py: `SessionStore`, up to the creation of a session. A session is known by the digest of its id; the store keeps the
-- rows in memory and mirrors them to a file. Requests that hold the locks come one after the other.
pub mod Use
pub mod Capped
pub mod Few
pub mod Steps
use dub_titlerr.Prelude.{
  ℕ, zero, suc, ◌+◌, ◌-◌, ◌*◌, Bool, true, false, not, ◌&&◌, ◌||◌, Option, none, some, List, [],
  ◌∷◌, ◌++◌, length, take, ltb, leb, ◌==◌, if◌then◌else◌,
}
use dub_titlerr.Text.{Text, same_text}
use dub_titlerr.Text.Lower.{lower}
use dub_titlerr.Text.Table.{find, put, remove}
use dub_titlerr.Auth.{
  Answer, ok, refused, ◌>>=◌, Problem, busy, not_writable, Disk, no_lock_file, lock_taken, no_write,
  fine,
}

-- Ticks in a second.
abbrev pub second : ℕ
second = 1000000

-- REMEMBER_SECONDS, IDLE_SECONDS, FLUSH_EVERY, COOKIE_REFRESH_EVERY, CLOCK_SKEW
abbrev pub remember_time : ℕ
remember_time = 30 * 86400 * second

abbrev pub idle_time : ℕ
idle_time = 12 * 3600 * second

abbrev pub flush_every : ℕ
flush_every = 600 * second

abbrev pub cookie_refresh_every : ℕ
cookie_refresh_every = 86400 * second

abbrev pub clock_skew : ℕ
clock_skew = 300 * second

abbrev pub max_per_account : ℕ
max_per_account = 20

pub record Row : Type 0 where
  pub id : Text
  pub name : Text
  pub created : ℕ
  pub last_seen : ℕ
  pub remember : Bool
  pub epoch : ℕ

-- A row of the file is a session or of a wrong shape.
pub data Line : Type 0 where
  session : Row → Line
  malformed : Line

pub data SessionsFile : Type 0 where
  no_file unreadable_file : SessionsFile
  listed : List Line → SessionsFile

-- `rows` is none before the first use; `cookie_at` says when a cookie was last sent.
pub record Store : Type 0 where
  pub rows : Option (List Row)
  pub cookie_at : List (Text × ℕ)
  pub flushed : ℕ
  pub file : SessionsFile

abbrev pub row_key : Row → Text
row_key r = r.id

abbrev pub cookie_key : Text × ℕ → Text
cookie_key c = c.0

-- A later row of the same id takes the place of an earlier one.
unfoldable pub rows_of_lines : List Row → List Line → List Row
unfolding put
rows_of_lines rows [] = rows
rows_of_lines rows (session r ∷ ls) = rows_of_lines (put row_key r rows) ls
rows_of_lines rows (malformed ∷ ls) = rows_of_lines rows ls

unfoldable pub rows_of_file : SessionsFile → List Row
unfolding rows_of_lines
rows_of_file no_file = []
rows_of_file unreadable_file = []
rows_of_file (listed ls) = rows_of_lines [] ls

-- What the store holds once it is loaded.
abbrev pub held : Store → List Row
held s = elim s.rows [ none ↦ rows_of_file s.file | some rs ↦ rs ]

unfoldable pub load : ℕ → Store → Store
unfolding rows_of_file
load now s = elim s.rows [
  | none ↦ record s { rows = some (rows_of_file s.file); flushed = now }
  | some rs ↦ s
]

-- Not seen in the future, past a skew of the clock, and seen not too long ago.
abbrev pub is_live : ℕ → Row → Bool
is_live now r =
    not (ltb (now + clock_skew) r.last_seen)
    && leb now (r.last_seen + (if r.remember then remember_time else idle_time))

unfoldable pub live_rows : ℕ → List Row → List Row
live_rows now [] = []
live_rows now (r ∷ rs) = let rest = live_rows now rs in if is_live now r then r ∷ rest else rest

unfoldable pub drop_cookies : ℕ → List Row → List (Text × ℕ) → List (Text × ℕ)
unfolding remove
drop_cookies now [] cookies = cookies
drop_cookies now (r ∷ rs) cookies =
    let rest = drop_cookies now rs cookies in
    if is_live now r then rest else remove cookie_key r.id rest

-- _snapshot: without the expired
unfoldable pub pruned : ℕ → Store → Store
unfolding live_rows drop_cookies
pruned now s = record s {
  rows = some (live_rows now (held s));
  cookie_at = drop_cookies now (held s) s.cookie_at;
}

unfoldable pub as_lines : List Row → List Line
as_lines [] = []
as_lines (r ∷ rs) = session r ∷ as_lines rs

-- _persist: the snapshot is taken under the lock of the file, before the write
unfoldable pub persist : Disk → ℕ → Store → Store × Answer (Unit {0})
unfolding pruned as_lines
persist no_lock_file now s = (s, refused not_writable)
persist lock_taken now s = (s, refused busy)
persist no_write now s = (pruned now s, refused not_writable)
persist fine now s =
    (record (pruned now s) { file = listed (as_lines (live_rows now (held s))) }, ok tt)

abbrev pub set_rows : List Row → Store → Store
set_rows rs s = record s { rows = some rs }

-- The rows of an account, in the order of the store.
unfoldable pub rows_of : Text → List Row → List Row
unfolding same_text lower
rows_of name [] = []
rows_of name (r ∷ rs) =
    let rest = rows_of name rs in if same_text (lower r.name) (lower name) then r ∷ rest else rest

-- sorted(mine, key=created)
unfoldable pub insert_created : Row → List Row → List Row
insert_created r [] = r ∷ []
insert_created r (q ∷ qs) =
    let rest = insert_created r qs in if leb r.created q.created then r ∷ q ∷ qs else q ∷ rest

unfoldable pub by_created : List Row → List Row
unfolding insert_created
by_created [] = []
by_created (r ∷ rs) = insert_created r (by_created rs)

unfoldable pub remove_rows : List Row → List Row → List Row
unfolding remove
remove_rows [] rs = rs
remove_rows (g ∷ gone) rs = remove_rows gone (remove row_key g.id rs)

unfoldable pub remove_cookies : List Row → List (Text × ℕ) → List (Text × ℕ)
unfolding remove
remove_cookies [] cs = cs
remove_cookies (g ∷ gone) cs = remove_cookies gone (remove cookie_key g.id cs)

-- The oldest rows of an account that has too many.
unfoldable pub surplus : Text → List Row → List Row
unfolding rows_of by_created
surplus name rs = take (length (rows_of name rs) - max_per_account) (by_created (rows_of name rs))

abbrev pub new_row : ℕ → Text → Text → Bool → ℕ → Row
new_row now id name remember epoch = record {
  id = id;
  name = name;
  created = now;
  last_seen = now;
  remember = remember;
  epoch = epoch;
}

-- The store with the new row, and without the surplus.
unfoldable pub with_row : Row → Store → Store
unfolding put surplus remove_rows remove_cookies
with_row r s =
    let rs = put row_key r (held s) in
    let gone = surplus r.name rs in
    record s {
      rows = some (remove_rows gone rs);
      cookie_at = remove_cookies gone (put cookie_key (r.id, r.created) s.cookie_at);
    }

-- What is left of a row that could not be saved.
unfoldable pub forget : Text → Store → Store
unfolding remove
forget id s = record s {
  rows = some (remove row_key id (held s));
  cookie_at = remove cookie_key id s.cookie_at;
}

abbrev pub created : ℕ → Text → Store × Answer (Unit {0}) → Store × Answer Text
created now id (s, ok u) = (record s { flushed = now }, ok id)
created now id (s, refused p) = (forget id s, refused p)

-- `id` is the digest of a fresh random id, which is what the caller gets.
unfoldable pub create : Disk → ℕ → Text → Text → Bool → ℕ → Store → Store × Answer Text
unfolding load with_row persist
create disk now id name remember epoch s =
    created now id (persist disk now (with_row (new_row now id name remember epoch) (load now s)))
