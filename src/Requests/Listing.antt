-- ===== src/Requests/Listing.antt =====
-- review_requests.py: `create`, which adds to the queue, and `list_requests`, `request_shows` and
-- `prune`, which read or clean the directory.
pub mod Twins
pub mod Pruned
use dub_titlerr.Prelude.{
  ℕ, zero, suc, ◌+◌, ◌-◌, ◌*◌, max, Bool, true, false, not, ◌&&◌, ◌||◌, Option, none, some, List,
  [], ◌∷◌, ◌++◌, take, ltb, ◌==◌, if◌then◌else◌,
}
use dub_titlerr.Text.{Text, codes, any, one_of, same_text, text_le}
use dub_titlerr.Text.Control.{is_control}
use dub_titlerr.Requests.Body.{Clean, derive_generate_only_re, traverses}
use dub_titlerr.Requests.Files.{
  pending, IdField, no_id, null_id, has_id, Request, Content, doc, not_object, not_json, Entry,
  Disk, Raised, no_dict, Attempt, done_with, raised, ◌>>=◌, replace,
}
use dub_titlerr.Requests.Queue.{has_ext, json_ext, running_ext, stem, is_pending}

unfoldable pub same_option_text : Option Text → Option Text → Bool
unfolding same_text
same_option_text none none = true
same_option_text none (some t) = false
same_option_text (some s) none = false
same_option_text (some s) (some t) = same_text s t

abbrev pub same_option_number : Option ℕ → Option ℕ → Bool
same_option_number none none = true
same_option_number none (some n) = false
same_option_number (some m) none = false
same_option_number (some m) (some n) = m == n

-- The same show, season and episode_re.
unfoldable pub asks_same : Clean → Request → Bool
unfolding same_option_text
asks_same c r =
    same_option_text r.show (some c.show)
    && same_option_number r.season c.season
    && same_option_text r.episode_re c.episode_re

-- existing.get("id", t), where none is null
abbrev pub get_id : IdField → Text → Option Text
get_id no_id t = some t
get_id null_id t = none
get_id (has_id i) t = some i

-- One round of the loop: the name of the file, whether it is a visible .json file, what it holds,
-- and what the rest of the loop finds.
abbrev pub identical_in :
    Clean → Text → Bool → Content → Attempt (Option (Option Text)) → Attempt (Option (Option Text))
identical_in c n shown (doc r) rest =
    if shown && (is_pending r && asks_same c r)
    then done_with (some (get_id r.id (stem json_ext n)))
    else rest
identical_in c n shown not_object rest = if shown then raised no_dict else rest
identical_in c n shown not_json rest = rest

-- The id of the first request in the queue that is pending and asks the same; it can be null.
unfoldable pub identical : Clean → List Entry → Attempt (Option (Option Text))
unfolding has_ext asks_same
identical c [] = done_with none
identical c (e ∷ es) = identical_in c e.name (has_ext json_ext e.name) e.content (identical c es)

-- The answers of `create`, 409 and 201.
pub data Created : Type 0 where
  conflict : Option Text → Created
  created : Text → Created

-- The document of a new request.
unfoldable pub new_request : Text → Text → Clean → Request
unfolding derive_generate_only_re
new_request id at c = record {
  id = has_id id;
  show = some c.show;
  season = c.season;
  episode_re = c.episode_re;
  generate_only_re = some (derive_generate_only_re c.season c.episode_re);
  require_eng = c.require_eng;
  webhook = c.webhook;
  created_at = some at;
  status = some pending;
  error = none;
  finished_at = none;
}

abbrev pub answer : ℕ → Text → Text → Clean → Disk → Option (Option Text) → Disk × Created
answer clock id at c disk (some old) = (disk, conflict old)
answer clock id at c disk none = (
  record disk {
    queue =
        replace
          (record { name = id ++ json_ext; content = doc (new_request id at c); mtime = clock })
          disk.queue;
  },
  created id,
)

-- `create` behind `validate`. The id and the time are made from the clock and a random number.
unfoldable pub create : ℕ → Text → Text → Clean → Disk → Attempt (Disk × Created)
unfolding identical replace new_request
create clock id at c disk =
    identical c disk.queue >>= λ old. done_with (answer clock id at c disk old)

abbrev listed_name : Text → Bool
listed_name name = has_ext json_ext name || has_ext running_ext name

-- entries.sort(key=name, reverse=True), which keeps the order of equal names
insert_newest : Entry → List Entry → List Entry
unfolding text_le
insert_newest e [] = e ∷ []
insert_newest e (f ∷ fs) =
    let rest = insert_newest e fs in if text_le f.name e.name then e ∷ f ∷ fs else f ∷ rest

unfoldable pub newest_first : List Entry → List Entry
unfolding has_ext insert_newest
newest_first [] = []
newest_first (e ∷ es) =
    let rest = newest_first es in
    let inserted = insert_newest e rest in if listed_name e.name then inserted else rest

-- The objects with an id or a status.
abbrev is_request : Request → Bool
is_request r = elim r.id [
  | has_id i ↦ true
  | null_id ↦ true
  | no_id ↦ elim r.status [ some s ↦ true | none ↦ false ]
]

unfoldable pub requests_of : List Entry → List Request
requests_of [] = []
requests_of (e ∷ es) =
    let rest = requests_of es in
    elim e.content [
      | doc r ↦ if is_request r then r ∷ rest else rest
      | not_object ↦ rest
      | not_json ↦ rest
    ]

unfoldable pub list_requests : Disk → List Request
unfolding newest_first requests_of
list_requests disk =
    take 200 (requests_of (newest_first (disk.queue ++ disk.finished_ok ++ disk.finished_failed)))

abbrev day : ℕ
day = 86400

-- Older than `days`, one at least.
abbrev pub is_stale : ℕ → ℕ → Entry → Bool
is_stale days now e = ltb (e.mtime + max 1 days * day) now

unfoldable pub prune_dir : ℕ → ℕ → List Entry → List Entry × ℕ
unfolding has_ext
prune_dir days now [] = ([], 0)
prune_dir days now (e ∷ es) =
    let rest = prune_dir days now es in
    if has_ext json_ext e.name && is_stale days now e
    then (rest.0, suc rest.1)
    else (e ∷ rest.0, rest.1)

unfoldable pub prune : ℕ → ℕ → Disk → Disk × ℕ
unfolding prune_dir
prune days now disk =
    let ok_dir = prune_dir days now disk.finished_ok in
    let bad_dir = prune_dir days now disk.finished_failed in
    (record disk { finished_ok = ok_dir.0; finished_failed = bad_dir.0 }, ok_dir.1 + bad_dir.1)

unfoldable pub is_show_name : Text → Bool
unfolding same_text traverses any is_control
is_show_name [] = false
is_show_name (c ∷ t) =
    not (same_text (c ∷ t) (codes ".")) && not (traverses (c ∷ t)) && not (any is_control (c ∷ t))

unfoldable pub show_of : Content → Option Text
unfolding is_show_name
show_of (doc r) = elim r.show [ none ↦ none | some t ↦ if is_show_name t then some t else none ]
show_of not_object = none
show_of not_json = none

abbrev cons_show : Option Text → List Text → List Text
cons_show none ts = ts
cons_show (some t) ts = t ∷ ts

-- The shows of a directory, where only what is not stale counts if `recent`.
unfoldable pub shows_in : Bool → ℕ → ℕ → List Entry → List Text
unfolding has_ext show_of
shows_in recent days now [] = []
shows_in recent days now (e ∷ es) =
    let rest = shows_in recent days now es in
    if listed_name e.name && not (recent && is_stale days now e)
    then cons_show (show_of e.content) rest
    else rest

-- sorted(set(…)): inserted where it is not there yet
insert_text : Text → List Text → List Text
unfolding text_le same_text
insert_text t [] = t ∷ []
insert_text t (u ∷ us) =
    let rest = insert_text t us in
    if same_text t u then u ∷ us else if text_le t u then t ∷ u ∷ us else u ∷ rest

unfoldable pub sorted_set : List Text → List Text
unfolding insert_text
sorted_set [] = []
sorted_set (t ∷ ts) = insert_text t (sorted_set ts)

unfoldable pub request_shows : ℕ → ℕ → Disk → List Text
unfolding shows_in sorted_set
request_shows days now disk =
    sorted_set (shows_in false days now disk.queue ++ shows_in true days now disk.finished_ok)
