-- ===== src/Requests/Queue.antt =====
-- review_requests.py: `next_pending`, `mark_running`, `requeue`, `finish` and
-- `recover_running`, which move a request file through the directory. The clock and the times in
-- the files are arguments.
pub mod Oldest
pub mod Moves
pub mod Recovery
pub mod Damaged
pub mod Requeued
use dub_titlerr.Prelude.{
  ℕ, ◌-◌, Bool, true, false, not, ◌&&◌, ◌||◌, Option, none, some, List, [], ◌∷◌, ◌++◌, length, take,
  ◌==◌, if◌then◌else◌,
}
use dub_titlerr.Text.{Text, codes, ends_with, starts_with, same_text, text_le}
use dub_titlerr.Requests.Body.{Clean, derive_generate_only_re}
use dub_titlerr.Requests.Files.{
  Status, pending, running, done, failed, IdField, no_id, null_id, has_id, Request, Content, doc,
  not_object, not_json, Entry, Folder, queue_dir, done_dir, failed_dir, elsewhere, FilePath, Disk,
  Raised, file_not_found, no_json, no_dict, not_inside, Attempt, done_with, raised, ◌>>=◌, files,
  find, unlink, replace, exists,
}

abbrev pub json_ext : Text
json_ext = codes ".json"

abbrev pub running_ext : Text
running_ext = codes ".running"

-- name[:-len(ext)]
abbrev pub stem : Text → Text → Text
stem ext name = take (length name - length ext) name

-- A name with the ending, which does not start with a dot.
unfoldable pub has_ext : Text → Text → Bool
unfolding ends_with starts_with
has_ext ext name = ends_with ext name && not (starts_with (codes ".") name)

abbrev pub is_queue : Folder → Bool
is_queue queue_dir = true
is_queue _ = false

abbrev pub read_content : Content → Attempt Request
read_content (doc r) = done_with r
read_content not_object = raised no_dict
read_content not_json = raised no_json

abbrev pub read_found : Option Entry → Attempt Request
read_found none = raised file_not_found
read_found (some e) = read_content e.content

-- `_check_requests_dir_containment`, then the file's JSON object
unfoldable pub load : Disk → FilePath → Attempt Request
unfolding find
load disk p =
    if is_queue p.folder then read_found (find p.name (files disk p.folder)) else raised not_inside

-- The path of a request that has been renamed meanwhile.
unfoldable pub actual_path : Disk → FilePath → FilePath
unfolding ends_with exists
actual_path disk p =
    let as_running : FilePath = record {
      folder = p.folder;
      name = stem json_ext p.name ++ running_ext;
    } in
    let as_json : FilePath = record {
      folder = p.folder;
      name = stem running_ext p.name ++ json_ext;
    } in
    if exists disk p
    then p
    else if ends_with json_ext p.name && exists disk as_running
    then as_running
    else if ends_with running_ext p.name && exists disk as_json
    then as_json
    else p

unfoldable pub running_name : Text → Text
unfolding ends_with
running_name name =
    if ends_with json_ext name then stem json_ext name ++ running_ext else name ++ running_ext

unfoldable pub pending_name : Text → Text
unfolding ends_with
pending_name name =
    if ends_with running_ext name
    then stem running_ext name ++ json_ext
    else if ends_with json_ext name
    then name
    else name ++ json_ext

-- The rewritten file under its new name, and the old name removed where it is another one.
unfoldable pub rename : Text → Entry → Disk → Disk
unfolding unlink replace same_text
rename old e disk = record disk {
  queue = if same_text old e.name then replace e disk.queue else unlink old (replace e disk.queue);
}

abbrev pub with_status : Status → Request → Request
with_status s r = record r { status = some s }

unfoldable pub mark_running : ℕ → FilePath → Disk → Attempt (Disk × FilePath)
unfolding load running_name rename
mark_running clock p disk = load disk p >>= λ r.
    let new = running_name p.name in
    done_with (
      rename p.name (record { name = new; content = doc (with_status running r); mtime = clock })
          disk,
      record { folder = queue_dir; name = new },
    )

-- What `requeue` does at the path that it has found.
unfoldable pub requeue_at : ℕ → FilePath → Disk → Attempt (Disk × FilePath)
unfolding load pending_name rename
requeue_at clock p disk = load disk p >>= λ r.
    let new = pending_name p.name in
    done_with (
      rename p.name (record { name = new; content = doc (with_status pending r); mtime = clock })
          disk,
      record { folder = queue_dir; name = new },
    )

unfoldable pub requeue : ℕ → FilePath → Disk → Attempt (Disk × FilePath)
unfolding actual_path requeue_at
requeue clock path disk = requeue_at clock (actual_path disk path) disk

-- os.path.basename(path).split(".")[0]
unfoldable pub before_dot : Text → Text
before_dot [] = []
before_dot (c ∷ t) = let rest = c ∷ before_dot t in if c == b'.' then [] else rest

-- `a or b`, where an empty string is none
abbrev pub text_or : Option Text → Text → Text
text_or none b = b
text_or (some []) b = b
text_or (some (c ∷ t)) b = c ∷ t

-- data.get("id") or t
abbrev pub id_or : IdField → Text → Text
id_or no_id t = t
id_or null_id t = t
id_or (has_id i) t = text_or (some i) t

-- The request as it is filed: its status, the error of a failure, the time.
abbrev pub filed : Bool → Option Text → Text → Request → Request
filed ok error at r = record r {
  status = some (if ok then done else failed);
  error = if ok then none else some (text_or error (codes "failed"));
  finished_at = some at;
}

abbrev pub file_under : Bool → Entry → Disk → Disk
file_under true e disk = record disk { finished_ok = replace e disk.finished_ok }
file_under false e disk = record disk { finished_failed = replace e disk.finished_failed }

-- What `finish` does at the path that it has found.
unfoldable pub finish_at :
    ℕ → Text → Bool → Option Text → FilePath → Disk → Attempt (Disk × FilePath)
unfolding load before_dot unlink replace
finish_at clock at ok error p disk = load disk p >>= λ r.
    let new = id_or r.id (before_dot p.name) ++ json_ext in
    let e : Entry = record { name = new; content = doc (filed ok error at r); mtime = clock } in
    let moved = file_under ok e disk in
    done_with (
      record moved { queue = unlink p.name moved.queue },
      record { folder = if ok then done_dir else failed_dir; name = new },
    )

unfoldable pub finish : ℕ → Text → Bool → Option Text → FilePath → Disk → Attempt (Disk × FilePath)
unfolding actual_path finish_at
finish clock at ok error path disk = finish_at clock at ok error (actual_path disk path) disk

-- The files as recover_running leaves them, the paths it has filed, and what it raises, if anything;
-- it returns the paths only where it raises nothing.
pub record Recovered : Type 0 where
  pub disk : Disk
  pub paths : List FilePath
  pub stopped : Option Raised

abbrev recovered_more : FilePath → Recovered → Recovered
recovered_more p r = record r { paths = p ∷ r.paths }

abbrev stop_at : Disk → Option Raised → Recovered
stop_at disk stopped = record { disk = disk; paths = []; stopped = stopped }

-- The rest of the loop after a call of `finish`: of what that raises an OSError ends the loop, and
-- anything else is not caught.
abbrev pub after_finish : (Disk → Recovered) → Disk → Attempt (Disk × FilePath) → Recovered
after_finish continue disk (done_with (disk', p)) = recovered_more p (continue disk')
after_finish continue disk (raised file_not_found) = stop_at disk none
after_finish continue disk (raised no_json) = stop_at disk (some no_json)
after_finish continue disk (raised no_dict) = stop_at disk (some no_dict)
after_finish continue disk (raised not_inside) = stop_at disk (some not_inside)

abbrev pub interrupted : Option Text
interrupted = some (codes "interrupted by restart")

-- The call of `finish` for an entry.
abbrev pub finish_entry : ℕ → Text → Entry → Disk → Attempt (Disk × FilePath)
finish_entry clock at e disk =
    finish clock at false interrupted (record { folder = queue_dir; name = e.name }) disk

-- The loop over the entries that scandir lists.
unfoldable pub recover_from : ℕ → Text → List Entry → Disk → Recovered
unfolding finish has_ext
recover_from clock at [] disk = stop_at disk none
recover_from clock at (e ∷ es) disk =
    let rest = recover_from clock at es in
    if has_ext running_ext e.name
    then after_finish rest disk (finish_entry clock at e disk)
    else rest disk

-- `requests_dir` is REQUESTS_DIR: in another directory the first call of `finish` raises a
-- ValueError. The writes of `finish` are taken to succeed.
unfoldable pub recover_running : ℕ → Text → Disk → Recovered
unfolding recover_from
recover_running clock at disk = recover_from clock at disk.queue disk

abbrev pub is_pending : Request → Bool
is_pending r = elim r.status [ some pending ↦ true | _ ↦ false ]

-- candidates.sort(key=name)
unfoldable pub insert_entry : Entry → List Entry → List Entry
unfolding text_le
insert_entry e [] = e ∷ []
insert_entry e (f ∷ fs) =
    let rest = insert_entry e fs in if text_le e.name f.name then e ∷ f ∷ fs else f ∷ rest

unfoldable pub candidates : List Entry → List Entry
unfolding has_ext insert_entry
candidates [] = []
candidates (e ∷ es) =
    let rest = candidates es in
    let inserted = insert_entry e rest in if has_ext json_ext e.name then inserted else rest

-- The first candidate that is pending. A file that is no JSON is passed over.
unfoldable pub first_pending : List Entry → Attempt (Option Text)
first_pending [] = done_with none
first_pending (e ∷ es) =
    let rest = first_pending es in
    elim e.content [
      | doc r ↦ if is_pending r then done_with (some e.name) else rest
      | not_json ↦ rest
      | not_object ↦ raised no_dict
    ]

unfoldable pub next_pending : Disk → Attempt (Option Text)
unfolding candidates first_pending
next_pending disk = first_pending (candidates disk.queue)
