-- ===== src/Requests/Files.antt =====
-- review_requests.py: the directory of request files. A path is a directory and a name in it;
-- REQUESTS_DIR is `queue`, with the directories `done` and `failed` below it.
use dub_titlerr.Prelude.{ℕ, Bool, true, false, Option, none, some, List, [], ◌∷◌, if◌then◌else◌}
use dub_titlerr.Text.{Text, same_text}
use dub_titlerr.Requests.Json.{Dict}

pub data Status : Type 0 where
  pending running done failed : Status

-- data.get("id"), where a key that is missing and one that is null differ
pub data IdField : Type 0 where
  no_id null_id : IdField
  has_id : Text → IdField

-- The JSON object of a request file; another key that is missing or null is `none`.
pub record Request : Type 0 where
  pub id : IdField
  pub show : Option Text
  pub season : Option ℕ
  pub episode_re : Option Text
  pub generate_only_re : Option Text
  pub require_eng : Option Bool
  pub webhook : Option Dict
  pub created_at : Option Text
  pub status : Option Status
  pub error : Option Text
  pub finished_at : Option Text

-- What a file holds: such an object, another JSON value, or no JSON at all.
pub data Content : Type 0 where
  doc : Request → Content
  not_object not_json : Content

pub record Entry : Type 0 where
  pub name : Text
  pub content : Content
  pub mtime : ℕ

pub data Folder : Type 0 where
  queue_dir done_dir failed_dir elsewhere : Folder

pub record FilePath : Type 0 where
  pub folder : Folder
  pub name : Text

-- The files on disk.
pub record Disk : Type 0 where
  pub queue : List Entry
  pub finished_ok : List Entry
  pub finished_failed : List Entry

-- The exceptions of the operations: FileNotFoundError, ValueError for what is no JSON, the TypeError
-- or AttributeError of a value that is no dict, and ValueError for a path outside REQUESTS_DIR.
pub data Raised : Type 0 where
  file_not_found no_json no_dict not_inside : Raised

pub data Attempt {ℓ} (A : Type ℓ) : Type ℓ where
  done_with : A → Attempt A
  raised : Raised → Attempt A

infixl 5 ◌>>=◌
abbrev pub ◌>>=◌ {ℓ κ} : {A : Type ℓ} {B : Type κ} → Attempt A → (A → Attempt B) → Attempt B
done_with a >>= f = f a
raised e >>= f = raised e

-- The files of a directory; those outside REQUESTS_DIR are never read.
abbrev pub files : Disk → Folder → List Entry
files disk queue_dir = disk.queue
files disk done_dir = disk.finished_ok
files disk failed_dir = disk.finished_failed
files disk elsewhere = []

unfoldable pub find : Text → List Entry → Option Entry
unfolding same_text
find n [] = none
find n (e ∷ es) = let rest = find n es in if same_text e.name n then some e else rest

-- os.unlink
unfoldable pub unlink : Text → List Entry → List Entry
unfolding same_text
unlink n [] = []
unlink n (e ∷ es) = let rest = unlink n es in if same_text e.name n then rest else e ∷ rest

-- The write of a temporary file that os.replace then moves over the name.
unfoldable pub replace : Entry → List Entry → List Entry
unfolding unlink
replace e es = e ∷ unlink e.name es

abbrev pub is_some {ℓ} : {A : Type ℓ} → Option A → Bool
is_some none = false
is_some (some a) = true

-- os.path.exists
unfoldable pub exists : Disk → FilePath → Bool
unfolding find
exists disk p = is_some (find p.name (files disk p.folder))

-- What the file of a name holds.
unfoldable pub content_at : Text → List Entry → Option Content
unfolding same_text
content_at n [] = none
content_at n (e ∷ es) =
    let rest = content_at n es in if same_text e.name n then some e.content else rest
