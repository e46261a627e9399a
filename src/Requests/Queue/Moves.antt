-- ===== src/Requests/Queue/Moves.antt =====
-- review_requests.py: what `mark_running`, `requeue` and `finish` do to the files.
use dub_titlerr.Prelude.{
  ℕ, ◌≡◌, refl, sym, ap, ◌∙◌, Bool, true, false, not, Option, none, some, List, [], ◌∷◌, ◌++◌,
  arith, if◌then◌else◌,
}
use dub_titlerr.Text.{Text, same_text}
use dub_titlerr.Text.Order.{same_text_refl, same_text→eq}
use dub_titlerr.Requests.Files.{
  Request, Content, doc, Entry, queue_dir, done_dir, failed_dir, FilePath, Disk, Attempt, done_with,
  raised, content_at, find, unlink, replace, exists, is_some,
}
use dub_titlerr.Requests.Queue.{
  json_ext, load, read_found, actual_path, filed, finish_at, finish, file_under, before_dot, id_or,
}

-- content_at is what `find` finds.
abbrev pub content_of : Option Entry → Option Content
content_of none = none
content_of (some e) = some e.content

pub content_at-unlink_self : (n : Text) (es : List Entry) → content_at n (unlink n es) ≡ none
unfolding content_at unlink
content_at-unlink_self n [] = refl
content_at-unlink_self n (e ∷ es) = ground (arith, content_at-unlink_self n es)

pub content_at-unlink_other :
    (m n : Text) (es : List Entry)
    → same_text m n ≡ false
    → content_at n (unlink m es) ≡ content_at n es
unfolding content_at unlink
content_at-unlink_other m n [] h = refl
content_at-unlink_other m n (e ∷ es) h = ground (
  arith,
  h,
  content_at-unlink_other m n es h,
  same_text→eq e.name m,
  same_text→eq e.name n,
  same_text_refl n,
)

pub content_at-replace_self :
    (e : Entry) (es : List Entry) → content_at e.name (replace e es) ≡ some e.content
unfolding content_at replace
content_at-replace_self e es = ground (arith, same_text_refl e.name)

pub content_at-replace_other :
    (n : Text) (e : Entry) (es : List Entry)
    → same_text e.name n ≡ false
    → content_at n (replace e es) ≡ content_at n es
unfolding content_at replace
content_at-replace_other n e es h = ground (arith, h, content_at-unlink_other e.name n es h)

pub content_at-find : (n : Text) (es : List Entry) → content_at n es ≡ content_of (find n es)
unfolding content_at find
content_at-find n [] = refl
content_at-find n (e ∷ es) = ground (arith, content_at-find n es)

-- A request file in REQUESTS_DIR, with the object that it holds.
abbrev pub Holds : Disk → FilePath → Request → Type 0
Holds disk p r = (p.folder ≡ queue_dir) × (content_at p.name disk.queue ≡ some (doc r))

read_found-content_of :
    (o : Option Entry) (r : Request) → content_of o ≡ some (doc r) → read_found o ≡ done_with r
read_found-content_of o r h = ground (arith, h)

is_some-content_of :
    (o : Option Entry) (r : Request) → content_of o ≡ some (doc r) → is_some o ≡ true
is_some-content_of o r h = ground (arith, h)

pub load_held :
    (disk : Disk) (n : Text) (r : Request)
    → content_at n disk.queue ≡ some (doc r)
    → load disk (record { folder = queue_dir; name = n }) ≡ done_with r
unfolding load
load_held disk n r h =
    read_found-content_of (find n disk.queue) r (sym (content_at-find n disk.queue) ∙ h)

exists_held :
    (disk : Disk) (n : Text) (r : Request)
    → content_at n disk.queue ≡ some (doc r)
    → exists disk (record { folder = queue_dir; name = n }) ≡ true
unfolding exists
exists_held disk n r h =
    is_some-content_of (find n disk.queue) r (sym (content_at-find n disk.queue) ∙ h)

pub actual_path_held :
    (disk : Disk) (n : Text) (r : Request)
    → content_at n disk.queue ≡ some (doc r)
    → actual_path disk (record { folder = queue_dir; name = n })
      ≡ record { folder = queue_dir; name = n }
unfolding actual_path
actual_path_held disk n r h = rw (exists_held disk n r h)

-- The files of the directory for runs that ended well, or for the others.
abbrev pub filed_in : Bool → Disk → List Entry
filed_in true disk = disk.finished_ok
filed_in false disk = disk.finished_failed

-- Two directories hold the same under every name but one.
abbrev pub SameBut : Text → List Entry → List Entry → Type 0
SameBut n es fs = (m : Text) → same_text n m ≡ false → content_at m es ≡ content_at m fs

-- The name of the file that a request is filed under.
abbrev pub filed_name : Text → Request → Text
filed_name n r = id_or r.id (before_dot n) ++ json_ext

-- The request `r` has gone from the queue, where it was under the name `n`, and is filed with its
-- outcome; no other file has changed.
abbrev pub IsFiled :
    Bool → Option Text → Text → Text → Request → Disk → Attempt (Disk × FilePath) → Type 0
IsFiled ok error at n r disk (raised x) = ⊥
IsFiled ok error at n r disk (done_with (after, to)) =
    (to.name ≡ filed_name n r)
    × (to.folder ≡ (if ok then done_dir else failed_dir))
    × (content_at n after.queue ≡ none)
    × SameBut n after.queue disk.queue
    × (content_at (filed_name n r) (filed_in ok after) ≡ some (doc (filed ok error at r)))
    × SameBut (filed_name n r) (filed_in ok after) (filed_in ok disk)
    × (filed_in (not ok) after ≡ filed_in (not ok) disk)

-- What `finish` returns for a request that it has read.
abbrev pub moved_to : ℕ → Text → Bool → Option Text → Text → Request → Disk → Disk × FilePath
moved_to clock at ok error n r disk =
    let new = filed_name n r in
    let moved =
      file_under ok (record { name = new; content = doc (filed ok error at r); mtime = clock })
        disk in
    (
      record moved { queue = unlink n moved.queue },
      record { folder = if ok then done_dir else failed_dir; name = new },
    )

IsFiled-parts :
    (clock : ℕ) (at : Text) (ok : Bool) (error : Option Text) (n : Text) (r : Request) (disk : Disk)
    → IsFiled ok error at n r disk (done_with (moved_to clock at ok error n r disk))
IsFiled-parts clock at true error n r disk =
    let e : Entry = record {
      name = filed_name n r;
      content = doc (filed true error at r);
      mtime = clock;
    } in
    (
      refl,
      refl,
      content_at-unlink_self n disk.queue,
      (λ m h. content_at-unlink_other n m disk.queue h),
      content_at-replace_self e disk.finished_ok,
      (λ m h. content_at-replace_other m e disk.finished_ok h),
      refl,
    )
IsFiled-parts clock at false error n r disk =
    let e : Entry = record {
      name = filed_name n r;
      content = doc (filed false error at r);
      mtime = clock;
    } in
    (
      refl,
      refl,
      content_at-unlink_self n disk.queue,
      (λ m h. content_at-unlink_other n m disk.queue h),
      content_at-replace_self e disk.finished_failed,
      (λ m h. content_at-replace_other m e disk.finished_failed h),
      refl,
    )

finish_at_held :
    (clock : ℕ) (at : Text) (ok : Bool) (error : Option Text) (n : Text) (r : Request) (disk : Disk)
    → content_at n disk.queue ≡ some (doc r)
    → finish_at clock at ok error (record { folder = queue_dir; name = n }) disk
      ≡ done_with (moved_to clock at ok error n r disk)
unfolding finish_at
finish_at_held clock at ok error n r disk h = rw (load_held disk n r h)

pub finish_held :
    (clock : ℕ) (at : Text) (ok : Bool) (error : Option Text) (n : Text) (r : Request) (disk : Disk)
    → content_at n disk.queue ≡ some (doc r)
    → finish clock at ok error (record { folder = queue_dir; name = n }) disk
      ≡ done_with (moved_to clock at ok error n r disk)
unfolding finish
finish_held clock at ok error n r disk h =
    ap (λ p. finish_at clock at ok error p disk) (actual_path_held disk n r h)
    ∙ finish_at_held clock at ok error n r disk h

-- Finishing a request file of the queue takes it from the queue and files its request, with its
-- status, error and time, under `done` or `failed`; no other file changes.
pub finish-IsFiled :
    (clock : ℕ) (at : Text) (ok : Bool) (error : Option Text) (n : Text) (r : Request) (disk : Disk)
    → content_at n disk.queue ≡ some (doc r)
    → IsFiled ok error at n r disk
        (finish clock at ok error (record { folder = queue_dir; name = n }) disk)
finish-IsFiled clock at ok error n r disk h =
    rw (finish_held clock at ok error n r disk h) (IsFiled-parts clock at ok error n r disk)
