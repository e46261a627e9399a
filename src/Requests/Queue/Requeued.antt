-- ===== src/Requests/Queue/Requeued.antt =====
-- review_requests.py: a request that is started and then queued again.
use mathlib.Core.List.{reverse-append}
use dub_titlerr.Prelude.{
  ℕ, ◌-◌, ◌+◌, ◌≡◌, refl, ap, ◌∙◌, true, false, none, some, length-append, [], ◌∷◌, ◌++◌, take,
  length, reverse, arith,
}
use dub_titlerr.Text.{Text, same_text, ends_with, starts_with}
use dub_titlerr.Requests.Files.{
  Request, doc, Entry, queue_dir, FilePath, Disk, Attempt, done_with, ◌>>=◌, content_at, replace,
  pending, running,
}
use dub_titlerr.Requests.Queue.{
  json_ext, running_ext, with_status, stem, rename, running_name, pending_name, mark_running,
  requeue, requeue_at,
}
use dub_titlerr.Requests.Queue.Moves.{
  content_at-unlink_self, content_at-unlink_other, content_at-replace_self,
  content_at-replace_other, load_held, actual_path_held,
}

starts_with-append : (p t : Text) → starts_with p (p ++ t) ≡ true
unfolding starts_with
starts_with-append [] t = refl
starts_with-append (c ∷ p) t = ground (arith, starts_with-append p t)

ends_with-append : (t ext : Text) → ends_with ext (t ++ ext) ≡ true
unfolding ends_with
ends_with-append t ext = rw (reverse-append t ext) (starts_with-append (reverse ext) (reverse t))

take-append_length : (t ext : Text) → take (length t) (t ++ ext) ≡ t
take-append_length [] ext = refl
take-append_length (c ∷ t) ext = ap (λ r. c ∷ r) (take-append_length t ext)

add_sub_length : (m n : ℕ) → (m + n) - n ≡ m
add_sub_length m n = omega arith

stem-append : (ext t : Text) → stem ext (t ++ ext) ≡ t
stem-append ext t =
    ap (λ n. take n (t ++ ext))
      (ap (λ n. n - length ext) (length-append t ext) ∙ add_sub_length (length t) (length ext))
    ∙ take-append_length t ext

same_text-append : (s a b : Text) → same_text (s ++ a) (s ++ b) ≡ same_text a b
unfolding same_text
same_text-append [] a b = refl
same_text-append (c ∷ s) a b = ground (arith, same_text-append s a b)

running_name-json : (t : Text) → running_name (t ++ json_ext) ≡ t ++ running_ext
unfolding running_name
running_name-json t =
    rw (ends_with-append t json_ext) (ap (λ u. u ++ running_ext) (stem-append json_ext t))

pending_name-running : (t : Text) → pending_name (t ++ running_ext) ≡ t ++ json_ext
unfolding pending_name
pending_name-running t =
    rw (ends_with-append t running_ext) (ap (λ u. u ++ json_ext) (stem-append running_ext t))

-- A move to another name.
module _ (old : Text) (e : Entry) (disk : Disk) (ne : same_text old e.name ≡ false) where
  rename_new : content_at e.name (rename old e disk).queue ≡ some e.content
  unfolding rename
  rename_new = rw (ne) (
      content_at-unlink_other old e.name (replace e disk.queue) ne
      ∙ content_at-replace_self e disk.queue)

  rename_old : content_at old (rename old e disk).queue ≡ none
  unfolding rename
  rename_old = rw (ne) (content_at-unlink_self old (replace e disk.queue))

  rename_other :
      (m : Text)
      → same_text old m ≡ false
      → same_text e.name m ≡ false
      → content_at m (rename old e disk).queue ≡ content_at m disk.queue
  unfolding rename
  rename_other m h k = rw (ne) (
      content_at-unlink_other old m (replace e disk.queue) h
      ∙ content_at-replace_other m e disk.queue k)

mark_running_held :
    (clock : ℕ) (n : Text) (r : Request) (disk : Disk)
    → content_at n disk.queue ≡ some (doc r)
    → mark_running clock (record { folder = queue_dir; name = n }) disk
      ≡ done_with (
        rename n
            (record { name = running_name n; content = doc (with_status running r); mtime = clock })
            disk,
        record { folder = queue_dir; name = running_name n },
      )
unfolding mark_running
mark_running_held clock n r disk h = rw (load_held disk n r h)

requeue_held :
    (clock : ℕ) (n : Text) (r : Request) (disk : Disk)
    → content_at n disk.queue ≡ some (doc r)
    → requeue clock (record { folder = queue_dir; name = n }) disk
      ≡ done_with (
        rename n
            (record { name = pending_name n; content = doc (with_status pending r); mtime = clock })
            disk,
        record { folder = queue_dir; name = pending_name n },
      )
unfolding requeue requeue_at
requeue_held clock n r disk h =
    ap (λ p. requeue_at clock p disk) (actual_path_held disk n r h) ∙ rw (load_held disk n r h)

-- The disk after the start of a request, and after it is queued again.
abbrev started : ℕ → Text → Request → Disk → Disk
started clock t r disk =
    rename (t ++ json_ext)
      (record { name = t ++ running_ext; content = doc (with_status running r); mtime = clock })
      disk

abbrev queued_again : ℕ → ℕ → Text → Request → Disk → Disk
queued_again clock later t r disk =
    rename (t ++ running_ext)
      (record { name = t ++ json_ext; content = doc (with_status pending r); mtime = later })
      (started clock t r disk)

-- Both calls, one after the other.
abbrev pub start_and_requeue : ℕ → ℕ → FilePath → Disk → Attempt (Disk × FilePath)
start_and_requeue clock later p disk =
    mark_running clock p disk >>= λ (disk', p'). requeue later p' disk'

-- What a move of the request `r` to the name `m` returns.
abbrev renamed_to : ℕ → Text → Request → Disk → Text → Attempt (Disk × FilePath)
renamed_to clock old r disk m = done_with (
  rename old (record { name = m; content = doc r; mtime = clock }) disk,
  record { folder = queue_dir; name = m },
)

names_differ : (t : Text) → same_text (t ++ json_ext) (t ++ running_ext) ≡ false
unfolding same_text
names_differ t = same_text-append t json_ext running_ext

names_differ_too : (t : Text) → same_text (t ++ running_ext) (t ++ json_ext) ≡ false
unfolding same_text
names_differ_too t = same_text-append t running_ext json_ext

module _ (clock later : ℕ) (t : Text) (r : Request) (disk : Disk) where
  start_and_requeue_held :
      content_at (t ++ json_ext) disk.queue ≡ some (doc r)
      → start_and_requeue clock later (record { folder = queue_dir; name = t ++ json_ext }) disk
        ≡ done_with
            (queued_again clock later t r disk, record { folder = queue_dir; name = t ++ json_ext })
  start_and_requeue_held h =
      ap (λ a. a >>= λ (disk', p'). requeue later p' disk')
        (mark_running_held clock (t ++ json_ext) r disk h
          ∙ ap (renamed_to clock (t ++ json_ext) (with_status running r) disk)
              (running_name-json t))
      ∙ requeue_held later (t ++ running_ext) (with_status running r) (started clock t r disk) (
          rename_new (t ++ json_ext)
            (record {
              name = t ++ running_ext;
              content = doc (with_status running r);
              mtime = clock;
            })
            disk (names_differ t))
      ∙ ap (renamed_to later (t ++ running_ext) (with_status pending r) (started clock t r disk))
          (pending_name-running t)

  kept_elsewhere :
      (m : Text)
      → same_text (t ++ json_ext) m ≡ false
      → same_text (t ++ running_ext) m ≡ false
      → content_at m (queued_again clock later t r disk).queue ≡ content_at m disk.queue
  kept_elsewhere m h k =
      rename_other (t ++ running_ext)
        (record { name = t ++ json_ext; content = doc (with_status pending r); mtime = later })
        (started clock t r disk) (names_differ_too t) m k h
      ∙ rename_other (t ++ json_ext)
          (record { name = t ++ running_ext; content = doc (with_status running r); mtime = clock })
          disk (names_differ t) m h k

-- A request that is started and then queued again is in its old file, with the status pending and
-- else as it was; there is no file for a running request any more, and all others are untouched.
pub start_and_requeue_exact :
    (clock later : ℕ) (t : Text) (r : Request) (disk : Disk)
    → content_at (t ++ json_ext) disk.queue ≡ some (doc r)
    → (after : Disk) × (start_and_requeue clock later
          (record { folder = queue_dir; name = t ++ json_ext })
          disk
        ≡ done_with (after, record { folder = queue_dir; name = t ++ json_ext }))
      × (content_at (t ++ json_ext) after.queue ≡ some (doc (with_status pending r)))
      × (content_at (t ++ running_ext) after.queue ≡ none)
      × ((m : Text)
          → same_text (t ++ json_ext) m ≡ false
          → same_text (t ++ running_ext) m ≡ false
          → content_at m after.queue ≡ content_at m disk.queue)
start_and_requeue_exact clock later t r disk h =
    let e : Entry = record {
      name = t ++ json_ext;
      content = doc (with_status pending r);
      mtime = later;
    } in
    (
      queued_again clock later t r disk,
      start_and_requeue_held clock later t r disk h,
      rename_new (t ++ running_ext) e (started clock t r disk) (names_differ_too t),
      rename_old (t ++ running_ext) e (started clock t r disk) (names_differ_too t),
      kept_elsewhere clock later t r disk,
    )
