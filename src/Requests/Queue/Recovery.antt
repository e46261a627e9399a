-- ===== src/Requests/Queue/Recovery.antt =====
-- review_requests.py: `recover_running` after a restart.
use dub_titlerr.Prelude.{
  AllOf, ℕ, suc, ◌≡◌, refl, sym, ap, ◌∙◌, Bool, true, false, none, some, List, [], ◌∷◌, arith, inl,
  inr, if◌then◌else◌, length, Bool-cases,
}
use dub_titlerr.Text.{Text, same_text}
use dub_titlerr.Text.Order.{same_text_refl, same_text_sym}
use dub_titlerr.Requests.Files.{
  Request, doc, Entry, FilePath, Disk, Attempt, done_with, content_at, unlink,
}
use dub_titlerr.Requests.Queue.{
  running_ext, has_ext, interrupted, finish_entry, after_finish, Recovered, recover_from,
  recover_running,
}
use dub_titlerr.Requests.Queue.Moves.{content_at-unlink_other, finish_held, moved_to}

-- A request that is left over as running.
abbrev pub left_over : Entry → Bool
left_over e = has_ext running_ext e.name

-- The entries whose names are not those of running requests.
unfoldable pub settled : List Entry → List Entry
settled [] = []
settled (e ∷ es) = let rest = settled es in if left_over e then rest else e ∷ rest

abbrev pub HoldsRequest : Entry → Type 0
HoldsRequest e = (r : Request) × (e.content ≡ doc r)

-- No two files of a directory have one name.
abbrev pub Distinct : List Entry → Type 0
Distinct [] = Unit
Distinct (e ∷ es) = AllOf (λ f. same_text e.name f.name ≡ false) es × Distinct es

-- The directory without the left over files of a listing.
unfoldable pub without : List Entry → List Entry → List Entry
unfolding unlink
without [] queue = queue
without (e ∷ es) queue = if left_over e then without es (unlink e.name queue) else without es queue

unfoldable pub count_left : List Entry → ℕ
count_left [] = 0
count_left (e ∷ es) = let rest = count_left es in if left_over e then suc rest else rest

-- The object of each left over file of a listing can be read.
abbrev Readable : Disk → List Entry → Type 0
Readable disk =
    AllOf (λ e. left_over e ≡ true → (r : Request) × (content_at e.name disk.queue ≡ some (doc r)))

abbrev Recovers : List Entry → Disk → Recovered → Type 0
Recovers es disk rec =
    (rec.stopped ≡ none)
    × (rec.disk.queue ≡ without es disk.queue)
    × (length rec.paths ≡ count_left es)
    × (rec.disk.finished_ok ≡ disk.finished_ok)

Readable-after :
    (e : Entry) (es : List Entry) (disk disk' : Disk)
    → disk'.queue ≡ unlink e.name disk.queue
    → AllOf (λ f. same_text e.name f.name ≡ false) es
    → Readable disk es
    → Readable disk' es
Readable-after e [] disk disk' q d h = tt
Readable-after e (f ∷ fs) disk disk' q d h = (
  (λ l. (
    (h.0 l).0,
    ap (content_at f.name) q ∙ content_at-unlink_other e.name f.name disk.queue d.0 ∙ (h.0 l).1,
  )),
  Readable-after e fs disk disk' q d.1 h.1,
)

module _ (clock : ℕ) (at : Text) where
  pub recover_skipped :
      (e : Entry) (es : List Entry) (disk : Disk)
      → left_over e ≡ false
      → recover_from clock at (e ∷ es) disk ≡ recover_from clock at es disk
  unfolding recover_from
  recover_skipped e es disk h =
      ap
        (λ b.
          if b
          then after_finish (recover_from clock at es) disk (finish_entry clock at e disk)
          else recover_from clock at es disk)
        h

  pub recover_next :
      (e : Entry) (es : List Entry) (disk : Disk) (a : Attempt (Disk × FilePath))
      → left_over e ≡ true
      → finish_entry clock at e disk ≡ a
      → recover_from clock at (e ∷ es) disk ≡ after_finish (recover_from clock at es) disk a
  unfolding recover_from
  recover_next e es disk a h k =
      ap
        (λ b.
          if b
          then after_finish (recover_from clock at es) disk (finish_entry clock at e disk)
          else recover_from clock at es disk)
        h
      ∙ ap (after_finish (recover_from clock at es) disk) k

  Recovers-skipped :
      (e : Entry) (es : List Entry) (disk : Disk) (r : Recovered)
      → left_over e ≡ false
      → Recovers es disk r
      → Recovers (e ∷ es) disk r
  unfolding without count_left
  Recovers-skipped e es disk r l h = (
    h.0,
    h.1
        ∙ sym (
            ap (λ b. if b then without es (unlink e.name disk.queue) else without es disk.queue) l),
    h.2 ∙ sym (ap (λ b. if b then suc (count_left es) else count_left es) l),
    h.3,
  )

  Recovers-next :
      (e : Entry) (es : List Entry) (disk disk' : Disk) (p : FilePath) (r : Recovered)
      → left_over e ≡ true
      → disk'.queue ≡ unlink e.name disk.queue
      → disk'.finished_ok ≡ disk.finished_ok
      → Recovers es disk' r
      → Recovers (e ∷ es) disk (record r { paths = p ∷ r.paths })
  unfolding without count_left
  Recovers-next e es disk disk' p r l q f h = (
    h.0,
    h.1
        ∙ ap (without es) q
        ∙ sym (
            ap (λ b. if b then without es (unlink e.name disk.queue) else without es disk.queue) l),
    ap suc h.2 ∙ sym (ap (λ b. if b then suc (count_left es) else count_left es) l),
    h.3 ∙ f,
  )

  recover_from-Recovers :
      (es : List Entry) (disk : Disk)
      → Distinct es
      → Readable disk es
      → Recovers es disk (recover_from clock at es disk)
  unfolding recover_from without count_left
  recover_from-Recovers [] disk d h = (refl, refl, refl, refl)
  recover_from-Recovers (e ∷ es) disk d h = elim (Bool-cases (left_over e)) [
    | inr l ↦ rw (recover_skipped e es disk l) (
        Recovers-skipped e es disk (recover_from clock at es disk) l
          (recover_from-Recovers es disk d.1 h.1))
    | inl l ↦
        let to = moved_to clock at false interrupted e.name (h.0 l).0 disk in
        rw
          (recover_next e es disk (done_with to) l
            (finish_held clock at false interrupted e.name (h.0 l).0 disk (h.0 l).1))
          (Recovers-next e es disk to.0 to.1 (recover_from clock at es to.0) l refl refl
            (recover_from-Recovers es to.0 d.1 (Readable-after e es disk to.0 refl d.0 h.1)))
  ]

AllOf-other :
    (e : Entry) (es : List Entry)
    → AllOf (λ f. same_text e.name f.name ≡ false) es
    → unlink e.name es ≡ es
unfolding unlink
AllOf-other e [] d = refl
AllOf-other e (f ∷ fs) d = ground (arith, d, AllOf-other e fs d.1, same_text_sym e.name f.name)

without_kept :
    (e : Entry) (es queue : List Entry)
    → AllOf (λ f. same_text e.name f.name ≡ false) es
    → without es (e ∷ queue) ≡ e ∷ without es queue
unfolding without unlink
without_kept e [] queue d = refl
without_kept e (f ∷ fs) queue d = elim (Bool-cases (left_over f)) [
  | inr l ↦ rw (l) (without_kept e fs queue d.1)
  | inl l ↦ rw (l, d.0) (without_kept e fs (unlink f.name queue) d.1)
]

without-settled : (es : List Entry) → Distinct es → without es es ≡ settled es
unfolding without settled unlink
without-settled [] d = refl
without-settled (e ∷ es) d = elim (Bool-cases (left_over e)) [
  | inr l ↦ rw (l, without_kept e es es d.0, without-settled es d.1)
  | inl l ↦ rw (l, same_text_refl e.name, AllOf-other e es d.0, without-settled es d.1)
]

-- The left over files of the listing hold requests.
abbrev pub AllHeld : List Entry → Type 0
AllHeld = AllOf (λ e. left_over e ≡ true → HoldsRequest e)

ReadableAt : List Entry → List Entry → Type 0
ReadableAt queue =
    AllOf (λ e. left_over e ≡ true → (r : Request) × (content_at e.name queue ≡ some (doc r)))

ReadableAt-later :
    (e : Entry) (es queue : List Entry)
    → AllOf (λ f. same_text e.name f.name ≡ false) es
    → ReadableAt queue es
    → ReadableAt (e ∷ queue) es
unfolding ReadableAt content_at
ReadableAt-later e [] queue d h = tt
ReadableAt-later e (f ∷ fs) queue d h =
    ((λ l. ((h.0 l).0, rw (d.0) (h.0 l).1)), ReadableAt-later e fs queue d.1 h.1)

ReadableAt-all : (es : List Entry) → Distinct es → AllHeld es → ReadableAt es es
unfolding ReadableAt content_at
ReadableAt-all [] d h = tt
ReadableAt-all (e ∷ es) d h = (
  (λ l. ((h.0 l).0, rw (same_text_refl e.name) (ap some (h.0 l).1))),
  ReadableAt-later e es es d.0 (ReadableAt-all es d.1 h.1),
)

-- Where no two files of the queue have one name and each file left over as running holds a request,
-- recover_running returns one path for each of these, takes them and nothing else from the queue,
-- and leaves the requests that ended well alone.
pub recover_running-settled :
    (clock : ℕ) (at : Text) (disk : Disk)
    → Distinct disk.queue
    → AllHeld disk.queue
    → let r = recover_running clock at disk in
      (r.stopped ≡ none)
      × (r.disk.queue ≡ settled disk.queue)
      × (length r.paths ≡ count_left disk.queue)
      × (r.disk.finished_ok ≡ disk.finished_ok)
unfolding recover_running ReadableAt
recover_running-settled clock at disk d h =
    let r = recover_from-Recovers clock at disk.queue disk d (ReadableAt-all disk.queue d h) in
    (r.0, r.1 ∙ without-settled disk.queue d, r.2, r.3)
