-- ===== src/Requests/Queue/Damaged.antt =====
-- review_requests.py: `recover_running` where a file is damaged.
use dub_titlerr.Prelude.{
  ℕ, ◌≡◌, sym, ap, ◌∙◌, true, false, Option, some, List, [], ◌∷◌, arith, ◌⊎◌, inl, inr,
}
use dub_titlerr.Text.{Text}
use dub_titlerr.Requests.Files.{
  not_json, Entry, queue_dir, Disk, no_json, raised, content_at, find, exists, is_some,
}
use dub_titlerr.Requests.Queue.{
  load, read_found, actual_path, finish, finish_at, interrupted, finish_entry, recover_from,
  recover_running,
}
use dub_titlerr.Requests.Queue.Moves.{content_of, content_at-find}
use dub_titlerr.Requests.Queue.Recovery.{left_over, recover_skipped, recover_next}

-- The first file of a listing that is left over as running holds no JSON.
abbrev pub StartsDamaged : Disk → List Entry → Type 0
StartsDamaged disk [] = ⊥
StartsDamaged disk (e ∷ es) =
    ((left_over e ≡ true) × (content_at e.name disk.queue ≡ some not_json))
    ⊎ ((left_over e ≡ false) × StartsDamaged disk es)

load_damaged : (o : Option Entry) → content_of o ≡ some not_json → read_found o ≡ raised no_json
load_damaged o h = ground (arith, h)

exists_damaged : (o : Option Entry) → content_of o ≡ some not_json → is_some o ≡ true
exists_damaged o h = ground (arith, h)

finish_at_damaged :
    (clock : ℕ) (at : Text) (e : Entry) (disk : Disk)
    → content_at e.name disk.queue ≡ some not_json
    → finish_at clock at false interrupted (record { folder = queue_dir; name = e.name }) disk
      ≡ raised no_json
unfolding finish_at load
finish_at_damaged clock at e disk h =
    rw (load_damaged (find e.name disk.queue) (sym (content_at-find e.name disk.queue) ∙ h))

exists_at_damaged :
    (e : Entry) (disk : Disk)
    → content_at e.name disk.queue ≡ some not_json
    → exists disk (record { folder = queue_dir; name = e.name }) ≡ true
unfolding exists
exists_at_damaged e disk h =
    exists_damaged (find e.name disk.queue) (sym (content_at-find e.name disk.queue) ∙ h)

actual_path_damaged :
    (e : Entry) (disk : Disk)
    → content_at e.name disk.queue ≡ some not_json
    → actual_path disk (record { folder = queue_dir; name = e.name })
      ≡ record { folder = queue_dir; name = e.name }
unfolding actual_path
actual_path_damaged e disk h = rw (exists_at_damaged e disk h)

finish_damaged :
    (clock : ℕ) (at : Text) (e : Entry) (disk : Disk)
    → content_at e.name disk.queue ≡ some not_json
    → finish_entry clock at e disk ≡ raised no_json
unfolding finish
finish_damaged clock at e disk h =
    ap (λ p. finish_at clock at false interrupted p disk) (actual_path_damaged e disk h)
    ∙ finish_at_damaged clock at e disk h

recover_from-stops :
    (clock : ℕ) (at : Text) (es : List Entry) (disk : Disk)
    → StartsDamaged disk es
    → recover_from clock at es disk ≡ record { disk = disk; paths = []; stopped = some no_json }
unfolding recover_from
recover_from-stops clock at [] disk h = absurd h
recover_from-stops clock at (e ∷ es) disk h = elim h [
  | inl d ↦
      recover_next clock at e es disk (raised no_json) d.0 (finish_damaged clock at e disk d.1)
  | inr d ↦ recover_skipped clock at e es disk d.0 ∙ recover_from-stops clock at es disk d.1
]

-- Where the first file left over as running holds no JSON, recover_running raises that file's
-- ValueError and has moved nothing, whatever stands behind it.
pub recover_running-stops :
    (clock : ℕ) (at : Text) (disk : Disk)
    → StartsDamaged disk disk.queue
    → recover_running clock at disk ≡ record { disk = disk; paths = []; stopped = some no_json }
unfolding recover_running
recover_running-stops clock at disk h = recover_from-stops clock at disk.queue disk h
