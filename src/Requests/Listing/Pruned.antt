-- ===== src/Requests/Listing/Pruned.antt =====
-- review_requests.py: what `prune` removes.
use dub_titlerr.Prelude.{
  ℕ, ◌+◌, ◌*◌, max, ◌≤◌, ◌<◌, ◌≡◌, refl, Bool-cases, true, false, ◌&&◌, List, [], ◌∷◌, arith, suc,
  inl, inr, ◌⊎◌,
}
use dub_titlerr.Requests.Files.{Entry, Disk}
use dub_titlerr.Requests.Queue.{has_ext, json_ext}
use dub_titlerr.Requests.Listing.{is_stale, prune_dir, prune}

-- A visible .json file, last changed more than `days` days of 86400 seconds ago, one day at least.
abbrev pub IsOld : ℕ → ℕ → Entry → Type 0
IsOld days now e = (has_ext json_ext e.name ≡ true) × (e.mtime + max 1 days * 86400 < now)

-- Another file, or one that is not as old as that.
abbrev pub IsRecent : ℕ → ℕ → Entry → Type 0
IsRecent days now e = (has_ext json_ext e.name ≡ false) ⊎ (now ≤ e.mtime + max 1 days * 86400)

-- The files of a directory, those that are left, in order, and the number of the others.
pub data Pruned (days now : ℕ) : List Entry → List Entry → ℕ → Type 0 where
  all_done : Pruned days now [] [] 0
  leaves :
      {es left : List Entry} {gone : ℕ} (e : Entry)
      → IsRecent days now e
      → Pruned days now es left gone
      → Pruned days now (e ∷ es) (e ∷ left) gone
  removes :
      {es left : List Entry} {gone : ℕ} (e : Entry)
      → IsOld days now e
      → Pruned days now es left gone
      → Pruned days now (e ∷ es) left (suc gone)

outdated :
    (days now : ℕ) (e : Entry)
    → (has_ext json_ext e.name && is_stale days now e) ≡ true
    → IsOld days now e
outdated days now e h = ground (arith, h)

not_outdated :
    (days now : ℕ) (e : Entry)
    → (has_ext json_ext e.name && is_stale days now e) ≡ false
    → IsRecent days now e
not_outdated days now e h = ground (arith, h)

prune_dir-Pruned :
    (days now : ℕ) (es : List Entry)
    → Pruned days now es (prune_dir days now es).0 (prune_dir days now es).1
unfolding prune_dir
prune_dir-Pruned days now [] = all_done
prune_dir-Pruned days now (e ∷ es) =
    elim (Bool-cases (has_ext json_ext e.name && is_stale days now e)) [
      | inl h ↦ rw h (removes e (outdated days now e h) (prune_dir-Pruned days now es))
      | inr h ↦ rw h (leaves e (not_outdated days now e h) (prune_dir-Pruned days now es))
    ]

-- Pruning removes of `done` and `failed` the visible .json files that were last changed more than
-- `days` days ago, one day at least, and no others; it leaves the others in order, returns how many
-- it has removed, and leaves the queue alone.
pub prune_exact :
    (days now : ℕ) (disk : Disk)
    → let (after, removed) = prune days now disk in
      (a : ℕ) × (b : ℕ) × Pruned days now disk.finished_ok after.finished_ok a
      × Pruned days now disk.finished_failed after.finished_failed b
      × (removed ≡ a + b)
      × (after.queue ≡ disk.queue)
unfolding prune
prune_exact days now disk = (
  (prune_dir days now disk.finished_ok).1,
  (prune_dir days now disk.finished_failed).1,
  prune_dir-Pruned days now disk.finished_ok,
  prune_dir-Pruned days now disk.finished_failed,
  refl,
  refl,
)
