-- ===== src/Tests/Queueing.antt =====
-- Request files that are moved, queued and recovered, and files put in order.
use mathlib.Core.List.{Perm}
use dub_titlerr.Prelude.{
  ℕ, ◌+◌, ◌≡◌, refl, true, false, none, some, List, [], ◌∷◌, ◌++◌, length, drop, inl,
}
use dub_titlerr.Prelude.Int.{pos}
use dub_titlerr.Text.{Text, codes, same_text}
use dub_titlerr.Requests.{ok}
use dub_titlerr.Requests.Json.{Json, str, int, object, no_fields, field}
use dub_titlerr.Requests.Body.{Clean, Outside, validate}
use dub_titlerr.Requests.Body.Checked.{OnOk, IsClean, validate-IsClean}
use dub_titlerr.Requests.Files.{
  Status, pending, running, done, has_id, Request, Content, doc, not_json, no_json, Entry,
  queue_dir, Disk, done_with, content_at,
}
use dub_titlerr.Requests.Queue.{
  has_ext, json_ext, running_ext, with_status, finish, recover_running,
}
use dub_titlerr.Requests.Queue.Moves.{IsFiled, finish-IsFiled}
use dub_titlerr.Requests.Queue.Recovery.{settled, count_left, recover_running-settled}
use dub_titlerr.Requests.Queue.Damaged.{recover_running-stops}
use dub_titlerr.Requests.Queue.Requeued.{start_and_requeue, start_and_requeue_exact}
use dub_titlerr.Requests.Listing.{create, prune}
use dub_titlerr.Requests.Listing.Twins.{IsCreated, create-IsCreated}
use dub_titlerr.Requests.Listing.Pruned.{Pruned, prune_exact}
use dub_titlerr.Ordering.{order_files}
use dub_titlerr.Ordering.Sorted.{Ordered, InWatchOrder, order_files-InWatchOrder}

abbrev request : Text → Text → Status → Request
request id show s = record {
  id = has_id id;
  show = some show;
  season = some 1;
  episode_re = none;
  generate_only_re = none;
  require_eng = none;
  webhook = none;
  created_at = none;
  status = some s;
  error = none;
  finished_at = none;
}

abbrev older : Request
older = request (codes "a") (codes "Naruto") pending

abbrev newer : Request
newer = request (codes "b") (codes "Bleach") running

abbrev entry : Text → Content → Entry
entry n c = record { name = n; content = c; mtime = 5 }

abbrev disk : Disk
disk = record {
  queue = entry (codes "b.running") (doc newer) ∷ entry (codes "a.json") (doc older) ∷ [];
  finished_ok = entry (codes "c.json") (doc (request (codes "c") (codes "Monster") done)) ∷ [];
  finished_failed = [];
}

abbrev damaged : Disk
damaged = record {
  queue = entry (codes "b.running") not_json ∷ entry (codes "a.running") (doc newer) ∷ [];
  finished_ok = [];
  finished_failed = [];
}

recover_running-settled_example :
    let r = recover_running 9 (codes "now") disk in
    (r.stopped ≡ none)
    × (r.disk.queue ≡ settled disk.queue)
    × (length r.paths ≡ count_left disk.queue)
    × (r.disk.finished_ok ≡ disk.finished_ok)
unfolding same_text
recover_running-settled_example =
    recover_running-settled 9 (codes "now") disk ((refl, tt), (tt, tt))
      ((λ _. (newer, refl)), ((λ _. (older, refl)), tt))

finish-IsFiled_example : IsFiled true none (codes "now") (codes "b.running") newer disk (
    finish 9 (codes "now") true none (record { folder = queue_dir; name = codes "b.running" }) disk)
unfolding content_at
finish-IsFiled_example =
    finish-IsFiled 9 (codes "now") true none (codes "b.running") newer disk refl

abbrev wanted : Clean
wanted = record {
  show = codes "Naruto";
  season = some 1;
  episode_re = none;
  require_eng = none;
  webhook = none;
}

create-IsCreated_example :
    IsCreated (codes "d") (codes "now") wanted disk (create 9 (codes "d") (codes "now") wanted disk)
unfolding has_ext
create-IsCreated_example =
    create-IsCreated 9 (codes "d") (codes "now") wanted disk ((refl, tt), (tt, tt))

abbrev body : Json
body = object (
    field (codes "show") (str (codes " Naruto ")) (
      field (codes "season") (int (pos 2))
        (field (codes "episode_re") (str (codes "[Ee]0*[1-3]")) no_fields)))

abbrev anime : Outside
anime = record {
  root = codes "/anime";
  is_dir = same_text (codes "/data/Naruto");
  real_path = λ t. codes "/data" ++ drop 6 t;
}

-- The root is a link to /data.
body_accepted :
    validate (λ _. true) (some anime) body
    ≡ ok (record {
      show = codes "Naruto";
      season = some 2;
      episode_re = some (codes "[Ee]0*[1-3]");
      require_eng = none;
      webhook = none;
    })
unfolding validate same_text
body_accepted = refl

validate-IsClean_example : OnOk (IsClean (some anime)) (validate (λ _. true) (some anime) body)
validate-IsClean_example = validate-IsClean (λ _. true) (some anime) body

start_and_requeue_exact_example :
    (after : Disk) × (start_and_requeue 8 9
        (record { folder = queue_dir; name = codes "a" ++ json_ext })
        disk
      ≡ done_with (after, record { folder = queue_dir; name = codes "a" ++ json_ext }))
    × (content_at (codes "a" ++ json_ext) after.queue ≡ some (doc (with_status pending older)))
    × (content_at (codes "a" ++ running_ext) after.queue ≡ none)
    × ((m : Text)
        → same_text (codes "a" ++ json_ext) m ≡ false
        → same_text (codes "a" ++ running_ext) m ≡ false
        → content_at m after.queue ≡ content_at m disk.queue)
unfolding content_at
start_and_requeue_exact_example = start_and_requeue_exact 8 9 (codes "a") older disk refl

abbrev shelf : List Text
shelf = codes "/m/S01E02.mkv" ∷ codes "/m/S03E01.mkv" ∷ codes "/m/S02E10.mkv" ∷ []

order_files-InWatchOrder_example :
    let ordered = order_files shelf (pos 2) in Perm ordered shelf × Ordered (InWatchOrder 2) ordered
order_files-InWatchOrder_example = order_files-InWatchOrder shelf 1

shelf_ordered :
    order_files shelf (pos 2)
    ≡ codes "/m/S02E10.mkv" ∷ codes "/m/S03E01.mkv" ∷ codes "/m/S01E02.mkv" ∷ []
unfolding order_files
shelf_ordered = refl

prune_exact_example :
    let (after, removed) = prune 7 2000000 disk in
    (a : ℕ) × (b : ℕ) × Pruned 7 2000000 disk.finished_ok after.finished_ok a
    × Pruned 7 2000000 disk.finished_failed after.finished_failed b
    × (removed ≡ a + b)
    × (after.queue ≡ disk.queue)
prune_exact_example = prune_exact 7 2000000 disk

recover_running-stops_example :
    recover_running 9 (codes "now") damaged
    ≡ record { disk = damaged; paths = []; stopped = some no_json }
unfolding content_at has_ext
recover_running-stops_example = recover_running-stops 9 (codes "now") damaged (inl (refl, refl))
