-- ===== src/Requests/Queue/Oldest.antt =====
-- review_requests.py: `next_pending` takes the oldest pending request.
use dub_titlerr.Prelude.{
  AllOf, ◌≡◌, refl, Bool, true, false, ◌&&◌, Option, none, some, List, [], ◌∷◌, arith, ◌⊎◌,
  if◌then◌else◌,
}
use dub_titlerr.Text.{Text, text_le}
use dub_titlerr.Text.Order.{text_le_total, text_le_trans, text_le_refl}
use dub_titlerr.Requests.Files.{
  Content, doc, not_object, not_json, Entry, Disk, Attempt, done_with, raised,
}
use dub_titlerr.Requests.Queue.{
  has_ext, json_ext, is_pending, insert_entry, candidates, first_pending, next_pending,
}

-- The file holds a pending request.
abbrev pub holds_pending : Content → Bool
holds_pending (doc r) = is_pending r
holds_pending not_object = false
holds_pending not_json = false

-- A visible request file with a pending request.
abbrev pub waits : Entry → Bool
waits e = has_ext json_ext e.name && holds_pending e.content

-- No waiting request has a smaller name.
abbrev pub NoneBefore : Text → List Entry → Type 0
NoneBefore n = AllOf (λ e. waits e ≡ true → text_le n e.name ≡ true)

abbrev pub NoneWaits : List Entry → Type 0
NoneWaits = AllOf (λ e. waits e ≡ false)

-- Some waiting request has the name.
abbrev pub WaitsAs : Text → List Entry → Type 0
WaitsAs n [] = ⊥
WaitsAs n (e ∷ es) = ((waits e ≡ true) × (e.name ≡ n)) ⊎ WaitsAs n es

-- What the answer of next_pending says of the queue.
abbrev pub IsOldest : List Entry → Attempt (Option Text) → Type 0
IsOldest es (done_with none) = NoneWaits es
IsOldest es (done_with (some n)) = WaitsAs n es × NoneBefore n es
IsOldest es (raised e) = Unit

abbrev Sorted : List Entry → Type 0
Sorted [] = Unit
Sorted (e ∷ es) = AllOf (λ f. text_le e.name f.name ≡ true) es × Sorted es

module _ {ℓ} (P : Entry → Type ℓ) where
  AllOf-insert_entry :
      (e : Entry) (es : List Entry) → P e → AllOf P es → AllOf P (insert_entry e es)
  unfolding insert_entry
  AllOf-insert_entry e [] p ps = (p, tt)
  AllOf-insert_entry e (f ∷ fs) p ps = ground (arith, p, ps, AllOf-insert_entry e fs p ps.1)

  AllOf-inserted : (e : Entry) (es : List Entry) → AllOf P (insert_entry e es) → P e × AllOf P es
  unfolding insert_entry
  AllOf-inserted e [] ps = ps
  AllOf-inserted e (f ∷ fs) ps = ground (arith, ps, AllOf-inserted e fs)

  AllOf-candidates :
      (es : List Entry)
      → ((e : Entry) → has_ext json_ext e.name ≡ false → P e)
      → AllOf P (candidates es)
      → AllOf P es
  unfolding candidates
  AllOf-candidates [] hidden ps = tt
  AllOf-candidates (e ∷ es) hidden ps =
      ground (arith, ps, hidden e, AllOf-candidates es hidden, AllOf-inserted e (candidates es))

AllOf-after :
    (n : Text) (e : Entry) (es : List Entry)
    → text_le n e.name ≡ true
    → AllOf (λ f. text_le e.name f.name ≡ true) es
    → AllOf (λ f. text_le n f.name ≡ true) es
AllOf-after n e [] h ps = tt
AllOf-after n e (f ∷ fs) h ps = (text_le_trans n e.name f.name h ps.0, AllOf-after n e fs h ps.1)

Sorted-insert_entry : (e : Entry) (es : List Entry) → Sorted es → Sorted (insert_entry e es)
unfolding insert_entry
Sorted-insert_entry e [] s = (tt, tt)
Sorted-insert_entry e (f ∷ fs) s = ground (
  arith,
  s,
  Sorted-insert_entry e fs s.1,
  text_le_total e.name f.name,
  AllOf-after e.name f fs,
  AllOf-insert_entry (λ g. text_le f.name g.name ≡ true) e fs,
)

Sorted-candidates : (es : List Entry) → Sorted (candidates es)
unfolding candidates
Sorted-candidates [] = tt
Sorted-candidates (e ∷ es) =
    ground (arith, Sorted-candidates es, Sorted-insert_entry e (candidates es))

AllOf-shown_step :
    (b : Bool) (e : Entry) (es : List Entry)
    → has_ext json_ext e.name ≡ b
    → AllOf (λ f. has_ext json_ext f.name ≡ true) es
    → AllOf (λ f. has_ext json_ext f.name ≡ true) (if b then insert_entry e es else es)
AllOf-shown_step true e es h ps = AllOf-insert_entry (λ f. has_ext json_ext f.name ≡ true) e es h ps
AllOf-shown_step false e es h ps = ps

AllOf-shown : (es : List Entry) → AllOf (λ e. has_ext json_ext e.name ≡ true) (candidates es)
unfolding candidates
AllOf-shown [] = tt
AllOf-shown (e ∷ es) =
    AllOf-shown_step (has_ext json_ext e.name) e (candidates es) refl (AllOf-shown es)

WaitsAs-inserted :
    (n : Text) (e : Entry) (es : List Entry) → WaitsAs n (insert_entry e es) → WaitsAs n (e ∷ es)
unfolding insert_entry
WaitsAs-inserted n e [] w = w
WaitsAs-inserted n e (f ∷ fs) w = ground (arith, w, WaitsAs-inserted n e fs)

WaitsAs-candidates : (n : Text) (es : List Entry) → WaitsAs n (candidates es) → WaitsAs n es
unfolding candidates
WaitsAs-candidates n [] w = w
WaitsAs-candidates n (e ∷ es) w =
    ground (arith, w, WaitsAs-candidates n es, WaitsAs-inserted n e (candidates es))

NoneBefore-after :
    (n : Text) (es : List Entry) → AllOf (λ f. text_le n f.name ≡ true) es → NoneBefore n es
NoneBefore-after n [] ps = tt
NoneBefore-after n (e ∷ es) ps = ((λ w. ps.0), NoneBefore-after n es ps.1)

first_pending-IsOldest :
    (es : List Entry)
    → Sorted es
    → AllOf (λ e. has_ext json_ext e.name ≡ true) es
    → IsOldest es (first_pending es)
unfolding first_pending
first_pending-IsOldest [] s h = tt
first_pending-IsOldest (e ∷ es) s h = ground (
  arith,
  s,
  h,
  text_le_refl e.name,
  NoneBefore-after e.name es,
  first_pending-IsOldest es s.1 h.1,
)

IsOldest-candidates :
    (es : List Entry) (r : Attempt (Option Text)) → IsOldest (candidates es) r → IsOldest es r
IsOldest-candidates es (done_with none) o =
    AllOf-candidates (λ e. waits e ≡ false) es (λ e h. ground (arith, h)) o
IsOldest-candidates es (done_with (some n)) o = (
  WaitsAs-candidates n es o.0,
  AllOf-candidates (λ e. waits e ≡ true → text_le n e.name ≡ true) es
      (λ e h w. ground (arith, h, w)) o.1,
)
IsOldest-candidates es (raised x) o = tt

-- Where next_pending returns, it returns the name of a waiting request with no smaller name among
-- the waiting ones, or nothing if no request waits.
pub next_pending-IsOldest : (disk : Disk) → IsOldest disk.queue (next_pending disk)
unfolding next_pending
next_pending-IsOldest disk =
    IsOldest-candidates disk.queue (first_pending (candidates disk.queue)) (
      first_pending-IsOldest (candidates disk.queue) (Sorted-candidates disk.queue)
        (AllOf-shown disk.queue))
