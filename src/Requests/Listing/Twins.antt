-- ===== src/Requests/Listing/Twins.antt =====
-- review_requests.py: `create` never queues a request that is waiting already.
use dub_titlerr.Prelude.{
  AllOf, ℕ, ◌≡◌, refl, Bool, true, false, ◌&&◌, Option, none, some, List, [], ◌∷◌, ◌++◌, arith, ◌⊎◌,
  inl, inr, Bool-cases,
}
use dub_titlerr.Text.{Text}
use dub_titlerr.Requests.Body.{Clean}
use dub_titlerr.Requests.Files.{
  Request, Content, doc, not_object, not_json, Entry, Disk, Attempt, done_with, raised, ◌>>=◌,
  content_at, unlink, replace,
}
use dub_titlerr.Requests.Queue.{has_ext, json_ext, is_pending, stem}
use dub_titlerr.Requests.Queue.Oldest.{waits, holds_pending}
use dub_titlerr.Requests.Queue.Moves.{content_at-replace_self}
use dub_titlerr.Requests.Listing.{
  same_option_text, same_option_number, asks_same, identical, identical_in, get_id, Created,
  conflict, created, new_request, create, answer,
}

-- Two requests with one show, season and episode_re.
unfoldable pub same_request : Request → Request → Bool
same_request r s =
    same_option_text r.show s.show
    && same_option_number r.season s.season
    && same_option_text r.episode_re s.episode_re

abbrev pub same_content : Content → Content → Bool
same_content (doc r) (doc s) = same_request s r
same_content (doc r) not_object = false
same_content (doc r) not_json = false
same_content not_object d = false
same_content not_json d = false

-- Two files with waiting requests that ask the same.
abbrev pub are_twins : Entry → Entry → Bool
are_twins e f = waits f && same_content e.content f.content

abbrev pub NoTwins : List Entry → Type 0
NoTwins [] = Unit
NoTwins (e ∷ es) = AllOf (λ f. waits e && are_twins e f ≡ false) es × NoTwins es

-- What a file holds asks for what is wanted.
abbrev pub wants : Clean → Content → Bool
wants c (doc r) = is_pending r && asks_same c r
wants c not_object = false
wants c not_json = false

abbrev pub id_of : Text → Content → Option Text
id_of n (doc r) = get_id r.id (stem json_ext n)
id_of n not_object = none
id_of n not_json = none

-- A visible request file that waits for what is wanted.
abbrev pub asked : Clean → Entry → Bool
asked c e = has_ext json_ext e.name && wants c e.content

-- Such a file is there, and `old` is its id.
abbrev pub Waiting : Clean → Option Text → List Entry → Type 0
Waiting c old [] = ⊥
Waiting c old (e ∷ es) = ((asked c e ≡ true) × (old ≡ id_of e.name e.content)) ⊎ Waiting c old es

abbrev Unasked : Clean → List Entry → Type 0
Unasked c = AllOf (λ e. asked c e ≡ false)

abbrev IsAnswer : Clean → List Entry → Attempt (Option (Option Text)) → Type 0
IsAnswer c es (done_with none) = Unasked c es
IsAnswer c es (done_with (some old)) = Waiting c old es
IsAnswer c es (raised x) = Unit

and_assoc : (a b c : Bool) → (a && (b && c)) ≡ false → (a && b && c) ≡ false
and_assoc a b c h = ground (arith, h)

and_second : (a b : Bool) → b ≡ false → (a && b) ≡ false
and_second a b h = ground (arith, h)

and_false : (b : Bool) → (b && false) ≡ false
and_false true = refl
and_false false = refl

identical_step :
    (c : Clean) (e : Entry) (es : List Entry) (shown : Bool) (held : Content)
    (rest : Attempt (Option (Option Text)))
    → has_ext json_ext e.name ≡ shown
    → e.content ≡ held
    → IsAnswer c es rest
    → IsAnswer c (e ∷ es) (identical_in c e.name shown held rest)
identical_step c e es shown (doc r) (done_with none) s k h =
    elim (Bool-cases (shown && (is_pending r && asks_same c r))) [
      | inl b ↦ rw (b) (inl (rw (s, k) b, rw (k) refl))
      | inr b ↦ rw (b) (rw (s, k) b, h)
    ]
identical_step c e es shown (doc r) (done_with (some old)) s k h =
    elim (Bool-cases (shown && (is_pending r && asks_same c r))) [
      | inl b ↦ rw (b) (inl (rw (s, k) b, rw (k) refl))
      | inr b ↦ rw (b) (inr h)
    ]
identical_step c e es shown (doc r) (raised x) s k h =
    elim (Bool-cases (shown && (is_pending r && asks_same c r))) [
      | inl b ↦ rw (b) (inl (rw (s, k) b, rw (k) refl))
      | inr b ↦ rw (b) tt
    ]
identical_step c e es true not_object rest s k h = tt
identical_step c e es false not_object (done_with none) s k h = (rw (s) refl, h)
identical_step c e es false not_object (done_with (some old)) s k h = inr h
identical_step c e es false not_object (raised x) s k h = tt
identical_step c e es shown not_json (done_with none) s k h =
    (rw (k) (and_false (has_ext json_ext e.name)), h)
identical_step c e es shown not_json (done_with (some old)) s k h = inr h
identical_step c e es shown not_json (raised x) s k h = tt

identical-IsAnswer : (c : Clean) (es : List Entry) → IsAnswer c es (identical c es)
unfolding identical
identical-IsAnswer c [] = tt
identical-IsAnswer c (e ∷ es) =
    identical_step c e es (has_ext json_ext e.name) e.content (identical c es) refl refl
      (identical-IsAnswer c es)

-- The entry of a new request.
abbrev entry_of : ℕ → Text → Text → Clean → Entry
entry_of clock id at c = record {
  name = id ++ json_ext;
  content = doc (new_request id at c);
  mtime = clock;
}

twins-new :
    (clock : ℕ) (id at : Text) (c : Clean) (shown : Bool) (d : Content)
    → (shown && wants c d) ≡ false
    → (shown && holds_pending d && same_content (doc (new_request id at c)) d) ≡ false
unfolding asks_same same_request new_request
twins-new clock id at c shown (doc r) h = and_assoc shown (is_pending r) (asks_same c r) h
twins-new clock id at c shown not_object h = ground arith
twins-new clock id at c shown not_json h = ground arith

Unasked-NoTwins :
    (clock : ℕ) (id at : Text) (c : Clean) (es : List Entry)
    → Unasked c es
    → AllOf (λ f. are_twins (entry_of clock id at c) f ≡ false) es
Unasked-NoTwins clock id at c [] h = tt
Unasked-NoTwins clock id at c (e ∷ es) h = (
  twins-new clock id at c (has_ext json_ext e.name) e.content h.0,
  Unasked-NoTwins clock id at c es h.1,
)

AllOf-unlink {ℓ} :
    (P : Entry → Type ℓ) (n : Text) (es : List Entry) → AllOf P es → AllOf P (unlink n es)
unfolding unlink
AllOf-unlink P n [] h = tt
AllOf-unlink P n (e ∷ es) h = ground (arith, h, AllOf-unlink P n es h.1)

NoTwins-unlink : (n : Text) (es : List Entry) → NoTwins es → NoTwins (unlink n es)
unfolding unlink
NoTwins-unlink n [] h = tt
NoTwins-unlink n (e ∷ es) h = ground (
  arith,
  h,
  NoTwins-unlink n es h.1,
  AllOf-unlink (λ f. (waits e && are_twins e f) ≡ false) n es h.0,
)

weaken_twins :
    (e : Entry) (es : List Entry)
    → AllOf (λ f. are_twins e f ≡ false) es
    → AllOf (λ f. (waits e && are_twins e f) ≡ false) es
weaken_twins e [] h = tt
weaken_twins e (f ∷ fs) h = (and_second (waits e) (are_twins e f) h.0, weaken_twins e fs h.1)

-- What an answer of `create` says of the queue before and after it.
abbrev pub IsCreated : Text → Text → Clean → Disk → Attempt (Disk × Created) → Type 0
IsCreated id at c disk (raised x) = Unit
IsCreated id at c disk (done_with (after, conflict old)) = (after ≡ disk) × Waiting c old disk.queue
IsCreated id at c disk (done_with (after, created new)) =
    (new ≡ id)
    × (content_at (id ++ json_ext) after.queue ≡ some (doc (new_request id at c)))
    × NoTwins after.queue

answer-IsCreated :
    (clock : ℕ) (id at : Text) (c : Clean) (disk : Disk) (old : Attempt (Option (Option Text)))
    → NoTwins disk.queue
    → IsAnswer c disk.queue old
    → IsCreated id at c disk (old >>= λ o. done_with (answer clock id at c disk o))
unfolding replace
answer-IsCreated clock id at c disk (raised x) t h = tt
answer-IsCreated clock id at c disk (done_with (some old)) t h = (refl, h)
answer-IsCreated clock id at c disk (done_with none) t h =
    let e : Entry = entry_of clock id at c in
    (
      refl,
      content_at-replace_self e disk.queue,
      (
        weaken_twins e (unlink e.name disk.queue) (
            AllOf-unlink (λ f. are_twins e f ≡ false) e.name disk.queue
              (Unasked-NoTwins clock id at c disk.queue h)),
        NoTwins-unlink e.name disk.queue t,
      ),
    )

-- Where no two waiting requests ask the same, `create` keeps that so: if it answers 201, the new
-- request is in its file; if it answers 409, nothing has changed, and a waiting request with the
-- id that it names asks the same.
pub create-IsCreated :
    (clock : ℕ) (id at : Text) (c : Clean) (disk : Disk)
    → NoTwins disk.queue
    → IsCreated id at c disk (create clock id at c disk)
unfolding create
create-IsCreated clock id at c disk t =
    answer-IsCreated clock id at c disk (identical c disk.queue) t (identical-IsAnswer c disk.queue)
