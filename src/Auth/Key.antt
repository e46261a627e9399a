-- ===== src/Auth/Key.antt =====
-- review_auth.py: the API key, in its file, and the review token of older versions that stands in
-- for it until a key is stored. `legacy` is that token, [] if there is none.
pub mod Stored
pub mod Kept
pub mod Steps
use dub_titlerr.Prelude.{
  ℕ, ◌∷◌, ◌++◌, Bool, true, false, not, ◌&&◌, ◌||◌, Option, none, some, List, [], if◌then◌else◌,
}
use dub_titlerr.Text.{Text, any, strip, same_text}
use dub_titlerr.Auth.{
  Answer, ok, refused, ◌>>=◌, ◌>>◌, not_writable, Disk, no_lock_file, lock_taken, no_write, fine,
  is_surrogate,
}
use dub_titlerr.Auth.Accounts.{lock_problem, write_problem}

pub data KeyFile : Type 0 where
  no_key_file no_access : KeyFile
  content : Text → KeyFile

-- `retired` says that the marker file is there; `seen_stored` is this process's memory of it.
pub record Keys : Type 0 where
  pub key_file : KeyFile
  pub retired : Bool
  pub seen_stored : Bool

pub data KeyState : Type 0 where
  key_ok : Text → KeyState
  key_missing key_error : KeyState

abbrev non_empty_key : Text → KeyState
non_empty_key [] = key_error
non_empty_key (c ∷ t) = key_ok (c ∷ t)

unfoldable pub state_of : KeyFile → KeyState
unfolding strip
state_of no_key_file = key_missing
state_of no_access = key_error
state_of (content t) = non_empty_key (strip t)

-- _key_file: a key that is read is remembered as stored
abbrev pub noted : KeyState → Keys → Keys
noted (key_ok key) s = record s { seen_stored = true }
noted _ s = s

abbrev pub read_key : Keys → Keys × KeyState
read_key s = (noted (state_of s.key_file) s, state_of s.key_file)

abbrev pub legacy_allowed : Keys → Bool
legacy_allowed s = not s.seen_stored && not s.retired

abbrev pub key_of : Text → Keys → KeyState → Text
key_of legacy s (key_ok key) = key
key_of legacy s key_missing = if legacy_allowed s then legacy else []
key_of legacy s key_error = []

unfoldable pub api_key : Text → Keys → Keys × Text
unfolding state_of
api_key legacy s = (noted (state_of s.key_file) s, key_of legacy s (state_of s.key_file))

abbrev pub is_empty_text : Text → Bool
is_empty_text [] = true
is_empty_text (c ∷ t) = false

-- A text with a lone surrogate has no bytes, and is no key.
abbrev pub same_key : Text → Text → Bool
same_key presented expected =
    not (is_empty_text expected)
    && not (is_empty_text presented)
    && not (any is_surrogate presented)
    && not (any is_surrogate expected)
    && same_text presented expected

unfoldable pub key_matches : Text → Text → Keys → Keys × Bool
unfolding api_key any same_text
key_matches legacy presented s = ((api_key legacy s).0, same_key presented (api_key legacy s).1)

-- _store_key: the key, then the marker; the second write can fail after the first
unfoldable pub store_key : Disk → Bool → Text → Keys → Keys × Answer (Unit {0})
store_key no_lock_file marked key s = (s, lock_problem no_lock_file)
store_key lock_taken marked key s = (s, lock_problem lock_taken)
store_key no_write marked key s = (s, write_problem no_write)
store_key fine false key s =
    (record s { key_file = content (key ++ b'\n' ∷ []); seen_stored = true }, refused not_writable)
store_key fine true key s =
    (record s { key_file = content (key ++ b'\n' ∷ []); seen_stored = true; retired = true }, ok tt)

abbrev or_key : Text → Text → Text
or_key [] key = key
or_key (c ∷ t) key = c ∷ t

-- What init_api_key stores; `random` is a fresh token.
abbrev pub first_key : Text → Text → Keys → Text
first_key legacy random s = or_key (if legacy_allowed s then legacy else []) random

abbrev pub under_lock : Disk → Bool → Text → Keys → KeyState → Keys
under_lock disk marked key s key_missing = (store_key disk marked key s).0
under_lock disk marked key s state = noted state s

-- Whether the lock is held.
abbrev pub has_lock : Disk → Bool
has_lock no_lock_file = false
has_lock lock_taken = false
has_lock no_write = true
has_lock fine = true

abbrev pub init_from : Text → Text → Disk → Bool → KeyFile → Keys → KeyState → Keys
init_from legacy random disk marked found s key_missing =
    if has_lock disk
    then under_lock disk marked (first_key legacy random s) (record s { key_file = found })
        (state_of found)
    else s
init_from legacy random disk marked found s state = noted state s

-- `found` is the key file by the time that the lock is held.
unfoldable pub init_api_key : Text → Text → Disk → Bool → KeyFile → Keys → Keys
unfolding state_of store_key
init_api_key legacy random disk marked found s =
    init_from legacy random disk marked found s (state_of s.key_file)

abbrev pub reset_to : Text → Keys × Answer (Unit {0}) → Keys × Answer Text
reset_to random (s, ok u) = (s, ok random)
reset_to random (s, refused p) = (s, refused p)

unfoldable pub reset_api_key : Text → Disk → Bool → Keys → Keys × Answer Text
unfolding store_key
reset_api_key random disk marked s = reset_to random (store_key disk marked random s)
