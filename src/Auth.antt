-- ===== src/Auth.antt =====
-- review_auth.py: accounts, sessions, the API key and the roles of the routes of the review server.
-- Times are whole ticks of some fraction of a second; hashes, digests and random ids are arguments.
pub mod Accounts
pub mod Headers
pub mod Key
pub mod Login
pub mod Routes
pub mod Sessions
pub mod Throttle
use dub_titlerr.Prelude.{
  ℕ, ◌+◌, ◌*◌, Bool, true, false, not, ◌&&◌, ◌||◌, Option, none, some, List, [], ◌∷◌, length, ltb,
  leb, ◌==◌, if◌then◌else◌,
}
use dub_titlerr.Text.{Text, any, elem, codes, same_text}
use dub_titlerr.Text.Lower.{lower}

pub data Role : Type 0 where
  admin user : Role

abbrev pub same_role : Role → Role → Bool
same_role admin admin = true
same_role admin user = false
same_role user admin = false
same_role user user = true

-- The exceptions, by what they say.
pub data Problem : Type 0 where
  bad_username bad_password bad_role nothing_to_change invalid_name : Problem
  already_set_up name_taken last_admin : Problem
  no_such_user : Problem
  busy not_writable unreadable : Problem

-- The status of each: Invalid, Conflict, NotFound, and the three with 503.
abbrev pub status_of : Problem → ℕ
status_of bad_username = 400
status_of bad_password = 400
status_of bad_role = 400
status_of nothing_to_change = 400
status_of invalid_name = 400
status_of already_set_up = 409
status_of name_taken = 409
status_of last_admin = 409
status_of no_such_user = 404
status_of busy = 503
status_of not_writable = 503
status_of unreadable = 503

pub data Answer {ℓ} (A : Type ℓ) : Type ℓ where
  ok : A → Answer A
  refused : Problem → Answer A

infixl 5 ◌>>=◌ ◌>>◌
abbrev pub ◌>>=◌ {ℓ κ} : {A : Type ℓ} {B : Type κ} → Answer A → (A → Answer B) → Answer B
ok a >>= f = f a
refused p >>= f = refused p

abbrev pub ◌>>◌ {ℓ} : {B : Type ℓ} → Answer (Unit {0}) → Answer B → Answer B
m >> k = m >>= λ _. k

abbrev pub refuse_if : Bool → Problem → Answer (Unit {0})
refuse_if true p = refused p
refuse_if false p = ok tt

-- A field of a JSON body: missing or null, of a wrong type, or a value.
pub data Field {ℓ} (A : Type ℓ) : Type ℓ where
  absent wrong : Field A
  given : A → Field A

-- What the lock and the file system do: the lock file cannot be opened, the lock stays taken, the
-- new file cannot be written, or nothing fails.
pub data Disk : Type 0 where
  no_lock_file lock_taken no_write fine : Disk

pub record User : Type 0 where
  pub name : Text
  pub role : Role
  pub hash : Text
  pub pw_changed_at : ℕ
  pub session_epoch : ℕ

-- users.json: not there, no document of version 1 with rows of the right types, or its rows.
pub data UsersFile : Type 0 where
  missing : UsersFile
  damaged : UsersFile
  rows : List User → UsersFile

-- [A-Za-z0-9._-]
abbrev pub is_name_char : ℕ → Bool
is_name_char c =
    leb b'A' c && leb c b'Z'
    || leb b'a' c && leb c b'z'
    || leb b'0' c && leb c b'9'
    || elem c (codes "._-")

-- validate_username finds nothing wrong
unfoldable pub is_username : Text → Bool
unfolding any
is_username name =
    leb 1 (length name) && leb (length name) 64 && not (any (λ c. not (is_name_char c)) name)

abbrev pub is_surrogate : ℕ → Bool
is_surrogate c = leb 0xd800 c && leb c 0xdfff

-- validate_password finds nothing wrong
unfoldable pub is_password : Text → Bool
unfolding any
is_password password =
    leb 10 (length password) && leb (length password) 256 && not (any is_surrogate password)

abbrev pub check_username : Field Text → Answer Text
check_username (given name) = if is_username name then ok name else refused bad_username
check_username _ = refused bad_username

abbrev pub check_password : Field Text → Answer Text
check_password (given password) = if is_password password then ok password else refused bad_password
check_password _ = refused bad_password

abbrev pub check_role : Field Role → Answer Role
check_role (given role) = ok role
check_role _ = refused bad_role

-- u["name"].lower(), the key under which an account is found
unfoldable pub account_key : User → Text
unfolding lower
account_key u = lower u.name
