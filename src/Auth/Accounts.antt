-- ===== src/Auth/Accounts.antt =====
-- review_auth.py: `read_users`, `find_user`, `create_user`, `update_user`, `delete_user`,
-- `set_password` and the check of a login. Each returns the accounts file as it leaves it.
pub mod Guarded
pub mod Steps
use dub_titlerr.Prelude.{
  ℕ, suc, ◌+◌, Bool, true, false, not, ◌&&◌, ◌||◌, Option, none, some, List, [], ◌∷◌, ◌++◌, length,
  ltb, leb, ◌==◌, if◌then◌else◌,
}
use dub_titlerr.Text.{Text, same_text}
use dub_titlerr.Text.Lower.{lower}
use dub_titlerr.Text.Table.{find, put, remove}
use dub_titlerr.Auth.{
  Role, admin, user, same_role, Problem, bad_username, bad_password, bad_role, nothing_to_change,
  already_set_up, name_taken, last_admin, no_such_user, busy, not_writable, unreadable, Answer, ok,
  refused, ◌>>=◌, ◌>>◌, refuse_if, Field, absent, wrong, given, Disk, no_lock_file, lock_taken,
  no_write, fine, User, UsersFile, missing, damaged, rows, is_username, check_username,
  check_password, check_role, account_key,
}

unfoldable pub all_usernames : List User → Bool
unfolding is_username
all_usernames [] = true
all_usernames (u ∷ us) = is_username u.name && all_usernames us

-- k in the lower-case names
unfoldable pub name_among : Text → List User → Bool
unfolding same_text account_key
name_among k [] = false
name_among k (u ∷ us) = same_text k (account_key u) || name_among k us

-- len({r["name"].lower() for r in rows}) == len(rows)
unfoldable pub no_repeats : List User → Bool
unfolding name_among
no_repeats [] = true
no_repeats (u ∷ us) = not (name_among (account_key u) us) && no_repeats us

unfoldable pub read_users : UsersFile → Answer (List User)
unfolding all_usernames no_repeats
read_users missing = ok []
read_users damaged = refused unreadable
read_users (rows us) = if all_usernames us && no_repeats us then ok us else refused unreadable

unfoldable pub find_user : List User → Text → Option User
unfolding find lower
find_user us name = find account_key (lower name) us

abbrev pub is_empty : List User → Bool
is_empty [] = true
is_empty (u ∷ us) = false

abbrev pub setup_required : UsersFile → Bool
setup_required file = elim (read_users file) [ ok us ↦ is_empty us | refused p ↦ false ]

abbrev pub is_admin : User → Bool
is_admin u = same_role u.role admin

unfoldable pub admin_count : List User → ℕ
admin_count [] = 0
admin_count (u ∷ us) = (if is_admin u then 1 else 0) + admin_count us

-- _locked: what keeps a change from being made before the file is read
abbrev pub lock_problem : Disk → Answer (Unit {0})
lock_problem no_lock_file = refused not_writable
lock_problem lock_taken = refused busy
lock_problem no_write = ok tt
lock_problem fine = ok tt

-- _write_json
abbrev pub write_problem : Disk → Answer (Unit {0})
write_problem no_write = refused not_writable
write_problem _ = ok tt

-- A change that is computed under the lock and written at its end: the file is as before if
-- anything is raised.
abbrev pub commit {ℓ} : {A : Type ℓ} → UsersFile → Answer (List User × A) → UsersFile × Answer A
commit file (ok (us, a)) = (rows us, ok a)
commit file (refused p) = (file, refused p)

abbrev pub must_be_absent : Option User → Answer (Unit {0})
must_be_absent none = ok tt
must_be_absent (some u) = refused name_taken

abbrev pub must_exist : Option User → Answer User
must_exist none = refused no_such_user
must_exist (some u) = ok u

-- The rows behind a new account; `hash` is the hash of its password, `clock` the time.
unfoldable pub created_rows :
    Disk → ℕ → Bool → Text → Role → Text → UsersFile → Answer (List User × (Text × Role))
unfolding read_users find_user
created_rows disk clock only_if_empty name role hash file = do
  lock_problem disk
  us ← read_users file
  refuse_if (only_if_empty && not (is_empty us)) already_set_up
  must_be_absent (find_user us name)
  write_problem disk
  ok (
    us
        ++ record {
          name = name;
          role = role;
          hash = hash;
          pw_changed_at = clock;
          session_epoch = 0;
        }
          ∷ [],
    (name, role),
  )

-- `hashed` is hash_password with its salt.
unfoldable pub create_user :
    (Text → Text)
    → Disk
    → ℕ
    → Bool
    → Field Text
    → Field Role
    → Field Text
    → UsersFile
    → UsersFile × Answer (Text × Role)
unfolding created_rows
create_user hashed disk clock only_if_empty name role password file = commit file (do
  n ← check_username name
  p ← check_password password
  r ← check_role role
  created_rows disk clock only_if_empty n r (hashed p) file)

-- Whether an account is the only admin.
abbrev pub is_last_admin : List User → User → Bool
is_last_admin us u = is_admin u && leb (admin_count us) 1

abbrev new_role : User → Field Role → Role
new_role u (given r) = r
new_role u _ = u.role

-- `role is not None and role != row["role"]`
abbrev pub changes_role : User → Field Role → Bool
changes_role u (given r) = not (same_role r u.role)
changes_role u _ = false

abbrev new_hash : (Text → Text) → Text → Field Text → Text
new_hash hashed old (given p) = hashed p
new_hash hashed old _ = old

abbrev pub is_given {ℓ} : {A : Type ℓ} → Field A → Bool
is_given absent = false
is_given wrong = true
is_given (given a) = true

-- The account after an update: its role, its password, and the epoch that ends its sessions.
abbrev pub updated : (Text → Text) → ℕ → Field Role → Field Text → User → User
updated hashed clock role password u = record u {
  role = new_role u role;
  hash = new_hash hashed u.hash password;
  pw_changed_at = if is_given password then clock else u.pw_changed_at;
  session_epoch =
      if changes_role u role || is_given password then u.session_epoch + 1 else u.session_epoch;
}

-- What update_user refuses before it takes the lock.
abbrev pub check_update : Field Role → Field Text → Answer (Unit {0})
check_update wrong password = refused bad_role
check_update absent absent = refused nothing_to_change
check_update (given r) absent = ok tt
check_update role password = check_password password >>= λ _. ok tt

-- The rows behind an update, the account, and whether its sessions end.
unfoldable pub updated_rows :
    (Text → Text)
    → Disk
    → ℕ
    → Text
    → Field Role
    → Field Text
    → UsersFile
    → Answer (List User × (User × Bool))
unfolding read_users find_user put
updated_rows hashed disk clock name role password file = do
  check_update role password
  lock_problem disk
  us ← read_users file
  u ← must_exist (find_user us name)
  refuse_if (changes_role u role && is_last_admin us u) last_admin
  write_problem disk
  ok (
    put account_key (updated hashed clock role password u) us,
    (updated hashed clock role password u, changes_role u role || is_given password),
  )

unfoldable pub update_user :
    (Text → Text)
    → Disk
    → ℕ
    → Text
    → Field Role
    → Field Text
    → UsersFile
    → UsersFile × Answer (User × Bool)
unfolding updated_rows
update_user hashed disk clock name role password file =
    commit file (updated_rows hashed disk clock name role password file)

unfoldable pub deleted_rows : Disk → Text → UsersFile → Answer (List User × User)
unfolding read_users find_user remove
deleted_rows disk name file = do
  lock_problem disk
  us ← read_users file
  u ← must_exist (find_user us name)
  refuse_if (is_last_admin us u) last_admin
  write_problem disk
  ok (remove account_key (account_key u) us, u)

unfoldable pub delete_user : Disk → Text → UsersFile → UsersFile × Answer User
unfolding deleted_rows
delete_user disk name file = commit file (deleted_rows disk name file)

-- The rows behind a new password, and the account.
unfoldable pub password_rows :
    (Text → Text) → Disk → ℕ → Text → Field Text → UsersFile → Answer (List User × User)
unfolding read_users find_user put
password_rows hashed disk clock name password file = do
  p ← check_password password
  lock_problem disk
  us ← read_users file
  u ← must_exist (find_user us name)
  write_problem disk
  ok (
    put account_key (updated hashed clock absent (given p) u) us,
    updated hashed clock absent (given p) u,
  )

unfoldable pub set_password :
    (Text → Text) → Disk → ℕ → Text → Field Text → UsersFile → UsersFile × Answer User
unfolding password_rows
set_password hashed disk clock name password file =
    commit file (password_rows hashed disk clock name password file)

abbrev pub text_of : Field Text → Text
text_of (given t) = t
text_of _ = []

-- A name that is no string finds no account.
abbrev pub find_field : List User → Field Text → Option User
find_field us (given name) = find_user us name
find_field us _ = none

-- `verify` is verify_password; an account that is not there is checked against a hash that no
-- password has, for the time that it takes.
unfoldable pub check_login :
    (Text → Text → Bool) → List User → Field Text → Field Text → Option User
unfolding find_user
check_login verify us name password = elim (find_field us name) [
  | none ↦ none
  | some u ↦ if verify (text_of password) u.hash then some u else none
]
