-- ===== src/Auth/Login.antt =====
-- review_auth.py: the handlers of setup, login and logout, and the import of the first admin from
-- the environment. A body that is no object has every field absent.
pub mod Replies
pub mod Manage
pub mod Epochs
pub mod Rotated
use dub_titlerr.Prelude.{
  ℕ, ◌+◌, ◌-◌, ◌∷◌, ◌++◌, Bool, true, false, not, ◌&&◌, ◌||◌, Option, none, some, List, [], take,
  drop, length, max, ◌==◌, if◌then◌else◌,
}
use dub_titlerr.Text.{Text, codes, same_text, starts_with, ends_with}
use dub_titlerr.Text.Lower.{lower}
use dub_titlerr.Auth.{
  Role, admin, user, Problem, bad_username, already_set_up, Answer, ok, refused, Field, absent,
  wrong, given, Disk, User, UsersFile, is_username, is_password,
}
use dub_titlerr.Auth.Accounts.{
  read_users, find_user, is_empty, create_user, update_user, delete_user, set_password, check_login,
  text_of,
}
use dub_titlerr.Auth.Headers.{Headers, cookie}
use dub_titlerr.Auth.Key.{is_empty_text}
use dub_titlerr.Auth.Sessions.{Store, create}
use dub_titlerr.Auth.Sessions.Use.{revoke, revoke_user}
use dub_titlerr.Auth.Throttle.{Limits, login_limits, Failures, retry_after, failure, success}
use dub_titlerr.Auth.Routes.{Kind, by_key, by_alias, by_session, unguarded, Principal, is_session}
use dub_titlerr.Auth.Login.Replies.{
  Reply, failed, throttled, setup_first, wrong_login, wrong_current, login_first, own_account, off,
  no_route, no_method, set_up, logged_in, logged_out, account, accounts, done, changed_here,
  changed_elsewhere, secure_cookies,
}

-- What the handlers change.
pub record Server : Type 0 where
  pub users : UsersFile
  pub store : Store
  pub seen : List Failures

-- `hashed` is hash_password, `verify` is verify_password, `digest` the SHA-256 of an id, and
-- `unquote` is urllib.parse.unquote; `users_disk` and `sessions_disk` are what the writes of the two
-- files meet, `now` the clock and `ticks` the monotonic clock of the throttle.
pub record Host : Type 0 where
  pub hashed : Text → Text
  pub verify : Text → Text → Bool
  pub digest : Text → Text
  pub unquote : Text → Text
  pub users_disk : Disk
  pub sessions_disk : Disk
  pub now : ℕ
  pub ticks : ℕ
  pub always_secure : Bool

-- POST /api/setup
unfoldable pub handle_setup : Host → Field Text → Field Text → Server → Server × Reply
unfolding read_users create_user
handle_setup h name password s =
    let made = create_user h.hashed h.users_disk h.now true name (given admin) password s.users in
    elim (read_users s.users) [
      | refused p ↦ (s, failed p)
      | ok us ↦
          if is_empty us
          then (
            record s { users = made.0 },
            elim made.1 [ ok row ↦ set_up row.0 | refused p ↦ failed p ],
          )
          else (s, failed already_set_up)
    ]

-- The counters of a login: its address, and its username if there is one.
unfoldable pub user_keys : Field Text → List Text
unfolding lower
user_keys (given (c ∷ t)) = (codes "user:" ++ take 64 (lower (c ∷ t))) ∷ []
user_keys _ = []

abbrev pub throttle_keys : Text → Field Text → List Text
throttle_keys client name = client ∷ user_keys name

unfoldable pub longest_wait : ℕ → List Text → List Failures → ℕ
unfolding retry_after
longest_wait ticks [] seen = 0
longest_wait ticks (k ∷ ks) seen = max (retry_after ticks k seen) (longest_wait ticks ks seen)

unfoldable pub fail_all : ℕ → List Text → List Failures → List Failures
unfolding failure
fail_all ticks [] seen = seen
fail_all ticks (k ∷ ks) seen = fail_all ticks ks (failure login_limits ticks k seen)

unfoldable pub succeed_all : List Text → List Failures → List Failures
unfolding success
succeed_all [] seen = seen
succeed_all (k ∷ ks) seen = succeed_all ks (success k seen)

abbrev revoke_presented : Host → Text → Store → Store
revoke_presented h [] store = store
revoke_presented h (c ∷ t) store = revoke h.sessions_disk h.now (h.digest (c ∷ t)) store

-- The new session of an account, with the fresh id `sid`.
unfoldable pub begin_session : Host → Text → Headers → Bool → User → Server → Server × Reply
unfolding cookie revoke create secure_cookies
begin_session h sid headers remember u s =
    let left = revoke_presented h (cookie headers (codes "dubtitlerr_session")) s.store in
    let made = create h.sessions_disk h.now (h.digest sid) u.name remember u.session_epoch left in
    (
      record s { store = made.0 },
      elim made.1 [
        | ok id ↦ logged_in u.name u.role sid remember (secure_cookies h.always_secure headers)
        | refused p ↦ failed p
      ],
    )

abbrev pub answer_login :
    Host → Text → Headers → Bool → Text → Field Text → Server → Option User → Server × Reply
answer_login h sid headers remember client name s none =
    (record s { seen = fail_all h.ticks (throttle_keys client name) s.seen }, wrong_login)
answer_login h sid headers remember client name s (some u) =
    begin_session h sid headers remember u (record s { seen = succeed_all (user_keys name) s.seen })

abbrev pub try_login :
    Host → Text → Headers → Bool → Text → Field Text → Field Text → Server → Server × Reply
try_login h sid headers remember client name password s = elim (read_users s.users) [
  | refused p ↦ (s, failed p)
  | ok us ↦
      if is_empty us
      then (s, setup_first)
      else answer_login h sid headers remember client name s (check_login h.verify us name password)
]

-- POST /api/login
unfoldable pub handle_login :
    Host → Text → Headers → Bool → Text → Field Text → Field Text → Server → Server × Reply
unfolding user_keys longest_wait fail_all succeed_all read_users check_login begin_session
handle_login h sid headers remember client name password s =
    let wait = longest_wait h.ticks (throttle_keys client name) s.seen in
    if wait == 0
    then try_login h sid headers remember client name password s
    else (s, throttled wait)

-- POST /api/logout
unfoldable pub handle_logout : Host → Headers → Option Principal → Server → Server × Reply
unfolding revoke secure_cookies
handle_logout h headers none s = (s, logged_out (secure_cookies h.always_secure headers))
handle_logout h headers (some p) s =
    let gone = revoke h.sessions_disk h.now (h.digest p.sid) s.store in
    (
      if is_session p.kind && not (is_empty_text p.sid) then record s { store = gone } else s,
      logged_out (secure_cookies h.always_secure headers),
    )

-- What REVIEW_PASSWORD_FILE is: not named, not to be read, not UTF-8, or its text.
pub data PasswordFile : Type 0 where
  not_named no_access not_utf8 : PasswordFile
  content : Text → PasswordFile

-- Without one newline at its end.
unfoldable pub trimmed_end : Text → Text
unfolding ends_with
trimmed_end t =
    if ends_with (codes "\r\n") t
    then take (length t - 2) t
    else if ends_with (codes "\n") t
    then take (length t - 1) t
    else t

abbrev env_password : PasswordFile → Text → Option Text
env_password not_named password = some password
env_password no_access password = none
env_password not_utf8 password = none
env_password (content t) password = some (trimmed_end t)

abbrev is_named : PasswordFile → Bool
is_named not_named = false
is_named _ = true

abbrev import_with : Host → Text → Option Text → Server → Server × Bool
import_with h name none s = (s, false)
import_with h name (some password) s =
    let made =
      create_user h.hashed h.users_disk h.now true (given name) (given admin) (given password)
        s.users in
    if is_empty_text name || is_empty_text password
    then (s, false)
    else if is_username name && is_password password
    then (record s { users = made.0 }, elim made.1 [ ok row ↦ true | refused p ↦ false ])
    else (s, false)

-- An environment variable that is not set is [] here, as the code takes the two alike.
unfoldable pub import_env_admin : Host → Text → Text → PasswordFile → Server → Server × Bool
unfolding read_users create_user trimmed_end is_username is_password
import_env_admin h name password file s =
    let imported = import_with h name (env_password file password) s in
    if is_empty_text name && is_empty_text password && not (is_named file)
    then (s, false)
    else elim (read_users s.users) [
      | refused p ↦ (s, false)
      | ok us ↦ if is_empty us then imported else (s, false)
    ]
