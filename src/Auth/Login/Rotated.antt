-- ===== src/Auth/Login/Rotated.antt =====
-- review_auth.py: what the change of one's own password does to the sessions of the account.
use dub_titlerr.Prelude.{
  ℕ, ◌≤◌, ◌≡◌, refl, ap, ◌∙◌, true, none, some, List, ◌==◌, arith, Bool-cases, inl, inr,
}
use dub_titlerr.Text.{Text}
use dub_titlerr.Text.Lower.{lower}
use dub_titlerr.Text.Table.{find, put, AllOf-find, AllOf-put, DistinctKeys-put}
use dub_titlerr.Auth.{
  Answer, ok, refused, Problem, Field, absent, given, User, rows, is_username, account_key,
}
use dub_titlerr.Auth.Accounts.{find_user, commit, updated, password_rows, set_password, text_of}
use dub_titlerr.Auth.Accounts.Guarded.{AreSound, read_users-AreSound}
use dub_titlerr.Auth.Headers.{Headers}
use dub_titlerr.Auth.Sessions.{Store}
use dub_titlerr.Auth.Sessions.Use.{Info}
use dub_titlerr.Auth.Throttle.{Failures, retry_after}
use dub_titlerr.Auth.Routes.{Principal, of_session, is_session}
use dub_titlerr.Auth.Login.{Server, Host}
use dub_titlerr.Auth.Login.Replies.{failed, wrong_current, own_account, throttled, reply_status}
use dub_titlerr.Auth.Login.Manage.{
  password_key, end_sessions, rotate, change_own, handle_change_password,
}
use dub_titlerr.Auth.Login.Epochs.{later_epoch, password_rows-ok, find_user-key}

failed-status : (p : Problem) → reply_status (failed p) ≡ 200 → ⊥
unfolding reply_status
failed-status p h = ground (arith, h)

AreSound-put :
    (us : List User) (name : Text) (old v : User)
    → AreSound us
    → find_user us name ≡ some old
    → v.name ≡ old.name
    → AreSound (put account_key v us)
unfolding find_user
AreSound-put us name old v s f e =
    let valid =
      (AllOf-find account_key (λ u. is_username u.name ≡ true) (lower name) us old f s.0).0 in
    (
      AllOf-put account_key (λ u. is_username u.name ≡ true) v us (rw e valid) s.0,
      DistinctKeys-put account_key v us s.1,
    )

find_user_own :
    (us : List User) (name : Text) (u : User)
    → find_user us name ≡ some u
    → find_user us u.name ≡ some u
unfolding find_user account_key
find_user_own us name u f = ap (λ k. find account_key k us) (find_user-key us name u f) ∙ f

abbrev pub server_of : List User → Store → List Failures → Server
server_of us store seen = record { users = rows us; store = store; seen = seen }

refused_here : reply_status wrong_current ≡ 200 → ⊥
unfolding reply_status
refused_here r = ground (arith, r)

own_here : reply_status own_account ≡ 200 → ⊥
unfolding reply_status
own_here r = ground (arith, r)

throttled_here : (wait : ℕ) → reply_status (throttled wait) ≡ 200 → ⊥
unfolding reply_status
throttled_here wait r = ground (arith, r)

module _ (h : Host) (sid : Text) (headers : Headers) (p : Principal) (new : Field Text)
    (us : List User) (old : User) (sound : AreSound us) (here : find_user us p.name ≡ some old)
    (id : Text) (info : Info) (same : account_key old ≡ lower info.name)
    (past : info.epoch ≤ old.session_epoch) where
  rows-of_session :
      (a : Answer (List User × User))
      → password_rows h.hashed h.users_disk h.now old.name new (rows us) ≡ a
      → (key : Text) (s : Server)
      → reply_status (rotate h sid headers p key s (commit (rows us) a)).1 ≡ 200
      → of_session (rotate h sid headers p key s (commit (rows us) a)).0.users id (some info) ≡ none
  unfolding end_sessions account_key
  rows-of_session (refused q) e key s r = absurd (failed-status q r)
  rows-of_session (ok b) e key s r =
      let w =
        password_rows-ok h.hashed h.users_disk h.now old.name new us old b sound
          (find_user_own us p.name old here) e in
      let v = updated h.hashed h.now absent (given w.0) old in
      rw (w.1) (
        later_epoch us v id info (AreSound-put us p.name old v sound here refl) same
          (omega (arith, past)))

  module _ (current : Field Text) (store : Store) (seen : List Failures) where
    abbrev server : Server
    server = server_of us store seen

    change_own-of_session :
        reply_status (change_own h sid headers p current new server).1 ≡ 200
        → of_session (change_own h sid headers p current new server).0.users id (some info) ≡ none
    unfolding set_password
    change_own-of_session r = elim (Bool-cases (h.verify (text_of current) old.hash)) [
      | inl e ↦
          rw (change_own, read_users-AreSound us sound, here, e)
            (rows-of_session (password_rows h.hashed h.users_disk h.now old.name new (rows us)) refl
              (password_key p.name) server
              (rw (change_own, read_users-AreSound us sound, here, e) at r))
      | inr e ↦ absurd (refused_here (rw (change_own, read_users-AreSound us sound, here, e) at r))
    ]

    handled-of_session :
        reply_status (handle_change_password h sid headers (some p) current new server).1 ≡ 200
        → of_session
            (handle_change_password h sid headers (some p) current new server).0.users
            id
            (some info)
          ≡ none
    unfolding handle_change_password
    handled-of_session r = elim (Bool-cases (is_session p.kind)) [
      | inl e ↦ elim (Bool-cases (retry_after h.ticks (password_key p.name) seen == 0)) [
        | inl f ↦ rw (e, f) (change_own-of_session (rw (e, f) at r))
        | inr f ↦ absurd (throttled_here _ (rw (e, f) at r))
      ]
      | inr e ↦ absurd (own_here (rw e at r))
    ]

-- Once a change of the own password is answered with 200, the sessions that the account had are none
-- any more, whether or not a file of sessions could be written: from a sound accounts file in which
-- the account of the principal stands, a session that the store still gives out for the name of the
-- account, in whatever case, with an epoch not past the one of the account, has no principal.
pub handle_change_password-of_session :
    (h : Host) (sid id : Text) (headers : Headers) (p : Principal) (current new : Field Text)
    (us : List User) (old : User) (store : Store) (seen : List Failures) (info : Info)
    → AreSound us
    → find_user us p.name ≡ some old
    → account_key old ≡ lower info.name
    → info.epoch ≤ old.session_epoch
    → reply_status
        (handle_change_password h sid headers (some p) current new (server_of us store seen)).1
      ≡ 200
    → of_session
        (handle_change_password h sid headers
          (some p)
          current
          new
          (server_of us store seen)).0.users
        id
        (some info)
      ≡ none
handle_change_password-of_session h sid id headers p current new us old store seen info s f k e r =
    handled-of_session h sid headers p new us old s f id info k e current store seen r
