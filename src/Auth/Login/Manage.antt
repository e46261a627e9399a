-- ===== src/Auth/Login/Manage.antt =====
-- review_auth.py: the handlers of the accounts and of the change of one's own password.
use dub_titlerr.Prelude.{
  ◌++◌, Bool, false, not, ◌||◌, Option, none, some, drop, length, ◌==◌, if◌then◌else◌,
}
use dub_titlerr.Text.{Text, codes, same_text}
use dub_titlerr.Text.Lower.{lower}
use dub_titlerr.Auth.{
  Role, user, invalid_name, Answer, ok, refused, Field, absent, given, User, UsersFile, is_username,
}
use dub_titlerr.Auth.Accounts.{
  read_users, find_user, create_user, update_user, delete_user, set_password, text_of,
}
use dub_titlerr.Auth.Headers.{Headers}
use dub_titlerr.Auth.Sessions.{create}
use dub_titlerr.Auth.Sessions.Use.{revoke_user}
use dub_titlerr.Auth.Throttle.{login_limits, retry_after, failure, success}
use dub_titlerr.Auth.Routes.{Principal, is_session}
use dub_titlerr.Auth.Login.Replies.{
  Reply, failed, throttled, wrong_current, login_first, own_account, off, no_route, no_method,
  account, created, accounts, done, changed_here, changed_elsewhere, secure_cookies,
}
use dub_titlerr.Auth.Login.{Server, Host}

-- revoke_user, which a change of an account ends with
unfoldable pub end_sessions : Host → Text → Server → Server
unfolding revoke_user
end_sessions h name s = record s { store = (revoke_user h.sessions_disk h.now name none s.store).0 }

abbrev pub after_update : Host → Server → UsersFile × Answer (User × Bool) → Server × Reply
after_update h s (users, refused p) = (record s { users = users }, failed p)
after_update h s (users, ok (u, ended)) =
    let ended_there = end_sessions h u.name (record s { users = users }) in
    (if ended then ended_there else record s { users = users }, account u.name u.role)

abbrev pub after_delete : Host → Server → UsersFile × Answer User → Server × Reply
after_delete h s (users, refused p) = (record s { users = users }, failed p)
after_delete h s (users, ok u) = (end_sessions h u.name (record s { users = users }), done)

-- body.get("role", "user"): none where the body has no role
abbrev role_or_user : Option (Field Role) → Field Role
role_or_user none = given user
role_or_user (some f) = f

abbrev as_field : Option (Field Role) → Field Role
as_field none = absent
as_field (some f) = f

abbrev after_create : Server → UsersFile × Answer (Text × Role) → Server × Reply
after_create s (users, ok row) = (record s { users = users }, created row.0 row.1)
after_create s (users, refused p) = (record s { users = users }, failed p)

abbrev one_account : Host → Text → Text → Option (Field Role) → Field Text → Server → Server × Reply
one_account h method name role password s =
    let deleted = after_delete h s (delete_user h.users_disk name s.users) in
    let updated =
      after_update h s
        (update_user h.hashed h.users_disk h.now name (as_field role) password s.users) in
    if not (is_username name)
    then (s, failed invalid_name)
    else if same_text method (codes "DELETE")
    then deleted
    else updated

-- GET and POST /api/users, PUT and DELETE /api/users/<name>
unfoldable pub handle_users :
    Host
    → Bool
    → Text
    → Text
    → Field Text
    → Option (Field Role)
    → Field Text
    → Server
    → Server × Reply
unfolding read_users create_user update_user delete_user end_sessions same_text is_username
handle_users h auth_on method bare name role password s =
    let made =
      after_create s
        (create_user h.hashed h.users_disk h.now false name (role_or_user role) password s.users) in
    let on_one =
      one_account h method (h.unquote (drop (length (codes "/api/users/")) bare)) role password s in
    if not auth_on
    then (s, off)
    else if same_text bare (codes "/api/users")
    then if same_text method (codes "GET")
      then (s, elim (read_users s.users) [ ok us ↦ accounts us | refused p ↦ failed p ])
      else if same_text method (codes "POST")
      then made
      else (s, no_method)
    else if same_text method (codes "PUT") || same_text method (codes "DELETE")
    then on_one
    else (s, no_route)

abbrev pub password_key : Text → Text
password_key name = codes "pw:" ++ lower name

-- The rotation of the session after a change of the password.
abbrev pub rotate :
    Host → Text → Headers → Principal → Text → Server → UsersFile × Answer User → Server × Reply
rotate h sid headers p key s (users, refused q) = (record s { users = users }, failed q)
rotate h sid headers p key s (users, ok u) =
    let ended = end_sessions h u.name (record s { users = users }) in
    let made =
      create h.sessions_disk h.now (h.digest sid) u.name p.remember u.session_epoch ended.store in
    (
      record ended { store = made.0; seen = success key s.seen },
      elim made.1 [
        | ok id ↦ changed_here sid p.remember (secure_cookies h.always_secure headers)
        | refused q ↦ changed_elsewhere (secure_cookies h.always_secure headers)
      ],
    )

abbrev pub change_own :
    Host → Text → Headers → Principal → Field Text → Field Text → Server → Server × Reply
change_own h sid headers p current new s =
    let key = password_key p.name in
    elim (read_users s.users) [
      | refused q ↦ (s, failed q)
      | ok us ↦ elim (find_user us p.name) [
        | none ↦ (s, login_first)
        | some u ↦
            if h.verify (text_of current) u.hash
            then rotate h sid headers p key s
                (set_password h.hashed h.users_disk h.now u.name new s.users)
            else (record s { seen = failure login_limits h.ticks key s.seen }, wrong_current)
      ]
    ]

-- PUT /api/me/password
unfoldable pub handle_change_password :
    Host → Text → Headers → Option Principal → Field Text → Field Text → Server → Server × Reply
unfolding retry_after failure success read_users find_user set_password end_sessions create lower
    secure_cookies
handle_change_password h sid headers none current new s = (s, own_account)
handle_change_password h sid headers (some p) current new s =
    let wait = retry_after h.ticks (password_key p.name) s.seen in
    if not (is_session p.kind)
    then (s, own_account)
    else if wait == 0
    then change_own h sid headers p current new s
    else (s, throttled wait)
