-- ===== src/Tests/Signing.antt =====
-- Accounts, sessions, the API key and the roles of the routes: small inputs.
use dub_titlerr.Prelude.{
  ℕ, ◌+◌, ◌≡◌, ◌≢◌, refl, sym, ◌∙◌, ◌≤◌, ◌<◌, true, false, none, some, List, [], ◌∷◌, ◌++◌, arith,
  AllOf,
}
use dub_titlerr.Text.{Text, codes, is_space, any, same_text}
use dub_titlerr.Text.Lower.{lower}
use dub_titlerr.Text.Table.{find}
use dub_titlerr.Text.Cut.{before}
use dub_titlerr.Auth.{
  admin, user, ok, fine, no_write, User, rows, given, account_key, is_username, is_password,
  is_surrogate,
}
use dub_titlerr.Auth.Accounts.{find_user, create_user, delete_user, admin_count}
use dub_titlerr.Auth.Accounts.Guarded.{IsGuarded}
use dub_titlerr.Auth.Accounts.Steps.{here, next, creates, deletes, Reach-IsGuarded}
use dub_titlerr.Auth.Headers.{Headers, csrf_refusal}
use dub_titlerr.Auth.Key.{
  Keys, key_ok, no_key_file, state_of, key_matches, reset_api_key, init_api_key, api_key,
}
use dub_titlerr.Auth.Key.Kept.{IsFresh, HoldsOther}
use dub_titlerr.Auth.Key.Steps.{key_matches-Reach}
use dub_titlerr.Auth.Key.Steps as KeySteps
use dub_titlerr.Auth.Key.Stored.{api_key-reset}
use dub_titlerr.Auth.Sessions.{rows_of_file, rows_of, Store, no_file, create}
use dub_titlerr.Auth.Sessions.Use.{Info}
use dub_titlerr.Auth.Sessions.Few.{IsCapped, AreFew-nil}
use dub_titlerr.Auth.Sessions.Steps.{Reach-IsCapped}
use dub_titlerr.Auth.Sessions.Steps as SessionSteps
use dub_titlerr.Auth.Throttle.{login_limits, retry_after}
use dub_titlerr.Auth.Throttle.Counted.{failures, AreWithin}
use dub_titlerr.Auth.Throttle.Locked.{retry_after-failures}
use dub_titlerr.Auth.Routes.{
  Site, Principal, by_session, acts_as, denied, decide, bare_path, access_of, of_session,
  login_required,
}
use dub_titlerr.Auth.Routes.Base.{base_routes}
use dub_titlerr.Auth.Routes.Table.{for_public, for_admin, required_role}
use dub_titlerr.Auth.Routes.Safe.{IsShown, decide-allowed}
use dub_titlerr.Auth.Login.{Host}
use dub_titlerr.Auth.Login.Replies.{reply_status}
use dub_titlerr.Auth.Login.Manage.{handle_change_password}
use dub_titlerr.Auth.Login.Rotated.{server_of, handle_change_password-of_session}

-- An admin and a session of hers.
abbrev ann : User
ann = record {
  name = codes "Ann";
  role = admin;
  hash = codes "old secret!";
  pw_changed_at = 0;
  session_epoch = 2;
}

abbrev empty_store : Store
empty_store = record { rows = none; cookie_at = []; flushed = 0; file = no_file }

abbrev no_keys : Keys
no_keys = record { key_file = no_key_file; retired = false; seen_stored = false }

abbrev plain : Text → Text
plain t = t

abbrev signed_in : Store
signed_in = (create fine 5 (codes "abc") (codes "Ann") false 2 empty_store).0

abbrev site : Site
site = record { users = rows (ann ∷ []); store = signed_in; keys = no_keys }

abbrev headers : Headers
headers = some (
    (codes "cookie", codes "x=1; dubtitlerr_session=abc")
    ∷ (codes "X-DubTitlerr-Request", codes "1")
    ∷ [])

ann_is_allowed :
    (decide plain
      (λ t. some t)
      []
      fine
      9
      base_routes
      true
      (codes "POST")
      (codes "/api/users?x")
      headers
      site).1.verdict
    ≡ acts_as for_admin
unfolding decide create
ann_is_allowed = refl

strangers_are_not :
    (decide plain
      (λ t. some t)
      []
      fine
      9
      base_routes
      true
      (codes "GET")
      (codes "/api/shows")
      (some [])
      site).1.verdict
    ≡ denied login_required
unfolding decide create
strangers_are_not = refl

admin_is_not_public : for_admin ≢ for_public
admin_is_not_public h = ground (arith, h)

admin_needed :
    (required_role (codes "POST") (bare_path (codes "/api/users?x")) base_routes).0 ≡ for_admin
unfolding required_role before
admin_needed = refl

users_need_admin :
    (required_role (codes "POST") (bare_path (codes "/api/users?x")) base_routes).0 ≢ for_public
users_need_admin h = admin_is_not_public (sym admin_needed ∙ h)

decide-allowed_example :
    (p : Principal) × IsShown plain
      (λ t. some t)
      []
      fine
      9
      headers
      (codes "POST")
      (bare_path (codes "/api/users?x"))
      site
      p
    × (for_admin ≡ access_of p.role)
    × ((required_role (codes "POST") (bare_path (codes "/api/users?x")) base_routes).0 ≡ for_admin
        → p.role ≡ admin)
    × (p.kind ≡ by_session → csrf_refusal (λ t. some t) (codes "POST") headers ≡ false)
decide-allowed_example =
    decide-allowed plain (λ t. some t) [] fine 9 base_routes (codes "POST") (codes "/api/users?x")
      headers site for_admin users_need_admin ann_is_allowed

ann-IsGuarded : IsGuarded (rows (ann ∷ []))
unfolding is_username admin_count
ann-IsGuarded = (((refl, tt), (tt, tt)), omega arith)

Reach-IsGuarded_example :
    IsGuarded
      (delete_user fine
        (codes "Ann")
        (create_user plain fine 7 false
          (given (codes "Bob"))
          (given user)
          (given (codes "long enough"))
          (rows (ann ∷ []))).0).0
Reach-IsGuarded_example =
    Reach-IsGuarded
      (next
        (next here (
          creates plain fine 7 false (given (codes "Bob")) (given user)
            (given (codes "long enough"))))
        (deletes fine (codes "Ann")))
      ann-IsGuarded

empty_store-IsCapped : IsCapped empty_store
unfolding rows_of_file rows_of
empty_store-IsCapped = (AreFew-nil, AreFew-nil)

Reach-IsCapped_example : IsCapped (SessionSteps.restarted signed_in)
Reach-IsCapped_example =
    Reach-IsCapped
      (SessionSteps.next
        (SessionSteps.next SessionSteps.here
          (SessionSteps.creates fine 5 (codes "abc") (codes "Ann") false 2))
        SessionSteps.restarts)
      empty_store-IsCapped

reset_answers : (reset_api_key (codes "k1") fine true no_keys).1 ≡ ok (codes "k1")
unfolding reset_api_key
reset_answers = refl

reset_is_accepted :
    (key_matches (codes "old") (codes "k1") (reset_api_key (codes "k1") fine true no_keys).0).1
    ≡ true
unfolding key_matches reset_api_key
reset_is_accepted = refl

no_space_in_key : AllOf (λ d. is_space d ≡ false) (codes "k1")
unfolding is_space
no_space_in_key = (refl, (refl, tt))

-- The key file is lost, and the program starts again with the old review token: it makes a fresh key.
abbrev started_again : Keys
started_again =
    init_api_key (codes "old") (codes "k2") fine true no_key_file
      (record (reset_api_key (codes "k1") fine true no_keys).0 {
        key_file = no_key_file;
        seen_stored = false;
      })

fresh_key_is_accepted : (key_matches (codes "old") (codes "k2") started_again).1 ≡ true
unfolding key_matches reset_api_key init_api_key
fresh_key_is_accepted = refl

first-IsFresh : IsFresh (codes "old") (codes "k1")
first-IsFresh = (no_space_in_key, λ e. ground (arith, e))

second-IsFresh : IsFresh (codes "old") (codes "k2")
unfolding is_space
second-IsFresh = ((refl, (refl, tt)), λ e. ground (arith, e))

no_file-HoldsOther : HoldsOther (codes "old") no_key_file
unfolding state_of
no_file-HoldsOther e = ground (arith, e)

key_matches-Reach_example :
    (state_of started_again.key_file ≡ key_ok (codes "k2")) × (codes "k2" ≢ codes "old")
key_matches-Reach_example =
    key_matches-Reach (codes "old") (codes "old") (codes "k1") (codes "k1") (codes "k2") fine true
      no_keys first-IsFresh reset_answers
      (KeySteps.next (KeySteps.next KeySteps.here (KeySteps.changes no_key_file no_file-HoldsOther))
        (KeySteps.starts (codes "old") (codes "k2") fine true no_key_file second-IsFresh
          no_file-HoldsOther))
      fresh_key_is_accepted

no_surrogate_in_key : any is_surrogate (codes "k1") ≡ false
unfolding any
no_surrogate_in_key = refl

api_key-reset_example :
    ((api_key (codes "old") (reset_api_key (codes "k1") fine true no_keys).0).1 ≡ codes "k1")
    × ((key_matches (codes "old") (codes "k1") (reset_api_key (codes "k1") fine true no_keys).0).1
        ≡ true)
api_key-reset_example =
    api_key-reset (codes "old") b'k' (codes "1") (codes "k1") fine true no_keys no_space_in_key
      no_surrogate_in_key reset_answers

-- Five failures of one address, one of another between them.
abbrev between : List (ℕ × Text)
between = (2, codes "a") ∷ (3, codes "b") ∷ (4, codes "a") ∷ (5, codes "a") ∷ []

within_window : AreWithin login_limits 1 (between ++ (6, codes "a") ∷ [])
within_window = (omega arith, (omega arith, (omega arith, (omega arith, (omega arith, tt)))))

retry_after-failures_example :
    (7 < 6 + login_limits.lockout
      → 0
        < retry_after 7
            (codes "a")
            (failures login_limits ((1, codes "a") ∷ (between ++ (6, codes "a") ∷ [])) []))
    × (6 + login_limits.lockout ≤ 7
        → retry_after 7
            (codes "a")
            (failures login_limits ((1, codes "a") ∷ (between ++ (6, codes "a") ∷ [])) [])
          ≡ 0)
unfolding find same_text
retry_after-failures_example =
    retry_after-failures login_limits (codes "a") 1 6 7 between [] refl (omega arith) within_window
      refl

abbrev host : Host
host = record {
  hashed = plain;
  verify = λ t u. same_text t u;
  digest = plain;
  unquote = plain;
  users_disk = fine;
  sessions_disk = no_write;
  now = 9;
  ticks = 9;
  always_secure = false;
}

abbrev ann_here : Principal
ann_here = record {
  kind = by_session;
  name = codes "Ann";
  role = admin;
  sid = codes "abc";
  refresh = false;
  remember = false;
}

abbrev old_session : Info
old_session = record { name = codes "ANN"; remember = false; epoch = 2; refresh = false }

ann_is_found : find_user (ann ∷ []) (codes "Ann") ≡ some ann
unfolding find_user account_key
ann_is_found = refl

ann_in_capitals : account_key ann ≡ lower (codes "ANN")
unfolding account_key
ann_in_capitals = refl

ann_changes :
    reply_status
      (handle_change_password host
        (codes "new")
        headers
        (some ann_here)
        (given (codes "old secret!"))
        (given (codes "new secret!"))
        (server_of (ann ∷ []) signed_in [])).1
    ≡ 200
unfolding handle_change_password reply_status create is_password
ann_changes = refl

handle_change_password-of_session_example :
    of_session
      (handle_change_password host
        (codes "new")
        headers
        (some ann_here)
        (given (codes "old secret!"))
        (given (codes "new secret!"))
        (server_of (ann ∷ []) signed_in [])).0.users
      (codes "abc")
      (some old_session)
    ≡ none
handle_change_password-of_session_example =
    handle_change_password-of_session host (codes "new") (codes "abc") headers ann_here
      (given (codes "old secret!")) (given (codes "new secret!")) (ann ∷ []) ann signed_in []
      old_session ann-IsGuarded.0 ann_is_found ann_in_capitals (omega arith) ann_changes
