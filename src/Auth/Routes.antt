-- ===== src/Auth/Routes.antt =====
-- review_auth.py: who may use which route: the role table, who is asking, and the decision.
pub mod Base
pub mod Table
pub mod Safe
use dub_titlerr.Prelude.{
  ℕ, ◌∷◌, ◌++◌, Bool, true, false, not, ◌&&◌, ◌||◌, Option, none, some, List, [], length, ltb, ◌==◌,
  if◌then◌else◌,
}
use dub_titlerr.Text.{Text, codes, same_text, one_of, starts_with}
use dub_titlerr.Text.Cut.{before}
use dub_titlerr.Auth.{Role, admin, user, same_role, Answer, ok, refused, Disk, User, UsersFile}
use dub_titlerr.Auth.Accounts.{read_users, find_user, setup_required}
use dub_titlerr.Auth.Headers.{Headers, header, cookie, is_read_only, csrf_refusal}
use dub_titlerr.Auth.Key.{Keys, key_matches, is_empty_text}
use dub_titlerr.Auth.Sessions.{Store}
use dub_titlerr.Auth.Sessions.Use.{Info, lookup}
use dub_titlerr.Auth.Routes.Table.{Access, for_public, for_user, for_admin, Route, required_role}

pub data Kind : Type 0 where
  by_key by_alias by_session unguarded : Kind

pub record Principal : Type 0 where
  pub kind : Kind
  pub name : Text
  pub role : Role
  pub sid : Text
  pub refresh : Bool
  pub remember : Bool

-- The messages of a refusal; each has its status.
pub data Refusal : Type 0 where
  login_required setup_is_required admin_only cross_site : Refusal

abbrev pub refusal_status : Refusal → ℕ
refusal_status login_required = 401
refusal_status setup_is_required = 409
refusal_status admin_only = 403
refusal_status cross_site = 403

-- What is decided: the role that is acted in, or a refusal.
pub data Verdict : Type 0 where
  acts_as : Access → Verdict
  denied : Refusal → Verdict

pub record Decision : Type 0 where
  pub verdict : Verdict
  pub required : Access
  pub known : Bool
  pub principal : Option Principal

-- What the decision reads and may change.
pub record Site : Type 0 where
  pub users : UsersFile
  pub store : Store
  pub keys : Keys

abbrev pub access_of : Role → Access
access_of admin = for_admin
access_of user = for_user

abbrev pub api_key_principal : Kind → Principal
api_key_principal kind = record {
  kind = kind;
  name = codes "api key";
  role = admin;
  sid = [];
  refresh = false;
  remember = false;
}

-- A session counts while its account is there, with the epoch that it began with.
abbrev pub principal_of : Text → Info → Option User → Option Principal
principal_of sid info none = none
principal_of sid info (some u) =
    if info.epoch == u.session_epoch
    then some (record {
      kind = by_session;
      name = u.name;
      role = u.role;
      sid = sid;
      refresh = info.refresh;
      remember = info.remember;
    })
    else none

unfoldable pub of_session : UsersFile → Text → Option Info → Option Principal
unfolding read_users find_user
of_session users sid none = none
of_session users sid (some info) = elim (read_users users) [
  | ok us ↦ principal_of sid info (find_user us info.name)
  | refused p ↦ none
]

abbrev pub page_paths : List Text
page_paths = codes "/" ∷ codes "/index.html" ∷ codes "/shared" ∷ []

abbrev pub unasked_prefixes : List Text
unasked_prefixes = codes "/healthz" ∷ codes "/review" ∷ codes "/api/webhook/" ∷ []

unfoldable pub starts_with_any : List Text → Text → Bool
unfolding starts_with
starts_with_any [] path = false
starts_with_any (p ∷ ps) path = starts_with p path || starts_with_any ps path

abbrev pub refuse : Refusal → Access → Bool → Decision
refuse why required known = record {
  verdict = denied why;
  required = required;
  known = known;
  principal = none;
}

abbrev pub allow : Access → Access → Bool → Option Principal → Decision
allow role required known p = record {
  verdict = acts_as role;
  required = required;
  known = known;
  principal = p;
}

abbrev open_principal : Principal
open_principal = record {
  kind = unguarded;
  name = [];
  role = admin;
  sid = [];
  refresh = false;
  remember = false;
}

abbrev pub is_public : Access → Bool
is_public for_public = true
is_public _ = false

abbrev pub needs_admin : Access → Bool
needs_admin for_admin = true
needs_admin _ = false

abbrev pub is_session : Kind → Bool
is_session by_session = true
is_session _ = false

abbrev pub bare_path : Text → Text
bare_path path = before b'#' (before b'?' path)

-- `digest` is the SHA-256 of an id, `legacy` the review token of older versions, `hostname` as in
-- Headers; `disk` and `now` are what a flush of the sessions meets.
module _ (digest : Text → Text) (hostname : Text → Option Text) (legacy : Text) (disk : Disk)
    (now : ℕ) where
  unfoldable pub session_principal : Headers → Site → Site × Option Principal
  unfolding cookie lookup of_session
  session_principal headers s =
      let sid = cookie headers (codes "dubtitlerr_session") in
      let found = lookup disk now (digest sid) s.store in
      if is_empty_text sid
      then (s, none)
      else (record s { store = found.0 }, of_session s.users sid found.1)

  abbrev pub keyed : Text → Kind → Site → Site × Option Principal
  keyed presented kind s =
      let matched = key_matches legacy presented s.keys in
      (record s { keys = matched.0 }, if matched.1 then some (api_key_principal kind) else none)

  -- The token cookie of older versions, on the classic pages.
  abbrev pub by_token : Headers → Text → Text → Site → Site × Option Principal
  by_token headers method path s =
      let token = cookie headers (codes "dubtitlerr_token") in
      if is_read_only method && one_of page_paths path && not (is_empty_text token)
      then keyed token by_alias s
      else (s, none)

  abbrev pub or_else : Headers → Text → Text → Site × Option Principal → Site × Option Principal
  or_else headers method path (s, none) = by_token headers method path s
  or_else headers method path (s, some p) = (s, some p)

  -- A key in the header decides, right or wrong.
  abbrev pub key_or_session : Headers → Text → Text → Site → Text → Site × Option Principal
  key_or_session headers method path s [] =
      or_else headers method path (session_principal headers s)
  key_or_session headers method path s (c ∷ t) = keyed (c ∷ t) by_key s

  unfoldable pub authenticate : Headers → Text → Text → Site → Site × Option Principal
  unfolding header cookie session_principal key_matches one_of
  authenticate headers method path s =
      key_or_session headers method path s (header headers (codes "X-Api-Key"))

  -- _holds_valid_key
  abbrev pub holds_valid_key : Headers → Site → Site × Bool
  holds_valid_key headers s =
      let presented = header headers (codes "X-Api-Key") in
      let matched = key_matches legacy presented s.keys in
      if is_empty_text presented then (s, false) else (record s { keys = matched.0 }, matched.1)

  -- With REVIEW_AUTH=off everyone is an admin, of this origin.
  abbrev pub decide_open : Text → Headers → Access → Bool → Site → Site × Decision
  decide_open method headers required known s =
      let held = holds_valid_key headers s in
      if not (is_public required) && csrf_refusal hostname method headers
      then (
        held.0,
        if held.1
            then allow for_admin required known (some open_principal)
            else refuse cross_site required known,
      )
      else (s, allow for_admin required known (some open_principal))

  -- What follows from who is asking, on a route that is not public.
  abbrev pub decide_for : Text → Headers → Access → Bool → Site → Option Principal → Decision
  decide_for method headers required known s none =
      if not (is_empty_text (header headers (codes "X-Api-Key")))
      then refuse login_required required known
      else if setup_required s.users
      then refuse setup_is_required required known
      else refuse login_required required known
  decide_for method headers required known s (some p) =
      if is_session p.kind && csrf_refusal hostname method headers
      then refuse cross_site required known
      else if needs_admin required && not (same_role p.role admin)
      then refuse admin_only required known
      else allow (access_of p.role) required known (some p)

  abbrev pub decide_public : Bool → Option Principal → Decision
  decide_public known none = allow for_public for_public known none
  decide_public known (some p) = allow (access_of p.role) for_public known (some p)

  abbrev pub decide_known : Text → Text → Headers → Access → Bool → Site → Site × Decision
  decide_known method path headers for_public known s =
      let asked = authenticate headers method path s in
      if starts_with_any unasked_prefixes path
      then (s, allow for_public for_public known none)
      else (asked.0, decide_public known asked.1)
  decide_known method path headers required known s =
      let asked = authenticate headers method path s in
      (asked.0, decide_for method headers required known asked.0 asked.1)

  -- `auth_on` is false for REVIEW_AUTH=off.
  unfoldable pub decide : List Route → Bool → Text → Text → Headers → Site → Site × Decision
  unfolding required_role authenticate csrf_refusal key_matches header before starts_with_any
  decide table auth_on method path headers s =
      let need = required_role method (bare_path path) table in
      if auth_on
      then decide_known method (bare_path path) headers need.0 need.1 s
      else decide_open method headers need.0 need.1 s

  -- role_for
  unfoldable pub role_for :
      List Route → Bool → Text → Text → Headers → Site → Option Access × Option ℕ
  unfolding decide
  role_for table auth_on method path headers s =
      elim (decide table auth_on method path headers s).1.verdict [
        | acts_as role ↦ (some role, none)
        | denied why ↦ (none, some (refusal_status why))
      ]
