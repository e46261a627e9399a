-- ===== src/Auth/Routes/Safe.antt =====
-- review_auth.py: what the decision on a request promises.
use dub_titlerr.Prelude.{
  ℕ, ◌∷◌, ◌≡◌, ◌≢◌, refl, sym, ap, ◌∙◌, Bool, true, false, not, ◌&&◌, Option, none, some, List, [],
  ◌==◌, arith, Bool-cases, inl, inr,
}
use dub_titlerr.Text.{Text, codes, one_of}
use dub_titlerr.Auth.{Role, admin, user, same_role, Answer, ok, refused, Disk, User, UsersFile}
use dub_titlerr.Auth.Accounts.{read_users, find_user}
use dub_titlerr.Auth.Headers.{Headers, header, cookie, is_read_only, csrf_refusal}
use dub_titlerr.Auth.Key.{key_matches, is_empty_text}
use dub_titlerr.Auth.Sessions.Use.{Info, lookup}
use dub_titlerr.Auth.Routes.Table.{Access, for_public, for_user, for_admin, Route, required_role}
use dub_titlerr.Auth.Routes.{
  Kind, by_key, by_alias, by_session, unguarded, Principal, acts_as, Site, access_of, page_paths,
  of_session, principal_of, session_principal, keyed, by_token, or_else, key_or_session,
  authenticate, decide_for, decide_known, decide, is_session, needs_admin, bare_path,
}

-- An account that is there, with the role that is acted in and the epoch of the session.
abbrev pub IsAccountOf : UsersFile → Info → Principal → Type 0
IsAccountOf users info p =
    (us : List User) × (u : User) × (read_users users ≡ ok us)
    × (find_user us info.name ≡ some u)
    × (info.epoch == u.session_epoch ≡ true)
    × (p.role ≡ u.role)
    × (p.name ≡ u.name)

principal_of-IsAccountOf :
    (users : UsersFile) (sid : Text) (info : Info) (p : Principal) (us : List User)
    (o : Option User)
    → read_users users ≡ ok us
    → find_user us info.name ≡ o
    → principal_of sid info o ≡ some p
    → (p.kind ≡ by_session) × IsAccountOf users info p
principal_of-IsAccountOf users sid info p us none r f h = ground (arith, h)
principal_of-IsAccountOf users sid info p us (some u) r f h =
    elim (Bool-cases (info.epoch == u.session_epoch)) [
      | inl e ↦
          let q = rw e at h in
          (ground (arith, q), (us, u, r, f, e, ground (arith, q), ground (arith, q)))
      | inr e ↦ ground (arith, rw e at h)
    ]

answer_of-IsAccountOf :
    (users : UsersFile) (sid : Text) (info : Info) (p : Principal) (a : Answer (List User))
    → read_users users ≡ a
    → ◌≡◌ {A = Option Principal}
        (elim a [ ok us ↦ principal_of sid info (find_user us info.name) | refused w ↦ none ])
        (some p)
    → (p.kind ≡ by_session) × IsAccountOf users info p
answer_of-IsAccountOf users sid info p (ok us) r h =
    principal_of-IsAccountOf users sid info p us (find_user us info.name) r refl h
answer_of-IsAccountOf users sid info p (refused w) r h = ground (arith, h)

pub of_session-IsAccountOf :
    (users : UsersFile) (sid : Text) (info : Info) (p : Principal)
    → of_session users sid (some info) ≡ some p
    → (p.kind ≡ by_session) × IsAccountOf users info p
unfolding of_session
of_session-IsAccountOf users sid info p h =
    answer_of-IsAccountOf users sid info p (read_users users) refl h

admin_role : (r : Role) → same_role r admin ≡ true → r ≡ admin
admin_role admin h = refl
admin_role user h = ground (arith, h)

module _ (digest : Text → Text) (hostname : Text → Option Text) (legacy : Text) (disk : Disk)
    (now : ℕ) (headers : Headers) (method path : Text) (s : Site) where
  -- What makes a request one of a principal: the key in its header; on a classic page, the key in
  -- its old cookie; or a session of an account.
  abbrev pub IsShown : Principal → Type 0
  IsShown p = elim p.kind [
    | by_key ↦ ((key_matches legacy (header headers (codes "X-Api-Key")) s.keys).1 ≡ true)
    | by_alias ↦
        (is_read_only method ≡ true)
        × (one_of page_paths path ≡ true)
        × ((key_matches legacy (cookie headers (codes "dubtitlerr_token")) s.keys).1 ≡ true)
    | by_session ↦
        (info : Info) × ((lookup disk now (digest (cookie headers (codes "dubtitlerr_session")))
            s.store).1
          ≡ some info)
        × IsAccountOf s.users info p
    | unguarded ↦ ⊥
  ]

  session-IsShown :
      (o : Option Info) (p : Principal)
      → (lookup disk now (digest (cookie headers (codes "dubtitlerr_session"))) s.store).1 ≡ o
      → of_session s.users (cookie headers (codes "dubtitlerr_session")) o ≡ some p
      → IsShown p
  unfolding of_session
  session-IsShown none p e h = ground (arith, h)
  session-IsShown (some info) p e h =
      let a =
        of_session-IsAccountOf s.users (cookie headers (codes "dubtitlerr_session")) info p h in
      rw (a.0) (info, e, a.1)

  keyed-IsShown :
      (presented : Text) (kind : Kind) (p : Principal)
      → (keyed digest hostname legacy disk now presented kind s).1 ≡ some p
      → (p.kind ≡ kind) × ((key_matches legacy presented s.keys).1 ≡ true)
  keyed-IsShown presented kind p h = ground (arith, h)

  session_principal-IsShown :
      (p : Principal)
      → (session_principal digest hostname legacy disk now headers s).1 ≡ some p
      → IsShown p
  unfolding session_principal
  session_principal-IsShown p h =
      elim (Bool-cases (is_empty_text (cookie headers (codes "dubtitlerr_session")))) [
        | inl e ↦ ground (arith, rw e at h)
        | inr e ↦ session-IsShown _ p refl (rw e at h)
      ]

  abbrev alias_test : Bool
  alias_test =
      is_read_only method
      && one_of page_paths path
      && not (is_empty_text (cookie headers (codes "dubtitlerr_token")))

  by_token-IsShown :
      (p : Principal) (t : Site)
      → t.keys ≡ s.keys
      → (by_token digest hostname legacy disk now headers method path t).1 ≡ some p
      → IsShown p
  by_token-IsShown p t k h = elim (Bool-cases alias_test) [
    | inl e ↦
        let q = rw (e, k) at h in
        let a = keyed-IsShown (cookie headers (codes "dubtitlerr_token")) by_alias p q in
        rw (a.0) (ground (arith, e), ground (arith, e), a.1)
    | inr e ↦ ground (arith, rw e at h)
  ]

  keys-session_principal :
      (session_principal digest hostname legacy disk now headers s).0.keys ≡ s.keys
  unfolding session_principal
  keys-session_principal = ground arith

  or_else-IsShown :
      (a : Site × Option Principal) (p : Principal)
      → session_principal digest hostname legacy disk now headers s ≡ a
      → (or_else digest hostname legacy disk now headers method path a).1 ≡ some p
      → IsShown p
  or_else-IsShown (t, none) p e h =
      by_token-IsShown p t (sym (ap (λ a. a.0.keys) e) ∙ keys-session_principal) h
  or_else-IsShown (t, some q) p e h = session_principal-IsShown p (ap (λ a. a.1) e ∙ h)

  key_or_session-IsShown :
      (presented : Text) (p : Principal)
      → header headers (codes "X-Api-Key") ≡ presented
      → (key_or_session digest hostname legacy disk now headers method path s presented).1 ≡ some p
      → IsShown p
  key_or_session-IsShown [] p e h =
      or_else-IsShown (session_principal digest hostname legacy disk now headers s) p refl h
  key_or_session-IsShown (c ∷ t) p e h =
      let a = keyed-IsShown (c ∷ t) by_key p h in rw (a.0) (rw e (a.1))

  authenticate-IsShown :
      (p : Principal)
      → (authenticate digest hostname legacy disk now headers method path s).1 ≡ some p
      → IsShown p
  unfolding authenticate
  authenticate-IsShown p h = key_or_session-IsShown (header headers (codes "X-Api-Key")) p refl h

  -- What it takes to be let in where not everyone is.
  decide_for-allowed :
      (required role : Access) (known : Bool) (t : Site) (o : Option Principal)
      → (decide_for digest hostname legacy disk now method headers required known t o).verdict
        ≡ acts_as role
      → (p : Principal) × (o ≡ some p)
        × (role ≡ access_of p.role)
        × (required ≡ for_admin → p.role ≡ admin)
        × (p.kind ≡ by_session → csrf_refusal hostname method headers ≡ false)
  decide_for-allowed required role known t none h = absurd (ground (arith, h))
  decide_for-allowed required role known t (some p) h =
      elim (Bool-cases (is_session p.kind && csrf_refusal hostname method headers)) [
        | inl e ↦ absurd (ground (arith, rw e at h))
        | inr e ↦
            let k = rw e at h in
            elim (Bool-cases (needs_admin required && not (same_role p.role admin))) [
              | inl f ↦ absurd (ground (arith, rw f at k))
              | inr f ↦ (
                p,
                refl,
                ground (arith, rw f at k),
                λ r. admin_role p.role (ground (arith, f, r)),
                λ r. ground (arith, e, r),
              )
            ]
      ]

  -- On a route that is not public.
  decide_known-allowed :
      (required role : Access) (known : Bool)
      → required ≢ for_public
      → (decide_known digest hostname legacy disk now method path headers required known
          s).1.verdict
        ≡ acts_as role
      → (p : Principal) × IsShown p
        × (role ≡ access_of p.role)
        × (required ≡ for_admin → p.role ≡ admin)
        × (p.kind ≡ by_session → csrf_refusal hostname method headers ≡ false)
  decide_known-allowed for_public role known n h = absurd (n refl)
  decide_known-allowed for_user role known n h =
      let asked = authenticate digest hostname legacy disk now headers method path s in
      let a = decide_for-allowed for_user role known asked.0 asked.1 h in
      (a.0, authenticate-IsShown a.0 a.1, a.2, a.3, a.4)
  decide_known-allowed for_admin role known n h =
      let asked = authenticate digest hostname legacy disk now headers method path s in
      let a = decide_for-allowed for_admin role known asked.0 asked.1 h in
      (a.0, authenticate-IsShown a.0 a.1, a.2, a.3, a.4)

-- With authentication on, whoever is let in on a route that is not public is a principal that shows
-- a valid key, or a session of an account that is there with the epoch of the session; acts in the
-- role of the principal; is an admin on a route that needs one; and with a session, does not change
-- anything from a foreign page.
pub decide-allowed :
    (digest : Text → Text) (hostname : Text → Option Text) (legacy : Text) (disk : Disk) (now : ℕ)
    (table : List Route) (method path : Text) (headers : Headers) (s : Site) (role : Access)
    → (required_role method (bare_path path) table).0 ≢ for_public
    → (decide digest hostname legacy disk now table true method path headers s).1.verdict
      ≡ acts_as role
    → (p : Principal) × IsShown digest hostname legacy disk now headers method (bare_path path) s p
      × (role ≡ access_of p.role)
      × ((required_role method (bare_path path) table).0 ≡ for_admin → p.role ≡ admin)
      × (p.kind ≡ by_session → csrf_refusal hostname method headers ≡ false)
unfolding decide
decide-allowed digest hostname legacy disk now table method path headers s role n h =
    decide_known-allowed digest hostname legacy disk now headers method (bare_path path) s
      (required_role method (bare_path path) table).0 role
      (required_role method (bare_path path) table).1 n h
