-- ===== src/Auth/Sessions/Use.antt =====
-- review_auth.py: `SessionStore`, the use and the revocation of sessions.
use dub_titlerr.Prelude.{
  ℕ, ◌+◌, Bool, false, not, ◌&&◌, Option, none, some, List, [], ◌∷◌, length, leb, ◌==◌,
  if◌then◌else◌,
}
use dub_titlerr.Text.{Text, same_text}
use dub_titlerr.Text.Lower.{lower}
use dub_titlerr.Text.Table.{find, put}
use dub_titlerr.Auth.{Disk}
use dub_titlerr.Auth.Sessions.{
  Row, Store, cookie_key, cookie_refresh_every, flush_every, forget, held, is_live, load, persist,
  remove_cookies, remove_rows, row_key, set_rows,
}

pub record Info : Type 0 where
  pub name : Text
  pub remember : Bool
  pub epoch : ℕ
  pub refresh : Bool

abbrev pub or_time : Option (Text × ℕ) → ℕ → ℕ
or_time none t = t
or_time (some (k, t)) _ = t

unfoldable pub info_of : ℕ → Row → Store → Info
unfolding find
info_of now r s = record {
  name = r.name;
  remember = r.remember;
  epoch = r.epoch;
  refresh =
      r.remember
      && leb (or_time (find cookie_key r.id s.cookie_at) r.created + cookie_refresh_every) now;
}

-- A flush that is due, one attempt in an interval.
unfoldable pub flush : Disk → ℕ → Store → Store
unfolding persist
flush disk now s =
    if leb (s.flushed + flush_every) now
    then (persist disk now (record s { flushed = now })).0
    else s

-- The lookup of a row that is there.
unfoldable pub seen : Disk → ℕ → Row → Store → Store × Option Info
unfolding put forget info_of flush
seen disk now r s =
    if is_live now r
    then (
      flush disk now (set_rows (put row_key (record r { last_seen = now }) (held s)) s),
      some (info_of now r s),
    )
    else (forget r.id s, none)

unfoldable pub lookup_in : Disk → ℕ → Option Row → Store → Store × Option Info
unfolding seen
lookup_in disk now none s = (s, none)
lookup_in disk now (some r) s = seen disk now r s

unfoldable pub lookup : Disk → ℕ → Text → Store → Store × Option Info
unfolding load find lookup_in
lookup disk now id s = lookup_in disk now (find row_key id (held s)) (load now s)

abbrev cookie_if : ℕ → Text → Option Row → Store → Store
cookie_if now id none s = s
cookie_if now id (some r) s = record s { cookie_at = put cookie_key (id, now) s.cookie_at }

-- none is the TypeError of a store that is not loaded yet.
unfoldable pub cookie_sent : ℕ → Text → Store → Option Store
unfolding find put
cookie_sent now id s = elim s.rows [
  | none ↦ none
  | some rs ↦ some (cookie_if now id (find row_key id rs) s)
]

unfoldable pub revoke : Disk → ℕ → Text → Store → Store
unfolding load forget persist
revoke disk now id s = (persist disk now (forget id (load now s))).0

abbrev is_kept : Option Text → Row → Bool
is_kept none r = false
is_kept (some id) r = same_text r.id id

-- The rows of an account that a revocation takes; `keep` is the digest of the session that stays.
unfoldable pub revoked_rows : Text → Option Text → List Row → List Row
unfolding same_text lower
revoked_rows name keep [] = []
revoked_rows name keep (r ∷ rs) =
    let rest = revoked_rows name keep rs in
    if same_text (lower r.name) (lower name) && not (is_kept keep r) then r ∷ rest else rest

unfoldable pub revoke_user : Disk → ℕ → Text → Option Text → Store → Store × ℕ
unfolding load revoked_rows remove_rows remove_cookies persist
revoke_user disk now name keep s =
    let loaded = load now s in
    let gone = revoked_rows name keep (held s) in
    let after : Store = record loaded {
      rows = some (remove_rows gone (held s));
      cookie_at = remove_cookies gone loaded.cookie_at;
    } in
    (if length gone == 0 then after else (persist disk now after).0, length gone)
