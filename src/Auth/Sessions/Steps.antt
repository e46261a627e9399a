-- ===== src/Auth/Sessions/Steps.antt =====
-- review_auth.py: the operations of a session store as steps, restarts included.
use dub_titlerr.Prelude.{
  ℕ, ◌+◌, ◌≡◌, ap, Bool, Option, none, some, [], length, leb, ◌==◌, arith, Bool-cases, inl, inr,
}
use dub_titlerr.Text.{Text}
use dub_titlerr.Text.Table.{find, put}
use dub_titlerr.Auth.{Answer, ok, refused, Disk, no_lock_file, lock_taken, no_write, fine}
use dub_titlerr.Auth.Sessions.{
  Row, Store, row_key, rows_of_file, held, load, live_rows, pruned, persist, set_rows, new_row,
  with_row, forget, created, create, is_live, flush_every,
}
use dub_titlerr.Auth.Sessions.Use.{
  flush, seen, lookup_in, lookup, cookie_sent, revoke, revoked_rows, revoke_user,
}
use dub_titlerr.Auth.Sessions.Few.{
  IsCapped, AreFew-remove, AreFew-remove_rows, AreFew-live_rows, AreFew-with_row, AreFew-seen,
  rows_of_lines-as_lines,
}

held-load : (now : ℕ) (s : Store) → held (load now s) ≡ held s
unfolding load
held-load now s = ground arith

file-load : (now : ℕ) (s : Store) → (load now s).file ≡ s.file
unfolding load
file-load now s = ground arith

load-IsCapped : (now : ℕ) (s : Store) → IsCapped s → IsCapped (load now s)
load-IsCapped now s c = (rw (held-load now s) (c.0), rw (file-load now s) (c.1))

persist-IsCapped :
    (disk : Disk) (now : ℕ) (s : Store) → IsCapped s → IsCapped (persist disk now s).0
unfolding persist pruned rows_of_file
persist-IsCapped no_lock_file now s c = c
persist-IsCapped lock_taken now s c = c
persist-IsCapped no_write now s c = (AreFew-live_rows now (held s) c.0, c.1)
persist-IsCapped fine now s c =
    let f = AreFew-live_rows now (held s) c.0 in
    (f, rw (rows_of_lines-as_lines [] (live_rows now (held s)) f.0) f)

forget-IsCapped : (id : Text) (s : Store) → IsCapped s → IsCapped (forget id s)
unfolding forget
forget-IsCapped id s c = (AreFew-remove id (held s) c.0, c.1)

with_row-IsCapped : (r : Row) (s : Store) → IsCapped s → IsCapped (with_row r s)
unfolding with_row
with_row-IsCapped r s c = (AreFew-with_row r (held s) c.0, c.1)

created-IsCapped :
    (now : ℕ) (id : Text) (a : Store × Answer (Unit {0}))
    → IsCapped a.0
    → IsCapped (created now id a).0
created-IsCapped now id (s, ok u) c = c
created-IsCapped now id (s, refused p) c = forget-IsCapped id s c

create-IsCapped :
    (disk : Disk) (now : ℕ) (id name : Text) (remember : Bool) (epoch : ℕ) (s : Store)
    → IsCapped s
    → IsCapped (create disk now id name remember epoch s).0
unfolding create
create-IsCapped disk now id name remember epoch s c =
    created-IsCapped now id
      (persist disk now (with_row (new_row now id name remember epoch) (load now s)))
      (persist-IsCapped disk now (with_row (new_row now id name remember epoch) (load now s)) (
        with_row-IsCapped (new_row now id name remember epoch) (load now s)
          (load-IsCapped now s c)))

flush-IsCapped : (disk : Disk) (now : ℕ) (s : Store) → IsCapped s → IsCapped (flush disk now s)
unfolding flush
flush-IsCapped disk now s c = elim (Bool-cases (leb (s.flushed + flush_every) now)) [
  | inl e ↦ rw e (persist-IsCapped disk now (record s { flushed = now }) c)
  | inr e ↦ rw e c
]

seen-IsCapped :
    (disk : Disk) (now : ℕ) (id : Text) (r : Row) (s : Store)
    → find row_key id (held s) ≡ some r
    → IsCapped s
    → IsCapped (seen disk now r s).0
unfolding seen
seen-IsCapped disk now id r s h c = elim (Bool-cases (is_live now r)) [
  | inl e ↦ rw e (
      flush-IsCapped disk now (set_rows (put row_key (record r { last_seen = now }) (held s)) s)
        (AreFew-seen now id r (held s) h c.0, c.1))
  | inr e ↦ rw e (forget-IsCapped r.id s c)
]

lookup_in-IsCapped :
    (disk : Disk) (now : ℕ) (id : Text) (o : Option Row) (s : Store)
    → find row_key id (held s) ≡ o
    → IsCapped s
    → IsCapped (lookup_in disk now o s).0
unfolding lookup_in
lookup_in-IsCapped disk now id none s h c = c
lookup_in-IsCapped disk now id (some r) s h c = seen-IsCapped disk now id r s h c

lookup-IsCapped :
    (disk : Disk) (now : ℕ) (id : Text) (s : Store) → IsCapped s → IsCapped (lookup disk now id s).0
unfolding lookup
lookup-IsCapped disk now id s c =
    lookup_in-IsCapped disk now id _ (load now s) (ap (λ rs. find row_key id rs) (held-load now s))
      (load-IsCapped now s c)

cookie_sent-IsCapped :
    (now : ℕ) (id : Text) (s after : Store)
    → cookie_sent now id s ≡ some after
    → IsCapped s
    → IsCapped after
unfolding cookie_sent
cookie_sent-IsCapped now id s after e c = ground (arith, e, c)

revoke-IsCapped :
    (disk : Disk) (now : ℕ) (id : Text) (s : Store) → IsCapped s → IsCapped (revoke disk now id s)
unfolding revoke
revoke-IsCapped disk now id s c =
    persist-IsCapped disk now (forget id (load now s))
      (forget-IsCapped id (load now s) (load-IsCapped now s c))

revoke_user-IsCapped :
    (disk : Disk) (now : ℕ) (name : Text) (keep : Option Text) (s : Store)
    → IsCapped s
    → IsCapped (revoke_user disk now name keep s).0
unfolding revoke_user
revoke_user-IsCapped disk now name keep s c =
    let f = AreFew-remove_rows (revoked_rows name keep (held s)) (held s) c.0 in
    elim (Bool-cases (length (revoked_rows name keep (held s)) == 0)) [
      | inl e ↦ rw e (f, rw (file-load now s) (c.1))
      | inr e ↦ rw e (persist-IsCapped disk now _ (f, rw (file-load now s) (c.1)))
    ]

-- A new process has no rows in memory; the file is what the old one left.
abbrev pub restarted : Store → Store
restarted s = record { rows = none; cookie_at = []; flushed = 0; file = s.file }

pub data Step (s : Store) : Store → Type 0 where
  creates :
      (disk : Disk) (now : ℕ) (id name : Text) (remember : Bool) (epoch : ℕ)
      → Step s (create disk now id name remember epoch s).0
  looks_up : (disk : Disk) (now : ℕ) (id : Text) → Step s (lookup disk now id s).0
  sends_cookie :
      {after : Store} (now : ℕ) (id : Text) → cookie_sent now id s ≡ some after → Step s after
  revokes : (disk : Disk) (now : ℕ) (id : Text) → Step s (revoke disk now id s)
  revokes_user :
      (disk : Disk) (now : ℕ) (name : Text) (keep : Option Text)
      → Step s (revoke_user disk now name keep s).0
  restarts : Step s (restarted s)

pub data Reach (s : Store) : Store → Type 0 where
  here : Reach s s
  next : {mid end : Store} → Reach s mid → Step mid end → Reach s end

Step-IsCapped : {s after : Store} → Step s after → IsCapped s → IsCapped after
Step-IsCapped {s = s} (creates disk now id name remember epoch) c =
    create-IsCapped disk now id name remember epoch s c
Step-IsCapped {s = s} (looks_up disk now id) c = lookup-IsCapped disk now id s c
Step-IsCapped {s = s} {after = after} (sends_cookie now id e) c =
    cookie_sent-IsCapped now id s after e c
Step-IsCapped {s = s} (revokes disk now id) c = revoke-IsCapped disk now id s c
Step-IsCapped {s = s} (revokes_user disk now name keep) c =
    revoke_user-IsCapped disk now name keep s c
Step-IsCapped {s = s} restarts c = (c.1, c.1)

-- Whatever sessions are created, used and revoked, whatever fails on the way, and however often the
-- program starts again: from a store and a file in which each id stands once and no account has
-- more than 20 sessions, the store and the file stay so.
pub Reach-IsCapped : {s after : Store} → Reach s after → IsCapped s → IsCapped after
Reach-IsCapped here c = c
Reach-IsCapped (next r st) c = Step-IsCapped st (Reach-IsCapped r c)
