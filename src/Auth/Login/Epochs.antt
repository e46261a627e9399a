-- ===== src/Auth/Login/Epochs.antt =====
-- review_auth.py: a new password, or another role, ends the sessions that an account has.
use dub_titlerr.Prelude.{ℕ, ◌<◌, ◌≡◌, refl, none, some, List, [], ◌∷◌, arith, AllOf}
use dub_titlerr.Text.{Text}
use dub_titlerr.Text.Order.{same_text→eq}
use dub_titlerr.Text.Lower.{lower}
use dub_titlerr.Text.Table.{put, find-put_self, AllOf-find}
use dub_titlerr.Auth.{
  Answer, ok, refused, ◌>>=◌, Field, absent, given, Disk, User, rows, check_password, account_key,
}
use dub_titlerr.Auth.Accounts.{find_user, updated, password_rows, lock_problem, write_problem}
use dub_titlerr.Auth.Accounts.Guarded.{AreSound, read_users-AreSound}
use dub_titlerr.Auth.Sessions.Use.{Info}
use dub_titlerr.Auth.Routes.{of_session}

bind_ok {ℓ κ} :
    {A : Type ℓ} {B : Type κ} (m : Answer A) (f : A → Answer B) (b : B)
    → m >>= f ≡ ok b
    → (a : A) × (m ≡ ok a) × (f a ≡ ok b)
bind_ok (ok a) f b h = (a, refl, h)
bind_ok (refused p) f b h = absurd (ground (arith, h))

all_units : (us : List User) → AllOf (λ w. Unit {0}) us
all_units [] = tt
all_units (u ∷ us) = (tt, all_units us)

pub find_user-key :
    (us : List User) (name : Text) (u : User)
    → find_user us name ≡ some u
    → account_key u ≡ lower name
unfolding find_user
find_user-key us name u h =
    same_text→eq (account_key u) (lower name)
      (AllOf-find account_key (λ w. Unit {0}) (lower name) us u h (all_units us)).1

-- A session whose epoch the account has left is none of its sessions.
pub later_epoch :
    (us : List User) (v : User) (sid : Text) (info : Info)
    → AreSound (put account_key v us)
    → account_key v ≡ lower info.name
    → info.epoch < v.session_epoch
    → of_session (rows (put account_key v us)) sid (some info) ≡ none
unfolding of_session find_user
later_epoch us v sid info s k e =
    rw (of_session, read_users-AreSound (put account_key v us) s)
      (rw (← k) (rw (find-put_self account_key v us) (ground (arith, e))))

-- What a new password makes of the rows.
pub password_rows-ok :
    (hashed : Text → Text) (disk : Disk) (clock : ℕ) (name : Text) (password : Field Text)
    (us : List User) (old : User) (b : List User × User)
    → AreSound us
    → find_user us name ≡ some old
    → password_rows hashed disk clock name password (rows us) ≡ ok b
    → (p : Text) × (b ≡ (
      put account_key (updated hashed clock absent (given p) old) us,
      updated hashed clock absent (given p) old,
    ))
unfolding password_rows
password_rows-ok hashed disk clock name password us old b s f h =
    let checked = bind_ok (check_password password) _ b h in
    let locked = bind_ok (lock_problem disk) _ b checked.2 in
    let found = rw (read_users-AreSound us s, f) at locked.2 in
    let written = bind_ok (write_problem disk) _ b found in (checked.0, ground (arith, written.2))
