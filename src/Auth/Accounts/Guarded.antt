-- ===== src/Auth/Accounts/Guarded.antt =====
-- review_auth.py: what holds of the accounts file whatever is done to it.
use dub_titlerr.Prelude.{
  ℕ, ◌+◌, ◌<◌, ◌≡◌, refl, Bool, true, false, none, some, List, [], ◌∷◌, ◌++◌, if◌then◌else◌, arith,
  AllOf, AllOf-append,
}
use dub_titlerr.Text.{Text, same_text}
use dub_titlerr.Text.Order.{same_text→eq, same_text_sym}
use dub_titlerr.Text.Table.{find, put, remove, DistinctKeys}
use dub_titlerr.Auth.{
  Answer, ok, refused, ◌>>=◌, ◌>>◌, User, UsersFile, missing, damaged, rows, is_username,
  account_key,
}
use dub_titlerr.Auth.Accounts.{
  all_usernames, name_among, no_repeats, read_users, is_admin, admin_count, commit,
}

-- Every row has a valid name, and no two rows have one name, whatever its case.
abbrev pub AreSound : List User → Type 0
AreSound us = AllOf (λ u. is_username u.name ≡ true) us × DistinctKeys account_key us

-- Some row is an admin's.
abbrev pub HaveAdmin : List User → Type 0
HaveAdmin us = 0 < admin_count us

-- The accounts can be read, and one of them is an admin.
abbrev pub IsGuarded : UsersFile → Type 0
IsGuarded missing = ⊥
IsGuarded damaged = ⊥
IsGuarded (rows us) = AreSound us × HaveAdmin us

pub AllOf-all_usernames :
    (us : List User) → all_usernames us ≡ true → AllOf (λ u. is_username u.name ≡ true) us
unfolding all_usernames
AllOf-all_usernames [] h = tt
AllOf-all_usernames (u ∷ us) h = ground (arith, h, AllOf-all_usernames us)

all_usernames-AllOf :
    (us : List User) → AllOf (λ u. is_username u.name ≡ true) us → all_usernames us ≡ true
unfolding all_usernames
all_usernames-AllOf [] h = refl
all_usernames-AllOf (u ∷ us) h = ground (arith, h, all_usernames-AllOf us h.1)

AllOf-name_among :
    (k : Text) (us : List User)
    → name_among k us ≡ false
    → AllOf (λ u. same_text k (account_key u) ≡ false) us
unfolding name_among
AllOf-name_among k [] h = tt
AllOf-name_among k (u ∷ us) h = ground (arith, h, AllOf-name_among k us)

name_among-AllOf :
    (k : Text) (us : List User)
    → AllOf (λ u. same_text k (account_key u) ≡ false) us
    → name_among k us ≡ false
unfolding name_among
name_among-AllOf k [] h = refl
name_among-AllOf k (u ∷ us) h = ground (arith, h, name_among-AllOf k us h.1)

DistinctKeys-no_repeats : (us : List User) → no_repeats us ≡ true → DistinctKeys account_key us
unfolding no_repeats
DistinctKeys-no_repeats [] h = tt
DistinctKeys-no_repeats (u ∷ us) h =
    ground (arith, h, DistinctKeys-no_repeats us, AllOf-name_among (account_key u) us)

no_repeats-DistinctKeys : (us : List User) → DistinctKeys account_key us → no_repeats us ≡ true
unfolding no_repeats
no_repeats-DistinctKeys [] h = refl
no_repeats-DistinctKeys (u ∷ us) h =
    ground (arith, h, no_repeats-DistinctKeys us h.1, name_among-AllOf (account_key u) us h.0)

-- Sound rows are read as they are.
pub read_users-AreSound : (us : List User) → AreSound us → read_users (rows us) ≡ ok us
unfolding read_users
read_users-AreSound us h = rw (all_usernames-AllOf us h.0, no_repeats-DistinctKeys us h.1)

abbrev pub one_if : Bool → ℕ
one_if b = if b then 1 else 0

pub admin_count-put :
    (v u : User) (us : List User)
    → find account_key (account_key v) us ≡ some u
    → admin_count (put account_key v us) + one_if (is_admin u)
      ≡ admin_count us + one_if (is_admin v)
unfolding admin_count find put
admin_count-put v u [] h = ground (arith, h)
admin_count-put v u (w ∷ ws) h = ground (arith, h, admin_count-put v u ws)

remove_other :
    (k : Text) (us : List User)
    → AllOf (λ u. same_text k (account_key u) ≡ false) us
    → remove account_key k us ≡ us
unfolding remove
remove_other k [] h = refl
remove_other k (u ∷ us) h =
    ground (arith, h, remove_other k us h.1, same_text_sym k (account_key u))

pub admin_count-remove :
    (k : Text) (u : User) (us : List User)
    → DistinctKeys account_key us
    → find account_key k us ≡ some u
    → admin_count (remove account_key k us) + one_if (is_admin u) ≡ admin_count us
unfolding admin_count find remove
admin_count-remove k u [] d h = ground (arith, h)
admin_count-remove k u (w ∷ ws) d h = ground (
  arith,
  d,
  h,
  admin_count-remove k u ws d.1,
  remove_other (account_key w) ws d.0,
  same_text→eq (account_key w) k,
)

pub admin_count-append :
    (us : List User) (u : User) → admin_count (us ++ u ∷ []) ≡ admin_count us + one_if (is_admin u)
unfolding admin_count
admin_count-append [] u = omega arith
admin_count-append (w ∷ ws) u = omega (arith, admin_count-append ws u)

pub AllOf-absent :
    (k : Text) (us : List User)
    → find account_key k us ≡ none
    → AllOf (λ u. same_text (account_key u) k ≡ false) us
unfolding find
AllOf-absent k [] h = tt
AllOf-absent k (u ∷ us) h = ground (arith, h, AllOf-absent k us)

pub DistinctKeys-append :
    (us : List User) (u : User)
    → DistinctKeys account_key us
    → AllOf (λ v. same_text (account_key v) (account_key u) ≡ false) us
    → DistinctKeys account_key (us ++ u ∷ [])
DistinctKeys-append [] u d h = (tt, tt)
DistinctKeys-append (v ∷ vs) u d h = (
  AllOf-append (λ w. same_text (account_key v) (account_key w) ≡ false) vs (u ∷ []) d.0 (h.0, tt),
  DistinctKeys-append vs u d.1 h.1,
)

-- What a change of the rows is to keep.
abbrev pub KeepsGuard {ℓ} : {A : Type ℓ} → Answer (List User × A) → Type 0
KeepsGuard (ok (us, a)) = AreSound us × HaveAdmin us
KeepsGuard (refused p) = Unit

pub commit-KeepsGuard {ℓ} :
    {A : Type ℓ} (file : UsersFile) (a : Answer (List User × A))
    → IsGuarded file
    → KeepsGuard a
    → IsGuarded (commit file a).0
commit-KeepsGuard file (ok (us, a)) g k = k
commit-KeepsGuard file (refused p) g k = g

pub KeepsGuard-bind {ℓ κ μ} :
    {A : Type ℓ} {B : Type κ} (Q : B → Type μ) (m : Answer B) (f : B → Answer (List User × A))
    → ((b : B) → m ≡ ok b → Q b)
    → ((b : B) → Q b → KeepsGuard (f b))
    → KeepsGuard (m >>= f)
KeepsGuard-bind Q (ok b) f q k = k b (q b refl)
KeepsGuard-bind Q (refused p) f q k = tt

pub KeepsGuard-then {ℓ} :
    {A : Type ℓ} (m : Answer (Unit {0})) (a : Answer (List User × A))
    → KeepsGuard a
    → KeepsGuard (m >> a)
KeepsGuard-then (ok u) a k = k
KeepsGuard-then (refused p) a k = tt
