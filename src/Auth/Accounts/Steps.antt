-- ===== src/Auth/Accounts/Steps.antt =====
-- review_auth.py: the changes of the accounts file as steps, and what no sequence of them breaks.
use dub_titlerr.Prelude.{
  ℕ, ◌≡◌, refl, ap, ◌∙◌, Bool, true, false, not, ◌&&◌, Option, none, some, List, [], ◌∷◌, ◌++◌,
  arith, AllOf-append, ◌⊎◌, inl, inr,
}
use dub_titlerr.Text.{Text}
use dub_titlerr.Text.Order.{same_text→eq}
use dub_titlerr.Text.Lower.{lower}
use dub_titlerr.Text.Table.{
  find, put, remove, AllOf-put, AllOf-remove, AllOf-find, DistinctKeys-remove, DistinctKeys-put,
}
use dub_titlerr.Auth.{
  Role, admin, user, same_role, ok, ◌>>=◌, refuse_if, Field, absent, wrong, given, Disk, User,
  UsersFile, missing, damaged, rows, is_username, check_username, check_password, check_role,
  account_key, last_admin, already_set_up,
}
use dub_titlerr.Auth.Accounts.{
  find_user, is_admin, is_last_admin, created_rows, create_user, updated, updated_rows, update_user,
  deleted_rows, delete_user, password_rows, set_password, changes_role, lock_problem, write_problem,
  must_exist, must_be_absent, is_empty, check_update,
}
use dub_titlerr.Auth.Accounts.Guarded.{
  AreSound, HaveAdmin, IsGuarded, read_users-AreSound, admin_count-put, admin_count-remove,
  admin_count-append, AllOf-absent, DistinctKeys-append, KeepsGuard, commit-KeepsGuard,
  KeepsGuard-bind, KeepsGuard-then,
}

must_be_absent-none : (o : Option User) → must_be_absent o ≡ ok tt → o ≡ none
must_be_absent-none o h = ground (arith, h)

must_exist-some : (o : Option User) (u : User) → must_exist o ≡ ok u → o ≡ some u
must_exist-some o u h = ground (arith, h)

check_username_ok : (f : Field Text) (n : Text) → check_username f ≡ ok n → is_username n ≡ true
check_username_ok f n h = ground (arith, h)

refuse_if_ok : (b : Bool) → refuse_if b last_admin ≡ ok tt → b ≡ false
refuse_if_ok b h = ground (arith, h)

-- A new row with a valid name that no row has.
appended-KeepsGuard :
    (us : List User) (u : User)
    → AreSound us
    → HaveAdmin us
    → is_username u.name ≡ true
    → find account_key (account_key u) us ≡ none
    → AreSound (us ++ u ∷ []) × HaveAdmin (us ++ u ∷ [])
appended-KeepsGuard us u s a v h = (
  (
    AllOf-append (λ w. is_username w.name ≡ true) us (u ∷ []) s.0 (v, tt),
    DistinctKeys-append us u s.1 (AllOf-absent (account_key u) us h),
  ),
  omega (arith, admin_count-append us u, a),
)

-- A row in the place of the one with its name; an only admin stays one.
put-KeepsGuard :
    (us : List User) (u v : User)
    → AreSound us
    → HaveAdmin us
    → is_username v.name ≡ true
    → find account_key (account_key v) us ≡ some u
    → (is_admin v ≡ is_admin u) ⊎ (is_last_admin us u ≡ false)
    → AreSound (put account_key v us) × HaveAdmin (put account_key v us)
put-KeepsGuard us u v s a n h k = (
  (
    AllOf-put account_key (λ w. is_username w.name ≡ true) v us n s.0,
    DistinctKeys-put account_key v us s.1,
  ),
  ground (arith, k, a, admin_count-put v u us h),
)

removed-KeepsGuard :
    (us : List User) (u : User)
    → AreSound us
    → HaveAdmin us
    → find account_key (account_key u) us ≡ some u
    → is_last_admin us u ≡ false
    → AreSound (remove account_key (account_key u) us)
      × HaveAdmin (remove account_key (account_key u) us)
removed-KeepsGuard us u s a h k = (
  (
    AllOf-remove account_key (λ w. is_username w.name ≡ true) (account_key u) us s.0,
    DistinctKeys-remove account_key (account_key u) us s.1,
  ),
  ground (arith, k, a, admin_count-remove (account_key u) u us s.1 h),
)

-- An account that is found, under its own key and with a valid name.
abbrev IsRow : List User → User → Type 0
IsRow us u = (find account_key (account_key u) us ≡ some u) × (is_username u.name ≡ true)

find_user-IsRow :
    (us : List User) (name : Text) (u : User)
    → AreSound us
    → find_user us name ≡ some u
    → IsRow us u
unfolding find_user
find_user-IsRow us name u s h =
    let f = AllOf-find account_key (λ w. is_username w.name ≡ true) (lower name) us u h s.0 in
    (ap (λ k. find account_key k us) (same_text→eq (account_key u) (lower name) f.1) ∙ h, f.0)

given_admin :
    (r old : Role) (last : Bool)
    → (not (same_role r old) && last) ≡ false
    → (same_role r admin ≡ same_role old admin) ⊎ (last ≡ false)
given_admin admin admin last h = inl refl
given_admin admin user last h = inr h
given_admin user admin last h = inr h
given_admin user user last h = inl refl

-- An update that takes an admin's role away is not one of the last admin.
update_admin :
    (hashed : Text → Text) (clock : ℕ) (role : Field Role) (password : Field Text) (us : List User)
    (u : User)
    → (changes_role u role && is_last_admin us u) ≡ false
    → (is_admin (updated hashed clock role password u) ≡ is_admin u) ⊎ (is_last_admin us u ≡ false)
update_admin hashed clock absent password us u h = inl refl
update_admin hashed clock wrong password us u h = inl refl
update_admin hashed clock (given r) password us u h = given_admin r u.role (is_last_admin us u) h

module _ (us : List User) (s : AreSound us) (a : HaveAdmin us) where
  created_rows-KeepsGuard :
      (disk : Disk) (clock : ℕ) (only : Bool) (name : Text) (role : Role) (hash : Text)
      → is_username name ≡ true
      → KeepsGuard (created_rows disk clock only name role hash (rows us))
  unfolding created_rows find_user account_key
  created_rows-KeepsGuard disk clock only name role hash v = KeepsGuard-then (lock_problem disk) _ (
      rw (read_users-AreSound us s) (
        KeepsGuard-then (refuse_if (only && not (is_empty us)) already_set_up) _ (
          KeepsGuard-bind (λ _. find_user us name ≡ none) (must_be_absent (find_user us name)) _
            (λ _ h. must_be_absent-none (find_user us name) h)
            (λ _ h. KeepsGuard-then (write_problem disk) _ (
              appended-KeepsGuard us
                (record {
                  name = name;
                  role = role;
                  hash = hash;
                  pw_changed_at = clock;
                  session_epoch = 0;
                })
                s a v h)))))

  updated_rows-KeepsGuard :
      (hashed : Text → Text) (disk : Disk) (clock : ℕ) (name : Text) (role : Field Role)
      (password : Field Text)
      → KeepsGuard (updated_rows hashed disk clock name role password (rows us))
  unfolding updated_rows
  updated_rows-KeepsGuard hashed disk clock name role password =
      KeepsGuard-then (check_update role password) _ (
        KeepsGuard-then (lock_problem disk) _ (
          rw (read_users-AreSound us s) (
            KeepsGuard-bind (λ u. IsRow us u) (must_exist (find_user us name)) _
              (λ u h. find_user-IsRow us name u s (must_exist-some (find_user us name) u h))
              (λ u i.
                KeepsGuard-bind (λ _. changes_role u role && is_last_admin us u ≡ false)
                  (refuse_if (changes_role u role && is_last_admin us u) last_admin) _
                  (λ _ h. refuse_if_ok (changes_role u role && is_last_admin us u) h)
                  (λ _ h. KeepsGuard-then (write_problem disk) _ (
                    put-KeepsGuard us u (updated hashed clock role password u) s a i.1 i.0
                      (update_admin hashed clock role password us u h)))))))

  deleted_rows-KeepsGuard :
      (disk : Disk) (name : Text) → KeepsGuard (deleted_rows disk name (rows us))
  unfolding deleted_rows
  deleted_rows-KeepsGuard disk name = KeepsGuard-then (lock_problem disk) _ (
      rw (read_users-AreSound us s) (
        KeepsGuard-bind (λ u. IsRow us u) (must_exist (find_user us name)) _
          (λ u h. find_user-IsRow us name u s (must_exist-some (find_user us name) u h))
          (λ u i.
            KeepsGuard-bind (λ _. is_last_admin us u ≡ false)
              (refuse_if (is_last_admin us u) last_admin) _
              (λ _ h. refuse_if_ok (is_last_admin us u) h)
              (λ _ h. KeepsGuard-then (write_problem disk) _ (removed-KeepsGuard us u s a i.0 h)))))

  password_rows-KeepsGuard :
      (hashed : Text → Text) (disk : Disk) (clock : ℕ) (name : Text) (password : Field Text)
      → KeepsGuard (password_rows hashed disk clock name password (rows us))
  unfolding password_rows
  password_rows-KeepsGuard hashed disk clock name password =
      KeepsGuard-bind (λ _. Unit {0}) (check_password password) _ (λ _ _. tt)
        (λ p _. KeepsGuard-then (lock_problem disk) _ (
          rw (read_users-AreSound us s) (
            KeepsGuard-bind (λ u. IsRow us u) (must_exist (find_user us name)) _
              (λ u h. find_user-IsRow us name u s (must_exist-some (find_user us name) u h))
              (λ u i. KeepsGuard-then (write_problem disk) _ (
                put-KeepsGuard us u (updated hashed clock absent (given p) u) s a i.1 i.0
                  (inl refl))))))

-- The changes that this program makes to the accounts file.
pub data Step (file : UsersFile) : UsersFile → Type 0 where
  creates :
      (hashed : Text → Text) (disk : Disk) (clock : ℕ) (only : Bool) (name : Field Text)
      (role : Field Role) (password : Field Text)
      → Step file (create_user hashed disk clock only name role password file).0
  updates :
      (hashed : Text → Text) (disk : Disk) (clock : ℕ) (name : Text) (role : Field Role)
      (password : Field Text)
      → Step file (update_user hashed disk clock name role password file).0
  deletes : (disk : Disk) (name : Text) → Step file (delete_user disk name file).0
  sets_password :
      (hashed : Text → Text) (disk : Disk) (clock : ℕ) (name : Text) (password : Field Text)
      → Step file (set_password hashed disk clock name password file).0

-- Any number of them, one after the other.
pub data Reach (file : UsersFile) : UsersFile → Type 0 where
  here : Reach file file
  next : {mid end : UsersFile} → Reach file mid → Step mid end → Reach file end

create_user-IsGuarded :
    (hashed : Text → Text) (disk : Disk) (clock : ℕ) (only : Bool) (name : Field Text)
    (role : Field Role) (password : Field Text) (us : List User)
    → IsGuarded (rows us)
    → KeepsGuard (do
      n ← check_username name
      p ← check_password password
      r ← check_role role
      created_rows disk clock only n r (hashed p) (rows us))
create_user-IsGuarded hashed disk clock only name role password us g =
    KeepsGuard-bind (λ n. is_username n ≡ true) (check_username name) _
      (λ n h. check_username_ok name n h)
      (λ n v.
        KeepsGuard-bind (λ _. Unit {0}) (check_password password) _ (λ _ _. tt)
          (λ p _.
            KeepsGuard-bind (λ _. Unit {0}) (check_role role) _ (λ _ _. tt)
              (λ r _. created_rows-KeepsGuard us g.0 g.1 disk clock only n r (hashed p) v)))

Step-IsGuarded : {file after : UsersFile} → Step file after → IsGuarded file → IsGuarded after
unfolding create_user update_user delete_user set_password
Step-IsGuarded {file = missing} st g = absurd g
Step-IsGuarded {file = damaged} st g = absurd g
Step-IsGuarded {file = rows us} (creates hashed disk clock only name role password) g =
    commit-KeepsGuard (rows us) _ g
      (create_user-IsGuarded hashed disk clock only name role password us g)
Step-IsGuarded {file = rows us} (updates hashed disk clock name role password) g =
    commit-KeepsGuard (rows us) _ g
      (updated_rows-KeepsGuard us g.0 g.1 hashed disk clock name role password)
Step-IsGuarded {file = rows us} (deletes disk name) g =
    commit-KeepsGuard (rows us) _ g (deleted_rows-KeepsGuard us g.0 g.1 disk name)
Step-IsGuarded {file = rows us} (sets_password hashed disk clock name password) g =
    commit-KeepsGuard (rows us) _ g
      (password_rows-KeepsGuard us g.0 g.1 hashed disk clock name password)

-- Whatever accounts are created, changed and deleted, and whatever fails on the way: from a file
-- with sound rows, one of them an admin's, the accounts stay readable, with valid names of which no
-- two are the same in lower case, and one account at least stays an admin's.
pub Reach-IsGuarded : {file after : UsersFile} → Reach file after → IsGuarded file → IsGuarded after
Reach-IsGuarded here g = g
Reach-IsGuarded (next r st) g = Step-IsGuarded st (Reach-IsGuarded r g)
