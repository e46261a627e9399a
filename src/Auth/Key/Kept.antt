-- ===== src/Auth/Key/Kept.antt =====
-- review_auth.py: what an operation on the API key keeps: the marker that retires the review token of
-- older versions, and that the key file does not hold that token.
use dub_titlerr.Prelude.{
  ◌≡◌, ◌≢◌, refl, ap, Bool, true, false, Bool-cases, inl, inr, [], ◌∷◌, ◌++◌, AllOf, arith,
}
use dub_titlerr.Text.{Text, is_space, lstrip, rstrip, strip}
use dub_titlerr.Auth.{Answer, ok, refused, Disk, no_lock_file, lock_taken, no_write, fine}
use dub_titlerr.Auth.Key.Stored.{strip-newline}
use dub_titlerr.Auth.Key.{
  KeyFile, content, Keys, KeyState, key_ok, key_missing, key_error, state_of, noted, store_key,
  init_api_key, reset_api_key, under_lock, init_from, first_key, has_lock, reset_to,
}

-- The file does not hold a token as the key.
abbrev pub HoldsOther : Text → KeyFile → Type 0
HoldsOther token file = state_of file ≢ key_ok token

-- A fresh key: no white space, as of secrets.token_urlsafe, and not the token.
abbrev pub IsFresh : Text → Text → Type 0
IsFresh token random = AllOf (λ c. is_space c ≡ false) random × (random ≢ token)

retired-store_key :
    (disk : Disk) (marked : Bool) (key : Text) (s : Keys)
    → s.retired ≡ true
    → (store_key disk marked key s).0.retired ≡ true
unfolding store_key
retired-store_key no_lock_file marked key s h = h
retired-store_key lock_taken marked key s h = h
retired-store_key no_write marked key s h = h
retired-store_key fine false key s h = h
retired-store_key fine true key s h = refl

pub retired-noted : (k : KeyState) (s : Keys) → s.retired ≡ true → (noted k s).retired ≡ true
retired-noted (key_ok key) s h = h
retired-noted key_missing s h = h
retired-noted key_error s h = h

retired-under_lock :
    (disk : Disk) (marked : Bool) (key : Text) (s : Keys) (k : KeyState)
    → s.retired ≡ true
    → (under_lock disk marked key s k).retired ≡ true
retired-under_lock disk marked key s (key_ok old) h = h
retired-under_lock disk marked key s key_missing h = retired-store_key disk marked key s h
retired-under_lock disk marked key s key_error h = h

retired-init_from :
    (legacy random : Text) (disk : Disk) (marked : Bool) (found : KeyFile) (s : Keys) (k : KeyState)
    → s.retired ≡ true
    → (init_from legacy random disk marked found s k).retired ≡ true
retired-init_from legacy random disk marked found s (key_ok key) h = h
retired-init_from legacy random disk marked found s key_missing h = ground (
  arith,
  h,
  retired-under_lock disk marked (first_key legacy random s) (record s { key_file = found })
      (state_of found) h,
)
retired-init_from legacy random disk marked found s key_error h = h

pub retired-init :
    (legacy random : Text) (disk : Disk) (marked : Bool) (found : KeyFile) (s : Keys)
    → s.retired ≡ true
    → (init_api_key legacy random disk marked found s).retired ≡ true
unfolding init_api_key
retired-init legacy random disk marked found s h =
    retired-init_from legacy random disk marked found s (state_of s.key_file) h

pub retired-reset :
    (random : Text) (disk : Disk) (marked : Bool) (s : Keys)
    → s.retired ≡ true
    → (reset_api_key random disk marked s).0.retired ≡ true
unfolding reset_api_key
retired-reset random disk marked s h = ground (arith, retired-store_key disk marked random s h)

pub not_in_content :
    (token key : Text) → IsFresh token key → HoldsOther token (content (key ++ b'\n' ∷ []))
unfolding state_of strip lstrip rstrip is_space
not_in_content token [] f h = ground (arith, h)
not_in_content token (c ∷ t) f h = f.1 (ap key_in stored)
  where
    key_in : KeyState → Text
    key_in (key_ok k) = k
    key_in key_missing = []
    key_in key_error = []

    stored : key_ok (c ∷ t) ≡ key_ok token
    stored = let e = strip-newline c t f.0 in ground (arith, e, h)

other-store_key :
    (token : Text) (disk : Disk) (marked : Bool) (key : Text) (s : Keys)
    → IsFresh token key
    → HoldsOther token s.key_file
    → HoldsOther token (store_key disk marked key s).0.key_file
unfolding store_key
other-store_key token no_lock_file marked key s f h = h
other-store_key token lock_taken marked key s f h = h
other-store_key token no_write marked key s f h = h
other-store_key token fine false key s f h = not_in_content token key f
other-store_key token fine true key s f h = not_in_content token key f

pub other-noted :
    (token : Text) (k : KeyState) (s : Keys)
    → HoldsOther token s.key_file
    → HoldsOther token (noted k s).key_file
other-noted token (key_ok key) s h = h
other-noted token key_missing s h = h
other-noted token key_error s h = h

pub first_key_retired :
    (legacy random : Text) (s : Keys) → s.retired ≡ true → first_key legacy random s ≡ random
first_key_retired legacy random s h = ground (arith, h)

other-under_lock :
    (token : Text) (disk : Disk) (marked : Bool) (key : Text) (s : Keys) (k : KeyState)
    → IsFresh token key
    → HoldsOther token s.key_file
    → HoldsOther token (under_lock disk marked key s k).key_file
other-under_lock token disk marked key s (key_ok old) f h = h
other-under_lock token disk marked key s key_missing f h =
    other-store_key token disk marked key s f h
other-under_lock token disk marked key s key_error f h = h

pub other-init_from :
    (token legacy random : Text) (disk : Disk) (marked : Bool) (found : KeyFile) (s : Keys)
    (k : KeyState)
    → IsFresh token random
    → HoldsOther token found
    → s.retired ≡ true
    → HoldsOther token s.key_file
    → HoldsOther token (init_from legacy random disk marked found s k).key_file
other-init_from token legacy random disk marked found s (key_ok key) f g r h = h
other-init_from token legacy random disk marked found s key_missing f g r h =
    elim (Bool-cases (has_lock disk)) [
      | inl e ↦
          rw (e, first_key_retired legacy random s r)
            (other-under_lock token disk marked random (record s { key_file = found })
              (state_of found) f g)
      | inr e ↦ rw e h
    ]
other-init_from token legacy random disk marked found s key_error f g r h = h

pub other-reset :
    (token random : Text) (disk : Disk) (marked : Bool) (s : Keys)
    → IsFresh token random
    → HoldsOther token s.key_file
    → HoldsOther token (reset_api_key random disk marked s).0.key_file
unfolding reset_api_key
other-reset token random disk marked s f h =
    reset_file (store_key disk marked random s) (other-store_key token disk marked random s f h)
  where
    reset_file :
        (p : Keys × Answer (Unit {0}))
        → HoldsOther token p.0.key_file
        → HoldsOther token (reset_to random p).0.key_file
    reset_file (q, ok u) k = k
    reset_file (q, refused x) k = k
