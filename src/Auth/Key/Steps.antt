-- ===== src/Auth/Key/Steps.antt =====
-- review_auth.py: the API key from one operation to the next, restarts and lost files included.
use dub_titlerr.Prelude.{◌≡◌, ◌≢◌, sym, ap, ◌∙◌, Bool, true, false, arith}
use dub_titlerr.Text.{Text}
use dub_titlerr.Text.Order.{same_text→eq}
use dub_titlerr.Auth.{ok, Disk, no_lock_file, lock_taken, no_write, fine}
use dub_titlerr.Auth.Key.Kept.{
  HoldsOther, IsFresh, retired-init, retired-reset, retired-noted, not_in_content, other-init_from,
  other-noted, other-reset,
}
use dub_titlerr.Auth.Key.{
  KeyFile, Keys, KeyState, key_ok, key_missing, key_error, state_of, key_of, api_key, key_matches,
  store_key, init_api_key, reset_api_key, same_key,
}

-- What the program does with the key, and what befalls its file, but that someone writes the token
-- into it. The program may start with that token as the review token of older versions.
pub data Step (token : Text) (s : Keys) : Keys → Type 0 where
  starts :
      (legacy random : Text) (disk : Disk) (marked : Bool) (found : KeyFile)
      → IsFresh token random
      → HoldsOther token found
      → Step token s
          (init_api_key legacy random disk marked found (record s { seen_stored = false }))
  resets :
      (random : Text) (disk : Disk) (marked : Bool)
      → IsFresh token random
      → Step token s (reset_api_key random disk marked s).0
  asks : (legacy presented : Text) → Step token s (key_matches legacy presented s).0
  changes : (file : KeyFile) → HoldsOther token file → Step token s (record s { key_file = file })

pub data Reach (token : Text) (s : Keys) : Keys → Type 0 where
  here : Reach token s s
  next : {mid end : Keys} → Reach token s mid → Step token mid end → Reach token s end

-- The old token is retired, and it is not in the file.
abbrev IsReplaced : Text → Keys → Type 0
IsReplaced token s = (s.retired ≡ true) × HoldsOther token s.key_file

Step-IsReplaced :
    {token : Text} {s after : Keys}
    → Step token s after
    → IsReplaced token s
    → IsReplaced token after
unfolding key_matches api_key init_api_key
Step-IsReplaced {token = token} {s = s} (starts legacy random disk marked found f g) h = (
  retired-init legacy random disk marked found (record s { seen_stored = false }) h.0,
  other-init_from token legacy random disk marked found (record s { seen_stored = false })
      (state_of s.key_file) f g h.0 h.1,
)
Step-IsReplaced {token = token} {s = s} (resets random disk marked f) h =
    (retired-reset random disk marked s h.0, other-reset token random disk marked s f h.1)
Step-IsReplaced {token = token} {s = s} (asks legacy presented) h =
    (retired-noted (state_of s.key_file) s h.0, other-noted token (state_of s.key_file) s h.1)
Step-IsReplaced (changes file g) h = (h.0, g)

Reach-IsReplaced :
    {token : Text} {s after : Keys}
    → Reach token s after
    → IsReplaced token s
    → IsReplaced token after
Reach-IsReplaced here h = h
Reach-IsReplaced (next r st) h = Step-IsReplaced st (Reach-IsReplaced r h)

reset-retired :
    (random key : Text) (disk : Disk) (marked : Bool) (s : Keys)
    → (reset_api_key random disk marked s).1 ≡ ok key
    → (reset_api_key random disk marked s).0.retired ≡ true
unfolding reset_api_key store_key
reset-retired random key disk marked s h = ground (arith, h)

same_key→eq :
    (presented expected : Text) → same_key presented expected ≡ true → presented ≡ expected
same_key→eq presented expected h = ground (arith, h, same_text→eq presented expected)

accepted_key :
    (legacy presented : Text) (s : Keys) (k : KeyState)
    → s.retired ≡ true
    → same_key presented (key_of legacy s k) ≡ true
    → k ≡ key_ok presented
accepted_key legacy presented s (key_ok key) r h = ap key_ok (sym (same_key→eq presented key h))
accepted_key legacy presented s key_missing r h = ground (arith, r, h)
accepted_key legacy presented s key_error r h = ground (arith, h)

accepted :
    (legacy presented : Text) (s : Keys)
    → s.retired ≡ true
    → (key_matches legacy presented s).1 ≡ true
    → state_of s.key_file ≡ key_ok presented
unfolding key_matches api_key
accepted legacy presented s r h = accepted_key legacy presented s (state_of s.key_file) r h

reset-holds :
    (token random key : Text) (disk : Disk) (marked : Bool) (s : Keys)
    → IsFresh token random
    → (reset_api_key random disk marked s).1 ≡ ok key
    → HoldsOther token (reset_api_key random disk marked s).0.key_file
unfolding reset_api_key store_key
reset-holds token random key fine true s f h = not_in_content token random f
reset-holds token random key fine false s f h = ground (arith, h)
reset-holds token random key no_write marked s f h = ground (arith, h)
reset-holds token random key lock_taken marked s f h = ground (arith, h)
reset-holds token random key no_lock_file marked s f h = ground (arith, h)

-- Once a reset has answered with a key, a review token of older versions is no key any more, also not
-- for a program that starts with it and finds no key file: after any starts, resets and questions,
-- and whatever becomes of the key file, but that someone writes the token into it, a text that is
-- accepted as the key is the one that the key file holds, and is not the token. The fresh keys are
-- without white space and not the token.
pub key_matches-Reach :
    (token legacy random key presented : Text) (disk : Disk) (marked : Bool) (s : Keys)
    {after : Keys}
    → IsFresh token random
    → (reset_api_key random disk marked s).1 ≡ ok key
    → Reach token (reset_api_key random disk marked s).0 after
    → (key_matches legacy presented after).1 ≡ true
    → (state_of after.key_file ≡ key_ok presented) × (presented ≢ token)
key_matches-Reach token legacy random key presented disk marked s {after} f done reach h =
    let replaced = Reach-IsReplaced reach (
      reset-retired random key disk marked s done,
      reset-holds token random key disk marked s f done,
    ) in
    let e = accepted legacy presented after replaced.0 h in (e, λ p. replaced.1 (e ∙ ap key_ok p))
