-- ===== src/Auth/Key/Stored.antt =====
-- review_auth.py: a key that is stored is the key that is read.
use dub_titlerr.Prelude.{
  ℕ, ◌∷◌, ◌++◌, ◌≡◌, refl, ap, ◌∙◌, Bool, true, false, [], reverse, arith, AllOf, AllOf-append,
}
use mathlib.Core.List.{reverse-cons, reverse-reverse, reverse-append}
use dub_titlerr.Text.{Text, is_space, lstrip, rstrip, strip, any}
use dub_titlerr.Text.Order.{same_text_refl}
use dub_titlerr.Auth.{ok, Disk, no_lock_file, lock_taken, no_write, fine, is_surrogate}
use dub_titlerr.Auth.Key.{Keys, state_of, api_key, key_matches, store_key, reset_api_key}

lstrip-word : (c : ℕ) (t : Text) → is_space c ≡ false → lstrip (c ∷ t) ≡ c ∷ t
unfolding lstrip
lstrip-word c t h = rw h refl

lstrip-newline : (t : Text) → AllOf (λ c. is_space c ≡ false) t → lstrip (b'\n' ∷ t) ≡ t
unfolding lstrip is_space
lstrip-newline [] h = refl
lstrip-newline (c ∷ t) h = rw (h.0) refl

AllOf-reverse :
    (t : Text) → AllOf (λ c. is_space c ≡ false) t → AllOf (λ c. is_space c ≡ false) (reverse t)
AllOf-reverse [] h = tt
AllOf-reverse (c ∷ t) h =
    rw (reverse-cons)
      (AllOf-append (λ d. is_space d ≡ false) (reverse t) (c ∷ []) (AllOf-reverse t h.1) (h.0, tt))

pub strip-newline :
    (c : ℕ) (t : Text)
    → AllOf (λ d. is_space d ≡ false) (c ∷ t)
    → strip (c ∷ (t ++ b'\n' ∷ [])) ≡ c ∷ t
unfolding strip rstrip
strip-newline c t h = rw (lstrip-word c (t ++ b'\n' ∷ []) h.0) (
    ap (λ u. reverse (lstrip u)) (reverse-append (c ∷ t) (b'\n' ∷ []))
    ∙ ap reverse (lstrip-newline (reverse (c ∷ t)) (AllOf-reverse (c ∷ t) h))
    ∙ reverse-reverse (c ∷ t))

-- A reset that succeeds, with a fresh key without white space and lone surrogates, makes that key
-- the API key, whatever the review token of older versions: it is read back from the file as it was
-- written, and it is accepted.
pub api_key-reset :
    (legacy : Text) (c : ℕ) (t key : Text) (disk : Disk) (marked : Bool) (s : Keys)
    → AllOf (λ d. is_space d ≡ false) (c ∷ t)
    → any is_surrogate (c ∷ t) ≡ false
    → (reset_api_key (c ∷ t) disk marked s).1 ≡ ok key
    → ((api_key legacy (reset_api_key (c ∷ t) disk marked s).0).1 ≡ key)
      × ((key_matches legacy key (reset_api_key (c ∷ t) disk marked s).0).1 ≡ true)
unfolding reset_api_key store_key api_key key_matches state_of
api_key-reset legacy c t key fine true s w u h =
    let e : c ∷ t ≡ key = ground (arith, h) in
    rw (← e) (rw (strip-newline c t w) (refl, ground (arith, u, same_text_refl (c ∷ t))))
api_key-reset legacy c t key fine false s w u h = ground (arith, h)
api_key-reset legacy c t key no_write marked s w u h = ground (arith, h)
api_key-reset legacy c t key lock_taken marked s w u h = ground (arith, h)
api_key-reset legacy c t key no_lock_file marked s w u h = ground (arith, h)
