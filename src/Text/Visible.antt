-- ===== src/Text/Visible.antt =====
-- The visible characters of a text.
use dub_titlerr.Prelude.{
  List, [], ◌∷◌, ◌++◌, ◌≡◌, refl, sym, ap, ◌∙◌, ℕ, arith, inl, inr, Bool-cases, append_assoc,
  append-nil, reverse, if◌then◌else◌,
}
use mathlib.Core.List.{reverse-cons, reverse-reverse}
use dub_titlerr.Text.{Text, is_space, lstrip, rstrip, strip, close_word, split_from, split, join}

-- The characters that are no white space, in order.
unfoldable pub visible : Text → Text
visible [] = []
visible (c ∷ t) = let rest = visible t in if is_space c then rest else c ∷ rest

unfoldable pub visibles : List Text → Text
visibles [] = []
visibles (t ∷ ts) = visible t ++ visibles ts

pub visible-append : (s t : Text) → visible (s ++ t) ≡ visible s ++ visible t
unfolding visible
visible-append [] t = refl
visible-append (c ∷ s) t = ground (arith, visible-append s t)

pub visibles-append : (s t : List Text) → visibles (s ++ t) ≡ visibles s ++ visibles t
unfolding visibles
visibles-append [] t = refl
visibles-append (c ∷ s) t =
    rw (visibles-append s t) (sym (append_assoc (visible c) (visibles s) (visibles t)))

pub visible-lstrip : (t : Text) → visible (lstrip t) ≡ visible t
unfolding visible lstrip
visible-lstrip [] = refl
visible-lstrip (c ∷ t) = ground (arith, visible-lstrip t)

visible-one : (c : ℕ) (u : Text) → u ++ visible (c ∷ []) ≡ (if is_space c then u else u ++ c ∷ [])
unfolding visible
visible-one c u = elim (Bool-cases (is_space c)) [ inl e ↦ rw (e, append-nil) | inr e ↦ rw e ]

pub visible-reverse : (t : Text) → visible (reverse t) ≡ reverse (visible t)
unfolding visible
visible-reverse [] = refl
visible-reverse (c ∷ t) =
    rw (reverse-cons, visible-append, visible-reverse t, visible-one c (reverse (visible t)))
      (ground (arith, reverse-cons c (visible t)))

visible-rstrip : (t : Text) → visible (rstrip t) ≡ visible t
unfolding rstrip
visible-rstrip t =
    rw (visible-reverse, visible-lstrip, visible-reverse) (reverse-reverse (visible t))

pub visible-strip : (t : Text) → visible (strip t) ≡ visible t
unfolding strip
visible-strip t = visible-rstrip (lstrip t) ∙ visible-lstrip t

pub visible-join :
    (sep : Text) (ts : List Text) → visible sep ≡ [] → visible (join sep ts) ≡ visibles ts
unfolding join visibles visible
visible-join sep [] h = refl
visible-join sep (t ∷ []) h = rw append-nil
visible-join sep (t ∷ u ∷ ts) h =
    rw (visible-append, visible-append, h) (ap (λ x. visible t ++ x) (visible-join sep (u ∷ ts) h))

close_word-visibles :
    (word : Text) (ws : List Text) → visibles (close_word word ws) ≡ visible word ++ visibles ws
unfolding visibles visible
close_word-visibles [] ws = refl
close_word-visibles (c ∷ w) ws = refl

pub visible-split_from : (word t : Text) → visibles (split_from word t) ≡ visible word ++ visible t
unfolding split_from visible visibles
visible-split_from word [] = close_word-visibles word []
visible-split_from word (c ∷ t) = elim (Bool-cases (is_space c)) [
  | inl e ↦ rw (e, close_word-visibles, visible-split_from [] t)
  | inr e ↦ rw (e, visible-split_from (word ++ c ∷ []) t, visible-append, append_assoc) (rw e)
]

pub visible-split : (t : Text) → visibles (split t) ≡ visible t
unfolding split visible
visible-split t = visible-split_from [] t
