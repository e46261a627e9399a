-- ===== src/Reflow/Glue/Kept.antt =====
-- `_text` of reflow.py loses no visible character, whichever tokens it welds.
use mathlib.Core.List.{reverse-cons}
use dub_titlerr.Prelude.{
  ◌≡◌, refl, sym, ◌∙◌, inl, inr, Bool-cases, List, [], ◌∷◌, ◌++◌, reverse, append-nil, append_assoc,
}
use dub_titlerr.Text.{Text, strip, is_space}
use dub_titlerr.Text.Visible.{
  visible, visibles, visible-append, visibles-append, visible-strip, visible-join,
}
use dub_titlerr.Reflow.{Word}
use dub_titlerr.Reflow.Glue.{welds, add_token, tokens, text_of}

-- The visible characters of the words, in order.
unfoldable pub spoken : List Word → Text
spoken [] = []
spoken (w ∷ ws) = visible w.text ++ spoken ws

visibles-snoc :
    (out : List Text) (t : Text)
    → visibles (reverse (t ∷ out)) ≡ visibles (reverse out) ++ visible t
visibles-snoc out t = rw (reverse-cons, visibles-append) (unfold visibles in rw append-nil)

visibles-add_token :
    (out : List Text) (t : Text)
    → visibles (reverse (add_token out t)) ≡ visibles (reverse out) ++ visible t
unfolding add_token
visibles-add_token out [] = unfold visible in sym (append-nil _)
visibles-add_token [] (c ∷ t) = visibles-snoc [] (c ∷ t)
visibles-add_token (prev ∷ out) (c ∷ t) = elim (Bool-cases (welds prev (c ∷ t))) [
  | inl e ↦
      rw (e, visibles-snoc, visibles-snoc, visible-append)
        (sym (append_assoc (visibles (reverse out)) (visible prev) (visible (c ∷ t))))
  | inr e ↦ rw e (visibles-snoc (prev ∷ out) (c ∷ t))
]

visibles-tokens :
    (out : List Text) (ws : List Word)
    → visibles (reverse (tokens out ws)) ≡ visibles (reverse out) ++ spoken ws
unfolding tokens spoken
visibles-tokens out [] = sym (append-nil _)
visibles-tokens out (w ∷ ws) =
    rw (visibles-tokens (add_token out (strip w.text)) ws, visibles-add_token, visible-strip)
      (append_assoc (visibles (reverse out)) (visible w.text) (spoken ws))

-- The line of a group has the visible characters of its words, in order, whichever tokens are
-- welded.
pub visible-text_of : (ws : List Word) → visible (text_of ws) ≡ spoken ws
unfolding text_of visible is_space visibles
visible-text_of ws = visible-join (b' ' ∷ []) (reverse (tokens [] ws)) refl ∙ visibles-tokens [] ws
