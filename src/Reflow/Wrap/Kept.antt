-- ===== src/Reflow/Wrap/Kept.antt =====
-- `wrap_balance` of reflow.py changes white space only.
use dub_titlerr.Prelude.{
  ℕ, ◌≡◌, refl, sym, ◌∙◌, inl, inr, Bool-cases, Option, none, some, List, [], ◌∷◌, ◌++◌, append-nil,
  append_assoc, length, leb, arith,
}
use dub_titlerr.Text.{Text, strip, split, is_space}
use dub_titlerr.Text.Visible.{
  visible, visibles, visible-append, visibles-append, visible-strip, visible-join, visible-split,
}
use dub_titlerr.Reflow.{max_line}
use dub_titlerr.Reflow.Wrap.{
  Choice, spaced, consider, cuts, no_choice, all_cuts, chosen, wrap_balance,
}

-- Every text of a choice has the visible characters `v`.
abbrev Shows : Text → Option (ℕ × Text) → Type 0
Shows v none = Unit
Shows v (some (n, t)) = visible t ≡ v

record AllShow (v : Text) (c : Choice) : Type 0 where
  best : Shows v c.best
  fallback : Shows v c.fallback

visible-spaced : (ws : List Text) → visible (spaced ws) ≡ visibles ws
unfolding visible is_space
visible-spaced ws = visible-join (b' ' ∷ []) ws refl

visible-two_lines : (l1 l2 : Text) → visible (l1 ++ b'\n' ∷ l2) ≡ visible l1 ++ visible l2
unfolding visible is_space
visible-two_lines l1 l2 = visible-append l1 (b'\n' ∷ l2)

AllShow-consider :
    (v : Text) (c : Choice) (l1 l2 : Text)
    → visible (l1 ++ b'\n' ∷ l2) ≡ v
    → AllShow v c
    → AllShow v (consider c l1 l2)
unfolding consider
AllShow-consider v c l1 l2 e h = record {
  best = ground (arith, h.best);
  fallback = ground (arith, h.fallback);
}

AllShow-cuts :
    (v : Text) (c : Choice) (before after : List Text)
    → visibles before ++ visibles after ≡ v
    → AllShow v c
    → AllShow v (cuts c before after)
unfolding cuts
AllShow-cuts v c before [] e h = h
AllShow-cuts v c before (w ∷ after) e h =
    AllShow-cuts v (consider c (spaced before) (spaced (w ∷ after))) (before ++ w ∷ []) after
      (rw (visibles-append) (unfold visibles in rw (append-nil, append_assoc) e))
      (AllShow-consider v c (spaced before) (spaced (w ∷ after))
        (rw (visible-two_lines, visible-spaced, visible-spaced) e) h)

AllShow-all_cuts : (ws : List Text) → AllShow (visibles ws) (all_cuts ws)
AllShow-all_cuts [] = record { best = tt; fallback = tt }
AllShow-all_cuts (w ∷ ws) =
    AllShow-cuts (visibles (w ∷ ws)) no_choice (w ∷ []) ws (unfold visibles in rw append-nil)
      (record { best = tt; fallback = tt })

visible-chosen :
    (v : Text) (c : Choice) (text : Text)
    → AllShow v c
    → visible text ≡ v
    → visible (chosen c text) ≡ v
visible-chosen v c text h e = ground (arith, h.best, h.fallback)

-- Wrapping a text changes neither its visible characters nor their order.
pub visible-wrap_balance : (text : Text) → visible (wrap_balance text) ≡ visible text
unfolding wrap_balance
visible-wrap_balance text = elim (Bool-cases (leb (length (strip text)) max_line)) [
  | inl e ↦ rw e (visible-strip text)
  | inr e ↦ rw e (
      visible-chosen (visibles (split (strip text))) (all_cuts (split (strip text))) (strip text)
        (AllShow-all_cuts (split (strip text))) (sym (visible-split (strip text)))
      ∙ (visible-split (strip text) ∙ visible-strip text))
]
