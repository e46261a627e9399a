-- ===== src/Reflow/Wrap/Balance.antt =====
-- `wrap_balance` of reflow.py finds the most balanced cut whose lines both fit, if there is one.
use dub_titlerr.Prelude.{
  ℕ, ◌≤◌, ◌<◌, ◌≡◌, refl, inl, inr, Bool-cases, Option, none, some, false, ◌&&◌, List, [], ◌∷◌,
  ◌++◌, append-nil, append_assoc, length, leb, arith,
}
use dub_titlerr.Text.{Text, strip, split}
use dub_titlerr.Reflow.{max_line}
use dub_titlerr.Reflow.Pieces.{distance}
use dub_titlerr.Reflow.Wrap.{
  Choice, both_fit, improves, spaced, consider, cuts, no_choice, all_cuts, chosen, wrap_balance,
}

-- `text` is the words `ws` on two lines that fit, and `score` says how far from balanced they are.
pub record IsCut (ws : List Text) (score : ℕ) (text : Text) : Type 0 where
  pub before : List Text
  pub after : List Text
  pub all_words : ws ≡ before ++ after
  pub two_lines : text ≡ spaced before ++ b'\n' ∷ spaced after
  pub first_fits : length (spaced before) ≤ max_line
  pub second_fits : length (spaced after) ≤ max_line
  pub scored : score ≡ distance (length (spaced before)) (length (spaced after))

abbrev BestIsCut : List Text → Option (ℕ × Text) → Type 0
BestIsCut ws none = Unit
BestIsCut ws (some (score, text)) = IsCut ws score text

-- The best choice so far is one of at most the given score.
abbrev BestWithin : ℕ → Option (ℕ × Text) → Type 0
BestWithin score none = ⊥
BestWithin score (some (s, text)) = s ≤ score

BestIsCut-consider :
    (c : Choice) (before after : List Text)
    → BestIsCut (before ++ after) c.best
    → BestIsCut (before ++ after) (consider c (spaced before) (spaced after)).best
unfolding consider
BestIsCut-consider c before after h = elim (Bool-cases (both_fit l1 l2 && improves c.best score)) [
  | inl e ↦ rw e (record {
    before = before;
    after = after;
    all_words = refl;
    two_lines = refl;
    first_fits = ground arith;
    second_fits = ground arith;
    scored = refl;
  })
  | inr e ↦ rw e h
]
  where
    l1 : Text
    l1 = spaced before

    l2 : Text
    l2 = spaced after

    score : ℕ
    score = distance (length l1) (length l2)

BestWithin-consider :
    (s : ℕ) (c : Choice) (l1 l2 : Text) → BestWithin s c.best → BestWithin s (consider c l1 l2).best
unfolding consider
BestWithin-consider s c l1 l2 h = ground arith

BestWithin-fitting :
    (c : Choice) (l1 l2 : Text)
    → length l1 ≤ max_line
    → length l2 ≤ max_line
    → BestWithin (distance (length l1) (length l2)) (consider c l1 l2).best
unfolding consider
BestWithin-fitting c l1 l2 h k = ground arith

BestWithin-cuts :
    (s : ℕ) (c : Choice) (before after : List Text)
    → BestWithin s c.best
    → BestWithin s (cuts c before after).best
unfolding cuts
BestWithin-cuts s c before [] h = h
BestWithin-cuts s c before (w ∷ after) h =
    BestWithin-cuts s (consider c (spaced before) (spaced (w ∷ after))) (before ++ w ∷ []) after
      (BestWithin-consider s c (spaced before) (spaced (w ∷ after)) h)

BestIsCut-cuts :
    (c : Choice) (before after : List Text)
    → BestIsCut (before ++ after) c.best
    → BestIsCut (before ++ after) (cuts c before after).best
unfolding cuts
BestIsCut-cuts c before [] h = h
BestIsCut-cuts c before (w ∷ after) h = rw (append_assoc before (w ∷ []) after) at (
    BestIsCut-cuts (consider c (spaced before) (spaced (w ∷ after))) (before ++ w ∷ []) after
      (rw append_assoc (BestIsCut-consider c before (w ∷ after) h)))

cut_found :
    (c : Choice) (before xs : List Text) (w : Text) (ws : List Text)
    → length (spaced (before ++ xs)) ≤ max_line
    → length (spaced (w ∷ ws)) ≤ max_line
    → BestWithin
        (distance (length (spaced (before ++ xs))) (length (spaced (w ∷ ws))))
        (cuts c before (xs ++ w ∷ ws)).best
unfolding cuts
cut_found c before [] w ws h k =
    BestWithin-cuts _ (consider c (spaced before) (spaced (w ∷ ws))) (before ++ w ∷ []) ws (
      rw append-nil (BestWithin-fitting c (spaced before) (spaced (w ∷ ws)) (rw append-nil at h) k))
cut_found c before (x ∷ xs) w ws h k = rw (append_assoc before (x ∷ []) xs) at (
    cut_found (consider c (spaced before) (spaced (x ∷ xs ++ w ∷ ws))) (before ++ x ∷ []) xs w ws
      (rw append_assoc h) k)

chosen-IsCut :
    (ws : List Text) (s : ℕ) (text : Text) (best fallback : Option (ℕ × Text))
    → BestIsCut ws best
    → BestWithin s best
    → (score : ℕ) × IsCut ws score (chosen (record { best = best; fallback = fallback }) text)
      × (score ≤ s)
chosen-IsCut ws s text none fallback h k = absurd k
chosen-IsCut ws s text (some (score, t)) fallback h k = (score, h, k)

-- A text longer than a line whose words can be cut into two lines that fit is wrapped to such a
-- cut, of all the words, and that cut is at least as balanced as any other.
pub wrap_balance-IsCut :
    (text : Text) (v : Text) (before : List Text) (w : Text) (after : List Text)
    → max_line < length (strip text)
    → split (strip text) ≡ v ∷ before ++ w ∷ after
    → length (spaced (v ∷ before)) ≤ max_line
    → length (spaced (w ∷ after)) ≤ max_line
    → (score : ℕ) × IsCut (split (strip text)) score (wrap_balance text)
      × (score ≤ distance (length (spaced (v ∷ before))) (length (spaced (w ∷ after))))
unfolding wrap_balance
wrap_balance-IsCut text v before w after long words h k =
    let ws = v ∷ before ++ w ∷ after in
    rw (leb_false (length (strip text)) max_line long, words)
      (chosen-IsCut ws _ (strip text) (all_cuts ws).best (all_cuts ws).fallback
        (BestIsCut-cuts no_choice (v ∷ []) (before ++ w ∷ after) tt)
        (cut_found no_choice (v ∷ []) before w after h k))
  where
    leb_false : (a b : ℕ) → b < a → leb a b ≡ false
    leb_false a b h = ground arith
