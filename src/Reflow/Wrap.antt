-- ===== src/Reflow/Wrap.antt =====
-- reflow.py: `wrap_balance`.
pub mod Kept
pub mod Balance
use dub_titlerr.Prelude.{
  ℕ, zero, suc, ◌+◌, ◌-◌, max, Bool, true, ◌&&◌, Option, none, some, List, [], ◌∷◌, ◌++◌, length,
  take, drop, ltb, leb, if◌then◌else◌,
}
use dub_titlerr.Text.{Text, strip, split, join}
use dub_titlerr.Reflow.{max_line}
use dub_titlerr.Reflow.Pieces.{distance}

-- The variables of the loop: `best` with its score, and the fallback with its longer line.
pub record Choice : Type 0 where
  pub best : Option (ℕ × Text)
  pub fallback : Option (ℕ × Text)

abbrev pub spaced : List Text → Text
spaced ws = join (b' ' ∷ []) ws

abbrev pub improves : Option (ℕ × Text) → ℕ → Bool
improves none score = true
improves (some (old, t)) score = ltb score old

abbrev pub both_fit : Text → Text → Bool
both_fit l1 l2 = leb (length l1) max_line && leb (length l2) max_line

-- One round of the loop, for the two lines of a cut.
unfoldable pub consider : Choice → Text → Text → Choice
consider c l1 l2 =
    let longer = max (length l1) (length l2) in
    let score = distance (length l1) (length l2) in
    let text = l1 ++ b'\n' ∷ l2 in
    record {
      best = if both_fit l1 l2 && improves c.best score then some (score, text) else c.best;
      fallback = if improves c.fallback longer then some (longer, text) else c.fallback;
    }

-- The cuts after `before`, which is not empty: the words before the cut, and those behind it.
unfoldable pub cuts : Choice → List Text → List Text → Choice
unfolding consider join
cuts c before [] = c
cuts c before (w ∷ after) =
    cuts (consider c (spaced before) (spaced (w ∷ after))) (before ++ w ∷ []) after

abbrev pub no_choice : Choice
no_choice = record { best = none; fallback = none }

abbrev pub all_cuts : List Text → Choice
all_cuts [] = no_choice
all_cuts (w ∷ ws) = cuts no_choice (w ∷ []) ws

abbrev pub chosen : Choice → Text → Text
chosen c text = elim c.best [
  | some (score, t) ↦ t
  | none ↦ elim c.fallback [ some (longer, t) ↦ t | none ↦ text ]
]

unfoldable pub wrap_balance : Text → Text
unfolding strip split cuts
wrap_balance text =
    let stripped = strip text in
    if leb (length stripped) max_line then stripped else chosen (all_cuts (split stripped)) stripped
