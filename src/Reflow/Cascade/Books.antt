-- ===== src/Reflow/Cascade/Books.antt =====
-- The lists that the cascade of reflow.py keeps for the QC sidecar are true of the cards.
use dub_titlerr.Prelude.{
  ℕ, ◌+◌, ◌-◌, ◌<◌, ◌≡◌, refl, Option, List, [], ◌∷◌, arith, ltb, if◌then◌else◌,
}
use dub_titlerr.Reflow.{min_dur, eps}
use dub_titlerr.Reflow.Cascade.{Timed, OnOk, cascade, asked_shift}

-- `displaced` counts up from `k`, the card at each of its indices starts later by more than EPS,
-- and all cards behind are as they were.
abbrev pub DisplacedFrom : ℕ → List ℕ → List Timed → List Timed → Type 0
DisplacedFrom k [] before after = before ≡ after
DisplacedFrom k (i ∷ is) [] after = ⊥
DisplacedFrom k (i ∷ is) (b ∷ bs) [] = ⊥
DisplacedFrom k (i ∷ is) (b ∷ bs) (a ∷ as') =
    (i ≡ k) × (b.start + eps < a.start) × DisplacedFrom (k + 1) is bs as'

-- Where a cascade succeeds, its list `displaced` counts up from the first card pushed, each card
-- at these indices starts later by more than EPS, and all cards behind them are as they were.
pub cascade-DisplacedFrom :
    (audio : Option ℕ) (k applied shift : ℕ) (cards : List Timed)
    → OnOk (λ p. DisplacedFrom k p.displaced cards p.cards) (cascade audio k applied shift cards)
unfolding cascade
cascade-DisplacedFrom audio k applied shift [] = refl
cascade-DisplacedFrom audio k applied shift (c ∷ rest) =
    let ih =
      cascade-DisplacedFrom audio (k + 1) (applied + shift)
        (asked_shift (c.start + shift + min_dur) rest) rest in
    ground (arith, ih)

-- The indices of the cards that last shorter than before, by more than EPS.
pub lost_duration : ℕ → List Timed → List Timed → List ℕ
lost_duration k [] after = []
lost_duration k (b ∷ bs) [] = []
lost_duration k (b ∷ bs) (a ∷ as') =
    let rest = lost_duration (k + 1) bs as' in
    if ltb (a.end - a.start + eps) (b.end - b.start) then k ∷ rest else rest

lost_duration_self : (k : ℕ) (cards : List Timed) → lost_duration k cards cards ≡ []
unfolding lost_duration
lost_duration_self k [] = refl
lost_duration_self k (c ∷ cs) = ground (arith, lost_duration_self (k + 1) cs)

-- Where a cascade succeeds, its list `shortened` is exactly the indices of the cards that last
-- shorter than before by more than EPS.
pub cascade-lost_duration :
    (audio : Option ℕ) (k applied shift : ℕ) (cards : List Timed)
    → OnOk (λ p. p.shortened ≡ lost_duration k cards p.cards) (cascade audio k applied shift cards)
unfolding cascade lost_duration
cascade-lost_duration audio k applied shift [] = refl
cascade-lost_duration audio k applied shift (c ∷ rest) =
    let ih =
      cascade-lost_duration audio (k + 1) (applied + shift)
        (asked_shift (c.start + shift + min_dur) rest) rest in
    ground (arith, ih, lost_duration_self (k + 1) rest)
