-- ===== src/Reflow/Cascade/Push.antt =====
-- What the cascade of reflow.py does to the cards that it pushes.
use dub_titlerr.Prelude.{
  ℕ, ◌+◌, ◌≤◌, ◌<◌, ◌≡◌, refl, ◌⊎◌, inl, inr, Option, List, [], ◌∷◌, length, arith,
}
use dub_titlerr.Reflow.{min_dur, max_dur, eps}
use dub_titlerr.Reflow.Cascade.{
  Timed, Infeasible, Result, ok, raise, OnOk, map_result, cascade, asked_shift,
}

pub OnOk-map {ℓ κ μ} :
    {A : Type ℓ} {B : Type κ} (P : B → Type μ) (f : A → B) (r : Result A)
    → OnOk (λ a. P (f a)) r
    → OnOk P (map_result f r)
OnOk-map P f (ok a) h = h
OnOk-map P f (raise e) h = tt

pub OnOk-mono {ℓ κ μ} :
    {A : Type ℓ} {P : A → Type κ} {Q : A → Type μ} (r : Result A)
    → ((a : A) → P a → Q a)
    → OnOk P r
    → OnOk Q r
OnOk-mono (ok a) f h = f a h
OnOk-mono (raise e) f h = tt

pub OnOk-eq {ℓ κ} : {A : Type ℓ} (P : A → Type κ) {r : Result A} {a : A} → OnOk P r → r ≡ ok a → P a
OnOk-eq P h e = rw e at h

pub Result-cases {ℓ} :
    {A : Type ℓ} (r : Result A) → ((a : A) × (r ≡ ok a)) ⊎ ((e : Infeasible) × (r ≡ raise e))
Result-cases (ok a) = inl (a, refl)
Result-cases (raise e) = inr (e, refl)

-- Starts and ends only move later, card by card, and no card is added or lost.
abbrev pub IsLater : List Timed → List Timed → Type 0
IsLater [] [] = Unit
IsLater [] (d ∷ ds) = ⊥
IsLater (c ∷ cs) [] = ⊥
IsLater (c ∷ cs) (d ∷ ds) = (c.start ≤ d.start) × (c.end ≤ d.end) × IsLater cs ds

pub IsLater-refl : (cs : List Timed) → IsLater cs cs
IsLater-refl [] = tt
IsLater-refl (c ∷ cs) = (omega arith, omega arith, IsLater-refl cs)

pub IsLater-trans : (bs cs ds : List Timed) → IsLater bs cs → IsLater cs ds → IsLater bs ds
IsLater-trans [] [] [] h k = tt
IsLater-trans [] [] (d ∷ ds) h k = k
IsLater-trans [] (c ∷ cs) ds h k = absurd h
IsLater-trans (b ∷ bs) [] ds h k = absurd h
IsLater-trans (b ∷ bs) (c ∷ cs) [] h k = absurd k
IsLater-trans (b ∷ bs) (c ∷ cs) (d ∷ ds) h k =
    (omega arith, omega arith, IsLater-trans bs cs ds h.2 k.2)

pub length-IsLater : (cs ds : List Timed) → IsLater cs ds → length ds ≡ length cs
length-IsLater [] [] h = refl
length-IsLater [] (d ∷ ds) h = absurd h
length-IsLater (c ∷ cs) [] h = absurd h
length-IsLater (c ∷ cs) (d ∷ ds) h = omega (arith, length-IsLater cs ds h.2)

pub cascade-IsLater :
    (audio : Option ℕ) (k applied shift : ℕ) (cards : List Timed)
    → OnOk (λ p. IsLater cards p.cards) (cascade audio k applied shift cards)
unfolding cascade
cascade-IsLater audio k applied shift [] = tt
cascade-IsLater audio k applied shift (c ∷ rest) =
    let ih =
      cascade-IsLater audio (k + 1) (applied + shift) (asked_shift (c.start + shift + min_dur) rest)
        rest in
    ground (arith, ih, IsLater-refl rest)

-- The first card is pushed by the whole shift.
abbrev pub StartsAt : ℕ → List Timed → Type 0
StartsAt s [] = Unit
StartsAt s (c ∷ cs) = s ≤ c.start

pub cascade-StartsAt :
    (audio : Option ℕ) (k applied shift : ℕ) (c : Timed) (rest : List Timed)
    → eps < shift
    → OnOk (λ p. StartsAt (c.start + shift) p.cards) (cascade audio k applied shift (c ∷ rest))
unfolding cascade
cascade-StartsAt audio k applied shift c rest h = ground (
  arith,
  cascade audio (k + 1) (applied + shift) (asked_shift (c.start + shift + min_dur) rest) rest,
)

abbrev pub AllWithin : List Timed → Type 0
AllWithin [] = Unit
AllWithin (c ∷ cs) = (c.end ≤ c.start + max_dur) × AllWithin cs

-- A push makes no card longer than MAX_DUR.
pub cascade-AllWithin :
    (audio : Option ℕ) (k applied shift : ℕ) (cards : List Timed)
    → AllWithin cards
    → OnOk (λ p. AllWithin p.cards) (cascade audio k applied shift cards)
unfolding cascade
cascade-AllWithin audio k applied shift [] h = tt
cascade-AllWithin audio k applied shift (c ∷ rest) h =
    let ih =
      cascade-AllWithin audio (k + 1) (applied + shift)
        (asked_shift (c.start + shift + min_dur) rest) rest h.1 in
    ground (arith, ih)

-- The accounting of a cascade that ran out of audio.
abbrev pub Accounted : Option ℕ → ℕ → ℕ → List Timed → Infeasible → Type 0
Accounted audio k applied cards e =
    (e.requested ≡ e.applied + e.residual)
    × (applied ≤ e.applied)
    × (eps < e.residual)
    × (k ≤ e.index)
    × (e.index < k + length cards)

abbrev pub OnRaise {ℓ κ} : {A : Type ℓ} → (Infeasible → Type κ) → Result A → Type κ
OnRaise P (ok a) = Unit
OnRaise P (raise e) = P e

-- Where a cascade runs out of audio, the accounting it raises adds up (requested is applied and
-- residual together), applied is no less than what it was given, residual is more than EPS, and
-- the index is that of one of the cards.
pub cascade-Accounted :
    (audio : Option ℕ) (k applied shift : ℕ) (cards : List Timed)
    → OnRaise (Accounted audio k applied cards) (cascade audio k applied shift cards)
unfolding cascade
cascade-Accounted audio k applied shift [] = tt
cascade-Accounted audio k applied shift (c ∷ rest) =
    let ih =
      cascade-Accounted audio (k + 1) (applied + shift)
        (asked_shift (c.start + shift + min_dur) rest) rest in
    ground (arith, ih)
