-- ===== src/Reflow/Cascade.antt =====
-- reflow.py: `_cascade` and `CascadeInfeasible`. The arrays `st` and `en` are one list of cards,
-- and card `k` and its successors are its tail: the cascade touches nothing before `k`.
pub mod Push
pub mod Books
use dub_titlerr.Prelude.{
  ℕ, suc, ◌+◌, ◌-◌, Bool, true, false, Option, none, some, List, [], ◌∷◌, ltb, leb, if◌then◌else◌,
}
use dub_titlerr.Reflow.{min_dur, min_gap, eps}

pub record Timed : Type 0 where
  pub start : ℕ
  pub end : ℕ

pub record Infeasible : Type 0 where
  pub index : ℕ
  pub requested : ℕ
  pub applied : ℕ
  pub residual : ℕ

pub data Result {ℓ} (A : Type ℓ) : Type ℓ where
  ok : A → Result A
  raise : Infeasible → Result A

abbrev pub OnOk {ℓ κ} : {A : Type ℓ} → (A → Type κ) → Result A → Type κ
OnOk P (ok a) = P a
OnOk P (raise e) = Unit

-- What the cascade returns, with the cards as it leaves them.
pub record Pushed : Type 0 where
  pub cards : List Timed
  pub displaced : List ℕ
  pub shortened : List ℕ
  pub durs : List (ℕ × ℕ)

-- `audio_duration is not None and st[k] + shift >= audio_duration - EPS`
abbrev pub past_audio : Option ℕ → ℕ → Bool
past_audio none start = false
past_audio (some audio) start = leb audio (start + eps)

-- What card `k` adds to the lists.
abbrev record_hop : ℕ → ℕ → Bool → Pushed → Pushed
record_hop k dur short p = record p {
  displaced = k ∷ p.displaced;
  shortened = if short then k ∷ p.shortened else p.shortened;
  durs = (k, dur) ∷ p.durs;
}

abbrev pub map_result {ℓ κ} : {A : Type ℓ} {B : Type κ} → (A → B) → Result A → Result B
map_result f (ok a) = ok (f a)
map_result f (raise e) = raise e

abbrev pub push_front : Timed → Pushed → Pushed
push_front c p = record p { cards = c ∷ p.cards }

abbrev untouched : List Timed → Pushed
untouched cards = record { cards = cards; displaced = []; shortened = []; durs = [] }

-- The shift that a card which ends at `end` asks of its successor: what the gap cannot absorb.
abbrev pub asked_shift : ℕ → List Timed → ℕ
asked_shift end [] = 0
asked_shift end (d ∷ ds) = end + min_gap - d.start

-- `applied` is what the cards before `k` were pushed by.
unfoldable pub cascade : Option ℕ → ℕ → ℕ → ℕ → List Timed → Result Pushed
cascade audio k applied shift [] = ok (untouched [])
cascade audio k applied shift (c ∷ rest) =
    let dur = c.end - c.start in
    let start = c.start + shift in
    let pushed_end = start + min_dur in
    let onward = cascade audio (k + 1) (applied + shift) (asked_shift pushed_end rest) rest in
    if leb shift eps
    then ok (untouched (c ∷ rest))
    else if past_audio audio start
    then raise
        (record { index = k; requested = applied + shift; applied = applied; residual = shift })
    else if leb (start + min_dur) (c.end + eps)
    then ok (record_hop k dur true (untouched (record { start = start; end = c.end } ∷ rest)))
    else map_result
        (λ p.
          record_hop k dur (ltb (min_dur + eps) dur)
            (push_front (record { start = start; end = pushed_end }) p))
        onward
