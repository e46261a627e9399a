-- ===== src/Reflow/Timing/Spacing.antt =====
-- What `time_cards` of reflow.py promises of the cards' display times.
use dub_titlerr.Prelude.{
  ℕ, zero, suc, ◌+◌, ◌-◌, ◌≤◌, ◌≡◌, inl, inr, Bool-cases, max, Option, true, false, ltb→lt, List,
  [], ◌∷◌, length, arith, ltb,
}
use dub_titlerr.Reflow.{min_dur, min_gap, eps}
use dub_titlerr.Reflow.Cascade.{Timed, ok, OnOk, Pushed, cascade, asked_shift}
use dub_titlerr.Reflow.Cascade.Push.{
  OnOk-map, OnOk-mono, Result-cases, OnOk-eq, IsLater, length-IsLater, cascade-IsLater, StartsAt,
  cascade-StartsAt,
}
use dub_titlerr.Reflow.Timing.{Timings, stolen, logged, steal_record, steal_forward}

-- The standard gap, up to EPS, before the first of `cards`.
abbrev pub GapBefore : ℕ → List Timed → Type 0
GapBefore end [] = Unit
GapBefore end (d ∷ ds) = end + min_gap ≤ d.start + eps

-- Each card lasts MIN_DUR, and keeps the gap to the next one.
abbrev pub IsSpaced : List Timed → Type 0
IsSpaced [] = Unit
IsSpaced (c ∷ cs) = (c.start + min_dur ≤ c.end) × GapBefore c.end cs × IsSpaced cs

-- The push makes room for a card that has to last until `need`.
GapBefore-pushed :
    (need : ℕ) (audio : Option ℕ) (j : ℕ) (rest : List Timed) (p : Pushed)
    → ltb eps (asked_shift need rest) ≡ true
    → cascade audio j 0 (asked_shift need rest) rest ≡ ok p
    → GapBefore need p.cards
GapBefore-pushed need audio j [] p h e = cc
GapBefore-pushed need audio j (d ∷ ds) p h e = room p.cards (
    OnOk-eq (λ p. StartsAt (d.start + shift) p.cards)
      (cascade-StartsAt audio j 0 shift d ds (ltb→lt _ _ h)) e)
  where
    shift : ℕ
    shift = need + min_gap - d.start

    room : (cards : List Timed) → StartsAt (d.start + shift) cards → GapBefore need cards
    room [] s = tt
    room (x ∷ xs) s = omega arith

GapBefore-free :
    (need : ℕ) (rest : List Timed) → ltb eps (asked_shift need rest) ≡ false → GapBefore need rest
GapBefore-free need [] h = tt
GapBefore-free need (d ∷ ds) h = ground arith

-- What one more round does, on both ways through it.
module _ {ℓ} (P : Timings → Type ℓ) (audio : Option ℕ) (rounds j : ℕ) (c : Timed)
    (rest : List Timed) where
  abbrev pub need : ℕ
  need = max c.end (c.start + min_dur)

  abbrev pub done : Timed
  done = record { start = c.start; end = need }

  pub steal_round :
      (ltb eps (asked_shift need rest) ≡ false
        → OnOk (λ t. P (stolen done t)) (steal_forward audio rounds (j + 1) rest))
      → ((p : Pushed)
          → ltb eps (asked_shift need rest) ≡ true
          → cascade audio (j + 1) 0 (asked_shift need rest) rest ≡ ok p
          → OnOk
              (λ t. P (
                logged
                  (steal_record j (asked_shift need rest) (asked_shift c.end rest) p)
                  (stolen done t)))
              (steal_forward audio rounds (j + 1) p.cards))
      → OnOk P (steal_forward audio (suc rounds) j (c ∷ rest))
  unfolding steal_forward
  steal_round free pushed = elim (Bool-cases (ltb eps (asked_shift need rest))) [
    | inr e ↦
        rw (e, steal_forward)
          (OnOk-map P (stolen done) (steal_forward audio rounds (j + 1) rest) (free e))
    | inl e ↦ elim (Result-cases (cascade audio (j + 1) 0 (asked_shift need rest) rest)) [
      | inl (p, e') ↦
          rw (e, e', steal_forward)
            (OnOk-map P
              (λ t.
                logged (steal_record j (asked_shift need rest) (asked_shift c.end rest) p)
                  (stolen done t))
              (steal_forward audio rounds (j + 1) p.cards) (pushed p e e'))
      | inr (x, e') ↦ rw (e, e', steal_forward) tt
    ]
  ]

-- The cards come out spaced, and the first of them starts where it did.
abbrev pub SpacedAs : List Timed → Timings → Type 0
SpacedAs cards t = IsSpaced t.cards × ((e : ℕ) → GapBefore e cards → GapBefore e t.cards)

pub steal-IsSpaced :
    (audio : Option ℕ) (rounds j : ℕ) (cards : List Timed)
    → length cards ≤ rounds
    → OnOk (SpacedAs cards) (steal_forward audio rounds j cards)
unfolding steal_forward
steal-IsSpaced audio zero j [] l = (tt, λ e g. tt)
steal-IsSpaced audio zero j (c ∷ rest) l = absurd (omega arith)
steal-IsSpaced audio (suc rounds) j [] l = (tt, λ e g. tt)
steal-IsSpaced audio (suc rounds) j (c ∷ rest) l =
    steal_round (SpacedAs (c ∷ rest)) audio rounds j c rest
      (λ h.
        OnOk-mono (steal_forward audio rounds (j + 1) rest)
          (λ t q. ((omega arith, q.1 need' (GapBefore-free need' rest h), q.0), λ e g. g))
          (steal-IsSpaced audio rounds (j + 1) rest (omega arith)))
      (λ p h e'.
        OnOk-mono (steal_forward audio rounds (j + 1) p.cards)
          (λ t q. (
            (omega arith, q.1 need' (GapBefore-pushed need' audio (j + 1) rest p h e'), q.0),
            λ e g. g,
          ))
          (steal-IsSpaced audio rounds (j + 1) p.cards (omega (arith, length-pushed p e'))))
  where
    need' : ℕ
    need' = max c.end (c.start + min_dur)

    length-pushed :
        (p : Pushed)
        → cascade audio (j + 1) 0 (asked_shift need' rest) rest ≡ ok p
        → length p.cards ≡ length rest
    length-pushed p e' = length-IsLater rest p.cards (
        OnOk-eq (λ p. IsLater rest p.cards)
          (cascade-IsLater audio (j + 1) 0 (asked_shift need' rest) rest) e')
