-- ===== src/Reflow/Timing/Promise.antt =====
-- The promise of `time_cards` of reflow.py as a whole: spacing, bounds, onsets, and when it fails.
use dub_titlerr.Prelude.{
  ℕ, zero, suc, ◌+◌, ◌≤◌, ◌<◌, ◌≡◌, refl, ◌⊎◌, max, Option, some, none, List, [], ◌∷◌, length,
  arith,
}
use dub_titlerr.Reflow.{Word, min_dur, max_dur, min_gap, eps}
use dub_titlerr.Reflow.Glue.{first_start}
use dub_titlerr.Reflow.Cascade.{Timed, ok, OnOk, asked_shift}
use dub_titlerr.Reflow.Cascade.Push.{
  OnOk-map, OnOk-mono, OnOk-eq, IsLater, IsLater-refl, IsLater-trans, cascade-IsLater, AllWithin,
  cascade-AllWithin,
}
use dub_titlerr.Reflow.Timing.{
  Timings, steal_forward, capped_end, wanted_end, next_start, initial_times, time_cards, clamp_tail,
  then_clamp,
}
use dub_titlerr.Reflow.Timing.Spacing.{IsSpaced, steal_round, steal-IsSpaced}

capped_end-le :
    (st end : ℕ) (next : Option ℕ) → end ≤ st + max_dur → capped_end st end next ≤ st + max_dur
unfolding capped_end
capped_end-le st end next h = ground arith

wanted_end-le : (g : List Word) → wanted_end g ≤ first_start g + max_dur
unfolding wanted_end
wanted_end-le g = omega arith

initial_times-AllWithin : (groups : List (List Word)) → AllWithin (initial_times groups)
unfolding initial_times
initial_times-AllWithin [] = tt
initial_times-AllWithin (g ∷ gs) = (
  capped_end-le (first_start g) (wanted_end g) (next_start gs) (wanted_end-le g),
  initial_times-AllWithin gs,
)

pub length-initial_times :
    (groups : List (List Word)) → length (initial_times groups) ≡ length groups
unfolding initial_times
length-initial_times [] = refl
length-initial_times (g ∷ gs) = omega (arith, length-initial_times gs)

steal-AllWithin :
    (audio : Option ℕ) (rounds j : ℕ) (cards : List Timed)
    → AllWithin cards
    → OnOk (λ t. AllWithin t.cards) (steal_forward audio rounds j cards)
unfolding steal_forward
steal-AllWithin audio zero j cards h = h
steal-AllWithin audio (suc rounds) j [] h = tt
steal-AllWithin audio (suc rounds) j (c ∷ rest) h =
    steal_round (λ t. AllWithin t.cards) audio rounds j c rest
      (λ _.
        OnOk-mono (steal_forward audio rounds (j + 1) rest) (λ t q. (omega arith, q))
          (steal-AllWithin audio rounds (j + 1) rest h.1))
      (λ p _ e.
        OnOk-mono (steal_forward audio rounds (j + 1) p.cards) (λ t q. (omega arith, q))
          (steal-AllWithin audio rounds (j + 1) p.cards (
            OnOk-eq (λ p. AllWithin p.cards)
              (cascade-AllWithin audio (j + 1) 0 (asked_shift (max c.end (c.start + min_dur)) rest)
                rest h.1)
              e)))

pub steal-IsLater :
    (audio : Option ℕ) (rounds j : ℕ) (cards : List Timed)
    → OnOk (λ t. IsLater cards t.cards) (steal_forward audio rounds j cards)
unfolding steal_forward
steal-IsLater audio zero j cards = IsLater-refl cards
steal-IsLater audio (suc rounds) j [] = tt
steal-IsLater audio (suc rounds) j (c ∷ rest) =
    steal_round (λ t. IsLater (c ∷ rest) t.cards) audio rounds j c rest
      (λ _.
        OnOk-mono (steal_forward audio rounds (j + 1) rest) (λ t q. (omega arith, omega arith, q))
          (steal-IsLater audio rounds (j + 1) rest))
      (λ p _ e.
        OnOk-mono (steal_forward audio rounds (j + 1) p.cards)
          (λ t q. (
            omega arith,
            omega arith,
            IsLater-trans rest p.cards t.cards
                (OnOk-eq (λ p. IsLater rest p.cards)
                  (cascade-IsLater audio (j + 1) 0
                    (asked_shift (max c.end (c.start + min_dur)) rest) rest)
                  e)
                q,
          ))
          (steal-IsLater audio rounds (j + 1) p.cards))

-- What the last card may be: one of MIN_DUR at least, or one that the end of the audio cuts; in
-- both cases it ends in the audio, if it begins there.
abbrev pub InAudio : Option ℕ → Timed → Type 0
InAudio none c = Unit
InAudio (some audio) c = (c.end ≤ audio + eps) ⊎ (audio ≤ c.start + eps)

abbrev pub IsWhole : Option ℕ → Timed → Type 0
IsWhole none c = c.start + min_dur ≤ c.end
IsWhole (some audio) c = (c.start + min_dur ≤ c.end) ⊎ ((c.end ≡ audio) × (c.start + eps < audio))

-- Every card but the last one lasts MIN_DUR, and keeps the gap to the next card.
abbrev pub IsTimed : Option ℕ → List Timed → Type 0
IsTimed audio [] = Unit
IsTimed audio (c ∷ []) = IsWhole audio c × InAudio audio c
IsTimed audio (c ∷ d ∷ ds) =
    (c.start + min_dur ≤ c.end) × (c.end + min_gap ≤ d.start + eps) × IsTimed audio (d ∷ ds)

-- Each card starts with its group's first word or later.
abbrev pub OnsetsKept : List (List Word) → List Timed → Type 0
OnsetsKept [] [] = Unit
OnsetsKept [] (t ∷ ts) = ⊥
OnsetsKept (g ∷ gs) [] = ⊥
OnsetsKept (g ∷ gs) (t ∷ ts) = (first_start g ≤ t.start) × OnsetsKept gs ts

clamp_tail-IsTimed :
    (audio : Option ℕ) (j : ℕ) (cards : List Timed)
    → IsSpaced cards
    → IsTimed audio (clamp_tail audio j cards).cards
unfolding clamp_tail
clamp_tail-IsTimed none j [] h = tt
clamp_tail-IsTimed none j (c ∷ []) h = (h.0, tt)
clamp_tail-IsTimed none j (c ∷ d ∷ ds) h = (h.0, h.1, clamp_tail-IsTimed none j (d ∷ ds) h.2)
clamp_tail-IsTimed (some audio) j [] h = tt
clamp_tail-IsTimed (some audio) j (c ∷ []) h = ground arith
clamp_tail-IsTimed (some audio) j (c ∷ d ∷ []) h = ground arith
clamp_tail-IsTimed (some audio) j (c ∷ d ∷ e ∷ es) h =
    (h.0, h.1, clamp_tail-IsTimed (some audio) (j + 1) (d ∷ e ∷ es) h.2)

clamp_tail-AllWithin :
    (audio : Option ℕ) (j : ℕ) (cards : List Timed)
    → AllWithin cards
    → AllWithin (clamp_tail audio j cards).cards
unfolding clamp_tail
clamp_tail-AllWithin none j cards h = h
clamp_tail-AllWithin (some audio) j [] h = tt
clamp_tail-AllWithin (some audio) j (c ∷ []) h = ground arith
clamp_tail-AllWithin (some audio) j (c ∷ d ∷ ds) h =
    (h.0, clamp_tail-AllWithin (some audio) (j + 1) (d ∷ ds) h.1)

clamp_tail-OnsetsKept :
    (audio : Option ℕ) (j : ℕ) (groups : List (List Word)) (cards : List Timed)
    → OnsetsKept groups cards
    → OnsetsKept groups (clamp_tail audio j cards).cards
unfolding clamp_tail
clamp_tail-OnsetsKept none j groups cards h = h
clamp_tail-OnsetsKept (some audio) j groups [] h = h
clamp_tail-OnsetsKept (some audio) j [] (c ∷ cs) h = absurd h
clamp_tail-OnsetsKept (some audio) j (g ∷ []) (c ∷ []) h = ground arith
clamp_tail-OnsetsKept (some audio) j (g ∷ f ∷ fs) (c ∷ []) h = absurd h.1
clamp_tail-OnsetsKept (some audio) j (g ∷ gs) (c ∷ d ∷ ds) h =
    (h.0, clamp_tail-OnsetsKept (some audio) (j + 1) gs (d ∷ ds) h.1)

OnsetsKept-IsLater :
    (groups : List (List Word)) (cards : List Timed)
    → IsLater (initial_times groups) cards
    → OnsetsKept groups cards
unfolding initial_times
OnsetsKept-IsLater [] [] h = tt
OnsetsKept-IsLater [] (c ∷ cs) h = h
OnsetsKept-IsLater (g ∷ gs) [] h = h
OnsetsKept-IsLater (g ∷ gs) (c ∷ cs) h = (h.0, OnsetsKept-IsLater gs cs h.2)

pub IsTimed-time_cards :
    (groups : List (List Word)) (audio : Option ℕ)
    → OnOk (λ t. IsTimed audio t.cards) (time_cards groups audio)
unfolding time_cards
IsTimed-time_cards groups audio =
    let cards = initial_times groups in
    OnOk-map (λ t. IsTimed audio t.cards) (then_clamp audio)
      (steal_forward audio (length groups) 0 cards)
      (OnOk-mono (steal_forward audio (length groups) 0 cards)
        (λ t q. clamp_tail-IsTimed audio 0 t.cards q.0)
        (steal-IsSpaced audio (length groups) 0 cards (omega (arith, length-initial_times groups))))

pub AllWithin-time_cards :
    (groups : List (List Word)) (audio : Option ℕ)
    → OnOk (λ t. AllWithin t.cards) (time_cards groups audio)
unfolding time_cards
AllWithin-time_cards groups audio =
    let cards = initial_times groups in
    OnOk-map (λ t. AllWithin t.cards) (then_clamp audio)
      (steal_forward audio (length groups) 0 cards)
      (OnOk-mono (steal_forward audio (length groups) 0 cards)
        (λ t q. clamp_tail-AllWithin audio 0 t.cards q)
        (steal-AllWithin audio (length groups) 0 cards (initial_times-AllWithin groups)))

pub OnsetsKept-time_cards :
    (groups : List (List Word)) (audio : Option ℕ)
    → OnOk (λ t. OnsetsKept groups t.cards) (time_cards groups audio)
unfolding time_cards
OnsetsKept-time_cards groups audio =
    let cards = initial_times groups in
    OnOk-map (λ t. OnsetsKept groups t.cards) (then_clamp audio)
      (steal_forward audio (length groups) 0 cards)
      (OnOk-mono (steal_forward audio (length groups) 0 cards)
        (λ t q. clamp_tail-OnsetsKept audio 0 groups t.cards (OnsetsKept-IsLater groups t.cards q))
        (steal-IsLater audio (length groups) 0 cards))

abbrev pub IsReadable : List (List Word) → Option ℕ → List Timed → Type 0
IsReadable groups audio cards = IsTimed audio cards × AllWithin cards × OnsetsKept groups cards

-- Where time_cards returns, there is one time for each group; no card starts before its group's
-- first word or lasts longer than MAX_DUR; each but the last lasts MIN_DUR at least and ends
-- MIN_GAP before the next one starts, up to EPS; the last one lasts MIN_DUR too or ends with the
-- audio, and does not end after the audio by more than EPS unless it starts within EPS of the
-- audio's end.
pub time_cards-IsReadable :
    (groups : List (List Word)) (audio : Option ℕ) (t : Timings)
    → time_cards groups audio ≡ ok t
    → IsReadable groups audio t.cards
time_cards-IsReadable groups audio t e = (
  OnOk-eq (λ t. IsTimed audio t.cards) (IsTimed-time_cards groups audio) e,
  OnOk-eq (λ t. AllWithin t.cards) (AllWithin-time_cards groups audio) e,
  OnOk-eq (λ t. OnsetsKept groups t.cards) (OnsetsKept-time_cards groups audio) e,
)
