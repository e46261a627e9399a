-- ===== src/Reflow/Run/Shown.antt =====
-- The display times of the cards that `reflow` of reflow.py returns.
use dub_titlerr.Prelude.{ℕ, ◌≤◌, ◌≡◌, refl, inl, inr, Option, none, some, List, [], ◌∷◌}
use dub_titlerr.Reflow.{RawWord, Word, Segment}
use dub_titlerr.Reflow.Cascade.{Timed, ok, OnOk}
use dub_titlerr.Reflow.Cascade.Push.{OnOk-eq, Result-cases, AllWithin}
use dub_titlerr.Reflow.Timing.{time_cards}
use dub_titlerr.Reflow.Timing.Promise.{IsTimed, OnsetsKept, time_cards-IsReadable}
use dub_titlerr.Reflow.Normalize.{normalize, clamp_to_segments, dejitter}
use dub_titlerr.Reflow.Spans.{split_spans}
use dub_titlerr.Reflow.Merge.{Group, merge_runts}
use dub_titlerr.Reflow.Run.{Card, Reflowed, groups_of, finish, time_groups, reflow}

module _ {ℓ} {C : Type ℓ} where
  -- The display times of the cards.
  abbrev pub times : List (Card C) → List Timed
  times [] = []
  times (c ∷ cs) = record { start = c.start; end = c.end } ∷ times cs

  -- No card is shown before the speech that it stands for.
  abbrev pub NoneEarly : List (Card C) → Type 0
  NoneEarly [] = Unit
  NoneEarly (c ∷ cs) = (c.source_start ≤ c.start) × NoneEarly cs

  abbrev pub AreShown : Option ℕ → List (Card C) → Type 0
  AreShown audio cards = IsTimed audio (times cards) × AllWithin (times cards) × NoneEarly cards

module _ {ℓ} {C : Type ℓ} (card_confidence : List Word → List Segment → C) where
  times-finish :
      (segments : List Segment) (prev : Option Group) (ts : List Timed) (gs : List Group)
      → OnsetsKept gs ts
      → times (finish card_confidence segments prev ts gs) ≡ ts
  unfolding finish
  times-finish segments prev [] [] h = refl
  times-finish segments prev [] (g ∷ gs) h = refl
  times-finish segments prev (t ∷ ts) [] h = absurd h
  times-finish segments prev (t ∷ ts) (g ∷ gs) h = rw (times-finish segments (some g) ts gs h.1)

  NoneEarly-finish :
      (segments : List Segment) (prev : Option Group) (ts : List Timed) (gs : List Group)
      → OnsetsKept gs ts
      → NoneEarly (finish card_confidence segments prev ts gs)
  unfolding finish
  NoneEarly-finish segments prev [] gs h = tt
  NoneEarly-finish segments prev (t ∷ ts) [] h = tt
  NoneEarly-finish segments prev (t ∷ ts) (g ∷ gs) h =
      (h.0, NoneEarly-finish segments (some g) ts gs h.1)

  AreShown-time_groups :
      (audio : Option ℕ) (segments : List Segment) (gs : List Group)
      → OnOk (λ r. AreShown audio r.cards) (time_groups card_confidence audio segments gs)
  unfolding time_groups
  AreShown-time_groups audio segments [] = (tt, tt, tt)
  AreShown-time_groups audio segments (g ∷ gs) =
      let m = merge_runts (g ∷ gs) in
      elim (Result-cases (time_cards m.out audio)) [
        | inl (t, e) ↦
            let h = time_cards-IsReadable m.out audio t e in
            rw e (
              rw (times-finish segments none t.cards m.out h.2) h.0,
              rw (times-finish segments none t.cards m.out h.2) h.1,
              NoneEarly-finish segments none t.cards m.out h.2,
            )
        | inr (x, e) ↦ rw e tt
      ]

  -- Where reflow returns cards, none is shown before its first word is spoken or for longer than
  -- MAX_DUR; each but the last is shown for MIN_DUR at least and ends MIN_GAP before the next
  -- one, up to EPS; the last is shown for MIN_DUR too or ends with the audio, and does not end
  -- after the audio by more than EPS unless it starts within EPS of the audio's end.
  pub reflow-AreShown :
      (words : List RawWord) (segments : List Segment) (audio : Option ℕ) (r : Reflowed C)
      → reflow card_confidence words segments audio ≡ ok r
      → AreShown audio r.cards
  unfolding reflow
  reflow-AreShown words segments audio r e =
      let groups =
        groups_of (split_spans (dejitter (clamp_to_segments segments (normalize words)))) in
      OnOk-eq (λ r. AreShown audio r.cards) (AreShown-time_groups audio segments groups) e
