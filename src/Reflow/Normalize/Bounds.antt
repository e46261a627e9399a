-- ===== src/Reflow/Normalize/Bounds.antt =====
-- `_normalize` and `_clamp_to_segments` of reflow.py: no time is missing, no word ends before it
-- starts, and a word lies in its segment.
use dub_titlerr.Prelude.{
  ℕ, ◌≤◌, ◌≡◌, ◌⊎◌, refl, ap, inl, inr, Bool-cases, Option-cases, leb→le, Option, none, some, true,
  List, [], ◌∷◌, get_elem?, leb, min, max, arith, if◌then◌else◌,
}
use dub_titlerr.Reflow.{RawWord, Word, Segment}
use dub_titlerr.Reflow.Normalize.{
  filled, normalize_from, normalize, clamp_between, clamp_word, clamp_to_segments,
}

-- A given time that is used as it stands, or a missing one.
abbrev pub Given : Option ℕ → ℕ → Type 0
Given none t = Unit
Given (some s) t = t ≡ s

-- A word and what it is filled to: the same text, segment and probability, the given start, and
-- an end that is the given one, unless that lies before the start.
abbrev pub IsFilled : RawWord → Word → Type 0
IsFilled r w =
    (w.text ≡ r.text)
    × (w.seg ≡ r.seg)
    × (w.prob ≡ r.prob)
    × Given r.start w.start
    × (w.start ≤ w.end)
    × (Given r.end w.end ⊎ (w.end ≡ w.start))

abbrev pub AllFilled : List RawWord → List Word → Type 0
AllFilled [] [] = Unit
AllFilled [] (w ∷ ws) = ⊥
AllFilled (r ∷ rs) [] = ⊥
AllFilled (r ∷ rs) (w ∷ ws) = IsFilled r w × AllFilled rs ws

IsFilled-filled : (t : ℕ) (r : RawWord) → IsFilled r (filled t r)
unfolding filled
IsFilled-filled t r = ground arith

AllFilled-normalize_from : (t : ℕ) (rs : List RawWord) → AllFilled rs (normalize_from t rs)
unfolding normalize_from
AllFilled-normalize_from t [] = tt
AllFilled-normalize_from t (r ∷ rs) =
    (IsFilled-filled t r, AllFilled-normalize_from (filled t r).end rs)

abbrev pub AllOrdered : List Word → Type 0
AllOrdered [] = Unit
AllOrdered (w ∷ ws) = (w.start ≤ w.end) × AllOrdered ws

-- Normalising keeps each word's text, segment, probability and given start, and its given end
-- unless it lies before the start; each word then ends at its start or later.
pub normalize-AllFilled : (words : List RawWord) → AllFilled words (normalize words)
unfolding normalize
normalize-AllFilled words = AllFilled-normalize_from 0 words

pub AllOrdered-AllFilled : (rs : List RawWord) (ws : List Word) → AllFilled rs ws → AllOrdered ws
AllOrdered-AllFilled [] [] h = tt
AllOrdered-AllFilled [] (w ∷ ws) h = absurd h
AllOrdered-AllFilled (r ∷ rs) [] h = absurd h
AllOrdered-AllFilled (r ∷ rs) (w ∷ ws) h = (omega arith, AllOrdered-AllFilled rs ws h.1)

-- The word lies in the bounds of a segment, if it has both, in the right order.
abbrev pub Inside : Option ℕ → Option ℕ → Word → Type 0
Inside (some lo) (some hi) w = if leb lo hi then (lo ≤ w.start) × (w.end ≤ hi) else Unit
Inside _ _ w = Unit

-- What clamping makes of the word `w`, for the bounds of its segment.
abbrev pub IsClamped : Option ℕ → Option ℕ → Word → Word → Type 0
IsClamped lo hi w v = (v.text ≡ w.text) × (v.seg ≡ w.seg) × (v.start ≤ v.end) × Inside lo hi v

abbrev pub InSegment : Option Segment → Word → Word → Type 0
InSegment none w v = v ≡ w
InSegment (some s) w v = IsClamped s.start s.end w v

abbrev pub AllClamped : List Segment → List Word → List Word → Type 0
AllClamped segments [] [] = Unit
AllClamped segments [] (v ∷ vs) = ⊥
AllClamped segments (w ∷ ws) [] = ⊥
AllClamped segments (w ∷ ws) (v ∷ vs) =
    InSegment (get_elem? segments w.seg) w v × AllClamped segments ws vs

IsClamped-clamp_between :
    (lo hi : Option ℕ) (w : Word) → w.start ≤ w.end → IsClamped lo hi w (clamp_between lo hi w)
IsClamped-clamp_between none hi w h = (refl, refl, h, tt)
IsClamped-clamp_between (some lo) none w h = (refl, refl, h, tt)
IsClamped-clamp_between (some lo) (some hi) w h = elim (Bool-cases (leb lo hi)) [
  | inl e ↦ rw e (refl, refl, omega arith, (bounds lo hi e, omega arith))
  | inr e ↦ rw e (refl, refl, h, tt)
]
  where
    bounds : (a b : ℕ) → leb a b ≡ true → a ≤ min (max w.start a) b
    bounds a b e = omega (arith, leb→le a b e)

InSegment-clamp_word :
    (segments : List Segment) (w : Word)
    → w.start ≤ w.end
    → InSegment (get_elem? segments w.seg) w (clamp_word segments w)
unfolding clamp_word
InSegment-clamp_word segments w h = elim (Option-cases (get_elem? segments w.seg)) [
  | inl e ↦ rw (e, clamp_word) refl
  | inr (s, e) ↦ rw (e, clamp_word) (IsClamped-clamp_between s.start s.end w h)
]

-- Clamping words that end at their starts or later leaves a word with no segment as it is; it
-- keeps the text and segment of any other word, which still ends at its start or later, and if
-- its segment has both bounds, in the right order, the word lies within them.
pub clamp_to_segments-AllClamped :
    (segments : List Segment) (words : List Word)
    → AllOrdered words
    → AllClamped segments words (clamp_to_segments segments words)
unfolding clamp_to_segments
clamp_to_segments-AllClamped segments [] h = tt
clamp_to_segments-AllClamped segments (w ∷ ws) h =
    (InSegment-clamp_word segments w h.0, clamp_to_segments-AllClamped segments ws h.1)

pub text-InSegment : (s : Option Segment) (w v : Word) → InSegment s w v → v.text ≡ w.text
text-InSegment none w v h = ap (λ x. x.text) h
text-InSegment (some s) w v h = h.0
