-- ===== src/Reflow/Spans/Pauses.antt =====
-- `split_spans` of reflow.py cuts exactly at the long pauses.
use mathlib.Core.List.{flatten}
use dub_titlerr.Prelude.{
  ℕ, ◌+◌, ◌≤◌, ◌<◌, ◌≡◌, refl, inl, inr, Bool-cases, false, List, [], ◌∷◌, ◌++◌, append_assoc,
  arith,
}
use dub_titlerr.Reflow.{Word, gap_max}
use dub_titlerr.Reflow.Glue.{first_start, last_end}
use dub_titlerr.Reflow.Spans.{close, breaks, spans_from, split_spans}

flatten-close :
    (cur : List Word) (spans : List (List Word)) → flatten (close cur spans) ≡ cur ++ flatten spans
unfolding flatten
flatten-close [] spans = refl
flatten-close (w ∷ ws) spans = refl

flatten-spans_from : (cur ws : List Word) → flatten (spans_from cur ws) ≡ cur ++ ws
unfolding spans_from flatten
flatten-spans_from cur [] = flatten-close cur []
flatten-spans_from cur (w ∷ ws) = elim (Bool-cases (breaks cur w)) [
  | inl e ↦ rw (e, flatten-close, flatten-spans_from (w ∷ []) ws)
  | inr e ↦ rw (e, flatten-spans_from (cur ++ w ∷ []) ws, append_assoc)
]

-- Within a span every pause is at most GAP_MAX.
abbrev pub IsJoined : List Word → Type 0
IsJoined [] = ⊥
IsJoined (w ∷ []) = Unit
IsJoined (v ∷ w ∷ ws) = (w.start ≤ v.end + gap_max) × IsJoined (w ∷ ws)

abbrev pub AllJoined : List (List Word) → Type 0
AllJoined [] = Unit
AllJoined (s ∷ ss) = IsJoined s × AllJoined ss

-- Between two spans the pause is longer.
abbrev pub AreApart : List (List Word) → Type 0
AreApart [] = Unit
AreApart (a ∷ []) = Unit
AreApart (a ∷ b ∷ ss) = (last_end a + gap_max < first_start b) × AreApart (b ∷ ss)

IsJoined-snoc :
    (c : Word) (cur : List Word) (w : Word)
    → IsJoined (c ∷ cur)
    → breaks (c ∷ cur) w ≡ false
    → IsJoined (c ∷ cur ++ w ∷ [])
IsJoined-snoc c [] w j e = (ground arith, tt)
IsJoined-snoc c (d ∷ cur) w j e = (j.0, IsJoined-snoc d cur w j.1 e)

AllJoined-spans_from :
    (c : Word) (cur ws : List Word) → IsJoined (c ∷ cur) → AllJoined (spans_from (c ∷ cur) ws)
unfolding spans_from
AllJoined-spans_from c cur [] j = (j, tt)
AllJoined-spans_from c cur (w ∷ ws) j = elim (Bool-cases (breaks (c ∷ cur) w)) [
  | inl e ↦ rw e (j, AllJoined-spans_from w [] ws tt)
  | inr e ↦ rw e (AllJoined-spans_from c (cur ++ w ∷ []) ws (IsJoined-snoc c cur w j e))
]

-- The first span starts with the word that `cur` starts with.
abbrev FirstAt : ℕ → List (List Word) → Type 0
FirstAt n [] = ⊥
FirstAt n (s ∷ ss) = first_start s ≡ n

FirstAt-spans_from : (c : Word) (cur ws : List Word) → FirstAt c.start (spans_from (c ∷ cur) ws)
unfolding spans_from
FirstAt-spans_from c cur [] = refl
FirstAt-spans_from c cur (w ∷ ws) = elim (Bool-cases (breaks (c ∷ cur) w)) [
  | inl e ↦ rw e
  | inr e ↦ rw e (FirstAt-spans_from c (cur ++ w ∷ []) ws)
]

AreApart-cons :
    (a : List Word) (w : Word) (ss : List (List Word))
    → last_end a + gap_max < w.start
    → FirstAt w.start ss
    → AreApart ss
    → AreApart (a ∷ ss)
AreApart-cons a w [] h f p = tt
AreApart-cons a w (s ∷ ss) h f p = (omega arith, p)

AreApart-spans_from : (c : Word) (cur ws : List Word) → AreApart (spans_from (c ∷ cur) ws)
unfolding spans_from
AreApart-spans_from c cur [] = tt
AreApart-spans_from c cur (w ∷ ws) = elim (Bool-cases (breaks (c ∷ cur) w)) [
  | inl e ↦ rw e (
      AreApart-cons (c ∷ cur) w (spans_from (w ∷ []) ws) (ground arith) (FirstAt-spans_from w [] ws)
        (AreApart-spans_from w [] ws))
  | inr e ↦ rw e (AreApart-spans_from c (cur ++ w ∷ []) ws)
]

-- The spans hold the words in order and are not empty; a pause inside a span is at most GAP_MAX,
-- and a pause between two spans is longer.
pub split_spans_exact :
    (words : List Word)
    → (flatten (split_spans words) ≡ words)
      × AllJoined (split_spans words)
      × AreApart (split_spans words)
unfolding split_spans spans_from
split_spans_exact [] = (flatten-spans_from [] [], tt, tt)
split_spans_exact (w ∷ ws) =
    (flatten-spans_from [] (w ∷ ws), AllJoined-spans_from w [] ws tt, AreApart-spans_from w [] ws)
