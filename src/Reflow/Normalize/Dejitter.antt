-- ===== src/Reflow/Normalize/Dejitter.antt =====
-- `_dejitter` of reflow.py closes the long gaps within a segment, by moving words later only.
use dub_titlerr.Prelude.{
  ap, ℕ, ◌+◌, ◌≤◌, ◌≡◌, ◌≢◌, ◌⊎◌, refl, inl, inr, Bool-cases, List, [], ◌∷◌, ◌++◌, append_assoc,
  ◌==◌, arith,
}
use dub_titlerr.Reflow.{Word, dejitter_gap}
use dub_titlerr.Reflow.Normalize.{later, all_later, gap_to, close_gaps, dejitter}

-- Two words in a row: of different segments, or with no long gap between them.
abbrev Close : Word → Word → Type 0
Close v w = (v.seg ≢ w.seg) ⊎ (w.start ≤ v.end + dejitter_gap)

abbrev pub AllClose : List Word → Type 0
AllClose [] = Unit
AllClose (w ∷ []) = Unit
AllClose (v ∷ w ∷ ws) = Close v w × AllClose (w ∷ ws)

AllClose-all_later : (gap : ℕ) (ws : List Word) → AllClose ws → AllClose (all_later gap ws)
AllClose-all_later gap [] h = tt
AllClose-all_later gap (w ∷ []) h = tt
AllClose-all_later gap (v ∷ w ∷ ws) h = (ground arith, AllClose-all_later gap (w ∷ ws) h.1)

AllClose-join :
    (early : List Word) (last : Word) (r : Word) (rs : List Word)
    → AllClose (early ++ last ∷ [])
    → Close last r
    → AllClose (r ∷ rs)
    → AllClose (early ++ last ∷ r ∷ rs)
AllClose-join [] last r rs h c k = (c, k)
AllClose-join (e ∷ []) last r rs h c k = (h.0, (c, k))
AllClose-join (e ∷ f ∷ es) last r rs h c k = (h.0, AllClose-join (f ∷ es) last r rs h.1 c k)

all_later-snoc :
    (gap : ℕ) (ws : List Word) (w : Word)
    → all_later gap (ws ++ w ∷ []) ≡ all_later gap ws ++ later gap w ∷ []
all_later-snoc gap [] w = refl
all_later-snoc gap (v ∷ ws) w = ap (λ r. later gap v ∷ r) (all_later-snoc gap ws w)

-- The first word of a list, by its segment.
abbrev StartsIn : ℕ → List Word → Type 0
StartsIn s [] = ⊥
StartsIn s (w ∷ ws) = w.seg ≡ s

StartsIn-close_gaps :
    (s : ℕ) (early : List Word) (last : Word) (ws : List Word)
    → StartsIn s (early ++ last ∷ [])
    → StartsIn s (close_gaps early last ws)
unfolding close_gaps
StartsIn-close_gaps s early last [] h = h
StartsIn-close_gaps s [] last (n ∷ ws) h = elim (Bool-cases (n.seg == last.seg)) [
  | inl e ↦ rw e (StartsIn-close_gaps s (later (gap_to last n) last ∷ []) n ws h)
  | inr e ↦ rw e h
]
StartsIn-close_gaps s (f ∷ early) last (n ∷ ws) h = elim (Bool-cases (n.seg == last.seg)) [
  | inl e ↦ rw e (
      StartsIn-close_gaps s
        (later (gap_to last n) f ∷ all_later (gap_to last n) early
          ++ later (gap_to last n) last ∷ [])
        n ws h)
  | inr e ↦ rw e h
]

AllClose-next :
    (early : List Word) (last : Word) (rest : List Word) (s : ℕ)
    → AllClose (early ++ last ∷ [])
    → last.seg ≢ s
    → StartsIn s rest
    → AllClose rest
    → AllClose (early ++ last ∷ rest)
AllClose-next early last [] s h n st k = absurd st
AllClose-next early last (r ∷ rs) s h n st k =
    AllClose-join early last r rs h (inl (ground arith)) k

AllClose-close_gaps :
    (early : List Word) (last : Word) (ws : List Word)
    → AllClose (early ++ last ∷ [])
    → AllClose (close_gaps early last ws)
unfolding close_gaps
AllClose-close_gaps early last [] h = h
AllClose-close_gaps early last (n ∷ ws) h = elim (Bool-cases (n.seg == last.seg)) [
  | inl e ↦ rw e (
      AllClose-close_gaps (all_later (gap_to last n) early ++ later (gap_to last n) last ∷ []) n ws
        (rw append_assoc (
          AllClose-join (all_later (gap_to last n) early) (later (gap_to last n) last) n []
            (rw all_later-snoc at (AllClose-all_later (gap_to last n) (early ++ last ∷ []) h))
            (inr (ground arith)) tt)))
  | inr e ↦ rw e (
      AllClose-next early last (close_gaps [] n ws) n.seg h (ground arith)
        (StartsIn-close_gaps n.seg [] n ws refl) (AllClose-close_gaps [] n ws tt))
]

-- The words with the same texts and durations, each at its old place or later.
abbrev pub AllMoved : List Word → List Word → Type 0
AllMoved [] [] = Unit
AllMoved [] (v ∷ vs) = ⊥
AllMoved (w ∷ ws) [] = ⊥
AllMoved (w ∷ ws) (v ∷ vs) =
    ((v.text ≡ w.text)
      × (v.seg ≡ w.seg)
      × (w.start ≤ v.start)
      × (v.start + w.end ≡ w.start + v.end))
    × AllMoved ws vs

AllMoved-refl : (ws : List Word) → AllMoved ws ws
AllMoved-refl [] = tt
AllMoved-refl (w ∷ ws) = ((refl, refl, omega arith, omega arith), AllMoved-refl ws)

AllMoved-trans : (us vs ws : List Word) → AllMoved us vs → AllMoved vs ws → AllMoved us ws
AllMoved-trans [] [] [] h k = tt
AllMoved-trans [] [] (w ∷ ws) h k = k
AllMoved-trans [] (v ∷ vs) ws h k = absurd h
AllMoved-trans (u ∷ us) [] ws h k = absurd h
AllMoved-trans (u ∷ us) (v ∷ vs) [] h k = absurd k
AllMoved-trans (u ∷ us) (v ∷ vs) (w ∷ ws) h k =
    ((cc, cc, omega arith, omega arith), AllMoved-trans us vs ws h.1 k.1)

AllMoved-append :
    (us vs xs ys : List Word) → AllMoved us vs → AllMoved xs ys → AllMoved (us ++ xs) (vs ++ ys)
AllMoved-append [] [] xs ys h k = k
AllMoved-append [] (v ∷ vs) xs ys h k = absurd h
AllMoved-append (u ∷ us) [] xs ys h k = absurd h
AllMoved-append (u ∷ us) (v ∷ vs) xs ys h k = (h.0, AllMoved-append us vs xs ys h.1 k)

AllMoved-all_later : (gap : ℕ) (ws : List Word) → AllMoved ws (all_later gap ws)
AllMoved-all_later gap [] = tt
AllMoved-all_later gap (w ∷ ws) =
    ((refl, refl, omega arith, omega arith), AllMoved-all_later gap ws)

AllMoved-close_gaps :
    (early : List Word) (last : Word) (ws : List Word)
    → AllMoved (early ++ last ∷ ws) (close_gaps early last ws)
unfolding close_gaps
AllMoved-close_gaps early last [] = AllMoved-refl (early ++ last ∷ [])
AllMoved-close_gaps early last (n ∷ ws) = elim (Bool-cases (n.seg == last.seg)) [
  | inl e ↦ rw e (
      AllMoved-trans (early ++ last ∷ n ∷ ws)
        ((all_later (gap_to last n) early ++ later (gap_to last n) last ∷ []) ++ n ∷ ws) _
        (rw append_assoc (
          AllMoved-append early (all_later (gap_to last n) early) (last ∷ n ∷ ws)
            (later (gap_to last n) last ∷ n ∷ ws) (AllMoved-all_later (gap_to last n) early)
            ((refl, refl, omega arith, omega arith), AllMoved-refl (n ∷ ws))))
        (AllMoved-close_gaps (all_later (gap_to last n) early ++ later (gap_to last n) last ∷ []) n
          ws))
  | inr e ↦ rw e (
      AllMoved-append early early (last ∷ n ∷ ws) (last ∷ close_gaps [] n ws) (AllMoved-refl early)
        ((refl, refl, omega arith, omega arith), AllMoved-close_gaps [] n ws))
]

-- After dejittering no gap between two words in a row of one segment is longer than
-- DEJITTER_GAP; each word keeps its text, its segment and its length, and starts at its old
-- place or later.
pub dejitter_exact :
    (words : List Word) → AllClose (dejitter words) × AllMoved words (dejitter words)
unfolding dejitter
dejitter_exact [] = (tt, tt)
dejitter_exact (w ∷ ws) = (AllClose-close_gaps [] w ws tt, AllMoved-close_gaps [] w ws)
