-- ===== src/Reflow/Pieces/Interior.antt =====
-- `_best_split_index` of reflow.py is an interior index, on each of its tiers.
use mathlib.Core.Option
use dub_titlerr.Prelude.{
  ℕ, ◌+◌, ◌≤◌, ◌<◌, ◌≡◌, refl, inl, inr, Bool, Bool-cases, true, false, ◌&&◌, Option, some, none,
  List, [], ◌∷◌, length, arith, if◌then◌else◌,
}
use dub_titlerr.Prelude.Int.{ℤ}
use dub_titlerr.Reflow.{Word}
use dub_titlerr.Reflow.Glue.{text_of}
use dub_titlerr.Reflow.Pieces.{
  gaps, Pause, better_pause, largest_pause, pause_among, pause_index, off_middle, nearer,
  ends_clause, clause_from, clause_index, boundary_from, best_split_index, or_else,
}

abbrev pub Within : ℕ → ℕ → Type 0
Within n i = (1 ≤ i) × (i < n)

abbrev pub IfSome : (ℕ → Type 0) → Option ℕ → Type 0
IfSome P none = Unit
IfSome P (some i) = P i

length-gaps : (v : Word) (ws : List Word) → length (gaps (v ∷ ws)) ≡ length ws
unfolding gaps
length-gaps v [] = refl
length-gaps v (w ∷ ws) = omega (arith, length-gaps w ws)

Within-if :
    (n : ℕ) (b : Bool) (p q : Pause)
    → Within n p.index
    → Within n q.index
    → Within n (if b then p else q).index
Within-if n true p q h k = h
Within-if n false p q h k = k

largest_pause-Within :
    (n m i : ℕ) (best : Pause) (gs : List ℤ)
    → Within n best.index
    → 1 ≤ i
    → i + length gs ≤ n
    → Within n (largest_pause m i best gs).index
unfolding largest_pause
largest_pause-Within n m i best [] h p l = h
largest_pause-Within n m i best (g ∷ gs) h p l =
    let next : Pause = record { gap = g; index = i } in
    largest_pause-Within n m (i + 1) (if better_pause m next best then next else best) gs
      (Within-if n (better_pause m next best) next best (omega arith) h) (omega arith) (omega arith)

pause_among-Within :
    (n m : ℕ) (gs : List ℤ) → 1 + length gs ≤ n → IfSome (Within n) (pause_among m gs)
unfolding pause_among
pause_among-Within n m [] l = tt
pause_among-Within n m (g ∷ gs) l = ground (
  arith,
  largest_pause-Within n m 2 (record { gap = g; index = 1 }) gs (omega arith) (omega arith)
      (omega arith),
)

pause_index-Within :
    (v : Word) (ws : List Word) → IfSome (Within (length (v ∷ ws))) (pause_index (v ∷ ws))
unfolding pause_index
pause_index-Within v ws =
    pause_among-Within (length (v ∷ ws)) (length (v ∷ ws)) (gaps (v ∷ ws))
      (omega (arith, length-gaps v ws))

clause_from-Within :
    (n m i : ℕ) (best : Option ℕ) (ws : List Word)
    → 1 ≤ i
    → i + length ws ≤ n + 1
    → IfSome (Within n) best
    → IfSome (Within n) (clause_from m i best ws)
unfolding clause_from
clause_from-Within n m i best [] p l h = h
clause_from-Within n m i best (v ∷ []) p l h = h
clause_from-Within n m i best (v ∷ w ∷ ws) p l h =
    elim (Bool-cases (ends_clause v && nearer (off_middle m i) (Option.map (off_middle m) best))) [
      | inl e ↦ rw e (
          clause_from-Within n m (i + 1) (some i) (w ∷ ws) (omega arith) (omega arith)
            (omega arith))
      | inr e ↦ rw e (clause_from-Within n m (i + 1) best (w ∷ ws) (omega arith) (omega arith) h)
    ]

boundary_from-Within :
    (n full i run b : ℕ) (d : Option ℕ) (ws : List Word)
    → 1 ≤ i
    → i + length ws ≤ n + 1
    → Within n b
    → Within n (boundary_from full i run b d ws)
unfolding boundary_from
boundary_from-Within n full i run b d [] p l h = h
boundary_from-Within n full i run b d (v ∷ []) p l h = h
boundary_from-Within n full i run b d (v ∷ w ∷ ws) p l h =
    boundary_from-Within n full (i + 1) _ _ _ (w ∷ ws) (omega arith) (omega arith) (ground arith)

-- The cut of a piece of at least two words leaves a word on either side.
pub best_split_index-Within :
    (piece : List Word) → 2 ≤ length piece → Within (length piece) (best_split_index piece)
unfolding best_split_index
best_split_index-Within [] h = absurd (omega arith)
best_split_index-Within (v ∷ []) h = absurd (omega arith)
best_split_index-Within (v ∷ w ∷ ws) h =
    let piece = v ∷ w ∷ ws in
    choice (pause_index piece) (clause_index piece) (pause_index-Within v (w ∷ ws))
      (unfold clause_index in
        clause_from-Within (length piece) (length piece) 1 none piece (omega arith) (omega arith)
          tt)
      (boundary_from-Within (length piece) (length (text_of piece)) 1 0 1 none piece (omega arith)
        (omega arith) (omega arith))
  where
    choice :
        {n k : ℕ} (a b : Option ℕ)
        → IfSome (Within n) a
        → IfSome (Within n) b
        → Within n k
        → Within n (or_else a (or_else b k))
    choice (some i) b ha hb hk = ha
    choice none (some i) ha hb hk = hb
    choice none none ha hb hk = hk
