-- ===== src/Reflow/Pieces/Sizes.antt =====
-- `_split_overflow` and `segment_span` of reflow.py keep the words, and end in groups that fit.
use mathlib.Core.List.{flatten, cons≢nil}
use dub_titlerr.Prelude.{
  ℕ, zero, suc, ◌≤◌, ◌≡◌, ◌≢◌, ◌⊎◌, refl, ◌∙◌, inl, inr, Bool-cases, true, false, ◌||◌, List, [],
  ◌∷◌, ◌++◌, append-nil, flatten-append, length, take, drop, take-append-drop, length-take,
  length-drop, arith, ◌==◌,
}
use dub_titlerr.Reflow.{Word}
use dub_titlerr.Reflow.Glue.{fits}
use dub_titlerr.Reflow.Spans.{split_sentences}
use dub_titlerr.Reflow.Spans.Sentences.{OnlyLastEnds, AreSentences, split_sentences_exact}
use dub_titlerr.Reflow.Pieces.{
  best_split_index, overflow_within, split_overflow, overflow_all, segment_span,
}
use dub_titlerr.Reflow.Pieces.Interior.{best_split_index-Within}

-- A group is one word, or satisfies the limits on characters and duration.
abbrev pub AllFit : List (List Word) → Type 0
AllFit [] = Unit
AllFit (g ∷ gs) = ((length g ≡ 1) ⊎ ((g ≢ []) × (fits g ≡ true))) × AllFit gs

AllFit-append : (xs ys : List (List Word)) → AllFit xs → AllFit ys → AllFit (xs ++ ys)
AllFit-append [] ys h k = k
AllFit-append (x ∷ xs) ys h k = (h.0, AllFit-append xs ys h.1 k)

flatten-overflow_within :
    (bound : ℕ) (piece : List Word) → flatten (overflow_within bound piece) ≡ piece
unfolding overflow_within flatten
flatten-overflow_within zero piece = append-nil piece
flatten-overflow_within (suc bound) piece = elim (Bool-cases (length piece == 1 || fits piece)) [
  | inl e ↦ rw (e, overflow_within) (append-nil piece)
  | inr e ↦
      rw
        (
          e,
          overflow_within,
          flatten-append,
          flatten-overflow_within bound (take (best_split_index piece) piece),
          flatten-overflow_within bound (drop (best_split_index piece) piece),
        )
        (take-append-drop (best_split_index piece) piece)
]

pub too_long :
    (piece : List Word) → piece ≢ [] → (length piece == 1 || fits piece) ≡ false → 2 ≤ length piece
too_long [] h e = absurd (h refl)
too_long (v ∷ []) h e = cc
too_long (v ∷ w ∷ ws) h e = omega arith

pub ne_nil_of_length : (xs : List Word) → 1 ≤ length xs → xs ≢ []
ne_nil_of_length [] h = absurd (omega arith)
ne_nil_of_length (x ∷ xs) h = cons≢nil

AllFit-overflow_within :
    (bound : ℕ) (piece : List Word)
    → piece ≢ []
    → length piece ≤ bound
    → AllFit (overflow_within bound piece)
unfolding overflow_within
AllFit-overflow_within zero [] h l = absurd (h refl)
AllFit-overflow_within zero (w ∷ ws) h l = absurd (omega arith)
AllFit-overflow_within (suc bound) piece h l = elim (Bool-cases (length piece == 1 || fits piece)) [
  | inl e ↦ rw (e, overflow_within) (ground arith)
  | inr e ↦
      let i = best_split_index piece in
      let inside = best_split_index-Within piece (too_long piece h e) in
      let left = length-take i piece in
      let right = length-drop i piece in
      rw (e, overflow_within)
        (AllFit-append (overflow_within bound (take i piece)) (overflow_within bound (drop i piece))
          (AllFit-overflow_within bound (take i piece)
            (ne_nil_of_length (take i piece) (omega arith)) (omega arith))
          (AllFit-overflow_within bound (drop i piece)
            (ne_nil_of_length (drop i piece) (omega arith)) (omega arith)))
]

-- The recursion on a piece that is not empty ends in groups that fit, or are one word, and keep
-- the words in order.
pub split_overflow_exact :
    (piece : List Word)
    → piece ≢ []
    → (flatten (split_overflow piece) ≡ piece) × AllFit (split_overflow piece)
unfolding split_overflow
split_overflow_exact piece h = (
  flatten-overflow_within (length piece) piece,
  AllFit-overflow_within (length piece) piece h (omega arith),
)

flatten-overflow_all : (ps : List (List Word)) → flatten (overflow_all ps) ≡ flatten ps
unfolding flatten split_overflow
flatten-overflow_all [] = refl
flatten-overflow_all (p ∷ ps) =
    rw (flatten-append, flatten-overflow_within (length p) p, flatten-overflow_all ps)

pub OnlyLastEnds-ne-nil : (p : List Word) → OnlyLastEnds p → p ≢ []
OnlyLastEnds-ne-nil [] h = absurd h
OnlyLastEnds-ne-nil (w ∷ ws) h = cons≢nil

AllFit-overflow_all : (ps : List (List Word)) → AreSentences ps → AllFit (overflow_all ps)
AllFit-overflow_all [] h = tt
AllFit-overflow_all (p ∷ []) (inl h) =
    AllFit-append (split_overflow p) [] (split_overflow_exact p (OnlyLastEnds-ne-nil p h)).1 tt
AllFit-overflow_all (p ∷ []) (inr h) =
    AllFit-append (split_overflow p) [] (split_overflow_exact p h.0).1 tt
AllFit-overflow_all (p ∷ q ∷ ps) h =
    AllFit-append (split_overflow p) (overflow_all (q ∷ ps))
      (split_overflow_exact p (OnlyLastEnds-ne-nil p h.0)).1 (AllFit-overflow_all (q ∷ ps) h.1)

-- The groups of a span hold its words in order; each is one word, or has words and at most
-- MAX_CHARS characters and lasts at most MAX_DUR.
pub segment_span_exact :
    (span : List Word) → (flatten (segment_span span) ≡ span) × AllFit (segment_span span)
unfolding segment_span
segment_span_exact span =
    let (kept, sentences) = split_sentences_exact span in
    (
      flatten-overflow_all (split_sentences span) ∙ kept,
      AllFit-overflow_all (split_sentences span) sentences,
    )
