-- ===== src/Reflow/Pieces/Ended.antt =====
-- The recursion of `_split_overflow` of reflow.py as it is written, without a bound, and that it ends.
use dub_titlerr.Prelude.{
  ℕ, zero, suc, ◌≤◌, ◌≡◌, ◌≢◌, refl, Bool-cases, inl, inr, true, false, ◌||◌, List, [], ◌∷◌, ◌++◌,
  length, take, drop, length-take, length-drop, arith, ◌==◌,
}
use dub_titlerr.Reflow.{Word}
use dub_titlerr.Reflow.Glue.{fits}
use dub_titlerr.Reflow.Spans.{split_sentences}
use dub_titlerr.Reflow.Spans.Sentences.{AreSentences, split_sentences_exact}
use dub_titlerr.Reflow.Pieces.{
  best_split_index, overflow_within, split_overflow, overflow_all, segment_span,
}
use dub_titlerr.Reflow.Pieces.Interior.{best_split_index-Within}
use dub_titlerr.Reflow.Pieces.Sizes.{too_long, ne_nil_of_length, OnlyLastEnds-ne-nil}

-- What a call returns that ends after finitely many calls, none of them on a piece without words.
pub data Returns : List Word → List (List Word) → Type 0 where
  whole :
      (piece : List Word)
      → piece ≢ []
      → (length piece == 1 || fits piece) ≡ true
      → Returns piece (piece ∷ [])
  cut :
      (piece : List Word) {left right : List (List Word)}
      → (length piece == 1 || fits piece) ≡ false
      → Returns (take (best_split_index piece) piece) left
      → Returns (drop (best_split_index piece) piece) right
      → Returns piece (left ++ right)

-- The loop of `segment_span` over the pieces.
pub data AllReturn : List (List Word) → List (List Word) → Type 0 where
  at_end : AllReturn [] []
  extends :
      {p : List Word} {ps out rest : List (List Word)}
      → Returns p out
      → AllReturn ps rest
      → AllReturn (p ∷ ps) (out ++ rest)

Returns-overflow_within :
    (bound : ℕ) (piece : List Word)
    → piece ≢ []
    → length piece ≤ bound
    → Returns piece (overflow_within bound piece)
unfolding overflow_within
Returns-overflow_within zero [] h l = absurd (h refl)
Returns-overflow_within zero (w ∷ ws) h l = absurd (omega arith)
Returns-overflow_within (suc bound) piece h l =
    elim (Bool-cases (length piece == 1 || fits piece)) [
      | inl e ↦ rw (e, overflow_within) (whole piece h e)
      | inr e ↦
          let i = best_split_index piece in
          let inside = best_split_index-Within piece (too_long piece h e) in
          let left = length-take i piece in
          let right = length-drop i piece in
          rw (e, overflow_within)
            (cut piece e
              (Returns-overflow_within bound (take i piece)
                (ne_nil_of_length (take i piece) (omega arith)) (omega arith))
              (Returns-overflow_within bound (drop i piece)
                (ne_nil_of_length (drop i piece) (omega arith)) (omega arith)))
    ]

Returns-split_overflow : (p : List Word) → p ≢ [] → Returns p (split_overflow p)
unfolding split_overflow
Returns-split_overflow p h = Returns-overflow_within (length p) p h (omega arith)

AllReturn-overflow_all : (ps : List (List Word)) → AreSentences ps → AllReturn ps (overflow_all ps)
AllReturn-overflow_all [] h = at_end
AllReturn-overflow_all (p ∷ []) (inl h) =
    extends (Returns-split_overflow p (OnlyLastEnds-ne-nil p h)) at_end
AllReturn-overflow_all (p ∷ []) (inr h) = extends (Returns-split_overflow p h.0) at_end
AllReturn-overflow_all (p ∷ q ∷ ps) h =
    extends (Returns-split_overflow p (OnlyLastEnds-ne-nil p h.0))
      (AllReturn-overflow_all (q ∷ ps) h.1)

Returns-unique :
    {p : List Word} {out other : List (List Word)} → Returns p out → Returns p other → other ≡ out
Returns-unique (whole p h e) (whole _ h' e') = refl
Returns-unique (whole p h e) (cut _ e' l r) = cc
Returns-unique (cut p e l r) (whole _ h' e') = cc
Returns-unique (cut p e l r) (cut _ e' l' r') = rw (Returns-unique l l', Returns-unique r r') refl

AllReturn-unique :
    {ps out other : List (List Word)} → AllReturn ps out → AllReturn ps other → other ≡ out
AllReturn-unique at_end at_end = refl
AllReturn-unique (extends h k) (extends h' k') =
    rw (Returns-unique h h', AllReturn-unique k k') refl

-- The recursion of `_split_overflow`, which has no bound in the code, ends for each piece of a span,
-- after finitely many calls and none on an empty piece; what they return, together, is what
-- segment_span returns here, and nothing else.
pub segment_span-AllReturn :
    (span : List Word)
    → AllReturn (split_sentences span) (segment_span span)
      × ((out : List (List Word)) → AllReturn (split_sentences span) out → out ≡ segment_span span)
unfolding segment_span
segment_span-AllReturn span =
    let h = AllReturn-overflow_all (split_sentences span) (split_sentences_exact span).1 in
    (h, λ out k. AllReturn-unique h k)
