-- ===== src/Reflow/Spans/Sentences.antt =====
-- `_split_sentences` of reflow.py closes a piece exactly after the words that end a sentence.
use mathlib.Core.List.{flatten, cons≢nil}
use dub_titlerr.Prelude.{
  ◌≡◌, ◌≢◌, ◌⊎◌, refl, inl, inr, Bool-cases, true, false, List, [], ◌∷◌, ◌++◌, append_assoc,
}
use dub_titlerr.Reflow.{Word}
use dub_titlerr.Reflow.Spans.{ends_sentence, pieces_from, split_sentences}

flatten-pieces_from : (cur ws : List Word) → flatten (pieces_from cur ws) ≡ cur ++ ws
unfolding pieces_from flatten
flatten-pieces_from [] [] = refl
flatten-pieces_from (c ∷ cur) [] = refl
flatten-pieces_from cur (w ∷ ws) = elim (Bool-cases (ends_sentence w)) [
  | inl e ↦ rw (e, flatten-pieces_from [] ws, append_assoc)
  | inr e ↦ rw (e, flatten-pieces_from (cur ++ w ∷ []) ws, append_assoc)
]

-- No word ends a sentence.
abbrev pub NoneEnds : List Word → Type 0
NoneEnds [] = Unit
NoneEnds (w ∷ ws) = (ends_sentence w ≡ false) × NoneEnds ws

-- The last word ends a sentence, and no word before it does.
abbrev pub OnlyLastEnds : List Word → Type 0
OnlyLastEnds [] = ⊥
OnlyLastEnds (w ∷ []) = ends_sentence w ≡ true
OnlyLastEnds (v ∷ w ∷ ws) = (ends_sentence v ≡ false) × OnlyLastEnds (w ∷ ws)

-- Whole sentences, and at the end, maybe, words that end none.
abbrev pub AreSentences : List (List Word) → Type 0
AreSentences [] = Unit
AreSentences (p ∷ []) = OnlyLastEnds p ⊎ ((p ≢ []) × NoneEnds p)
AreSentences (p ∷ q ∷ ps) = OnlyLastEnds p × AreSentences (q ∷ ps)

NoneEnds-snoc :
    (cur : List Word) (w : Word) → NoneEnds cur → ends_sentence w ≡ false → NoneEnds (cur ++ w ∷ [])
NoneEnds-snoc [] w h e = (e, tt)
NoneEnds-snoc (c ∷ cur) w h e = (h.0, NoneEnds-snoc cur w h.1 e)

OnlyLastEnds-snoc :
    (cur : List Word) (w : Word)
    → NoneEnds cur
    → ends_sentence w ≡ true
    → OnlyLastEnds (cur ++ w ∷ [])
OnlyLastEnds-snoc [] w h e = e
OnlyLastEnds-snoc (c ∷ []) w h e = (h.0, e)
OnlyLastEnds-snoc (c ∷ d ∷ cur) w h e = (h.0, OnlyLastEnds-snoc (d ∷ cur) w h.1 e)

AreSentences-cons :
    (p : List Word) (ps : List (List Word))
    → OnlyLastEnds p
    → AreSentences ps
    → AreSentences (p ∷ ps)
AreSentences-cons p [] h s = inl h
AreSentences-cons p (q ∷ ps) h s = (h, s)

AreSentences-pieces_from : (cur ws : List Word) → NoneEnds cur → AreSentences (pieces_from cur ws)
unfolding pieces_from
AreSentences-pieces_from [] [] h = tt
AreSentences-pieces_from (c ∷ cur) [] h = inr (cons≢nil, h)
AreSentences-pieces_from cur (w ∷ ws) h = elim (Bool-cases (ends_sentence w)) [
  | inl e ↦ rw e (
      AreSentences-cons (cur ++ w ∷ []) (pieces_from [] ws) (OnlyLastEnds-snoc cur w h e)
        (AreSentences-pieces_from [] ws tt))
  | inr e ↦ rw e (AreSentences-pieces_from (cur ++ w ∷ []) ws (NoneEnds-snoc cur w h e))
]

-- The pieces hold the words in order; each ends in a word with sentence-final punctuation, which
-- none of its other words has, but for a last piece, which may have no such word.
pub split_sentences_exact :
    (span : List Word)
    → (flatten (split_sentences span) ≡ span) × AreSentences (split_sentences span)
unfolding split_sentences
split_sentences_exact span = (flatten-pieces_from [] span, AreSentences-pieces_from [] span tt)
