-- ===== src/Hallucination/Runs.antt =====
-- hallucination.py: the runs that `collapse_runs` merges, and the loops that `is_repetition` sees.
use mathlib.Core.List.{flatten}
use dub_titlerr.Prelude.{
  ◌<◌, ◌≤◌, ◌≡◌, refl, leb, ap, ◌∙◌, false, List, [], ◌∷◌, ◌++◌, append_assoc, length, arith,
  Bool-cases, inl, inr,
}
use dub_titlerr.Text.{Text, same_text}
use dub_titlerr.Text.Order.{same_text→eq}
use dub_titlerr.Hallucination.{
  Card, norm, blocks_from, blocks, last_end_of, collapse, run_collapse, collapse_all, collapse_runs,
}

-- All cards of a list have one normalised text.
abbrev pub HasKey : Text → List Card → Type 0
HasKey key [] = Unit
HasKey key (c ∷ cs) = (norm c.text ≡ key) × HasKey key cs

-- The first card of a list of blocks has another text than `key`.
abbrev pub StartsOther : Text → List (List Card) → Type 0
StartsOther key [] = Unit
StartsOther key ([] ∷ bs) = ⊥
StartsOther key ((c ∷ cs) ∷ bs) = same_text (norm c.text) key ≡ false

-- Each block has one text, and the next block has another.
abbrev pub AreRuns : List (List Card) → Type 0
AreRuns [] = Unit
AreRuns ([] ∷ bs) = ⊥
AreRuns ((c ∷ cs) ∷ bs) = HasKey (norm c.text) cs × StartsOther (norm c.text) bs × AreRuns bs

-- What is written of the blocks: a block of fewer than four cards as it is, and for a longer one its
-- first card, up to the end of its last.
pub data Collapsed : List (List Card) → List Card → Type 0 where
  nothing_left : Collapsed [] []
  untouched :
      {bs : List (List Card)} {out : List Card} (run : List Card)
      → length run < 4
      → Collapsed bs out
      → Collapsed (run ∷ bs) (run ++ out)
  joined :
      {bs : List (List Card)} {out : List Card} (run : List Card) (first last : Card)
      (between : List Card)
      → 4 ≤ length run
      → run ≡ first ∷ (between ++ last ∷ [])
      → Collapsed bs out
      → Collapsed (run ∷ bs) (record first { end = last.end } ∷ out)

HasKey-append :
    (key : Text) (cs : List Card) (c : Card)
    → HasKey key cs
    → norm c.text ≡ key
    → HasKey key (cs ++ c ∷ [])
HasKey-append key [] c h k = (k, tt)
HasKey-append key (d ∷ ds) c h k = (h.0, HasKey-append key ds c h.1 k)

flatten-blocks_from :
    (key : Text) (run cards : List Card) → flatten (blocks_from key run cards) ≡ run ++ cards
unfolding blocks_from flatten
flatten-blocks_from key run [] = refl
flatten-blocks_from key run (c ∷ cs) = elim (Bool-cases (same_text (norm c.text) key)) [
  | inl h ↦ rw (h) (flatten-blocks_from key (run ++ c ∷ []) cs ∙ append_assoc run (c ∷ []) cs)
  | inr h ↦ rw (h) (ap (λ r. run ++ r) (flatten-blocks_from (norm c.text) (c ∷ []) cs))
]

StartsOther-blocks_from :
    (key other : Text) (c : Card) (run cards : List Card)
    → same_text (norm c.text) other ≡ false
    → StartsOther other (blocks_from key (c ∷ run) cards)
unfolding blocks_from
StartsOther-blocks_from key other c run [] h = h
StartsOther-blocks_from key other c run (d ∷ ds) h =
    elim (Bool-cases (same_text (norm d.text) key)) [
      | inl k ↦ rw (k) (StartsOther-blocks_from key other c (run ++ d ∷ []) ds h)
      | inr k ↦ rw (k) h
    ]

AreRuns-blocks_from :
    (c : Card) (run cards : List Card)
    → HasKey (norm c.text) run
    → AreRuns (blocks_from (norm c.text) (c ∷ run) cards)
unfolding blocks_from
AreRuns-blocks_from c run [] h = (h, tt, tt)
AreRuns-blocks_from c run (d ∷ ds) h = elim (Bool-cases (same_text (norm d.text) (norm c.text))) [
  | inl k ↦ rw (k) (
      AreRuns-blocks_from c (run ++ d ∷ []) ds
        (HasKey-append (norm c.text) run d h (same_text→eq (norm d.text) (norm c.text) k)))
  | inr k ↦ rw (k) (
    h,
    StartsOther-blocks_from (norm d.text) (norm c.text) d [] ds k,
    AreRuns-blocks_from d [] ds tt,
  )
]

-- The end that the last card has, for a card and others behind it.
last_card :
    (c : Card) (cs : List Card)
    → (between : List Card) × (last : Card) × (c ∷ cs ≡ between ++ last ∷ [])
      × (last_end_of c.end cs ≡ last.end)
last_card c [] = ([], c, refl, refl)
last_card c (d ∷ ds) =
    let (between, last, e, h) = last_card d ds in (c ∷ between, last, ap (λ r. c ∷ r) e, h)

Collapsed-collapse :
    (b : List Card) {bs : List (List Card)} {out : List Card}
    → Collapsed bs out
    → Collapsed (b ∷ bs) (collapse b ++ out)
Collapsed-collapse [] h = untouched [] (omega arith) h
Collapsed-collapse (c ∷ []) h = untouched (c ∷ []) (omega arith) h
Collapsed-collapse (c ∷ d ∷ ds) h = elim (Bool-cases (leb run_collapse (length (c ∷ d ∷ ds)))) [
  | inl e ↦
      let (between, last, k, l) = last_card d ds in
      rw (e, l) (joined (c ∷ d ∷ ds) c last between (ground (arith, e)) (ap (λ r. c ∷ r) k) h)
  | inr e ↦ rw e (untouched (c ∷ d ∷ ds) (ground (arith, e)) h)
]

Collapsed-collapse_all : (bs : List (List Card)) → Collapsed bs (collapse_all bs)
unfolding collapse_all
Collapsed-collapse_all [] = nothing_left
Collapsed-collapse_all (b ∷ bs) = Collapsed-collapse b (Collapsed-collapse_all bs)

-- collapse_runs cuts the cards into maximal runs of one normalised text, in order and without a card
-- left out. Of a run of four cards or more it writes the first card, with the end of the last; a
-- shorter run it writes as it is.
pub collapse_runs_exact :
    (cards : List Card)
    → (bs : List (List Card)) × (flatten bs ≡ cards)
      × AreRuns bs
      × Collapsed bs (collapse_runs cards)
unfolding collapse_runs blocks flatten
collapse_runs_exact [] = ([], refl, tt, Collapsed-collapse_all [])
collapse_runs_exact (c ∷ cs) = (
  blocks_from (norm c.text) (c ∷ []) cs,
  flatten-blocks_from (norm c.text) (c ∷ []) cs,
  AreRuns-blocks_from c [] cs tt,
  Collapsed-collapse_all (blocks_from (norm c.text) (c ∷ []) cs),
)
