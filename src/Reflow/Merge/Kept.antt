-- ===== src/Reflow/Merge/Kept.antt =====
-- `merge_runts` of reflow.py keeps all words, and logs every merge.
use mathlib.Core.List.{flatten, reverse-cons}
use dub_titlerr.Prelude.{
  ℕ, ◌+◌, ◌≡◌, refl, sym, ◌∙◌, inl, inr, Bool-cases, Option, none, List, [], ◌∷◌, ◌++◌, reverse,
  append_assoc, append-nil, flatten-append, length, length-append, arith,
}
use dub_titlerr.Reflow.Merge.{
  Group, MergeRecord, Merged, head_group, census_from, absorbs, merge_record, settle, place,
  place_all, merge_runts,
}

-- The words of a stack of groups, in order.
abbrev stacked : List Group → Group
stacked out = flatten (reverse out)

stacked-cons : (g : Group) (out : List Group) → stacked (g ∷ out) ≡ stacked out ++ g
stacked-cons g out = rw (reverse-cons, flatten-append) (unfold flatten in rw append-nil)

stacked-settle :
    (census : ℕ) (nxt : Option Group) (merges : List MergeRecord) (top : Group) (out : List Group)
    → stacked (settle census nxt merges top out).out ≡ stacked out ++ top
unfolding settle
stacked-settle census nxt merges top [] = stacked-cons top []
stacked-settle census nxt merges top (below ∷ out) = elim (Bool-cases (absorbs nxt below top)) [
  | inl e ↦ rw e (
      stacked-settle census nxt (merges ++ merge_record census top (length out) ∷ []) (below ++ top)
        out
      ∙ rw (stacked-cons below out) (sym (append_assoc (stacked out) below top)))
  | inr e ↦ rw e (stacked-cons top (below ∷ out))
]

stacked-place :
    (census : ℕ) (nxt : Option Group) (m : Merged) (g : Group)
    → stacked (place census nxt m g).out ≡ stacked m.out ++ g
unfolding place
stacked-place census nxt m g = by_out m.out m.merges
  where
    by_out :
        (out : List Group) (merges : List MergeRecord)
        → stacked (place census nxt (record { out = out; merges = merges }) g).out
          ≡ stacked out ++ g
    by_out [] merges = stacked-cons g []
    by_out (top ∷ out) merges = elim (Bool-cases (absorbs nxt top g)) [
      | inl e ↦ rw e (
          stacked-settle census nxt (merges ++ merge_record census g (length out) ∷ []) (top ++ g)
            out
          ∙ rw (stacked-cons top out) (sym (append_assoc (stacked out) top g)))
      | inr e ↦ rw e (stacked-cons g (top ∷ out))
    ]

stacked-place_all :
    (census : ℕ) (m : Merged) (gs : List Group)
    → stacked (place_all census m gs).out ≡ stacked m.out ++ flatten gs
unfolding place_all flatten
stacked-place_all census m [] = sym (append-nil (stacked m.out))
stacked-place_all census m (g ∷ gs) =
    stacked-place_all census (place census (head_group gs) m g) gs
    ∙ rw (stacked-place census (head_group gs) m g) (append_assoc (stacked m.out) g (flatten gs))

-- Groups and records together.
abbrev total : Merged → ℕ
total m = length m.out + length m.merges

total-settle :
    (census : ℕ) (nxt : Option Group) (merges : List MergeRecord) (top : Group) (out : List Group)
    → total (settle census nxt merges top out) ≡ 1 + length out + length merges
unfolding settle
total-settle census nxt merges top [] = omega arith
total-settle census nxt merges top (below ∷ out) = ground (
  arith,
  total-settle census nxt (merges ++ merge_record census top (length out) ∷ []) (below ++ top) out,
  length-append merges (merge_record census top (length out) ∷ []),
)

total-place :
    (census : ℕ) (nxt : Option Group) (m : Merged) (g : Group)
    → total (place census nxt m g) ≡ total m + 1
unfolding place
total-place census nxt m g = by_out m.out m.merges
  where
    by_out :
        (out : List Group) (merges : List MergeRecord)
        → total (place census nxt (record { out = out; merges = merges }) g)
          ≡ length out + length merges + 1
    by_out [] merges = omega arith
    by_out (top ∷ out) merges = ground (
      arith,
      total-settle census nxt (merges ++ merge_record census g (length out) ∷ []) (top ++ g) out,
      length-append merges (merge_record census g (length out) ∷ []),
    )

total-place_all :
    (census : ℕ) (m : Merged) (gs : List Group)
    → total (place_all census m gs) ≡ total m + length gs
unfolding place_all
total-place_all census m [] = omega arith
total-place_all census m (g ∷ gs) = omega (
  arith,
  total-place_all census (place census (head_group gs) m g) gs,
  total-place census (head_group gs) m g,
)

length-reverse : (xs : List Group) → length (reverse xs) ≡ length xs
length-reverse [] = refl
length-reverse (x ∷ xs) = rw (reverse-cons, length-append) (omega (arith, length-reverse xs))

-- Merging runts keeps every word, in order, and writes exactly one record for each group that is
-- gone.
pub merge_runts_exact :
    (groups : List Group)
    → (flatten (merge_runts groups).out ≡ flatten groups)
      × (length (merge_runts groups).out + length (merge_runts groups).merges ≡ length groups)
unfolding merge_runts flatten
merge_runts_exact groups =
    let start : Merged = record { out = []; merges = [] } in
    let census = census_from none groups in
    (
      stacked-place_all census start groups,
      omega (
        arith,
        total-place_all census start groups,
        length-reverse (place_all census start groups).out,
      ),
    )
