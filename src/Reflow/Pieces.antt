-- ===== src/Reflow/Pieces.antt =====
-- reflow.py: `_median`, `_best_split_index`, `_split_overflow` and `segment_span`.
pub mod Interior
pub mod Sizes
pub mod Ended
use mathlib.Core.Option
use dub_titlerr.Prelude.{
  ℕ, zero, suc, ◌+◌, ◌-◌, ◌*◌, ◌/◌, ◌%◌, max, Bool, true, false, ◌&&◌, ◌||◌, Option, none, some,
  List, [], ◌∷◌, ◌++◌, length, take, drop, get_or, ltb, leb, ◌==◌, if◌then◌else◌,
}
use dub_titlerr.Prelude.Int.{ℤ, pos, pos_part, sub_ℕ, ◌+ℤ◌, ltb_ℤ, leb_ℤ, eqb_ℤ}
use dub_titlerr.Text.{Text, strip, rstrip, ends_in}
use dub_titlerr.Reflow.{Word, clause_end, eps, split_pause_min, split_pause_k}
use dub_titlerr.Reflow.Glue.{text_of, fits}
use dub_titlerr.Reflow.Spans.{split_sentences}

-- sorted(vals)
insert_sorted : ℤ → List ℤ → List ℤ
insert_sorted x [] = x ∷ []
insert_sorted x (y ∷ ys) =
    let rest = insert_sorted x ys in if leb_ℤ x y then x ∷ y ∷ ys else y ∷ rest

sorted : List ℤ → List ℤ
unfolding insert_sorted
sorted [] = []
sorted (x ∷ xs) = insert_sorted x (sorted xs)

-- Twice the median, which is a whole number of ticks.
unfoldable pub median_twice : List ℤ → ℤ
unfolding sorted ◌+ℤ◌
median_twice vals =
    let s = sorted vals in
    let n = length vals in
    let upper = get_or s (n / 2) (pos 0) in
    if n == 0
    then pos 0
    else if n % 2 == 1
    then upper +ℤ upper
    else get_or s (n / 2 - 1) (pos 0) +ℤ upper

-- piece[i]["start"] - piece[i - 1]["end"], for i in range(1, n)
unfoldable pub gaps : List Word → List ℤ
gaps [] = []
gaps (v ∷ []) = []
gaps (v ∷ w ∷ ws) = sub_ℕ w.start v.end ∷ gaps (w ∷ ws)

abbrev pub distance : ℕ → ℕ → ℕ
distance a b = if ltb a b then b - a else a - b

-- Twice the distance of the index `i` from the midpoint n / 2.
abbrev pub off_middle : ℕ → ℕ → ℕ
off_middle n i = distance (2 * i) n

-- A candidate of tier 1: the gap, and its index.
pub record Pause : Type 0 where
  pub gap : ℤ
  pub index : ℕ

-- (g, -abs(i - mid), i) is greater than the best so far
abbrev pub better_pause : ℕ → Pause → Pause → Bool
better_pause n p best =
    ltb_ℤ best.gap p.gap
    || eqb_ℤ best.gap p.gap
      && (ltb (off_middle n p.index) (off_middle n best.index)
          || off_middle n p.index == off_middle n best.index && ltb best.index p.index)

-- max(…) over the gaps with indices from `i`
unfoldable pub largest_pause : ℕ → ℕ → Pause → List ℤ → Pause
largest_pause n i best [] = best
largest_pause n i best (g ∷ gs) =
    let p : Pause = record { gap = g; index = i } in
    largest_pause n (i + 1) (if better_pause n p best then p else best) gs

-- Tier 1: the index of the largest gap, if that is genuinely a pause. Both sides of the test are
-- doubled, since the median may be half a tick.
unfoldable pub pause_among : ℕ → List ℤ → Option ℕ
unfolding median_twice largest_pause
pause_among n [] = none
pause_among n (g ∷ gs) =
    let best : Pause = largest_pause n 2 (record { gap = g; index = 1 }) gs in
    let threshold = max (2 * split_pause_min) (split_pause_k * pos_part (median_twice (g ∷ gs))) in
    if leb threshold (2 * pos_part best.gap + 2 * eps) then some best.index else none

unfoldable pub pause_index : List Word → Option ℕ
unfolding gaps pause_among
pause_index piece = pause_among (length piece) (gaps piece)

unfoldable pub ends_clause : Word → Bool
unfolding rstrip ends_in
ends_clause w = ends_in clause_end (rstrip w.text)

-- A first candidate, or one that beats the best distance so far.
abbrev pub nearer : ℕ → Option ℕ → Bool
nearer d none = true
nearer d (some b) = ltb d b

-- min(clause, key=(abs(i - mid), i)) over the interior indices from `i`
unfoldable pub clause_from : ℕ → ℕ → Option ℕ → List Word → Option ℕ
unfolding ends_clause
clause_from n i best [] = best
clause_from n i best (v ∷ []) = best
clause_from n i best (v ∷ w ∷ ws) =
    clause_from n (i + 1)
      (if ends_clause v && nearer (off_middle n i) (Option.map (off_middle n) best)
        then some i
        else best)
      (w ∷ ws)

unfoldable pub clause_index : List Word → Option ℕ
unfolding clause_from
clause_index piece = clause_from (length piece) 1 none piece

-- The word boundary nearest the character midpoint: `full` is len(_text(piece)), `run` the
-- characters before index `i`, and `best` the index and twice its distance.
unfoldable pub boundary_from : ℕ → ℕ → ℕ → ℕ → Option ℕ → List Word → ℕ
unfolding strip
boundary_from full i run best_i best_d [] = best_i
boundary_from full i run best_i best_d (v ∷ []) = best_i
boundary_from full i run best_i best_d (v ∷ w ∷ ws) =
    let run' = run + length (strip v.text) + 1 in
    let d = distance (2 * run') full in
    boundary_from full (i + 1) run' (if nearer d best_d then i else best_i)
      (if nearer d best_d then some d else best_d) (w ∷ ws)

abbrev pub or_else : Option ℕ → ℕ → ℕ
or_else none n = n
or_else (some i) n = i

unfoldable pub best_split_index : List Word → ℕ
unfolding pause_index clause_index boundary_from
best_split_index piece =
    or_else (pause_index piece)
      (or_else (clause_index piece) (boundary_from (length (text_of piece)) 1 0 1 none piece))

-- The recursion of `_split_overflow`, on a bound for the length of the piece.
unfoldable pub overflow_within : ℕ → List Word → List (List Word)
overflow_within zero piece = piece ∷ []
overflow_within (suc bound) piece = elim (length piece == 1 || fits piece) [
  | true ↦ piece ∷ []
  | false ↦
      overflow_within bound (take (best_split_index piece) piece)
      ++ overflow_within bound (drop (best_split_index piece) piece)
]

unfoldable pub split_overflow : List Word → List (List Word)
unfolding overflow_within
split_overflow piece = overflow_within (length piece) piece

abbrev pub overflow_all : List (List Word) → List (List Word)
overflow_all [] = []
overflow_all (p ∷ ps) = split_overflow p ++ overflow_all ps

unfoldable pub segment_span : List Word → List (List Word)
segment_span span = overflow_all (split_sentences span)
