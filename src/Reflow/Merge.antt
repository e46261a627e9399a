-- ===== src/Reflow/Merge.antt =====
-- reflow.py: `is_orphan_group`, `_merge_fits` and `merge_runts`.
pub mod Kept
use dub_titlerr.Prelude.{
  ℕ, ◌+◌, ◌-◌, Bool, true, false, not, ◌&&◌, ◌||◌, Option, none, some, List, [], ◌∷◌, ◌++◌, reverse,
  length, ltb, leb, ◌==◌, if◌then◌else◌,
}
use dub_titlerr.Text.{Text, rstrip, ends_in}
use dub_titlerr.Reflow.{Word, max_chars, max_dur, gap_max, eps, sent_end, orphan_max_words}
use dub_titlerr.Reflow.Layout.{is_short, card_cps, over_max_cps}
use dub_titlerr.Reflow.Glue.{text_of, first_start, last_end, dur_of}

abbrev pub Group : Type 0
Group = List Word

-- group[-1].get("seg") == nxt[0].get("seg")
last_seg : Group → ℕ
last_seg [] = 0
last_seg (w ∷ []) = w.seg
last_seg (v ∷ w ∷ ws) = last_seg (w ∷ ws)

first_seg : Group → ℕ
first_seg [] = 0
first_seg (w ∷ ws) = w.seg

unfoldable pub finished : Group → Bool
unfolding rstrip ends_in
finished g = ends_in sent_end (rstrip (text_of g))

-- The pause between two groups is longer than GAP_MAX.
abbrev pub pause_between : Group → Group → Bool
pause_between a b = ltb (last_end a + gap_max) (first_start b)

abbrev detached : Group → Option Group → Bool
detached g none = true
detached g (some prev) = finished prev || pause_between prev g

unfoldable pub is_orphan_group : Group → Option Group → Option Group → Bool
unfolding last_seg first_seg
is_orphan_group g none prev = false
is_orphan_group g (some nxt) prev =
    if ltb orphan_max_words (length g)
    then false
    else if last_seg g == first_seg nxt
    then false
    else if finished g
    then false
    else if not (pause_between g nxt)
    then false
    else detached g prev

-- `g` is a runt that `p` may absorb. The merged span is zero where it would be negative: it is
-- only compared to bounds, and a reading speed is taken over EPS at least.
unfoldable pub merge_fits : Group → Group → Bool
unfolding is_short dur_of card_cps
merge_fits p g =
    let merged_text = text_of p ++ b' ' ∷ text_of g in
    let span = last_end g - first_start p in
    is_short (dur_of g)
    && leb (first_start g) (last_end p + gap_max + eps)
    && leb (length merged_text) max_chars
    && leb span (max_dur + eps)
    && not (over_max_cps (card_cps merged_text span))

abbrev pub head_group : List Group → Option Group
head_group [] = none
head_group (g ∷ gs) = some g

-- The short groups that are no orphans, among all groups as they came in.
unfoldable pub census_from : Option Group → List Group → ℕ
unfolding is_short dur_of is_orphan_group
census_from prev [] = 0
census_from prev (g ∷ gs) =
    (if is_short (dur_of g) && not (is_orphan_group g (head_group gs) prev) then 1 else 0)
    + census_from (some g) gs

pub record MergeRecord : Type 0 where
  pub into : ℕ
  pub absorbed : Text
  pub short_groups_before : ℕ

-- `out`, its last group first, and the records so far.
pub record Merged : Type 0 where
  pub out : List Group
  pub merges : List MergeRecord

-- `_merge_fits(p, g) and not is_orphan_group(g, nxt, p)`
unfoldable pub absorbs : Option Group → Group → Group → Bool
unfolding merge_fits is_orphan_group
absorbs nxt p g = merge_fits p g && not (is_orphan_group g nxt (some p))

-- `into` is `len(out) - 1` when the record is made: the groups below the target.
abbrev pub merge_record : ℕ → Group → ℕ → MergeRecord
merge_record census g below = record {
  into = below;
  absorbed = text_of g;
  short_groups_before = census;
}

-- The `while` loop: the target `top` may itself join the group below it.
unfoldable pub settle : ℕ → Option Group → List MergeRecord → Group → List Group → Merged
unfolding absorbs
settle census nxt merges top [] = record { out = top ∷ []; merges = merges }
settle census nxt merges top (below ∷ out) =
    let joined =
      settle census nxt (merges ++ merge_record census top (length out) ∷ []) (below ++ top) out in
    if absorbs nxt below top then joined else record { out = top ∷ below ∷ out; merges = merges }

-- One round of the `for` loop.
unfoldable pub place : ℕ → Option Group → Merged → Group → Merged
unfolding settle
place census nxt m g = elim m.out [
  | [] ↦ record m { out = g ∷ [] }
  | top ∷ out ↦
      (if absorbs nxt top g
        then settle census nxt (m.merges ++ merge_record census g (length out) ∷ []) (top ++ g) out
        else record m { out = g ∷ top ∷ out })
]

unfoldable pub place_all : ℕ → Merged → List Group → Merged
unfolding place
place_all census m [] = m
place_all census m (g ∷ gs) = place_all census (place census (head_group gs) m g) gs

-- The groups and the records, in order.
unfoldable pub merge_runts : List Group → Merged
unfolding place_all census_from
merge_runts groups =
    let m = place_all (census_from none groups) (record { out = []; merges = [] }) groups in
    record m { out = reverse m.out }
