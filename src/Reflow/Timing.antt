-- ===== src/Reflow/Timing.antt =====
-- reflow.py: `time_cards`.
pub mod Spacing
pub mod Promise
use dub_titlerr.Prelude.{
  ℕ, zero, suc, ◌+◌, ◌-◌, ◌*◌, min, max, Bool, true, false, ◌&&◌, Option, none, some, List, [], ◌∷◌,
  ◌++◌, length, ltb, leb, if◌then◌else◌,
}
use dub_titlerr.Reflow.{Word, char_ticks, min_dur, max_dur, min_gap, eps}
use dub_titlerr.Reflow.Layout.{is_short}
use dub_titlerr.Reflow.Glue.{text_of, first_start, last_end}
use dub_titlerr.Reflow.Cascade.{
  Timed, Infeasible, Result, ok, raise, Pushed, map_result, asked_shift, cascade,
}

-- The end that a group wants, before its successor is asked.
unfoldable pub wanted_end : List Word → ℕ
wanted_end g =
    let st = first_start g in
    min (max (last_end g) (max (st + min_dur) (st + length (text_of g) * char_ticks)))
      (st + max_dur)

-- The first loop. `end` is capped at MIN_GAP before the next group's start, which may lie below
-- zero: then the card is the degenerate one.
unfoldable pub capped_end : ℕ → ℕ → Option ℕ → ℕ
capped_end st end none = if ltb end (st + min_gap) then st + min_gap else end
capped_end st end (some next) =
    if ltb next (st + min_gap + min_gap)
    then st + min_gap
    else let end' = min end (next - min_gap) in
      if ltb end' (st + min_gap) then st + min_gap else end'

abbrev pub next_start : List (List Word) → Option ℕ
next_start [] = none
next_start (g ∷ gs) = some (first_start g)

unfoldable pub initial_times : List (List Word) → List Timed
unfolding wanted_end capped_end
initial_times [] = []
initial_times (g ∷ gs) =
    record {
      start = first_start g;
      end = capped_end (first_start g) (wanted_end g) (next_start gs);
    }
    ∷ initial_times gs

pub data Reason : Type 0 where
  forward_steal audio_truncated_tail : Reason

-- One record of the QC sidecar. The two shifts that only the tail's record has are the last ones.
pub record CascadeRecord : Type 0 where
  pub reason : Reason
  pub index : ℕ
  pub requested_shift : ℕ
  pub hops : ℕ
  pub displaced : List ℕ
  pub shortened : List ℕ
  pub dur_before : List (ℕ × ℕ)
  pub preexisting_gap_deficit : ℕ
  pub unfixable : Bool
  pub tail_shifts : Option (ℕ × ℕ)

pub record Timings : Type 0 where
  pub cards : List Timed
  pub records : List CascadeRecord

abbrev pub steal_record : ℕ → ℕ → ℕ → Pushed → CascadeRecord
steal_record j shift deficit p = record {
  reason = forward_steal;
  index = j;
  requested_shift = shift;
  hops = length p.displaced;
  displaced = p.displaced;
  shortened = p.shortened;
  dur_before = p.durs;
  preexisting_gap_deficit = deficit;
  unfixable = false;
  tail_shifts = none;
}

abbrev pub stolen : Timed → Timings → Timings
stolen c t = record t { cards = c ∷ t.cards }

abbrev pub logged : CascadeRecord → Timings → Timings
logged r t = record t { records = r ∷ t.records }

-- The second loop, for the `rounds` cards from index `j` on.
unfoldable pub steal_forward : Option ℕ → ℕ → ℕ → List Timed → Result Timings
unfolding cascade
steal_forward audio zero j cards = ok (record { cards = cards; records = [] })
steal_forward audio (suc rounds) j [] = ok (record { cards = []; records = [] })
steal_forward audio (suc rounds) j (c ∷ rest) =
    let need = max c.end (c.start + min_dur) in
    let shift = asked_shift need rest in
    let deficit = asked_shift c.end rest in
    let done : Timed = record { start = c.start; end = need } in
    elim (ltb eps shift) [
      | false ↦ map_result (stolen done) (steal_forward audio rounds (j + 1) rest)
      | true ↦ elim (cascade audio (j + 1) 0 shift rest) [
        | raise e ↦ raise e
        | ok p ↦
            map_result (λ t. logged (steal_record j shift deficit p) (stolen done t))
              (steal_forward audio rounds (j + 1) p.cards)
      ]
    ]

abbrev tail_record : ℕ → ℕ → CascadeRecord
tail_record j short_by = record {
  reason = audio_truncated_tail;
  index = j;
  requested_shift = short_by;
  hops = 0;
  displaced = [];
  shortened = [];
  dur_before = [];
  preexisting_gap_deficit = 0;
  unfixable = true;
  tail_shifts = some (0, short_by);
}

-- The last card, which only the media itself bounds. `j` is its index.
unfoldable pub clamp_last : ℕ → ℕ → Timed → Timings
unfolding is_short
clamp_last audio j c =
    let dur = audio - c.start in
    if ltb (audio + eps) c.end && ltb (c.start + eps) audio
    then record {
      cards = record { start = c.start; end = audio } ∷ [];
      records = if is_short dur then tail_record j (min_dur - dur) ∷ [] else [];
    }
    else record { cards = c ∷ []; records = [] }

unfoldable pub clamp_tail : Option ℕ → ℕ → List Timed → Timings
unfolding clamp_last
clamp_tail none j cards = record { cards = cards; records = [] }
clamp_tail (some audio) j [] = record { cards = []; records = [] }
clamp_tail (some audio) j (c ∷ []) = clamp_last audio j c
clamp_tail (some audio) j (c ∷ d ∷ ds) = stolen c (clamp_tail (some audio) (j + 1) (d ∷ ds))

abbrev pub then_clamp : Option ℕ → Timings → Timings
then_clamp audio t =
    let tail = clamp_tail audio 0 t.cards in
    record { cards = tail.cards; records = t.records ++ tail.records }

unfoldable pub time_cards : List (List Word) → Option ℕ → Result Timings
unfolding initial_times steal_forward clamp_tail
time_cards groups audio =
    map_result (then_clamp audio) (steal_forward audio (length groups) 0 (initial_times groups))
