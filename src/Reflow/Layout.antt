-- ===== src/Reflow/Layout.antt =====
-- reflow.py: the display profile, `is_short`, `card_cps`, `layout_faults` and `layout_metrics`.
use dub_titlerr.Prelude.{
  ℕ, ◌+◌, ◌*◌, max, Bool, false, ◌||◌, List, [], ◌∷◌, ◌++◌, length, ltb, if◌then◌else◌,
}
use dub_titlerr.Text.{Text, split_lines, flat}
use dub_titlerr.Reflow.{max_line, max_lines, max_chars, min_dur, eps}

unfoldable pub is_short : ℕ → Bool
is_short dur = ltb (dur + eps) min_dur

-- A reading speed, as a quotient of characters by ticks.
pub record Speed : Type 0 where
  pub chars : ℕ
  pub ticks : ℕ

unfoldable pub card_cps : Text → ℕ → Speed
card_cps text dur = record { chars = length (flat text); ticks = max dur eps }

-- `cps > MAX_CPS + EPS`: in millionths of a second, chars / seconds > 17.000001
abbrev pub over_max_cps : Speed → Bool
over_max_cps s = ltb (s.ticks * 17000001) (s.chars * 17000000 * 1000000)

pub data Fault : Type 0 where
  over_lines over_line_len over_chars over_cps : Fault

abbrev any_over : List Text → Bool
any_over [] = false
any_over (l ∷ ls) = ltb max_line (length l) || any_over ls

abbrev fault_if : Bool → Fault → List Fault
fault_if b f = if b then f ∷ [] else []

unfoldable pub layout_faults : Text → ℕ → List Fault
unfolding card_cps
layout_faults text dur =
    let lines = split_lines text in
    fault_if (ltb max_lines (length lines)) over_lines
    ++ (fault_if (any_over lines) over_line_len
        ++ (fault_if (ltb max_chars (length (flat text))) over_chars
            ++ fault_if (over_max_cps (card_cps text dur)) over_cps))

abbrev pub longest : List Text → ℕ
longest [] = 0
longest (l ∷ ls) = max (length l) (longest ls)

unfoldable pub layout_metrics : Text → ℕ → ℕ × ℕ × ℕ × Speed
layout_metrics text dur =
    let lines = split_lines text in
    (length lines, longest lines, length (flat text), card_cps text dur)
