-- ===== src/Text/Control.antt =====
-- The Unicode categories Cc (control) and Cf (format), by the table of Unicode 14.
use dub_titlerr.Prelude.{ℕ, Bool, List, [], ◌∷◌}
use dub_titlerr.Text.Digits.{in_ranges}

control_ranges : List (ℕ × ℕ)
control_ranges =
    (0x0, 0x1f)
    ∷ (0x7f, 0x9f)
    ∷ (0xad, 0xad)
    ∷ (0x600, 0x605)
    ∷ (0x61c, 0x61c)
    ∷ (0x6dd, 0x6dd)
    ∷ (0x70f, 0x70f)
    ∷ (0x890, 0x891)
    ∷ (0x8e2, 0x8e2)
    ∷ (0x180e, 0x180e)
    ∷ (0x200b, 0x200f)
    ∷ (0x202a, 0x202e)
    ∷ (0x2060, 0x2064)
    ∷ (0x2066, 0x206f)
    ∷ (0xfeff, 0xfeff)
    ∷ (0xfff9, 0xfffb)
    ∷ (0x110bd, 0x110bd)
    ∷ (0x110cd, 0x110cd)
    ∷ (0x13430, 0x13438)
    ∷ (0x1bca0, 0x1bca3)
    ∷ (0x1d173, 0x1d17a)
    ∷ (0xe0001, 0xe0001)
    ∷ (0xe0020, 0xe007f)
    ∷ []

unfoldable pub is_control : ℕ → Bool
unfolding in_ranges control_ranges
is_control c = in_ranges c control_ranges
