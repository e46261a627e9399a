-- ===== src/Text/Lower.antt =====
-- str.lower, as far as it makes ASCII characters.
use dub_titlerr.Prelude.{◌+◌, [], ◌∷◌, ◌&&◌, leb, ◌==◌, if◌then◌else◌}
use dub_titlerr.Text.{Text}

-- The letters A to Z, and the two other characters that it turns into one of a to z. Every other
-- character is kept: str.lower makes no ASCII character of it.
unfoldable pub lower : Text → Text
lower [] = []
lower (c ∷ t) =
    let rest = lower t in
    if leb b'A' c && leb c b'Z'
    then (c + 32) ∷ rest
    else if c == 0x212a
    then b'k' ∷ rest
    else if c == 0x130
    then b'i' ∷ 0x307 ∷ rest
    else c ∷ rest
