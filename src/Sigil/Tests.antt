-- ===== src/Sigil/Tests.antt =====
-- Runs of go/internal/bravo/ids/sigil.go, and the witnesses.

use dodder.Prelude.{◌≡◌, refl, false, codes}
use dodder.Utf8.{runes, decode_rune}
use dodder.Text.{trim_space}
use dodder.Doddish.Op.{is_space}
use dodder.Sigil.{set}

-- an error in the middle keeps what stands in front of it
half_set : set (codes "+x?") 2 ≡ (6, false)
unfolding set runes decode_rune trim_space is_space
half_set = refl
