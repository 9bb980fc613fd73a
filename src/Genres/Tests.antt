-- ===== src/Genres/Tests.antt =====
-- Runs of go/internal/alfa/genres/main.go, and the witnesses.
use dodder.Prelude.{◌≡◌, refl, [], ◌∷◌, true, codes, bytes_eq}
use dodder.Utf8.{runes, decode_rune}
use dodder.Text.{trim_space}
use dodder.Doddish.Op.{is_space}
use dodder.Genres.{all, set}

listed : all ≡ 1 ∷ 2 ∷ 3 ∷ 4 ∷ 5 ∷ 6 ∷ 7 ∷ []
unfolding all
listed = refl

-- the empty text is a prefix of the first name
of_nothing : set (codes "") 0 ≡ (2, true)
unfolding set trim_space runes decode_rune is_space bytes_eq
of_nothing = refl
