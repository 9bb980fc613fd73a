-- ===== src/Genres/Names.antt =====
-- Genres, their names and their bits (go/internal/alfa/genres/main.go).
use dodder.Prelude.{
  ℕ, zero, suc, ◌^◌, ◌≤◌, ◌≡◌, refl, true, false, ◌&&◌, leb, if◌then◌else◌, bytes_eq, arith,
}
use dodder.Run.{done, panic}
use dodder.Utf8.{runes, decode_rune}
use dodder.Text.{trim_space}
use dodder.Doddish.Op.{is_space}
use dodder.Genres.{max_genre, get_genre_bit_int, string, set}

-- For every byte, the bit of a genre is 2 to the power of the genre, and there is none (the call
-- panics) for the unknown genre and for numbers behind the last genre.
pub bit_int-eq :
    (g : ℕ) → get_genre_bit_int g ≡ (if leb 1 g && leb g max_genre then done (2 ^ g) else panic)
unfolding get_genre_bit_int
bit_int-eq zero = refl
bit_int-eq (suc zero) = refl
bit_int-eq (suc (suc zero)) = refl
bit_int-eq (suc (suc (suc zero))) = refl
bit_int-eq (suc (suc (suc (suc zero)))) = refl
bit_int-eq (suc (suc (suc (suc (suc zero))))) = refl
bit_int-eq (suc (suc (suc (suc (suc (suc zero)))))) = refl
bit_int-eq (suc (suc (suc (suc (suc (suc (suc zero))))))) = refl
bit_int-eq (suc (suc (suc (suc (suc (suc (suc (suc g)))))))) = ground arith

-- A known genre is got back from its name, whatever genre it is set on, and the name of the unknown
-- genre is refused.
pub set-string_of_genre :
    (g old : ℕ) → g ≤ max_genre → set (string g) old ≡ (if leb 1 g then (g, true) else (old, false))
unfolding set string trim_space runes decode_rune is_space bytes_eq
set-string_of_genre zero old h = refl
set-string_of_genre (suc zero) old h = refl
set-string_of_genre (suc (suc zero)) old h = refl
set-string_of_genre (suc (suc (suc zero))) old h = refl
set-string_of_genre (suc (suc (suc (suc zero)))) old h = refl
set-string_of_genre (suc (suc (suc (suc (suc zero))))) old h = refl
set-string_of_genre (suc (suc (suc (suc (suc (suc zero)))))) old h = refl
set-string_of_genre (suc (suc (suc (suc (suc (suc (suc zero))))))) old h = refl
set-string_of_genre (suc (suc (suc (suc (suc (suc (suc (suc g)))))))) old h = absurd (omega arith)
