-- ===== src/Coordinates.antt =====
-- go/internal/_/coordinates/kennung.go: the numbering of the pairs of positions in the two word
-- lists. An `Int` is a uint32, so arithmetic on it is taken modulo 2 ^ 32.
--
-- A float32 that occurs here is half of a natural number: it is kept as that number, and `round`
-- is the rounding of float32 (24 significant bits, ties to even), which does not depend on the
-- scale. At 0 the factor `n1 - 1` is -1 in the source and 0 here; its product with 0 is 0 in both.
-- A float above the range of uint32, whose conversion Go leaves to the implementation, keeps its
-- low 32 bits.
pub mod Float
pub mod RoundTrip
mod Tests
use dodder.Prelude.{
  ℕ, zero, suc, ◌+◌, ◌-◌, ◌*◌, ◌/◌, ◌%◌, ◌^◌, Bool, ◌&&◌, ◌==◌, leb, ltb, if◌then◌else◌,
}
use Float.{round}

abbrev pub int_mod : ℕ
int_mod = 2 ^ 32

pub record ZettelIdCoordinate : Type 0 where
  pub left : ℕ
  pub right : ℕ

pub equals : ZettelIdCoordinate → ZettelIdCoordinate → Bool
equals p q = p.left == q.left && p.right == q.right

-- Left is ((n1 - 1) * n1 / 2) + 1 and Right is n1 * ((n1 + 1) / 2), both in halves until the
-- conversion to `Int`
unfoldable pub extrema : ℕ → ZettelIdCoordinate
extrema n =
    let n1 = round n in
    record {
      left = round (round (round (n1 - 1) * n1) + 2) / 2 % int_mod;
      right = round (n1 * round (n1 + 1)) / 2 % int_mod;
    }

-- the square root below `r + 2 ^ k`, one binary digit a round
pub sqrt_digits : ℕ → ℕ → ℕ → ℕ
sqrt_digits zero m r = r
sqrt_digits (suc k) m r =
    sqrt_digits k m (if leb ((r + 2 ^ k) * (r + 2 ^ k)) m then r + 2 ^ k else r)

-- math.Round(math.Sqrt(float64(m))) for m below 2 ^ 32: the integer nearest to the root
pub round_sqrt : ℕ → ℕ
round_sqrt m = let r = sqrt_digits 16 m 0 in if ltb (r * r + r) m then r + 1 else r

unfoldable pub set_int : ℕ → ZettelIdCoordinate
set_int id =
    let ext = extrema (round_sqrt (id * 2 % int_mod)) in
    record {
      left = (id + int_mod - ext.left) % int_mod;
      right = (ext.right + int_mod - id) % int_mod;
    }

unfoldable pub id : ZettelIdCoordinate → ℕ
id p = let ext = extrema ((p.left + p.right + 1) % int_mod) in (ext.left + p.left) % int_mod
