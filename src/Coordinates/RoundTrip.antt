-- ===== src/Coordinates/RoundTrip.antt =====
-- Numbers and coordinates of go/internal/_/coordinates/kennung.go, one from the other.
use native.Mathlib.Decide.{dec_lt}
use native.Mathlib.Nat.{pow-suc}
use dodder.Prelude.{
  ℕ, zero, suc, ◌+◌, ◌-◌, ◌*◌, ◌/◌, ◌%◌, ◌^◌, ◌<◌, ◌≤◌, ◌≡◌, refl, arith, leb, ltb, if◌then◌else◌,
  Bool-cases, inl, inr, leb→le, ltb→lt,
}
use dodder.Coordinates.{ZettelIdCoordinate, int_mod, extrema, sqrt_digits, round_sqrt, set_int, id}
use dodder.Coordinates.Float.{round, round_small, round_even}

sqrt_digits_bounds :
    (k m r : ℕ)
    → r * r ≤ m
    → m < (r + 2 ^ k) * (r + 2 ^ k)
    → (sqrt_digits k m r * sqrt_digits k m r ≤ m)
      × (m < (sqrt_digits k m r + 1) * (sqrt_digits k m r + 1))
unfolding sqrt_digits
sqrt_digits_bounds zero m r lo hi = (lo, hi)
sqrt_digits_bounds (suc k) m r lo hi = elim (Bool-cases (leb ((r + 2 ^ k) * (r + 2 ^ k)) m)) [
  | inl fits ↦ rw fits (
      sqrt_digits_bounds k m (r + 2 ^ k) (leb→le _ m fits)
        (let e : r + 2 ^ suc k ≡ r + 2 ^ k + 2 ^ k = omega (arith, pow-suc 2 k) in rw e at hi))
  | inr over ↦ rw over (sqrt_digits_bounds k m r lo (ground (arith, over)))
]

square_gap : (a b : ℕ) → a < b → a * a + a + b ≤ b * b
square_gap a b h = let c = b - a - 1 in let e : b ≡ a + 1 + c = omega arith in rw e (grind arith)

-- at most one number lies this near to the root of `m`
nearest_unique : (t n m : ℕ) → t * t < m + t → m ≤ t * t + t → n * n < m + n → m ≤ n * n + n → t ≡ n
nearest_unique t n m p q p' q' = elim (dec_lt t n) [
  | yes h ↦ absurd (omega (arith, square_gap t n h))
  | no h ↦ elim (dec_lt n t) [
    | yes k ↦ absurd (omega (arith, square_gap n t k))
    | no k ↦ omega arith
  ]
]

square-lt : (s m : ℕ) → 0 < m → s * s ≤ m → s * s < m + s
square-lt zero m pos h = omega arith
square-lt (suc s) m pos h = omega arith

-- what `round_sqrt` picks from the root `s`
nearest-eq :
    (s n m : ℕ)
    → 0 < m
    → s * s ≤ m
    → m < (s + 1) * (s + 1)
    → n * n < m + n
    → m ≤ n * n + n
    → (if ltb (s * s + s) m then s + 1 else s) ≡ n
nearest-eq s n m pos lo hi above below = elim (Bool-cases (ltb (s * s + s) m)) [
  | inl far ↦
      rw far (nearest_unique (s + 1) n m (omega (arith, ltb→lt _ m far)) (omega arith) above below)
  | inr near ↦
      rw near (nearest_unique s n m (square-lt s m pos lo) (ground (arith, near)) above below)
]

-- the nearest integer to the root of a number strictly above n (n - 1) and at most n (n + 1)
round_sqrt-eq : (n m : ℕ) → 0 < m → m < 2 ^ 32 → n * n < m + n → m ≤ n * n + n → round_sqrt m ≡ n
unfolding round_sqrt
round_sqrt-eq n m pos fits lo hi =
    let bounds = sqrt_digits_bounds 16 m 0 (omega arith) fits in
    nearest-eq (sqrt_digits 16 m 0) n m pos bounds.0 bounds.1 lo hi

pred_mul_bound : (n : ℕ) → n ≤ 5792 → (n - 1) * n ≤ 5791 * 5792
pred_mul_bound n h = grind arith

pred_mul_above : (n : ℕ) → 5792 < n → 5792 * 5793 ≤ (n - 1) * n
pred_mul_above n h = grind arith

mul_next : (n : ℕ) → n * (n + 1) ≡ (n - 1) * n + 2 * n
mul_next zero = refl
mul_next (suc n) = let e : suc n - 1 ≡ n = omega arith in rw e (omega arith)

-- On these diagonals no rounding takes place.
extrema-eq :
    (n a : ℕ) → n ≤ 5792 → (n - 1) * n ≡ 2 * a → extrema n ≡ record { left = a + 1; right = a + n }
unfolding extrema
extrema-eq n a fits half =
    let bound = pred_mul_bound n fits in
    let row : (n - 1) * n + 2 ≡ 2 * (a + 1) = omega arith in
    let next : n * (n + 1) ≡ 2 * (a + n) = omega (arith, mul_next n) in
    let e0 : round n ≡ n = round_small n (omega arith) in
    let e1 : round (n - 1) ≡ n - 1 = round_small (n - 1) (omega arith) in
    let e2 : round (n + 1) ≡ n + 1 = round_small (n + 1) (omega arith) in
    let e3 : round (2 * a) ≡ 2 * a = round_even a (omega arith) in
    let e4 : round (2 * (a + 1)) ≡ 2 * (a + 1) = round_even (a + 1) (omega arith) in
    let e5 : round (2 * (a + n)) ≡ 2 * (a + n) = round_even (a + n) (omega arith) in
    let e6 : 2 * a + 2 ≡ 2 * (a + 1) = omega arith in
    let e7 : 2 * (a + 1) / 2 % 2 ^ 32 ≡ a + 1 = omega arith in
    let e8 : 2 * (a + n) / 2 % 2 ^ 32 ≡ a + n = omega arith in
    rw (e0, e1, e2, half, next, e3) (rw (e6, e4, e5) (rw (e7, e8) refl))

-- how many pairs stand on the diagonals before the n-th; the n-th has n of them
abbrev pub pairs_before : ℕ → ℕ
pairs_before zero = 0
pairs_before (suc n) = pairs_before n + n

pub twice-pairs_before : (n : ℕ) → (n - 1) * n ≡ 2 * pairs_before n
twice-pairs_before zero = refl
twice-pairs_before (suc n) =
    let e : suc n - 1 ≡ n = omega arith in rw e (omega (arith, twice-pairs_before n, mul_next n))

pairs_before_small : (n : ℕ) → n ≤ 5792 → pairs_before n + n < 2 ^ 24
pairs_before_small n h = omega (arith, twice-pairs_before n, pred_mul_bound n h)

extrema_row :
    (n : ℕ)
    → n ≤ 5792
    → extrema n ≡ record { left = pairs_before n + 1; right = pairs_before n + n }
extrema_row n h = extrema-eq n (pairs_before n) h (twice-pairs_before n)

-- The number of a pair counts the pairs up to it, diagonal by diagonal, if the two positions add
-- up to at most 5791.
pub id-eq :
    (p : ZettelIdCoordinate)
    → p.left + p.right + 1 ≤ 5792
    → id p ≡ pairs_before (p.left + p.right + 1) + 1 + p.left
unfolding id
id-eq p h =
    let n = p.left + p.right + 1 in
    let small : n % int_mod ≡ n = omega arith in
    rw (small, extrema_row n h) (omega (arith, pairs_before_small n h))

-- the diagonal on which a number stands
row-eq :
    (l r : ℕ)
    → l + r + 1 ≤ 5792
    → round_sqrt ((pairs_before (l + r + 1) + 1 + l) * 2 % int_mod) ≡ l + r + 1
row-eq l r h =
    let n = l + r + 1 in
    let k = pairs_before n + 1 + l in
    let small = pairs_before_small n h in
    let e : k * 2 % int_mod ≡ k * 2 = omega arith in
    let twice = twice-pairs_before n in
    let sq = mul_next n in
    rw e (round_sqrt-eq n (k * 2) (omega arith) (omega arith) (omega arith) (omega arith))

set_int_row :
    (l r : ℕ)
    → l + r + 1 ≤ 5792
    → set_int (pairs_before (l + r + 1) + 1 + l) ≡ record { left = l; right = r }
set_int_row l r h =
    let n = l + r + 1 in
    let small = pairs_before_small n h in
    let el : (pairs_before n + 1 + l + int_mod - (pairs_before n + 1)) % int_mod ≡ l =
      omega arith in
    let er : (pairs_before n + n + int_mod - (pairs_before n + 1 + l)) % int_mod ≡ r =
      omega arith in
    unfold set_int in rw (row-eq l r h, extrema_row n h) (rw (el, er) refl)

-- Setting a coordinate from the number of a pair gives the pair back, if the two positions add up
-- to at most 5791.
pub set_int-id : (p : ZettelIdCoordinate) → p.left + p.right + 1 ≤ 5792 → set_int (id p) ≡ p
set_int-id p h = rw (id-eq p h) (set_int_row p.left p.right h)

-- every positive number is that of a pair
pub pair_at : (k : ℕ) → (l : ℕ) × (r : ℕ) × (suc k ≡ pairs_before (l + r + 1) + 1 + l)
pair_at zero = (0, 0, refl)
pair_at (suc k) = next (pair_at k)
  where
    next :
        ((l : ℕ) × (r : ℕ) × (suc k ≡ pairs_before (l + r + 1) + 1 + l))
        → (l : ℕ) × (r : ℕ) × (suc (suc k) ≡ pairs_before (l + r + 1) + 1 + l)
    next (l, zero, e) = (
      0,
      l + 1,
      let n : 0 + (l + 1) + 1 ≡ suc (l + 0 + 1) = omega arith in rw n (omega (arith, e)),
    )
    next (l, suc r, e) =
        (l + 1, r, let n : l + 1 + r + 1 ≡ l + suc r + 1 = omega arith in rw n (omega (arith, e)))

row_bound : (n : ℕ) → pairs_before n < 16776528 → n ≤ 5792
row_bound n h = elim (dec_lt 5792 n) [
  | yes far ↦ absurd (omega (arith, twice-pairs_before n, pred_mul_above n far))
  | no near ↦ omega arith
]

-- A number is got back from the coordinate that is set from it, if it is positive and at most
-- 16776528, the last number of diagonal 5792.
pub id-set_int : (k : ℕ) → 0 < k → k ≤ 16776528 → id (set_int k) ≡ k
id-set_int zero pos fits = absurd (omega arith)
id-set_int (suc k) pos fits =
    let (l, r, e) = pair_at k in
    let short = row_bound (l + r + 1) (omega arith) in
    rw (e, set_int_row l r short) (id-eq (record { left = l; right = r }) short)
