-- ===== src/Coordinates/Float.antt =====
-- The rounding of a float32: the nearest number of 24 significant bits, a tie to the even one.
use dodder.Prelude.{
  ℕ, zero, suc, ◌+◌, ◌-◌, ◌*◌, ◌/◌, ◌%◌, ◌^◌, ◌<◌, ◌≤◌, ◌≡◌, arith, ◌&&◌, ◌||◌, ltb, ◌==◌,
  if◌then◌else◌, lt→ltb,
}
use native.Mathlib.Decide.{dec_lt}

-- how many binary digits `n` has beyond 24; the fuel is enough below 2 ^ 88
excess : ℕ → ℕ → ℕ
excess zero n = 0
excess (suc f) n = let more = excess f (n / 2) + 1 in if ltb n (2 ^ 24) then 0 else more

-- the nearest multiple of 2 * half, for a half that is a power of two
round_at : ℕ → ℕ → ℕ
round_at half n =
    let q = n / (2 * half) in
    let r = n % (2 * half) in
    if ltb half r || (half == r && q % 2 == 1) then (q + 1) * (2 * half) else q * (2 * half)

unfoldable pub round : ℕ → ℕ
unfolding excess round_at
round n = let e = excess 64 n in if e == 0 then n else round_at (2 ^ (e - 1)) n

excess_small : (f n : ℕ) → n < 2 ^ 24 → excess (suc f) n ≡ 0
unfolding excess
excess_small f n h = rw (lt→ltb n (2 ^ 24) h)

excess_one : (f n : ℕ) → 2 ^ 24 ≤ n → n < 2 ^ 25 → excess (suc (suc f)) n ≡ 1
unfolding excess
excess_one f n lo hi = ground (arith, excess_small f (n / 2))

round_at-even : (k : ℕ) → round_at 1 (2 * k) ≡ 2 * k
unfolding round_at
round_at-even k = ground arith

-- What fits in 24 digits is kept.
pub round_small : (n : ℕ) → n < 2 ^ 24 → round n ≡ n
unfolding round
round_small n h = rw (excess_small 63 n h)

-- An even number that fits in 25 digits is kept.
pub round_even : (k : ℕ) → k < 2 ^ 24 → round (2 * k) ≡ 2 * k
unfolding round
round_even k h = elim (dec_lt (2 * k) (2 ^ 24)) [
  | yes p ↦ rw (excess_small 63 (2 * k) p)
  | no p ↦ rw (excess_one 62 (2 * k) (omega arith) (omega arith)) (round_at-even k)
]
