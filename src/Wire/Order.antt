-- ===== src/Wire/Order.antt =====
-- bytes.Compare is a strict total order on byte strings.
use dodder.Prelude.{ℕ, ◌≤◌, ◌<◌, ◌≡◌, refl, [], ◌∷◌, Bytes, arith}
use dodder.Wire.{less, equal, greater, compare_bytes}

abbrev pub IsLess : Bytes → Bytes → Type 0
IsLess x y = compare_bytes x y ≡ less

pub compare_bytes_self : (x : Bytes) → compare_bytes x x ≡ equal
unfolding compare_bytes
compare_bytes_self [] = refl
compare_bytes_self (a ∷ x) = ground (arith, compare_bytes_self x)

pub compare_bytes-eq : (x y : Bytes) → compare_bytes x y ≡ equal → x ≡ y
unfolding compare_bytes
compare_bytes-eq [] [] h = refl
compare_bytes-eq [] (b ∷ y) h = absurd (cc)
compare_bytes-eq (a ∷ x) [] h = absurd (cc)
compare_bytes-eq (a ∷ x) (b ∷ y) h = ground (arith, compare_bytes-eq x y)

pub compare_bytes-swap : (x y : Bytes) → compare_bytes x y ≡ greater → IsLess y x
unfolding compare_bytes
compare_bytes-swap [] [] h = absurd (cc)
compare_bytes-swap [] (b ∷ y) h = absurd (cc)
compare_bytes-swap (a ∷ x) [] h = refl
compare_bytes-swap (a ∷ x) (b ∷ y) h = ground (arith, compare_bytes-swap x y)

pub compare_bytes_trans : (x y z : Bytes) → IsLess x y → IsLess y z → IsLess x z
unfolding compare_bytes
compare_bytes_trans [] [] z h k = absurd (cc)
compare_bytes_trans [] (b ∷ y) [] h k = absurd (cc)
compare_bytes_trans [] (b ∷ y) (c ∷ z) h k = refl
compare_bytes_trans (a ∷ x) [] z h k = absurd (cc)
compare_bytes_trans (a ∷ x) (b ∷ y) [] h k = absurd (cc)
compare_bytes_trans (a ∷ x) (b ∷ y) (c ∷ z) h k = ground (arith, compare_bytes_trans x y z)

-- the first bytes are in order
pub compare_bytes-first : (a b : ℕ) (x y : Bytes) → IsLess (a ∷ x) (b ∷ y) → a ≤ b
unfolding compare_bytes
compare_bytes-first a b x y h = ground arith

pub IsLess-first : (a b : ℕ) (x y : Bytes) → a < b → IsLess (a ∷ x) (b ∷ y)
unfolding compare_bytes
IsLess-first a b x y h = ground arith
