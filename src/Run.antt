-- ===== src/Run.antt =====
-- A Go computation that may panic: an index out of range, or a call of `panic`.
use dodder.Prelude.{ℕ, zero, suc, ◌+◌, ◌<◌, ◌≡◌, refl, List, [], ◌∷◌, ◌++◌, length, All, arith}

pub data Run {ℓ} (A : Type ℓ) : Type ℓ where
  done : A → Run A
  panic : Run A

infixl 5 ◌>>=◌
abbrev pub ◌>>=◌ {ℓ κ} : {A : Type ℓ} {B : Type κ} → Run A → (A → Run B) → Run B
done a >>= f = f a
panic >>= f = panic

-- `slice[i]`
abbrev pub index {ℓ} : {A : Type ℓ} → List A → ℕ → Run A
index [] i = panic
index (x ∷ xs) zero = done x
index (x ∷ xs) (suc i) = index xs i

pub done-injective {ℓ} : {A : Type ℓ} {x y : A} → done x ≡ done y → x ≡ y
done-injective h = cc

module _ {ℓ} {A : Type ℓ} where
  -- an index behind a known prefix
  pub index-append :
      (xs ys : List A) (i k : ℕ) → k ≡ length xs + i → index (xs ++ ys) k ≡ index ys i
  index-append [] ys i k e = let e' : k ≡ i = omega arith in rw e'
  index-append (x ∷ xs) ys i zero e = absurd (omega arith)
  index-append (x ∷ xs) ys i (suc k) e = index-append xs ys i k (omega arith)

  pub index-done : (xs : List A) (i : ℕ) → i < length xs → (x : A) × (index xs i ≡ done x)
  index-done [] i h = elim h [ ]
  index-done (x ∷ xs) zero h = (x, refl)
  index-done (x ∷ xs) (suc i) h = index-done xs i (omega arith)

  pub All-index {κ} :
      (P : A → Type κ) (xs : List A) (i : ℕ)
      → All P xs
      → i < length xs
      → (x : A) × (index xs i ≡ done x) × P x
  All-index P [] i h lt = elim lt [ ]
  All-index P (x ∷ xs) zero h lt = (x, refl, h.0)
  All-index P (x ∷ xs) (suc i) h lt = All-index P xs i h.1 (omega arith)
