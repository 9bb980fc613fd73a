-- ===== src/ZettelIdIndex/Keys.antt =====
-- The keys of the map of available numbers.
use dodder.Prelude.{
  ℕ, ◌≡◌, ◌≢◌, ◌↔◌, List, [], ◌∷◌, ◌++◌, ◌⊎◌, inl, inr, true, Bool-cases, All, arith,
}
use dodder.ZettelIdIndex.{has_key, insert, delete, merge}

abbrev pub Has : ℕ → List ℕ → Type 0
Has n [] = ⊥
Has n (k ∷ keys) = (n ≡ k) ⊎ Has n keys

Has-has_key : (n : ℕ) (keys : List ℕ) → has_key n keys ≡ true → Has n keys
unfolding has_key
Has-has_key n [] h = cc
Has-has_key n (k ∷ keys) h = ground (arith, Has-has_key n keys)

Has-append : (n m : ℕ) (keys : List ℕ) → Has n (keys ++ m ∷ []) ↔ (Has n keys ⊎ (n ≡ m))
Has-append n m [] = ground arith
Has-append n m (k ∷ keys) = ground (arith, Has-append n m keys)

-- a number is a key after an insertion if it was one, or is the number put in
pub Has-insert : (n m : ℕ) (keys : List ℕ) → Has n (insert m keys) ↔ (Has n keys ⊎ (n ≡ m))
unfolding insert
Has-insert n m keys = elim (Bool-cases (has_key m keys)) [
  | inl there ↦ rw there (
    inl,
    λ (c : Has n keys ⊎ (n ≡ m)). elim c [ inl h ↦ h | inr e ↦ rw e (Has-has_key m keys there) ],
  )
  | inr new ↦ rw new (Has-append n m keys)
]

-- a number is a key after a deletion if it was one, and is not the number taken out
pub Has-delete : (n m : ℕ) (keys : List ℕ) → Has n (delete m keys) ↔ (Has n keys × (n ≢ m))
unfolding delete
Has-delete n m [] = ground arith
Has-delete n m (k ∷ keys) = ground (arith, Has-delete n m keys)

-- after reading, the keys are those of the blob and those that were there
pub Has-merge : (n : ℕ) (ns keys : List ℕ) → Has n (merge ns keys) ↔ (Has n ns ⊎ Has n keys)
unfolding merge
Has-merge n [] keys = ground arith
Has-merge n (m ∷ ns) keys = ground (arith, Has-merge n ns (insert m keys), Has-insert n m keys)

pub Has-All : (P : ℕ → Type 0) (n : ℕ) (keys : List ℕ) → All P keys → Has n keys → P n
Has-All P n [] h there = elim there [ ]
Has-All P n (k ∷ keys) h (inl e) = rw e h.0
Has-All P n (k ∷ keys) h (inr there) = Has-All P n keys h.1 there
