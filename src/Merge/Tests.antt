-- ===== src/Merge/Tests.antt =====
-- Runs of go/lib/charlie/quiter/merge.go on small sequences, and the instances of its theorems.
use Prim.Native.Nat.{compare, Ordering}
use dodder.Prelude.{ℕ, ◌≡◌, refl, List, [], ◌∷◌, some, arith}
use dodder.Compare.{Result, less, equal, greater}
use dodder.Merge.{Item, element, failed, merge_seq_error_left}
use dodder.Merge.Plain.{items}
use dodder.Merge.Union.{IsOrder, IsSorted, or_else, find, merge_seq_error_left-union}

-- pairs that are compared by their first numbers
abbrev by_key : ℕ × ℕ → ℕ × ℕ → Result
by_key (a, x) (b, y) = elim (compare a b) [
  | Ordering.lt ↦ less
  | Ordering.eq ↦ equal
  | Ordering.gt ↦ greater
]

by_key-IsOrder : IsOrder by_key
by_key-IsOrder = record {
  flip_less = λ (a, x) (b, y) h. ground arith;
  flip_greater = λ (a, x) (b, y) h. ground arith;
  flip_equal = λ (a, x) (b, y) h. ground arith;
  less_less = λ (a, x) (b, y) (c, z) h k. ground arith;
  equal_same = λ (a, x) (b, y) (c, z) h. ground arith;
}

abbrev additions : List (ℕ × ℕ)
additions = (1, 10) ∷ (3, 10) ∷ []

abbrev history : List (ℕ × ℕ)
history = (0, 20) ∷ (3, 20) ∷ (4, 20) ∷ []

merge_seq_error_left-union_example :
    (zs : List (ℕ × ℕ)) × (merge_seq_error_left by_key (items additions) (items history)
      ≡ some (items zs))
    × IsSorted by_key zs
    × ((k : ℕ × ℕ)
        → find by_key k zs ≡ or_else by_key (find by_key k additions) (find by_key k history))
merge_seq_error_left-union_example =
    merge_seq_error_left-union by_key by_key-IsOrder additions history (((λ h. cc), tt), (tt, tt))
      (((λ h. cc), ((λ h. cc), tt)), (((λ h. cc), tt), (tt, tt)))

addition-preferred :
    merge_seq_error_left by_key (items additions) (items history)
    ≡ some (items ((0, 20) ∷ (1, 10) ∷ (3, 10) ∷ (4, 20) ∷ []))
unfolding merge_seq_error_left
addition-preferred = refl

abbrev broken : List (Item (ℕ × ℕ))
broken = element (2, 20) ∷ failed 7 ∷ element (5, 20) ∷ []

-- the addition behind the error is not given
error_given :
    merge_seq_error_left by_key (items additions) broken
    ≡ some (element (1, 10) ∷ element (2, 20) ∷ failed 7 ∷ [])
unfolding merge_seq_error_left
error_given = refl
