-- ===== src/Merge/Errors.antt =====
-- Merging ends on all sequences, those with errors and nil pointers included.
use dodder.Prelude.{ℕ, suc, ◌+◌, ◌≡◌, List, [], ◌∷◌, Option, none, some, length}
use dodder.Compare.{Result}
use dodder.Merge.{Item, element, no_element, failed, Side, merge_loop}

module _ {E : Type 0} where
  -- an error stands last
  abbrev pub StopsAtError : List (Item E) → Type 0
  StopsAtError [] = Unit
  StopsAtError (failed x ∷ out) = out ≡ []
  StopsAtError (element e ∷ out) = StopsAtError out
  StopsAtError (no_element ∷ out) = StopsAtError out

  -- a merging that has ended, and gave nothing after an error
  abbrev pub Ends : Option (List (Item E)) → Type 0
  Ends o = (out : List (Item E)) × (o ≡ some out) × StopsAtError out

  -- the elements that a side may still give
  abbrev count : Side E → ℕ
  count s = elim s.carry [ some e ↦ length s.rest + 1 | none ↦ length s.rest ]

module _ {E : Type 0} (cmp : E → E → Result) where
  module _ (fuel : ℕ) (l r : Side E) where
    abbrev next : Option (List (Item E))
    next = merge_loop cmp (suc fuel) l r
