-- ===== src/Merge.antt =====
-- go/lib/charlie/quiter/merge.go: the merging of two sorted sequences, which the indexes use to put
-- added objects between those of a file. A sequence is the list of what it gives one after the
-- other; the result is what a consumer is given that does not stop, and one that stops is given a
-- beginning of it.
pub mod Plain
pub mod Union
pub mod Errors
mod Tests
use dodder.Prelude.{ℕ, zero, suc, ◌+◌, ◌≡◌, List, [], ◌∷◌, Option, none, some, length}
use dodder.Compare.{Result, less, equal, greater}

-- what a sequence gives: a pointer to an element, nil, or an error
pub data Item (E : Type 0) : Type 0 where
  element : E → Item E
  no_element : Item E
  failed : ℕ → Item E

-- readWithElement: the sequence that is read, and the element that was read and not given yet
pub record Side (E : Type 0) : Type 0 where
  pub rest : List (Item E)
  pub carry : Option E

-- how the reading of a side that may carry an element ends
pub data Fetched (E : Type 0) : Type 0 where
  ended : Fetched E
  erred : ℕ → Fetched E
  got_nil : Fetched E
  holds : E → List (Item E) → Fetched E

module _ {E : Type 0} where
  fetch_from : List (Item E) → Fetched E
  fetch_from [] = ended
  fetch_from (element e ∷ rest) = holds e rest
  fetch_from (no_element ∷ rest) = got_nil
  fetch_from (failed x ∷ rest) = erred x

  unfoldable pub fetch : Side E → Fetched E
  unfolding fetch_from
  fetch s = elim s.carry [ some e ↦ holds e s.rest | none ↦ fetch_from s.rest ]

  -- the last loop: what is left of a sequence, up to an error
  unfoldable pub emit_rest : List (Item E) → List (Item E)
  emit_rest [] = []
  emit_rest (failed x ∷ rest) = failed x ∷ []
  emit_rest (element e ∷ rest) = element e ∷ emit_rest rest
  emit_rest (no_element ∷ rest) = no_element ∷ emit_rest rest

  unfoldable pub emit_remaining : Side E → List (Item E)
  unfolding emit_rest
  emit_remaining s = elim s.carry [
    | some e ↦ element e ∷ emit_rest s.rest
    | none ↦ emit_rest s.rest
  ]

  abbrev pub side : List (Item E) → Option E → Side E
  side rest carry = record { rest = rest; carry = carry }

  abbrev pub then_give : E → Option (List (Item E)) → Option (List (Item E))
  then_give e none = none
  then_give e (some out) = some (element e ∷ out)

module _ {E : Type 0} (cmp : E → E → Result) where
  -- the first loop, for as many rounds as the fuel says
  unfoldable pub merge_loop : ℕ → Side E → Side E → Option (List (Item E))
  unfolding fetch emit_remaining
  merge_loop zero left right = none
  merge_loop (suc fuel) left right = elim (fetch right) [
    | ended ↦ some (emit_remaining left)
    | erred x ↦ some (failed x ∷ [])
    | got_nil ↦ some (emit_remaining left)
    | holds b right' ↦ elim (fetch left) [
      | ended ↦ some (emit_remaining (side right' (some b)))
      | erred x ↦ some (failed x ∷ [])
      | got_nil ↦ some (emit_remaining (side right' (some b)))
      | holds a left' ↦ elim (cmp a b) [
        | equal ↦ then_give a (merge_loop fuel (side left' none) (side right' none))
        | less ↦ then_give a (merge_loop fuel (side left' none) (side right' (some b)))
        | greater ↦ then_give b (merge_loop fuel (side left' (some a)) (side right' none))
      ]
    ]
  ]

  -- MergeSeqErrorLeft; each round gives an element, so that there are no more than elements
  unfoldable pub merge_seq_error_left : List (Item E) → List (Item E) → Option (List (Item E))
  unfolding merge_loop
  merge_seq_error_left left right =
      merge_loop (length left + length right + 1) (side left none) (side right none)
