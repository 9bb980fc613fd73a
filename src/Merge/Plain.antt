-- ===== src/Merge/Plain.antt =====
-- Without errors and nil pointers, the merging of sequences is a merging of lists.
use dodder.Prelude.{
  ℕ, zero, suc, ◌+◌, ◌<◌, ◌≡◌, ◌⊎◌, inl, inr, refl, sym, ap, ◌∙◌, List, [], ◌∷◌, Option, none, some,
  length, map, arith,
}
use dodder.Compare.{Result, less, equal, greater}
use dodder.Merge.{
  Item, element, Side, side, Fetched, ended, holds, fetch, emit_rest, emit_remaining, then_give,
  merge_loop, merge_seq_error_left,
}

pub Result-cases : (r : Result) → (r ≡ equal) ⊎ ((r ≡ less) ⊎ (r ≡ greater))
Result-cases equal = inl refl
Result-cases less = inr (inl refl)
Result-cases greater = inr (inr refl)

module _ {E : Type 0} where
  abbrev pub items : List E → List (Item E)
  items = map element

  abbrev fetched : List E → Fetched E
  fetched [] = ended
  fetched (a ∷ xs) = holds a (items xs)

  -- a side that still has the elements of the list to give
  abbrev Shows : Side E → List E → Type 0
  Shows s xs = (fetch s ≡ fetched xs) × (emit_remaining s ≡ items xs)

  emit_rest-items : (xs : List E) → emit_rest (items xs) ≡ items xs
  unfolding emit_rest
  emit_rest-items [] = refl
  emit_rest-items (x ∷ xs) = ap (λ t. element x ∷ t) (emit_rest-items xs)

  Shows-none : (xs : List E) → Shows (side (items xs) none) xs
  unfolding fetch emit_remaining
  Shows-none [] = (refl, refl)
  Shows-none (x ∷ xs) = (refl, ap (λ t. element x ∷ t) (emit_rest-items xs))

  Shows-some : (x : E) (xs : List E) → Shows (side (items xs) (some x)) (x ∷ xs)
  unfolding fetch emit_remaining
  Shows-some x xs = (refl, ap (λ t. element x ∷ t) (emit_rest-items xs))

  length-items : (xs : List E) → length (items xs) ≡ length xs
  length-items [] = refl
  length-items (x ∷ xs) = ap suc (length-items xs)

module _ {E : Type 0} (cmp : E → E → Result) where
  -- the merging of two lists, which prefers the left one
  unfoldable pub merged : List E → List E → List E
  merged xs [] = xs
  merged [] (b ∷ ys) = b ∷ ys
  merged (a ∷ xs) (b ∷ ys) = elim (cmp a b) [
    | equal ↦ a ∷ merged xs ys
    | less ↦ a ∷ merged xs (b ∷ ys)
    | greater ↦ b ∷ merged (a ∷ xs) ys
  ]

  module _ (fuel : ℕ) (l r : Side E) (a b : E) (left right : List (Item E))
      (hl : fetch l ≡ holds a left) (hr : fetch r ≡ holds b right) where
    pub round_equal :
        cmp a b ≡ equal
        → merge_loop cmp (suc fuel) l r
          ≡ then_give a (merge_loop cmp fuel (side left none) (side right none))
    unfolding merge_loop
    round_equal e = rw (hr, hl, e, merge_loop) refl

    pub round_less :
        cmp a b ≡ less
        → merge_loop cmp (suc fuel) l r
          ≡ then_give a (merge_loop cmp fuel (side left none) (side right (some b)))
    unfolding merge_loop
    round_less e = rw (hr, hl, e, merge_loop) refl

    pub round_greater :
        cmp a b ≡ greater
        → merge_loop cmp (suc fuel) l r
          ≡ then_give b (merge_loop cmp fuel (side left (some a)) (side right none))
    unfolding merge_loop
    round_greater e = rw (hr, hl, e, merge_loop) refl

  module _ (fuel : ℕ) (l r : Side E) (xs : List E) where
    left_only : Shows l xs → fetch r ≡ ended → merge_loop cmp (suc fuel) l r ≡ some (items xs)
    unfolding merge_loop
    left_only sl e = rw (e, merge_loop) (ap some sl.1)

    right_only :
        (b : E)
        → fetch l ≡ ended
        → fetch r ≡ holds b (items xs)
        → merge_loop cmp (suc fuel) l r ≡ some (items (b ∷ xs))
    unfolding merge_loop
    right_only b el er = rw (er, el, merge_loop) (ap some (Shows-some b xs).1)

  module _ (a b : E) (xs ys : List E) where
    pub merged-equal : cmp a b ≡ equal → merged (a ∷ xs) (b ∷ ys) ≡ a ∷ merged xs ys
    unfolding merged
    merged-equal e = rw (e, merged) refl

    pub merged-less : cmp a b ≡ less → merged (a ∷ xs) (b ∷ ys) ≡ a ∷ merged xs (b ∷ ys)
    unfolding merged
    merged-less e = rw (e, merged) refl

    pub merged-greater : cmp a b ≡ greater → merged (a ∷ xs) (b ∷ ys) ≡ b ∷ merged (a ∷ xs) ys
    unfolding merged
    merged-greater e = rw (e, merged) refl

  given :
      (e : E) (o : Option (List (Item E))) (zs : List E)
      → o ≡ some (items zs)
      → then_give e o ≡ some (items (e ∷ zs))
  given e o zs h = ap (then_give e) h

  merge_loop-Shows :
      (fuel : ℕ) (l r : Side E) (xs ys : List E)
      → length xs + length ys < fuel
      → Shows l xs
      → Shows r ys
      → merge_loop cmp fuel l r ≡ some (items (merged xs ys))
  unfolding merged
  merge_loop-Shows zero l r xs ys h sl sr = elim h [ ]
  merge_loop-Shows (suc fuel) l r [] [] h sl sr = left_only fuel l r [] sl sr.0
  merge_loop-Shows (suc fuel) l r (a ∷ xs) [] h sl sr = left_only fuel l r (a ∷ xs) sl sr.0
  merge_loop-Shows (suc fuel) l r [] (b ∷ ys) h sl sr = right_only fuel l r ys b sl.0 sr.0
  merge_loop-Shows (suc fuel) l r (a ∷ xs) (b ∷ ys) h sl sr =
      let left_none = side (items xs) none in
      let right_none = side (items ys) none in
      elim (Result-cases (cmp a b)) [
        | inl same ↦
            round_equal fuel l r a b (items xs) (items ys) sl.0 sr.0 same
            ∙ given a _ (merged xs ys) (
                merge_loop-Shows fuel left_none right_none xs ys (omega arith) (Shows-none xs)
                  (Shows-none ys))
            ∙ ap (λ z. some (items z)) (sym (merged-equal a b xs ys same))
        | inr (inl below) ↦
            round_less fuel l r a b (items xs) (items ys) sl.0 sr.0 below
            ∙ given a _ (merged xs (b ∷ ys)) (
                merge_loop-Shows fuel left_none (side (items ys) (some b)) xs (b ∷ ys) (omega arith)
                  (Shows-none xs) (Shows-some b ys))
            ∙ ap (λ z. some (items z)) (sym (merged-less a b xs ys below))
        | inr (inr above) ↦
            round_greater fuel l r a b (items xs) (items ys) sl.0 sr.0 above
            ∙ given b _ (merged (a ∷ xs) ys) (
                merge_loop-Shows fuel (side (items xs) (some a)) right_none (a ∷ xs) ys
                  (omega arith) (Shows-some a xs) (Shows-none ys))
            ∙ ap (λ z. some (items z)) (sym (merged-greater a b xs ys above))
      ]

  pub merge_seq_error_left-items :
      (xs ys : List E)
      → merge_seq_error_left cmp (items xs) (items ys) ≡ some (items (merged xs ys))
  unfolding merge_seq_error_left
  merge_seq_error_left-items xs ys =
      merge_loop-Shows (length (items xs) + length (items ys) + 1) _ _ xs ys
        (omega (arith, length-items xs, length-items ys)) (Shows-none xs) (Shows-none ys)
