-- ===== src/Merge/Union.antt =====
-- The merging of two sorted sequences is their union, in order.
use dodder.Prelude.{
  ◌≡◌, ◌≢◌, ◌⊎◌, inl, inr, refl, sym, ap, ◌∙◌, List, [], ◌∷◌, Option, none, some, All,
}
use dodder.Compare.{Result, less, equal, greater}
use dodder.Merge.{merge_seq_error_left}
use dodder.Merge.Plain.{
  Result-cases, items, merged, merged-equal, merged-less, merged-greater,
  merge_seq_error_left-items,
}

-- a comparison by a total order, in which different elements may be equal
pub record IsOrder {E : Type 0} (cmp : E → E → Result) : Type 0 where
  pub flip_less : (a b : E) → cmp a b ≡ less → cmp b a ≡ greater
  pub flip_greater : (a b : E) → cmp a b ≡ greater → cmp b a ≡ less
  pub flip_equal : (a b : E) → cmp a b ≡ equal → cmp b a ≡ equal
  pub less_less : (a b c : E) → cmp a b ≡ less → cmp b c ≡ less → cmp a c ≡ less
  pub equal_same : (a b c : E) → cmp a b ≡ equal → cmp a c ≡ cmp b c

module _ {E : Type 0} (cmp : E → E → Result) where
  abbrev pub IsUpTo : E → E → Type 0
  IsUpTo a b = cmp a b ≢ greater

  abbrev pub IsSorted : List E → Type 0
  IsSorted [] = Unit
  IsSorted (x ∷ xs) = All (IsUpTo x) xs × IsSorted xs

  abbrev pub or_else : Option E → Option E → Option E
  or_else none o = o
  or_else (some e) o = some e

  -- the first element that is equal to `k`
  unfoldable pub find : E → List E → Option E
  find k [] = none
  find k (x ∷ xs) =
      let rest = find k xs in elim (cmp x k) [ equal ↦ some x | less ↦ rest | greater ↦ rest ]

  pub find-here : (k x : E) (xs : List E) → cmp x k ≡ equal → find k (x ∷ xs) ≡ some x
  unfolding find
  find-here k x xs e = rw (e, find) refl

  pub find-there : (k x : E) (xs : List E) → cmp x k ≢ equal → find k (x ∷ xs) ≡ find k xs
  unfolding find
  find-there k x xs ne = elim (Result-cases (cmp x k)) [
    | inl e ↦ absurd (ne e)
    | inr (inl e) ↦ rw (e, find) refl
    | inr (inr e) ↦ rw (e, find) refl
  ]

  All-merged : (P : E → Type 0) (xs ys : List E) → All P xs → All P ys → All P (merged cmp xs ys)
  unfolding merged
  All-merged P [] [] hx hy = hx
  All-merged P (a ∷ xs) [] hx hy = hx
  All-merged P [] (b ∷ ys) hx hy = hy
  All-merged P (a ∷ xs) (b ∷ ys) hx hy = elim (Result-cases (cmp a b)) [
    | inl e ↦ rw (e, merged) (hx.0, All-merged P xs ys hx.1 hy.1)
    | inr (inl e) ↦ rw (e, merged) (hx.0, All-merged P xs (b ∷ ys) hx.1 hy)
    | inr (inr e) ↦ rw (e, merged) (hy.0, All-merged P (a ∷ xs) ys hx hy.1)
  ]

  pub or_else-none : (o : Option E) → or_else o none ≡ o
  or_else-none none = refl
  or_else-none (some e) = refl

  joined : (o o' u u' : Option E) → o ≡ u → o' ≡ u' → or_else u u' ≡ or_else o o'
  joined o o' u u' p q = cc

  pub equal_or_not : (x k : E) → (cmp x k ≡ equal) ⊎ (cmp x k ≢ equal)
  equal_or_not x k = elim (Result-cases (cmp x k)) [
    | inl e ↦ inl e
    | inr (inl e) ↦ inr (λ h. cc)
    | inr (inr e) ↦ inr (λ h. cc)
  ]

  module _ (order : IsOrder cmp) where
    IsUpTo-trans : (a b c : E) → IsUpTo a b → IsUpTo b c → IsUpTo a c
    IsUpTo-trans a b c p q g = elim (Result-cases (cmp a b)) [
      | inl ab ↦ let same = order.equal_same a b c ab in q (sym same ∙ g)
      | inr (inl ab) ↦ elim (Result-cases (cmp b c)) [
        | inl bc ↦
            let cb = order.equal_same c b a (order.flip_equal b c bc) in
            let ba = order.flip_less a b ab in let ca = order.flip_greater a c g in cc
        | inr (inl bc) ↦ let ac = order.less_less a b c ab bc in cc
        | inr (inr bc) ↦ q bc
      ]
      | inr (inr ab) ↦ p ab
    ]

    IsUpTo-equal : (a b : E) → cmp a b ≡ equal → IsUpTo a b
    IsUpTo-equal a b e g = cc

    IsUpTo-less : (a b : E) → cmp a b ≡ less → IsUpTo a b
    IsUpTo-less a b e g = cc

    IsUpTo-All : (a b : E) (xs : List E) → IsUpTo a b → All (IsUpTo b) xs → All (IsUpTo a) xs
    IsUpTo-All a b [] h all = tt
    IsUpTo-All a b (x ∷ xs) h all = (IsUpTo-trans a b x h all.0, IsUpTo-All a b xs h all.1)

    pub merged-IsSorted : (xs ys : List E) → IsSorted xs → IsSorted ys → IsSorted (merged cmp xs ys)
    unfolding merged
    merged-IsSorted [] [] hx hy = hx
    merged-IsSorted (a ∷ xs) [] hx hy = hx
    merged-IsSorted [] (b ∷ ys) hx hy = hy
    merged-IsSorted (a ∷ xs) (b ∷ ys) hx hy = elim (Result-cases (cmp a b)) [
      | inl e ↦
          let up = IsUpTo-All a b ys (IsUpTo-equal a b e) hy.0 in
          rw (e, merged) (All-merged (IsUpTo a) xs ys hx.0 up, merged-IsSorted xs ys hx.1 hy.1)
      | inr (inl e) ↦
          let ab = IsUpTo-less a b e in
          rw (e, merged)
            (
              All-merged (IsUpTo a) xs (b ∷ ys) hx.0 (ab, IsUpTo-All a b ys ab hy.0),
              merged-IsSorted xs (b ∷ ys) hx.1 hy,
            )
      | inr (inr e) ↦
          let ba = IsUpTo-less b a (order.flip_greater a b e) in
          rw (e, merged)
            (
              All-merged (IsUpTo b) (a ∷ xs) ys (ba, IsUpTo-All b a xs ba hx.0) hy.0,
              merged-IsSorted (a ∷ xs) ys hx hy.1,
            )
    ]

    -- nothing is equal to an element that stands before a sorted list
    find-none : (k a : E) (xs : List E) → cmp k a ≡ less → All (IsUpTo a) xs → find k xs ≡ none
    unfolding find
    find-none k a [] below all = refl
    find-none k a (x ∷ xs) below all =
        find-there k x xs
          (λ e. let ka = order.equal_same x k a e in all.0 (order.flip_less x a (ka ∙ below)))
        ∙ find-none k a xs below all.1

    find-greater :
        (k a b : E) (xs : List E)
        → cmp a b ≡ greater
        → cmp b k ≡ equal
        → All (IsUpTo a) xs
        → find k (a ∷ xs) ≡ none
    find-greater k a b xs above same all =
        let ka : cmp k a ≡ less =
          sym (order.equal_same b k a same) ∙ order.flip_greater a b above in
        find-there k a xs (λ e. let ak = order.flip_less k a ka in cc) ∙ find-none k a xs ka all

    pub find-merged :
        (k : E) (xs ys : List E)
        → IsSorted xs
        → find k (merged cmp xs ys) ≡ or_else (find k xs) (find k ys)
    unfolding find merged
    find-merged k [] [] hx = refl
    find-merged k (a ∷ xs) [] hx = sym (or_else-none (find k (a ∷ xs)))
    find-merged k [] (b ∷ ys) hx = refl
    find-merged k (a ∷ xs) (b ∷ ys) hx = elim (Result-cases (cmp a b)) [
      | inl e ↦ ap (find k) (merged-equal cmp a b xs ys e) ∙ elim (equal_or_not a k) [
        | inl here ↦
            find-here k a (merged cmp xs ys) here
            ∙ ap (λ o. or_else o (find k (b ∷ ys))) (sym (find-here k a xs here))
        | inr not_here ↦
            let not_there : cmp b k ≢ equal = λ h. not_here (order.equal_same a b k e ∙ h) in
            find-there k a (merged cmp xs ys) not_here
            ∙ find-merged k xs ys hx.1
            ∙ joined _ _ _ _ (find-there k a xs not_here) (find-there k b ys not_there)
      ]
      | inr (inl e) ↦ ap (find k) (merged-less cmp a b xs ys e) ∙ elim (equal_or_not a k) [
        | inl here ↦
            find-here k a (merged cmp xs (b ∷ ys)) here
            ∙ ap (λ o. or_else o (find k (b ∷ ys))) (sym (find-here k a xs here))
        | inr not_here ↦
            find-there k a (merged cmp xs (b ∷ ys)) not_here
            ∙ find-merged k xs (b ∷ ys) hx.1
            ∙ joined _ _ _ _ (find-there k a xs not_here) refl
      ]
      | inr (inr e) ↦ ap (find k) (merged-greater cmp a b xs ys e) ∙ elim (equal_or_not b k) [
        | inl here ↦
            find-here k b (merged cmp (a ∷ xs) ys) here
            ∙ sym (
                joined _ _ _ _ (sym (find-greater k a b xs e here hx.0))
                  (sym (find-here k b ys here)))
        | inr not_here ↦
            find-there k b (merged cmp (a ∷ xs) ys) not_here
            ∙ find-merged k (a ∷ xs) ys hx
            ∙ joined _ _ _ _ refl (find-there k b ys not_here)
      ]
    ]

    -- Let both sequences be sorted by the comparison, which is by a total order, and have no errors
    -- and no nil pointers. Then their merging ends and gives a sorted sequence without errors in
    -- which the first element that is equal to a given one is that of the left sequence, or, where
    -- it has none, that of the right.
    pub merge_seq_error_left-union :
        (xs ys : List E)
        → IsSorted xs
        → IsSorted ys
        → (zs : List E) × (merge_seq_error_left cmp (items xs) (items ys) ≡ some (items zs))
          × IsSorted zs
          × ((k : E) → find k zs ≡ or_else (find k xs) (find k ys))
    merge_seq_error_left-union xs ys hx hy = (
      merged cmp xs ys,
      merge_seq_error_left-items cmp xs ys,
      merged-IsSorted xs ys hx hy,
      λ k. find-merged k xs ys hx,
    )
