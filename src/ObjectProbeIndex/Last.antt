-- ===== src/ObjectProbeIndex/Last.antt =====
-- Of the elements that are equal to a given one, the last in a merging, and the one that is left of
-- each group.
use dodder.Prelude.{◌≡◌, ◌≢◌, inl, inr, refl, sym, ap, ◌∙◌, List, [], ◌∷◌, Option, none, some, All}
use dodder.Compare.{Result, less, equal, greater}
use dodder.Merge.Plain.{Result-cases, merged, merged-equal, merged-less, merged-greater}
use dodder.Merge.Union.{IsOrder, or_else, equal_or_not, or_else-none}

module _ {E : Type 0} (cmp : E → E → Result) where
  -- the last element that is equal to `k`
  unfoldable pub find_last : E → List E → Option E
  find_last k [] = none
  find_last k (x ∷ xs) =
      or_else cmp (find_last k xs)
        (elim (cmp x k) [ equal ↦ some x | less ↦ none | greater ↦ none ])

  abbrev pub IsBelow : E → E → Type 0
  IsBelow a b = cmp a b ≡ less

  -- each element is less than those behind it
  abbrev pub IsStrict : List E → Type 0
  IsStrict [] = Unit
  IsStrict (x ∷ xs) = All (IsBelow x) xs × IsStrict xs

  dropped :
      (o : Option E) (a b : E)
      → or_else cmp o (some a) ≡ or_else cmp (or_else cmp o (some a)) (or_else cmp none (some b))
  dropped none a b = refl
  dropped (some e) a b = refl

  same_or : {o o' u u' : Option E} → u ≡ o → u' ≡ o' → or_else cmp o o' ≡ or_else cmp u u'
  same_or p q = cc

  or_else_assoc :
      (o u v : Option E) → or_else cmp (or_else cmp o u) v ≡ or_else cmp o (or_else cmp u v)
  or_else_assoc none u v = refl
  or_else_assoc (some e) u v = refl

  pub last-here :
      (k x : E) (xs : List E)
      → cmp x k ≡ equal
      → find_last k (x ∷ xs) ≡ or_else cmp (find_last k xs) (some x)
  unfolding find_last
  last-here k x xs e = rw (e, find_last) refl

  pub last-there : (k x : E) (xs : List E) → cmp x k ≢ equal → find_last k (x ∷ xs) ≡ find_last k xs
  unfolding find_last
  last-there k x xs ne = elim (Result-cases (cmp x k)) [
    | inl e ↦ absurd (ne e)
    | inr (inl e) ↦ rw (e, find_last) (or_else-none cmp (find_last k xs))
    | inr (inr e) ↦ rw (e, find_last) (or_else-none cmp (find_last k xs))
  ]

  module _ (order : IsOrder cmp) where
    -- nothing behind an element that is less than all of them is equal to what that is equal to
    pub last-none :
        (k a : E) (xs : List E) → cmp a k ≡ equal → All (IsBelow a) xs → find_last k xs ≡ none
    unfolding find_last
    last-none k a [] e below = refl
    last-none k a (x ∷ xs) e below =
        let kx = sym (order.equal_same a k x e) in
        last-there k x xs (λ h. let kx' = order.flip_equal x k h in let ax = below.0 in cc)
        ∙ last-none k a xs e below.1

    IsBelow-All : (a b : E) (xs : List E) → IsBelow a b → All (IsBelow b) xs → All (IsBelow a) xs
    IsBelow-All a b [] h all = tt
    IsBelow-All a b (x ∷ xs) h all = (order.less_less a b x h all.0, IsBelow-All a b xs h all.1)

    pub find_last-merged :
        (k : E) (xs ys : List E)
        → IsStrict ys
        → find_last k (merged cmp xs ys) ≡ or_else cmp (find_last k xs) (find_last k ys)
    unfolding find_last merged
    find_last-merged k [] [] hy = refl
    find_last-merged k (a ∷ xs) [] hy = sym (or_else-none cmp (find_last k (a ∷ xs)))
    find_last-merged k [] (b ∷ ys) hy = refl
    find_last-merged k (a ∷ xs) (b ∷ ys) hy = elim (Result-cases (cmp a b)) [
      | inl e ↦ ap (find_last k) (merged-equal cmp a b xs ys e) ∙ elim (equal_or_not cmp a k) [
        | inl here ↦
            let bk : cmp b k ≡ equal = sym (order.equal_same a b k e) ∙ here in
            let no_other = last-none k b ys bk hy.0 in
            last-here k a (merged cmp xs ys) here
            ∙ ap (λ o. or_else cmp o (some a))
                (find_last-merged k xs ys hy.1
                  ∙ ap (or_else cmp (find_last k xs)) no_other
                  ∙ or_else-none cmp (find_last k xs))
            ∙ dropped (find_last k xs) a b
            ∙ same_or (last-here k a xs here)
                (last-here k b ys bk ∙ ap (λ o. or_else cmp o (some b)) no_other)
        | inr not_here ↦
            let not_there : cmp b k ≢ equal = λ h. not_here (order.equal_same a b k e ∙ h) in
            last-there k a (merged cmp xs ys) not_here
            ∙ find_last-merged k xs ys hy.1
            ∙ same_or (last-there k a xs not_here) (last-there k b ys not_there)
      ]
      | inr (inl e) ↦ ap (find_last k) (merged-less cmp a b xs ys e) ∙ elim (equal_or_not cmp a k) [
        | inl here ↦
            let none_there = last-none k a (b ∷ ys) here (e, IsBelow-All a b ys e hy.0) in
            last-here k a (merged cmp xs (b ∷ ys)) here
            ∙ ap (λ o. or_else cmp o (some a))
                (find_last-merged k xs (b ∷ ys) hy
                  ∙ ap (or_else cmp (find_last k xs)) none_there
                  ∙ or_else-none cmp (find_last k xs))
            ∙ sym (last-here k a xs here)
            ∙ sym (or_else-none cmp (find_last k (a ∷ xs)))
            ∙ ap (or_else cmp (find_last k (a ∷ xs))) (sym none_there)
        | inr not_here ↦
            last-there k a (merged cmp xs (b ∷ ys)) not_here
            ∙ find_last-merged k xs (b ∷ ys) hy
            ∙ same_or (last-there k a xs not_here) refl
      ]
      | inr (inr e) ↦
          ap (find_last k) (merged-greater cmp a b xs ys e) ∙ elim (equal_or_not cmp b k) [
            | inl here ↦
                last-here k b (merged cmp (a ∷ xs) ys) here
                ∙ ap (λ o. or_else cmp o (some b)) (find_last-merged k (a ∷ xs) ys hy.1)
                ∙ or_else_assoc (find_last k (a ∷ xs)) (find_last k ys) (some b)
                ∙ ap (or_else cmp (find_last k (a ∷ xs))) (sym (last-here k b ys here))
            | inr not_here ↦
                last-there k b (merged cmp (a ∷ xs) ys) not_here
                ∙ find_last-merged k (a ∷ xs) ys hy.1
                ∙ same_or refl (last-there k b ys not_here)
          ]
    ]
