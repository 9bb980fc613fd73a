-- ===== src/ObjectProbeIndex/Flush.antt =====
-- What a page holds after `flushNew`, where rows that are equal have equal digests and conversely.
use dodder.Prelude.{
  ◌≡◌, ◌↔◌, inl, inr, refl, sym, ap, ◌∙◌, List, [], ◌∷◌, Bool, true, false, if◌then◌else◌, Option,
  none, some, All, Bool-cases,
}
use dodder.Compare.{Result, less, equal}
use dodder.Merge.Plain.{Result-cases, items, merged, merge_seq_error_left-items}
use dodder.Merge.Union.{
  IsOrder, IsUpTo, IsSorted, or_else, find, find-here, find-there, equal_or_not, merged-IsSorted,
}
use dodder.ObjectProbeIndex.{write_from, write_rows, flush_new, written}
use dodder.ObjectProbeIndex.Last.{
  IsBelow, IsStrict, find_last, last-here, last-there, last-none, find_last-merged,
}

module _ {E : Type 0} (cmp : E → E → Result) (equals : E → E → Bool)
    (same : (x y : E) → (equals x y ≡ true) ↔ (cmp x y ≡ equal)) (order : IsOrder cmp) where
  -- the last row of each group of equal rows
  groups : E → List E → List E
  groups p [] = p ∷ []
  groups p (c ∷ cs) = let later = groups c cs in if equals p c then later else p ∷ later

  write_from-groups :
      (p : E) (cs : List E) → write_from equals p (items cs) ≡ some (written (groups p cs) none)
  unfolding write_from groups
  write_from-groups p [] = refl
  write_from-groups p (c ∷ cs) = elim (Bool-cases (equals p c)) [
    | inl e ↦ rw (e, write_from-groups c cs) refl
    | inr e ↦ rw (e, write_from-groups c cs) refl
  ]

  All-groups : (P : E → Type 0) (p : E) (cs : List E) → P p → All P cs → All P (groups p cs)
  unfolding groups
  All-groups P p [] hp hc = (hp, tt)
  All-groups P p (c ∷ cs) hp hc = elim (Bool-cases (equals p c)) [
    | inl e ↦ rw e (All-groups P c cs hc.0 hc.1)
    | inr e ↦ rw e (hp, All-groups P c cs hc.0 hc.1)
  ]

  less_up : (a b c : E) → cmp a b ≡ less → IsUpTo cmp b c → cmp a c ≡ less
  less_up a b c ab up = elim (Result-cases (cmp b c)) [
    | inl bc ↦ order.flip_greater c a (sym (order.equal_same b c a bc) ∙ order.flip_less a b ab)
    | inr (inl bc) ↦ order.less_less a b c ab bc
    | inr (inr bc) ↦ absurd (up bc)
  ]

  less_up-All :
      (a b : E) (xs : List E) → cmp a b ≡ less → All (IsUpTo cmp b) xs → All (IsBelow cmp a) xs
  less_up-All a b [] ab all = tt
  less_up-All a b (x ∷ xs) ab all = (less_up a b x ab all.0, less_up-All a b xs ab all.1)

  -- rows in order that are not equal
  apart : (p c : E) → equals p c ≡ false → IsUpTo cmp p c → cmp p c ≡ less
  apart p c e up = elim (Result-cases (cmp p c)) [
    | inl h ↦ let t = (same p c).1 h in cc
    | inr (inl h) ↦ h
    | inr (inr h) ↦ absurd (up h)
  ]

  groups-IsStrict : (p : E) (cs : List E) → IsSorted cmp (p ∷ cs) → IsStrict cmp (groups p cs)
  unfolding groups
  groups-IsStrict p [] h = (tt, tt)
  groups-IsStrict p (c ∷ cs) h = elim (Bool-cases (equals p c)) [
    | inl e ↦ rw e (groups-IsStrict c cs h.1)
    | inr e ↦
        let pc = apart p c e h.0.0 in
        rw e (
          All-groups (IsBelow cmp p) c cs pc (less_up-All p c cs pc h.1.0),
          groups-IsStrict c cs h.1,
        )
  ]

  last-some :
      (k c : E) (cs : List E) (o : Option E)
      → cmp c k ≡ equal
      → or_else cmp (find_last cmp k (c ∷ cs)) o ≡ find_last cmp k (c ∷ cs)
  last-some k c cs o e =
      let h = last-here cmp k c cs e in
      ap (λ x. or_else cmp x o) h ∙ full (find_last cmp k cs) ∙ sym h
    where
      full : (x : Option E) → or_else cmp (or_else cmp x (some c)) o ≡ or_else cmp x (some c)
      full none = refl
      full (some y) = refl

  find-groups :
      (k p : E) (cs : List E)
      → IsSorted cmp (p ∷ cs)
      → find cmp k (groups p cs) ≡ find_last cmp k (p ∷ cs)
  unfolding groups find_last find
  find-groups k p [] h = refl
  find-groups k p (c ∷ cs) h = elim (Bool-cases (equals p c)) [
    | inl e ↦
        let pc = (same p c).0 e in
        rw e (
          find-groups k c cs h.1 ∙ elim (equal_or_not cmp p k) [
            | inl pk ↦
                let ck : cmp c k ≡ equal = sym (order.equal_same p c k pc) ∙ pk in
                sym (last-here cmp k p (c ∷ cs) pk ∙ last-some k c cs (some p) ck)
            | inr other ↦ sym (last-there cmp k p (c ∷ cs) other)
          ])
    | inr e ↦
        let pc = apart p c e h.0.0 in
        rw e (elim (equal_or_not cmp p k) [
          | inl pk ↦
              find-here cmp k p (groups c cs) pk
              ∙ sym (
                  last-here cmp k p (c ∷ cs) pk
                  ∙ ap (λ o. or_else cmp o (some p))
                      (last-none cmp order k p (c ∷ cs) pk (pc, less_up-All p c cs pc h.1.0)))
          | inr other ↦
              find-there cmp k p (groups c cs) other
              ∙ find-groups k c cs h.1
              ∙ sym (last-there cmp k p (c ∷ cs) other)
        ])
  ]

  write_rows-merged :
      (zs : List E)
      → IsSorted cmp zs
      → (rows : List E) × (write_rows equals (items zs) ≡ some (written rows none))
        × IsStrict cmp rows
        × ((k : E) → find cmp k rows ≡ find_last cmp k zs)
  unfolding write_rows find find_last
  write_rows-merged [] h = ([], refl, tt, λ k. refl)
  write_rows-merged (z ∷ zs) h =
      (groups z zs, write_from-groups z zs, groups-IsStrict z zs h, λ k. find-groups k z zs h)

  IsStrict-IsSorted : (xs : List E) → IsStrict cmp xs → IsSorted cmp xs
  IsStrict-IsSorted [] h = tt
  IsStrict-IsSorted (x ∷ xs) h = (up x xs h.0, IsStrict-IsSorted xs h.1)
    where
      up : (a : E) (ys : List E) → All (IsBelow cmp a) ys → All (IsUpTo cmp a) ys
      up a [] all = tt
      up a (y ∷ ys) all = ((λ g. let l = all.0 in cc), up a ys all.1)

  -- in rows that are strictly ordered the last equal one is the only one
  last-find : (k : E) (xs : List E) → IsStrict cmp xs → find_last cmp k xs ≡ find cmp k xs
  unfolding find find_last
  last-find k [] h = refl
  last-find k (x ∷ xs) h = elim (equal_or_not cmp x k) [
    | inl here ↦
        last-here cmp k x xs here
        ∙ ap (λ o. or_else cmp o (some x)) (last-none cmp order k x xs here h.0)
        ∙ sym (find-here cmp k x xs here)
    | inr other ↦
        last-there cmp k x xs other ∙ last-find k xs h.1 ∙ sym (find-there cmp k x xs other)
  ]

  -- Let the comparison be by a total order, and rows count as equal where it finds them equal. Let
  -- the added rows be sorted, and the rows of the file strictly sorted and read without an error.
  -- Then `flushNew` writes rows that are strictly sorted and meets no error, and what it writes has
  -- for each row the last added one that is equal to it, or, where there is none, the one of the
  -- file.
  pub flush_new-find :
      (added file : List E)
      → IsSorted cmp added
      → IsStrict cmp file
      → (rows : List E) × (flush_new equals cmp added (items file) ≡ some (written rows none))
        × IsStrict cmp rows
        × ((k : E) → find cmp k rows ≡ or_else cmp (find_last cmp k added) (find cmp k file))
  unfolding flush_new
  flush_new-find added file ha hf =
      let zs = merged cmp added file in
      let (rows, wrote, strict, finds) =
        write_rows-merged zs
          (merged-IsSorted cmp order added file ha (IsStrict-IsSorted file hf)) in
      (
        rows,
        rw (merge_seq_error_left-items cmp added file, flush_new) wrote,
        strict,
        λ k.
            finds k
            ∙ find_last-merged cmp order k added file hf
            ∙ ap (or_else cmp (find_last cmp k added)) (last-find k file hf),
      )
