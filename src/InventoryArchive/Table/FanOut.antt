-- ===== src/InventoryArchive/Table/FanOut.antt =====
-- What the fan-out table of an index says: how many entries begin with a byte up to the given one.
use dodder.Prelude.{
  subst, ℕ, zero, suc, ◌+◌, ◌≤◌, ◌<◌, ◌≡◌, refl, ap, ◌∙◌, List, [], ◌∷◌, true, Bool-cases, inl, inr,
  leb, if◌then◌else◌, some, length, get_elem?, Bytes, All, arith,
}
use dodder.Wire.{Result, equal, greater, u64_mod, compare_bytes, less}
use dodder.Wire.Order.{IsLess, compare_bytes_trans, compare_bytes-first}
use dodder.InventoryArchive.{ok}
use dodder.InventoryArchive.Table.{
  EntryFormat, first_byte, elem_at, zeros, count_from, fan_out_from, verify_order,
}
use dodder.InventoryArchive.Table.Layout.{AllSmall}

abbrev pub first : Bytes → ℕ
first [] = 0
first (b ∷ bites) = b

elem_at-count_from :
    (b j x : ℕ) (table : List ℕ)
    → elem_at table j ≡ ok x
    → x + 1 < u64_mod
    → elem_at (count_from b table) j ≡ ok (if leb b j then x + 1 else x)
unfolding count_from
elem_at-count_from b j x [] h small = absurd (cc)
elem_at-count_from zero zero x (y ∷ table) h small =
    let same : y ≡ x = cc in rw same (ap ok (omega arith))
elem_at-count_from zero (suc j) x (y ∷ table) h small =
    elem_at-count_from zero j x table h small ∙ (ground arith)
elem_at-count_from (suc b) zero x (y ∷ table) h small =
    let same : y ≡ x = cc in rw same (ground arith)
elem_at-count_from (suc b) (suc j) x (y ∷ table) h small =
    elem_at-count_from b j x table h small ∙ (ground arith)

length-count_from : (b : ℕ) (table : List ℕ) → length (count_from b table) ≡ length table
unfolding count_from
length-count_from zero [] = refl
length-count_from (suc b) [] = refl
length-count_from zero (x ∷ table) = omega (arith, length-count_from zero table)
length-count_from (suc b) (x ∷ table) = omega (arith, length-count_from b table)

AllSmall-count_from : (b : ℕ) (table : List ℕ) → AllSmall table → AllSmall (count_from b table)
unfolding count_from
AllSmall-count_from zero [] h = tt
AllSmall-count_from (suc b) [] h = tt
AllSmall-count_from zero (x ∷ table) h = (omega arith, AllSmall-count_from zero table h.1)
AllSmall-count_from (suc b) (x ∷ table) h = (h.0, AllSmall-count_from b table h.1)

elem_at-zeros : (n j : ℕ) → j < n → elem_at (zeros n) j ≡ ok 0
elem_at-zeros zero j h = absurd (omega arith)
elem_at-zeros (suc n) zero h = refl
elem_at-zeros (suc n) (suc j) h = elem_at-zeros n j (omega arith)

length-zeros : (n : ℕ) → length (zeros n) ≡ n
length-zeros zero = refl
length-zeros (suc n) = omega (arith, length-zeros n)

AllSmall-zeros : (n : ℕ) → AllSmall (zeros n)
AllSmall-zeros zero = tt
AllSmall-zeros (suc n) = (omega arith, AllSmall-zeros n)

module _ {E : Type 0} (f : EntryFormat E) where
  abbrev pub HasByte : E → Type 0
  HasByte e = 0 < length (f.hash e)

  -- how many entries have a hash that begins with a byte up to `b`
  abbrev pub up_to : ℕ → List E → ℕ
  up_to b [] = 0
  up_to b (e ∷ es) = (if leb (first (f.hash e)) b then 1 else 0) + up_to b es

  pub up_to-le : (b : ℕ) (es : List E) → up_to b es ≤ length es
  up_to-le b [] = omega arith
  up_to-le b (e ∷ es) = ground (arith, up_to-le b es)

  abbrev fan_table : List ℕ → List E → List ℕ
  fan_table table [] = table
  fan_table table (e ∷ es) = fan_table (count_from (first (f.hash e)) table) es

  first_byte_lem : (h : Bytes) → 0 < length h → first_byte h ≡ ok (first h)
  first_byte_lem [] lt = absurd (omega arith)
  first_byte_lem (b ∷ h) lt = refl

  fan_out_from-eq :
      (table : List ℕ) (es : List E)
      → All HasByte es
      → fan_out_from f table es ≡ ok (fan_table table es)
  unfolding fan_out_from
  fan_out_from-eq table [] h = refl
  fan_out_from-eq table (e ∷ es) h =
      rw (first_byte_lem (f.hash e) h.0)
        (fan_out_from-eq (count_from (first (f.hash e)) table) es h.1)

  elem_at-fan_table :
      (j x : ℕ) (table : List ℕ) (es : List E)
      → elem_at table j ≡ ok x
      → x + length es < u64_mod
      → elem_at (fan_table table es) j ≡ ok (x + up_to j es)
  elem_at-fan_table j x table [] at small = at ∙ ap ok (omega arith)
  elem_at-fan_table j x table (e ∷ es) at small =
      let y = if leb (first (f.hash e)) j then x + 1 else x in
      let y-le : y ≤ x + 1 = ground arith in
      elem_at-fan_table j y (count_from (first (f.hash e)) table) es
        (elem_at-count_from (first (f.hash e)) j x table at (omega arith)) (omega arith)
      ∙ ap ok (ground arith)

  length-fan_table : (table : List ℕ) (es : List E) → length (fan_table table es) ≡ length table
  length-fan_table table [] = refl
  length-fan_table table (e ∷ es) =
      length-fan_table (count_from (first (f.hash e)) table) es
      ∙ length-count_from (first (f.hash e)) table

  AllSmall-fan_table :
      (table : List ℕ) (es : List E) → AllSmall table → AllSmall (fan_table table es)
  AllSmall-fan_table table [] h = h
  AllSmall-fan_table table (e ∷ es) h =
      AllSmall-fan_table (count_from (first (f.hash e)) table) es
        (AllSmall-count_from (first (f.hash e)) table h)

  -- the table that is written, and its element at a byte
  pub fan_out :
      (es : List E)
      → All HasByte es
      → length es < u64_mod
      → (table : List ℕ) × (fan_out_from f (zeros 256) es ≡ ok table)
        × (length table ≡ 256)
        × AllSmall table
        × ((j : ℕ) → j < 256 → elem_at table j ≡ ok (up_to j es))
  fan_out es h small = (
    fan_table (zeros 256) es,
    fan_out_from-eq (zeros 256) es h,
    length-fan_table (zeros 256) es ∙ length-zeros 256,
    AllSmall-fan_table (zeros 256) es (AllSmall-zeros 256),
    λ j lt.
        elem_at-fan_table j 0 (zeros 256) es (elem_at-zeros 256 j lt) (omega arith)
        ∙ ap ok (omega arith),
  )

  abbrev pub IsLeast : E → List E → Type 0
  IsLeast a es = All (λ e. IsLess (f.hash a) (f.hash e)) es

  abbrev pub IsSorted : List E → Type 0
  IsSorted [] = Unit
  IsSorted (e ∷ es) = IsLeast e es × IsSorted es

  IsLeast-trans :
      (a b : E) (es : List E) → IsLess (f.hash a) (f.hash b) → IsLeast b es → IsLeast a es
  IsLeast-trans a b [] lt h = tt
  IsLeast-trans a b (e ∷ es) lt h =
      (compare_bytes_trans (f.hash a) (f.hash b) (f.hash e) lt h.0, IsLeast-trans a b es lt h.1)

  pub verify_order-IsSorted : (es : List E) → verify_order f es ≡ ok tt → IsSorted es
  unfolding verify_order
  verify_order-IsSorted [] h = tt
  verify_order-IsSorted (a ∷ []) h = (tt, tt)
  verify_order-IsSorted (a ∷ b ∷ es) h =
      go (compare_bytes (f.hash a) (f.hash b)) refl (verify_order-IsSorted (b ∷ es))
    where
      go :
          (c : Result)
          → compare_bytes (f.hash a) (f.hash b) ≡ c
          → (verify_order f (b ∷ es) ≡ ok tt → IsSorted (b ∷ es))
          → IsSorted (a ∷ b ∷ es)
      go less e ih =
          let rest = ih (rw (e, verify_order) at h) in ((e, IsLeast-trans a b es e rest.0), rest)
      go equal e ih = absurd (let h' = rw (e, verify_order) at h in cc)
      go greater e ih = absurd (let h' = rw (e, verify_order) at h in cc)

  pub IsSorted-verify_order : (es : List E) → IsSorted es → verify_order f es ≡ ok tt
  unfolding verify_order
  IsSorted-verify_order [] h = refl
  IsSorted-verify_order (a ∷ []) h = refl
  IsSorted-verify_order (a ∷ b ∷ es) h =
      rw (h.0.0, verify_order) (IsSorted-verify_order (b ∷ es) h.1)

first-le : (x y : Bytes) → IsLess x y → first x ≤ first y
unfolding compare_bytes
first-le [] y h = omega arith
first-le (a ∷ x) [] h = absurd (cc)
first-le (a ∷ x) (b ∷ y) h = compare_bytes-first a b x y h

module _ {E : Type 0} (f : EntryFormat E) where
  up_to-above :
      (b : ℕ) (a : E) (es : List E) → b < first (f.hash a) → IsLeast f a es → up_to f b es ≡ 0
  up_to-above b a [] lt h = refl
  up_to-above b a (e ∷ es) lt h =
      ground (arith, first-le (f.hash a) (f.hash e), h.0, up_to-above b a es lt h.1)

  get-above :
      (b : ℕ) (a : E) (es : List E) (i : ℕ) (e : E)
      → b < first (f.hash a)
      → IsLeast f a es
      → get_elem? es i ≡ some e
      → b < first (f.hash e)
  get-above b a [] i e lt h at = absurd (cc)
  get-above b a (x ∷ es) zero e lt h at =
      let same : x ≡ e = cc in
      subst (λ y. b < first (f.hash y)) same (omega (arith, first-le (f.hash a) (f.hash x) h.0))
  get-above b a (x ∷ es) (suc i) e lt h at = get-above b a es i e lt h.1 at

  -- the table's number divides the entries at the byte
  pub up_to-inside :
      (b : ℕ) (es : List E) (i : ℕ) (e : E)
      → IsSorted f es
      → get_elem? es i ≡ some e
      → i < up_to f b es
      → first (f.hash e) ≤ b
  up_to-inside b [] i e s at lt = absurd (cc)
  up_to-inside b (x ∷ es) i e s at lt = elim (Bool-cases (leb (first (f.hash x)) b)) [
    | inl low ↦ at_low i at lt (up_to-inside b es) low
    | inr high ↦ absurd (ground (arith, high, up_to-above b x es, s.0))
  ]
    where
      at_low :
          (i : ℕ)
          → get_elem? (x ∷ es) i ≡ some e
          → i < up_to f b (x ∷ es)
          → ((i : ℕ) (e : E)
              → IsSorted f es
              → get_elem? es i ≡ some e
              → i < up_to f b es
              → first (f.hash e) ≤ b)
          → leb (first (f.hash x)) b ≡ true
          → first (f.hash e) ≤ b
      at_low zero at lt ih low =
          let same : x ≡ e = cc in subst (λ y. first (f.hash y) ≤ b) same (ground (arith, low))
      at_low (suc i) at lt ih low = ih i e s.1 at (ground (arith, low, lt))

  pub up_to-outside :
      (b : ℕ) (es : List E) (i : ℕ) (e : E)
      → IsSorted f es
      → get_elem? es i ≡ some e
      → up_to f b es ≤ i
      → b < first (f.hash e)
  up_to-outside b [] i e s at le = absurd (cc)
  up_to-outside b (x ∷ es) zero e s at le =
      let same : x ≡ e = cc in subst (λ y. b < first (f.hash y)) same (ground arith)
  up_to-outside b (x ∷ es) (suc i) e s at le = elim (Bool-cases (leb (first (f.hash x)) b)) [
    | inl low ↦ up_to-outside b es i e s.1 at (ground (arith, low, le))
    | inr high ↦ get-above b x es i e (ground (arith, high)) s.0 at
  ]
