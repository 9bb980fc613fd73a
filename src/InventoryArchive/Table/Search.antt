-- ===== src/InventoryArchive/Table/Search.antt =====
-- The binary search of an index against a search of all its entries.
use dodder.Prelude.{
  subst, ℕ, zero, suc, ◌+◌, ◌-◌, ◌/◌, ◌≤◌, ◌<◌, ◌≡◌, ◌≢◌, refl, ap, sym, ◌∙◌, List, [], ◌∷◌, true,
  Bool-cases, inl, inr, ltb, if◌then◌else◌, Option, none, some, length, get_elem?, Bytes, bytes_eq,
  bytes_eq→eq, bytes_eq_refl, arith,
}
use dodder.Wire.{Result, less, equal, greater, compare_bytes}
use dodder.Wire.Order.{
  IsLess, compare_bytes_self, compare_bytes-eq, compare_bytes-swap, compare_bytes_trans,
}
use dodder.InventoryArchive.{ok}
use dodder.InventoryArchive.Table.{EntryFormat, Reader, read_row_at, search, search_round}
use dodder.InventoryArchive.Table.FanOut.{IsSorted, IsLeast}

pub less-ne : (x y : Bytes) → IsLess x y → x ≢ y
less-ne x y h e =
    let self : compare_bytes x y ≡ equal = rw e (compare_bytes_self y) in
    absurd (let clash : less ≡ equal = sym h ∙ self in cc)

get_elem?-some {ℓ} :
    {A : Type ℓ} (xs : List A) (i : ℕ) → i < length xs → (x : A) × (get_elem? xs i ≡ some x)
get_elem?-some [] i h = absurd (omega arith)
get_elem?-some (x ∷ xs) zero h = (x, refl)
get_elem?-some (x ∷ xs) (suc i) h = get_elem?-some xs i (omega arith)

module _ {E : Type 0} (f : EntryFormat E) where
  -- the first entry with this hash
  abbrev pub find : Bytes → List E → Option E
  find h [] = none
  find h (e ∷ es) = if bytes_eq (f.hash e) h then some e else find h es

  IsLeast-get :
      (a : E) (es : List E) (i : ℕ) (e : E)
      → IsLeast f a es
      → get_elem? es i ≡ some e
      → IsLess (f.hash a) (f.hash e)
  IsLeast-get a [] i e h at = absurd (cc)
  IsLeast-get a (x ∷ es) zero e h at =
      let same : x ≡ e = cc in subst (λ y. IsLess (f.hash a) (f.hash y)) same h.0
  IsLeast-get a (x ∷ es) (suc i) e h at = IsLeast-get a es i e h.1 at

  sorted-IsLess :
      (es : List E) (i j : ℕ) (a b : E)
      → IsSorted f es
      → i < j
      → get_elem? es i ≡ some a
      → get_elem? es j ≡ some b
      → IsLess (f.hash a) (f.hash b)
  sorted-IsLess [] i j a b s lt at at' = absurd (cc)
  sorted-IsLess (x ∷ es) i zero a b s lt at at' = absurd (omega arith)
  sorted-IsLess (x ∷ es) zero (suc j) a b s lt at at' =
      let same : x ≡ a = cc in
      subst (λ y. IsLess (f.hash y) (f.hash b)) same (IsLeast-get x es j b s.0 at')
  sorted-IsLess (x ∷ es) (suc i) (suc j) a b s lt at at' =
      sorted-IsLess es i j a b s.1 (omega arith) at at'

  find-none :
      (h : Bytes) (es : List E)
      → ((i : ℕ) (e : E) → get_elem? es i ≡ some e → f.hash e ≢ h)
      → find h es ≡ none
  find-none h [] all = refl
  find-none h (e ∷ es) all = elim (Bool-cases (bytes_eq (f.hash e) h)) [
    | inl hit ↦ absurd (all 0 e refl (bytes_eq→eq (f.hash e) h hit))
    | inr miss ↦ rw miss (find-none h es (λ i x at. all (suc i) x at))
  ]

  find-some :
      (h : Bytes) (es : List E) (i : ℕ) (e : E)
      → IsSorted f es
      → get_elem? es i ≡ some e
      → f.hash e ≡ h
      → find h es ≡ some e
  find-some h [] i e s at same = absurd (cc)
  find-some h (x ∷ es) zero e s at same =
      let here : x ≡ e = cc in
      let hit : bytes_eq (f.hash x) h ≡ true = rw (here, same) (bytes_eq_refl h) in
      rw hit (ap some here)
  find-some h (x ∷ es) (suc i) e s at same = elim (Bool-cases (bytes_eq (f.hash x) h)) [
    | inl hit ↦ absurd (
        less-ne (f.hash x) (f.hash e) (IsLeast-get x es i e s.0 at)
          (bytes_eq→eq (f.hash x) h hit ∙ sym same))
    | inr miss ↦ rw miss (find-some h es i e s.1 at same)
  ]

  -- the entries in front of `lo` are less than the hash, those from `hi` on are greater
  abbrev pub IsBefore : List E → Bytes → ℕ → Type 0
  IsBefore es h lo = (i : ℕ) (e : E) → i < lo → get_elem? es i ≡ some e → IsLess (f.hash e) h

  abbrev pub IsAfter : List E → Bytes → ℕ → Type 0
  IsAfter es h hi = (i : ℕ) (e : E) → hi ≤ i → get_elem? es i ≡ some e → IsLess h (f.hash e)

  none_left :
      (es : List E) (h : Bytes) (lo hi : ℕ)
      → hi ≤ lo
      → IsBefore es h lo
      → IsAfter es h hi
      → find h es ≡ none
  none_left es h lo hi le before after = find-none h es λ i e at same.
      elim (Bool-cases (ltb i lo)) [
        | inl low ↦ less-ne (f.hash e) h (before i e (ground (arith, low)) at) same
        | inr high ↦ less-ne h (f.hash e) (after i e (ground (arith, high)) at) (sym same)
      ]

  module _ (r : Reader) (es : List E) (sorted : IsSorted f es)
      (reads : (i : ℕ) (e : E) → get_elem? es i ≡ some e → read_row_at f r i ≡ ok e) where
    IsBefore-middle :
        (h : Bytes) (m : ℕ) (e : E)
        → get_elem? es m ≡ some e
        → IsLess (f.hash e) h
        → IsBefore es h (m + 1)
    IsBefore-middle h m e at lt i x le at' = elim (Bool-cases (ltb i m)) [
      | inl low ↦
          compare_bytes_trans (f.hash x) (f.hash e) h
            (sorted-IsLess es i m x e sorted (ground (arith, low)) at' at) lt
      | inr same ↦
          let q : i ≡ m = ground (arith, same) in
          let here : get_elem? es m ≡ some x = rw q at at' in
          let y : e ≡ x = cc in subst (λ z. IsLess (f.hash z) h) y lt
    ]

    IsAfter-middle :
        (h : Bytes) (m : ℕ) (e : E) → get_elem? es m ≡ some e → IsLess h (f.hash e) → IsAfter es h m
    IsAfter-middle h m e at lt i x le at' = elim (Bool-cases (ltb m i)) [
      | inl high ↦
          compare_bytes_trans h (f.hash e) (f.hash x) lt
            (sorted-IsLess es m i e x sorted (ground (arith, high)) at at')
      | inr same ↦
          let q : i ≡ m = ground (arith, same) in
          let here : get_elem? es m ≡ some x = rw q at at' in
          let y : e ≡ x = cc in subst (λ z. IsLess h (f.hash z)) y lt
    ]

    pub search-find :
        (fuel : ℕ) (h : Bytes) (lo hi : ℕ)
        → hi ≤ lo + fuel
        → hi ≤ length es
        → IsBefore es h lo
        → IsAfter es h hi
        → search f fuel r h lo hi ≡ ok (find h es)
    unfolding search search_round
    search-find zero h lo hi fits inside before after =
        ap ok (sym (none_left es h lo hi (omega arith) before after))
    search-find (suc fuel) h lo hi fits inside before after = elim (Bool-cases (ltb lo hi)) [
      | inr ended ↦
          rw ended (ap ok (sym (none_left es h lo hi (ground (arith, ended)) before after)))
      | inl open_range ↦
          let lt : lo < hi = ground (arith, open_range) in
          let mid = lo + (hi - lo) / 2 in
          let (e, at) = get_elem?-some es mid (omega arith) in
          rw (open_range, reads mid e at)
            (go e at (compare_bytes h (f.hash e)) refl lt
              (λ after'. search-find fuel h lo mid (omega arith) (omega arith) before after')
              (λ before'. search-find fuel h (mid + 1) hi (omega arith) inside before' after))
    ]
      where
        go :
            (e : E)
            → get_elem? es (lo + (hi - lo) / 2) ≡ some e
            → (c : Result) → compare_bytes h (f.hash e) ≡ c
            → lo < hi
            → (IsAfter es h (lo + (hi - lo) / 2)
                → search f fuel r h lo (lo + (hi - lo) / 2) ≡ ok (find h es))
            → (IsBefore es h (lo + (hi - lo) / 2 + 1)
                → search f fuel r h (lo + (hi - lo) / 2 + 1) hi ≡ ok (find h es))
            → search_round f
                (compare_bytes h (f.hash e))
                e
                (search f fuel r h lo (lo + (hi - lo) / 2))
                (search f fuel r h (lo + (hi - lo) / 2 + 1) hi)
              ≡ ok (find h es)
        go e at equal c lt left right = rw c (
            ap ok (
              sym (
                find-some h es (lo + (hi - lo) / 2) e sorted at
                  (sym (compare_bytes-eq h (f.hash e) c)))))
        go e at less c lt left right = rw c (left (IsAfter-middle h (lo + (hi - lo) / 2) e at c))
        go e at greater c lt left right = rw c (
            right (IsBefore-middle h (lo + (hi - lo) / 2) e at (compare_bytes-swap h (f.hash e) c)))
