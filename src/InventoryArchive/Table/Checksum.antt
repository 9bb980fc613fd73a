-- ===== src/InventoryArchive/Table/Checksum.antt =====
-- Which files `Validate` takes, and which entries `WriteIndex` and `WriteCache` take.
use dodder.Prelude.{
  ◌⊎◌, ℕ, ◌+◌, ◌-◌, ◌^◌, ◌≤◌, ◌<◌, zero, suc, ◌≡◌, ◌↔◌, subst, refl, ap, sym, ◌∙◌, List, [], ◌∷◌,
  ◌++◌, false, Bool-cases, inl, inr, ◌==◌, ltb, some, length, leb, length-append, length-drop,
  take-append-drop, take, drop, Bytes, bytes_eq, bytes_eq→eq, All, arith,
}
use dodder.Wire.{read_at, compare_bytes, Result, less, equal, greater}
use dodder.InventoryArchive.{ok, err, hash_size_for_format, not_sorted, hash_length}
use dodder.InventoryArchive.Table.{
  EntryFormat, validate_file, verify_order, verify_sizes, verify_sorted, write_index,
}
use dodder.InventoryArchive.Table.FanOut.{IsSorted, verify_order-IsSorted, IsSorted-verify_order}
use dodder.InventoryArchive.Table.Parts.{IsDigest, validate_file-eq}

take-all {ℓ} : {A : Type ℓ} (n : ℕ) (xs : List A) → length xs ≤ n → take n xs ≡ xs
take-all zero [] h = refl
take-all zero (x ∷ xs) h = absurd (omega arith)
take-all (suc n) [] h = refl
take-all (suc n) (x ∷ xs) h = ap (λ t. x ∷ t) (take-all n xs (omega arith))

read_at-inside :
    (file : Bytes) (offset n : ℕ)
    → offset < 2 ^ 63
    → offset + n ≤ length file
    → read_at file offset n ≡ some (take n (drop offset file))
unfolding read_at
read_at-inside file offset n small inside =
    let inside' : leb (2 ^ 63) offset ≡ false = ground arith in
    let enough : ltb (length file) (offset + n) ≡ false = ground arith in rw (inside', enough) refl

-- For a file of less than 2 ^ 63 bytes, read with its size, and a format whose digests have the given
-- size: `Validate` finds no fault exactly when the file is some content followed by the digest of
-- this content.
pub validate_file_iff :
    (digest : Bytes → Bytes → Bytes) (file id : Bytes) (n : ℕ)
    → length file < 2 ^ 63
    → IsDigest digest id n
    → (validate_file digest file (length file) n id ≡ ok tt)
      ↔ ((content : Bytes) × (file ≡ content ++ digest id content))
unfolding validate_file
validate_file_iff digest file id n small is_digest = (checked, made)
  where
    checked :
        validate_file digest file (length file) n id ≡ ok tt
        → (content : Bytes) × (file ≡ content ++ digest id content)
    checked h = elim (Bool-cases (ltb (length file) n)) [
      | inl short ↦ absurd (let h' = rw short at h in cc)
      | inr enough ↦
          let stored =
            read_at-inside file (length file - n) n (omega arith) (ground (arith, enough)) in
          let content = read_at-inside file 0 (length file - n) (omega arith) (omega arith) in
          let all : take n (drop (length file - n) file) ≡ drop (length file - n) file =
            take-all n (drop (length file - n) file)
              (ground (arith, enough, length-drop (length file - n) file)) in
          elim (Bool-cases (
            bytes_eq (digest id (take (length file - n) file))
              (take n (drop (length file - n) file)))) [
                | inl same ↦ (
                  take (length file - n) file,
                  sym (take-append-drop (length file - n) file)
                      ∙ ap (λ t. take (length file - n) file ++ t)
                          (sym all
                            ∙ sym (
                                bytes_eq→eq (digest id (take (length file - n) file))
                                  (take n (drop (length file - n) file)) same)),
                )
                | inr differs ↦ absurd (let h' = rw (enough, stored, content, differs) at h in cc)
              ]
    ]

    made :
        (content : Bytes) × (file ≡ content ++ digest id content)
        → validate_file digest file (length file) n id ≡ ok tt
    made (content, whole) =
        subst (λ f. validate_file digest f (length f) n id ≡ ok tt) (sym whole)
          (validate_file-eq digest id n content is_digest
            (omega (arith, length-append content (digest id content), ap length whole)))

module _ {E : Type 0} (f : EntryFormat E) where
  verify_order-cases :
      (es : List E) → (verify_order f es ≡ ok tt) ⊎ (verify_order f es ≡ err not_sorted)
  unfolding verify_order
  verify_order-cases [] = inl refl
  verify_order-cases (a ∷ []) = inl refl
  verify_order-cases (a ∷ b ∷ es) =
      go (compare_bytes (f.hash a) (f.hash b)) refl (verify_order-cases (b ∷ es))
    where
      go :
          (c : Result)
          → compare_bytes (f.hash a) (f.hash b) ≡ c
          → (verify_order f (b ∷ es) ≡ ok tt) ⊎ (verify_order f (b ∷ es) ≡ err not_sorted)
          → (verify_order f (a ∷ b ∷ es) ≡ ok tt) ⊎ (verify_order f (a ∷ b ∷ es) ≡ err not_sorted)
      go less e ih = rw (e, verify_order) ih
      go equal e ih = rw (e, verify_order) (inr refl)
      go greater e ih = rw (e, verify_order) (inr refl)

  verify_sizes-All :
      (n : ℕ) (es : List E) → verify_sizes f n es ≡ ok tt → All (λ e. length (f.hash e) ≡ n) es
  unfolding verify_sizes
  verify_sizes-All n [] h = tt
  verify_sizes-All n (e ∷ es) h = elim (Bool-cases (length (f.hash e) == n)) [
    | inl same ↦ (ground (arith, same), verify_sizes-All n es (rw same at h))
    | inr differs ↦ absurd (let h' = rw differs at h in cc)
  ]

  verify_sizes-cases :
      (n : ℕ) (es : List E)
      → (verify_sizes f n es ≡ ok tt) ⊎ (verify_sizes f n es ≡ err hash_length)
  unfolding verify_sizes
  verify_sizes-cases n [] = inl refl
  verify_sizes-cases n (e ∷ es) = elim (Bool-cases (length (f.hash e) == n)) [
    | inl same ↦ rw same (verify_sizes-cases n es)
    | inr differs ↦ rw differs (inr refl)
  ]

  -- Where the format is known, `WriteIndex` refuses entries that are not strictly ordered by their
  -- hashes with the error that says so, refuses ordered entries of which one has a hash that is not of
  -- the format's size with the error on its length, and what it writes has passed both tests.
  pub write_index-refuses :
      (digest : Bytes → Bytes → Bytes) (id : Bytes) (n : ℕ) (es : List E)
      → hash_size_for_format id ≡ some n
      → (¬ IsSorted f es → write_index f digest id es ≡ err not_sorted)
        × (IsSorted f es
            → ¬ All (λ e. length (f.hash e) ≡ n) es
            → write_index f digest id es ≡ err hash_length)
        × ((file sum : Bytes)
            → write_index f digest id es ≡ ok (file, sum)
            → IsSorted f es × All (λ e. length (f.hash e) ≡ n) es)
  unfolding write_index verify_sorted
  write_index-refuses digest id n es size = (unsorted, sizes, written)
    where
      unsorted : ¬ IsSorted f es → write_index f digest id es ≡ err not_sorted
      unsorted no_order = elim (verify_order-cases es) [
        | inl fine ↦ absurd (no_order (verify_order-IsSorted f es fine))
        | inr fault ↦ rw (size, fault) refl
      ]

      sizes :
          IsSorted f es
          → ¬ All (λ e. length (f.hash e) ≡ n) es
          → write_index f digest id es ≡ err hash_length
      sizes order no_sizes = elim (verify_sizes-cases n es) [
        | inl fine ↦ absurd (no_sizes (verify_sizes-All n es fine))
        | inr fault ↦ rw (size, IsSorted-verify_order f es order, fault) refl
      ]

      written :
          (file sum : Bytes)
          → write_index f digest id es ≡ ok (file, sum)
          → IsSorted f es × All (λ e. length (f.hash e) ≡ n) es
      written file sum h = elim (verify_order-cases es) [
        | inr fault ↦ absurd (let h' = rw (size, fault) at h in cc)
        | inl fine ↦ elim (verify_sizes-cases n es) [
          | inr fault ↦ absurd (let h' = rw (size, fine, fault) at h in cc)
          | inl right ↦ (verify_order-IsSorted f es fine, verify_sizes-All n es right)
        ]
      ]
