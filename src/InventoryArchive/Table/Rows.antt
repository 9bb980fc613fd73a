-- ===== src/InventoryArchive/Table/Rows.antt =====
-- Reading the rows of a written file.
use dodder.Prelude.{
  leb, false, subst, ℕ, zero, suc, ◌+◌, ◌*◌, ◌%◌, ◌^◌, ◌≤◌, ◌<◌, ◌≡◌, refl, ap, sym, ◌∙◌, List, [],
  ◌∷◌, ◌++◌, append_assoc, some, length, length-append, get_elem?, Bytes, All, arith,
}
use dodder.Wire.{u64_mod, read_at}
use dodder.Wire.At.{read_at_split}
use dodder.InventoryArchive.{ok, ◌>>=◌}
use dodder.InventoryArchive.Table.{
  row_read, EntryFormat, Reader, write_entries, entry_size, read_row_at, read_entries,
  read_all_entries,
}

-- What a format has to keep: an entry that is a row for hashes of a size is written in the width of
-- a row, and is got back from it.
pub record IsEntryFormat {E : Type 0} (f : EntryFormat E) (IsRow : ℕ → E → Type 0) : Type 0 where
  pub magic_length : length f.magic ≡ 4
  pub version_bound : f.version < 65536
  pub columns_bound : (n : ℕ) → n ≤ 64 → f.columns_size n ≤ 96
  pub hash_length : (n : ℕ) (e : E) → IsRow n e → length (f.hash e) ≡ n
  pub columns_length : (n : ℕ) (e : E) → IsRow n e → length (f.columns e) ≡ f.columns_size n
  pub entry_back : (n : ℕ) (e : E) → IsRow n e → f.entry n (f.hash e ++ f.columns e) ≡ e

module _ {E : Type 0} (f : EntryFormat E) (IsRow : ℕ → E → Type 0) (laws : IsEntryFormat f IsRow)
    (n : ℕ) where
  abbrev row : E → Bytes
  row e = f.hash e ++ f.columns e

  length-row : (e : E) → IsRow n e → length (row e) ≡ entry_size f n
  length-row e h = omega (
    arith,
    length-append (f.hash e) (f.columns e),
    laws.hash_length n e h,
    laws.columns_length n e h,
  )

  -- the row of an entry among the rows
  rows_split :
      (es : List E) (i : ℕ) (e : E)
      → All (IsRow n) es
      → get_elem? es i ≡ some e
      → (before : Bytes) × (after : Bytes) × (write_entries f es ≡ before ++ (row e ++ after))
        × (length before ≡ i * entry_size f n)
        × IsRow n e
  unfolding write_entries
  rows_split [] i e h at = absurd (cc)
  rows_split (x ∷ es) zero e h at =
      let same : x ≡ e = cc in
      (
        [],
        write_entries f es,
        ap (λ y. row y ++ write_entries f es) same,
        omega arith,
        subst (IsRow n) same h.0,
      )
  rows_split (x ∷ es) (suc i) e h at =
      let (before, after, whole, len, is_row) = rows_split es i e h.1 at in
      (
        row x ++ before,
        after,
        ap (λ b. row x ++ b) whole ∙ sym (append_assoc (row x) before (row e ++ after)),
        omega (arith, length-append (row x) before, length-row x h.0, len),
        is_row,
      )

  pub length-write_entries :
      (es : List E) → All (IsRow n) es → length (write_entries f es) ≡ length es * entry_size f n
  unfolding write_entries
  length-write_entries [] h = omega arith
  length-write_entries (e ∷ es) h = omega (
    arith,
    length-append (row e) (write_entries f es),
    length-row e h.0,
    length-write_entries es h.1,
  )

pub mul_bound : (i w k : ℕ) → w ≤ k → i * w ≤ i * k
mul_bound i w k h = grind arith

index-lt {ℓ} : {A : Type ℓ} (xs : List A) (i : ℕ) (x : A) → get_elem? xs i ≡ some x → i < length xs
index-lt [] i x e = absurd (cc)
index-lt (y ∷ xs) zero x e = omega arith
index-lt (y ∷ xs) (suc i) x e = omega (arith, index-lt xs i x e)

get_elem?-append {ℓ} :
    {A : Type ℓ} (xs : List A) (y : A) (ys : List A) → get_elem? (xs ++ y ∷ ys) (length xs) ≡ some y
get_elem?-append [] y ys = refl
get_elem?-append (x ∷ xs) y ys = get_elem?-append xs y ys

module _ {E : Type 0} (f : EntryFormat E) (IsRow : ℕ → E → Type 0) (laws : IsEntryFormat f IsRow)
    (n : ℕ) (es : List E) (front tail : Bytes) (r : Reader) (size : n ≤ 64)
    (rows : All (IsRow n) es) (whole : r.file ≡ front ++ (write_entries f es ++ tail))
    (starts : r.entries_start ≡ length front) (hashes : r.hash_size ≡ n)
    (front_bound : length front ≤ 4096) (bound : length es < 2 ^ 54) where
  offset_bound : (i : ℕ) → i < length es → length front + i * entry_size f n < 2 ^ 62
  offset_bound i h =
      let width : entry_size f n ≤ 160 = omega (arith, laws.columns_bound n size) in
      let product = mul_bound i (entry_size f n) 160 width in omega arith

  -- the entry that is read at a position is the one that was written there
  pub read_row_at-eq : (i : ℕ) (e : E) → get_elem? es i ≡ some e → read_row_at f r i ≡ ok e
  unfolding read_row_at
  read_row_at-eq i e at =
      let (before, after, split, len, is_row) = rows_split f IsRow laws n es i e rows at in
      let far = offset_bound i (index-lt es i e at) in
      let offset : (length front + i * entry_size f n) % u64_mod
          ≡ length front + i * entry_size f n =
        omega arith in
      let whole' : r.file ≡ (front ++ before) ++ (row f IsRow laws n e ++ (after ++ tail)) =
        whole ∙ ap (λ b. front ++ (b ++ tail)) split ∙ simp append_assoc in
      let there : read_at r.file (length front + i * entry_size f n) (entry_size f n)
          ≡ some (row f IsRow laws n e) =
        read_at_split r.file (front ++ before) (row f IsRow laws n e) (after ++ tail) _ _ whole'
          (omega (arith, length-append front before, len))
          (sym (length-row f IsRow laws n e is_row))
          (omega (arith, length-append front before, len)) in
      ap
        (λ s.
          row_read ((s + i * entry_size f r.hash_size) % u64_mod) (
            read_at r.file ((s + i * entry_size f r.hash_size) % u64_mod)
              (entry_size f r.hash_size))
          >>= λ row. ok (f.entry r.hash_size row))
        starts
      ∙ ap
          (λ k.
            row_read ((length front + i * entry_size f k) % u64_mod)
              (read_at r.file ((length front + i * entry_size f k) % u64_mod) (entry_size f k))
            >>= λ row. ok (f.entry k row))
          hashes
      ∙ rw (offset, there) (ap ok (laws.entry_back n e is_row))

  read_entries-eq :
      (seen rest : List E)
      → es ≡ seen ++ rest
      → read_entries f r (length seen) (length rest) ≡ ok rest
  unfolding read_entries
  read_entries-eq seen [] e = refl
  read_entries-eq seen (x ∷ rest) e =
      let here = read_row_at-eq (length seen) x (rw e (get_elem?-append seen x rest)) in
      let next : length (seen ++ x ∷ []) ≡ length seen + 1 = length-append seen (x ∷ []) in
      let more =
        read_entries-eq (seen ++ x ∷ []) rest (e ∙ sym (append_assoc seen (x ∷ []) rest)) in
      rw (here, rw next at more) refl

  pub read_all_entries-eq : r.entry_count ≡ length es → read_all_entries f r ≡ ok es
  unfolding read_all_entries
  read_all_entries-eq count =
      let is_int : leb (2 ^ 63) r.entry_count ≡ false = ground (arith, count) in
      rw is_int (ap (λ c. read_entries f r 0 c) count ∙ read_entries-eq [] es refl)
