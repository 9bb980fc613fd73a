-- ===== src/InventoryArchive/Table/Written.antt =====
-- A written index, read again.
use dodder.Prelude.{
  subst, ℕ, ◌+◌, ◌-◌, ◌%◌, ◌^◌, ◌≤◌, ◌<◌, ◌≡◌, refl, ap, sym, ◌∙◌, List, [], ◌∷◌, ◌++◌,
  append_assoc, false, Bool-cases, inl, inr, ◌==◌, ltb, some, length, length-append, get_elem?,
  Bytes, All, arith,
}
use dodder.Wire.{length-be, u64_mod, be, read_at}
use dodder.InventoryArchive.{ok, hash_size_for_format}
use dodder.InventoryArchive.Table.{
  EntryFormat, Reader, elem_at, zeros, write_numbers, read_numbers, verify_sorted, write_header,
  fan_out_from, write_fan_out, write_entries, write_index, header_size, new_index_reader,
  entry_size, read_row_at, lookup, read_all_entries, validate,
}
use dodder.InventoryArchive.Table.Layout.{
  AllSmall, format_bounds, length-write_numbers, read_numbers-write_numbers, header_bytes,
  split_table, length-header_bytes, at_table, read_header-eq,
}
use dodder.InventoryArchive.Table.Rows.{
  length-write_entries, mul_bound, IsEntryFormat, read_row_at-eq, read_all_entries-eq,
}
use dodder.InventoryArchive.Table.FanOut.{
  up_to, up_to-le, fan_out, IsSorted, IsSorted-verify_order, up_to-inside, up_to-outside,
}
use dodder.InventoryArchive.Table.Search.{find, IsBefore, IsAfter, search-find}
use dodder.InventoryArchive.Table.Parts.{
  IsLess-of_first, IsDigest, validate_file-eq, reader_of-eq, new_index_reader_parts, find-empty,
  verify_sizes-ok, rows-HasByte,
}

module _ {E : Type 0} (f : EntryFormat E) (IsRow : ℕ → E → Type 0)
    (laws : IsEntryFormat f IsRow) where
  module _ (digest : Bytes → Bytes → Bytes) (id : Bytes) (n : ℕ) (es : List E) (table : List ℕ)
      (size : hash_size_for_format id ≡ some n) (is_digest : IsDigest digest id n)
      (sorted : IsSorted f es) (rows : All (IsRow n) es) (bound : length es < 2 ^ 54)
      (fan : fan_out_from f (zeros 256) es ≡ ok table) (table_length : length table ≡ 256)
      (table_small : AllSmall table) where
    abbrev header : Bytes
    header = f.magic ++ (be 2 f.version ++ ((length id % 256) ∷ (id ++ be 8 (length es % u64_mod))))

    abbrev content : Bytes
    content = header ++ (write_numbers table ++ write_entries f es)

    abbrev written : Bytes
    written = content ++ digest id content

    abbrev reader : Reader
    reader = record {
      file = written;
      total_size = length written;
      hash_format_id = id;
      hash_size = n;
      entry_count = length es;
      fan_out = table;
      entries_start = header_size f id + 2048;
    }

    write_index-eq : write_index f digest id es ≡ ok (written, digest id content)
    unfolding write_index verify_sorted write_header write_fan_out
    write_index-eq =
        let short : ltb 255 (length id) ≡ false = ground (arith, format_bounds id n size) in
        rw
          (
            size,
            IsSorted-verify_order f es sorted,
            verify_sizes-ok f IsRow laws n es rows,
            short,
            fan,
          )
          refl

    whole :
        written
        ≡ f.magic
          ++ (be 2 f.version
              ++ ((length id ∷ [])
                  ++ (id
                      ++ (be 8 (length es)
                          ++ (write_numbers table ++ (write_entries f es ++ digest id content))))))
    whole =
        let c : length es % u64_mod ≡ length es = omega arith in
        let l : length id % 256 ≡ length id = omega (arith, format_bounds id n size) in
        rw (l, c) (simp append_assoc)

    short : length id ≤ 10
    short = (format_bounds id n size).0

    small : length es < u64_mod
    small = omega arith

    abbrev front : Bytes
    front =
        header_bytes f id (length es) (write_numbers table)
          (write_entries f es ++ digest id content) written laws.magic_length laws.version_bound
          short small whole
        ++ write_numbers table

    length-numbers : length (write_numbers table) ≡ 2048
    length-numbers = omega (arith, length-write_numbers table, table_length)

    length-front : length front ≡ header_size f id + 2048
    length-front = omega (
      arith,
      length-append
          (header_bytes f id (length es) (write_numbers table)
            (write_entries f es ++ digest id content) written laws.magic_length laws.version_bound
            short small whole)
          (write_numbers table),
      length-header_bytes f id (length es) (write_numbers table)
          (write_entries f es ++ digest id content) written laws.magic_length laws.version_bound
          short small whole,
      length-numbers,
    )

    rows_whole : written ≡ front ++ (write_entries f es ++ digest id content)
    rows_whole =
        split_table f id (length es) (write_numbers table) (write_entries f es ++ digest id content)
          written laws.magic_length laws.version_bound short small whole
        ∙ sym (
            append_assoc
              (header_bytes f id (length es) (write_numbers table)
                (write_entries f es ++ digest id content) written laws.magic_length
                laws.version_bound short small whole)
              (write_numbers table) (write_entries f es ++ digest id content))

    new_index_reader-eq : new_index_reader f written (length written) id ≡ ok reader
    new_index_reader-eq =
        let table_read : read_at written (header_size f id) 2048 ≡ some (write_numbers table) =
          subst (λ k. read_at written (header_size f id) k ≡ some (write_numbers table))
            length-numbers
            (at_table f id (length es) (write_numbers table)
              (write_entries f es ++ digest id content) written laws.magic_length laws.version_bound
              short small whole) in
        let numbers : read_numbers 256 (write_numbers table) ≡ table =
          subst (λ k. read_numbers k (write_numbers table) ≡ table) table_length
            (read_numbers-write_numbers table table_small) in
        new_index_reader_parts f written id (length written) n (length es) (write_numbers table)
          size
          (read_header-eq f id (length es) (write_numbers table)
            (write_entries f es ++ digest id content) written laws.magic_length laws.version_bound
            short small whole)
          table_read
        ∙ ap ok (
            reader_of-eq f written id (length written) n (length es) (write_numbers table) table
              numbers)

    length-header : length header ≡ header_size f id
    length-header =
        let count = be 8 (length es % u64_mod) in
        omega (
          arith,
          length-append f.magic (be 2 f.version ++ ((length id % 256) ∷ (id ++ count))),
          length-append (be 2 f.version) ((length id % 256) ∷ (id ++ count)),
          length-append id count,
          length-be 8 (length es % u64_mod),
          length-be 2 f.version,
          laws.magic_length,
        )

    content-bound : length content < 2 ^ 63
    content-bound =
        let hash_bound : n ≤ 64 = (format_bounds id n size).2 in
        let width : entry_size f n ≤ 160 =
          omega (arith, hash_bound, laws.columns_bound n hash_bound) in
        let product = mul_bound (length es) (entry_size f n) 160 width in
        omega (
          arith,
          length-append header (write_numbers table ++ write_entries f es),
          length-append (write_numbers table) (write_entries f es),
          length-numbers,
          length-write_entries f IsRow laws n es rows,
          length-header,
          short,
        )

    reads : (i : ℕ) (e : E) → get_elem? es i ≡ some e → read_row_at f reader i ≡ ok e
    reads =
        read_row_at-eq f IsRow laws n es front (digest id content) reader
          (format_bounds id n size).2 rows rows_whole (sym length-front) refl
          (omega (arith, length-front, short)) bound

    read_all-eq : read_all_entries f reader ≡ ok es
    read_all-eq =
        read_all_entries-eq f IsRow laws n es front (digest id content) reader
          (format_bounds id n size).2 rows rows_whole (sym length-front) refl
          (omega (arith, length-front, short)) bound refl

    module _ (fan_at : (j : ℕ) → j < 256 → elem_at table j ≡ ok (up_to f j es)) where
      lookup-at :
          (b : ℕ) (x : Bytes)
          → b < 256
          → 0 < length es
          → lookup f reader (b ∷ x) ≡ ok (find f (b ∷ x) es)
      unfolding lookup
      lookup-at b x byte some_entry =
          let counted : length es == 0 ≡ false = ground arith in
          let after : IsAfter f es (b ∷ x) (up_to f b es) = λ i e le at.
            IsLess-of_first (b ∷ x) (f.hash e) (up_to-outside f b es i e sorted at le) in
          let before : 0 < b → IsBefore f es (b ∷ x) (up_to f (b - 1) es) = λ pos i e lt at.
            IsLess-of_first (f.hash e) (b ∷ x)
              (omega (arith, up_to-inside f (b - 1) es i e sorted at lt)) in
          elim (Bool-cases (b == 0)) [
            | inl zero_byte ↦
                rw (counted, zero_byte, fan_at b byte)
                  (search-find f reader es sorted reads (up_to f b es - 0) (b ∷ x) 0 (up_to f b es)
                    (omega arith) (up_to-le f b es) (λ i e lt at. absurd (omega arith)) after)
            | inr later ↦
                rw (counted, later, fan_at (b - 1) (omega arith), fan_at b byte)
                  (search-find f reader es sorted reads (up_to f b es - up_to f (b - 1) es) (b ∷ x)
                    (up_to f (b - 1) es) (up_to f b es) (omega arith) (up_to-le f b es)
                    (before (ground (arith, later))) after)
          ]

      lookup-eq : (b : ℕ) (x : Bytes) → b < 256 → lookup f reader (b ∷ x) ≡ ok (find f (b ∷ x) es)
      unfolding lookup
      lookup-eq b x byte = elim (Bool-cases (length es == 0)) [
        | inl none_there ↦
            rw none_there (ap ok (sym (find-empty f (b ∷ x) es (ground (arith, none_there)))))
        | inr some_there ↦ lookup-at b x byte (ground (arith, some_there))
      ]

  -- what a written index gives when it is read, with the entries that `write_index` took
  pub read-write_index :
      (digest : Bytes → Bytes → Bytes) (id : Bytes) (n : ℕ) (es : List E)
      → hash_size_for_format id ≡ some n
      → IsDigest digest id n
      → IsSorted f es
      → All (IsRow n) es
      → length es < 2 ^ 54
      → (file : Bytes) × (sum : Bytes) × (r : Reader) × (write_index f digest id es
          ≡ ok (file, sum))
        × (new_index_reader f file (length file) id ≡ ok r)
        × (read_all_entries f r ≡ ok es)
        × ((b : ℕ) (x : Bytes) → b < 256 → lookup f r (b ∷ x) ≡ ok (find f (b ∷ x) es))
        × (validate digest r ≡ ok tt)
  unfolding validate
  read-write_index digest id n es size is_digest sorted rows bound =
      let positive : 0 < n = omega (arith, format_bounds id n size) in
      let (table, fan, table_length, small, at) =
        fan_out f es (rows-HasByte f IsRow laws n es positive rows) (omega arith) in
      (
        written digest id n es table size is_digest sorted rows bound fan table_length small,
        digest id
            (content digest id n es table size is_digest sorted rows bound fan table_length small),
        reader digest id n es table size is_digest sorted rows bound fan table_length small,
        write_index-eq digest id n es table size is_digest sorted rows bound fan table_length small,
        new_index_reader-eq digest id n es table size is_digest sorted rows bound fan table_length
            small,
        read_all-eq digest id n es table size is_digest sorted rows bound fan table_length small,
        lookup-eq digest id n es table size is_digest sorted rows bound fan table_length small at,
        validate_file-eq digest id n
            (content digest id n es table size is_digest sorted rows bound fan table_length small)
            is_digest
            (content-bound digest id n es table size is_digest sorted rows bound fan table_length
              small),
      )
