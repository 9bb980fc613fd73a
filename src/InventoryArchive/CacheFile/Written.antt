-- ===== src/InventoryArchive/CacheFile/Written.antt =====
-- A written cache, read again.
use dodder.Prelude.{
  ℕ, ◌%◌, ◌^◌, ◌≤◌, ◌<◌, ◌≡◌, refl, ap, sym, ◌∙◌, List, [], ◌∷◌, ◌++◌, append_assoc, true, false,
  ◌==◌, ltb, length, length-append, Bytes, All, arith,
}
use dodder.Wire.{u64_mod, be, length-be}
use dodder.InventoryArchive.{some, unsupported_hash_format, ok, ◌>>=◌, or_err, hash_size_for_format}
use dodder.InventoryArchive.Table.{
  EntryFormat, Reader, write_header, write_entries, read_header, header_size, entry_size,
  read_all_entries, validate,
}
use dodder.InventoryArchive.Table.Layout.{
  format_bounds, header_bytes, split_table, length-header_bytes, read_header-eq,
}
use dodder.InventoryArchive.Table.Rows.{
  IsEntryFormat, read_all_entries-eq, length-write_entries, mul_bound,
}
use dodder.InventoryArchive.Table.FanOut.{IsSorted, IsSorted-verify_order}
use dodder.InventoryArchive.Table.Parts.{IsDigest, validate_file-eq}
use dodder.InventoryArchive.CacheFile.{
  verify_cache_sizes, verify_cache_sorted, write_cache, new_cache_reader,
}

module _ {E : Type 0} (f : EntryFormat E) (checksum : E → Bytes) (IsRow : ℕ → E → Type 0)
    (laws : IsEntryFormat f IsRow)
    (length-checksum : (n : ℕ) (e : E) → IsRow n e → length (checksum e) ≡ n) where
  verify_cache_sizes-ok :
      (n : ℕ) (es : List E) → All (IsRow n) es → verify_cache_sizes f checksum n es ≡ ok tt
  unfolding verify_cache_sizes
  verify_cache_sizes-ok n [] h = refl
  verify_cache_sizes-ok n (e ∷ es) h =
      let same : length (f.hash e) == n ≡ true = ground (arith, laws.hash_length n e h.0) in
      let same' : length (checksum e) == n ≡ true = ground (arith, length-checksum n e h.0) in
      rw (same, same') (verify_cache_sizes-ok n es h.1)

  module _ (digest : Bytes → Bytes → Bytes) (id : Bytes) (n : ℕ) (es : List E)
      (size : hash_size_for_format id ≡ some n) (is_digest : IsDigest digest id n)
      (sorted : IsSorted f es) (rows : All (IsRow n) es) (bound : length es < 2 ^ 54) where
    abbrev content : Bytes
    content =
        (f.magic ++ (be 2 f.version ++ ((length id % 256) ∷ (id ++ be 8 (length es % u64_mod)))))
        ++ write_entries f es

    abbrev written : Bytes
    written = content ++ digest id content

    abbrev reader : Reader
    reader = record {
      file = written;
      total_size = length written;
      hash_format_id = id;
      hash_size = n;
      entry_count = length es;
      fan_out = [];
      entries_start = header_size f id;
    }

    short : length id ≤ 10
    short = (format_bounds id n size).0

    write_cache-eq : write_cache f checksum digest id es ≡ ok (written, digest id content)
    unfolding write_cache verify_cache_sorted write_header
    write_cache-eq =
        let fits : ltb 255 (length id) ≡ false = ground (arith, short) in
        rw (size, IsSorted-verify_order f es sorted, verify_cache_sizes-ok n es rows, fits) refl

    whole :
        written
        ≡ f.magic
          ++ (be 2 f.version
              ++ ((length id ∷ [])
                  ++ (id
                      ++ (be 8 (length es) ++ ([] ++ (write_entries f es ++ digest id content))))))
    whole =
        let c : length es % u64_mod ≡ length es = omega arith in
        let l : length id % 256 ≡ length id = omega (arith, short) in rw (l, c) (simp append_assoc)

    small : length es < u64_mod
    small = omega arith

    abbrev front : Bytes
    front =
        header_bytes f id (length es) [] (write_entries f es ++ digest id content) written
          laws.magic_length laws.version_bound short small whole

    length-front : length front ≡ header_size f id
    length-front =
        length-header_bytes f id (length es) [] (write_entries f es ++ digest id content) written
          laws.magic_length laws.version_bound short small whole

    rows_whole : written ≡ front ++ (write_entries f es ++ digest id content)
    rows_whole =
        split_table f id (length es) [] (write_entries f es ++ digest id content) written
          laws.magic_length laws.version_bound short small whole

    header_read : read_header f written id ≡ ok (length es)
    header_read =
        read_header-eq f id (length es) [] (write_entries f es ++ digest id content) written
          laws.magic_length laws.version_bound short small whole

    new_cache_reader-eq : new_cache_reader f written (length written) id ≡ ok reader
    unfolding new_cache_reader
    new_cache_reader-eq =
        let made = λ (hash_size count : ℕ). ok (record {
          file = written;
          total_size = length written;
          hash_format_id = id;
          hash_size = hash_size;
          entry_count = count;
          fan_out = [];
          entries_start = header_size f id;
        }) in
        ap
          (λ s.
            or_err unsupported_hash_format s >>= λ k. read_header f written id >>= λ c. made k c)
          size
        ∙ ap (λ h. h >>= λ c. made n c) header_read

    read_all-eq : read_all_entries f reader ≡ ok es
    read_all-eq =
        read_all_entries-eq f IsRow laws n es front (digest id content) reader
          (format_bounds id n size).2 rows rows_whole (sym length-front) refl
          (omega (arith, length-front, short)) bound refl

    content-bound : length content < 2 ^ 63
    content-bound =
        let hash_bound : n ≤ 64 = (format_bounds id n size).2 in
        let width : entry_size f n ≤ 160 =
          omega (arith, hash_bound, laws.columns_bound n hash_bound) in
        let product = mul_bound (length es) (entry_size f n) 160 width in
        let count = be 8 (length es % u64_mod) in
        omega (
          arith,
          length-append (f.magic ++ (be 2 f.version ++ ((length id % 256) ∷ (id ++ count))))
              (write_entries f es),
          length-append f.magic (be 2 f.version ++ ((length id % 256) ∷ (id ++ count))),
          length-append (be 2 f.version) ((length id % 256) ∷ (id ++ count)),
          length-append id count,
          length-be 8 (length es % u64_mod),
          length-be 2 f.version,
          laws.magic_length,
          short,
          length-write_entries f IsRow laws n es rows,
        )

  -- what a written cache gives when it is read
  pub read-write_cache :
      (digest : Bytes → Bytes → Bytes) (id : Bytes) (n : ℕ) (es : List E)
      → hash_size_for_format id ≡ some n
      → IsDigest digest id n
      → IsSorted f es
      → All (IsRow n) es
      → length es < 2 ^ 54
      → (file : Bytes) × (sum : Bytes) × (r : Reader) × (write_cache f checksum digest id es
          ≡ ok (file, sum))
        × (new_cache_reader f file (length file) id ≡ ok r)
        × (read_all_entries f r ≡ ok es)
        × (validate digest r ≡ ok tt)
  unfolding validate
  read-write_cache digest id n es size is_digest sorted rows bound = (
    written digest id n es size is_digest sorted rows bound,
    digest id (content digest id n es size is_digest sorted rows bound),
    reader digest id n es size is_digest sorted rows bound,
    write_cache-eq digest id n es size is_digest sorted rows bound,
    new_cache_reader-eq digest id n es size is_digest sorted rows bound,
    read_all-eq digest id n es size is_digest sorted rows bound,
    validate_file-eq digest id n (content digest id n es size is_digest sorted rows bound) is_digest
        (content-bound digest id n es size is_digest sorted rows bound),
  )
