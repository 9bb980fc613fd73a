-- ===== src/InventoryArchive/Table/Parts.antt =====
-- Steps towards a written index: its checksum, its reader, and the tests that its entries pass.
use dodder.Prelude.{
  ℕ, ◌+◌, ◌-◌, ◌^◌, ◌<◌, ◌≡◌, refl, ap, sym, ◌∙◌, List, [], ◌∷◌, ◌++◌, append-nil, true, false,
  ◌==◌, ltb, none, some, length, length-append, Bytes, bytes_eq_refl, All, arith,
}
use dodder.Wire.{compare_bytes, read_at}
use dodder.Wire.Order.{IsLess, IsLess-first}
use dodder.Wire.At.{read_at_split}
use dodder.InventoryArchive.{
  unsupported_hash_format, or_panic, ok, ◌>>=◌, or_err, hash_size_for_format,
}
use dodder.InventoryArchive.Table.{
  EntryFormat, read_numbers, verify_sizes, read_header, header_size, new_index_reader, reader_of,
  validate_file,
}
use dodder.InventoryArchive.Table.Rows.{IsEntryFormat}
use dodder.InventoryArchive.Table.FanOut.{first, HasByte}
use dodder.InventoryArchive.Table.Search.{find}

pub IsLess-of_first : (x y : Bytes) → first x < first y → IsLess x y
unfolding compare_bytes
IsLess-of_first x [] h = absurd (omega arith)
IsLess-of_first [] (b ∷ y) h = refl
IsLess-of_first (a ∷ x) (b ∷ y) h = IsLess-first a b x y h

-- a digest has the size of its format
abbrev pub IsDigest : (Bytes → Bytes → Bytes) → Bytes → ℕ → Type 0
IsDigest digest id n = (bites : Bytes) → length (digest id bites) ≡ n

-- a file that ends in the digest of what stands in front of it is valid
pub validate_file-eq :
    (digest : Bytes → Bytes → Bytes) (id : Bytes) (n : ℕ) (content : Bytes)
    → IsDigest digest id n
    → length content < 2 ^ 63
    → validate_file digest
        (content ++ digest id content)
        (length (content ++ digest id content))
        n
        id
      ≡ ok tt
unfolding validate_file
validate_file-eq digest id n content is_digest small =
    let file = content ++ digest id content in
    let total : length file ≡ length content + n =
      omega (arith, length-append content (digest id content), is_digest content) in
    let enough : ltb (length content + n) n ≡ false = ground arith in
    let rest : length content + n - n ≡ length content = omega arith in
    let stored : read_at file (length content) n ≡ some (digest id content) =
      read_at_split file content (digest id content) [] (length content) n
        (ap (λ t. content ++ t) (sym (append-nil (digest id content)))) refl
        (sym (is_digest content)) small in
    let hashed : read_at file 0 (length content) ≡ some content =
      read_at_split file [] content (digest id content) 0 (length content) refl refl refl
        (omega arith) in
    rw (total, enough, rest, stored, hashed, bytes_eq_refl (digest id content)) refl

pub reader_of-eq :
    {E : Type 0} (f : EntryFormat E) (file id : Bytes) (total n count : ℕ) (buf : Bytes)
    (table : List ℕ)
    → read_numbers 256 buf ≡ table
    → reader_of f file total id n count buf ≡ record {
      file = file;
      total_size = total;
      hash_format_id = id;
      hash_size = n;
      entry_count = count;
      fan_out = table;
      entries_start = header_size f id + 2048;
    }
unfolding reader_of
reader_of-eq f file id total n count buf table numbers =
    ap
      (λ t. record {
        file = file;
        total_size = total;
        hash_format_id = id;
        hash_size = n;
        entry_count = count;
        fan_out = t;
        entries_start = header_size f id + 2048;
      })
      numbers

-- the steps of `new_index_reader`, put together
pub new_index_reader_parts :
    {E : Type 0} (f : EntryFormat E) (file id : Bytes) (total n count : ℕ) (buf : Bytes)
    → hash_size_for_format id ≡ some n
    → read_header f file id ≡ ok count
    → read_at file (header_size f id) 2048 ≡ some buf
    → new_index_reader f file total id ≡ ok (reader_of f file total id n count buf)
unfolding new_index_reader
new_index_reader_parts f file id total n count buf size header there =
    let finish = λ (hash_size c : ℕ) (b : Bytes). ok (reader_of f file total id hash_size c b) in
    ap
      (λ s. or_err unsupported_hash_format s >>= λ hash_size. read_header f file id >>= λ c.
        or_panic (read_at file (header_size f id) 2048) >>= λ b. finish hash_size c b)
      size
    ∙ ap (λ h. h >>= λ c. or_panic (read_at file (header_size f id) 2048) >>= λ b. finish n c b)
        header
    ∙ ap (λ t. or_panic t >>= λ b. finish n count b) there

pub find-empty :
    {E : Type 0} (f : EntryFormat E) (h : Bytes) (es : List E) → length es ≡ 0 → find f h es ≡ none
find-empty f h [] e = refl
find-empty f h (x ∷ es) e = absurd (omega arith)

module _ {E : Type 0} (f : EntryFormat E) (IsRow : ℕ → E → Type 0)
    (laws : IsEntryFormat f IsRow) where
  pub verify_sizes-ok : (n : ℕ) (es : List E) → All (IsRow n) es → verify_sizes f n es ≡ ok tt
  unfolding verify_sizes
  verify_sizes-ok n [] h = refl
  verify_sizes-ok n (e ∷ es) h =
      let same : length (f.hash e) == n ≡ true = ground (arith, laws.hash_length n e h.0) in
      rw same (verify_sizes-ok n es h.1)

  pub rows-HasByte : (n : ℕ) (es : List E) → 0 < n → All (IsRow n) es → All (HasByte f) es
  rows-HasByte n [] pos h = tt
  rows-HasByte n (e ∷ es) pos h =
      (omega (arith, laws.hash_length n e h.0), rows-HasByte n es pos h.1)
