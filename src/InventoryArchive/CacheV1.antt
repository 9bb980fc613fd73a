-- ===== src/InventoryArchive/CacheV1.antt =====
-- cache_v1.go of go/internal/alfa/inventory_archive: the cache of where each blob is in which
-- archive, version 1, whose entries say whether they are deltas and of what.
pub mod Written
use dodder.Prelude.{
  ℕ, ◌+◌, ◌<◌, ◌≡◌, refl, ap, sym, ◌∙◌, List, [], ◌∷◌, ◌++◌, append_assoc, append-nil, Option, none,
  length, length-append, take, drop, Bytes, codes, arith,
}
use dodder.Wire.{u64_mod, be, un_be, length-be}
use dodder.InventoryArchive.{Outcome}
use dodder.InventoryArchive.Table
use dodder.InventoryArchive.Table.{EntryFormat, Reader}
use dodder.InventoryArchive.Table.Rows.{IsEntryFormat}
use dodder.InventoryArchive.Table.Columns.{take_at, drop_at, number_at, tail_columns}
use dodder.InventoryArchive.CacheFile

pub record CacheEntryV1 : Type 0 where
  pub hash : Bytes
  pub archive_checksum : Bytes
  pub offset : ℕ
  pub stored_size : ℕ
  pub entry_type : ℕ
  pub base_offset : ℕ

-- one row
abbrev pub cached_entry_of_v1 : ℕ → Bytes → CacheEntryV1
cached_entry_of_v1 n row = record {
  hash = take n row;
  archive_checksum = take n (drop n row);
  offset = un_be (take 8 (drop (n + n) row));
  stored_size = un_be (take 8 (drop (n + n + 8) row));
  entry_type = un_be (take 1 (drop (n + n + 16) row));
  base_offset = un_be (take 8 (drop (n + n + 17) row));
}

abbrev pub cache_columns_v1 : CacheEntryV1 → Bytes
cache_columns_v1 e =
    e.archive_checksum
    ++ (be 8 e.offset ++ (be 8 e.stored_size ++ (be 1 e.entry_type ++ be 8 e.base_offset)))

abbrev pub cache_v1_format : EntryFormat CacheEntryV1
cache_v1_format = record {
  magic = codes "MIAC";
  version = 1;
  hash = λ e. e.hash;
  columns = cache_columns_v1;
  columns_size = λ n. n + 25;
  entry = cached_entry_of_v1;
}

unfoldable pub write_cache_v1 :
    (Bytes → Bytes → Bytes) → Bytes → List CacheEntryV1 → Outcome (Bytes × Bytes)
write_cache_v1 digest id es =
    CacheFile.write_cache cache_v1_format (λ e. e.archive_checksum) digest id es

unfoldable pub new_cache_reader_v1 : Bytes → ℕ → Bytes → Outcome Reader
new_cache_reader_v1 file total_size id =
    CacheFile.new_cache_reader cache_v1_format file total_size id

unfoldable pub read_all_cached_v1 : Reader → Outcome (List CacheEntryV1)
read_all_cached_v1 r = Table.read_all_entries cache_v1_format r

-- `ToMap`, as a function of the hash in hexadecimal digits
unfoldable pub to_map_v1 : List CacheEntryV1 → Bytes → Option CacheEntryV1
to_map_v1 es = CacheFile.map_from cache_v1_format (λ key. none) es

-- an entry whose two hashes have the size of their format and whose numbers are machine words
abbrev pub IsRow : ℕ → CacheEntryV1 → Type 0
IsRow n e =
    (length e.hash ≡ n)
    × (length e.archive_checksum ≡ n)
    × (e.offset < u64_mod)
    × (e.stored_size < u64_mod)
    × (e.entry_type < 256)
    × (e.base_offset < u64_mod)

-- the numbers behind the two hashes
numbers : CacheEntryV1 → Bytes
numbers e = be 8 e.offset ++ (be 8 e.stored_size ++ (be 1 e.entry_type ++ be 8 e.base_offset))

length-numbers : (e : CacheEntryV1) → length (numbers e) ≡ 25
unfolding numbers
length-numbers e = omega (
  arith,
  length-append (be 8 e.offset) (be 8 e.stored_size ++ (be 1 e.entry_type ++ be 8 e.base_offset)),
  length-append (be 8 e.stored_size) (be 1 e.entry_type ++ be 8 e.base_offset),
  length-append (be 1 e.entry_type) (be 8 e.base_offset),
  length-be 8 e.offset,
  length-be 8 e.stored_size,
  length-be 1 e.entry_type,
  length-be 8 e.base_offset,
)

entry_back :
    (n : ℕ) (e : CacheEntryV1) → IsRow n e → cached_entry_of_v1 n (e.hash ++ cache_columns_v1 e) ≡ e
unfolding numbers
entry_back n e h =
    let row = e.hash ++ cache_columns_v1 e in
    let rest = be 8 e.stored_size ++ (be 1 e.entry_type ++ be 8 e.base_offset) in
    let hashes = e.hash ++ e.archive_checksum in
    let whole : row ≡ hashes ++ (be 8 e.offset ++ rest) =
      sym (append_assoc e.hash e.archive_checksum (be 8 e.offset ++ rest)) in
    let len : length hashes ≡ n + n =
      omega (arith, length-append e.hash e.archive_checksum, h.0, h.1) in
    let a = take_at e.hash (cache_columns_v1 e) n h.0 in
    let b : take n (drop n row) ≡ e.archive_checksum =
      ap (λ t. take n t) (drop_at e.hash (cache_columns_v1 e) n h.0)
      ∙ take_at e.archive_checksum (numbers e) n h.1 in
    let c = number_at row hashes rest e.offset (n + n) whole len h.2 in
    let d =
      tail_columns row (hashes ++ be 8 e.offset) (n + n + 8) (n + n + 16) (n + n + 17) e.stored_size
        e.entry_type e.base_offset (whole ∙ sym (append_assoc hashes (be 8 e.offset) rest))
        (omega (arith, length-append hashes (be 8 e.offset), length-be 8 e.offset, len))
        (omega arith) (omega arith) h.3 h.4 h.5 in
    rw (a, b, c, d.0, d.1, d.2) refl

length-columns : (n : ℕ) (e : CacheEntryV1) → IsRow n e → length (cache_columns_v1 e) ≡ n + 25
unfolding numbers
length-columns n e h =
    omega (arith, length-append e.archive_checksum (numbers e), length-numbers e, h.1)

pub cache_v1_format-IsEntryFormat : IsEntryFormat cache_v1_format IsRow
cache_v1_format-IsEntryFormat = record {
  magic_length = refl;
  version_bound = omega arith;
  columns_bound = λ n h. omega arith;
  hash_length = λ n e h. h.0;
  columns_length = length-columns;
  entry_back = entry_back;
}
