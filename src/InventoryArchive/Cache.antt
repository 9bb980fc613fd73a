-- ===== src/InventoryArchive/Cache.antt =====
-- cache_writer.go and cache_reader.go of go/internal/alfa/inventory_archive: the cache of where each blob is in which
-- archive, version 0.
pub mod Written
use dodder.Prelude.{
  ℕ, ◌+◌, ◌<◌, ◌≡◌, refl, ap, sym, ◌∙◌, List, [], ◌∷◌, ◌++◌, append_assoc, append-nil, Option, none,
  length, length-append, take, drop, Bytes, codes, arith,
}
use dodder.Wire.{u64_mod, be, un_be, length-be}
use dodder.InventoryArchive.{Outcome}
use dodder.InventoryArchive.Table
use dodder.InventoryArchive.Table.{EntryFormat, Reader}
use dodder.InventoryArchive.Table.Rows.{IsEntryFormat}
use dodder.InventoryArchive.Table.Columns.{take_at, drop_at, number_at}
use dodder.InventoryArchive.CacheFile

pub record CacheEntry : Type 0 where
  pub hash : Bytes
  pub archive_checksum : Bytes
  pub offset : ℕ
  pub stored_size : ℕ

-- one row
abbrev pub cached_entry_of : ℕ → Bytes → CacheEntry
cached_entry_of n row = record {
  hash = take n row;
  archive_checksum = take n (drop n row);
  offset = un_be (take 8 (drop (n + n) row));
  stored_size = un_be (take 8 (drop (n + n + 8) row));
}

abbrev pub cache_columns : CacheEntry → Bytes
cache_columns e = e.archive_checksum ++ (be 8 e.offset ++ be 8 e.stored_size)

abbrev pub cache_format : EntryFormat CacheEntry
cache_format = record {
  magic = codes "MIAC";
  version = 0;
  hash = λ e. e.hash;
  columns = cache_columns;
  columns_size = λ n. n + 16;
  entry = cached_entry_of;
}

unfoldable pub write_cache :
    (Bytes → Bytes → Bytes) → Bytes → List CacheEntry → Outcome (Bytes × Bytes)
write_cache digest id es = CacheFile.write_cache cache_format (λ e. e.archive_checksum) digest id es

unfoldable pub new_cache_reader : Bytes → ℕ → Bytes → Outcome Reader
new_cache_reader file total_size id = CacheFile.new_cache_reader cache_format file total_size id

unfoldable pub read_all_cached : Reader → Outcome (List CacheEntry)
read_all_cached r = Table.read_all_entries cache_format r

-- `ToMap`, as a function of the hash in hexadecimal digits
unfoldable pub to_map : List CacheEntry → Bytes → Option CacheEntry
to_map es = CacheFile.map_from cache_format (λ key. none) es

-- an entry whose two hashes have the size of their format and whose numbers are machine words
abbrev pub IsRow : ℕ → CacheEntry → Type 0
IsRow n e =
    (length e.hash ≡ n)
    × (length e.archive_checksum ≡ n)
    × (e.offset < u64_mod)
    × (e.stored_size < u64_mod)

-- the numbers behind the two hashes
numbers : CacheEntry → Bytes
numbers e = be 8 e.offset ++ be 8 e.stored_size

length-numbers : (e : CacheEntry) → length (numbers e) ≡ 16
unfolding numbers
length-numbers e = omega (
  arith,
  length-append (be 8 e.offset) (be 8 e.stored_size),
  length-be 8 e.offset,
  length-be 8 e.stored_size,
)

entry_back :
    (n : ℕ) (e : CacheEntry) → IsRow n e → cached_entry_of n (e.hash ++ cache_columns e) ≡ e
unfolding numbers
entry_back n e h =
    let row = e.hash ++ cache_columns e in
    let rest = be 8 e.stored_size in
    let hashes = e.hash ++ e.archive_checksum in
    let whole : row ≡ hashes ++ (be 8 e.offset ++ rest) =
      sym (append_assoc e.hash e.archive_checksum (be 8 e.offset ++ rest)) in
    let len : length hashes ≡ n + n =
      omega (arith, length-append e.hash e.archive_checksum, h.0, h.1) in
    let a = take_at e.hash (cache_columns e) n h.0 in
    let b : take n (drop n row) ≡ e.archive_checksum =
      ap (λ t. take n t) (drop_at e.hash (cache_columns e) n h.0)
      ∙ take_at e.archive_checksum (numbers e) n h.1 in
    let c = number_at row hashes rest e.offset (n + n) whole len h.2 in
    let last : row ≡ (hashes ++ be 8 e.offset) ++ (be 8 e.stored_size ++ []) =
      whole
      ∙ ap (λ t. hashes ++ (be 8 e.offset ++ t)) (sym (append-nil (be 8 e.stored_size)))
      ∙ sym (append_assoc hashes (be 8 e.offset) (be 8 e.stored_size ++ [])) in
    let d =
      number_at row (hashes ++ be 8 e.offset) [] e.stored_size (n + n + 8) last
        (omega (arith, length-append hashes (be 8 e.offset), length-be 8 e.offset, len)) h.3 in
    rw (a, b, c, d) refl

length-columns : (n : ℕ) (e : CacheEntry) → IsRow n e → length (cache_columns e) ≡ n + 16
unfolding numbers
length-columns n e h =
    omega (arith, length-append e.archive_checksum (numbers e), length-numbers e, h.1)

pub cache_format-IsEntryFormat : IsEntryFormat cache_format IsRow
cache_format-IsEntryFormat = record {
  magic_length = refl;
  version_bound = omega arith;
  columns_bound = λ n h. omega arith;
  hash_length = λ n e h. h.0;
  columns_length = length-columns;
  entry_back = entry_back;
}
