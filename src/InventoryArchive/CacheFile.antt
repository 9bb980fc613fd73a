-- ===== src/InventoryArchive/CacheFile.antt =====
-- What cache_writer.go, cache_reader.go and cache_v1.go of go/internal/alfa/inventory_archive share: the
-- file of a cache is that of an index but for the fan-out table, and every entry has a second hash.
pub mod Written
pub mod Map
use dodder.Prelude.{
  ℕ, ◌+◌, ◌/◌, ◌%◌, List, [], ◌∷◌, ◌++◌, ◌==◌, if◌then◌else◌, length, ltb, Option, some, bytes_eq,
  Bytes,
}
use dodder.Wire.{u64_mod}
use dodder.InventoryArchive.{
  hash_length, checksum_length, unsupported_hash_format, Outcome, ok, err, ◌>>=◌, ◌>>◌, or_err,
  hash_size_for_format,
}
use dodder.InventoryArchive.Table.{
  EntryFormat, Reader, verify_order, write_header, write_entries, read_header, header_size,
}

module _ {E : Type 0} (f : EntryFormat E) (checksum : E → Bytes) where
  -- the second loop of `verifyCacheSorted`
  unfoldable pub verify_cache_sizes : ℕ → List E → Outcome (Unit {0})
  verify_cache_sizes hash_size [] = ok tt
  verify_cache_sizes hash_size (e ∷ es) =
      let rest = verify_cache_sizes hash_size es in
      let checked = if length (checksum e) == hash_size then rest else err checksum_length in
      if length (f.hash e) == hash_size then checked else err hash_length

  unfoldable pub verify_cache_sorted : ℕ → List E → Outcome (Unit {0})
  unfolding verify_order verify_cache_sizes
  verify_cache_sorted hash_size es = verify_order f es >> verify_cache_sizes hash_size es

  -- the file and its checksum
  unfoldable pub write_cache : (Bytes → Bytes → Bytes) → Bytes → List E → Outcome (Bytes × Bytes)
  unfolding verify_cache_sorted write_header write_entries
  write_cache digest id es = do
    hash_size ← or_err unsupported_hash_format (hash_size_for_format id)
    verify_cache_sorted hash_size es
    header ← write_header f id (length es % u64_mod)
    let content = header ++ write_entries f es
    ok (content ++ digest id content, digest id content)

-- encoding/hex
abbrev pub hex_digit : ℕ → ℕ
hex_digit d = if ltb d 10 then 48 + d else 87 + d

unfoldable pub hex_string : Bytes → Bytes
hex_string [] = []
hex_string (b ∷ bites) = hex_digit (b / 16) ∷ hex_digit (b % 16) ∷ hex_string bites

module _ {E : Type 0} (f : EntryFormat E) where
  -- the reader of a cache has no fan-out table: it stays empty
  unfoldable pub new_cache_reader : Bytes → ℕ → Bytes → Outcome Reader
  unfolding read_header
  new_cache_reader file total_size id = do
    hash_size ← or_err unsupported_hash_format (hash_size_for_format id)
    count ← read_header f file id
    ok (record {
      file = file;
      total_size = total_size;
      hash_format_id = id;
      hash_size = hash_size;
      entry_count = count;
      fan_out = [];
      entries_start = header_size f id;
    })

  -- the loop of `ToMap`: a later entry with the same key replaces an earlier one
  unfoldable pub map_from : (Bytes → Option E) → List E → Bytes → Option E
  unfolding hex_string
  map_from m [] = m
  map_from m (e ∷ es) =
      map_from (λ key. if bytes_eq key (hex_string (f.hash e)) then some e else m key) es
