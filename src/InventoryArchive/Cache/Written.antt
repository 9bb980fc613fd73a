-- ===== src/InventoryArchive/Cache/Written.antt =====
-- A written cache of version 0, opened and read.
use dodder.Prelude.{ℕ, ◌<◌, ◌^◌, ◌≡◌, List, some, length, Bytes, All}
use dodder.InventoryArchive.{ok, hash_size_for_format}
use dodder.InventoryArchive.Table.{Reader, validate}
use dodder.InventoryArchive.Table.FanOut.{IsSorted}
use dodder.InventoryArchive.Table.Search.{find}
use dodder.InventoryArchive.Table.Parts.{IsDigest}
use dodder.InventoryArchive.CacheFile.{hex_string}
use dodder.InventoryArchive.CacheFile.Written.{read-write_cache}
use dodder.InventoryArchive.CacheFile.Map.{IsByte, map_from-find}
use dodder.InventoryArchive.Cache.{
  CacheEntry, cache_format, write_cache, new_cache_reader, read_all_cached, to_map, IsRow,
  cache_format-IsEntryFormat,
}

-- Let the entries be strictly ordered by their hashes, fewer than 2 ^ 54, each with two hashes of the
-- format's size, with machine words as numbers, and let the digests of the format have
-- its size. Then `write_cache` gives a file that `new_cache_reader` opens, `read_all_cached` gives
-- back the entries in their order, and `validate` finds the checksum right.
pub read_back-write_cache :
    (digest : Bytes → Bytes → Bytes) (id : Bytes) (n : ℕ) (es : List CacheEntry)
    → hash_size_for_format id ≡ some n
    → IsDigest digest id n
    → IsSorted cache_format es
    → All (IsRow n) es
    → length es < 2 ^ 54
    → (file : Bytes) × (sum : Bytes) × (r : Reader) × (write_cache digest id es ≡ ok (file, sum))
      × (new_cache_reader file (length file) id ≡ ok r)
      × (read_all_cached r ≡ ok es)
      × (validate digest r ≡ ok tt)
unfolding write_cache new_cache_reader read_all_cached
read_back-write_cache digest id n es size is_digest sorted rows bound =
    read-write_cache cache_format (λ e. e.archive_checksum) IsRow cache_format-IsEntryFormat
      (λ n e h. h.1) digest id n es size is_digest sorted rows bound

-- Where the entries are strictly ordered by their hashes, and these and the given hash consist of
-- bytes, the map that `to_map` makes of the entries has under the hash's hexadecimal digits what a
-- scan of the entries finds.
pub to_map-find :
    (es : List CacheEntry) (h : Bytes)
    → IsSorted cache_format es
    → All (λ e. All IsByte e.hash) es
    → All IsByte h
    → to_map es (hex_string h) ≡ find cache_format h es
unfolding to_map
to_map-find es h sorted bites is_bytes = map_from-find cache_format es h sorted bites is_bytes
