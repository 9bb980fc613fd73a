-- ===== src/InventoryArchive/CacheV1/Written.antt =====
-- A written cache of version 1, opened and read.
use dodder.Prelude.{ℕ, ◌<◌, ◌^◌, ◌≡◌, List, some, length, Bytes, All}
use dodder.InventoryArchive.{ok, hash_size_for_format}
use dodder.InventoryArchive.Table.{Reader, validate}
use dodder.InventoryArchive.Table.FanOut.{IsSorted}
use dodder.InventoryArchive.Table.Parts.{IsDigest}
use dodder.InventoryArchive.CacheFile.Written.{read-write_cache}
use dodder.InventoryArchive.CacheV1.{
  CacheEntryV1, cache_v1_format, write_cache_v1, new_cache_reader_v1, read_all_cached_v1, IsRow,
  cache_v1_format-IsEntryFormat,
}

-- Let the entries be strictly ordered by their hashes, fewer than 2 ^ 54, each with two hashes of the
-- format's size, with machine words as numbers and a byte as its type, and let the digests of the format have
-- its size. Then `write_cache_v1` gives a file that `new_cache_reader_v1` opens, `read_all_cached_v1` gives
-- back the entries in their order, and `validate` finds the checksum right.
pub read_back-write_cache_v1 :
    (digest : Bytes → Bytes → Bytes) (id : Bytes) (n : ℕ) (es : List CacheEntryV1)
    → hash_size_for_format id ≡ some n
    → IsDigest digest id n
    → IsSorted cache_v1_format es
    → All (IsRow n) es
    → length es < 2 ^ 54
    → (file : Bytes) × (sum : Bytes) × (r : Reader) × (write_cache_v1 digest id es ≡ ok (file, sum))
      × (new_cache_reader_v1 file (length file) id ≡ ok r)
      × (read_all_cached_v1 r ≡ ok es)
      × (validate digest r ≡ ok tt)
unfolding write_cache_v1 new_cache_reader_v1 read_all_cached_v1
read_back-write_cache_v1 digest id n es size is_digest sorted rows bound =
    read-write_cache cache_v1_format (λ e. e.archive_checksum) IsRow cache_v1_format-IsEntryFormat
      (λ n e h. h.1) digest id n es size is_digest sorted rows bound
