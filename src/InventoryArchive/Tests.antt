-- ===== src/InventoryArchive/Tests.antt =====
-- Examples on small indexes and caches, and the theorems applied to them.
use dodder.Prelude.{
  bytes_eq, ℕ, ◌≡◌, ◌↔◌, ◌<◌, refl, List, [], ◌∷◌, ◌++◌, length, Bytes, codes, All, arith,
}
use dodder.Wire.{compare_bytes}
use dodder.InventoryArchive.{ok, err, not_sorted, hash_length, hash_size_for_format}
use dodder.InventoryArchive.Table.{Reader, EntryFormat, validate, validate_file}
use dodder.InventoryArchive.Table
use dodder.InventoryArchive.Table.FanOut.{IsSorted}
use dodder.InventoryArchive.Table.Search.{find}
use dodder.InventoryArchive.Table.Checksum.{validate_file_iff, write_index-refuses}
use dodder.InventoryArchive.Index.{
  IndexEntry, index_format, write_index, new_index_reader, lookup_hash, read_all_entries,
}
use dodder.InventoryArchive.Index.Written.{lookup_hash-find, read_back-write_index}
use dodder.InventoryArchive.IndexV1.{
  IndexEntryV1, index_v1_format, place, write_index_v1, new_index_reader_v1, lookup_hash_v1,
  read_all_entries_v1,
}
use dodder.InventoryArchive.IndexV1.Written.{read_back-write_index_v1}
use dodder.InventoryArchive.CacheFile.{hex_string}
use dodder.InventoryArchive.Cache.{
  to_map, CacheEntry, cache_format, write_cache, new_cache_reader, read_all_cached,
}
use dodder.InventoryArchive.Cache.Written.{read_back-write_cache, to_map-find}
use dodder.InventoryArchive.CacheV1.{CacheEntryV1}
use mathlib.Core.Option
use dodder.InventoryArchive.Samples.{sha256, fill, hash_from, digest, digest-size, sha256_size}

abbrev entries : List IndexEntry
entries =
    record { hash = hash_from 3; pack_offset = 17; stored_size = 5 }
    ∷ record { hash = hash_from 200; pack_offset = 70; stored_size = 9 }
    ∷ []

abbrev entries_v1 : List IndexEntryV1
entries_v1 =
    record {
      hash = hash_from 3;
      pack_offset = 17;
      stored_size = 5;
      entry_type = 0;
      base_offset = 0;
    }
    ∷ record {
      hash = hash_from 200;
      pack_offset = 70;
      stored_size = 9;
      entry_type = 1;
      base_offset = 17;
    }
    ∷ []

abbrev cached : List CacheEntry
cached =
    record { hash = hash_from 3; archive_checksum = fill 1 32; offset = 17; stored_size = 5 }
    ∷ record { hash = hash_from 200; archive_checksum = fill 1 32; offset = 70; stored_size = 9 }
    ∷ []

abbrev cached_v1 : List CacheEntryV1
cached_v1 =
    record {
      hash = hash_from 3;
      archive_checksum = fill 1 32;
      offset = 17;
      stored_size = 5;
      entry_type = 1;
      base_offset = 99;
    }
    ∷ []

entries-IsSorted : IsSorted index_format entries
unfolding compare_bytes
entries-IsSorted = ((refl, tt), (tt, tt))

entries_v1-IsSorted : IsSorted index_v1_format entries_v1
unfolding compare_bytes
entries_v1-IsSorted = ((refl, tt), (tt, tt))

cached-IsSorted : IsSorted cache_format cached
unfolding compare_bytes
cached-IsSorted = ((refl, tt), (tt, tt))

lookup_hash-find_example :
    (file : Bytes) × (sum : Bytes) × (r : Reader) × (write_index digest sha256 entries
      ≡ ok (file, sum))
    × (new_index_reader file (length file) sha256 ≡ ok r)
    × (lookup_hash r (hash_from 200)
        ≡ ok (
            Option.map
              (λ e. (e.pack_offset, e.stored_size))
              (find index_format (hash_from 200) entries)))
lookup_hash-find_example =
    lookup_hash-find digest sha256 32 entries 200 (fill 7 31) sha256_size digest-size
      entries-IsSorted ((refl, omega arith, omega arith), ((refl, omega arith, omega arith), tt))
      (omega arith) (omega arith)

read_back-write_index_example :
    (file : Bytes) × (sum : Bytes) × (r : Reader) × (write_index digest sha256 entries
      ≡ ok (file, sum))
    × (new_index_reader file (length file) sha256 ≡ ok r)
    × (read_all_entries r ≡ ok entries)
    × (validate digest r ≡ ok tt)
read_back-write_index_example =
    read_back-write_index digest sha256 32 entries sha256_size digest-size entries-IsSorted
      ((refl, omega arith, omega arith), ((refl, omega arith, omega arith), tt)) (omega arith)

read_back-write_index_v1_example :
    (file : Bytes) × (sum : Bytes) × (r : Reader) × (write_index_v1 digest sha256 entries_v1
      ≡ ok (file, sum))
    × (new_index_reader_v1 file (length file) sha256 ≡ ok r)
    × (read_all_entries_v1 r ≡ ok entries_v1)
    × ((b : ℕ) (x : Bytes)
        → b < 256
        → lookup_hash_v1 r (b ∷ x)
          ≡ ok (Option.map place (find index_v1_format (b ∷ x) entries_v1)))
    × (validate digest r ≡ ok tt)
read_back-write_index_v1_example =
    read_back-write_index_v1 digest sha256 32 entries_v1 sha256_size digest-size entries_v1-IsSorted
      (
        (refl, omega arith, omega arith, omega arith, omega arith),
        ((refl, omega arith, omega arith, omega arith, omega arith), tt),
      )
      (omega arith)

read_back-write_cache_example :
    (file : Bytes) × (sum : Bytes) × (r : Reader) × (write_cache digest sha256 cached
      ≡ ok (file, sum))
    × (new_cache_reader file (length file) sha256 ≡ ok r)
    × (read_all_cached r ≡ ok cached)
    × (validate digest r ≡ ok tt)
read_back-write_cache_example =
    read_back-write_cache digest sha256 32 cached sha256_size digest-size cached-IsSorted
      ((refl, refl, omega arith, omega arith), ((refl, refl, omega arith, omega arith), tt))
      (omega arith)

abbrev small_entry : Bytes → CacheEntry
small_entry h = record { hash = h; archive_checksum = []; offset = 0; stored_size = 0 }

abbrev small_cached : List CacheEntry
small_cached = small_entry (codes "ab") ∷ small_entry (codes "cd") ∷ []

small_cached-IsSorted : IsSorted cache_format small_cached
unfolding compare_bytes
small_cached-IsSorted = ((refl, tt), (tt, tt))

to_map-find_example :
    to_map small_cached (hex_string (codes "cd")) ≡ find cache_format (codes "cd") small_cached
to_map-find_example =
    to_map-find small_cached (codes "cd") small_cached-IsSorted
      ((omega arith, (omega arith, tt)), ((omega arith, (omega arith, tt)), tt))
      (omega arith, (omega arith, tt))

validate_file_iff_example :
    (validate_file digest (codes "dodder" ++ digest sha256 (codes "dodder")) 38 32 sha256 ≡ ok tt)
    ↔ ((content : Bytes) × (codes "dodder" ++ digest sha256 (codes "dodder")
          ≡ content ++ digest sha256 content))
validate_file_iff_example =
    validate_file_iff digest (codes "dodder" ++ digest sha256 (codes "dodder")) sha256 32
      (omega arith) digest-size

write_index-refuses_example :
    (¬ IsSorted index_format entries
      → Table.write_index index_format digest sha256 entries ≡ err not_sorted)
    × (IsSorted index_format entries
        → ¬ All (λ e. length (e.hash) ≡ 32) entries
        → Table.write_index index_format digest sha256 entries ≡ err hash_length)
    × ((file sum : Bytes)
        → Table.write_index index_format digest sha256 entries ≡ ok (file, sum)
        → IsSorted index_format entries × All (λ e. length (e.hash) ≡ 32) entries)
write_index-refuses_example = write_index-refuses index_format digest sha256 32 entries sha256_size

-- the two entries in the wrong order
entries_swapped :
    write_index digest sha256 (
      record { hash = hash_from 9; pack_offset = 0; stored_size = 0 }
      ∷ record { hash = hash_from 3; pack_offset = 0; stored_size = 0 }
      ∷ [])
    ≡ err not_sorted
unfolding write_index Table.write_index Table.verify_sorted Table.verify_order compare_bytes
    hash_size_for_format bytes_eq
entries_swapped = refl
