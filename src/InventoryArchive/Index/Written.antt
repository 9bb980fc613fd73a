-- ===== src/InventoryArchive/Index/Written.antt =====
-- A written index of version 0, opened and read.
use dodder.Prelude.{ℕ, ◌<◌, ◌^◌, ◌≡◌, ap, List, ◌∷◌, some, length, Bytes, All}
use dodder.InventoryArchive.{ok, ◌>>=◌, hash_size_for_format}
use dodder.InventoryArchive.Table.{Reader, validate}
use dodder.InventoryArchive.Table.FanOut.{IsSorted}
use dodder.InventoryArchive.Table.Search.{find}
use dodder.InventoryArchive.Table.Written.{read-write_index}
use dodder.InventoryArchive.Table.Parts.{IsDigest}
use dodder.InventoryArchive.Index.{
  IndexEntry, index_format, write_index, new_index_reader, lookup_hash, read_all_entries, IsRow,
  index_format-IsEntryFormat,
}
use mathlib.Core.Option

-- Let the entries be strictly ordered by their hashes, fewer than 2 ^ 54, each with a hash of the
-- format's size and machine words as numbers, and let the digests of the format have its size. Then
-- `write_index` gives a file that `new_index_reader` opens, and `lookup_hash` finds there for any hash
-- of at least one byte exactly what a scan of the entries finds: the offset and the size of the entry
-- with this hash, or nothing.
pub lookup_hash-find :
    (digest : Bytes → Bytes → Bytes) (id : Bytes) (n : ℕ) (es : List IndexEntry) (b : ℕ) (x : Bytes)
    → hash_size_for_format id ≡ some n
    → IsDigest digest id n
    → IsSorted index_format es
    → All (IsRow n) es
    → length es < 2 ^ 54
    → b < 256
    → (file : Bytes) × (sum : Bytes) × (r : Reader) × (write_index digest id es ≡ ok (file, sum))
      × (new_index_reader file (length file) id ≡ ok r)
      × (lookup_hash r (b ∷ x)
          ≡ ok (Option.map (λ e. (e.pack_offset, e.stored_size)) (find index_format (b ∷ x) es)))
unfolding write_index new_index_reader lookup_hash
lookup_hash-find digest id n es b x size is_digest sorted rows bound byte =
    let (file, sum, r, written, opened, all, found, valid) =
      read-write_index index_format IsRow index_format-IsEntryFormat digest id n es size is_digest
        sorted rows bound in
    (
      file,
      sum,
      r,
      written,
      opened,
      ap (λ o. o >>= λ e. ok (Option.map (λ e. (e.pack_offset, e.stored_size)) e)) (found b x byte),
    )

-- Let the entries be strictly ordered by their hashes, fewer than 2 ^ 54, each with a hash of the
-- format's size and machine words as numbers, and let the digests of the format have its size. Then
-- `write_index` gives a file that `new_index_reader` opens, `read_all_entries` gives back the entries
-- in their order, and `validate` finds the checksum right.
pub read_back-write_index :
    (digest : Bytes → Bytes → Bytes) (id : Bytes) (n : ℕ) (es : List IndexEntry)
    → hash_size_for_format id ≡ some n
    → IsDigest digest id n
    → IsSorted index_format es
    → All (IsRow n) es
    → length es < 2 ^ 54
    → (file : Bytes) × (sum : Bytes) × (r : Reader) × (write_index digest id es ≡ ok (file, sum))
      × (new_index_reader file (length file) id ≡ ok r)
      × (read_all_entries r ≡ ok es)
      × (validate digest r ≡ ok tt)
unfolding write_index new_index_reader read_all_entries
read_back-write_index digest id n es size is_digest sorted rows bound =
    let (file, sum, r, written, opened, all, found, valid) =
      read-write_index index_format IsRow index_format-IsEntryFormat digest id n es size is_digest
        sorted rows bound in
    (file, sum, r, written, opened, all, valid)
