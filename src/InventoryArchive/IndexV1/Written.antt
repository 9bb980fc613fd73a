-- ===== src/InventoryArchive/IndexV1/Written.antt =====
-- A written index of version 1, opened and read.
use dodder.Prelude.{ℕ, ◌<◌, ◌^◌, ◌≡◌, ap, List, ◌∷◌, some, length, Bytes, All}
use dodder.InventoryArchive.{ok, ◌>>=◌, hash_size_for_format}
use dodder.InventoryArchive.Table.{Reader, validate}
use dodder.InventoryArchive.Table.FanOut.{IsSorted}
use dodder.InventoryArchive.Table.Search.{find}
use dodder.InventoryArchive.Table.Written.{read-write_index}
use dodder.InventoryArchive.Table.Parts.{IsDigest}
use dodder.InventoryArchive.IndexV1.{
  IndexEntryV1, place, index_v1_format, write_index_v1, new_index_reader_v1, lookup_hash_v1,
  read_all_entries_v1, IsRow, index_v1_format-IsEntryFormat,
}
use mathlib.Core.Option

-- Let the entries be strictly ordered by their hashes, fewer than 2 ^ 54, each with a hash of the
-- format's size, machine words as numbers and a byte as its type, and let the digests of the format
-- have its size. Then `write_index_v1` gives a file that `new_index_reader_v1` opens,
-- `read_all_entries_v1` gives back the entries in their order, `lookup_hash_v1` finds for any hash of at
-- least one byte exactly what a scan of the entries finds, the offset, size, type and base offset of
-- the entry with this hash or nothing, and `validate` finds the checksum right.
pub read_back-write_index_v1 :
    (digest : Bytes → Bytes → Bytes) (id : Bytes) (n : ℕ) (es : List IndexEntryV1)
    → hash_size_for_format id ≡ some n
    → IsDigest digest id n
    → IsSorted index_v1_format es
    → All (IsRow n) es
    → length es < 2 ^ 54
    → (file : Bytes) × (sum : Bytes) × (r : Reader) × (write_index_v1 digest id es ≡ ok (file, sum))
      × (new_index_reader_v1 file (length file) id ≡ ok r)
      × (read_all_entries_v1 r ≡ ok es)
      × ((b : ℕ) (x : Bytes)
          → b < 256
          → lookup_hash_v1 r (b ∷ x) ≡ ok (Option.map place (find index_v1_format (b ∷ x) es)))
      × (validate digest r ≡ ok tt)
unfolding write_index_v1 new_index_reader_v1 read_all_entries_v1 lookup_hash_v1
read_back-write_index_v1 digest id n es size is_digest sorted rows bound =
    let (file, sum, r, written, opened, all, found, valid) =
      read-write_index index_v1_format IsRow index_v1_format-IsEntryFormat digest id n es size
        is_digest sorted rows bound in
    (
      file,
      sum,
      r,
      written,
      opened,
      all,
      λ b x byte. ap (λ o. o >>= λ e. ok (Option.map place e)) (found b x byte),
      valid,
    )
