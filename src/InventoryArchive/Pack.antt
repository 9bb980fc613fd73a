-- ===== src/InventoryArchive/Pack.antt =====
-- packChunkArchive of go/internal/foxtrot/blob_stores/pack_v0.go: blobs become a data file with its index.
-- Left out are the names of the files, writing them under a temporary name first, and the store's own
-- table of the entries.
pub mod Found
mod Tests
use dodder.Prelude.{List, map, Option, Bytes}
use dodder.InventoryArchive.{Outcome, ok, ◌>>=◌}
use dodder.InventoryArchive.Payload.{Codec, Encryption}
use dodder.InventoryArchive.Data.{DataEntry, new_data_writer, write_entry, close}
use dodder.InventoryArchive.Data.Step.{write_items}
use dodder.InventoryArchive.Index.{IndexEntry, write_index}

abbrev pub index_entry : DataEntry → IndexEntry
index_entry e = record { hash = e.hash; pack_offset = e.offset; stored_size = e.stored_size }

-- the bytes of the data file and of the index, from the digests and the data of the blobs
unfoldable pub pack_chunk_archive :
    (Bytes → Bytes → Bytes)
    → Codec
    → Bytes
    → Bytes
    → Option Encryption
    → List (Bytes × Bytes)
    → Outcome (Bytes × Bytes)
unfolding new_data_writer write_entry close write_index
pack_chunk_archive digest codec id ct enc blobs = do
  w ← new_data_writer id ct enc
  w ← write_items codec w blobs
  (file, sum, entries) ← ok (close digest w)
  (index, index_sum) ← write_index digest id (map index_entry entries)
  ok (file, index)
