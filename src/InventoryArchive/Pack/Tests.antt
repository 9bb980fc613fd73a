-- ===== src/InventoryArchive/Pack/Tests.antt =====
-- Two blobs, packed and found.
use dodder.Prelude.{
  bytes_eq, ◌<◌, ◌≡◌, ◌^◌, refl, List, [], ◌∷◌, some, length, Bytes, codes, All, arith,
}
use dodder.Wire.{compare_bytes}
use dodder.InventoryArchive.{ok}
use dodder.InventoryArchive.Table.{Reader}
use dodder.InventoryArchive.Payload.{store, wrap_writer}
use dodder.InventoryArchive.Data.{DataReader, new_data_reader}
use dodder.InventoryArchive.Data.Step.{payload}
use dodder.InventoryArchive.Index.{new_index_reader}
use dodder.InventoryArchive.Pack.{pack_chunk_archive}
use dodder.InventoryArchive.Pack.Found.{IsIncreasing, IsFound, pack_chunk_archive-IsFound}
use dodder.InventoryArchive.Samples.{
  sha256, hash_from, digest, digest-size, sha256_size, marking, marking-IsCodec, sealing,
  sealing-IsSound, zstd_type, zstd_byte,
}

abbrev blobs : List (Bytes × Bytes)
blobs = (hash_from 4, codes "one") ∷ (hash_from 9, []) ∷ []

blobs_size : payload marking zstd_type (some sealing) blobs < 2 ^ 62
unfolding store wrap_writer bytes_eq
blobs_size = omega arith

blobs-IsIncreasing : IsIncreasing blobs
unfolding compare_bytes
blobs-IsIncreasing = ((refl, tt), (tt, tt))

pack_chunk_archive-IsFound_example :
    (file : Bytes) × (index : Bytes) × (ir : Reader) × (r : DataReader) × (pack_chunk_archive digest
        marking sha256 zstd_type
        (some sealing)
        blobs
      ≡ ok (file, index))
    × (new_index_reader index (length index) sha256 ≡ ok ir)
    × (new_data_reader file (some sealing) ≡ ok r)
    × All (IsFound marking ir r) blobs
pack_chunk_archive-IsFound_example =
    pack_chunk_archive-IsFound digest marking sha256 zstd_type (some sealing) 32 3 blobs sha256_size
      zstd_byte marking-IsCodec sealing-IsSound digest-size
      ((refl, omega arith), ((refl, omega arith), tt)) (omega arith, (omega arith, tt))
      blobs-IsIncreasing (omega arith) blobs_size
