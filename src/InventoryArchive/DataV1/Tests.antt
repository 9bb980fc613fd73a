-- ===== src/InventoryArchive/DataV1/Tests.antt =====
-- A small data file of version 1, and the theorem applied to it.
use dodder.InventoryArchive.{none, spins}
use dodder.InventoryArchive.Entries.{read_from}
use dodder.InventoryArchive.Entries.FuelV1.{read_all_data_v1-ends}
use dodder.InventoryArchive.DataV1.{read_entry_v1}
use dodder.Prelude.{
  ◌≢◌, ◌^◌, map, bytes_eq, ◌≡◌, ◌<◌, refl, List, [], ◌∷◌, some, Bytes, codes, All, arith,
}
use dodder.InventoryArchive.{ok}
use dodder.InventoryArchive.Payload.{store, wrap_writer}
use dodder.InventoryArchive.DataV1.{
  DataEntryV1, DataWriterV1, new_data_writer_v1, close_v1, DataReaderV1, new_data_reader_v1,
  read_all_data_v1, read_entry_at_v1, validate_data_v1,
}
use dodder.InventoryArchive.DataV1.Item.{
  Item, full, delta, write_items_v1, payload_v1, forget_v1, item_of_v1,
}
use dodder.InventoryArchive.DataV1.Written.{read_back-write_items_v1}
use dodder.InventoryArchive.Samples.{
  sha256, hash_from, digest, digest-size, sha256_size, marking, marking-IsCodec, sealing,
  sealing-IsSound, zstd_type, zstd_byte,
}

abbrev items_v1 : List Item
items_v1 =
    full (hash_from 9) (codes "one") ∷ delta (hash_from 4) 1 (hash_from 9) 5 (codes "two") ∷ []

items_v1_size : payload_v1 marking zstd_type (some sealing) 32 items_v1 < 2 ^ 62
unfolding store wrap_writer bytes_eq
items_v1_size = omega arith

read_back-write_items_v1_example :
    (w : DataWriterV1) × (w' : DataWriterV1) × (es : List DataEntryV1) × (file : Bytes)
    × (sum : Bytes) × (r : DataReaderV1) × (new_data_writer_v1 sha256 zstd_type 1 (some sealing)
        ≡ ok w)
    × (write_items_v1 marking w items_v1 ≡ ok w')
    × (close_v1 digest w' ≡ (file, sum, map forget_v1 es))
    × (map item_of_v1 es ≡ items_v1)
    × (new_data_reader_v1 file (some sealing) ≡ ok r)
    × (read_all_data_v1 marking r ≡ ok es)
    × All (λ e. read_entry_at_v1 marking r e.offset ≡ ok e) es
    × (validate_data_v1 digest r ≡ ok tt)
read_back-write_items_v1_example =
    read_back-write_items_v1 digest marking sha256 zstd_type (some sealing) 32 3 1 items_v1
      sha256_size zstd_byte marking-IsCodec sealing-IsSound digest-size (omega arith)
      ((refl, omega arith), ((refl, refl, omega arith, omega arith), tt)) items_v1_size

-- a file that is cut behind its first hash
abbrev cut : DataReaderV1
cut = record {
  file = codes "abcdefghijklm";
  hash_format_id = sha256;
  compression_type = zstd_type;
  encryption = none;
  hash_size = 2;
  flags = 0;
  data_start = 0;
}

read_all_data_v1-ends_example :
    (read_all_data_v1 marking cut ≢ spins)
    × (read_from (read_entry_v1 marking 2 none) 3 40 0 cut.file ≡ read_all_data_v1 marking cut)
read_all_data_v1-ends_example = read_all_data_v1-ends marking cut 40 (omega arith)
