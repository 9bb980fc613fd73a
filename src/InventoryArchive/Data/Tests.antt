-- ===== src/InventoryArchive/Data/Tests.antt =====
-- A small data file of version 0, and the theorems applied to it.
use dodder.Prelude.{
  ◌^◌, map, bytes_eq, ◌≡◌, ◌≢◌, ◌<◌, refl, List, [], ◌∷◌, ◌++◌, none, some, Bytes, codes, All,
  arith,
}
use dodder.InventoryArchive.{ok, panicked, spins}
use dodder.Wire.{be, un_be}
use dodder.InventoryArchive.Payload.{store, wrap_writer, read_hash, read_full, read_body}
use dodder.InventoryArchive.Data.{
  read_entry, DataEntry, DataWriter, new_data_writer, close, DataReader, new_data_reader,
  read_all_data, read_entry_at, validate_data,
}
use dodder.InventoryArchive.Data.Step.{IsPlaced, write_items, payload, forget, item_of}
use dodder.InventoryArchive.Data.Written.{read_back-write_items}
use dodder.InventoryArchive.Entries.{then_read, read_from}
use dodder.InventoryArchive.Entries.Fuel.{read_all_data-ends}
use dodder.InventoryArchive.Samples.{
  sha256, hash_from, digest, digest-size, sha256_size, marking, marking-IsCodec, sealing,
  sealing-IsSound, zstd_type, zstd_byte,
}

abbrev items : List (Bytes × Bytes)
items = (hash_from 9, codes "one") ∷ (hash_from 4, []) ∷ []

items_size : payload marking zstd_type (some sealing) items < 2 ^ 62
unfolding store wrap_writer bytes_eq
items_size = omega arith

read_back-write_items_example :
    (w : DataWriter) × (w' : DataWriter) × (es : List DataEntry) × (file : Bytes) × (sum : Bytes)
    × (r : DataReader) × (new_data_writer sha256 zstd_type (some sealing) ≡ ok w)
    × (write_items marking w items ≡ ok w')
    × (close digest w' ≡ (file, sum, map forget es))
    × (map item_of es ≡ items)
    × (new_data_reader file (some sealing) ≡ ok r)
    × (read_all_data marking r ≡ ok es)
    × All (λ e. read_entry_at marking r e.offset ≡ ok e) es
    × (validate_data digest r ≡ ok tt)
    × All IsPlaced es
read_back-write_items_example =
    read_back-write_items digest marking sha256 zstd_type (some sealing) 32 3 items sha256_size
      zstd_byte marking-IsCodec sealing-IsSound digest-size
      ((refl, omega arith), ((refl, omega arith), tt)) items_size

-- a file that is cut behind the sizes of its entry
abbrev cut : DataReader
cut = record {
  file = 1 ∷ 2 ∷ (be 8 5 ++ be 8 5);
  hash_format_id = sha256;
  compression_type = zstd_type;
  encryption = none;
  hash_size = 2;
  data_start = 0;
}

read_all_data-cut : read_all_data marking cut ≡ panicked
unfolding read_all_data read_from then_read read_entry read_hash read_full read_body be un_be
read_all_data-cut = refl

read_all_data-ends_example :
    (read_all_data marking cut ≢ spins)
    × (read_from (read_entry marking 2 zstd_type none) 8 40 0 cut.file ≡ read_all_data marking cut)
unfolding be
read_all_data-ends_example = read_all_data-ends marking cut 40 (omega arith)
