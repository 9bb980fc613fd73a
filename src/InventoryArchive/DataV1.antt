-- ===== src/InventoryArchive/DataV1.antt =====
-- data_writer_v1.go and data_reader_v1.go of go/internal/alfa/inventory_archive: a data file, version 1.
-- An entry holds a blob or a delta, and says how it is compressed.
pub mod Item
pub mod Step
pub mod Items
pub mod Written
mod Tests
use dodder.Prelude.{
  ℕ, zero, suc, ◌+◌, ◌-◌, ◌/◌, ◌%◌, ◌^◌, List, [], ◌∷◌, ◌++◌, ◌==◌, ltb, leb, if◌then◌else◌, Option,
  none, some, length, drop, Bytes,
}
use dodder.Wire.{u64_mod, be, un_be}
use dodder.InventoryArchive.{
  unknown_entry_type, read_failed, too_small, unsupported_hash_format, Outcome, ok, err, ◌>>=◌,
  ◌>>◌, or_err, hash_size_for_format, compression_to_byte, byte_to_compression,
}
use dodder.InventoryArchive.Entries.{read_from}
use dodder.InventoryArchive.Table.{validate_file}
use dodder.InventoryArchive.Payload.{
  Codec, Encryption, store, write_body, read_full, read_hash, Body, read_body, write_data_header,
  read_data_header, data_start,
}

-- `Data` is the field `content`; the entries that a writer keeps have none
pub record DataEntryV1 : Type 0 where
  pub hash : Bytes
  pub entry_type : ℕ
  pub encoding : ℕ
  pub logical_size : ℕ
  pub stored_size : ℕ
  pub content : Bytes
  pub offset : ℕ
  pub delta_algorithm : ℕ
  pub base_hash : Bytes

pub record DataWriterV1 : Type 0 where
  pub written : Bytes
  pub hash_format_id : Bytes
  pub compression_type : Bytes
  pub encryption : Option Encryption
  pub hash_size : ℕ
  pub flags : ℕ
  pub entries : List DataEntryV1
  pub offset : ℕ

-- `flags |= FlagHasEncryptionV1`, the bit of 4
abbrev pub flags_with : Option Encryption → ℕ → ℕ
flags_with none flags = flags
flags_with (some e) flags = if flags / 4 % 2 == 0 then flags + 4 else flags

unfoldable pub new_data_writer_v1 : Bytes → Bytes → ℕ → Option Encryption → Outcome DataWriterV1
unfolding write_data_header
new_data_writer_v1 id ct flags enc = do
  hash_size ← or_err unsupported_hash_format (hash_size_for_format id)
  header ← write_data_header 1 id ct (flags_with enc flags)
  ok (record {
    written = header;
    hash_format_id = id;
    compression_type = ct;
    encryption = enc;
    hash_size = hash_size;
    flags = flags_with enc flags;
    entries = [];
    offset = data_start id;
  })

unfoldable pub write_full_entry : Codec → DataWriterV1 → Bytes → Bytes → Outcome DataWriterV1
unfolding store write_body
write_full_entry codec w h content = do
  encoding ← compression_to_byte w.compression_type
  stored ← store codec w.compression_type w.encryption content
  let entry : DataEntryV1 = record {
    hash = h;
    entry_type = 0;
    encoding = encoding;
    logical_size = length content % u64_mod;
    stored_size = length stored % u64_mod;
    content = [];
    offset = w.offset;
    delta_algorithm = 0;
    base_hash = [];
  }
  ok (record w {
    written = w.written ++ (h ++ (be 1 0 ++ (be 1 encoding ++ write_body (length content) stored)));
    entries = w.entries ++ (entry ∷ []);
    offset = (w.offset + (length h + 1 + 1 + 8 + 8 + length stored)) % u64_mod;
  })

-- the hash, the algorithm, the hash of the base, the size of the blob, and the delta
unfoldable pub write_delta_entry :
    Codec → DataWriterV1 → Bytes → ℕ → Bytes → ℕ → Bytes → Outcome DataWriterV1
unfolding store write_body
write_delta_entry codec w h algorithm base logical delta = do
  encoding ← compression_to_byte w.compression_type
  stored ← store codec w.compression_type w.encryption delta
  let entry : DataEntryV1 = record {
    hash = h;
    entry_type = 1;
    encoding = encoding;
    logical_size = logical;
    stored_size = length stored % u64_mod;
    content = [];
    offset = w.offset;
    delta_algorithm = algorithm;
    base_hash = base;
  }
  ok (record w {
    written =
        w.written
        ++ (h
            ++ (be 1 1
                ++ (be 1 encoding ++ (be 1 algorithm ++ (base ++ write_body logical stored)))));
    entries = w.entries ++ (entry ∷ []);
    offset = (w.offset + (length h + 1 + 1 + 1 + length base + 8 + 8 + length stored)) % u64_mod;
  })

-- `Close`: the file, its checksum and the entries
unfoldable pub close_v1 : (Bytes → Bytes → Bytes) → DataWriterV1 → Bytes × Bytes × List DataEntryV1
close_v1 digest w =
    let content = w.written ++ be 8 (length w.entries % u64_mod) in
    (content ++ digest w.hash_format_id content, digest w.hash_format_id content, w.entries)

pub record DataReaderV1 : Type 0 where
  pub file : Bytes
  pub hash_format_id : Bytes
  pub compression_type : Bytes
  pub encryption : Option Encryption
  pub hash_size : ℕ
  pub flags : ℕ
  pub data_start : ℕ

unfoldable pub new_data_reader_v1 : Bytes → Option Encryption → Outcome DataReaderV1
unfolding read_data_header
new_data_reader_v1 file enc = do
  header ← read_data_header 1 file
  ok (record {
    file = file;
    hash_format_id = header.format_id;
    compression_type = header.compression;
    encryption = enc;
    hash_size = header.size;
    flags = header.flags;
    data_start = data_start header.format_id;
  })

-- `readFullEntryBody` and `readDeltaEntryBody`: the algorithm, the hash of the base and the body
unfoldable pub read_full_body :
    Codec → Bytes → Option Encryption → Bytes → Outcome (ℕ × Bytes × Body × Bytes)
unfolding read_body
read_full_body codec ct enc rest = do
  (body, rest) ← read_body codec ct enc rest
  ok (0, [], body, rest)

unfoldable pub read_delta_body :
    Codec → ℕ → Bytes → Option Encryption → Bytes → Outcome (ℕ × Bytes × Body × Bytes)
unfolding read_full read_body
read_delta_body codec hash_size ct enc rest = do
  (algorithm, rest) ← read_full 1 rest
  (base, rest) ← read_full hash_size rest
  (body, rest) ← read_body codec ct enc rest
  ok (un_be algorithm, base, body, rest)

-- how far an entry reaches behind its hash, type and encoding
abbrev pub body_width : ℕ → ℕ → ℕ → ℕ
body_width hash_size kind size = (if kind == 0 then 0 else 1 + hash_size) + 16 + size

-- `ReadEntry` at a position with `rest` behind it: the entry, and the position and the rest behind it
unfoldable pub read_entry_v1 :
    Codec → ℕ → Option Encryption → ℕ → Bytes → Outcome (DataEntryV1 × ℕ × Bytes)
unfolding read_hash read_full read_full_body read_delta_body
read_entry_v1 codec hash_size enc pos rest = do
  (h, rest) ← read_hash hash_size rest
  (kind, rest) ← read_full 1 rest
  (encoding, rest) ← read_full 1 rest
  ct ← byte_to_compression (un_be encoding)
  (algorithm, base, body, rest) ←
      if un_be kind == 0
      then read_full_body codec ct enc rest
      else if un_be kind == 1
      then read_delta_body codec hash_size ct enc rest
      else err unknown_entry_type
  ok (
    record {
      hash = h;
      entry_type = un_be kind;
      encoding = un_be encoding;
      logical_size = body.logical;
      stored_size = body.size;
      content = body.content;
      offset = pos;
      delta_algorithm = algorithm;
      base_hash = base;
    },
    pos + (hash_size + 2 + body_width hash_size (un_be kind) body.size),
    rest,
  )

unfoldable pub read_all_data_v1 : Codec → DataReaderV1 → Outcome (List DataEntryV1)
unfolding read_from read_entry_v1
read_all_data_v1 codec r =
    read_from (read_entry_v1 codec r.hash_size r.encryption) (length r.file - (8 + r.hash_size))
      (suc (length r.file)) r.data_start (drop r.data_start r.file)

unfoldable pub read_entry_at_v1 : Codec → DataReaderV1 → ℕ → Outcome DataEntryV1
unfolding read_entry_v1
read_entry_at_v1 codec r offset = do
  if leb (2 ^ 63) offset then err read_failed else ok tt
  (e, pos, rest) ← read_entry_v1 codec r.hash_size r.encryption offset (drop offset r.file)
  ok e

unfoldable pub validate_data_v1 : (Bytes → Bytes → Bytes) → DataReaderV1 → Outcome (Unit {0})
unfolding validate_file
validate_data_v1 digest r = do
  if ltb (length r.file) (8 + r.hash_size) then err too_small else ok tt
  validate_file digest r.file (length r.file) r.hash_size r.hash_format_id
