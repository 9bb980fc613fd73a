-- ===== src/InventoryArchive/Data.antt =====
-- data_writer.go and data_reader.go of go/internal/alfa/inventory_archive: a data file, version 0. Blobs
-- are written one behind the other, and their number and a checksum of the file stand at its end.
pub mod Step
pub mod Written
mod Tests
use dodder.Prelude.{
  ℕ, zero, suc, ◌+◌, ◌-◌, ◌%◌, ◌^◌, List, [], ◌∷◌, ◌++◌, ltb, leb, if◌then◌else◌, Option, none,
  some, length, drop, Bytes,
}
use dodder.Wire.{u64_mod, be}
use dodder.InventoryArchive.{
  ArchiveError, end_of_file, read_failed, too_small, unsupported_hash_format, Outcome, ok, err,
  panicked, ◌>>=◌, ◌>>◌, or_err, hash_size_for_format,
}
use dodder.InventoryArchive.Entries.{read_from}
use dodder.InventoryArchive.Table.{validate_file}
use dodder.InventoryArchive.Payload.{
  Codec, Encryption, store, write_body, read_hash, read_body, write_data_header, read_data_header,
  data_start,
}

-- `Data` is the field `content`; the entries that a writer keeps have none
pub record DataEntry : Type 0 where
  pub hash : Bytes
  pub logical_size : ℕ
  pub stored_size : ℕ
  pub content : Bytes
  pub offset : ℕ

-- `written` is what went to the file and to the hasher
pub record DataWriter : Type 0 where
  pub written : Bytes
  pub hash_format_id : Bytes
  pub compression_type : Bytes
  pub encryption : Option Encryption
  pub hash_size : ℕ
  pub entries : List DataEntry
  pub offset : ℕ

abbrev pub encryption_flag : Option Encryption → ℕ
encryption_flag none = 0
encryption_flag (some e) = 1

unfoldable pub new_data_writer : Bytes → Bytes → Option Encryption → Outcome DataWriter
unfolding write_data_header
new_data_writer id ct enc = do
  hash_size ← or_err unsupported_hash_format (hash_size_for_format id)
  header ← write_data_header 0 id ct (encryption_flag enc)
  ok (record {
    written = header;
    hash_format_id = id;
    compression_type = ct;
    encryption = enc;
    hash_size = hash_size;
    entries = [];
    offset = data_start id;
  })

unfoldable pub write_entry : Codec → DataWriter → Bytes → Bytes → Outcome DataWriter
unfolding store write_body
write_entry codec w h content = do
  stored ← store codec w.compression_type w.encryption content
  let entry : DataEntry = record {
    hash = h;
    logical_size = length content % u64_mod;
    stored_size = length stored % u64_mod;
    content = [];
    offset = w.offset;
  }
  ok (record w {
    written = w.written ++ (h ++ write_body (length content) stored);
    entries = w.entries ++ (entry ∷ []);
    offset = (w.offset + (length h + 8 + 8 + length stored)) % u64_mod;
  })

-- `Close`: the file, its checksum and the entries
unfoldable pub close : (Bytes → Bytes → Bytes) → DataWriter → Bytes × Bytes × List DataEntry
close digest w =
    let content = w.written ++ be 8 (length w.entries % u64_mod) in
    (content ++ digest w.hash_format_id content, digest w.hash_format_id content, w.entries)

pub record DataReader : Type 0 where
  pub file : Bytes
  pub hash_format_id : Bytes
  pub compression_type : Bytes
  pub encryption : Option Encryption
  pub hash_size : ℕ
  pub data_start : ℕ

unfoldable pub new_data_reader : Bytes → Option Encryption → Outcome DataReader
unfolding read_data_header
new_data_reader file enc = do
  header ← read_data_header 0 file
  ok (record {
    file = file;
    hash_format_id = header.format_id;
    compression_type = header.compression;
    encryption = enc;
    hash_size = header.size;
    data_start = data_start header.format_id;
  })

-- `ReadEntry` at a position with `rest` behind it: the entry, and the position and the rest behind it
unfoldable pub read_entry :
    Codec → ℕ → Bytes → Option Encryption → ℕ → Bytes → Outcome (DataEntry × ℕ × Bytes)
unfolding read_hash read_body
read_entry codec hash_size ct enc pos rest = do
  (h, rest) ← read_hash hash_size rest
  (body, rest) ← read_body codec ct enc rest
  ok (
    record {
      hash = h;
      logical_size = body.logical;
      stored_size = body.size;
      content = body.content;
      offset = pos;
    },
    pos + (hash_size + 16 + body.size),
    rest,
  )

-- where the file is shorter than its footer the end lies in front of it, and there is no round
unfoldable pub read_all_data : Codec → DataReader → Outcome (List DataEntry)
unfolding read_from read_entry
read_all_data codec r =
    read_from (read_entry codec r.hash_size r.compression_type r.encryption)
      (length r.file - (8 + r.hash_size)) (suc (length r.file)) r.data_start
      (drop r.data_start r.file)

unfoldable pub read_entry_at : Codec → DataReader → ℕ → Outcome DataEntry
unfolding read_entry
read_entry_at codec r offset = do
  if leb (2 ^ 63) offset then err read_failed else ok tt
  (e, pos, rest) ←
      read_entry codec r.hash_size r.compression_type r.encryption offset (drop offset r.file)
  ok e

unfoldable pub validate_data : (Bytes → Bytes → Bytes) → DataReader → Outcome (Unit {0})
unfolding validate_file
validate_data digest r = do
  if ltb (length r.file) (8 + r.hash_size) then err too_small else ok tt
  validate_file digest r.file (length r.file) r.hash_size r.hash_format_id
