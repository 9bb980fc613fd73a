-- ===== src/InventoryArchive/Payload.antt =====
-- What the data files of both versions share: the header, and the sizes and the payload of an entry.
-- An entry is compressed (go/lib/delta/compression_type/main.go), then encrypted.
pub mod RoundTrip
use dodder.Prelude.{
  ℕ, zero, suc, ◌+◌, ◌%◌, ◌^◌, List, [], ◌∷◌, ◌++◌, ◌==◌, ltb, leb, if◌then◌else◌, Option, none,
  some, length, take, drop, Bytes, bytes_eq, codes,
}
use dodder.Wire.{u64_mod, be, un_be}
use dodder.InventoryArchive.{
  ArchiveError, format_too_long, invalid_magic, unsupported_version, unsupported_hash_format,
  read_failed, end_of_file, encryption_failed, decryption_failed, decompression_failed, Outcome, ok,
  err, panicked, ◌>>=◌, ◌>>◌, or_err, hash_size_for_format, compression_to_byte,
  byte_to_compression,
}
use dodder.InventoryArchive.Table.{first_byte}

-- What reading all of a payload gives: its content, or the error io.EOF, or another error.
pub data Unpacked : Type 0 where
  unpacked : Bytes → Unpacked
  unpacked_eof unpacked_err : Unpacked

-- the error is wrapped, which panics on io.EOF
abbrev pub or_wrapped : ArchiveError → Unpacked → Outcome Bytes
or_wrapped e (unpacked b) = ok b
or_wrapped e unpacked_eof = panicked
or_wrapped e unpacked_err = err e

-- Go's compress/gzip and compress/zlib and DataDog's zstd
pub record Codec : Type 0 where
  pub gzip : Bytes → Bytes
  pub zlib : Bytes → Bytes
  pub zstd : Bytes → Bytes
  pub gunzip : Bytes → Unpacked
  pub unzlib : Bytes → Unpacked
  pub unzstd : Bytes → Unpacked

-- an `interfaces.IOWrapper`, applied to all the bytes of a payload
pub record Encryption : Type 0 where
  pub encrypt : Bytes → Option Bytes
  pub decrypt : Bytes → Unpacked

unfoldable pub wrap_writer : Codec → Bytes → Bytes → Bytes
wrap_writer codec ct b =
    if bytes_eq ct (codes "gzip")
    then codec.gzip b
    else if bytes_eq ct (codes "zlib")
    then codec.zlib b
    else if bytes_eq ct (codes "zstd")
    then codec.zstd b
    else b

unfoldable pub wrap_reader : Codec → Bytes → Bytes → Unpacked
wrap_reader codec ct b =
    if bytes_eq ct (codes "gzip")
    then codec.gunzip b
    else if bytes_eq ct (codes "zlib")
    then codec.unzlib b
    else if bytes_eq ct (codes "zstd")
    then codec.unzstd b
    else unpacked b

abbrev pub encrypt_if : Option Encryption → Bytes → Outcome Bytes
encrypt_if none b = ok b
encrypt_if (some e) b = or_err encryption_failed (e.encrypt b)

abbrev pub decrypt_if : Option Encryption → Bytes → Outcome Bytes
decrypt_if none b = ok b
decrypt_if (some e) b = or_wrapped decryption_failed (e.decrypt b)

-- the stored form of an entry's data
unfoldable pub store : Codec → Bytes → Option Encryption → Bytes → Outcome Bytes
unfolding wrap_writer
store codec ct enc content = encrypt_if enc (wrap_writer codec ct content)

unfoldable pub load : Codec → Bytes → Option Encryption → Bytes → Outcome Bytes
unfolding wrap_reader
load codec ct enc stored =
    decrypt_if enc stored >>= λ b. or_wrapped decompression_failed (wrap_reader codec ct b)

-- the error of a read that finds too few bytes: none is io.EOF, and some is io.ErrUnexpectedEOF
abbrev pub read_short {ℓ} : {A : Type ℓ} → Bytes → Outcome A
read_short [] = panicked
read_short (b ∷ rest) = err read_failed

-- io.ReadFull and binary.Read, on what is left of the file: the bytes and what is left behind them;
-- their error is wrapped
unfoldable pub read_full : ℕ → Bytes → Outcome (Bytes × Bytes)
read_full n rest = if ltb (length rest) n then read_short rest else ok (take n rest, drop n rest)

-- the first read of an entry, which tells the end of the file from a file that is cut
unfoldable pub read_hash : ℕ → Bytes → Outcome (Bytes × Bytes)
unfolding read_full
read_hash n [] = if n == 0 then ok ([], []) else err end_of_file
read_hash n (b ∷ rest) = read_full n (b ∷ rest)

-- the sizes and the payload: `WriteEntry` behind the hash, and `ReadEntry` there
unfoldable pub write_body : ℕ → Bytes → Bytes
write_body logical stored = be 8 (logical % u64_mod) ++ (be 8 (length stored % u64_mod) ++ stored)

pub record Body : Type 0 where
  pub logical : ℕ
  pub size : ℕ
  pub content : Bytes

-- `make` panics on a length that is no int
unfoldable pub read_body : Codec → Bytes → Option Encryption → Bytes → Outcome (Body × Bytes)
unfolding read_full load
read_body codec ct enc rest = do
  (logical, rest) ← read_full 8 rest
  (size, rest) ← read_full 8 rest
  if leb (2 ^ 63) (un_be size) then panicked else ok tt
  (stored, rest) ← read_full (un_be size) rest
  content ← load codec ct enc stored
  ok (record { logical = un_be logical; size = un_be size; content = content }, rest)

unfoldable pub write_data_header : ℕ → Bytes → Bytes → ℕ → Outcome Bytes
write_data_header version id ct flags = do
  if ltb 255 (length id) then err format_too_long else ok tt
  compression ← compression_to_byte ct
  ok (
      codes "MIAR"
      ++ (be 2 version ++ (be 1 (length id) ++ (id ++ (be 1 compression ++ be 2 flags)))))

-- what `readHeader` finds
pub record Header : Type 0 where
  pub format_id : Bytes
  pub size : ℕ
  pub compression : Bytes
  pub flags : ℕ

unfoldable pub read_data_header : ℕ → Bytes → Outcome Header
unfolding read_full hash_size_for_format byte_to_compression
read_data_header version file = do
  (magic, rest) ← read_full 4 file
  if bytes_eq magic (codes "MIAR") then ok tt else err invalid_magic
  (v, rest) ← read_full 2 rest
  if un_be v == version then ok tt else err unsupported_version
  (len, rest) ← read_full 1 rest
  (id, rest) ← read_full (un_be len) rest
  hash_size ← or_err unsupported_hash_format (hash_size_for_format id)
  (compression, rest) ← read_full 1 rest
  ct ← byte_to_compression (un_be compression)
  (flags, rest) ← read_full 2 rest
  ok (record { format_id = id; size = hash_size; compression = ct; flags = un_be flags })

-- where the entries begin
abbrev pub data_start : Bytes → ℕ
data_start id = 4 + 2 + 1 + length id + 1 + 2
