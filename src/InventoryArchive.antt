-- ===== src/InventoryArchive.antt =====
-- go/internal/alfa/inventory_archive: the files in which many blobs are packed, the index of such a
-- file, and the cache over all of them. This file is types.go; the rest is below it.
pub mod Table
pub mod Index
pub mod IndexV1
pub mod CacheFile
pub mod Cache
pub mod CacheV1
pub mod Payload
pub mod Entries
pub mod Data
pub mod DataV1
pub mod Gear
pub mod Selector
pub mod Pack
pub mod Samples
mod Tests
use dodder.Prelude.{
  ℕ, List, [], ◌∷◌, ◌==◌, ◌||◌, if◌then◌else◌, Option, none, some, Bytes, bytes_eq, codes,
}

pub data ArchiveError : Type 0 where
  unsupported_hash_format unsupported_compression not_sorted hash_length checksum_length
        format_too_long read_failed invalid_magic unsupported_version format_mismatch too_small
        checksum_mismatch end_of_file encryption_failed decryption_failed decompression_failed
        unknown_entry_type :
      ArchiveError

-- The result of an operation: a value, an error, a panic, or that a loop has used its fuel up and
-- goes on. It panics where an index is out of range, and where `Wrap` and `Wrapf` of
-- go/lib/bravo/errors/main.go are given io.EOF.
pub data Outcome {ℓ} (A : Type ℓ) : Type ℓ where
  ok : A → Outcome A
  err : ArchiveError → Outcome A
  panicked : Outcome A
  spins : Outcome A

infixl 5 ◌>>=◌ ◌>>◌
abbrev pub ◌>>=◌ {ℓ κ} : {A : Type ℓ} {B : Type κ} → Outcome A → (A → Outcome B) → Outcome B
ok a >>= f = f a
err e >>= f = err e
panicked >>= f = panicked
spins >>= f = spins

abbrev pub ◌>>◌ {ℓ} : {B : Type ℓ} → Outcome (Unit {0}) → Outcome B → Outcome B
m >> k = m >>= λ _. k

abbrev pub or_err {ℓ} : {A : Type ℓ} → ArchiveError → Option A → Outcome A
or_err e none = err e
or_err e (some a) = ok a

-- a read whose failure is io.EOF, which is then wrapped
abbrev pub or_panic {ℓ} : {A : Type ℓ} → Option A → Outcome A
or_panic none = panicked
or_panic (some a) = ok a

-- `hashSizes`, with the sizes of the four hashes in bytes
unfoldable pub hash_size_for_format : Bytes → Option ℕ
hash_size_for_format id =
    if bytes_eq id (codes "sha256")
    then some 32
    else if bytes_eq id (codes "sha512")
    then some 64
    else if bytes_eq id (codes "blake2b256")
    then some 32
    else if bytes_eq id (codes "blake2b512")
    then some 64
    else none

-- `compression_type.CompressionType` as its text
unfoldable pub compression_to_byte : Bytes → Outcome ℕ
compression_to_byte ct =
    if bytes_eq ct (codes "none")
    then ok 0
    else if bytes_eq ct []
    then ok 0
    else if bytes_eq ct (codes "gzip")
    then ok 1
    else if bytes_eq ct (codes "zlib")
    then ok 2
    else if bytes_eq ct (codes "zstd")
    then ok 3
    else err unsupported_compression

unfoldable pub byte_to_compression : ℕ → Outcome Bytes
byte_to_compression b =
    if b == 0
    then ok (codes "none")
    else if b == 1
    then ok (codes "gzip")
    else if b == 2
    then ok (codes "zlib")
    else if b == 3
    then ok (codes "zstd")
    else err unsupported_compression
