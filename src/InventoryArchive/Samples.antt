-- ===== src/InventoryArchive/Samples.antt =====
-- Data that the tests of the formats share.
use dodder.Prelude.{zero, suc, bytes_eq, suc, ℕ, ◌≡◌, refl, [], ◌∷◌, some, length, Bytes, codes}
use dodder.InventoryArchive.{compression_to_byte, ok, hash_size_for_format}
use dodder.InventoryArchive.Table.Parts.{IsDigest}
use dodder.InventoryArchive.Payload.{Unpacked, unpacked, unpacked_eof, Codec, Encryption}
use dodder.InventoryArchive.Payload.RoundTrip.{IsCodec, IsSound}

abbrev pub sha256 : Bytes
sha256 = codes "sha256"

-- `k` times the byte
abbrev pub fill : ℕ → ℕ → Bytes
fill b zero = []
fill b (suc k) = b ∷ fill b k

-- a hash of 32 bytes that begins with the given byte
abbrev pub hash_from : ℕ → Bytes
hash_from b = b ∷ fill 7 31

-- a digest of 32 bytes: the length of the content, then zeros
abbrev pub digest : Bytes → Bytes → Bytes
digest id content = length content ∷ fill 0 31

pub digest-size : IsDigest digest sha256 32
digest-size content = refl

pub sha256_size : hash_size_for_format sha256 ≡ some 32
unfolding hash_size_for_format bytes_eq
sha256_size = refl

-- a codec whose compressed forms begin with a byte of their own
abbrev pub behind : Bytes → Unpacked
behind [] = unpacked_eof
behind (b ∷ bites) = unpacked bites

abbrev pub marking : Codec
marking = record {
  gzip = λ b. 1 ∷ b;
  zlib = λ b. 2 ∷ b;
  zstd = λ b. 3 ∷ b;
  gunzip = behind;
  unzlib = behind;
  unzstd = behind;
}

pub marking-IsCodec : IsCodec marking
marking-IsCodec = record { gzip_back = λ b. refl; zlib_back = λ b. refl; zstd_back = λ b. refl }

abbrev pub sealing : Encryption
sealing = record { encrypt = λ b. some (9 ∷ b); decrypt = behind }

pub sealing-IsSound : IsSound (some sealing)
sealing-IsSound b = (9 ∷ b, refl, refl)

abbrev pub zstd_type : Bytes
zstd_type = codes "zstd"

pub zstd_byte : compression_to_byte zstd_type ≡ ok 3
unfolding compression_to_byte bytes_eq
zstd_byte = refl
