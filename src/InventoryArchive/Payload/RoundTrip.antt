-- ===== src/InventoryArchive/Payload/RoundTrip.antt =====
-- The header, the payload and the sizes of an entry, written and read.
use dodder.Prelude.{
  ℕ, ◌+◌, ◌%◌, ◌^◌, ◌<◌, ◌≡◌, refl, ap, sym, ◌∙◌, subst, [], ◌++◌, append_assoc, true, false,
  Bool-cases, inl, inr, ◌==◌, ltb, leb, Option, none, some, length, length-append, Bytes, bytes_eq,
  bytes_eq_refl, bytes_eq→eq, codes, arith,
}
use dodder.Wire.{u64_mod, be, un_be, length-be, un_be-be_1, un_be-be_2, un_be-be_8}
use dodder.InventoryArchive.{ok, hash_size_for_format, compression_to_byte, byte_to_compression}
use dodder.InventoryArchive.Table.Layout.{format_bounds}
use dodder.InventoryArchive.Table.Columns.{take_at, drop_at}
use dodder.InventoryArchive.Payload.{
  unpacked, Codec, Encryption, wrap_writer, wrap_reader, store, load, read_full, write_body,
  read_body, write_data_header, read_data_header, data_start,
}

-- what the compressions promise
pub record IsCodec (codec : Codec) : Type 0 where
  pub gzip_back : (b : Bytes) → codec.gunzip (codec.gzip b) ≡ unpacked b
  pub zlib_back : (b : Bytes) → codec.unzlib (codec.zlib b) ≡ unpacked b
  pub zstd_back : (b : Bytes) → codec.unzstd (codec.zstd b) ≡ unpacked b

-- what an encryption promises: it works, and is undone
abbrev pub IsEncryption : Encryption → Type 0
IsEncryption e = (b : Bytes) → (c : Bytes) × (e.encrypt b ≡ some c) × (e.decrypt c ≡ unpacked b)

abbrev pub IsSound : Option Encryption → Type 0
IsSound none = Unit
IsSound (some e) = IsEncryption e

pub wrap_reader-wrap_writer :
    (codec : Codec) (ct b : Bytes)
    → IsCodec codec
    → wrap_reader codec ct (wrap_writer codec ct b) ≡ unpacked b
unfolding wrap_reader wrap_writer
wrap_reader-wrap_writer codec ct b laws =
    ground (arith, laws.gzip_back b, laws.zlib_back b, laws.zstd_back b)

pub load-store :
    (codec : Codec) (ct : Bytes) (enc : Option Encryption) (b : Bytes)
    → IsCodec codec
    → IsSound enc
    → (stored : Bytes) × (store codec ct enc b ≡ ok stored) × (load codec ct enc stored ≡ ok b)
unfolding store load
load-store codec ct none b laws sound =
    (wrap_writer codec ct b, refl, rw (wrap_reader-wrap_writer codec ct b laws) refl)
load-store codec ct (some e) b laws sound =
    let (c, encrypted, decrypted) = sound (wrap_writer codec ct b) in
    (c, rw encrypted refl, rw (decrypted, wrap_reader-wrap_writer codec ct b laws) refl)

pub read_full-eq : (x rest : Bytes) (n : ℕ) → length x ≡ n → read_full n (x ++ rest) ≡ ok (x, rest)
unfolding read_full
read_full-eq x rest n e =
    let enough : ltb (length (x ++ rest)) n ≡ false = ground (arith, length-append x rest) in
    rw (enough, take_at x rest n e, drop_at x rest n e) refl

pub length-write_body :
    (logical : ℕ) (stored : Bytes) → length (write_body logical stored) ≡ 16 + length stored
unfolding write_body
length-write_body logical stored = omega (
  arith,
  length-append (be 8 (logical % u64_mod)) (be 8 (length stored % u64_mod) ++ stored),
  length-append (be 8 (length stored % u64_mod)) stored,
  length-be 8 (logical % u64_mod),
  length-be 8 (length stored % u64_mod),
)

pub read_body-write_body :
    (codec : Codec) (ct : Bytes) (enc : Option Encryption) (logical : ℕ)
    (stored content rest : Bytes)
    → logical < u64_mod
    → length stored < 2 ^ 63
    → load codec ct enc stored ≡ ok content
    → read_body codec ct enc (write_body logical stored ++ rest)
      ≡ ok (record { logical = logical; size = length stored; content = content }, rest)
unfolding read_body write_body
read_body-write_body codec ct enc logical stored content rest small fits loaded =
    let l : logical % u64_mod ≡ logical = omega arith in
    let s : length stored % u64_mod ≡ length stored = omega arith in
    let first : read_full 8 ((be 8 logical ++ (be 8 (length stored) ++ stored)) ++ rest)
        ≡ ok (be 8 logical, be 8 (length stored) ++ (stored ++ rest)) =
      ap (λ t. read_full 8 t) (simp append_assoc)
      ∙ read_full-eq (be 8 logical) (be 8 (length stored) ++ (stored ++ rest)) 8
          (length-be 8 logical) in
    let second : read_full 8 (be 8 (length stored) ++ (stored ++ rest))
        ≡ ok (be 8 (length stored), stored ++ rest) =
      read_full-eq (be 8 (length stored)) (stored ++ rest) 8 (length-be 8 (length stored)) in
    let third : read_full (length stored) (stored ++ rest) ≡ ok (stored, rest) =
      read_full-eq stored rest (length stored) refl in
    let is_int : leb (2 ^ 63) (length stored) ≡ false = ground arith in
    let a = un_be-be_8 logical small in
    let b = un_be-be_8 (length stored) (omega arith) in
    rw (l, s, first, second, a, b, is_int, third, loaded) refl

-- the byte of a compression is read as one that does the same
abbrev pub IsByteOf : Bytes → ℕ → Type 0
IsByteOf ct byte =
    (ct' : Bytes) × (byte < 256)
    × (byte_to_compression byte ≡ ok ct')
    × ((codec : Codec) (b : Bytes) → wrap_writer codec ct' b ≡ wrap_writer codec ct b)

IsByteOf-known :
    (ct known : Bytes) (byte k : ℕ)
    → bytes_eq ct known ≡ true
    → IsByteOf known k
    → ok k ≡ ok byte
    → IsByteOf ct byte
IsByteOf-known ct known byte k same back e =
    let e' : k ≡ byte = cc in
    subst (λ c. IsByteOf c byte) (sym (bytes_eq→eq ct known same)) (subst (IsByteOf known) e' back)

pub IsByteOf-compression_to_byte :
    (ct : Bytes) (byte : ℕ) → compression_to_byte ct ≡ ok byte → IsByteOf ct byte
unfolding compression_to_byte byte_to_compression wrap_writer bytes_eq
IsByteOf-compression_to_byte ct byte h = elim (Bool-cases (bytes_eq ct (codes "none"))) [
  | inl a ↦
      IsByteOf-known ct (codes "none") byte 0 a (codes "none", omega arith, refl, λ codec b. refl)
        (rw a at h)
  | inr a ↦ elim (Bool-cases (bytes_eq ct [])) [
    | inl b ↦
        IsByteOf-known ct [] byte 0 b (codes "none", omega arith, refl, λ codec b. refl)
          (rw (a, b) at h)
    | inr b ↦ elim (Bool-cases (bytes_eq ct (codes "gzip"))) [
      | inl c ↦
          IsByteOf-known ct (codes "gzip") byte 1 c
            (codes "gzip", omega arith, refl, λ codec b. refl) (rw (a, b, c) at h)
      | inr c ↦ elim (Bool-cases (bytes_eq ct (codes "zlib"))) [
        | inl d ↦
            IsByteOf-known ct (codes "zlib") byte 2 d
              (codes "zlib", omega arith, refl, λ codec b. refl) (rw (a, b, c, d) at h)
        | inr d ↦ elim (Bool-cases (bytes_eq ct (codes "zstd"))) [
          | inl e ↦
              IsByteOf-known ct (codes "zstd") byte 3 e
                (codes "zstd", omega arith, refl, λ codec b. refl) (rw (a, b, c, d, e) at h)
          | inr e ↦ absurd (let h' = rw (a, b, c, d, e) at h in cc)
        ]
      ]
    ]
  ]
]

pub header_of : ℕ → Bytes → ℕ → ℕ → Bytes
header_of version id byte flags =
    codes "MIAR" ++ (be 2 version ++ (be 1 (length id) ++ (id ++ (be 1 byte ++ be 2 flags))))

pub length-header_of :
    (version : ℕ) (id : Bytes) (byte flags : ℕ)
    → length (header_of version id byte flags) ≡ data_start id
unfolding header_of
length-header_of version id byte flags = omega (
  arith,
  length-append (codes "MIAR")
      (be 2 version ++ (be 1 (length id) ++ (id ++ (be 1 byte ++ be 2 flags)))),
  length-append (be 2 version) (be 1 (length id) ++ (id ++ (be 1 byte ++ be 2 flags))),
  length-append (be 1 (length id)) (id ++ (be 1 byte ++ be 2 flags)),
  length-append id (be 1 byte ++ be 2 flags),
  length-append (be 1 byte) (be 2 flags),
  length-be 2 version,
  length-be 1 (length id),
  length-be 1 byte,
  length-be 2 flags,
)

pub write_data_header-eq :
    (version : ℕ) (id ct : Bytes) (flags n byte : ℕ)
    → hash_size_for_format id ≡ some n
    → compression_to_byte ct ≡ ok byte
    → write_data_header version id ct flags ≡ ok (header_of version id byte flags)
unfolding write_data_header header_of
write_data_header-eq version id ct flags n byte size compressed =
    let fits : ltb 255 (length id) ≡ false = ground (arith, format_bounds id n size) in
    rw (fits, compressed) refl

pub read_data_header-eq :
    (version : ℕ) (id ct : Bytes) (flags n byte : ℕ) (rest : Bytes)
    → hash_size_for_format id ≡ some n
    → byte_to_compression byte ≡ ok ct
    → byte < 256
    → version < 65536
    → flags < 65536
    → read_data_header version (header_of version id byte flags ++ rest)
      ≡ ok (record { format_id = id; size = n; compression = ct; flags = flags })
unfolding read_data_header header_of
read_data_header-eq version id ct flags n byte rest size decompressed byte_small version_small
      flags_small =
    let bounds = format_bounds id n size in
    let whole : header_of version id byte flags ++ rest
        ≡ codes "MIAR"
          ++ (be 2 version ++ (be 1 (length id) ++ (id ++ (be 1 byte ++ (be 2 flags ++ rest))))) =
      simp append_assoc in
    let a =
      read_full-eq (codes "MIAR")
        (be 2 version ++ (be 1 (length id) ++ (id ++ (be 1 byte ++ (be 2 flags ++ rest))))) 4
        refl in
    let b =
      read_full-eq (be 2 version) (be 1 (length id) ++ (id ++ (be 1 byte ++ (be 2 flags ++ rest))))
        2 (length-be 2 version) in
    let c =
      read_full-eq (be 1 (length id)) (id ++ (be 1 byte ++ (be 2 flags ++ rest))) 1
        (length-be 1 (length id)) in
    let d = read_full-eq id (be 1 byte ++ (be 2 flags ++ rest)) (length id) refl in
    let e = read_full-eq (be 1 byte) (be 2 flags ++ rest) 1 (length-be 1 byte) in
    let f = read_full-eq (be 2 flags) rest 2 (length-be 2 flags) in
    let same : un_be (be 2 version) == version ≡ true = ground (arith, un_be-be_2 version) in
    let len : un_be (be 1 (length id)) ≡ length id =
      un_be-be_1 (length id) (omega (arith, bounds)) in
    ap (read_data_header version) whole
    ∙ rw (a, bytes_eq_refl (codes "MIAR"), b, same, c, len, d, size, e, un_be-be_1 byte byte_small)
        (rw (decompressed, f, un_be-be_2 flags flags_small) refl)
