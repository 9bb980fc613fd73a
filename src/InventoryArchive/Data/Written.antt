-- ===== src/InventoryArchive/Data/Written.antt =====
-- A written data file of version 0, opened and read.
use dodder.Prelude.{
  ℕ, suc, ◌+◌, ◌-◌, ◌%◌, ◌^◌, ◌<◌, ◌≡◌, refl, ap, sym, ◌∙◌, subst, List, [], ◌∷◌, ◌++◌, map,
  append_assoc, false, ltb, leb, Option, none, some, length, length-append, drop, Bytes, All, arith,
}
use dodder.Wire.{u64_mod, be, length-be}
use dodder.InventoryArchive.{ok, hash_size_for_format, compression_to_byte}
use dodder.InventoryArchive.Table.Layout.{format_bounds}
use dodder.InventoryArchive.Table.Columns.{drop_at}
use dodder.InventoryArchive.Table.Parts.{IsDigest, validate_file-eq}
use dodder.InventoryArchive.Payload.{Codec, Encryption, read_data_header, data_start}
use dodder.InventoryArchive.Payload.RoundTrip.{
  IsCodec, IsSound, IsByteOf-compression_to_byte, header_of, length-header_of, write_data_header-eq,
  read_data_header-eq,
}
use dodder.InventoryArchive.Entries.Laid.{
  IsLaid, IsReadIn, IsReadIn-IsLaid, read_from-IsLaid, length-IsLaid,
}
use dodder.InventoryArchive.Data.{
  validate_file, DataEntry, DataWriter, new_data_writer, encryption_flag, close, DataReader,
  new_data_reader, read_entry, read_all_data, read_entry_at, validate_data,
}
use dodder.InventoryArchive.Data.Step.{
  IsPlaced, write_items, payload, IsItem, forget, item_of, writer, write_items-IsLaid,
}

encryption_flag-lt : (enc : Option Encryption) → encryption_flag enc < 65536
encryption_flag-lt none = omega arith
encryption_flag-lt (some e) = omega arith

-- the reader of a file
abbrev reader_of : Bytes → Bytes → Bytes → Option Encryption → ℕ → DataReader
reader_of file id ct enc n = record {
  file = file;
  hash_format_id = id;
  compression_type = ct;
  encryption = enc;
  hash_size = n;
  data_start = data_start id;
}

new_data_reader-eq :
    (file id ct : Bytes) (enc : Option Encryption) (n flags : ℕ)
    → read_data_header 0 file
      ≡ ok (record { format_id = id; size = n; compression = ct; flags = flags })
    → new_data_reader file enc ≡ ok (reader_of file id ct enc n)
unfolding new_data_reader
new_data_reader-eq file id ct enc n flags h = rw h refl

new_data_writer-eq :
    (id ct : Bytes) (enc : Option Encryption) (n byte : ℕ)
    → hash_size_for_format id ≡ some n
    → compression_to_byte ct ≡ ok byte
    → new_data_writer id ct enc
      ≡ ok (record {
        written = header_of 0 id byte (encryption_flag enc);
        hash_format_id = id;
        compression_type = ct;
        encryption = enc;
        hash_size = n;
        entries = [];
        offset = length (header_of 0 id byte (encryption_flag enc));
      })
unfolding new_data_writer
new_data_writer-eq id ct enc n byte size compressed =
    rw
      (
        size,
        write_data_header-eq 0 id ct (encryption_flag enc) n byte size compressed,
        length-header_of 0 id byte (encryption_flag enc),
      )
      refl

-- a file of entries between its header and its footer is read
module _ (codec : Codec) (id ct : Bytes) (enc : Option Encryption) (n : ℕ)
    (front rows footer : Bytes) (es : List DataEntry) (starts : length front ≡ data_start id)
    (ends : length footer ≡ 8 + n)
    (laid : IsLaid (read_entry codec n ct enc) (λ e. e.offset) (length front) rows es) where
  abbrev file : Bytes
  file = front ++ (rows ++ footer)

  length-file : length file ≡ length front + (length rows + (8 + n))
  length-file = omega (arith, length-append front (rows ++ footer), length-append rows footer, ends)

  pub read_all_data-eq : read_all_data codec (reader_of file id ct enc n) ≡ ok es
  unfolding read_all_data
  read_all_data-eq =
      let at_end : length file - (8 + n) ≡ length front + length rows =
        omega (arith, length-file) in
      let behind : drop (length front) file ≡ rows ++ footer =
        drop_at front (rows ++ footer) (length front) refl in
      let enough : length es < suc (length file) = omega (
        arith,
        length-file,
        length-IsLaid (read_entry codec n ct enc) (λ e. e.offset) (length front) rows es laid,
      ) in
      rw (sym starts, behind)
        (read_from-IsLaid (read_entry codec n ct enc) (λ e. e.offset) (length front)
          (length file - (8 + n)) (suc (length file)) rows footer es laid at_end enough)

  read_entry_at-one :
      (e : DataEntry)
      → length file < 2 ^ 63
      → IsReadIn (read_entry codec n ct enc) (λ e. e.offset) file e
      → read_entry_at codec (reader_of file id ct enc n) e.offset ≡ ok e
  unfolding read_entry_at
  read_entry_at-one e small (pos, rest, inside, there) =
      let is_int : leb (2 ^ 63) e.offset ≡ false = ground arith in rw (is_int, there) refl

  read_entry_at-each :
      (all : List DataEntry)
      → length file < 2 ^ 63
      → All (IsReadIn (read_entry codec n ct enc) (λ e. e.offset) file) all
      → All (λ e. read_entry_at codec (reader_of file id ct enc n) e.offset ≡ ok e) all
  read_entry_at-each [] small h = tt
  read_entry_at-each (e ∷ all) small h =
      (read_entry_at-one e small h.0, read_entry_at-each all small h.1)

  pub read_entry_at-All :
      length file < 2 ^ 63
      → All (λ e. read_entry_at codec (reader_of file id ct enc n) e.offset ≡ ok e) es
  read_entry_at-All small = read_entry_at-each es small (
      IsReadIn-IsLaid (read_entry codec n ct enc) (λ e. e.offset) file front rows footer es refl
        laid)

-- Let a compression type be known to the package and undone by its reader, an encryption, where there is
-- one, work and be undone, and the digests of the format have its size. Then entries with hashes of
-- that size and data of less than 2 ^ 64 bytes, which take less than 2 ^ 62 bytes as they are stored,
-- can be written with `write_entry` one after the other and closed, and `new_data_reader` opens the
-- file: `read_all_data` gives the hashes and the data in the order of the writing, with the sizes and
-- offsets that `close` told, `read_entry_at` gives each entry at its offset, and `validate_data` finds
-- the checksum right. Offsets and sizes are less than 2 ^ 63.
pub read_back-write_items :
    (digest : Bytes → Bytes → Bytes) (codec : Codec) (id ct : Bytes) (enc : Option Encryption)
    (n byte : ℕ) (items : List (Bytes × Bytes))
    → hash_size_for_format id ≡ some n
    → compression_to_byte ct ≡ ok byte
    → IsCodec codec
    → IsSound enc
    → IsDigest digest id n
    → All (IsItem n) items
    → payload codec ct enc items < 2 ^ 62
    → (w : DataWriter) × (w' : DataWriter) × (es : List DataEntry) × (file : Bytes) × (sum : Bytes)
      × (r : DataReader) × (new_data_writer id ct enc ≡ ok w)
      × (write_items codec w items ≡ ok w')
      × (close digest w' ≡ (file, sum, map forget es))
      × (map item_of es ≡ items)
      × (new_data_reader file enc ≡ ok r)
      × (read_all_data codec r ≡ ok es)
      × All (λ e. read_entry_at codec r e.offset ≡ ok e) es
      × (validate_data digest r ≡ ok tt)
      × All IsPlaced es
unfolding close validate_data
read_back-write_items digest codec id ct enc n byte items size compressed laws sound is_digest
      hashes fits =
    let (ct', byte_small, back, same) = IsByteOf-compression_to_byte ct byte compressed in
    let bounds = format_bounds id n size in
    let front = header_of 0 id byte (encryption_flag enc) in
    let start : length front ≡ data_start id = length-header_of 0 id byte (encryption_flag enc) in
    let (rows, es, wrote, pairs, len, laid, placed) =
      write_items-IsLaid codec id ct ct' enc n laws sound same bounds.1 front [] items hashes
        (omega (arith, start, bounds.0)) in
    let count = be 8 (length (map forget es) % u64_mod) in
    let content = (front ++ rows) ++ count in
    let footer = count ++ digest id content in
    let ends : length footer ≡ 8 + n = omega (
      arith,
      length-append count (digest id content),
      length-be 8 (length (map forget es) % u64_mod),
      is_digest content,
    ) in
    let whole : content ++ digest id content ≡ front ++ (rows ++ footer) = simp append_assoc in
    let total : length (front ++ (rows ++ footer)) ≡ length front + (length rows + (8 + n)) =
      omega (arith, length-append front (rows ++ footer), length-append rows footer, ends) in
    let header =
      read_data_header-eq 0 id ct' (encryption_flag enc) n byte (rows ++ footer) size back
        byte_small (omega arith) (encryption_flag-lt enc) in
    let long_enough : ltb (length (front ++ (rows ++ footer))) (8 + n) ≡ false =
      ground (arith, total) in
    (
      writer codec id ct ct' enc n laws sound same bounds.1 front [],
      writer codec id ct ct' enc n laws sound same bounds.1 (front ++ rows) (map forget es),
      es,
      content ++ digest id content,
      digest id content,
      reader_of (front ++ (rows ++ footer)) id ct' enc n,
      new_data_writer-eq id ct enc n byte size compressed,
      wrote,
      refl,
      pairs,
      ap (λ f. new_data_reader f enc) whole
          ∙ new_data_reader-eq (front ++ (rows ++ footer)) id ct' enc n (encryption_flag enc)
              header,
      read_all_data-eq codec id ct' enc n front rows footer es start ends laid,
      read_entry_at-All codec id ct' enc n front rows footer es start ends laid
          (omega (arith, total, start, bounds, len)),
      rw long_enough (
          subst (λ f. validate_file digest f (length f) n id ≡ ok tt) whole
            (validate_file-eq digest id n content is_digest (
              omega (
                arith,
                ap length whole,
                length-append content (digest id content),
                total,
                start,
                bounds,
                len,
              )))),
      placed,
    )
