-- ===== src/InventoryArchive/DataV1/Written.antt =====
-- A written data file of version 1, opened and read.
use dodder.Prelude.{
  ℕ, suc, ◌+◌, ◌-◌, ◌%◌, ◌^◌, ◌<◌, ◌≡◌, refl, ap, sym, ◌∙◌, subst, List, [], ◌∷◌, ◌++◌, map,
  append_assoc, false, ltb, leb, Option, none, some, length, length-append, drop, Bytes, All, arith,
}
use dodder.Wire.{u64_mod, be, length-be}
use dodder.InventoryArchive.{ok, hash_size_for_format, compression_to_byte}
use dodder.InventoryArchive.Table.Layout.{format_bounds}
use dodder.InventoryArchive.Table.Columns.{drop_at}
use dodder.InventoryArchive.Table.Parts.{IsDigest, validate_file-eq}
use dodder.InventoryArchive.Payload.{Codec, Encryption, read_data_header, data_start}
use dodder.InventoryArchive.Payload.RoundTrip.{
  IsCodec, IsSound, IsByteOf-compression_to_byte, header_of, length-header_of, write_data_header-eq,
  read_data_header-eq,
}
use dodder.InventoryArchive.Entries.Laid.{
  IsLaid, IsReadIn, IsReadIn-IsLaid, read_from-IsLaid, length-IsLaid,
}
use dodder.InventoryArchive.DataV1.{
  validate_file, DataEntryV1, DataWriterV1, new_data_writer_v1, flags_with, close_v1, DataReaderV1,
  new_data_reader_v1, read_entry_v1, read_all_data_v1, read_entry_at_v1, validate_data_v1,
}
use dodder.InventoryArchive.DataV1.Item.{
  Item, write_items_v1, payload_v1, IsItem, forget_v1, item_of_v1,
}
use dodder.InventoryArchive.DataV1.Step.{writer_v1}
use dodder.InventoryArchive.DataV1.Items.{write_items_v1-IsLaid}

flags_with-lt : (enc : Option Encryption) (flags : ℕ) → flags < 65536 → flags_with enc flags < 65536
flags_with-lt none flags h = h
flags_with-lt (some e) flags h = ground arith

-- the reader of a file
abbrev reader_of_v1 : Bytes → Bytes → Bytes → Option Encryption → ℕ → ℕ → DataReaderV1
reader_of_v1 file id ct enc n flags = record {
  file = file;
  hash_format_id = id;
  compression_type = ct;
  encryption = enc;
  hash_size = n;
  flags = flags;
  data_start = data_start id;
}

new_data_reader_v1-eq :
    (file id ct : Bytes) (enc : Option Encryption) (n flags : ℕ)
    → read_data_header 1 file
      ≡ ok (record { format_id = id; size = n; compression = ct; flags = flags })
    → new_data_reader_v1 file enc ≡ ok (reader_of_v1 file id ct enc n flags)
unfolding new_data_reader_v1
new_data_reader_v1-eq file id ct enc n flags h = rw h refl

new_data_writer_v1-eq :
    (id ct : Bytes) (enc : Option Encryption) (n byte flags : ℕ)
    → hash_size_for_format id ≡ some n
    → compression_to_byte ct ≡ ok byte
    → new_data_writer_v1 id ct flags enc
      ≡ ok (record {
        written = header_of 1 id byte (flags_with enc flags);
        hash_format_id = id;
        compression_type = ct;
        encryption = enc;
        hash_size = n;
        flags = flags_with enc flags;
        entries = [];
        offset = length (header_of 1 id byte (flags_with enc flags));
      })
unfolding new_data_writer_v1
new_data_writer_v1-eq id ct enc n byte flags size compressed =
    rw
      (
        size,
        write_data_header-eq 1 id ct (flags_with enc flags) n byte size compressed,
        length-header_of 1 id byte (flags_with enc flags),
      )
      refl

-- a file of entries between its header and its footer is read
module _ (codec : Codec) (id ct : Bytes) (enc : Option Encryption) (n flags : ℕ)
    (front rows footer : Bytes) (es : List DataEntryV1) (starts : length front ≡ data_start id)
    (ends : length footer ≡ 8 + n)
    (laid : IsLaid (read_entry_v1 codec n enc) (λ e. e.offset) (length front) rows es) where
  abbrev file : Bytes
  file = front ++ (rows ++ footer)

  length-file : length file ≡ length front + (length rows + (8 + n))
  length-file = omega (arith, length-append front (rows ++ footer), length-append rows footer, ends)

  pub read_all_data_v1-eq : read_all_data_v1 codec (reader_of_v1 file id ct enc n flags) ≡ ok es
  unfolding read_all_data_v1
  read_all_data_v1-eq =
      let at_end : length file - (8 + n) ≡ length front + length rows =
        omega (arith, length-file) in
      let behind : drop (length front) file ≡ rows ++ footer =
        drop_at front (rows ++ footer) (length front) refl in
      let enough : length es < suc (length file) = omega (
        arith,
        length-file,
        length-IsLaid (read_entry_v1 codec n enc) (λ e. e.offset) (length front) rows es laid,
      ) in
      rw (sym starts, behind)
        (read_from-IsLaid (read_entry_v1 codec n enc) (λ e. e.offset) (length front)
          (length file - (8 + n)) (suc (length file)) rows footer es laid at_end enough)

  read_entry_at_v1-one :
      (e : DataEntryV1)
      → length file < 2 ^ 63
      → IsReadIn (read_entry_v1 codec n enc) (λ e. e.offset) file e
      → read_entry_at_v1 codec (reader_of_v1 file id ct enc n flags) e.offset ≡ ok e
  unfolding read_entry_at_v1
  read_entry_at_v1-one e small (pos, rest, inside, there) =
      let is_int : leb (2 ^ 63) e.offset ≡ false = ground arith in rw (is_int, there) refl

  read_entry_at_v1-each :
      (all : List DataEntryV1)
      → length file < 2 ^ 63
      → All (IsReadIn (read_entry_v1 codec n enc) (λ e. e.offset) file) all
      → All (λ e. read_entry_at_v1 codec (reader_of_v1 file id ct enc n flags) e.offset ≡ ok e) all
  read_entry_at_v1-each [] small h = tt
  read_entry_at_v1-each (e ∷ all) small h =
      (read_entry_at_v1-one e small h.0, read_entry_at_v1-each all small h.1)

  pub read_entry_at_v1-All :
      length file < 2 ^ 63
      → All (λ e. read_entry_at_v1 codec (reader_of_v1 file id ct enc n flags) e.offset ≡ ok e) es
  read_entry_at_v1-All small = read_entry_at_v1-each es small (
      IsReadIn-IsLaid (read_entry_v1 codec n enc) (λ e. e.offset) file front rows footer es refl
        laid)

-- Let a compression type be known to the package and undone by its reader, an encryption, where there is
-- one, work and be undone, the digests of the format have its size, and the flags be a uint16. Then blobs
-- and deltas, with hashes of that size and numbers that fit, which take less than 2 ^ 62 bytes as they
-- are stored, can be written with `write_full_entry` and `write_delta_entry` one after the other and
-- closed, and `new_data_reader_v1` opens the file: `read_all_data_v1` gives the blobs and deltas in the
-- order of the writing, with the encodings, sizes and offsets that `close_v1` told, `read_entry_at_v1`
-- gives each entry at its offset, and `validate_data_v1` finds the checksum right.
pub read_back-write_items_v1 :
    (digest : Bytes → Bytes → Bytes) (codec : Codec) (id ct : Bytes) (enc : Option Encryption)
    (n byte flags : ℕ) (items : List Item)
    → hash_size_for_format id ≡ some n
    → compression_to_byte ct ≡ ok byte
    → IsCodec codec
    → IsSound enc
    → IsDigest digest id n
    → flags < 65536
    → All (IsItem n) items
    → payload_v1 codec ct enc n items < 2 ^ 62
    → (w : DataWriterV1) × (w' : DataWriterV1) × (es : List DataEntryV1) × (file : Bytes)
      × (sum : Bytes) × (r : DataReaderV1) × (new_data_writer_v1 id ct flags enc ≡ ok w)
      × (write_items_v1 codec w items ≡ ok w')
      × (close_v1 digest w' ≡ (file, sum, map forget_v1 es))
      × (map item_of_v1 es ≡ items)
      × (new_data_reader_v1 file enc ≡ ok r)
      × (read_all_data_v1 codec r ≡ ok es)
      × All (λ e. read_entry_at_v1 codec r e.offset ≡ ok e) es
      × (validate_data_v1 digest r ≡ ok tt)
unfolding close_v1 validate_data_v1
read_back-write_items_v1 digest codec id ct enc n byte flags items size compressed laws sound
      is_digest flags_small hashes fits =
    let (ct', byte_small, back, same) = IsByteOf-compression_to_byte ct byte compressed in
    let bounds = format_bounds id n size in
    let front = header_of 1 id byte (flags_with enc flags) in
    let start : length front ≡ data_start id = length-header_of 1 id byte (flags_with enc flags) in
    let (rows, es, wrote, pairs, len, laid) =
      write_items_v1-IsLaid codec id ct ct' enc n byte (flags_with enc flags) laws sound same
        compressed byte_small back bounds.1 front [] items hashes
        (omega (arith, start, bounds.0)) in
    let count = be 8 (length (map forget_v1 es) % u64_mod) in
    let content = (front ++ rows) ++ count in
    let footer = count ++ digest id content in
    let ends : length footer ≡ 8 + n = omega (
      arith,
      length-append count (digest id content),
      length-be 8 (length (map forget_v1 es) % u64_mod),
      is_digest content,
    ) in
    let whole : content ++ digest id content ≡ front ++ (rows ++ footer) = simp append_assoc in
    let total : length (front ++ (rows ++ footer)) ≡ length front + (length rows + (8 + n)) =
      omega (arith, length-append front (rows ++ footer), length-append rows footer, ends) in
    let header =
      read_data_header-eq 1 id ct' (flags_with enc flags) n byte (rows ++ footer) size back
        byte_small (omega arith) (flags_with-lt enc flags flags_small) in
    let long_enough : ltb (length (front ++ (rows ++ footer))) (8 + n) ≡ false =
      ground (arith, total) in
    (
      writer_v1 codec id ct ct' enc n byte (flags_with enc flags) laws sound same compressed
          byte_small back bounds.1 front [],
      writer_v1 codec id ct ct' enc n byte (flags_with enc flags) laws sound same compressed
          byte_small back bounds.1 (front ++ rows) (map forget_v1 es),
      es,
      content ++ digest id content,
      digest id content,
      reader_of_v1 (front ++ (rows ++ footer)) id ct' enc n (flags_with enc flags),
      new_data_writer_v1-eq id ct enc n byte flags size compressed,
      wrote,
      refl,
      pairs,
      ap (λ f. new_data_reader_v1 f enc) whole
          ∙ new_data_reader_v1-eq (front ++ (rows ++ footer)) id ct' enc n (flags_with enc flags)
              header,
      read_all_data_v1-eq codec id ct' enc n (flags_with enc flags) front rows footer es start ends
          laid,
      read_entry_at_v1-All codec id ct' enc n (flags_with enc flags) front rows footer es start ends
          laid (omega (arith, total, start, bounds, len)),
      rw long_enough (
          subst (λ f. validate_file digest f (length f) n id ≡ ok tt) whole
            (validate_file-eq digest id n content is_digest (
              omega (
                arith,
                ap length whole,
                length-append content (digest id content),
                total,
                start,
                bounds,
                len,
              )))),
    )
