-- ===== src/InventoryArchive/DataV1/Step.antt =====
-- What one blob or delta becomes in a data file of version 1.
use dodder.Prelude.{
  ℕ, ◌+◌, ◌%◌, ◌^◌, ◌<◌, ◌≡◌, refl, ap, ◌∙◌, List, [], ◌∷◌, ◌++◌, append_assoc, Option, length,
  length-append, Bytes, arith,
}
use dodder.Wire.{u64_mod, be, length-be, un_be-be_1}
use dodder.InventoryArchive.{Outcome, ok, compression_to_byte, byte_to_compression}
use dodder.InventoryArchive.Payload.{Codec, Encryption, wrap_writer, store, load, write_body}
use dodder.InventoryArchive.Payload.RoundTrip.{
  IsCodec, IsSound, read_full-eq, length-write_body, read_body-write_body,
}
use dodder.InventoryArchive.Entries.Laid.{IsEntryAt}
use dodder.InventoryArchive.Data.Step.{read_hash-eq}
use dodder.InventoryArchive.DataV1.{
  DataEntryV1, DataWriterV1, write_full_entry, write_delta_entry, read_entry_v1, read_full_body,
  read_delta_body,
}
use dodder.InventoryArchive.DataV1.Item.{
  Item, full, delta, write_item, content_of, IsItem, forget_v1,
}

module _ (codec : Codec) (id ct ct' : Bytes) (enc : Option Encryption) (n byte flags : ℕ)
    (laws : IsCodec codec) (sound : IsSound enc)
    (same : (codec : Codec) (b : Bytes) → wrap_writer codec ct' b ≡ wrap_writer codec ct b)
    (compressed : compression_to_byte ct ≡ ok byte) (byte_small : byte < 256)
    (back : byte_to_compression byte ≡ ok ct') (positive : 0 < n) where
  -- a writer that has written these bytes and entries
  abbrev pub writer_v1 : Bytes → List DataEntryV1 → DataWriterV1
  writer_v1 written entries = record {
    written = written;
    hash_format_id = id;
    compression_type = ct;
    encryption = enc;
    hash_size = n;
    flags = flags;
    entries = entries;
    offset = length written;
  }

  -- the entry of an item that is stored so
  abbrev pub entry_at : ℕ → Item → Bytes → DataEntryV1
  entry_at pos (full h content) stored = record {
    hash = h;
    entry_type = 0;
    encoding = byte;
    logical_size = length content;
    stored_size = length stored;
    content = content;
    offset = pos;
    delta_algorithm = 0;
    base_hash = [];
  }
  entry_at pos (delta h algorithm base logical content) stored = record {
    hash = h;
    entry_type = 1;
    encoding = byte;
    logical_size = logical;
    stored_size = length stored;
    content = content;
    offset = pos;
    delta_algorithm = algorithm;
    base_hash = base;
  }

  abbrev pub row : Item → Bytes → Bytes
  row (full h content) stored = h ++ (be 1 0 ++ (be 1 byte ++ write_body (length content) stored))
  row (delta h algorithm base logical content) stored =
      h ++ (be 1 1 ++ (be 1 byte ++ (be 1 algorithm ++ (base ++ write_body logical stored))))

  pub length-full :
      (h content stored : Bytes)
      → length (row (full h content) stored) ≡ length h + 18 + length stored
  length-full h content stored = omega (
    arith,
    length-append h (be 1 0 ++ (be 1 byte ++ write_body (length content) stored)),
    length-append (be 1 0) (be 1 byte ++ write_body (length content) stored),
    length-append (be 1 byte) (write_body (length content) stored),
    length-be 1 0,
    length-be 1 byte,
    length-write_body (length content) stored,
  )

  pub length-delta :
      (h : Bytes) (algorithm : ℕ) (base : Bytes) (logical : ℕ) (content stored : Bytes)
      → length (row (delta h algorithm base logical content) stored)
        ≡ length h + length base + 19 + length stored
  length-delta h algorithm base logical content stored = omega (
    arith,
    length-append h
        (be 1 1 ++ (be 1 byte ++ (be 1 algorithm ++ (base ++ write_body logical stored)))),
    length-append (be 1 1) (be 1 byte ++ (be 1 algorithm ++ (base ++ write_body logical stored))),
    length-append (be 1 byte) (be 1 algorithm ++ (base ++ write_body logical stored)),
    length-append (be 1 algorithm) (base ++ write_body logical stored),
    length-append base (write_body logical stored),
    length-be 1 1,
    length-be 1 byte,
    length-be 1 algorithm,
    length-write_body logical stored,
  )

  abbrev next_of : Bytes → List DataEntryV1 → Bytes → DataEntryV1 → ℕ → Outcome DataWriterV1
  next_of written entries bites entry offset = ok (record {
    written = written ++ bites;
    hash_format_id = id;
    compression_type = ct;
    encryption = enc;
    hash_size = n;
    flags = flags;
    entries = entries ++ (entry ∷ []);
    offset = offset;
  })

  abbrev kept : ℕ → Item → ℕ → ℕ → DataEntryV1
  kept pos (full h content) logical size = record {
    hash = h;
    entry_type = 0;
    encoding = byte;
    logical_size = logical;
    stored_size = size;
    content = [];
    offset = pos;
    delta_algorithm = 0;
    base_hash = [];
  }
  kept pos (delta h algorithm base logical' content) logical size = record {
    hash = h;
    entry_type = 1;
    encoding = byte;
    logical_size = logical;
    stored_size = size;
    content = [];
    offset = pos;
    delta_algorithm = algorithm;
    base_hash = base;
  }

  pub write_item-eq :
      (written : Bytes) (entries : List DataEntryV1) (item : Item) (stored : Bytes)
      → store codec ct enc (content_of item) ≡ ok stored
      → IsItem n item
      → length written + (n + n + 19 + length stored) < 2 ^ 63
      → write_item codec (writer_v1 written entries) item
        ≡ ok (
            writer_v1
              (written ++ row item stored)
              (entries ++ (forget_v1 (entry_at (length written) item stored) ∷ [])))
  unfolding write_full_entry write_delta_entry
  write_item-eq written entries (full h content) stored put is_item fits =
      let a : length content % u64_mod ≡ length content = omega arith in
      let b : length stored % u64_mod ≡ length stored = omega arith in
      let c : (length written + (length h + 1 + 1 + 8 + 8 + length stored)) % u64_mod
          ≡ length (written ++ row (full h content) stored) =
        omega (
          arith,
          length-append written (row (full h content) stored),
          length-full h content stored,
        ) in
      let next = next_of written entries (row (full h content) stored) in
      let entry = kept (length written) (full h content) in
      let far = (length written + (length h + 1 + 1 + 8 + 8 + length stored)) % u64_mod in
      rw (compressed, put)
        (ap (λ l. next (entry l (length stored % u64_mod)) far) a
          ∙ ap (λ s. next (entry (length content) s) far) b
          ∙ ap (λ o. next (entry (length content) (length stored)) o) c)
  write_item-eq written entries (delta h algorithm base logical content) stored put is_item fits =
      let b : length stored % u64_mod ≡ length stored = omega arith in
      let c : (length written + (length h + 1 + 1 + 1 + length base + 8 + 8 + length stored))
            % u64_mod
          ≡ length (written ++ row (delta h algorithm base logical content) stored) =
        omega (
          arith,
          length-append written (row (delta h algorithm base logical content) stored),
          length-delta h algorithm base logical content stored,
        ) in
      let next = next_of written entries (row (delta h algorithm base logical content) stored) in
      let entry = kept (length written) (delta h algorithm base logical content) in
      let far =
        (length written + (length h + 1 + 1 + 1 + length base + 8 + 8 + length stored)) % u64_mod in
      rw (compressed, put)
        (ap (λ s. next (entry logical s) far) b
          ∙ ap (λ o. next (entry logical (length stored)) o) c)

  pub IsEntryAt-row :
      (pos : ℕ) (item : Item) (stored : Bytes)
      → IsItem n item
      → load codec ct' enc stored ≡ ok (content_of item)
      → length stored < 2 ^ 63
      → IsEntryAt
          (read_entry_v1 codec n enc)
          (λ e. e.offset)
          pos
          (row item stored)
          (entry_at pos item stored)
  unfolding read_entry_v1 read_full_body read_delta_body
  IsEntryAt-row pos (full h content) stored is_item got fits = (
    omega (arith, length-full h content stored),
    λ after.
        let rest = write_body (length content) stored ++ after in
        let split : row (full h content) stored ++ after ≡ h ++ (be 1 0 ++ (be 1 byte ++ rest)) =
          simp append_assoc in
        let a = read_hash-eq h (be 1 0 ++ (be 1 byte ++ rest)) n is_item.0 positive in
        let b = read_full-eq (be 1 0) (be 1 byte ++ rest) 1 (length-be 1 0) in
        let c = read_full-eq (be 1 byte) rest 1 (length-be 1 byte) in
        let d =
          read_body-write_body codec ct' enc (length content) stored content after is_item.1 fits
            got in
        let next : pos + (n + 2 + (16 + length stored))
            ≡ pos + length (row (full h content) stored) =
          omega (arith, length-full h content stored, is_item.0) in
        ap (read_entry_v1 codec n enc pos) split
        ∙ rw (a, b, c, un_be-be_1 byte byte_small, back, un_be-be_1 0 (omega arith), d)
            (ap (λ p. ok (entry_at pos (full h content) stored, p, after)) next),
    refl,
  )
  IsEntryAt-row pos (delta h algorithm base logical content) stored is_item got fits = (
    omega (arith, length-delta h algorithm base logical content stored),
    λ after.
        let rest = write_body logical stored ++ after in
        let split : row (delta h algorithm base logical content) stored ++ after
            ≡ h ++ (be 1 1 ++ (be 1 byte ++ (be 1 algorithm ++ (base ++ rest)))) =
          simp append_assoc in
        let a =
          read_hash-eq h (be 1 1 ++ (be 1 byte ++ (be 1 algorithm ++ (base ++ rest)))) n is_item.0
            positive in
        let b =
          read_full-eq (be 1 1) (be 1 byte ++ (be 1 algorithm ++ (base ++ rest))) 1
            (length-be 1 1) in
        let c = read_full-eq (be 1 byte) (be 1 algorithm ++ (base ++ rest)) 1 (length-be 1 byte) in
        let f = read_full-eq (be 1 algorithm) (base ++ rest) 1 (length-be 1 algorithm) in
        let g = read_full-eq base rest n is_item.1 in
        let d =
          read_body-write_body codec ct' enc logical stored content after is_item.3 fits got in
        let next : pos + (n + 2 + (1 + n + 16 + length stored))
            ≡ pos + length (row (delta h algorithm base logical content) stored) =
          omega
            (arith, length-delta h algorithm base logical content stored, is_item.0, is_item.1) in
        ap (read_entry_v1 codec n enc pos) split
        ∙ rw
            (
              a,
              b,
              c,
              un_be-be_1 byte byte_small,
              back,
              un_be-be_1 1 (omega arith),
              f,
              g,
              un_be-be_1 algorithm is_item.2,
              d,
            )
            (ap (λ p. ok (entry_at pos (delta h algorithm base logical content) stored, p, after))
              next),
    refl,
  )
