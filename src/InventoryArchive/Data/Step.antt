-- ===== src/InventoryArchive/Data/Step.antt =====
-- What one entry and a list of entries become in a data file of version 0.
use dodder.Prelude.{
  ℕ, ◌+◌, ◌%◌, ◌^◌, ◌<◌, ◌≡◌, refl, ap, sym, ◌∙◌, subst, List, [], ◌∷◌, ◌++◌, map, append_assoc,
  append-nil, Option, length, length-append, Bytes, All, arith,
}
use dodder.Wire.{u64_mod}
use dodder.InventoryArchive.{Outcome, ok, err, panicked, spins, ◌>>=◌}
use dodder.InventoryArchive.Payload.{
  Codec, Encryption, wrap_writer, store, load, write_body, read_hash,
}
use dodder.InventoryArchive.Payload.RoundTrip.{
  IsCodec, IsSound, load-store, read_full-eq, length-write_body, read_body-write_body,
}
use dodder.InventoryArchive.Entries.Laid.{IsEntryAt, IsLaid}
use dodder.InventoryArchive.Data.{DataEntry, DataWriter, write_entry, read_entry}

-- the entries with these hashes and contents, written one after the other
abbrev pub write_items : Codec → DataWriter → List (Bytes × Bytes) → Outcome DataWriter
write_items codec w [] = ok w
write_items codec w (item ∷ items) =
    write_entry codec w item.0 item.1 >>= λ w. write_items codec w items

abbrev pub stored_length : Outcome Bytes → ℕ
stored_length (ok b) = length b
stored_length (err e) = 0
stored_length panicked = 0
stored_length spins = 0

-- how many bytes the entries take
abbrev pub payload : Codec → Bytes → Option Encryption → List (Bytes × Bytes) → ℕ
payload codec ct enc [] = 0
payload codec ct enc (item ∷ items) =
    length item.0 + 16 + stored_length (store codec ct enc item.1) + payload codec ct enc items

abbrev pub IsItem : ℕ → Bytes × Bytes → Type 0
IsItem n item = (length item.0 ≡ n) × (length item.1 < u64_mod)

-- its place and its size are ints
abbrev pub IsPlaced : DataEntry → Type 0
IsPlaced e = (e.offset < 2 ^ 63) × (e.stored_size < 2 ^ 63)

-- an entry as the writer keeps it
abbrev pub forget : DataEntry → DataEntry
forget e = record e { content = [] }

abbrev pub item_of : DataEntry → Bytes × Bytes
item_of e = (e.hash, e.content)

pub read_hash-eq :
    (h rest : Bytes) (n : ℕ) → length h ≡ n → 0 < n → read_hash n (h ++ rest) ≡ ok (h, rest)
unfolding read_hash
read_hash-eq [] rest n e pos = absurd (omega arith)
read_hash-eq (b ∷ h) rest n e pos = read_full-eq (b ∷ h) rest n e

pub store-same :
    (codec : Codec) (ct ct' : Bytes) (enc : Option Encryption) (b : Bytes)
    → wrap_writer codec ct' b ≡ wrap_writer codec ct b
    → store codec ct' enc b ≡ store codec ct enc b
unfolding store
store-same codec ct ct' enc b same = rw same refl

module _ (codec : Codec) (id ct ct' : Bytes) (enc : Option Encryption) (n : ℕ)
    (laws : IsCodec codec) (sound : IsSound enc)
    (same : (codec : Codec) (b : Bytes) → wrap_writer codec ct' b ≡ wrap_writer codec ct b)
    (positive : 0 < n) where
  -- a writer that has written these bytes and entries
  abbrev pub writer : Bytes → List DataEntry → DataWriter
  writer written entries = record {
    written = written;
    hash_format_id = id;
    compression_type = ct;
    encryption = enc;
    hash_size = n;
    entries = entries;
    offset = length written;
  }

  abbrev entry_at : ℕ → Bytes → Bytes → Bytes → DataEntry
  entry_at pos h content stored = record {
    hash = h;
    logical_size = length content;
    stored_size = length stored;
    content = content;
    offset = pos;
  }

  abbrev kept : Bytes → ℕ → ℕ → ℕ → DataEntry
  kept h logical size pos = record {
    hash = h;
    logical_size = logical;
    stored_size = size;
    content = [];
    offset = pos;
  }

  abbrev row : Bytes → Bytes → Bytes → Bytes
  row h content stored = h ++ write_body (length content) stored

  abbrev next_of : Bytes → List DataEntry → Bytes → Bytes → Bytes → ℕ → ℕ → ℕ → Outcome DataWriter
  next_of written entries h content stored logical size offset = ok (record {
    written = written ++ row h content stored;
    hash_format_id = id;
    compression_type = ct;
    encryption = enc;
    hash_size = n;
    entries = entries ++ (kept h logical size (length written) ∷ []);
    offset = offset;
  })

  length-row :
      (h content stored : Bytes) → length (row h content stored) ≡ length h + 16 + length stored
  length-row h content stored = omega (
    arith,
    length-append h (write_body (length content) stored),
    length-write_body (length content) stored,
  )

  write_entry-eq :
      (written : Bytes) (entries : List DataEntry) (h content stored : Bytes)
      → store codec ct enc content ≡ ok stored
      → length content < u64_mod
      → length written + (length h + 16 + length stored) < 2 ^ 63
      → write_entry codec (writer written entries) h content
        ≡ ok (
            writer
              (written ++ row h content stored)
              (entries ++ (forget (entry_at (length written) h content stored) ∷ [])))
  unfolding write_entry
  write_entry-eq written entries h content stored put logical fits =
      let a : length content % u64_mod ≡ length content = omega arith in
      let b : length stored % u64_mod ≡ length stored = omega arith in
      let c : (length written + (length h + 8 + 8 + length stored)) % u64_mod
          ≡ length (written ++ row h content stored) =
        omega (arith, length-append written (row h content stored), length-row h content stored) in
      let next = next_of written entries h content stored in
      rw put (
        ap
          (λ l.
            next l (length stored % u64_mod)
              ((length written + (length h + 8 + 8 + length stored)) % u64_mod))
          a
        ∙ ap
            (λ s.
              next (length content) s
                ((length written + (length h + 8 + 8 + length stored)) % u64_mod))
            b
        ∙ ap (λ o. next (length content) (length stored) o) c)

  IsEntryAt-row :
      (pos : ℕ) (h content stored : Bytes)
      → length h ≡ n
      → load codec ct' enc stored ≡ ok content
      → length content < u64_mod
      → length stored < 2 ^ 63
      → IsEntryAt
          (read_entry codec n ct' enc)
          (λ e. e.offset)
          pos
          (row h content stored)
          (entry_at pos h content stored)
  unfolding read_entry
  IsEntryAt-row pos h content stored size got logical fits = (
    omega (arith, length-row h content stored),
    λ after.
        let split : row h content stored ++ after
            ≡ h ++ (write_body (length content) stored ++ after) =
          append_assoc h (write_body (length content) stored) after in
        let first = read_hash-eq h (write_body (length content) stored ++ after) n size positive in
        let second =
          read_body-write_body codec ct' enc (length content) stored content after logical fits
            got in
        let next : pos + (n + 16 + length stored) ≡ pos + length (row h content stored) =
          omega (arith, length-row h content stored, size) in
        rw (split, first, second, next) refl,
    refl,
  )

  pub write_items-IsLaid :
      (written : Bytes) (entries : List DataEntry) (items : List (Bytes × Bytes))
      → All (IsItem n) items
      → length written + payload codec ct enc items < 2 ^ 63
      → (rows : Bytes) × (es : List DataEntry) × (write_items codec (writer written entries) items
          ≡ ok (writer (written ++ rows) (entries ++ map forget es)))
        × (map item_of es ≡ items)
        × (length rows ≡ payload codec ct enc items)
        × IsLaid (read_entry codec n ct' enc) (λ e. e.offset) (length written) rows es
        × All IsPlaced es
  write_items-IsLaid written entries [] h fits = (
    [],
    [],
    ap ok (
        ap (λ b. writer b entries) (sym (append-nil written))
        ∙ ap (writer (written ++ [])) (sym (append-nil entries))),
    refl,
    refl,
    refl,
    tt,
  )
  write_items-IsLaid written entries (item ∷ items) h fits =
      let (stored, put', got) = load-store codec ct' enc item.1 laws sound in
      let put : store codec ct enc item.1 ≡ ok stored =
        sym (store-same codec ct ct' enc item.1 (same codec item.1)) ∙ put' in
      let size : stored_length (store codec ct enc item.1) ≡ length stored = ap stored_length put in
      let r = row item.0 item.1 stored in
      let e = entry_at (length written) item.0 item.1 stored in
      let total : length (written ++ r) ≡ length written + (length item.0 + 16 + length stored) =
        omega (arith, length-append written r, length-row item.0 item.1 stored) in
      let here =
        write_entry-eq written entries item.0 item.1 stored put h.0.1 (omega (arith, size)) in
      let (rows, es, wrote, pairs, len, laid, placed) =
        write_items-IsLaid (written ++ r) (entries ++ (forget e ∷ [])) items h.1
          (omega (arith, total, size)) in
      (
        r ++ rows,
        e ∷ es,
        rw here (
            wrote
            ∙ ap ok (
                ap (λ b. writer b ((entries ++ (forget e ∷ [])) ++ map forget es))
                  (append_assoc written r rows)
                ∙ ap (writer (written ++ (r ++ rows)))
                    (append_assoc entries (forget e ∷ []) (map forget es)))),
        ap (λ t. item ∷ t) pairs,
        omega (arith, length-append r rows, length-row item.0 item.1 stored, len, size),
        (
          r,
          rows,
          refl,
          IsEntryAt-row (length written) item.0 item.1 stored h.0.0 got h.0.1 (omega (arith, size)),
          subst (λ k. IsLaid (read_entry codec n ct' enc) (λ e. e.offset) k rows es)
              (length-append written r) laid,
        ),
        ((omega (arith, size), omega (arith, size)), placed),
      )
