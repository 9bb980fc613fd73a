-- ===== src/InventoryArchive/Pack/Found.antt =====
-- A blob that was packed is found by its digest.
use dodder.Prelude.{
  ℕ, suc, ◌<◌, ◌^◌, ◌≡◌, refl, ap, sym, ◌∙◌, subst, List, [], ◌∷◌, map, Bool-cases, inl, inr,
  Option, some, length, Bytes, bytes_eq, bytes_eq→eq, bytes_eq_refl, All, arith,
}
use dodder.Wire.Order.{IsLess}
use dodder.InventoryArchive.{ok, ◌>>=◌, hash_size_for_format, compression_to_byte}
use dodder.InventoryArchive.Table.{Reader, lookup}
use dodder.InventoryArchive.Table.FanOut.{IsSorted}
use dodder.InventoryArchive.Table.Search.{find, less-ne}
use dodder.InventoryArchive.Table.Parts.{IsDigest}
use dodder.InventoryArchive.Table.Written.{read-write_index}
use dodder.InventoryArchive.Payload.{Codec, Encryption}
use dodder.InventoryArchive.Payload.RoundTrip.{IsCodec, IsSound}
use dodder.InventoryArchive.Data.{
  DataEntry, DataWriter, new_data_writer, close, DataReader, new_data_reader, read_entry_at,
}
use dodder.InventoryArchive.Data.Step.{write_items, payload, IsItem, IsPlaced, forget, item_of}
use dodder.InventoryArchive.Data.Written.{read_back-write_items}
use dodder.InventoryArchive.Index.{
  IndexEntry, index_format, write_index, new_index_reader, lookup_hash, IsRow,
  index_format-IsEntryFormat,
}
use dodder.InventoryArchive.Pack.{index_entry, pack_chunk_archive}
use mathlib.Core.Option

abbrev pub IsIncreasing : List (Bytes × Bytes) → Type 0
IsIncreasing [] = Unit
IsIncreasing (a ∷ items) = All (λ b. IsLess a.0 b.0) items × IsIncreasing items

-- a digest of at least one byte
abbrev pub HasFirst : Bytes → Type 0
HasFirst [] = ⊥
HasFirst (b ∷ x) = b < 256

-- the entries of the index
abbrev indexed : List DataEntry → List IndexEntry
indexed es = map index_entry (map forget es)

indexed-above :
    (h : Bytes) (es : List DataEntry)
    → All (λ b. IsLess h b.0) (map item_of es)
    → All (λ e. IsLess h e.hash) (indexed es)
indexed-above h [] less = tt
indexed-above h (e ∷ es) less = (less.0, indexed-above h es less.1)

indexed-IsSorted :
    (es : List DataEntry) → IsIncreasing (map item_of es) → IsSorted index_format (indexed es)
indexed-IsSorted [] h = tt
indexed-IsSorted (e ∷ es) h = (indexed-above e.hash es h.0, indexed-IsSorted es h.1)

indexed-rows :
    (n : ℕ) (es : List DataEntry)
    → All (IsItem n) (map item_of es)
    → All IsPlaced es
    → All (IsRow n) (indexed es)
indexed-rows n [] h placed = tt
indexed-rows n (e ∷ es) h placed =
    ((h.0.0, omega (arith, placed.0.0), omega (arith, placed.0.1)), indexed-rows n es h.1 placed.1)

length-indexed : (es : List DataEntry) → length (indexed es) ≡ length (map item_of es)
length-indexed [] = refl
length-indexed (e ∷ es) = ap suc (length-indexed es)

-- an entry in front with a lesser hash is passed over
find-behind :
    (x : IndexEntry) (ies part : List IndexEntry)
    → All (λ e. IsLess x.hash e.hash) part
    → All (λ e. find index_format e.hash ies ≡ some e) part
    → All (λ e. find index_format e.hash (x ∷ ies) ≡ some e) part
find-behind x ies [] less found = tt
find-behind x ies (e ∷ part) less found = (
  elim (Bool-cases (bytes_eq x.hash e.hash)) [
    | inl hit ↦ absurd (less-ne x.hash e.hash less.0 (bytes_eq→eq x.hash e.hash hit))
    | inr miss ↦ rw miss found.0
  ],
  find-behind x ies part less.1 found.1,
)

find-each :
    (ies : List IndexEntry)
    → IsSorted index_format ies
    → All (λ e. find index_format e.hash ies ≡ some e) ies
find-each [] h = tt
find-each (x ∷ ies) h =
    (rw (bytes_eq_refl x.hash) refl, find-behind x ies ies h.0 (find-each ies h.1))

-- what an item is found by: the index gives a place, and the data file has its data there
abbrev pub IsFound : Codec → Reader → DataReader → Bytes × Bytes → Type 0
IsFound codec ir r item =
    (offset : ℕ) × (stored : ℕ) × (e : DataEntry) × (lookup_hash ir item.0
      ≡ ok (some (offset, stored)))
    × (read_entry_at codec r offset ≡ ok e)
    × (e.hash ≡ item.0)
    × (e.content ≡ item.1)

module _ (codec : Codec) (ir : Reader) (r : DataReader) (ies : List IndexEntry)
    (looked : (b : ℕ) (x : Bytes)
      → b < 256
      → lookup index_format ir (b ∷ x) ≡ ok (find index_format (b ∷ x) ies)) where
  lookup_hash-found :
      (h : Bytes) (ie : IndexEntry)
      → HasFirst h
      → find index_format h ies ≡ some ie
      → lookup_hash ir h ≡ ok (some (ie.pack_offset, ie.stored_size))
  unfolding lookup_hash
  lookup_hash-found [] ie first found = elim first [ ]
  lookup_hash-found (b ∷ x) ie first found =
      ap (λ o. o >>= λ e. ok (Option.map (λ e. (e.pack_offset, e.stored_size)) e))
        (looked b x first ∙ ap ok found)

  IsFound-map :
      (es : List DataEntry)
      → All (λ item. HasFirst item.0) (map item_of es)
      → All (λ e. find index_format e.hash ies ≡ some e) (indexed es)
      → All (λ e. read_entry_at codec r e.offset ≡ ok e) es
      → All (IsFound codec ir r) (map item_of es)
  IsFound-map [] first found there = tt
  IsFound-map (e ∷ es) first found there = (
    (
      e.offset,
      e.stored_size,
      e,
      lookup_hash-found e.hash (index_entry (forget e)) first.0 found.0,
      there.0,
      refl,
      refl,
    ),
    IsFound-map es first.1 found.1 there.1,
  )

-- the steps of `pack_chunk_archive`, put together
pack_chunk_archive-eq :
    (digest : Bytes → Bytes → Bytes) (codec : Codec) (id ct : Bytes) (enc : Option Encryption)
    (items : List (Bytes × Bytes)) (w w' : DataWriter) (file sum : Bytes) (entries : List DataEntry)
    (index index_sum : Bytes)
    → new_data_writer id ct enc ≡ ok w
    → write_items codec w items ≡ ok w'
    → close digest w' ≡ (file, sum, entries)
    → write_index digest id (map index_entry entries) ≡ ok (index, index_sum)
    → pack_chunk_archive digest codec id ct enc items ≡ ok (file, index)
unfolding pack_chunk_archive
pack_chunk_archive-eq digest codec id ct enc items w w' file sum entries index index_sum made wrote
      closed indexed' =
    rw (made, wrote)
      (ap (λ c. write_index digest id (map index_entry c.2) >>= λ x. ok (c.0, x.0)) closed
        ∙ ap (λ i. i >>= λ x. ok (file, x.0)) indexed')

-- Let a compression type be known to the package and undone by its reader, an encryption, where there is
-- one, work and be undone, and the digests of the format have its size. Let the blobs be strictly
-- ordered by their digests, fewer than 2 ^ 54, with digests of that size and data of less than 2 ^ 64
-- bytes, which take less than 2 ^ 62 bytes as they are stored. Then `packChunkArchive` gives a data file
-- and an index that their readers open, and for every blob the index gives a place under its digest
-- at which the data file has an entry with this digest and the blob's data.
pub pack_chunk_archive-IsFound :
    (digest : Bytes → Bytes → Bytes) (codec : Codec) (id ct : Bytes) (enc : Option Encryption)
    (n byte : ℕ) (items : List (Bytes × Bytes))
    → hash_size_for_format id ≡ some n
    → compression_to_byte ct ≡ ok byte
    → IsCodec codec
    → IsSound enc
    → IsDigest digest id n
    → All (IsItem n) items
    → All (λ item. HasFirst item.0) items
    → IsIncreasing items
    → length items < 2 ^ 54
    → payload codec ct enc items < 2 ^ 62
    → (file : Bytes) × (index : Bytes) × (ir : Reader) × (r : DataReader) × (pack_chunk_archive
          digest codec id ct enc items
        ≡ ok (file, index))
      × (new_index_reader index (length index) id ≡ ok ir)
      × (new_data_reader file enc ≡ ok r)
      × All (IsFound codec ir r) items
unfolding write_index new_index_reader
pack_chunk_archive-IsFound digest codec id ct enc n byte items size compressed laws sound is_digest
      hashes firsts increasing few fits =
    let (w, w', es, file, sum, r, made, wrote, closed, pairs, opened, all, there, valid, placed) =
      read_back-write_items digest codec id ct enc n byte items size compressed laws sound is_digest
        hashes fits in
    let sorted = indexed-IsSorted es (subst IsIncreasing (sym pairs) increasing) in
    let rows = indexed-rows n es (subst (All (IsItem n)) (sym pairs) hashes) placed in
    let bound : length (indexed es) < 2 ^ 54 = omega (arith, length-indexed es, ap length pairs) in
    let (index, index_sum, ir, indexed', index_opened, all', looked, valid') =
      read-write_index index_format IsRow index_format-IsEntryFormat digest id n (indexed es) size
        is_digest sorted rows bound in
    (
      file,
      index,
      ir,
      r,
      pack_chunk_archive-eq digest codec id ct enc items w w' file sum (map forget es) index
          index_sum made wrote closed indexed',
      index_opened,
      opened,
      subst (All (IsFound codec ir r)) pairs (
          IsFound-map codec ir r (indexed es) looked es
            (subst (All (λ item. HasFirst item.0)) (sym pairs) firsts)
            (find-each (indexed es) sorted) there),
    )
