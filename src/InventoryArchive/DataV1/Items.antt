-- ===== src/InventoryArchive/DataV1/Items.antt =====
-- A list of blobs and deltas behind one another.
use dodder.Prelude.{
  ℕ, ◌+◌, ◌^◌, ◌<◌, ◌≤◌, ◌≡◌, refl, ap, sym, ◌∙◌, subst, List, [], ◌∷◌, ◌++◌, map, append_assoc,
  append-nil, Option, length, length-append, Bytes, All, arith,
}
use dodder.InventoryArchive.{ok, compression_to_byte, byte_to_compression}
use dodder.InventoryArchive.Payload.{Codec, Encryption, wrap_writer, store}
use dodder.InventoryArchive.Payload.RoundTrip.{IsCodec, IsSound, load-store}
use dodder.InventoryArchive.Entries.Laid.{IsLaid}
use dodder.InventoryArchive.Data.Step.{stored_length, store-same}
use dodder.InventoryArchive.DataV1.{DataEntryV1, read_entry_v1}
use dodder.InventoryArchive.DataV1.Item.{
  Item, full, delta, write_items_v1, content_of, IsItem, payload_v1, forget_v1, item_of_v1,
}
use dodder.InventoryArchive.DataV1.Step.{
  writer_v1, entry_at, row, length-full, length-delta, write_item-eq, IsEntryAt-row,
}

module _ (codec : Codec) (id ct ct' : Bytes) (enc : Option Encryption) (n byte flags : ℕ)
    (laws : IsCodec codec) (sound : IsSound enc)
    (same : (codec : Codec) (b : Bytes) → wrap_writer codec ct' b ≡ wrap_writer codec ct b)
    (compressed : compression_to_byte ct ≡ ok byte) (byte_small : byte < 256)
    (back : byte_to_compression byte ≡ ok ct') (positive : 0 < n) where
  length-row :
      (item : Item) (stored : Bytes)
      → IsItem n item
      → length (
          row codec id ct ct' enc n byte flags laws sound same compressed byte_small back positive
            item stored)
        ≤ n + n + 19 + length stored
  length-row (full h content) stored is_item = omega (
    arith,
    is_item.0,
    length-full codec id ct ct' enc n byte flags laws sound same compressed byte_small back positive
        h content stored,
  )
  length-row (delta h algorithm base logical content) stored is_item = omega (
    arith,
    is_item.0,
    is_item.1,
    length-delta codec id ct ct' enc n byte flags laws sound same compressed byte_small back
        positive h algorithm base logical content stored,
  )

  item_of_v1-entry_at :
      (pos : ℕ) (item : Item) (stored : Bytes)
      → item_of_v1 (
          entry_at codec id ct ct' enc n byte flags laws sound same compressed byte_small back
            positive pos item stored)
        ≡ item
  item_of_v1-entry_at pos (full h content) stored = refl
  item_of_v1-entry_at pos (delta h algorithm base logical content) stored = refl

  pub write_items_v1-IsLaid :
      (written : Bytes) (entries : List DataEntryV1) (items : List Item)
      → All (IsItem n) items
      → length written + payload_v1 codec ct enc n items < 2 ^ 63
      → (rows : Bytes) × (es : List DataEntryV1) × (write_items_v1 codec
            (writer_v1 codec id ct ct' enc n byte flags laws sound same compressed byte_small back
              positive written entries)
            items
          ≡ ok (
              writer_v1 codec id ct ct' enc n byte flags laws sound same compressed byte_small back
                positive
                (written ++ rows)
                (entries ++ map forget_v1 es)))
        × (map item_of_v1 es ≡ items)
        × (length rows ≤ payload_v1 codec ct enc n items)
        × IsLaid (read_entry_v1 codec n enc) (λ e. e.offset) (length written) rows es
  write_items_v1-IsLaid written entries [] h fits = (
    [],
    [],
    ap ok (
        ap
          (λ b.
            writer_v1 codec id ct ct' enc n byte flags laws sound same compressed byte_small back
              positive b entries)
          (sym (append-nil written))
        ∙ ap
            (writer_v1 codec id ct ct' enc n byte flags laws sound same compressed byte_small back
              positive (written ++ []))
            (sym (append-nil entries))),
    refl,
    omega arith,
    refl,
  )
  write_items_v1-IsLaid written entries (item ∷ items) h fits =
      let (stored, put', got) = load-store codec ct' enc (content_of item) laws sound in
      let put : store codec ct enc (content_of item) ≡ ok stored =
        sym (store-same codec ct ct' enc (content_of item) (same codec (content_of item))) ∙ put' in
      let size : stored_length (store codec ct enc (content_of item)) ≡ length stored =
        ap stored_length put in
      let r =
        row codec id ct ct' enc n byte flags laws sound same compressed byte_small back positive
          item stored in
      let e =
        entry_at codec id ct ct' enc n byte flags laws sound same compressed byte_small back
          positive (length written) item stored in
      let width = length-row item stored h.0 in
      let total : length (written ++ r) ≡ length written + length r = length-append written r in
      let here =
        write_item-eq codec id ct ct' enc n byte flags laws sound same compressed byte_small back
          positive written entries item stored put h.0 (omega (arith, size)) in
      let (rows, es, wrote, items_back, len, laid) =
        write_items_v1-IsLaid (written ++ r) (entries ++ (forget_v1 e ∷ [])) items h.1
          (omega (arith, total, width, size)) in
      (
        r ++ rows,
        e ∷ es,
        rw here (
            wrote
            ∙ ap ok (
                ap
                  (λ b.
                    writer_v1 codec id ct ct' enc n byte flags laws sound same compressed byte_small
                      back positive b ((entries ++ (forget_v1 e ∷ [])) ++ map forget_v1 es))
                  (append_assoc written r rows)
                ∙ ap
                    (writer_v1 codec id ct ct' enc n byte flags laws sound same compressed
                      byte_small back positive (written ++ (r ++ rows)))
                    (append_assoc entries (forget_v1 e ∷ []) (map forget_v1 es)))),
        ap (λ i. i ∷ map item_of_v1 es) (item_of_v1-entry_at (length written) item stored)
            ∙ ap (λ t. item ∷ t) items_back,
        omega (arith, length-append r rows, width, len, size),
        (
          r,
          rows,
          refl,
          IsEntryAt-row codec id ct ct' enc n byte flags laws sound same compressed byte_small back
              positive (length written) item stored h.0 got (omega (arith, size)),
          subst (λ k. IsLaid (read_entry_v1 codec n enc) (λ e. e.offset) k rows es)
              (length-append written r) laid,
        ),
      )
