-- ===== src/InventoryArchive/DataV1/Item.antt =====
-- The blobs and deltas of a data file of version 1, and writing them one after the other.
use dodder.Prelude.{ℕ, ◌+◌, ◌<◌, ◌≡◌, List, [], ◌∷◌, Option, length, ◌==◌, if◌then◌else◌, Bytes}
use dodder.Wire.{u64_mod}
use dodder.InventoryArchive.{Outcome, ok, ◌>>=◌}
use dodder.InventoryArchive.Payload.{Codec, Encryption, store}
use dodder.InventoryArchive.Data.Step.{stored_length}
use dodder.InventoryArchive.DataV1.{DataEntryV1, DataWriterV1, write_full_entry, write_delta_entry}

-- a blob, or a delta with its algorithm, its base and the size of the blob
pub data Item : Type 0 where
  full : Bytes → Bytes → Item
  delta : Bytes → ℕ → Bytes → ℕ → Bytes → Item

abbrev pub write_item : Codec → DataWriterV1 → Item → Outcome DataWriterV1
write_item codec w (full h content) = write_full_entry codec w h content
write_item codec w (delta h algorithm base logical content) =
    write_delta_entry codec w h algorithm base logical content

-- the items, written one after the other
abbrev pub write_items_v1 : Codec → DataWriterV1 → List Item → Outcome DataWriterV1
write_items_v1 codec w [] = ok w
write_items_v1 codec w (item ∷ items) =
    write_item codec w item >>= λ w. write_items_v1 codec w items

-- what an item stores
abbrev pub content_of : Item → Bytes
content_of (full h content) = content
content_of (delta h algorithm base logical content) = content

-- hashes of the size, and numbers that fit
abbrev pub IsItem : ℕ → Item → Type 0
IsItem n (full h content) = (length h ≡ n) × (length content < u64_mod)
IsItem n (delta h algorithm base logical content) =
    (length h ≡ n) × (length base ≡ n) × (algorithm < 256) × (logical < u64_mod)

-- how many bytes the items take at most
abbrev pub payload_v1 : Codec → Bytes → Option Encryption → ℕ → List Item → ℕ
payload_v1 codec ct enc n [] = 0
payload_v1 codec ct enc n (item ∷ items) =
    n
    + n
    + 19
    + stored_length (store codec ct enc (content_of item))
    + payload_v1 codec ct enc n items

-- an entry as the writer keeps it
abbrev pub forget_v1 : DataEntryV1 → DataEntryV1
forget_v1 e = record e { content = [] }

-- what an entry says of its item
abbrev pub item_of_v1 : DataEntryV1 → Item
item_of_v1 e =
    if e.entry_type == 0
    then full e.hash e.content
    else delta e.hash e.delta_algorithm e.base_hash e.logical_size e.content
