-- ===== src/InventoryArchive/Index.antt =====
-- index_writer.go and index_reader.go of go/internal/alfa/inventory_archive: the index of a data file,
-- version 0.
pub mod Written
use dodder.Prelude.{
  ℕ, ◌+◌, ◌<◌, ◌≡◌, refl, ap, List, ◌∷◌, ◌++◌, append-nil, append_assoc, sym, ◌∙◌, Option, length,
  length-append, take, drop, Bytes, codes, arith,
}
use dodder.Wire.{u64_mod, be, un_be, length-be}
use dodder.InventoryArchive.{[], Outcome, ok, ◌>>=◌}
use dodder.InventoryArchive.Table.{EntryFormat, Reader}
use dodder.InventoryArchive.Table
use dodder.InventoryArchive.Table.Rows.{IsEntryFormat}
use dodder.InventoryArchive.Table.Columns.{take_at, number_at}
use mathlib.Core.Option

pub record IndexEntry : Type 0 where
  pub hash : Bytes
  pub pack_offset : ℕ
  pub stored_size : ℕ

-- one row: the hash, the offset in the data file and the size there
abbrev pub entry_of : ℕ → Bytes → IndexEntry
entry_of n row = record {
  hash = take n row;
  pack_offset = un_be (take 8 (drop n row));
  stored_size = un_be (take 8 (drop (n + 8) row));
}

abbrev pub index_format : EntryFormat IndexEntry
index_format = record {
  magic = codes "MIAX";
  version = 0;
  hash = λ e. e.hash;
  columns = λ e. be 8 e.pack_offset ++ be 8 e.stored_size;
  columns_size = λ n. 16;
  entry = entry_of;
}

unfoldable pub write_index :
    (Bytes → Bytes → Bytes) → Bytes → List IndexEntry → Outcome (Bytes × Bytes)
write_index digest id es = Table.write_index index_format digest id es

unfoldable pub new_index_reader : Bytes → ℕ → Bytes → Outcome Reader
new_index_reader file total_size id = Table.new_index_reader index_format file total_size id

-- `LookupHash`: the offset and the size, where the hash is found
unfoldable pub lookup_hash : Reader → Bytes → Outcome (Option (ℕ × ℕ))
lookup_hash r h =
    Table.lookup index_format r h >>= λ e. ok (Option.map (λ e. (e.pack_offset, e.stored_size)) e)

unfoldable pub read_all_entries : Reader → Outcome (List IndexEntry)
read_all_entries r = Table.read_all_entries index_format r

-- an entry whose hash has the size of its format and whose numbers are machine words
abbrev pub IsRow : ℕ → IndexEntry → Type 0
IsRow n e = (length e.hash ≡ n) × (e.pack_offset < u64_mod) × (e.stored_size < u64_mod)

entry_back :
    (n : ℕ) (e : IndexEntry)
    → IsRow n e
    → entry_of n (e.hash ++ (be 8 e.pack_offset ++ be 8 e.stored_size)) ≡ e
entry_back n e h =
    let row = e.hash ++ (be 8 e.pack_offset ++ be 8 e.stored_size) in
    let whole : row ≡ (e.hash ++ be 8 e.pack_offset) ++ (be 8 e.stored_size ++ []) =
      ap (λ t. e.hash ++ (be 8 e.pack_offset ++ t)) (sym (append-nil (be 8 e.stored_size)))
      ∙ sym (append_assoc e.hash (be 8 e.pack_offset) (be 8 e.stored_size ++ [])) in
    let a = take_at e.hash (be 8 e.pack_offset ++ be 8 e.stored_size) n h.0 in
    let b = number_at row e.hash (be 8 e.stored_size) e.pack_offset n refl h.0 h.1 in
    let c =
      number_at row (e.hash ++ be 8 e.pack_offset) [] e.stored_size (n + 8) whole
        (omega (arith, length-append e.hash (be 8 e.pack_offset), length-be 8 e.pack_offset, h.0))
        h.2 in
    rw (a, b, c) refl

pub index_format-IsEntryFormat : IsEntryFormat index_format IsRow
index_format-IsEntryFormat = record {
  magic_length = refl;
  version_bound = omega arith;
  columns_bound = λ n h. omega arith;
  hash_length = λ n e h. h.0;
  columns_length = λ n e h. omega (
    arith,
    length-append (be 8 e.pack_offset) (be 8 e.stored_size),
    length-be 8 e.pack_offset,
    length-be 8 e.stored_size,
  );
  entry_back = entry_back;
}
