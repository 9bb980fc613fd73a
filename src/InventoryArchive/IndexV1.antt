-- ===== src/InventoryArchive/IndexV1.antt =====
-- index_v1.go of go/internal/alfa/inventory_archive: the index of a data file, version 1, whose entries
-- say whether they are deltas and of what.
pub mod Written
use dodder.Prelude.{
  ℕ, ◌+◌, ◌<◌, ◌≡◌, refl, ap, List, ◌∷◌, ◌++◌, append-nil, append_assoc, sym, ◌∙◌, Option, length,
  length-append, take, drop, Bytes, codes, arith,
}
use dodder.Wire.{u64_mod, be, un_be, length-be}
use dodder.InventoryArchive.{[], Outcome, ok, ◌>>=◌}
use dodder.InventoryArchive.Table.{EntryFormat, Reader}
use dodder.InventoryArchive.Table
use dodder.InventoryArchive.Table.Rows.{IsEntryFormat}
use dodder.InventoryArchive.Table.Columns.{take_at, number_at, tail_columns}
use mathlib.Core.Option

pub record IndexEntryV1 : Type 0 where
  pub hash : Bytes
  pub pack_offset : ℕ
  pub stored_size : ℕ
  pub entry_type : ℕ
  pub base_offset : ℕ

-- one row
abbrev pub entry_of_v1 : ℕ → Bytes → IndexEntryV1
entry_of_v1 n row = record {
  hash = take n row;
  pack_offset = un_be (take 8 (drop n row));
  stored_size = un_be (take 8 (drop (n + 8) row));
  entry_type = un_be (take 1 (drop (n + 16) row));
  base_offset = un_be (take 8 (drop (n + 17) row));
}

abbrev pub columns_v1 : IndexEntryV1 → Bytes
columns_v1 e =
    be 8 e.pack_offset ++ (be 8 e.stored_size ++ (be 1 e.entry_type ++ be 8 e.base_offset))

abbrev pub index_v1_format : EntryFormat IndexEntryV1
index_v1_format = record {
  magic = codes "MIAX";
  version = 1;
  hash = λ e. e.hash;
  columns = columns_v1;
  columns_size = λ n. 25;
  entry = entry_of_v1;
}

unfoldable pub write_index_v1 :
    (Bytes → Bytes → Bytes) → Bytes → List IndexEntryV1 → Outcome (Bytes × Bytes)
write_index_v1 digest id es = Table.write_index index_v1_format digest id es

unfoldable pub new_index_reader_v1 : Bytes → ℕ → Bytes → Outcome Reader
new_index_reader_v1 file total_size id = Table.new_index_reader index_v1_format file total_size id

-- what `LookupHash` gives of an entry
abbrev pub place : IndexEntryV1 → ℕ × ℕ × ℕ × ℕ
place e = (e.pack_offset, e.stored_size, e.entry_type, e.base_offset)

-- `LookupHash`: where the entry is and of what it is a delta, where the hash is found
unfoldable pub lookup_hash_v1 : Reader → Bytes → Outcome (Option (ℕ × ℕ × ℕ × ℕ))
lookup_hash_v1 r h = Table.lookup index_v1_format r h >>= λ e. ok (Option.map place e)

unfoldable pub read_all_entries_v1 : Reader → Outcome (List IndexEntryV1)
read_all_entries_v1 r = Table.read_all_entries index_v1_format r

-- an entry whose hash has the size of its format, whose numbers are machine words and whose type is a byte
abbrev pub IsRow : ℕ → IndexEntryV1 → Type 0
IsRow n e =
    (length e.hash ≡ n)
    × (e.pack_offset < u64_mod)
    × (e.stored_size < u64_mod)
    × (e.entry_type < 256)
    × (e.base_offset < u64_mod)

entry_back : (n : ℕ) (e : IndexEntryV1) → IsRow n e → entry_of_v1 n (e.hash ++ columns_v1 e) ≡ e
entry_back n e h =
    let rest = be 8 e.stored_size ++ (be 1 e.entry_type ++ be 8 e.base_offset) in
    let a = take_at e.hash (columns_v1 e) n h.0 in
    let b = number_at (e.hash ++ columns_v1 e) e.hash rest e.pack_offset n refl h.0 h.1 in
    let c =
      tail_columns (e.hash ++ columns_v1 e) (e.hash ++ be 8 e.pack_offset) (n + 8) (n + 16) (n + 17)
        e.stored_size e.entry_type e.base_offset
        (sym (append_assoc e.hash (be 8 e.pack_offset) rest))
        (omega (arith, length-append e.hash (be 8 e.pack_offset), length-be 8 e.pack_offset, h.0))
        (omega arith) (omega arith) h.2 h.3 h.4 in
    rw (a, b, c.0, c.1, c.2) refl

length-columns : (e : IndexEntryV1) → length (columns_v1 e) ≡ 25
length-columns e = omega (
  arith,
  length-append (be 8 e.pack_offset)
      (be 8 e.stored_size ++ (be 1 e.entry_type ++ be 8 e.base_offset)),
  length-append (be 8 e.stored_size) (be 1 e.entry_type ++ be 8 e.base_offset),
  length-append (be 1 e.entry_type) (be 8 e.base_offset),
  length-be 8 e.pack_offset,
  length-be 8 e.stored_size,
  length-be 1 e.entry_type,
  length-be 8 e.base_offset,
)

pub index_v1_format-IsEntryFormat : IsEntryFormat index_v1_format IsRow
index_v1_format-IsEntryFormat = record {
  magic_length = refl;
  version_bound = omega arith;
  columns_bound = λ n h. omega arith;
  hash_length = λ n e h. h.0;
  columns_length = λ n e h. length-columns e;
  entry_back = entry_back;
}
