-- ===== src/InventoryArchive/Table.antt =====
-- What the index files (index_writer.go, index_reader.go, index_v1.go) and the cache file
-- (cache_writer.go, cache_reader.go) of go/internal/alfa/inventory_archive have in common: a header,
-- rows of one width in the order of their hashes, and a checksum. The code of the three is the same
-- but for what an `EntryFormat` holds.
pub mod Layout
pub mod Rows
pub mod FanOut
pub mod Search
pub mod Parts
pub mod Written
pub mod Columns
pub mod Checksum
use dodder.Prelude.{
  ℕ, zero, suc, ◌+◌, ◌-◌, ◌*◌, ◌/◌, ◌%◌, ◌^◌, List, [], ◌∷◌, ◌++◌, Bool, true, false, ◌==◌, ltb,
  leb, if◌then◌else◌, Option, none, some, length, take, drop, get_elem?, Bytes, bytes_eq,
}
use dodder.Wire.{u64_mod, be, un_be, Result, less, equal, greater, compare_bytes, read_at}
use dodder.InventoryArchive.{
  ArchiveError, not_sorted, hash_length, format_too_long, read_failed, invalid_magic,
  unsupported_version, unsupported_hash_format, format_mismatch, too_small, checksum_mismatch,
  Outcome, ok, err, panicked, ◌>>=◌, ◌>>◌, or_err, or_panic, hash_size_for_format,
}

pub record EntryFormat (E : Type 0) : Type 0 where
  pub magic : Bytes
  pub version : ℕ
  pub hash : E → Bytes
  -- the columns behind the hash, as they are written
  pub columns : E → Bytes
  -- their width, by the size of a hash
  pub columns_size : ℕ → ℕ
  -- an entry from its row, by the size of a hash
  pub entry : ℕ → Bytes → E

pub record Reader : Type 0 where
  pub file : Bytes
  pub total_size : ℕ
  pub hash_format_id : Bytes
  pub hash_size : ℕ
  pub entry_count : ℕ
  pub fan_out : List ℕ
  pub entries_start : ℕ

-- what `ReadAt` gives at an int64: a file does not reach to a negative offset, which is an error, and
-- a read that meets the end of the file gives io.EOF, which is then wrapped
abbrev pub row_read : ℕ → Option Bytes → Outcome Bytes
row_read offset none = if leb (2 ^ 63) offset then err read_failed else panicked
row_read offset (some row) = ok row

-- the first index of a byte slice
abbrev pub first_byte : Bytes → Outcome ℕ
first_byte [] = panicked
first_byte (b ∷ bites) = ok b

abbrev pub elem_at : List ℕ → ℕ → Outcome ℕ
elem_at [] i = panicked
elem_at (x ∷ xs) zero = ok x
elem_at (x ∷ xs) (suc i) = elem_at xs i

-- the numbers of a table, written and read
unfoldable pub write_numbers : List ℕ → Bytes
write_numbers [] = []
write_numbers (x ∷ xs) = be 8 x ++ write_numbers xs

unfoldable pub read_numbers : ℕ → Bytes → List ℕ
read_numbers zero buf = []
read_numbers (suc n) buf = un_be (take 8 buf) ∷ read_numbers n (drop 8 buf)

abbrev pub zeros : ℕ → List ℕ
zeros zero = []
zeros (suc n) = 0 ∷ zeros n

-- the loop that counts an entry at its first byte and behind it
unfoldable pub count_from : ℕ → List ℕ → List ℕ
count_from b [] = []
count_from zero (x ∷ table) = ((x + 1) % u64_mod) ∷ count_from zero table
count_from (suc b) (x ∷ table) = x ∷ count_from b table

module _ {E : Type 0} (f : EntryFormat E) where
  -- the first loop of `verifySorted`
  unfoldable pub verify_order : List E → Outcome (Unit {0})
  verify_order [] = ok tt
  verify_order (a ∷ []) = ok tt
  verify_order (a ∷ b ∷ es) = elim (compare_bytes (f.hash a) (f.hash b)) [
    | less ↦ verify_order (b ∷ es)
    | _ ↦ err not_sorted
  ]

  -- the second
  unfoldable pub verify_sizes : ℕ → List E → Outcome (Unit {0})
  verify_sizes hash_size [] = ok tt
  verify_sizes hash_size (e ∷ es) =
      let rest = verify_sizes hash_size es in
      if length (f.hash e) == hash_size then rest else err hash_length

  unfoldable pub verify_sorted : ℕ → List E → Outcome (Unit {0})
  unfolding verify_order verify_sizes
  verify_sorted hash_size es = verify_order es >> verify_sizes hash_size es

  unfoldable pub write_header : Bytes → ℕ → Outcome Bytes
  write_header id count =
      if ltb 255 (length id)
      then err format_too_long
      else ok (f.magic ++ (be 2 f.version ++ ((length id % 256) ∷ (id ++ be 8 count))))

  unfoldable pub fan_out_from : List ℕ → List E → Outcome (List ℕ)
  unfolding count_from
  fan_out_from table [] = ok table
  fan_out_from table (e ∷ es) = first_byte (f.hash e) >>= λ b. fan_out_from (count_from b table) es

  unfoldable pub write_fan_out : List E → Outcome Bytes
  unfolding fan_out_from write_numbers
  write_fan_out es = fan_out_from (zeros 256) es >>= λ table. ok (write_numbers table)

  unfoldable pub write_entries : List E → Bytes
  write_entries [] = []
  write_entries (e ∷ es) = (f.hash e ++ f.columns e) ++ write_entries es

  -- The file and its checksum. `digest` is the hash of that format, from Go's crypto packages.
  unfoldable pub write_index : (Bytes → Bytes → Bytes) → Bytes → List E → Outcome (Bytes × Bytes)
  unfolding verify_sorted write_header write_fan_out write_entries
  write_index digest id es = do
    hash_size ← or_err unsupported_hash_format (hash_size_for_format id)
    verify_sorted hash_size es
    header ← write_header id (length es % u64_mod)
    fan_out ← write_fan_out es
    let content = header ++ (fan_out ++ write_entries es)
    ok (content ++ digest id content, digest id content)

  -- `readHeader`: the number of entries
  unfoldable pub read_header : Bytes → Bytes → Outcome ℕ
  read_header file id = do
    magic ← or_panic (read_at file 0 4)
    if bytes_eq magic f.magic then ok tt else err invalid_magic
    version ← or_panic (read_at file 4 2)
    if un_be version == f.version then ok tt else err unsupported_version
    len ← or_panic (read_at file 6 1)
    n ← first_byte len
    file_id ← or_panic (read_at file 7 n)
    if bytes_eq file_id id then ok tt else err format_mismatch
    count ← or_panic (read_at file (7 + n) 8)
    ok (un_be count)

  abbrev pub header_size : Bytes → ℕ
  header_size id = 7 + length id + 8

  -- the fields that are set once the header and the table are read
  unfoldable pub reader_of : Bytes → ℕ → Bytes → ℕ → ℕ → Bytes → Reader
  unfolding read_numbers
  reader_of file total_size id hash_size count buf = record {
    file = file;
    total_size = total_size;
    hash_format_id = id;
    hash_size = hash_size;
    entry_count = count;
    fan_out = read_numbers 256 buf;
    entries_start = header_size id + 2048;
  }

  unfoldable pub new_index_reader : Bytes → ℕ → Bytes → Outcome Reader
  unfolding read_header reader_of
  new_index_reader file total_size id = do
    hash_size ← or_err unsupported_hash_format (hash_size_for_format id)
    count ← read_header file id
    buf ← or_panic (read_at file (header_size id) 2048)
    ok (reader_of file total_size id hash_size count buf)

  abbrev pub entry_size : ℕ → ℕ
  entry_size hash_size = hash_size + f.columns_size hash_size

  -- the offset is an int64, computed modulo 2 ^ 64
  unfoldable pub read_row_at : Reader → ℕ → Outcome E
  read_row_at r i = do
    let offset = (r.entries_start + i * entry_size r.hash_size) % u64_mod
    row ← row_read offset (read_at r.file offset (entry_size r.hash_size))
    ok (f.entry r.hash_size row)

  -- what a round does after the comparison
  unfoldable pub search_round :
      Result → E → Outcome (Option E) → Outcome (Option E) → Outcome (Option E)
  search_round equal e left right = ok (some e)
  search_round less e left right = left
  search_round greater e left right = right

  -- The binary search of `LookupHash`. A round makes the range smaller, so its size is enough fuel.
  unfoldable pub search : ℕ → Reader → Bytes → ℕ → ℕ → Outcome (Option E)
  unfolding read_row_at search_round
  search zero r h lo hi = ok none
  search (suc fuel) r h lo hi =
      let mid = lo + (hi - lo) / 2 in
      let left = search fuel r h lo mid in
      let right = search fuel r h (mid + 1) hi in
      let round =
        read_row_at r mid >>= λ e. search_round (compare_bytes h (f.hash e)) e left right in
      if ltb lo hi then round else ok none

  unfoldable pub lookup : Reader → Bytes → Outcome (Option E)
  unfolding search
  lookup r h =
      let found = (do
        b ← first_byte h
        lo ← if b == 0 then ok 0 else elem_at r.fan_out (b - 1)
        hi ← elem_at r.fan_out b
        search (hi - lo) r h lo hi) in
      if r.entry_count == 0 then ok none else found

  -- the loop of `ReadAllEntries`, at entry `i` with `todo` entries left
  unfoldable pub read_entries : Reader → ℕ → ℕ → Outcome (List E)
  unfolding read_row_at
  read_entries r i zero = ok []
  read_entries r i (suc todo) = do
    e ← read_row_at r i
    es ← read_entries r (i + 1) todo
    ok (e ∷ es)

  -- `make` panics on a length that is no int
  unfoldable pub read_all_entries : Reader → Outcome (List E)
  unfolding read_entries
  read_all_entries r =
      let es = read_entries r 0 r.entry_count in if leb (2 ^ 63) r.entry_count then panicked else es

-- `Validate`, on the fields of the reader
unfoldable pub validate_file : (Bytes → Bytes → Bytes) → Bytes → ℕ → ℕ → Bytes → Outcome (Unit {0})
validate_file digest file total_size hash_size id = do
  if ltb total_size hash_size then err too_small else ok tt
  stored ← or_panic (read_at file (total_size - hash_size) hash_size)
  content ← or_panic (read_at file 0 (total_size - hash_size))
  if bytes_eq (digest id content) stored then ok tt else err checksum_mismatch

unfoldable pub validate : (Bytes → Bytes → Bytes) → Reader → Outcome (Unit {0})
unfolding validate_file
validate digest r = validate_file digest r.file r.total_size r.hash_size r.hash_format_id
