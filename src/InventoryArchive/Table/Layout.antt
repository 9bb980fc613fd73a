-- ===== src/InventoryArchive/Table/Layout.antt =====
-- Where the parts of a written file stand, and what the reader finds there.
use dodder.Prelude.{
  ℕ, ◌+◌, ◌*◌, ◌≤◌, ◌<◌, ◌≡◌, refl, ap, sym, ◌∙◌, List, [], ◌∷◌, ◌++◌, append_assoc, true, ◌==◌,
  some, length, length-append, take, drop, take_prefix, drop_prefix, Bytes, bytes_eq, bytes_eq→eq,
  bytes_eq_refl, codes, arith,
}
use dodder.Wire.{u64_mod, be, un_be, length-be, un_be-be_2, un_be-be_8, read_at}
use dodder.Wire.At.{read_at_split}
use dodder.InventoryArchive.{ok, hash_size_for_format}
use dodder.InventoryArchive.Table.{
  EntryFormat, write_numbers, read_numbers, read_header, header_size,
}

named_length : (id name : Bytes) → bytes_eq id name ≡ true → length id ≡ length name
named_length id name h = ap length (bytes_eq→eq id name h)

-- the names of the formats are short, and their hashes have at most 64 bytes
pub format_bounds :
    (id : Bytes) (n : ℕ) → hash_size_for_format id ≡ some n → (length id ≤ 10) × (0 < n) × (n ≤ 64)
unfolding hash_size_for_format
format_bounds id n h = ground (
  arith,
  named_length id (codes "sha256"),
  named_length id (codes "sha512"),
  named_length id (codes "blake2b256"),
  named_length id (codes "blake2b512"),
)

pub length-write_numbers : (xs : List ℕ) → length (write_numbers xs) ≡ 8 * length xs
unfolding write_numbers
length-write_numbers [] = refl
length-write_numbers (x ∷ xs) =
    omega (arith, length-append (be 8 x) (write_numbers xs), length-be 8 x, length-write_numbers xs)

abbrev pub AllSmall : List ℕ → Type 0
AllSmall [] = Unit
AllSmall (x ∷ xs) = (x < u64_mod) × AllSmall xs

head_number : (x : ℕ) (rest : Bytes) → x < u64_mod → un_be (take 8 (be 8 x ++ rest)) ≡ x
head_number x rest h =
    let cut : take 8 (be 8 x ++ rest) ≡ be 8 x =
      rw (length-be 8 x) at (take_prefix (be 8 x) rest) in
    rw cut (un_be-be_8 x h)

tail_numbers : (x : ℕ) (rest : Bytes) → drop 8 (be 8 x ++ rest) ≡ rest
tail_numbers x rest = rw (length-be 8 x) at (drop_prefix (be 8 x) rest)

pub read_numbers-write_numbers :
    (xs : List ℕ) → AllSmall xs → read_numbers (length xs) (write_numbers xs) ≡ xs
unfolding read_numbers write_numbers
read_numbers-write_numbers [] h = refl
read_numbers-write_numbers (x ∷ xs) h =
    rw (head_number x (write_numbers xs) h.0, tail_numbers x (write_numbers xs))
      (ap (λ l. x ∷ l) (read_numbers-write_numbers xs h.1))

module _ {E : Type 0} (f : EntryFormat E) (id : Bytes) (count : ℕ) (table rest file : Bytes)
    (magic : length f.magic ≡ 4) (version : f.version < 65536) (short : length id ≤ 10)
    (small : count < u64_mod)
    (whole : file
      ≡ f.magic
        ++ (be 2 f.version ++ ((length id ∷ []) ++ (id ++ (be 8 count ++ (table ++ rest)))))) where
  -- what stands in front of the length of the format, of the format, of the count, of what follows it
  abbrev before_length : Bytes
  before_length = f.magic ++ be 2 f.version

  abbrev before_id : Bytes
  before_id = before_length ++ (length id ∷ [])

  abbrev before_count : Bytes
  before_count = before_id ++ id

  abbrev pub header_bytes : Bytes
  header_bytes = before_count ++ be 8 count

  split_length :
      file ≡ before_length ++ ((length id ∷ []) ++ (id ++ (be 8 count ++ (table ++ rest))))
  split_length = whole ∙ sym (append_assoc f.magic (be 2 f.version) _)

  split_id : file ≡ before_id ++ (id ++ (be 8 count ++ (table ++ rest)))
  split_id = split_length ∙ sym (append_assoc before_length (length id ∷ []) _)

  split_count : file ≡ before_count ++ (be 8 count ++ (table ++ rest))
  split_count = split_id ∙ sym (append_assoc before_id id _)

  pub split_table : file ≡ header_bytes ++ (table ++ rest)
  split_table = split_count ∙ sym (append_assoc before_count (be 8 count) _)

  length-before_length : length before_length ≡ 6
  length-before_length =
      omega (arith, length-append f.magic (be 2 f.version), length-be 2 f.version, magic)

  length-before_id : length before_id ≡ 7
  length-before_id =
      omega (arith, length-append before_length (length id ∷ []), length-before_length)

  length-before_count : length before_count ≡ 7 + length id
  length-before_count = omega (arith, length-append before_id id, length-before_id)

  pub length-header_bytes : length header_bytes ≡ header_size f id
  length-header_bytes =
      omega (arith, length-append before_count (be 8 count), length-before_count, length-be 8 count)

  at_magic : read_at file 0 4 ≡ some f.magic
  at_magic = read_at_split file [] f.magic _ 0 4 whole refl (sym magic) (omega arith)

  at_version : read_at file 4 2 ≡ some (be 2 f.version)
  at_version =
      read_at_split file f.magic (be 2 f.version) _ 4 2 whole (sym magic)
        (sym (length-be 2 f.version)) (omega (arith, magic))

  at_length : read_at file 6 1 ≡ some (length id ∷ [])
  at_length =
      read_at_split file before_length (length id ∷ []) _ 6 1 split_length
        (sym length-before_length) refl (omega (arith, length-before_length))

  at_id : read_at file 7 (length id) ≡ some id
  at_id =
      read_at_split file before_id id _ 7 (length id) split_id (sym length-before_id) refl
        (omega (arith, length-before_id))

  at_count : read_at file (7 + length id) 8 ≡ some (be 8 count)
  at_count =
      read_at_split file before_count (be 8 count) _ (7 + length id) 8 split_count
        (sym length-before_count) (sym (length-be 8 count)) (omega (arith, length-before_count))

  -- the table behind the header
  pub at_table : read_at file (header_size f id) (length table) ≡ some table
  at_table =
      read_at_split file header_bytes table rest (header_size f id) (length table) split_table
        (sym length-header_bytes) refl (omega (arith, length-header_bytes))

  pub read_header-eq : read_header f file id ≡ ok count
  unfolding read_header
  read_header-eq =
      let same_version : un_be (be 2 f.version) == f.version ≡ true =
        ground (arith, un_be-be_2 f.version) in
      rw (at_magic, bytes_eq_refl f.magic, at_version, same_version, at_length)
        (rw (at_id, bytes_eq_refl id, at_count, un_be-be_8 count small) refl)
