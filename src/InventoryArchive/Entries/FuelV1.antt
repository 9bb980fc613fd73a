-- ===== src/InventoryArchive/Entries/FuelV1.antt =====
-- The loop of `ReadAllEntries` of data_reader_v1.go: a round takes bytes, or it is the last.
use dodder.Prelude.{
  ℕ, suc, ◌+◌, ◌-◌, ◌<◌, ◌≡◌, ◌≢◌, Bool, true, false, ◌==◌, Bool-cases, inl, inr, if◌then◌else◌,
  Option, length, length-drop, drop, Bytes, arith,
}
use dodder.Wire.{un_be}
use dodder.InventoryArchive.{
  Outcome, ok, err, spins, unknown_entry_type, unsupported_compression, byte_to_compression,
}
use dodder.InventoryArchive.Payload.{Codec, Encryption, Body, read_full, read_hash, read_body}
use dodder.InventoryArchive.Entries.{read_from}
use dodder.InventoryArchive.Entries.Fuel.{
  Ensures, Ensures-bind, ends, Ensures-read_full, Ensures-read_hash, Ensures-read_body,
  Ensures-read_from, read_from-fuel,
}
use dodder.InventoryArchive.DataV1.{
  DataReaderV1, read_full_body, read_delta_body, read_entry_v1, read_all_data_v1,
}

Ensures-byte_to_compression : (b : ℕ) → Ensures (byte_to_compression b) (λ ct. Unit)
unfolding byte_to_compression
Ensures-byte_to_compression b = either (b == 0) (ok _) _ tt (
    either (b == 1) (ok _) _ tt
      (either (b == 2) (ok _) _ tt (either (b == 3) (ok _) (err unsupported_compression) tt tt)))
  where
    either :
        (c : Bool) (x y : Outcome Bytes)
        → Ensures x (λ ct. Unit)
        → Ensures y (λ ct. Unit)
        → Ensures (if c then x else y) (λ ct. Unit)
    either true x y hx hy = hx
    either false x y hx hy = hy

-- what is left is shorter by the bytes of a body
abbrev IsBehind : Bytes → ℕ × Bytes × Body × Bytes → Type 0
IsBehind rest t = length t.3 < length rest

Ensures-read_full_body :
    (codec : Codec) (ct : Bytes) (enc : Option Encryption) (rest : Bytes)
    → Ensures (read_full_body codec ct enc rest) (IsBehind rest)
unfolding read_full_body
Ensures-read_full_body codec ct enc rest =
    Ensures-bind (λ t. length t.1 < length rest) (IsBehind rest) (read_body codec ct enc rest) _
      (Ensures-read_body codec ct enc rest) (λ (body, rest1) h. h)

Ensures-read_delta_body :
    (codec : Codec) (n : ℕ) (ct : Bytes) (enc : Option Encryption) (rest : Bytes)
    → Ensures (read_delta_body codec n ct enc rest) (IsBehind rest)
unfolding read_delta_body
Ensures-read_delta_body codec n ct enc rest =
    Ensures-bind (λ t. length t.1 + 1 ≡ length rest) (IsBehind rest) (read_full 1 rest) _
      (Ensures-read_full 1 rest)
      (λ (algorithm, rest1) h1.
        Ensures-bind (λ t. length t.1 + n ≡ length rest1) (IsBehind rest) (read_full n rest1) _
          (Ensures-read_full n rest1)
          (λ (base, rest2) h2.
            Ensures-bind (λ t. length t.1 < length rest2) (IsBehind rest)
              (read_body codec ct enc rest2) _ (Ensures-read_body codec ct enc rest2)
              (λ (body, rest3) h3. omega arith)))

Ensures-kind :
    (codec : Codec) (n kind : ℕ) (ct : Bytes) (enc : Option Encryption) (rest : Bytes)
    → Ensures
        (if kind == 0
          then read_full_body codec ct enc rest
          else if kind == 1
          then read_delta_body codec n ct enc rest
          else err unknown_entry_type)
        (IsBehind rest)
Ensures-kind codec n kind ct enc rest = elim (Bool-cases (kind == 0)) [
  | inl full ↦ rw full (Ensures-read_full_body codec ct enc rest)
  | inr other ↦ rw other (elim (Bool-cases (kind == 1)) [
    | inl delta ↦ rw delta (Ensures-read_delta_body codec n ct enc rest)
    | inr unknown ↦ rw unknown tt
  ])
]

Ensures-read_entry_v1 :
    (codec : Codec) (n : ℕ) (enc : Option Encryption) (pos : ℕ) (rest : Bytes)
    → Ensures (read_entry_v1 codec n enc pos rest) (λ t. length t.2 < length rest)
unfolding read_entry_v1
Ensures-read_entry_v1 codec n enc pos rest =
    Ensures-bind (λ t. length t.1 + n ≡ length rest) (λ t. length t.2 < length rest)
      (read_hash n rest) _ (Ensures-read_hash n rest)
      (λ (h, rest1) h1.
        Ensures-bind (λ t. length t.1 + 1 ≡ length rest1) (λ t. length t.2 < length rest)
          (read_full 1 rest1) _ (Ensures-read_full 1 rest1)
          (λ (kind, rest2) h2.
            Ensures-bind (λ t. length t.1 + 1 ≡ length rest2) (λ t. length t.2 < length rest)
              (read_full 1 rest2) _ (Ensures-read_full 1 rest2)
              (λ (encoding, rest3) h3.
                Ensures-bind (λ ct. Unit) (λ t. length t.2 < length rest)
                  (byte_to_compression (un_be encoding)) _
                  (Ensures-byte_to_compression (un_be encoding))
                  (λ ct h4.
                    Ensures-bind (IsBehind rest3) (λ t. length t.2 < length rest) _ _
                      (Ensures-kind codec n (un_be kind) ct enc rest3)
                      (λ (algorithm, base, body, rest4) h5. omega arith)))))

-- `ReadAllEntries` of version 1 ends on every file, valid or not: its loop does not use up its fuel,
-- which is one more than the length of the file, and with more fuel it gives the same.
pub read_all_data_v1-ends :
    (codec : Codec) (r : DataReaderV1) (fuel : ℕ)
    → length r.file < fuel
    → (read_all_data_v1 codec r ≢ spins)
      × (read_from
            (read_entry_v1 codec r.hash_size r.encryption)
            (length r.file - (8 + r.hash_size))
            fuel
            r.data_start
            (drop r.data_start r.file)
          ≡ read_all_data_v1 codec r)
unfolding read_all_data_v1
read_all_data_v1-ends codec r fuel more =
    let read = read_entry_v1 codec r.hash_size r.encryption in
    let shorter = Ensures-read_entry_v1 codec r.hash_size r.encryption in
    let rest = drop r.data_start r.file in
    let entries_end = length r.file - (8 + r.hash_size) in
    let behind = length-drop r.data_start r.file in
    (
      ends (λ es. Unit) (read_all_data_v1 codec r)
          (Ensures-read_from read shorter entries_end (suc (length r.file)) r.data_start rest
            (omega arith)),
      read_from-fuel read shorter entries_end fuel (suc (length r.file)) r.data_start rest
          (omega arith) (omega arith),
    )
