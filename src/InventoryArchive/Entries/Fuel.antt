-- ===== src/InventoryArchive/Entries/Fuel.antt =====
-- The loop of `ReadAllEntries` of data_reader.go: a round takes bytes, or it is the last.
use dodder.Prelude.{
  ℕ, zero, suc, ◌+◌, ◌-◌, ◌^◌, ◌<◌, ◌≡◌, ◌≢◌, subst, none, some, drop, refl, ap, List, [], ◌∷◌,
  ◌==◌, Bool-cases, inl, inr, ltb, leb, if◌then◌else◌, Option, length, length-drop, Bytes, arith,
}
use dodder.Wire.{un_be}
use dodder.InventoryArchive.{
  ArchiveError, end_of_file, decryption_failed, decompression_failed, Outcome, ok, err, panicked,
  spins, ◌>>=◌,
}
use dodder.InventoryArchive.Payload.{
  Unpacked, unpacked, unpacked_eof, unpacked_err, or_wrapped, decrypt_if, wrap_reader, read_short,
  Codec, Encryption, load, read_full, read_hash, read_body,
}
use dodder.InventoryArchive.Entries.{then_read, read_from}
use dodder.InventoryArchive.Data.{DataReader, read_entry, read_all_data}

-- it ends, and this holds of the value, where there is one
abbrev pub Ensures {ℓ} : {A : Type ℓ} → Outcome A → (A → Type 0) → Type 0
Ensures (ok a) P = P a
Ensures (err e) P = Unit
Ensures panicked P = Unit
Ensures spins P = ⊥

pub Ensures-bind {ℓ κ} :
    {A : Type ℓ} {B : Type κ} (P : A → Type 0) (Q : B → Type 0) (m : Outcome A) (k : A → Outcome B)
    → Ensures m P
    → ((a : A) → P a → Ensures (k a) Q)
    → Ensures (m >>= k) Q
Ensures-bind P Q (ok a) k h next = next a h
Ensures-bind P Q (err e) k h next = tt
Ensures-bind P Q panicked k h next = tt
Ensures-bind P Q spins k h next = absurd h

pub ends {ℓ} : {A : Type ℓ} (P : A → Type 0) (m : Outcome A) → Ensures m P → m ≢ spins
ends P m h e = subst (λ x. Ensures x P) e h

Ensures-or_wrapped : (e : ArchiveError) (u : Unpacked) → Ensures (or_wrapped e u) (λ b. Unit)
Ensures-or_wrapped e (unpacked b) = tt
Ensures-or_wrapped e unpacked_eof = tt
Ensures-or_wrapped e unpacked_err = tt

Ensures-decrypt_if :
    (enc : Option Encryption) (stored : Bytes) → Ensures (decrypt_if enc stored) (λ b. Unit)
Ensures-decrypt_if none stored = tt
Ensures-decrypt_if (some e) stored = Ensures-or_wrapped decryption_failed (e.decrypt stored)

Ensures-load :
    (codec : Codec) (ct : Bytes) (enc : Option Encryption) (stored : Bytes)
    → Ensures (load codec ct enc stored) (λ b. Unit)
unfolding load
Ensures-load codec ct enc stored =
    Ensures-bind (λ b. Unit) (λ b. Unit) (decrypt_if enc stored) _ (Ensures-decrypt_if enc stored)
      (λ b h. Ensures-or_wrapped decompression_failed (wrap_reader codec ct b))

Ensures-int : (size : ℕ) → Ensures {0} (if leb (2 ^ 63) size then panicked else ok tt) (λ u. Unit)
Ensures-int size = elim (Bool-cases (leb (2 ^ 63) size)) [ inl e ↦ rw e tt | inr e ↦ rw e tt ]

Ensures-read_short :
    (P : Bytes × Bytes → Type 0) (rest : Bytes) → Ensures (read_short {A = Bytes × Bytes} rest) P
Ensures-read_short P [] = tt
Ensures-read_short P (b ∷ rest) = tt

module _ {E : Type 0} (read : ℕ → Bytes → Outcome (E × ℕ × Bytes))
    (shorter : (pos : ℕ) (rest : Bytes)
      → Ensures (read pos rest) (λ t. length t.2 < length rest)) where
  then_read-same :
      (step : Outcome (E × ℕ × Bytes)) (P : E × ℕ × Bytes → Type 0)
      (k k' : ℕ → Bytes → Outcome (List E))
      → Ensures step P
      → ((e : E) (pos : ℕ) (rest : Bytes) → P (e, pos, rest) → k pos rest ≡ k' pos rest)
      → then_read read step k ≡ then_read read step k'
  unfolding then_read
  then_read-same (ok (e, pos, rest)) P k k' h same =
      ap (λ m. m >>= λ es. ok (e ∷ es)) (same e pos rest h)
  then_read-same (err reason) P k k' h same = refl
  then_read-same panicked P k k' h same = refl
  then_read-same spins P k k' h same = absurd h

  Ensures-then_read :
      (step : Outcome (E × ℕ × Bytes)) (P : E × ℕ × Bytes → Type 0)
      (k : ℕ → Bytes → Outcome (List E))
      → Ensures step P
      → ((e : E) (pos : ℕ) (rest : Bytes) → P (e, pos, rest) → Ensures (k pos rest) (λ es. Unit))
      → Ensures (then_read read step k) (λ es. Unit)
  unfolding then_read
  Ensures-then_read (ok (e, pos, rest)) P k h next =
      Ensures-bind (λ es. Unit) (λ es. Unit) (k pos rest) _ (next e pos rest h) (λ es u. tt)
  Ensures-then_read (err reason) P k h next =
      elim reason as (λ x. Ensures (then_read read (err x) k) (λ es. Unit)) [
        | end_of_file ↦ tt
        | _ ↦ tt
      ]
  Ensures-then_read panicked P k h next = tt
  Ensures-then_read spins P k h next = absurd h

  pub Ensures-read_from :
      (entries_end fuel pos : ℕ) (rest : Bytes)
      → length rest < fuel
      → Ensures (read_from read entries_end fuel pos rest) (λ es. Unit)
  unfolding read_from
  Ensures-read_from entries_end zero pos rest a = absurd (omega arith)
  Ensures-read_from entries_end (suc fuel) pos rest a =
      let step =
        Ensures-then_read (read pos rest) (λ t. length t.2 < length rest)
          (read_from read entries_end fuel) (shorter pos rest)
          (λ e pos' rest' less. Ensures-read_from entries_end fuel pos' rest' (omega arith)) in
      elim (Bool-cases (leb entries_end pos)) [ inl e ↦ rw e tt | inr e ↦ rw e step ]

  -- any two fuels above the length of the rest give the same
  pub read_from-fuel :
      (entries_end fuel more pos : ℕ) (rest : Bytes)
      → length rest < fuel
      → length rest < more
      → read_from read entries_end fuel pos rest ≡ read_from read entries_end more pos rest
  unfolding read_from
  read_from-fuel entries_end zero more pos rest a b = absurd (omega arith)
  read_from-fuel entries_end (suc fuel) zero pos rest a b = absurd (omega arith)
  read_from-fuel entries_end (suc fuel) (suc more) pos rest a b =
      ap (λ step. if leb entries_end pos then ok [] else step)
        (then_read-same (read pos rest) (λ t. length t.2 < length rest)
          (read_from read entries_end fuel) (read_from read entries_end more) (shorter pos rest)
          (λ e pos' rest' less.
            read_from-fuel entries_end fuel more pos' rest' (omega arith) (omega arith)))

pub Ensures-read_full :
    (n : ℕ) (rest : Bytes) → Ensures (read_full n rest) (λ t. length t.1 + n ≡ length rest)
unfolding read_full
Ensures-read_full n rest = elim (Bool-cases (ltb (length rest) n)) [
  | inl short ↦ rw short (Ensures-read_short (λ t. length t.1 + n ≡ length rest) rest)
  | inr enough ↦ rw enough (ground (arith, enough, length-drop n rest))
]

pub Ensures-read_hash :
    (n : ℕ) (rest : Bytes) → Ensures (read_hash n rest) (λ t. length t.1 + n ≡ length rest)
unfolding read_hash
Ensures-read_hash n [] = elim (Bool-cases (n == 0)) [
  | inl empty ↦ rw empty (ground (arith, empty))
  | inr more ↦ rw more tt
]
Ensures-read_hash n (b ∷ rest) = Ensures-read_full n (b ∷ rest)

pub Ensures-read_body :
    (codec : Codec) (ct : Bytes) (enc : Option Encryption) (rest : Bytes)
    → Ensures (read_body codec ct enc rest) (λ t. length t.1 < length rest)
unfolding read_body
Ensures-read_body codec ct enc rest =
    Ensures-bind (λ t. length t.1 + 8 ≡ length rest) (λ t. length t.1 < length rest)
      (read_full 8 rest) _ (Ensures-read_full 8 rest)
      (λ (logical, rest1) h1.
        Ensures-bind (λ t. length t.1 + 8 ≡ length rest1) (λ t. length t.1 < length rest)
          (read_full 8 rest1) _ (Ensures-read_full 8 rest1)
          (λ (size, rest2) h2.
            Ensures-bind (λ u. Unit) (λ t. length t.1 < length rest)
              (if leb (2 ^ 63) (un_be size) then panicked else ok tt) _ (Ensures-int (un_be size))
              (λ u h3.
                Ensures-bind (λ t. length t.1 + un_be size ≡ length rest2)
                  (λ t. length t.1 < length rest) (read_full (un_be size) rest2) _
                  (Ensures-read_full (un_be size) rest2)
                  (λ (stored, rest3) h4.
                    Ensures-bind (λ c. Unit) (λ t. length t.1 < length rest)
                      (load codec ct enc stored) _ (Ensures-load codec ct enc stored)
                      (λ c h5. omega arith)))))

Ensures-read_entry :
    (codec : Codec) (n : ℕ) (ct : Bytes) (enc : Option Encryption) (pos : ℕ) (rest : Bytes)
    → Ensures (read_entry codec n ct enc pos rest) (λ t. length t.2 < length rest)
unfolding read_entry
Ensures-read_entry codec n ct enc pos rest =
    Ensures-bind (λ t. length t.1 + n ≡ length rest) (λ t. length t.2 < length rest)
      (read_hash n rest) _ (Ensures-read_hash n rest)
      (λ (h, rest1) h1.
        Ensures-bind (λ t. length t.1 < length rest1) (λ t. length t.2 < length rest)
          (read_body codec ct enc rest1) _ (Ensures-read_body codec ct enc rest1)
          (λ (body, rest2) h2. omega arith))

-- `ReadAllEntries` ends on every file, valid or not: its loop does not use up its fuel, which is one
-- more than the length of the file, and with more fuel it gives the same.
pub read_all_data-ends :
    (codec : Codec) (r : DataReader) (fuel : ℕ)
    → length r.file < fuel
    → (read_all_data codec r ≢ spins)
      × (read_from
            (read_entry codec r.hash_size r.compression_type r.encryption)
            (length r.file - (8 + r.hash_size))
            fuel
            r.data_start
            (drop r.data_start r.file)
          ≡ read_all_data codec r)
unfolding read_all_data
read_all_data-ends codec r fuel more =
    let read = read_entry codec r.hash_size r.compression_type r.encryption in
    let shorter = Ensures-read_entry codec r.hash_size r.compression_type r.encryption in
    let rest = drop r.data_start r.file in
    let entries_end = length r.file - (8 + r.hash_size) in
    let behind = length-drop r.data_start r.file in
    (
      ends (λ es. Unit) (read_all_data codec r)
          (Ensures-read_from read shorter entries_end (suc (length r.file)) r.data_start rest
            (omega arith)),
      read_from-fuel read shorter entries_end fuel (suc (length r.file)) r.data_start rest
          (omega arith) (omega arith),
    )
