-- ===== src/InventoryArchive/Entries.antt =====
-- The loop of `ReadAllEntries` in data_reader.go and data_reader_v1.go, over the way an entry is read at a
-- position: the entry, and the position and the rest of the file behind it.
pub mod Laid
pub mod Fuel
pub mod FuelV1
use dodder.Prelude.{ℕ, zero, suc, List, [], ◌∷◌, leb, if◌then◌else◌, Bytes}
use dodder.InventoryArchive.{ArchiveError, end_of_file, Outcome, ok, err, panicked, spins, ◌>>=◌}

module _ {E : Type 0} (read : ℕ → Bytes → Outcome (E × ℕ × Bytes)) where
  -- what a round does after it read: the end of the file ends the loop
  unfoldable pub then_read :
      Outcome (E × ℕ × Bytes) → (ℕ → Bytes → Outcome (List E)) → Outcome (List E)
  then_read (ok (e, pos, rest)) k = k pos rest >>= λ es. ok (e ∷ es)
  then_read (err reason) k = elim reason [ end_of_file ↦ ok [] | other ↦ err other ]
  then_read panicked k = panicked
  then_read spins k = spins

  -- the loop, with fuel for its rounds
  unfoldable pub read_from : ℕ → ℕ → ℕ → Bytes → Outcome (List E)
  unfolding then_read
  read_from entries_end zero pos rest = spins
  read_from entries_end (suc fuel) pos rest =
      let step = then_read (read pos rest) (read_from entries_end fuel) in
      if leb entries_end pos then ok [] else step
