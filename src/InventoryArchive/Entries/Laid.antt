-- ===== src/InventoryArchive/Entries/Laid.antt =====
-- Entries that stand one behind the other in a file.
use dodder.Prelude.{
  ℕ, zero, suc, ◌+◌, ◌≤◌, ◌<◌, ◌≡◌, refl, ap, sym, ◌∙◌, subst, List, [], ◌∷◌, ◌++◌, append_assoc,
  true, false, leb, length, length-append, drop, Bytes, All, arith,
}
use dodder.InventoryArchive.{Outcome, ok}
use dodder.InventoryArchive.Entries.{then_read, read_from}
use dodder.InventoryArchive.Table.Columns.{drop_at}

module _ {E : Type 0} (read : ℕ → Bytes → Outcome (E × ℕ × Bytes)) (offset : E → ℕ) where
  -- the bytes of an entry at a position, its offset: whatever follows them, the entry is read, and what
  -- follows is left
  abbrev pub IsEntryAt : ℕ → Bytes → E → Type 0
  IsEntryAt pos row e =
      (16 ≤ length row)
      × ((after : Bytes) → read pos (row ++ after) ≡ ok (e, pos + length row, after))
      × (offset e ≡ pos)

  -- the bytes of the entries, of which the first stands at the position
  abbrev pub IsLaid : ℕ → Bytes → List E → Type 0
  IsLaid pos rows [] = rows ≡ []
  IsLaid pos rows (e ∷ es) =
      (row : Bytes) × (rest : Bytes) × (rows ≡ row ++ rest)
      × IsEntryAt pos row e
      × IsLaid (pos + length row) rest es

  pub length-IsLaid :
      (pos : ℕ) (rows : Bytes) (es : List E) → IsLaid pos rows es → length es ≤ length rows
  length-IsLaid pos rows [] h = omega arith
  length-IsLaid pos rows (e ∷ es) (row, rest, whole, at, laid) =
      let total : length rows ≡ length row + length rest =
        ap length whole ∙ length-append row rest in
      omega (arith, total, at.0, length-IsLaid (pos + length row) rest es laid)

  -- the loop reads them, and stops where they end
  pub read_from-IsLaid :
      (pos entries_end fuel : ℕ) (rows tail : Bytes) (es : List E)
      → IsLaid pos rows es
      → entries_end ≡ pos + length rows
      → length es < fuel
      → read_from read entries_end fuel pos (rows ++ tail) ≡ ok es
  unfolding read_from
  read_from-IsLaid pos entries_end zero rows tail es laid at_end enough = absurd (omega arith)
  read_from-IsLaid pos entries_end (suc fuel) rows tail [] laid at_end enough =
      let ended : leb entries_end pos ≡ true = ground (arith, ap length laid) in rw ended refl
  read_from-IsLaid pos entries_end (suc fuel) rows tail (e ∷ es) (row, rest, whole, at, laid) at_end
        enough =
      let total : length rows ≡ length row + length rest =
        ap length whole ∙ length-append row rest in
      let more : leb entries_end pos ≡ false = ground (arith, total, at.0) in
      let split : rows ++ tail ≡ row ++ (rest ++ tail) =
        ap (λ r. r ++ tail) whole ∙ append_assoc row rest tail in
      let here : read pos (rows ++ tail) ≡ ok (e, pos + length row, rest ++ tail) =
        ap (read pos) split ∙ at.1 (rest ++ tail) in
      let next =
        read_from-IsLaid (pos + length row) entries_end fuel rest tail es laid
          (omega (arith, total)) (omega arith) in
      rw (more, here, then_read, next) refl

  -- what is read at the place of an entry
  abbrev pub IsReadIn : Bytes → E → Type 0
  IsReadIn file e =
      (pos : ℕ) × (rest : Bytes) × (offset e ≤ length file)
      × (read (offset e) (drop (offset e) file) ≡ ok (e, pos, rest))

  -- each of them is read at its place
  pub IsReadIn-IsLaid :
      (file front rows tail : Bytes) (es : List E)
      → file ≡ front ++ (rows ++ tail)
      → IsLaid (length front) rows es
      → All (IsReadIn file) es
  IsReadIn-IsLaid file front rows tail [] whole laid = tt
  IsReadIn-IsLaid file front rows tail (e ∷ es) whole (row, rest, split, at, laid) =
      let here : file ≡ front ++ (row ++ (rest ++ tail)) =
        whole ∙ ap (λ r. front ++ r) (ap (λ r. r ++ tail) split ∙ append_assoc row rest tail) in
      let there : drop (length front) file ≡ row ++ (rest ++ tail) =
        ap (drop (length front)) here ∙ drop_at front (row ++ (rest ++ tail)) (length front) refl in
      let found : read (length front) (drop (length front) file)
          ≡ ok (e, length front + length row, rest ++ tail) =
        ap (read (length front)) there ∙ at.1 (rest ++ tail) in
      let inside : length front ≤ length file =
        omega (arith, ap length whole, length-append front (rows ++ tail)) in
      (
        (
          length front + length row,
          rest ++ tail,
          subst (λ o. o ≤ length file) (sym at.2) inside,
          subst (λ o. read o (drop o file) ≡ ok (e, length front + length row, rest ++ tail))
              (sym at.2) found,
        ),
        IsReadIn-IsLaid file (front ++ row) rest tail es
            (here ∙ sym (append_assoc front row (rest ++ tail)))
            (subst (λ k. IsLaid k rest es) (sym (length-append front row)) laid),
      )
