-- ===== src/ObjectProbeIndex.antt =====
-- go/internal/hotel/object_probe_index: the rows of a page, which say where the object with a digest
-- stands, and how Flush puts the added rows between those of the page's file. A file is the list of
-- its rows, and reading it may end by an error; the digests of a page have one format.
pub mod Last
pub mod Flush
pub mod Digests
mod Tests
use dodder.Prelude.{
  ℕ, ◌≡◌, refl, List, [], ◌∷◌, Bool, true, false, ◌==◌, ◌&&◌, if◌then◌else◌, Option, none, some,
  Bytes, bytes_eq, map,
}
use dodder.Wire
use dodder.Wire.{compare_bytes}
use dodder.Compare.{Result, less, equal, greater}
use dodder.Merge.{Item, element, no_element, failed, merge_seq_error_left}
use dodder.Merge.Plain.{items}

pub record Loc : Type 0 where
  pub page : ℕ
  pub offset : ℕ
  pub content_length : ℕ

pub record Row : Type 0 where
  pub digest : Bytes
  pub loc : Loc

-- `result` of package cmp
unfoldable pub to_result : Wire.Result → Result
to_result Wire.Result.less = less
to_result Wire.Result.equal = equal
to_result Wire.Result.greater = greater

-- `cmp.Bytes`
unfoldable pub cmp_bytes : Bytes → Bytes → Result
cmp_bytes x y = to_result (compare_bytes x y)

unfoldable pub cmp_digests : Row → Row → Result
cmp_digests x y = cmp_bytes x.digest y.digest

-- `rowEqualerDigestOnly`
unfoldable pub equals_digest : Row → Row → Bool
equals_digest x y = bytes_eq x.digest y.digest

-- `rowEqualerComplete`
unfoldable pub equals_complete : Row → Row → Bool
equals_complete x y =
    bytes_eq x.digest y.digest
    && (x.loc.page == y.loc.page)
    && (x.loc.offset == y.loc.offset)
    && (x.loc.content_length == y.loc.content_length)

-- what `flushNew` has written, and the error that ended it
pub record Written (E : Type 0) : Type 0 where
  pub rows : List E
  pub err : Option ℕ

abbrev pub written : {E : Type 0} → List E → Option ℕ → Written E
written rows err = record { rows = rows; err = err }

module _ {E : Type 0} (equals : E → E → Bool) where
  abbrev pub then_write : E → Written E → Written E
  then_write p w = written (p ∷ w.rows) w.err

  -- the loop of `flushNew` with a pending row, which is written when a row follows that is not
  -- equal to it, or at the end; the loop dereferences each row
  unfoldable pub write_from : E → List (Item E) → Option (Written E)
  write_from p [] = some (written (p ∷ []) none)
  write_from p (failed x ∷ rest) = some (written [] (some x))
  write_from p (no_element ∷ rest) = none
  write_from p (element c ∷ rest) =
      let later = write_from c rest in
      if equals p c then later else elim later [ none ↦ none | some w ↦ some (then_write p w) ]

  unfoldable pub write_rows : List (Item E) → Option (Written E)
  unfolding write_from
  write_rows [] = some (written [] none)
  write_rows (failed x ∷ rest) = some (written [] (some x))
  write_rows (no_element ∷ rest) = none
  write_rows (element c ∷ rest) = write_from c rest

  -- `flushNew`, with what the heap of the added rows gives; `none` where a row is nil
  unfoldable pub flush_new : (E → E → Result) → List E → List (Item E) → Option (Written E)
  unfolding write_rows merge_seq_error_left
  flush_new cmp added file = elim (merge_seq_error_left cmp (items added) file) [
    | none ↦ none
    | some out ↦ write_rows out
  ]
