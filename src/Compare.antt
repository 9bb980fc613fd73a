-- ===== src/Compare.antt =====
-- go/lib/alfa/cmp/bytes.go: the comparison of UTF-8 texts, on `ComparableBytes`.
pub mod Order
mod Tests
use dodder.Prelude.{
  ℕ, zero, suc, List, [], ◌∷◌, Bool, true, false, ◌==◌, ◌||◌, ltb, if◌then◌else◌, length, drop,
  Bytes,
}
use dodder.Run.{Run, done, panic}
use dodder.Utf8.{Decoded, decode_rune, rune_error}

-- `result` of go/lib/alfa/cmp/result.go
pub data Result : Type 0 where
  less equal greater : Result

-- The loop of `CompareUTF8`. It takes at least one byte of the left text a round, so the number of
-- these bytes is enough fuel. In the case of an empty left text the right one is not empty, so that
-- `lenRight <= lenLeft` does not hold.
unfoldable pub compare_from : ℕ → Bool → Bytes → Bytes → Run Result
compare_from fuel partial [] [] = done equal
compare_from fuel partial [] (b ∷ right) = done less
compare_from fuel partial (a ∷ left) [] = done (if partial then equal else greater)
compare_from zero partial (a ∷ left) (b ∷ right) = panic
compare_from (suc fuel) partial (a ∷ left) (b ∷ right) =
    let l = decode_rune (a ∷ left) in
    let r = decode_rune (b ∷ right) in
    let more = compare_from fuel partial (drop l.width (a ∷ left)) (drop r.width (b ∷ right)) in
    if (l.char == rune_error) || (r.char == rune_error)
    then panic
    else if ltb l.char r.char
    then done less
    else if ltb r.char l.char
    then done greater
    else more

unfoldable pub compare_utf8 : Bytes → Bytes → Bool → Run Result
unfolding compare_from
compare_utf8 [] [] partial = done equal
compare_utf8 [] (b ∷ right) partial = done less
compare_utf8 (a ∷ left) [] partial = done greater
compare_utf8 (a ∷ left) (b ∷ right) partial =
    compare_from (length (a ∷ left)) partial (a ∷ left) (b ∷ right)
