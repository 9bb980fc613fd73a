-- ===== src/Catgut/Slice.antt =====
-- go/lib/delta/catgut/slice.go: bytes that lie in two parts, as a ring buffer holds them. The
-- position of the first byte in the stream, which only diagnostics read, is left out.
pub mod Flat
use dodder.Prelude.{
  ℕ, zero, suc, ◌+◌, ◌-◌, ◌≤◌, ◌<◌, ◌≡◌, ◌≢◌, refl, sym, ap, ◌∙◌, List, [], ◌∷◌, ◌++◌, Bool, true,
  false, ltb, leb, ◌==◌, ◌||◌, if◌then◌else◌, Option, none, some, length, take, drop, Bytes, arith,
  append_assoc,
}
use mathlib.Core.Option
use dodder.Run.{Run, done, panic, ◌>>=◌, index}
use dodder.Wire.{Result, equal, compare_bytes}

pub record Slice : Type 0 where
  pub first : Bytes
  pub second : Bytes

-- `xs[from:to]`, which panics out of range
unfoldable pub sub_slice : Bytes → ℕ → ℕ → Run Bytes
sub_slice xs from to =
    if ltb to from || ltb (length xs) to then panic else done (take (to - from) (drop from xs))

abbrev pub len : Slice → ℕ
len s = length s.first + length s.second

unfoldable pub is_empty : Slice → Bool
is_empty s = len s == 0

unfoldable pub bytes : Slice → Bytes
bytes s =
    if length s.first == len s
    then s.first
    else if length s.second == len s
    then s.second
    else s.first ++ s.second

unfoldable pub first_byte : Slice → Run ℕ
first_byte s =
    if ltb 0 (length s.first)
    then index s.first 0
    else if ltb 0 (length s.second)
    then index s.second 0
    else panic

unfoldable pub last_byte : Slice → Run ℕ
last_byte s =
    if ltb 0 (length s.second)
    then index s.second (length s.second - 1)
    else if ltb 0 (length s.first)
    then index s.first (length s.first - 1)
    else panic

-- `Slice`; the ends are not negative
unfoldable pub slice : Slice → ℕ → ℕ → Run Slice
unfolding sub_slice
slice s left right =
    let first = length s.first in
    if ltb right left || ltb (len s) left || ltb (len s) right
    then panic
    else if ltb right first
    then (do part ← sub_slice s.first left right; done (record { first = part; second = [] }))
    else if ltb first left
    then (do
      part ← sub_slice s.second (left - first) (right - first)
      done (record { first = part; second = [] }))
    else do
      head ← sub_slice s.first left first
      tail ← sub_slice s.second 0 (right - first)
      done (record { first = head; second = tail })

-- `BytesBetween`; its last case, a range that begins in the first part and does not end before the
-- end of it, slices the second part from a negative index, which panics
unfoldable pub bytes_between : Slice → ℕ → ℕ → Run Bytes
unfolding sub_slice
bytes_between s left right =
    let first = length s.first in
    if ltb right left
    then panic
    else if ltb right first
    then sub_slice s.first left right
    else if leb first left
    then sub_slice s.second (left - first) (right - first)
    else panic

-- what a loop over bytes finds: the bytes before the first `b` and those after it
unfoldable pub split_at : ℕ → Bytes → Option (Bytes × Bytes)
split_at b [] = none
split_at b (x ∷ xs) =
    if x == b then some ([], xs) else Option.map (λ (y, z). (x ∷ y, z)) (split_at b xs)

-- `Cut`, without its last result, which says whether there is one
unfoldable pub cut : Slice → ℕ → Option (Slice × Slice)
cut s b = elim (split_at b s.first) [
  | some (y, z) ↦ some (record { first = y; second = [] }, record { first = z; second = s.second })
  | none ↦ elim (split_at b s.second) [
    | some (y, z) ↦ some (record { first = s.first; second = y }, record { first = z; second = [] })
    | none ↦ none
  ]
]

unfoldable pub slice_upto_but_excluding : Slice → ℕ → Option Slice
slice_upto_but_excluding s b = elim (split_at b s.first) [
  | some (y, z) ↦ some (record { first = y; second = [] })
  | none ↦ elim (split_at b s.second) [
    | some (y, z) ↦ some (record { first = s.first; second = y })
    | none ↦ none
  ]
]

unfoldable pub slice_upto_and_including : Slice → ℕ → Option Slice
slice_upto_and_including s b = elim (split_at b s.first) [
  | some (y, z) ↦ some (record { first = y ++ b ∷ []; second = [] })
  | none ↦ elim (split_at b s.second) [
    | some (y, z) ↦ some (record { first = s.first; second = y ++ b ∷ [] })
    | none ↦ none
  ]
]

-- the loop of `Equal` over one part, with what is left of the other bytes
same_from : Bytes → Bytes → Run (Option Bytes)
same_from [] b = done (some b)
same_from (x ∷ xs) [] = panic
same_from (x ∷ xs) (y ∷ b) = let rest = same_from xs b in if x == y then rest else done none

unfoldable pub equal_bytes : Slice → Bytes → Run Bool
unfolding same_from
equal_bytes s b = if ltb (length b) (len s) then done false else do
  rest ← same_from s.first b
  elim rest [
    | none ↦ done false
    | some b' ↦ same_from s.second b' >>= λ r. elim r [ none ↦ done false | some _ ↦ done true ]
  ]

unfoldable pub compare_slice : Slice → Bytes → Result
compare_slice s b =
    let first = length s.first in
    let c =
      if ltb (length b) first
      then compare_bytes b s.first
      else compare_bytes (take first b) s.first in
    if ltb first (length b)
    then elim c [ equal ↦ compare_bytes (drop first b) s.second | other ↦ other ]
    else c
