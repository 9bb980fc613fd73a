-- ===== src/Wire.antt =====
-- What the file formats use of Go's encoding/binary, bytes and io: numbers in big-endian order, the
-- comparison of byte strings, and reading at an offset.
pub mod Order
pub mod At
use dodder.Prelude.{
  ℕ, zero, suc, ◌+◌, ◌*◌, ◌/◌, ◌%◌, ◌^◌, ◌≤◌, ◌<◌, ◌≡◌, refl, List, [], ◌∷◌, ◌++◌, Bool, true,
  false, ltb, leb, if◌then◌else◌, Option, none, some, length, take, drop, Bytes, arith,
}

abbrev pub u64_mod : ℕ
u64_mod = 2 ^ 64

-- the `w` bytes of a number, the highest first
unfoldable pub be : ℕ → ℕ → Bytes
be zero n = []
be (suc w) n = (n / 256 ^ w % 256) ∷ be w n

unfoldable pub un_be_from : ℕ → Bytes → ℕ
un_be_from acc [] = acc
un_be_from acc (b ∷ bites) = un_be_from (acc * 256 + b) bites

unfoldable pub un_be : Bytes → ℕ
unfolding un_be_from
un_be bites = un_be_from 0 bites

pub length-be : (w n : ℕ) → length (be w n) ≡ w
unfolding be
length-be zero n = refl
length-be (suc w) n = omega (arith, length-be w n)

pub un_be-be_8 : (n : ℕ) → n < u64_mod → un_be (be 8 n) ≡ n
unfolding be un_be
un_be-be_8 n h = omega arith

pub un_be-be_1 : (n : ℕ) → n < 256 → un_be (be 1 n) ≡ n
unfolding be un_be
un_be-be_1 n h = omega arith

pub un_be-be_2 : (n : ℕ) → n < 65536 → un_be (be 2 n) ≡ n
unfolding be un_be
un_be-be_2 n h = omega arith

pub data Result : Type 0 where
  less equal greater : Result

-- bytes.Compare
unfoldable pub compare_bytes : Bytes → Bytes → Result
compare_bytes [] [] = equal
compare_bytes [] (b ∷ y) = less
compare_bytes (a ∷ x) [] = greater
compare_bytes (a ∷ x) (b ∷ y) =
    let rest = compare_bytes x y in if ltb a b then less else if ltb b a then greater else rest

-- `ReadAt` of an io.ReaderAt on a file with these bytes, into a buffer of `n` bytes: an error where
-- the offset, an int64, is negative, or the file ends before the buffer is full
unfoldable pub read_at : Bytes → ℕ → ℕ → Option Bytes
read_at file offset n =
    if leb (2 ^ 63) offset
    then none
    else if ltb (length file) (offset + n)
    then none
    else some (take n (drop offset file))
