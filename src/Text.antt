-- ===== src/Text.antt =====
-- Go's strings.TrimSpace, on the bytes of a text.
pub mod Trim
use dodder.Prelude.{
  ℕ, zero, suc, List, [], ◌∷◌, ◌++◌, Bool, true, false, ◌&&◌, if◌then◌else◌, length, take, drop,
  Bytes,
}
use dodder.Utf8.{Decoded, decode_rune}
use dodder.Doddish.Op.{is_space}

-- A rune is at least one byte wide, so in these loops the number of bytes is enough fuel.
trim_left_from : ℕ → Bytes → Bytes
trim_left_from fuel [] = []
trim_left_from zero (a ∷ rest) = a ∷ rest
trim_left_from (suc fuel) (a ∷ rest) =
    let d = decode_rune (a ∷ rest) in
    let more = trim_left_from fuel (drop d.width (a ∷ rest)) in
    if is_space d.char then more else a ∷ rest

is_nil : Bytes → Bool
is_nil [] = true
is_nil (a ∷ rest) = false

-- a space is dropped if nothing but spaces follows it
trim_right_from : ℕ → Bytes → Bytes
trim_right_from fuel [] = []
trim_right_from zero (a ∷ rest) = a ∷ rest
trim_right_from (suc fuel) (a ∷ rest) =
    let d = decode_rune (a ∷ rest) in
    let more = trim_right_from fuel (drop d.width (a ∷ rest)) in
    if is_space d.char && is_nil more then [] else take d.width (a ∷ rest) ++ more

unfoldable pub trim_space : Bytes → Bytes
unfolding trim_left_from trim_right_from is_nil
trim_space bites =
    let left = trim_left_from (length bites) bites in trim_right_from (length left) left
