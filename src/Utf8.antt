-- ===== src/Utf8.antt =====
-- Go's unicode/utf8, which the scanner and the comparisons of this repository read text by:
-- AppendRune, DecodeRune, and the runes of a string as a strings.Reader or `range` gives them.
pub mod RoundTrip
use dodder.Prelude.{
  ℕ, zero, suc, ◌+◌, ◌-◌, ◌*◌, ◌/◌, ◌%◌, List, [], ◌∷◌, ◌++◌, Bool, ◌&&◌, ◌||◌, ltb, leb, ◌==◌,
  if◌then◌else◌, length, drop, Bytes,
}

abbrev pub rune_error : ℕ
rune_error = 0xfffd

abbrev pub is_surrogate : ℕ → Bool
is_surrogate r = leb 0xd800 r && leb r 0xdfff

encode_three : ℕ → Bytes
encode_three r = (0xe0 + r / 4096) ∷ (0x80 + r / 64 % 64) ∷ (0x80 + r % 64) ∷ []

unfoldable pub encode_rune : ℕ → Bytes
unfolding encode_three
encode_rune r =
    if ltb r 0x80
    then r ∷ []
    else if ltb r 0x800
    then (0xc0 + r / 64) ∷ (0x80 + r % 64) ∷ []
    else if is_surrogate r || ltb 0x10ffff r
    then encode_three rune_error
    else if ltb r 0x10000
    then encode_three r
    else (0xf0 + r / 262144) ∷ (0x80 + r / 4096 % 64) ∷ (0x80 + r / 64 % 64) ∷ (0x80 + r % 64) ∷ []

-- the result of `DecodeRune`
pub record Decoded : Type 0 where
  pub char : ℕ
  pub width : ℕ

abbrev invalid : Decoded
invalid = record { char = rune_error; width = 1 }

between : ℕ → ℕ → ℕ → Bool
between lo hi b = leb lo b && leb b hi

decode_two : ℕ → Bytes → Decoded
decode_two a [] = invalid
decode_two a (b ∷ rest) =
    if between 0x80 0xbf b
    then record { char = (a - 0xc0) * 64 + (b - 0x80); width = 2 }
    else invalid

decode_three : ℕ → Bytes → Decoded
decode_three a [] = invalid
decode_three a (b ∷ []) = invalid
decode_three a (b ∷ c ∷ rest) =
    if between (if a == 0xe0 then 0xa0 else 0x80) (if a == 0xed then 0x9f else 0xbf) b
      && between 0x80 0xbf c
    then record { char = (a - 0xe0) * 4096 + (b - 0x80) * 64 + (c - 0x80); width = 3 }
    else invalid

decode_four : ℕ → Bytes → Decoded
decode_four a [] = invalid
decode_four a (b ∷ []) = invalid
decode_four a (b ∷ c ∷ []) = invalid
decode_four a (b ∷ c ∷ d ∷ rest) =
    if between (if a == 0xf0 then 0x90 else 0x80) (if a == 0xf4 then 0x8f else 0xbf) b
      && between 0x80 0xbf c
      && between 0x80 0xbf d
    then record {
      char = (a - 0xf0) * 262144 + (b - 0x80) * 4096 + (c - 0x80) * 64 + (d - 0x80);
      width = 4;
    }
    else invalid

unfoldable pub decode_rune : Bytes → Decoded
unfolding between decode_two decode_three decode_four
decode_rune [] = record { char = rune_error; width = 0 }
decode_rune (a ∷ rest) =
    if ltb a 0x80
    then record { char = a; width = 1 }
    else if between 0xc2 0xdf a
    then decode_two a rest
    else if between 0xe0 0xef a
    then decode_three a rest
    else if between 0xf0 0xf4 a
    then decode_four a rest
    else invalid

-- A decoded rune is at least one byte wide, so the number of bytes is enough fuel.
runes_from : ℕ → Bytes → List ℕ
runes_from fuel [] = []
runes_from zero (a ∷ rest) = []
runes_from (suc fuel) (a ∷ rest) =
    let d = decode_rune (a ∷ rest) in d.char ∷ runes_from fuel (drop d.width (a ∷ rest))

unfoldable pub runes : Bytes → List ℕ
unfolding runes_from
runes bites = runes_from (length bites) bites

unfoldable pub encode : List ℕ → Bytes
encode [] = []
encode (r ∷ rs) = encode_rune r ++ encode rs
