-- ===== src/Utf8/RoundTrip.antt =====
-- Reading back what was encoded.
use native.Mathlib.Decide.{dec_lt}
use dodder.Prelude.{
  ℕ, zero, suc, ◌+◌, ◌/◌, ◌%◌, ◌≤◌, ◌<◌, ◌≡◌, ◌⊎◌, refl, List, [], ◌∷◌, ◌++◌, append_assoc, length,
  length-append, drop_prefix, Bytes, All, arith, ap,
}
use dodder.Utf8.{encode_rune, decode_rune, runes_from, runes, encode}

-- a code point that is no surrogate
abbrev pub IsRune : ℕ → Type 0
IsRune r = (r < 0xd800) ⊎ ((0xe000 ≤ r) × (r < 0x110000))

pub encode_rune-ascii : (r : ℕ) → r < 0x80 → encode_rune r ≡ r ∷ []
unfolding encode_rune
encode_rune-ascii r h = ground arith

encode_rune_two :
    (r : ℕ) → 0x80 ≤ r → r < 0x800 → encode_rune r ≡ (0xc0 + r / 64) ∷ (0x80 + r % 64) ∷ []
unfolding encode_rune
encode_rune_two r lo hi = ground arith

encode_rune_three :
    (r : ℕ)
    → 0x800 ≤ r
    → IsRune r
    → r < 0x10000
    → encode_rune r ≡ (0xe0 + r / 4096) ∷ (0x80 + r / 64 % 64) ∷ (0x80 + r % 64) ∷ []
unfolding encode_rune
encode_rune_three r lo v hi = ground arith

encode_rune_four :
    (r : ℕ)
    → 0x10000 ≤ r
    → r < 0x110000
    → encode_rune r
      ≡ (0xf0 + r / 262144) ∷ (0x80 + r / 4096 % 64) ∷ (0x80 + r / 64 % 64) ∷ (0x80 + r % 64) ∷ []
unfolding encode_rune
encode_rune_four r lo hi = ground arith

decode_one :
    (r : ℕ) (rest : Bytes) → r < 0x80 → decode_rune (r ∷ rest) ≡ record { char = r; width = 1 }
unfolding decode_rune
decode_one r rest h = ground arith

decode_two_lem :
    (r : ℕ) (rest : Bytes)
    → 0x80 ≤ r
    → r < 0x800
    → decode_rune ((0xc0 + r / 64) ∷ (0x80 + r % 64) ∷ rest) ≡ record { char = r; width = 2 }
unfolding decode_rune
decode_two_lem r rest lo hi = ground arith

decode_three_lem :
    (r : ℕ) (rest : Bytes)
    → 0x800 ≤ r
    → IsRune r
    → r < 0x10000
    → decode_rune ((0xe0 + r / 4096) ∷ (0x80 + r / 64 % 64) ∷ (0x80 + r % 64) ∷ rest)
      ≡ record { char = r; width = 3 }
unfolding decode_rune
decode_three_lem r rest lo v hi = ground arith

decode_four_lem :
    (r : ℕ) (rest : Bytes)
    → 0x10000 ≤ r
    → r < 0x110000
    → decode_rune (
        (0xf0 + r / 262144)
        ∷ (0x80 + r / 4096 % 64)
        ∷ (0x80 + r / 64 % 64)
        ∷ (0x80 + r % 64)
        ∷ rest)
      ≡ record { char = r; width = 4 }
unfolding decode_rune
decode_four_lem r rest lo hi = ground arith

pub decode-encode_rune :
    (r : ℕ) (rest : Bytes)
    → IsRune r
    → decode_rune (encode_rune r ++ rest) ≡ record { char = r; width = length (encode_rune r) }
decode-encode_rune r rest v = elim (dec_lt r 0x80) [
  | yes a ↦ rw (encode_rune-ascii r a) (decode_one r rest a)
  | no a ↦ elim (dec_lt r 0x800) [
    | yes b ↦ rw (encode_rune_two r (omega arith) b) (decode_two_lem r rest (omega arith) b)
    | no b ↦ elim (dec_lt r 0x10000) [
      | yes c ↦
          rw (encode_rune_three r (omega arith) v c) (decode_three_lem r rest (omega arith) v c)
      | no c ↦
          rw (encode_rune_four r (omega arith) (omega arith))
            (decode_four_lem r rest (omega arith) (omega arith))
    ]
  ]
]

-- no rune is written as nothing, whether it is one or not
pub encode_rune-pos : (r : ℕ) → 0 < length (encode_rune r)
unfolding encode_rune
encode_rune-pos r = ground arith

runes_from-step :
    (fuel : ℕ) (r : ℕ) (rest : Bytes)
    → IsRune r
    → runes_from (suc fuel) (encode_rune r ++ rest) ≡ r ∷ runes_from fuel rest
unfolding runes_from
runes_from-step fuel r rest v = go (encode_rune r) refl
  where
    go :
        (bites : Bytes)
        → encode_rune r ≡ bites
        → runes_from (suc fuel) (bites ++ rest) ≡ r ∷ runes_from fuel rest
    go [] e = absurd (omega (arith, encode_rune-pos r, ap length e))
    go (a ∷ bites) e =
        let d : decode_rune (a ∷ (bites ++ rest))
            ≡ record { char = r; width = length (a ∷ bites) } =
          rw e at (decode-encode_rune r rest v) in
        rw d (rw (drop_prefix bites rest) refl)

runes_from-encode :
    (fuel : ℕ) (rs : List ℕ)
    → All IsRune rs
    → length (encode rs) ≤ fuel
    → runes_from fuel (encode rs) ≡ rs
unfolding encode
runes_from-encode fuel [] h fits = unfold runes_from in refl
runes_from-encode zero (r ∷ rs) h fits =
    absurd (omega (arith, encode_rune-pos r, length-append (encode_rune r) (encode rs)))
runes_from-encode (suc fuel) (r ∷ rs) h fits = rw (runes_from-step fuel r (encode rs) h.0) (
    ap (λ t. r ∷ t)
      (runes_from-encode fuel rs h.1
        (omega (arith, encode_rune-pos r, length-append (encode_rune r) (encode rs)))))

-- The runes of an encoded text are the runes that were encoded.
pub runes-encode : (rs : List ℕ) → All IsRune rs → runes (encode rs) ≡ rs
unfolding runes
runes-encode rs h = runes_from-encode (length (encode rs)) rs h (omega arith)

pub encode-append : (xs ys : List ℕ) → encode (xs ++ ys) ≡ encode xs ++ encode ys
unfolding encode
encode-append [] ys = refl
encode-append (x ∷ xs) ys = rw (encode-append xs ys, append_assoc)
