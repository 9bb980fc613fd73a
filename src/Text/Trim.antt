-- ===== src/Text/Trim.antt =====
-- strings.TrimSpace on encoded runes that are no spaces.
use dodder.Prelude.{
  ◌<◌, append_assoc, ℕ, zero, suc, ◌≤◌, ◌≡◌, refl, ap, ◌∙◌, List, [], ◌∷◌, ◌++◌, false, length,
  length-append, take_prefix, drop_prefix, Bytes, All, arith,
}
use dodder.Utf8.{decode_rune, encode_rune, encode}
use dodder.Utf8.RoundTrip.{IsRune, decode-encode_rune, encode_rune-pos}
use dodder.Doddish.Op.{is_space}
use dodder.Text.{is_nil, trim_left_from, trim_right_from, trim_space}

-- a rune that is no space
abbrev pub IsInk : ℕ → Type 0
IsInk c = IsRune c × (is_space c ≡ false)

module _ (fuel c : ℕ) (rest : Bytes) (h : IsInk c) where
  trim_left_from-step : trim_left_from (suc fuel) (encode_rune c ++ rest) ≡ encode_rune c ++ rest
  unfolding trim_left_from
  trim_left_from-step = go (encode_rune c) refl
    where
      go :
          (bites : Bytes)
          → encode_rune c ≡ bites
          → trim_left_from (suc fuel) (bites ++ rest) ≡ bites ++ rest
      go [] e = absurd (omega (arith, encode_rune-pos c, ap length e))
      go (a ∷ bites) e =
          let d : decode_rune (a ∷ (bites ++ rest))
              ≡ record { char = c; width = length (a ∷ bites) } =
            rw e at (decode-encode_rune c rest h.0) in
          rw (d, h.1) refl

  trim_right_from-step :
      trim_right_from (suc fuel) (encode_rune c ++ rest)
      ≡ encode_rune c ++ trim_right_from fuel rest
  unfolding trim_right_from
  trim_right_from-step = go (encode_rune c) refl
    where
      go :
          (bites : Bytes)
          → encode_rune c ≡ bites
          → trim_right_from (suc fuel) (bites ++ rest) ≡ bites ++ trim_right_from fuel rest
      go [] e = absurd (omega (arith, encode_rune-pos c, ap length e))
      go (a ∷ bites) e =
          let d : decode_rune (a ∷ (bites ++ rest))
              ≡ record { char = c; width = length (a ∷ bites) } =
            rw e at (decode-encode_rune c rest h.0) in
          rw (d, h.1) (rw (take_prefix bites rest, drop_prefix bites rest) refl)

trim_right_from-encode :
    (fuel : ℕ) (cs : List ℕ)
    → All IsInk cs
    → length (encode cs) ≤ fuel
    → trim_right_from fuel (encode cs) ≡ encode cs
unfolding encode
trim_right_from-encode fuel [] h fits = unfold trim_right_from in refl
trim_right_from-encode zero (c ∷ cs) h fits =
    absurd (omega (arith, encode_rune-pos c, length-append (encode_rune c) (encode cs)))
trim_right_from-encode (suc fuel) (c ∷ cs) h fits =
    trim_right_from-step fuel c (encode cs) h.0
    ∙ ap (λ b. encode_rune c ++ b)
        (trim_right_from-encode fuel cs h.1
          (omega (arith, encode_rune-pos c, length-append (encode_rune c) (encode cs))))

trim_left_from-encode :
    (fuel : ℕ) (cs : List ℕ)
    → All IsInk cs
    → length (encode cs) ≤ fuel
    → trim_left_from fuel (encode cs) ≡ encode cs
unfolding encode
trim_left_from-encode fuel [] h fits = unfold trim_left_from in refl
trim_left_from-encode zero (c ∷ cs) h fits =
    absurd (omega (arith, encode_rune-pos c, length-append (encode_rune c) (encode cs)))
trim_left_from-encode (suc fuel) (c ∷ cs) h fits = trim_left_from-step fuel c (encode cs) h.0

pub trim_space-encode : (cs : List ℕ) → All IsInk cs → trim_space (encode cs) ≡ encode cs
unfolding trim_space
trim_space-encode cs h =
    rw (trim_left_from-encode (length (encode cs)) cs h (omega arith))
      (trim_right_from-encode (length (encode cs)) cs h (omega arith))

newline_space : (fuel : ℕ) → trim_right_from (suc fuel) (b'\n' ∷ []) ≡ []
unfolding trim_right_from decode_rune is_space is_nil
newline_space zero = refl
newline_space (suc fuel) = refl

trim_right_from-line :
    (fuel : ℕ) (cs : List ℕ)
    → All IsInk cs
    → length (encode cs) < fuel
    → trim_right_from fuel (encode cs ++ b'\n' ∷ []) ≡ encode cs
unfolding encode
trim_right_from-line zero cs h fits = absurd (omega arith)
trim_right_from-line (suc fuel) [] h fits = newline_space fuel
trim_right_from-line (suc fuel) (c ∷ cs) h fits =
    ap (trim_right_from (suc fuel)) (append_assoc (encode_rune c) (encode cs) (b'\n' ∷ []))
    ∙ trim_right_from-step fuel c (encode cs ++ b'\n' ∷ []) h.0
    ∙ ap (λ b. encode_rune c ++ b)
        (trim_right_from-line fuel cs h.1
          (omega (arith, encode_rune-pos c, length-append (encode_rune c) (encode cs))))

trim_left_from-line :
    (fuel c : ℕ) (cs : List ℕ)
    → IsInk c
    → trim_left_from (suc fuel) (encode (c ∷ cs) ++ b'\n' ∷ []) ≡ encode (c ∷ cs) ++ b'\n' ∷ []
unfolding encode
trim_left_from-line fuel c cs h =
    rw (append_assoc (encode_rune c) (encode cs) (b'\n' ∷ []))
      (trim_left_from-step fuel c (encode cs ++ b'\n' ∷ []) h)

-- the newline behind a text without spaces at its ends is trimmed
pub trim_space-line :
    (cs : List ℕ) → All IsInk cs → trim_space (encode cs ++ b'\n' ∷ []) ≡ encode cs
unfolding trim_space
trim_space-line [] h =
    unfold encode trim_left_from trim_right_from decode_rune is_space is_nil in refl
trim_space-line (c ∷ cs) h =
    let bites = encode (c ∷ cs) ++ b'\n' ∷ [] in
    let total : length bites ≡ suc (length (encode (c ∷ cs))) =
      omega (arith, length-append (encode (c ∷ cs)) (b'\n' ∷ [])) in
    rw (total, trim_left_from-line (length (encode (c ∷ cs))) c cs h.0)
      (rw total (trim_right_from-line (suc (length (encode (c ∷ cs)))) (c ∷ cs) h (omega arith)))
