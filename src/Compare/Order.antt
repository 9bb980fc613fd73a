-- ===== src/Compare/Order.antt =====
-- The comparison of go/lib/alfa/cmp/bytes.go and the order of runes.
use dodder.Prelude.{
  ℕ, zero, suc, ◌≤◌, ◌<◌, ◌≡◌, ◌≢◌, refl, ap, ◌∙◌, List, [], ◌∷◌, ◌++◌, Bool, false, ◌==◌, ltb,
  if◌then◌else◌, length, length-append, drop_prefix, Bytes, All, arith,
}
use dodder.Run.{Run, done}
use dodder.Utf8.{decode_rune, rune_error, encode_rune, encode}
use dodder.Utf8.RoundTrip.{IsRune, decode-encode_rune, encode_rune-pos}
use dodder.Compare.{Result, less, equal, greater, compare_from, compare_utf8}

-- runes compared one by one; a text that ends first is less, and with `partial` one whose beginning
-- is the right text is equal to it
abbrev pub order : Bool → List ℕ → List ℕ → Result
order partial [] [] = equal
order partial [] (r ∷ rs) = less
order partial (l ∷ ls) [] = if partial then equal else greater
order partial (l ∷ ls) (r ∷ rs) =
    let more = order partial ls rs in if ltb l r then less else if ltb r l then greater else more

-- a rune that the comparison takes
abbrev pub IsComparable : ℕ → Type 0
IsComparable c = IsRune c × (c ≢ rune_error)

abbrev by_runes : ℕ → ℕ → Run Result → Run Result
by_runes l r more = if ltb l r then done less else if ltb r l then done greater else more

module _ (fuel : ℕ) (partial : Bool) (l r : ℕ) (left right : Bytes) (hl : IsComparable l)
    (hr : IsComparable r) where
  compare_from-step :
      compare_from (suc fuel) partial (encode_rune l ++ left) (encode_rune r ++ right)
      ≡ by_runes l r (compare_from fuel partial left right)
  unfolding compare_from
  compare_from-step = go (encode_rune l) (encode_rune r) refl refl
    where
      go :
          (x y : Bytes)
          → encode_rune l ≡ x
          → encode_rune r ≡ y
          → compare_from (suc fuel) partial (x ++ left) (y ++ right)
            ≡ by_runes l r (compare_from fuel partial left right)
      go [] y e f = absurd (omega (arith, encode_rune-pos l, ap length e))
      go (a ∷ x) [] e f = absurd (omega (arith, encode_rune-pos r, ap length f))
      go (a ∷ x) (b ∷ y) e f =
          let dl : decode_rune (a ∷ (x ++ left)) ≡ record { char = l; width = length (a ∷ x) } =
            rw e at (decode-encode_rune l left hl.0) in
          let dr : decode_rune (b ∷ (y ++ right)) ≡ record { char = r; width = length (b ∷ y) } =
            rw f at (decode-encode_rune r right hr.0) in
          let nl : l == rune_error ≡ false = ground (arith, hl.1) in
          let nr : r == rune_error ≡ false = ground (arith, hr.1) in
          rw (dl, dr, nl, nr) (rw (drop_prefix x left, drop_prefix y right) refl)

empty_right :
    (fuel : ℕ) (partial : Bool) (x : Bytes)
    → 0 < length x
    → compare_from fuel partial x [] ≡ done (if partial then equal else greater)
unfolding compare_from
empty_right fuel partial [] pos = absurd (omega arith)
empty_right fuel partial (a ∷ x) pos = refl

empty_left :
    (fuel : ℕ) (partial : Bool) (y : Bytes)
    → 0 < length y
    → compare_from fuel partial [] y ≡ done less
unfolding compare_from
empty_left fuel partial [] pos = absurd (omega arith)
empty_left fuel partial (b ∷ y) pos = refl

encode_pos : (c : ℕ) (cs : List ℕ) → 0 < length (encode (c ∷ cs))
unfolding encode
encode_pos c cs = omega (arith, encode_rune-pos c, length-append (encode_rune c) (encode cs))

by_runes-done :
    (l r : ℕ) (o : Result)
    → by_runes l r (done o) ≡ done (if ltb l r then less else if ltb r l then greater else o)
by_runes-done l r o = ground arith

compare_from-encode :
    (fuel : ℕ) (partial : Bool) (ls rs : List ℕ)
    → All IsComparable ls
    → All IsComparable rs
    → length (encode ls) ≤ fuel
    → compare_from fuel partial (encode ls) (encode rs) ≡ done (order partial ls rs)
unfolding encode
compare_from-encode fuel partial [] [] hl hr fits = unfold encode compare_from in refl
compare_from-encode fuel partial [] (r ∷ rs) hl hr fits =
    empty_left fuel partial (encode (r ∷ rs)) (encode_pos r rs)
compare_from-encode fuel partial (l ∷ ls) [] hl hr fits =
    empty_right fuel partial (encode (l ∷ ls)) (encode_pos l ls)
compare_from-encode zero partial (l ∷ ls) (r ∷ rs) hl hr fits =
    absurd (omega (arith, encode_pos l ls))
compare_from-encode (suc fuel) partial (l ∷ ls) (r ∷ rs) hl hr fits =
    let short : length (encode ls) ≤ fuel =
      unfold encode in
      omega (arith, encode_rune-pos l, length-append (encode_rune l) (encode ls)) in
    (unfold encode in compare_from-step fuel partial l r (encode ls) (encode rs) hl.0 hr.0)
    ∙ ap (by_runes l r) (compare_from-encode fuel partial ls rs hl.1 hr.1 short)
    ∙ by_runes-done l r (order partial ls rs)

compare_loop :
    (x y : Bytes) (partial : Bool)
    → 0 < length x
    → 0 < length y
    → compare_utf8 x y partial ≡ compare_from (length x) partial x y
unfolding compare_utf8
compare_loop [] y partial p q = absurd (omega arith)
compare_loop (a ∷ x) [] partial p q = absurd (omega arith)
compare_loop (a ∷ x) (b ∷ y) partial p q = refl

-- Two texts, neither empty and without the replacement rune, are compared, without a panic, as their
-- runes are ordered, both in full and with `partial`.
pub compare_utf8-encode :
    (l r : ℕ) (ls rs : List ℕ) (partial : Bool)
    → All IsComparable (l ∷ ls)
    → All IsComparable (r ∷ rs)
    → compare_utf8 (encode (l ∷ ls)) (encode (r ∷ rs)) partial
      ≡ done (order partial (l ∷ ls) (r ∷ rs))
compare_utf8-encode l r ls rs partial hl hr =
    compare_loop (encode (l ∷ ls)) (encode (r ∷ rs)) partial (encode_pos l ls) (encode_pos r rs)
    ∙ compare_from-encode (length (encode (l ∷ ls))) partial (l ∷ ls) (r ∷ rs) hl hr (omega arith)
