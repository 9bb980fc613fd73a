-- ===== src/ZettelIdProvider/Clean.antt =====
-- What `Clean` of go/internal/charlie/zettel_id_provider/common.go leaves.
use dodder.Prelude.{
  sym, ℕ, ◌≤◌, ◌<◌, ◌≡◌, refl, ap, ◌∙◌, List, [], ◌∷◌, ◌++◌, ◌⊎◌, inl, false, All, All-append,
  arith,
}
use dodder.Utf8.{encode_rune, encode, runes}
use dodder.Utf8.RoundTrip.{IsRune, runes-encode, encode-append}
use dodder.Doddish.Op.{is_space}
use dodder.Text.{trim_space}
use dodder.Text.Trim.{IsInk, trim_space-encode, trim_space-line}
use dodder.ZettelIdProvider.{to_lower, clean_runes, clean}

-- a rune that `Clean` keeps as it is, and no space
abbrev pub IsSmall : ℕ → Type 0
IsSmall c = (c ≤ b'z') × ((c < b'A') ⊎ (b'Z' < c)) × (is_space c ≡ false)

abbrev pub IsSmallWord : List ℕ → Type 0
IsSmallWord cs = All IsSmall cs

pub IsSmall-IsInk : (cs : List ℕ) → All IsSmall cs → All IsInk cs
IsSmall-IsInk [] h = tt
IsSmall-IsInk (c ∷ cs) h = ((inl (omega (arith, h.0.0)), h.0.2), IsSmall-IsInk cs h.1)

IsInk-IsRune : (cs : List ℕ) → All IsInk cs → All IsRune cs
IsInk-IsRune [] h = tt
IsInk-IsRune (c ∷ cs) h = (h.0.0, IsInk-IsRune cs h.1)

clean_runes-small : (cs : List ℕ) → All IsSmall cs → clean_runes cs ≡ cs
unfolding clean_runes to_lower
clean_runes-small [] h = refl
clean_runes-small (c ∷ cs) h =
    let small = h.0.0 in let no_capital = h.0.1 in let ih = clean_runes-small cs h.1 in ground arith

clean_runes-line :
    (cs : List ℕ) → All IsSmall cs → clean_runes (cs ++ b'\n' ∷ []) ≡ cs ++ b'\n' ∷ []
unfolding clean_runes to_lower
clean_runes-line [] h = refl
clean_runes-line (c ∷ cs) h =
    let small = h.0.0 in let no_capital = h.0.1 in let ih = clean_runes-line cs h.1 in ground arith

-- A word without capital letters, spaces and runes above 'z' is left as it is.
pub clean-small : (cs : List ℕ) → All IsSmall cs → clean (encode cs) ≡ encode cs
unfolding clean
clean-small cs h =
    let ink = IsSmall-IsInk cs h in
    rw (runes-encode cs (IsInk-IsRune cs ink), clean_runes-small cs h) (trim_space-encode cs ink)

encode-line : (cs : List ℕ) → encode cs ++ b'\n' ∷ [] ≡ encode (cs ++ b'\n' ∷ [])
encode-line cs =
    let e : encode (b'\n' ∷ []) ≡ b'\n' ∷ [] = (unfold encode encode_rune in refl) in
    sym (encode-append cs (b'\n' ∷ []) ∙ ap (λ b. encode cs ++ b) e)

-- also as a line of a file
pub clean-line : (cs : List ℕ) → All IsSmall cs → clean (encode cs ++ b'\n' ∷ []) ≡ encode cs
unfolding clean
clean-line cs h =
    let ink = IsSmall-IsInk cs h in
    let rune : All IsRune (cs ++ b'\n' ∷ []) =
      All-append IsRune cs (b'\n' ∷ []) (IsInk-IsRune cs ink) (inl (omega arith), tt) in
    let text : runes (encode cs ++ b'\n' ∷ []) ≡ cs ++ b'\n' ∷ [] =
      ap runes (encode-line cs) ∙ runes-encode (cs ++ b'\n' ∷ []) rune in
    rw (text, clean_runes-line cs h) (ap trim_space (sym (encode-line cs)) ∙ trim_space-line cs ink)
