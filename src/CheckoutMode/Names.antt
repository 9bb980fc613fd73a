-- ===== src/CheckoutMode/Names.antt =====
-- Checkout modes and their names (go/internal/_/checkout_mode/main.go).
use dodder.Prelude.{
  Bool-cases, inl, inr, ==_iff, ap, ℕ, ◌≡◌, refl, true, false, ◌&&◌, ◌==◌, Bytes, bytes_eq, codes,
}
use dodder.Utf8.{runes, decode_rune}
use dodder.Text.{trim_space}
use dodder.Doddish.Op.{is_space}
use dodder.CheckoutMode.{
  is_metadata_only, is_blob_only, is_blob_only, is_metadata_only, no_mode, metadata, blob, string,
  set, includes_blob, includes_metadata,
}

-- a mode with both bits is none of the modes that have a name of their own
named_mode :
    (mode k : ℕ)
    → includes_blob mode && includes_metadata mode ≡ true
    → includes_blob k && includes_metadata k ≡ false
    → mode == k ≡ false
named_mode mode k both h = elim (Bool-cases (mode == k)) [
  | inl e ↦
      let q : mode ≡ k = (==_iff mode k).0 e in
      let both' : includes_blob k && includes_metadata k ≡ true = rw q at both in absurd (cc)
  | inr e ↦ e
]

string-both :
    (invalid : ℕ → Bytes) (mode : ℕ)
    → includes_blob mode && includes_metadata mode ≡ true
    → string invalid mode ≡ codes "both"
unfolding string is_metadata_only is_blob_only
string-both invalid mode both =
    let zero_bits : includes_blob no_mode && includes_metadata no_mode ≡ false =
      unfold includes_blob includes_metadata in refl in
    let one_bit : includes_blob metadata && includes_metadata metadata ≡ false =
      unfold includes_blob includes_metadata in refl in
    let other_bit : includes_blob blob && includes_metadata blob ≡ false =
      unfold includes_blob includes_metadata in refl in
    rw
      (
        named_mode mode no_mode both zero_bits,
        named_mode mode metadata both one_bit,
        named_mode mode blob both other_bit,
        both,
      )
      refl

-- Setting a mode from the text of a mode: "blob" gives the blob alone, and the text of a mode that
-- includes both the blob and the metadata gives these two; the text of the metadata alone is
-- accepted and leaves the mode as it was, and the text of the empty mode is refused.
pub set-string_of_mode :
    (invalid : ℕ → Bytes) (mode old : ℕ)
    → includes_blob mode && includes_metadata mode ≡ true
    → (set (string invalid blob) old ≡ (blob, true))
      × (set (string invalid mode) old ≡ (6, true))
      × (set (string invalid metadata) old ≡ (old, true))
      × (set (string invalid no_mode) old ≡ (old, false))
unfolding set string is_metadata_only is_blob_only includes_blob includes_metadata runes decode_rune
    trim_space is_space bytes_eq
set-string_of_mode invalid mode old both =
    (refl, ap (λ b. set b old) (string-both invalid mode both), refl, refl)
