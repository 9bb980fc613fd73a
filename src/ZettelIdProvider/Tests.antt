-- ===== src/ZettelIdProvider/Tests.antt =====
-- Runs of go/internal/charlie/zettel_id_provider, and the witnesses.
use dodder.Prelude.{
  ℕ, ◌≤◌, ◌≡◌, ◌≢◌, refl, [], ◌∷◌, inr, Option, some, bytes_eq, bytes_eq→ne, codes, All, arith,
}
use dodder.Run.{done}
use dodder.Utf8.{encode, encode_rune, runes, decode_rune}
use dodder.Text.{trim_space}
use dodder.Doddish.Op.{is_space}
use dodder.ZettelIdProvider.{
  Words, Entry, clean, clean_runes, to_lower, zettel_id, make_zettel_id_from_coordinates,
}
use dodder.ZettelIdProvider.Clean.{IsSmall}
use dodder.ZettelIdProvider.Lookup.{zettel_id-make}

-- a capital letter, the Kelvin sign and a letter above 'z' among spaces
cleaned : clean (encode (b' ' ∷ b'A' ∷ 0x212a ∷ 0xe9 ∷ b'b' ∷ b'\n' ∷ [])) ≡ codes "akb"
unfolding clean clean_runes to_lower encode encode_rune runes decode_rune trim_space is_space
cleaned = refl

abbrev words : Words
words = codes "ab" ∷ codes "c" ∷ []

letter-IsSmall : (c : ℕ) → b'a' ≤ c → c ≤ b'z' → IsSmall c
unfolding is_space
letter-IsSmall c lo hi = (hi, inr (omega arith), ground arith)

ab-IsSmall : All IsSmall (codes "ab")
ab-IsSmall = (
  letter-IsSmall b'a' (omega arith) (omega arith),
  (letter-IsSmall b'b' (omega arith) (omega arith), tt),
)

c_found : zettel_id words (codes "C ") ≡ some 1
unfolding zettel_id clean clean_runes to_lower encode encode_rune runes decode_rune trim_space
    is_space bytes_eq
c_found = refl

ab-ne-c : codes "ab" ≢ codes "c"
unfolding bytes_eq
ab-ne-c = bytes_eq→ne (codes "ab") (codes "c") refl

c_clean : clean (codes "c") ≡ codes "c"
unfolding clean clean_runes to_lower encode encode_rune runes decode_rune trim_space is_space
c_clean = refl

c_made : make_zettel_id_from_coordinates words 1 ≡ done (some (codes "c"))
unfolding make_zettel_id_from_coordinates
c_made = refl

zettel_id-make_example : zettel_id words (codes "c") ≡ some 1
zettel_id-make_example = zettel_id-make words 1 (codes "c") ((ab-ne-c, tt), (tt, tt)) c_clean c_made

abbrev blob_words : ℕ → Option Words
blob_words n = some (words)

abbrev yin_entry : Entry ℕ
yin_entry = record { side = 0; markl_id = 7 }

abbrev yang_entry : Entry ℕ
yang_entry = record { side = 1; markl_id = 8 }
