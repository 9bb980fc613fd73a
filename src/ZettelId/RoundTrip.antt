-- ===== src/ZettelId/RoundTrip.antt =====
-- Setting a zettel id (go/internal/bravo/ids/zettel_id.go) from its own text or its own sequence.
use dodder.Prelude.{
  ℕ, ◌≡◌, refl, ◌∙◌, List, [], ◌∷◌, ◌++◌, ◌≢◌, false, some, Bytes, bytes_eq, bytes_eq→eq,
  Bool-cases, inl, inr, All, arith,
}
use dodder.Run.{done}
use dodder.Utf8.{encode}
use dodder.Utf8.RoundTrip.{encode-append, encode_rune-ascii}
use dodder.Text.Trim.{IsInk, trim_space-encode}
use dodder.Doddish.Scanner.{ok, scan_exactly_one_seq}
use dodder.Doddish.Scanner.Path.{
  IsIdentifier, scan_exactly_one_seq-path, slash, word, encode-ne-nil,
}
use dodder.Doddish.Seq.Matching.{match_all, match_op, match_type}
use dodder.ZettelId.{
  ZettelId, string, set_with_seq, set, set_scanned, to_seq, make_from_head_and_tail, empty,
}

-- the id with these two words
abbrev pub of_words : List ℕ → List ℕ → ZettelId
of_words l r = record { left = encode l; right = encode r }

-- An id is got back from its own sequence, whatever id it is set on.
pub set_with_seq-to_seq : (id old : ZettelId) → set_with_seq (to_seq id) old ≡ done (some id)
unfolding set_with_seq to_seq match_all match_op match_type
set_with_seq-to_seq id old = refl

path_bytes : (l r : List ℕ) → encode (l ++ b'/' ∷ r) ≡ encode l ++ b'/' ∷ encode r
path_bytes l r =
    encode-append l (b'/' ∷ r) ∙ (unfold encode in rw (encode_rune-ascii b'/' (omega arith)) refl)

set-path :
    (l r : List ℕ) (old : ZettelId)
    → IsIdentifier l
    → IsIdentifier r
    → set (encode l ++ b'/' ∷ encode r) old ≡ done (some (of_words l r))
unfolding set set_scanned
set-path l r old hl hr =
    let read = scan_exactly_one_seq-path l r hl hr in
    let scanned : scan_exactly_one_seq (encode l ++ b'/' ∷ encode r)
        ≡ ok (word l ∷ slash ∷ word r ∷ []) =
      rw (path_bytes l r) at read in
    rw scanned (unfold to_seq in set_with_seq-to_seq (of_words l r) old)

-- An id whose two words are identifiers is got back from its text, whatever id it is set on.
pub set-string :
    (l r : List ℕ) (old : ZettelId)
    → IsIdentifier l
    → IsIdentifier r
    → set (string (of_words l r)) old ≡ done (some (of_words l r))
unfolding string
set-string l r old hl hr = set-path l r old hl hr

some_bytes : (b : Bytes) → b ≢ [] → bytes_eq b [] ≡ false
some_bytes b h = elim (Bool-cases (bytes_eq b [])) [
  | inl e ↦ absurd (h (bytes_eq→eq b [] e))
  | inr e ↦ e
]

-- Two identifiers without spaces make the id of these two words.
pub make_from_head_and_tail-eq :
    (l r : List ℕ)
    → IsIdentifier l
    → IsIdentifier r
    → All IsInk l
    → All IsInk r
    → make_from_head_and_tail (encode l) (encode r) ≡ done (some (of_words l r))
unfolding make_from_head_and_tail
make_from_head_and_tail-eq l r hl hr il ir =
    rw
      (
        trim_space-encode l il,
        trim_space-encode r ir,
        some_bytes (encode l) (encode-ne-nil l hl),
        some_bytes (encode r) (encode-ne-nil r hr),
      )
      (set-path l r empty hl hr)
