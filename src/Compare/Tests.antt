-- ===== src/Compare/Tests.antt =====
-- Runs of go/lib/alfa/cmp/bytes.go, and the witness.
use dodder.Prelude.{◌≡◌, refl, [], ◌∷◌, true, codes, arith, inl}
use dodder.Run.{done}
use dodder.Utf8.{encode, decode_rune}
use dodder.Compare.{equal, greater, compare_utf8}
use dodder.Compare.Order.{order, compare_utf8-encode}

-- the empty text is no partial match, while any other beginning is
no_beginning : compare_utf8 (codes "ab") [] true ≡ done greater
unfolding compare_utf8
no_beginning = refl

beginning : compare_utf8 (codes "ab") (codes "a") true ≡ done equal
unfolding compare_utf8 decode_rune
beginning = refl

compare_utf8-encode_example :
    compare_utf8 (encode (b'a' ∷ b'b' ∷ [])) (encode (b'a' ∷ [])) true
    ≡ done (order true (b'a' ∷ b'b' ∷ []) (b'a' ∷ []))
compare_utf8-encode_example =
    compare_utf8-encode b'a' b'a' (b'b' ∷ []) [] true
      ((inl (omega arith), (omega arith)), ((inl (omega arith), (omega arith)), tt))
      ((inl (omega arith), (omega arith)), tt)
