-- ===== src/Doddish/Tests.antt =====
-- Runs from go/internal/_/doddish/scanner_test.go, and the witnesses.
use dodder.Prelude.{
  ℕ, zero, suc, Bytes, ◌≤◌, ◌<◌, List, [], ◌∷◌, ◌++◌, ◌≡◌, refl, codes, true, false, All, length,
  none, some, arith, inl,
}
use dodder.Run.{done, panic}
use dodder.Utf8.{runes, encode, encode_rune, decode_rune}
use dodder.Doddish.Op.{get_type, make_op, is_solo_seq_op, is_mixed_seq_op, is_inline_op, is_space}
use dodder.Doddish.Seq.{Token, Seq, add}
use dodder.Doddish.Seq.Coding.{marshal_binary, unmarshal_binary}
use dodder.Doddish.Seq.Coding.RoundTrip.{unmarshal-marshal, unmarshal-marshal_long}
use dodder.Doddish.Seq.Matching.{TokenMatcher, match_op, match_type}
use dodder.Doddish.Seq.Matching.Each.{Matches}
use dodder.Doddish.Seq.Matching.Partitions.{Misses}
use dodder.Doddish.Scanner.{
  scan, case_of, reset, eof, failed, is_eof, Scanner, ok, err, more_than_one_seq,
  scan_exactly_one_seq,
}
use dodder.Doddish.Scanner.Buffer.{NotQuote}
use dodder.Doddish.Scanner.Lossless.{text, Starts, scan_lossless}
use dodder.Doddish.Scanner.Progress.{scan-progress}
use dodder.Doddish.Scanner.Path.{IsPlain, IsIdentifier, scan_exactly_one_seq-path, slash, word}

abbrev after : Scanner
after = (scan true (reset (runes (codes "url=\"https://a.\\\"b\" x")) eof)).0

key_value :
    after.seq
    ≡ record { type = 2; contents = codes "url" }
      ∷ record { type = 1; contents = codes "=" }
      ∷ record { type = 3; contents = codes "https://a.\"b" }
      ∷ []
unfolding scan runes case_of get_type make_op is_solo_seq_op is_mixed_seq_op is_inline_op is_space
    add encode_rune decode_rune
key_value = refl

left : after.unread ≡ codes " x"
unfolding scan runes case_of get_type make_op is_solo_seq_op is_mixed_seq_op is_inline_op is_space
    add encode_rune decode_rune
left = refl

-- one quoted literal is refused, since the scan stops before it meets the end
one_literal : scan_exactly_one_seq (codes "\"a\"") ≡ err more_than_one_seq
unfolding scan_exactly_one_seq runes case_of get_type make_op is_solo_seq_op is_mixed_seq_op
    is_inline_op is_space add encode_rune decode_rune
one_literal = refl

abbrev at_start : Scanner
at_start = reset (codes "a/b c") eof

plain : All NotQuote at_start.unread
plain = (
  ((omega arith), (omega arith)),
  (
    ((omega arith), (omega arith)),
    (
      ((omega arith), (omega arith)),
      (((omega arith), (omega arith)), (((omega arith), (omega arith)), tt)),
    ),
  ),
)

first_is_ink : Starts false at_start.unread
unfolding is_space make_op
first_is_ink = refl

not_ended : is_eof none ≡ false
unfolding is_eof
not_ended = refl

scan_lossless_example : text (scan true at_start) ≡ encode at_start.unread
scan_lossless_example = scan_lossless true at_start refl not_ended refl plain first_is_ink

found : (scan true at_start).1 ≡ true
unfolding scan case_of get_type make_op is_solo_seq_op is_mixed_seq_op is_inline_op is_space add
    encode_rune
found = refl

scan-progress_example : length (scan true at_start).0.unread < length at_start.unread
scan-progress_example = scan-progress true at_start refl not_ended refl found

abbrev broken : Scanner
broken = reset [] failed

letter-IsPlain : (c : ℕ) → b'a' ≤ c → c ≤ b'z' → IsPlain c
unfolding get_type make_op
letter-IsPlain c lo hi = ((ground arith), (omega arith), (omega arith), inl (omega arith))

abbrev letters_ab : List ℕ
letters_ab = codes "ab"

letters_ab-IsIdentifier : IsIdentifier letters_ab
letters_ab-IsIdentifier = (
  letter-IsPlain b'a' (omega arith) (omega arith),
  (inl (letter-IsPlain b'b' (omega arith) (omega arith)), tt),
)

scan_exactly_one_seq-path_example :
    scan_exactly_one_seq (encode (letters_ab ++ b'/' ∷ letters_ab))
    ≡ ok (word letters_ab ∷ slash ∷ word letters_ab ∷ [])
scan_exactly_one_seq-path_example =
    scan_exactly_one_seq-path letters_ab letters_ab letters_ab-IsIdentifier letters_ab-IsIdentifier

abbrev three : Seq
three = word letters_ab ∷ slash ∷ word letters_ab ∷ []

unmarshal-marshal_example : unmarshal_binary (marshal_binary three) ≡ done (some three)
unfolding encode encode_rune
unmarshal-marshal_example = unmarshal-marshal three (omega arith, (omega arith, (omega arith, tt)))

letters : ℕ → Bytes
letters zero = []
letters (suc n) = b'a' ∷ letters n

abbrev long : Token
long = record { type = 2; contents = letters 255 }

unmarshal-marshal_long_example : unmarshal_binary (marshal_binary (long ∷ [])) ≡ panic
unfolding letters
unmarshal-marshal_long_example = unmarshal-marshal_long long [] refl

abbrev matchers : List TokenMatcher
matchers = match_type 2 ∷ match_op b'/' ∷ match_type 2 ∷ []

abbrev tail_matchers : List TokenMatcher
tail_matchers = match_op b'/' ∷ match_type 2 ∷ []

tail-Matches : Matches tail_matchers (slash ∷ word letters_ab ∷ [])
unfolding match_op match_type
tail-Matches = (refl, (refl, tt))

slash-hit : match_op b'/' slash ≡ done true
unfolding match_op
slash-hit = refl

word-Misses : All (Misses (match_op b'/')) (word letters_ab ∷ [])
unfolding match_op
word-Misses = (refl, tt)
