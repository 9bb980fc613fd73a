-- ===== src/ZettelId/Tests.antt =====
-- Witnesses for go/internal/bravo/ids/zettel_id.go.
use dodder.Prelude.{ℕ, ◌≡◌, ◌≤◌, List, codes, All, arith, inl, some}
use dodder.Run.{done}
use dodder.Text.Trim.{IsInk}
use dodder.Doddish.Op.{get_type, make_op, is_space}
use dodder.Doddish.Scanner.Path.{IsPlain, IsIdentifier}
use dodder.ZettelId.{empty, string, set}
use dodder.ZettelId.RoundTrip.{of_words, set-string}

letter-IsPlain : (c : ℕ) → b'a' ≤ c → c ≤ b'z' → IsPlain c
unfolding get_type make_op
letter-IsPlain c lo hi = ((ground arith), (omega arith), (omega arith), inl (omega arith))

letter-IsInk : (c : ℕ) → b'a' ≤ c → c ≤ b'z' → IsInk c
unfolding is_space
letter-IsInk c lo hi = (inl (omega arith), ground arith)

abbrev one : List ℕ
one = codes "un"

abbrev two : List ℕ
two = codes "o"

one-IsIdentifier : IsIdentifier one
one-IsIdentifier = (
  letter-IsPlain b'u' (omega arith) (omega arith),
  (inl (letter-IsPlain b'n' (omega arith) (omega arith)), tt),
)

two-IsIdentifier : IsIdentifier two
two-IsIdentifier = (letter-IsPlain b'o' (omega arith) (omega arith), tt)

one-IsInk : All IsInk one
one-IsInk = (
  letter-IsInk b'u' (omega arith) (omega arith),
  (letter-IsInk b'n' (omega arith) (omega arith), tt),
)

two-IsInk : All IsInk two
two-IsInk = (letter-IsInk b'o' (omega arith) (omega arith), tt)

set-string_example : set (string (of_words one two)) empty ≡ done (some (of_words one two))
set-string_example = set-string one two empty one-IsIdentifier two-IsIdentifier
