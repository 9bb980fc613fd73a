-- ===== src/ZettelId.antt =====
-- go/internal/bravo/ids/zettel_id.go: a zettel id is a pair of words, written with a slash.
pub mod RoundTrip
mod Tests
use dodder.Prelude.{
  ℕ, List, [], ◌∷◌, ◌++◌, Bool, true, false, ◌&&◌, if◌then◌else◌, Option, none, some, Bytes,
  bytes_eq,
}
use dodder.Run.{Run, done, panic, ◌>>=◌, index}
use dodder.Text.{trim_space}
use dodder.Doddish.Seq.{Token, Seq, token_type_identifier, token_type_operator}
use dodder.Doddish.Seq.Matching.{match_all, match_op, match_type}
use dodder.Doddish.Scanner.{
  Scanned, ok, err, ScanError, empty_seq, more_than_one_seq, scan_exactly_one_seq,
}

pub record ZettelId : Type 0 where
  pub left : Bytes
  pub right : Bytes

-- `Reset`, and the zero value
abbrev pub empty : ZettelId
empty = record { left = []; right = [] }

unfoldable pub is_empty : ZettelId → Bool
is_empty id = bytes_eq id.left [] && bytes_eq id.right []

unfoldable pub equals : ZettelId → ZettelId → Bool
equals id b = if bytes_eq id.left b.left then bytes_eq id.right b.right else false

unfoldable pub string : ZettelId → Bytes
string id = id.left ++ b'/' ∷ id.right

-- `SetWithSeq` on the id that the method is called on; `none` is an error, which leaves it as it was
unfoldable pub set_with_seq : Seq → ZettelId → Run (Option ZettelId)
set_with_seq seq id = do
  only_slash ← match_all seq (match_op b'/' ∷ [])
  words ←
      match_all seq
        (match_type token_type_identifier ∷ match_op b'/' ∷ match_type token_type_identifier ∷ [])
  let set_both : Run (Option ZettelId) = (do
    l ← index seq 0
    r ← index seq 2
    done (some (record { left = l.contents; right = r.contents })))
  if only_slash then done (some id) else if words then set_both else done none

unfoldable pub set_scanned : Scanned → ZettelId → Run (Option ZettelId)
set_scanned (ok seq) id = set_with_seq seq id
set_scanned (err empty_seq) id = done (some empty)
set_scanned (err more_than_one_seq) id = done none

-- `Set`, also `UnmarshalText` and `UnmarshalBinary`
unfoldable pub set : Bytes → ZettelId → Run (Option ZettelId)
unfolding set_scanned
set value id = set_scanned (scan_exactly_one_seq value) id

unfoldable pub make_zettel_id : Bytes → Run (Option ZettelId)
make_zettel_id v = set v empty

unfoldable pub make_from_head_and_tail : Bytes → Bytes → Run (Option ZettelId)
make_from_head_and_tail head tail =
    let h = trim_space head in
    let t = trim_space tail in
    let made = set (h ++ b'/' ∷ t) empty in
    if bytes_eq h [] then done none else if bytes_eq t [] then done none else made

unfoldable pub to_seq : ZettelId → Seq
to_seq id =
    record { type = token_type_identifier; contents = id.left }
    ∷ record { type = token_type_operator; contents = b'/' ∷ [] }
    ∷ record { type = token_type_identifier; contents = id.right }
    ∷ []
