-- ===== src/Doddish/Seq/Matching.antt =====
-- go/internal/_/doddish/token_matcher.go and seq_matching.go. A `TokenMatcher` is its `Match`; the
-- one for an operator reads the first byte of the contents, and panics if there is none.
pub mod Each
pub mod Ends
pub mod Partitions
use dodder.Prelude.{
  ℕ, zero, suc, ◌+◌, List, [], ◌∷◌, ◌++◌, Bool, true, false, ◌==◌, ltb, if◌then◌else◌, length, take,
  drop,
}
use dodder.Run.{Run, done, panic, ◌>>=◌, index}
use dodder.Doddish.Seq.{Token, Seq, token_type_operator}

abbrev pub TokenMatcher : Type 0
TokenMatcher = Token → Run Bool

-- `TokenMatcherOp.Match`
unfoldable pub match_op : ℕ → TokenMatcher
match_op op token =
    if token.type == token_type_operator
    then (do c ← index token.contents 0; done (c == op))
    else done false

-- `TokenType.Match`
unfoldable pub match_type : ℕ → TokenMatcher
match_type expected actual = done (actual.type == expected)

-- `tokenMatcherOr.Match`
unfoldable pub match_or : List TokenMatcher → TokenMatcher
match_or [] token = done false
match_or (m ∷ ms) token = do
  hit ← m token
  let rest = match_or ms token
  if hit then done true else rest

-- the loops of `MatchAll` and `MatchStart`, over the matchers that are left
unfoldable pub match_each : List TokenMatcher → Seq → Run Bool
match_each [] seq = done true
match_each (m ∷ ms) [] = panic
match_each (m ∷ ms) (t ∷ seq) = do
  hit ← m t
  let rest = match_each ms seq
  if hit then rest else done false

unfoldable pub match_all : Seq → List TokenMatcher → Run Bool
unfolding match_each
match_all seq tokens = if length tokens == length seq then match_each tokens seq else done false

unfoldable pub match_start : Seq → List TokenMatcher → Run Bool
unfolding match_each
match_start seq tokens =
    if ltb (length seq) (length tokens) then done false else match_each tokens seq

pub record Split : Type 0 where
  pub hit : Bool
  pub left : Seq
  pub right : Seq

-- The loop of `MatchEnd`: `i` tokens are still to be looked at from the end, and `j` matchers.
unfoldable pub match_end_from : ℕ → ℕ → Seq → List TokenMatcher → Split → Run Split
match_end_from zero j seq tokens s = done (record s { hit = true })
match_end_from (suc i) zero seq tokens s = done (record s { hit = true })
match_end_from (suc i) (suc j) seq tokens s = do
  partition ← index seq i
  m ← index tokens j
  hit ← m partition
  let more =
      match_end_from i j seq tokens (record { hit = false; left = take i seq; right = drop i seq })
  if hit then more else done s

unfoldable pub match_end : Seq → List TokenMatcher → Run Split
unfolding match_end_from
match_end seq tokens =
    let none_yet : Split = record { hit = false; left = []; right = [] } in
    if ltb (length seq) (length tokens)
    then done none_yet
    else match_end_from (length seq) (length tokens) seq tokens none_yet

-- The result of the `Partition` methods. Without a hit both parts are empty, and the token is the
-- last one looked at; the zero `Token` if there was none.
pub record Partition : Type 0 where
  pub hit : Bool
  pub left : Seq
  pub right : Seq
  pub partition : Token

abbrev no_token : Token
no_token = record { type = 0; contents = [] }

unfoldable pub partition_right_from : ℕ → TokenMatcher → Seq → Token → Run Partition
partition_right_from zero m seq last =
    done (record { hit = false; left = []; right = []; partition = last })
partition_right_from (suc i) m seq last = do
  partition ← index seq i
  hit ← m partition
  let more = partition_right_from i m seq partition
  let found : Partition = record {
    hit = true;
    left = take i seq;
    right = drop (i + 1) seq;
    partition = partition;
  }
  if hit then done found else more

unfoldable pub partition_favoring_right : Seq → TokenMatcher → Run Partition
unfolding partition_right_from
partition_favoring_right seq m = partition_right_from (length seq) m seq no_token

-- the loop of `PartitionFavoringLeft`: `seen` stands before the tokens that are left
unfoldable pub partition_left_from : TokenMatcher → Seq → Seq → Token → Run Partition
partition_left_from m seen [] last =
    done (record { hit = false; left = []; right = []; partition = last })
partition_left_from m seen (t ∷ seq) last = do
  hit ← m t
  let more = partition_left_from m (seen ++ t ∷ []) seq t
  let found : Partition = record { hit = true; left = seen; right = seq; partition = t }
  if hit then done found else more

unfoldable pub partition_favoring_left : Seq → TokenMatcher → Run Partition
unfolding partition_left_from
partition_favoring_left seq m = partition_left_from m [] seq no_token
