-- ===== src/Doddish/Op.antt =====
-- go/internal/_/doddish/op.go: the operators and the places in which they may stand.
use dodder.Prelude.{ℕ, Bool, true, false, ◌&&◌, ◌||◌, ◌==◌, ltb, leb, if◌then◌else◌}

-- `operatorType`, its constructors in the source's order
pub data OperatorType : Type 0 where
  unknown solo_seq mixed_seq prefix_seq_or_separate_token_within prefix_seq_or_inline_identifier :
      OperatorType

unfoldable pub is_solo_or_prefix : OperatorType → Bool
is_solo_or_prefix solo_seq = true
is_solo_or_prefix prefix_seq_or_separate_token_within = true
is_solo_or_prefix _ = false

unfoldable pub is_mixed_or_prefix : OperatorType → Bool
is_mixed_or_prefix mixed_seq = true
is_mixed_or_prefix prefix_seq_or_separate_token_within = true
is_mixed_or_prefix prefix_seq_or_inline_identifier = true
is_mixed_or_prefix _ = false

-- `Op.GetType`; an `Op` is a byte
unfoldable pub get_type : ℕ → OperatorType
get_type op =
    if op == b' '
      || op == b']'
      || op == b'['
      || op == b'^'
      || op == b'\n'
      || op == b','
      || op == b'?'
      || op == b'+'
      || op == b':'
    then solo_seq
    else if op == b'@' || op == b'/' || op == b'!' || op == b'%'
    then mixed_seq
    else if op == b'=' || op == b'.'
    then prefix_seq_or_separate_token_within
    else if op == b'-'
    then prefix_seq_or_inline_identifier
    else unknown

-- the operator of `MakeOp`; a rune above 255 is none
unfoldable pub make_op : ℕ → ℕ
make_op char = if ltb 255 char then 0 else char

unfoldable pub is_solo_seq_op : Bool → ℕ → Bool
unfolding is_solo_or_prefix
is_solo_seq_op dot_allowed op =
    if dot_allowed && op == b'.' then false else is_solo_or_prefix (get_type op)

unfoldable pub is_mixed_seq_op : ℕ → Bool
unfolding is_mixed_or_prefix
is_mixed_seq_op op = is_mixed_or_prefix (get_type op)

is_inline : OperatorType → Bool
is_inline prefix_seq_or_inline_identifier = true
is_inline _ = false

unfoldable pub is_inline_op : ℕ → Bool
unfolding is_inline
is_inline_op op = is_inline (get_type op)

-- unicode.IsSpace
unfoldable pub is_space : ℕ → Bool
is_space r =
    (leb 9 r && leb r 13)
    || r == 32
    || r == 0x85
    || r == 0xa0
    || r == 0x1680
    || (leb 0x2000 r && leb r 0x200a)
    || r == 0x2028
    || r == 0x2029
    || r == 0x202f
    || r == 0x205f
    || r == 0x3000
