-- ===== src/Doddish/Scanner.antt =====
-- go/internal/_/doddish/scanner.go and main.go: a scan splits off one sequence of tokens from the
-- runes of a text.
--
-- The io.RuneScanner is the runes that are not read yet and the error that its ReadRune gives after
-- the last of them. UnreadRune is only called directly after a ReadRune that succeeded, and then
-- gives that rune back. A sequence to scan again (`unscan`) is present whole or not at all, so
-- `ScanSkipSpace` over a sequence that was unscanned is not modelled, nor are the byte count `n`
-- and `lastRune`.
pub mod Buffer
pub mod Lossless
pub mod Progress
pub mod Path
use dodder.Prelude.{
  ℕ, suc, ◌+◌, List, [], ◌∷◌, ◌++◌, Bool, true, false, not, ◌&&◌, ◌||◌, ◌==◌, ltb, if◌then◌else◌,
  length, drop, Bytes, Option, none, some,
}
use dodder.Utf8.{encode_rune, runes}
use dodder.Doddish.Op.{make_op, is_solo_seq_op, is_mixed_seq_op, is_inline_op, is_space}
use dodder.Doddish.Seq.{
  Token, Seq, add, token_type_incomplete, token_type_operator, token_type_identifier,
  token_type_literal,
}

pub data ReadError : Type 0 where
  eof : ReadError
  failed : ReadError

pub record Scanner : Type 0 where
  pub unread : List ℕ
  pub at_end : ReadError
  pub token_type_probably : ℕ
  pub scanned : Bytes
  pub scanned_offset : ℕ
  pub seq : Seq
  pub err : Option ReadError
  pub unscan : Bool

-- `MakeScanner` and `Reset`
abbrev pub reset : List ℕ → ReadError → Scanner
reset unread at_end = record {
  unread = unread;
  at_end = at_end;
  token_type_probably = token_type_incomplete;
  scanned = [];
  scanned_offset = 0;
  seq = [];
  err = none;
  unscan = false;
}

abbrev pub reset_before_next_scan : Scanner → Scanner
reset_before_next_scan s = record s {
  scanned = [];
  scanned_offset = 0;
  token_type_probably = token_type_incomplete;
  seq = [];
}

-- `Unscan`
abbrev pub unscan_seq : Scanner → Scanner
unscan_seq s = record s { unscan = true }

unfoldable pub can_scan : Scanner → Bool
can_scan s = s.unscan || elim s.err [ none ↦ true | some e ↦ false ]

abbrev pub write_rune : ℕ → Scanner → Scanner
write_rune char s = record s { scanned = s.scanned ++ encode_rune char }

abbrev add_if_any : ℕ → Bytes → Scanner → Scanner
add_if_any token_type [] s = s
add_if_any token_type (b ∷ bites) s = record s {
  seq = add s.seq token_type (b ∷ bites);
  scanned_offset = s.scanned_offset + length (b ∷ bites);
}

-- `appendTokenWithTypeToSeq`
unfoldable pub append_token_with_type_to_seq : ℕ → Scanner → Scanner
append_token_with_type_to_seq token_type s =
    add_if_any token_type (drop s.scanned_offset s.scanned) s

-- The result of a method that reads: the scanner afterwards, and what it returns.
abbrev pub Result : Type 0
Result = Scanner × Bool

-- `ConsumeSpacesOrErrorOnFalse`
unfoldable pub consume_spaces : List ℕ → Scanner → Result
consume_spaces [] s = (record s { unread = []; err = some s.at_end }, false)
consume_spaces (r ∷ rest) s =
    let more = consume_spaces rest s in
    if is_space r then more else (record s { unread = r ∷ rest; err = none }, true)

-- a rune of a literal is written if it is escaped, or neither a backslash nor the closing quote
abbrev pub write_content : ℕ → Bool → ℕ → Scanner → Scanner
write_content start last_was_backslash char s =
    let current_is_backslash = char == b'\\' in
    let escaped = last_was_backslash && not current_is_backslash in
    let content = not last_was_backslash && (not current_is_backslash && not (char == start)) in
    if escaped || content then write_rune char s else s

-- `consumeLiteralOrFieldValue`
unfoldable pub consume_literal : ℕ → ℕ → Bool → List ℕ → Scanner → Result
consume_literal start token_type last_was_backslash [] s =
    (record s { unread = []; err = some s.at_end }, false)
consume_literal start token_type last_was_backslash (char ∷ rest) s =
    let s' = write_content start last_was_backslash char s in
    let more = consume_literal start token_type (char == b'\\') rest s' in
    if not (char == start) || last_was_backslash
    then more
    else (append_token_with_type_to_seq token_type (record s' { unread = rest; err = none }), true)

-- `consumeIdentifierLike`; `idx` is the length of the buffer at its start
unfoldable pub consume_identifier_like : ℕ → ℕ → List ℕ → Scanner → Result
consume_identifier_like token_type idx [] s = (
  record s { unread = []; err = some s.at_end },
  elim s.at_end [ eof ↦ ltb 0 (length s.scanned) | failed ↦ true ],
)
consume_identifier_like token_type idx (char ∷ rest) s =
    let more = consume_identifier_like token_type idx rest (write_rune char s) in
    if char == b'"' || char == b'\''
    then consume_literal char token_type false rest s
    else if not (is_solo_seq_op true (make_op char))
    then more
    else (
      record s {
        seq = add s.seq token_type (drop idx s.scanned);
        unread = char ∷ rest;
        err = none;
      },
      true,
    )

-- `consumeField`
unfoldable pub consume_field : ℕ → List ℕ → Scanner → Result
consume_field start unread s =
    let s' = write_rune start s in
    consume_identifier_like token_type_literal (length s'.scanned) unread s'

-- The cases of the `switch` in `scan`, in its order.
pub data Case : Type 0 where
  quote solo identifier mixed split : Case

unfoldable pub case_of : Bool → Bool → ℕ → Case
case_of dot_operator_as_split after_first char =
    let op = make_op char in
    let is_solo_or_prefix = is_solo_seq_op (not dot_operator_as_split) op in
    let is_mixed_op = is_mixed_seq_op op in
    if char == b'"' || char == b'\''
    then quote
    else if not after_first && is_solo_or_prefix
    then solo
    else if not is_solo_or_prefix && not is_mixed_op || is_inline_op op && after_first
    then identifier
    else if is_mixed_op
    then mixed
    else split

-- a sequence of one operator; the spaces behind a space belong to it
unfoldable pub scan_solo : ℕ → List ℕ → Scanner → Result
scan_solo char rest s =
    let s' = append_token_with_type_to_seq token_type_operator (write_rune char s) in
    if is_space (make_op char)
    then consume_spaces rest s'
    else (record s' { unread = rest; err = none }, true)

-- the rune at which a sequence ends
unfoldable pub scan_split : ℕ → List ℕ → Scanner → Result
scan_split char rest s =
    let s' = append_token_with_type_to_seq s.token_type_probably s in
    if char == b'='
    then consume_field char rest s'
    else (record s' { unread = char ∷ rest; err = none }, true)

-- what `scan` returns where a read gives an error
unfoldable pub scan_end_by : ReadError → Scanner → Result
scan_end_by eof s = (
  append_token_with_type_to_seq s.token_type_probably (record s { unread = []; err = some eof }),
  ltb 0 (length s.scanned),
)
scan_end_by failed s = (record s { unread = []; err = some failed }, true)

unfoldable pub scan_end : Scanner → Result
scan_end s = scan_end_by s.at_end s

abbrev pub scan_identifier : ℕ → Scanner → Scanner
scan_identifier char s = write_rune char (record s { token_type_probably = token_type_identifier })

unfoldable pub scan_mixed : ℕ → Scanner → Scanner
scan_mixed char s =
    append_token_with_type_to_seq token_type_operator
      (write_rune char (append_token_with_type_to_seq s.token_type_probably s))

-- the loop of `scan`
unfoldable pub scan_from : Bool → Bool → List ℕ → Scanner → Result
scan_from dot after_first [] s = scan_end s
scan_from dot after_first (char ∷ rest) s = elim (case_of dot after_first char) [
  | quote ↦ consume_literal char token_type_literal false rest s
  | solo ↦ scan_solo char rest s
  | identifier ↦ scan_from dot true rest (scan_identifier char s)
  | mixed ↦ scan_from dot true rest (scan_mixed char s)
  | split ↦ scan_split char rest s
]

unfoldable pub is_eof : Option ReadError → Bool
is_eof (some eof) = true
is_eof (some failed) = false
is_eof none = false

-- `scan`; its argument is `dotOperatorAsSplit`
unfoldable pub scan : Bool → Scanner → Result
unfolding scan_from is_eof scan_end scan_end_by scan_solo scan_split scan_mixed consume_literal
    consume_field consume_identifier_like consume_spaces append_token_with_type_to_seq
scan dot s =
    if s.unscan
    then (record s { unscan = false }, true)
    else if is_eof s.err
    then (s, false)
    else scan_from dot false s.unread (reset_before_next_scan s)

pub data ScanError : Type 0 where
  empty_seq more_than_one_seq : ScanError

pub data Scanned : Type 0 where
  ok : Seq → Scanned
  err : ScanError → Scanned

-- `ScanDotAllowedInIdentifiersOrError`
unfoldable pub scan_dot_allowed_or_error : Scanner → Scanned
unfolding scan can_scan
scan_dot_allowed_or_error s =
    let (s', has_seq) = scan false s in
    if not has_seq then err empty_seq else if can_scan s' then err more_than_one_seq else ok s'.seq

-- `ScanExactlyOneSeqWithDotAllowedInIdenfierFromString`
unfoldable pub scan_exactly_one_seq : Bytes → Scanned
unfolding scan_dot_allowed_or_error
scan_exactly_one_seq value = scan_dot_allowed_or_error (reset (runes value) eof)
