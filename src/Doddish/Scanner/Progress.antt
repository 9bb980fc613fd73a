-- ===== src/Doddish/Scanner/Progress.antt =====
-- A scan that finds a sequence has read something, so a loop of scans ends
-- (go/internal/_/doddish/scanner.go), where its reader ends by io.EOF.
use dodder.Prelude.{
  ℕ, suc, ◌≤◌, ◌<◌, ◌≡◌, ◌≢◌, refl, ap, ◌∙◌, List, [], ◌∷◌, Bool, true, false, not, ◌==◌, ◌||◌,
  if◌then◌else◌, length, ltb, drop, Bytes, none, some, arith,
}
use dodder.Doddish.Op.{make_op, is_space, is_solo_seq_op}
use dodder.Doddish.Seq.{add, token_type_literal, token_type_operator}
use dodder.Doddish.Scanner.{
  ReadError, eof, failed, Scanner, Case, quote, solo, identifier, mixed, split, case_of, write_rune,
  append_token_with_type_to_seq, scan_identifier, scan_mixed, scan_solo, scan_split, scan_end,
  scan_end_by, scan_from, scan, is_eof, Result, reset_before_next_scan, consume_literal,
  consume_spaces, consume_identifier_like, consume_field, add_if_any, write_content,
}
use dodder.Doddish.Scanner.Lossless.{scan_from-step, scan-eq}

abbrev left : Result → ℕ
left r = length r.0.unread

if_le : (b : Bool) (x y : Result) (n : ℕ) → left x ≤ n → left y ≤ n → left (if b then x else y) ≤ n
if_le true x y n hx hy = hx
if_le false x y n hx hy = hy

add_if_any-unread : (t : ℕ) (bites : Bytes) (s : Scanner) → (add_if_any t bites s).unread ≡ s.unread
add_if_any-unread t [] s = refl
add_if_any-unread t (b ∷ bites) s = refl

append_token-unread : (t : ℕ) (s : Scanner) → (append_token_with_type_to_seq t s).unread ≡ s.unread
unfolding append_token_with_type_to_seq
append_token-unread t s = add_if_any-unread t (drop s.scanned_offset s.scanned) s

left_of : (r : Scanner) (unread : List ℕ) → r.unread ≡ unread → length r.unread ≤ length unread
left_of r unread e = rw e (omega arith)

consume_spaces-le : (unread : List ℕ) (s : Scanner) → left (consume_spaces unread s) ≤ length unread
unfolding consume_spaces
consume_spaces-le [] s = omega arith
consume_spaces-le (r ∷ rest) s =
    if_le (is_space r) (consume_spaces rest s) (record s { unread = r ∷ rest; err = none }, true)
      (suc (length rest)) (omega (arith, consume_spaces-le rest s)) (omega arith)

consume_literal-le :
    (start t : ℕ) (last : Bool) (unread : List ℕ) (s : Scanner)
    → left (consume_literal start t last unread s) ≤ length unread
unfolding consume_literal
consume_literal-le start t last [] s = omega arith
consume_literal-le start t last (char ∷ rest) s =
    let s' = write_content start last char s in
    let closed : Scanner = record s' { unread = rest; err = none } in
    if_le (not (char == start) || last) (consume_literal start t (char == b'\\') rest s')
      (append_token_with_type_to_seq t closed, true) (suc (length rest))
      (omega (arith, consume_literal-le start t (char == b'\\') rest s'))
      (omega (
        arith,
        left_of (append_token_with_type_to_seq t closed) rest (append_token-unread t closed),
      ))

consume_identifier_like-le :
    (t idx : ℕ) (unread : List ℕ) (s : Scanner)
    → left (consume_identifier_like t idx unread s) ≤ length unread
unfolding consume_identifier_like
consume_identifier_like-le t idx [] s = omega arith
consume_identifier_like-le t idx (char ∷ rest) s =
    let more = consume_identifier_like t idx rest (write_rune char s) in
    let stop : Result = (
      record s { seq = add s.seq t (drop idx s.scanned); unread = char ∷ rest; err = none },
      true,
    ) in
    if_le (char == b'"' || char == b'\'') (consume_literal char t false rest s)
      (if not (is_solo_seq_op true (make_op char)) then more else stop) (suc (length rest))
      (omega (arith, consume_literal-le char t false rest s))
      (if_le (not (is_solo_seq_op true (make_op char))) more stop (suc (length rest))
        (omega (arith, consume_identifier_like-le t idx rest (write_rune char s))) (omega arith))

scan_solo-le : (char : ℕ) (rest : List ℕ) (s : Scanner) → left (scan_solo char rest s) ≤ length rest
unfolding scan_solo
scan_solo-le char rest s =
    let s' = append_token_with_type_to_seq token_type_operator (write_rune char s) in
    if_le (is_space (make_op char)) (consume_spaces rest s')
      (record s' { unread = rest; err = none }, true) (length rest) (consume_spaces-le rest s')
      (omega arith)

scan_split-le :
    (char : ℕ) (rest : List ℕ) (s : Scanner) → left (scan_split char rest s) ≤ suc (length rest)
unfolding scan_split consume_field
scan_split-le char rest s =
    let s' = append_token_with_type_to_seq s.token_type_probably s in
    if_le (char == b'=') (consume_field char rest s')
      (record s' { unread = char ∷ rest; err = none }, true) (suc (length rest))
      (omega (arith, consume_identifier_like-le token_type_literal _ rest (write_rune char s')))
      (omega arith)

scan_end_by-le : (e : ReadError) (s : Scanner) → left (scan_end_by e s) ≤ 0
unfolding scan_end_by
scan_end_by-le eof s =
    let s' : Scanner = record s { unread = []; err = some eof } in
    left_of (append_token_with_type_to_seq s.token_type_probably s') []
      (append_token-unread s.token_type_probably s')
scan_end_by-le failed s = omega arith

-- behind the first rune of a sequence, runes are only taken off
scan_from-le :
    (dot : Bool) (unread : List ℕ) (s : Scanner)
    → left (scan_from dot true unread s) ≤ length unread
scan_from-le dot [] s = unfold scan_from scan_end in scan_end_by-le s.at_end s
scan_from-le dot (c ∷ rest) s = go (case_of dot true c) refl (scan_from-le dot rest)
  where
    go :
        (k : Case)
        → case_of dot true c ≡ k
        → ((s' : Scanner) → left (scan_from dot true rest s') ≤ length rest)
        → left (scan_from dot true (c ∷ rest) s) ≤ suc (length rest)
    go quote e ih =
        rw (scan_from-step dot true c rest s quote e)
          (omega (arith, consume_literal-le c token_type_literal false rest s))
    go solo e ih =
        rw (scan_from-step dot true c rest s solo e) (omega (arith, scan_solo-le c rest s))
    go identifier e ih =
        rw (scan_from-step dot true c rest s identifier e) (omega (arith, ih (scan_identifier c s)))
    go mixed e ih =
        rw (scan_from-step dot true c rest s mixed e) (omega (arith, ih (scan_mixed c s)))
    go split e ih = rw (scan_from-step dot true c rest s split e) (scan_split-le c rest s)

-- a sequence does not end at its first rune
not_split_first : (dot : Bool) (c : ℕ) → case_of dot false c ≢ split
unfolding case_of
not_split_first dot c = ground arith

nothing_left : (s : Scanner) → s.scanned ≡ [] → s.at_end ≡ eof → (scan_end s).1 ≡ false
unfolding scan_end scan_end_by
nothing_left s none_yet e =
    ap (λ a. (scan_end_by a s).1) e ∙ ap (λ (b : Bytes). ltb 0 (length b)) none_yet

scan_from-lt :
    (dot : Bool) (unread : List ℕ) (s : Scanner)
    → s.scanned ≡ []
    → s.at_end ≡ eof
    → (scan_from dot false unread s).1 ≡ true
    → left (scan_from dot false unread s) < length unread
scan_from-lt dot [] s none_yet e found =
    let ended : (scan_from dot false [] s).1 ≡ false =
      unfold scan_from in nothing_left s none_yet e in
    cc
scan_from-lt dot (c ∷ rest) s none_yet e found = go (case_of dot false c) refl
  where
    go :
        (k : Case)
        → case_of dot false c ≡ k
        → left (scan_from dot false (c ∷ rest) s) < suc (length rest)
    go quote eq =
        rw (scan_from-step dot false c rest s quote eq)
          (omega (arith, consume_literal-le c token_type_literal false rest s))
    go solo eq =
        rw (scan_from-step dot false c rest s solo eq) (omega (arith, scan_solo-le c rest s))
    go identifier eq =
        rw (scan_from-step dot false c rest s identifier eq)
          (omega (arith, scan_from-le dot rest (scan_identifier c s)))
    go mixed eq =
        rw (scan_from-step dot false c rest s mixed eq)
          (omega (arith, scan_from-le dot rest (scan_mixed c s)))
    go split eq = absurd (not_split_first dot c eq)

-- A scan that finds a sequence leaves fewer runes to read, so that a loop of scans ends. The
-- scanner has no sequence to scan again, has not met the end, and its reader ends by io.EOF.
pub scan-progress :
    (dot : Bool) (s : Scanner)
    → s.unscan ≡ false
    → is_eof s.err ≡ false
    → s.at_end ≡ eof
    → (scan dot s).1 ≡ true
    → length (scan dot s).0.unread < length s.unread
scan-progress dot s un er e found = rw (scan-eq dot s un er) (
    scan_from-lt dot s.unread (reset_before_next_scan s) refl e (rw (scan-eq dot s un er) at found))
