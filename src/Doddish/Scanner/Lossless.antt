-- ===== src/Doddish/Scanner/Lossless.antt =====
-- What the tokens of a scan and the runes it leaves spell (go/internal/_/doddish/scanner.go).
use dodder.Prelude.{
  ℕ, ◌≡◌, ◌≢◌, refl, ap, ◌∙◌, List, [], ◌∷◌, ◌++◌, append_assoc, Bool, true, false, ◌==◌,
  if◌then◌else◌, Bytes, All, some, arith,
}
use dodder.Utf8.{encode_rune, encode}
use dodder.Doddish.Op.{make_op, is_space}
use dodder.Doddish.Seq.{string, token_type_operator, token_type_literal}
use dodder.Doddish.Scanner.{
  eof, Scanner, Case, quote, solo, identifier, mixed, split, case_of, write_rune,
  append_token_with_type_to_seq, scan_identifier, scan_mixed, scan_solo, scan_split, scan_end,
  scan_end_by, scan_from, scan, is_eof, Result, reset_before_next_scan, consume_literal,
}
use dodder.Doddish.Scanner.Buffer.{
  pending, InBuffer, NotQuote, pending-write_rune, InBuffer-write_rune, string-append_token,
  append_token_rest, InBuffer-scan_mixed, written, pending-scan_mixed, case-ne-quote, case-ne-solo,
  case-ne-split,
}

-- the tokens and the runes left, as bytes
abbrev pub text : Result → Bytes
text r = string r.0.seq ++ encode r.0.unread

-- at the start of a sequence the next rune is no space that is an operator
abbrev pub Starts : Bool → List ℕ → Type 0
Starts true unread = Unit
Starts false [] = Unit
Starts false (c ∷ rest) = is_space (make_op c) ≡ false

plain_start :
    (dot af : Bool) (c : ℕ) (rest : List ℕ)
    → case_of dot af c ≡ solo
    → Starts af (c ∷ rest)
    → is_space (make_op c) ≡ false
plain_start dot true c rest eq h = absurd (case-ne-solo dot c eq)
plain_start dot false c rest eq h = h

split_ne : (dot af : Bool) (c : ℕ) → case_of dot af c ≡ split → c ≢ b'='
split_ne dot af c eq e = case-ne-split dot af (rw e at eq)

at_end-scan_mixed :
    (c : ℕ) (s : Scanner) → InBuffer s → s.at_end ≡ eof → (scan_mixed c s).at_end ≡ eof
unfolding scan_mixed
at_end-scan_mixed c s h e =
    (append_token_rest token_type_operator
      (write_rune c (append_token_with_type_to_seq s.token_type_probably s)) (written c s h)).2
    ∙ (append_token_rest s.token_type_probably s h).2
    ∙ e

text-scan_end_by : (s : Scanner) → InBuffer s → text (scan_end_by eof s) ≡ pending s ++ []
unfolding scan_end_by
text-scan_end_by s h =
    let s' : Scanner = record s { unread = []; err = some eof } in
    rw
      (
        string-append_token s.token_type_probably s' h,
        (append_token_rest s.token_type_probably s' h).1,
      )
      (unfold encode in refl)

text-scan_end : (s : Scanner) → InBuffer s → s.at_end ≡ eof → text (scan_end s) ≡ pending s ++ []
unfolding scan_end
text-scan_end s h e = ap (λ a. text (scan_end_by a s)) e ∙ text-scan_end_by s h

spell :
    (seen : Bytes) (c : ℕ) (rest : List ℕ)
    → (seen ++ encode_rune c) ++ encode rest ≡ seen ++ encode (c ∷ rest)
unfolding encode
spell seen c rest = append_assoc seen (encode_rune c) (encode rest)

text-scan_solo :
    (c : ℕ) (rest : List ℕ) (s : Scanner)
    → InBuffer s
    → is_space (make_op c) ≡ false
    → text (scan_solo c rest s) ≡ pending s ++ encode (c ∷ rest)
unfolding scan_solo
text-scan_solo c rest s h plain = rw plain (
    rw
      (
        string-append_token token_type_operator (write_rune c s) (InBuffer-write_rune c s h),
        pending-write_rune c s h,
      )
      (spell (pending s) c rest))

text-scan_split :
    (c : ℕ) (rest : List ℕ) (s : Scanner)
    → InBuffer s
    → c ≢ b'='
    → text (scan_split c rest s) ≡ pending s ++ encode (c ∷ rest)
unfolding scan_split
text-scan_split c rest s h ne =
    let other : (c == b'=') ≡ false = ground (arith, ne) in
    rw (other, string-append_token s.token_type_probably s h) refl

module _ (dot af : Bool) (c : ℕ) (rest : List ℕ) (s : Scanner) where
  abbrev step : Case → Result
  step quote = consume_literal c token_type_literal false rest s
  step solo = scan_solo c rest s
  step identifier = scan_from dot true rest (scan_identifier c s)
  step mixed = scan_from dot true rest (scan_mixed c s)
  step split = scan_split c rest s

  pub scan_from-step : (k : Case) → case_of dot af c ≡ k → scan_from dot af (c ∷ rest) s ≡ step k
  unfolding scan_from
  scan_from-step quote e = rw (e, scan_from)
  scan_from-step solo e = rw (e, scan_from)
  scan_from-step identifier e = rw (e, scan_from)
  scan_from-step mixed e = rw (e, scan_from)
  scan_from-step split e = rw (e, scan_from)

scan_from_lossless :
    (dot af : Bool) (unread : List ℕ) (s : Scanner)
    → InBuffer s
    → s.at_end ≡ eof
    → All NotQuote unread
    → Starts af unread
    → text (scan_from dot af unread s) ≡ pending s ++ encode unread
scan_from_lossless dot af [] s h e plain starts = unfold scan_from encode in text-scan_end s h e
scan_from_lossless dot af (c ∷ rest) s h e plain starts =
    let ih = scan_from_lossless dot true rest in
    go (case_of dot af c) refl (λ s' h' e'. ih s' h' e' plain.1 tt)
  where
    go :
        (k : Case)
        → case_of dot af c ≡ k
        → ((s' : Scanner)
            → InBuffer s'
            → s'.at_end ≡ eof
            → text (scan_from dot true rest s') ≡ pending s' ++ encode rest)
        → text (scan_from dot af (c ∷ rest) s) ≡ pending s ++ encode (c ∷ rest)
    go quote eq ih = absurd (case-ne-quote dot af c plain.0 eq)
    go solo eq ih =
        rw (scan_from-step dot af c rest s solo eq)
          (text-scan_solo c rest s h (plain_start dot af c rest eq starts))
    go identifier eq ih = rw (scan_from-step dot af c rest s identifier eq) (
        ih (scan_identifier c s) (InBuffer-write_rune c s h) e
        ∙ ap (λ x. x ++ encode rest) (pending-write_rune c s h)
        ∙ spell (pending s) c rest)
    go mixed eq ih = rw (scan_from-step dot af c rest s mixed eq) (
        ih (scan_mixed c s) (InBuffer-scan_mixed c s h) (at_end-scan_mixed c s h e)
        ∙ ap (λ x. x ++ encode rest) (pending-scan_mixed c s h)
        ∙ spell (pending s) c rest)
    go split eq ih =
        rw (scan_from-step dot af c rest s split eq)
          (text-scan_split c rest s h (split_ne dot af c eq))

pub scan-eq :
    (dot : Bool) (s : Scanner)
    → s.unscan ≡ false
    → is_eof s.err ≡ false
    → scan dot s ≡ scan_from dot false s.unread (reset_before_next_scan s)
unfolding scan
scan-eq dot s un er =
    let run = scan_from dot false s.unread (reset_before_next_scan s) in
    ap
      (λ b.
        if b then (record s { unscan = false }, true) else if is_eof s.err then (s, false) else run)
      un
    ∙ ap (λ b. if b then (s, false) else run) er

-- A scan of a text without quotes, which does not begin with a space or a line break, loses
-- nothing: the tokens and the runes left spell the text. The scanner has no sequence to scan
-- again, has not met the end, and its reader ends by io.EOF.
pub scan_lossless :
    (dot : Bool) (s : Scanner)
    → s.unscan ≡ false
    → is_eof s.err ≡ false
    → s.at_end ≡ eof
    → All NotQuote s.unread
    → Starts false s.unread
    → text (scan dot s) ≡ encode s.unread
scan_lossless dot s un er e plain starts =
    ap text (scan-eq dot s un er)
    ∙ scan_from_lossless dot false s.unread (reset_before_next_scan s) (omega arith) e plain starts
    ∙ (unfold string in refl)
