-- ===== src/Doddish/Scanner/Path.antt =====
-- How go/internal/_/doddish/scanner.go reads two identifiers around a slash.
use dodder.Prelude.{
  ℕ, ◌+◌, ◌≡◌, ◌≢◌, ◌⊎◌, inl, inr, refl, sym, ap, ◌∙◌, List, [], ◌∷◌, ◌++◌, append_assoc,
  append-nil, Bool, true, false, ltb, lt→ltb, length, length-append, drop_prefix, Bytes, All,
  All-append, some, arith,
}
use dodder.Utf8.{encode_rune, encode, runes}
use dodder.Utf8.RoundTrip.{IsRune, encode_rune-pos, encode_rune-ascii, runes-encode}
use dodder.Doddish.Op.{
  make_op, get_type, unknown, is_solo_or_prefix, is_mixed_or_prefix, is_solo_seq_op,
  is_mixed_seq_op, is_inline_op,
}
use dodder.Doddish.Seq.{Token, Seq, add, token_type_operator, token_type_identifier}
use dodder.Doddish.Scanner.{
  eof, Scanner, identifier, mixed, case_of, write_rune, reset, append_token_with_type_to_seq,
  scan_mixed, scan_end, scan_end_by, scan_from, is_eof, scan_exactly_one_seq,
  scan_dot_allowed_or_error, can_scan, ok,
}
use dodder.Doddish.Scanner.Lossless.{scan_from-step, scan-eq}

-- a rune of an identifier: no operator and no quote; a hyphen may stand behind the first rune
abbrev pub IsPlain : ℕ → Type 0
IsPlain c = (get_type (make_op c) ≡ unknown) × (c ≢ b'"') × (c ≢ b'\'') × IsRune c

abbrev pub IsInner : ℕ → Type 0
IsInner c = IsPlain c ⊎ (c ≡ b'-')

abbrev pub IsIdentifier : List ℕ → Type 0
IsIdentifier [] = ⊥
IsIdentifier (c ∷ cs) = IsPlain c × All IsInner cs

case-plain : (af : Bool) (c : ℕ) → IsPlain c → case_of false af c ≡ identifier
unfolding case_of is_solo_seq_op is_mixed_seq_op is_inline_op
case-plain af c (op, q, q', r) =
    rw (op, is_solo_or_prefix, is_mixed_or_prefix) (ground (arith, q, q'))

case-inner : (c : ℕ) → IsInner c → case_of false true c ≡ identifier
case-inner c (inl h) = case-plain true c h
case-inner c (inr e) =
    rw e (unfold case_of make_op is_solo_seq_op is_mixed_seq_op is_inline_op get_type in refl)

case-slash : case_of false true b'/' ≡ mixed
unfolding case_of make_op is_solo_seq_op is_mixed_seq_op is_inline_op get_type
case-slash = refl

-- a scanner with this buffer and these tokens
abbrev state : Scanner → Bytes → ℕ → ℕ → Seq → Scanner
state s scanned probably offset seq = record s {
  token_type_probably = probably;
  scanned = scanned;
  scanned_offset = offset;
  seq = seq;
}

module _ (s : Scanner) where
  -- the runes of a word are all written to the buffer
  scan_word :
      (cs rest : List ℕ) (scanned : Bytes) (offset : ℕ) (seq : Seq)
      → All IsInner cs
      → scan_from false true (cs ++ rest) (state s scanned token_type_identifier offset seq)
        ≡ scan_from false true rest
            (state s (scanned ++ encode cs) token_type_identifier offset seq)
  scan_word [] rest scanned offset seq h =
      unfold encode in
      ap (λ b. scan_from false true rest (state s b token_type_identifier offset seq))
        (sym (append-nil scanned))
  scan_word (c ∷ cs) rest scanned offset seq h =
      scan_from-step false true c (cs ++ rest) (state s scanned token_type_identifier offset seq)
        identifier (case-inner c h.0)
      ∙ scan_word cs rest (scanned ++ encode_rune c) offset seq h.1
      ∙ (unfold encode in
          ap (λ b. scan_from false true rest (state s b token_type_identifier offset seq))
            (append_assoc scanned (encode_rune c) (encode cs)))

  first_word :
      (af : Bool) (cs rest : List ℕ) (scanned : Bytes) (probably offset : ℕ) (seq : Seq)
      → IsIdentifier cs
      → scan_from false af (cs ++ rest) (state s scanned probably offset seq)
        ≡ scan_from false true rest
            (state s (scanned ++ encode cs) token_type_identifier offset seq)
  first_word af [] rest scanned probably offset seq h = absurd h
  first_word af (c ∷ cs) rest scanned probably offset seq h =
      scan_from-step false af c (cs ++ rest) (state s scanned probably offset seq) identifier
        (case-plain af c h.0)
      ∙ scan_word cs rest (scanned ++ encode_rune c) offset seq h.1
      ∙ (unfold encode in
          ap (λ b. scan_from false true rest (state s b token_type_identifier offset seq))
            (append_assoc scanned (encode_rune c) (encode cs)))

  -- what is pending becomes a token
  append_pending :
      (t : ℕ) (before pend : Bytes) (probably offset : ℕ) (seq : Seq)
      → pend ≢ []
      → offset ≡ length before
      → append_token_with_type_to_seq t (state s (before ++ pend) probably offset seq)
        ≡ state s (before ++ pend) probably (length (before ++ pend)) (add seq t pend)
  unfolding append_token_with_type_to_seq
  append_pending t before [] probably offset seq ne e = absurd (ne refl)
  append_pending t before (b ∷ pend) probably offset seq ne e =
      let total : length before + length (b ∷ pend) ≡ length (before ++ b ∷ pend) =
        sym (length-append before (b ∷ pend)) in
      rw (e, drop_prefix before (b ∷ pend))
        (ap (λ o. state s (before ++ b ∷ pend) probably o (add seq t (b ∷ pend))) total)

pub encode-ne-nil : (cs : List ℕ) → IsIdentifier cs → encode cs ≢ []
unfolding encode
encode-ne-nil [] h e = h
encode-ne-nil (c ∷ cs) h e = omega (
  arith,
  encode_rune-pos c,
  length-append (encode_rune c) (encode cs),
  ap (λ (b : Bytes). length b) e,
)

abbrev pub slash : Token
slash = record { type = token_type_operator; contents = b'/' ∷ [] }

abbrev pub word : List ℕ → Token
word cs = record { type = token_type_identifier; contents = encode cs }

module _ (l r : List ℕ) (hl : IsIdentifier l) (hr : IsIdentifier r) where
  abbrev path : List ℕ
  path = l ++ b'/' ∷ r

  abbrev start : Scanner
  start = reset path eof

  abbrev before_right : Bytes
  before_right = encode l ++ b'/' ∷ []

  scan_slash :
      scan_mixed b'/' (state start (encode l) token_type_identifier 0 [])
      ≡ state start before_right token_type_identifier (length before_right) (word l ∷ slash ∷ [])
  unfolding scan_mixed
  scan_slash =
      ap (λ s. append_token_with_type_to_seq token_type_operator (write_rune b'/' s))
        (append_pending start token_type_identifier [] (encode l) token_type_identifier 0 []
          (encode-ne-nil l hl) refl)
      ∙ (unfold add in
          rw (encode_rune-ascii b'/' (omega arith)) (
            append_pending start token_type_operator (encode l) (b'/' ∷ []) token_type_identifier
              (length (encode l)) (word l ∷ []) (cc) refl))

  abbrev last_state : Scanner
  last_state =
      state start (before_right ++ encode r) token_type_identifier (length before_right)
        (word l ∷ slash ∷ [])

  scan_words : scan_from false false path (state start [] 0 0 []) ≡ scan_end last_state
  scan_words =
      first_word start false l (b'/' ∷ r) [] 0 0 [] hl
      ∙ scan_from-step false true b'/' r (state start (encode l) token_type_identifier 0 []) mixed
          case-slash
      ∙ ap (scan_from false true r) scan_slash
      ∙ ap
          (λ u. scan_from false true u (
            state start before_right token_type_identifier (length before_right)
              (word l ∷ slash ∷ [])))
          (sym (append-nil r))
      ∙ first_word start true r [] before_right token_type_identifier (length before_right)
          (word l ∷ slash ∷ []) hr
      ∙ (unfold scan_from in refl)

  abbrev ended : Scanner
  ended =
      state (record start { unread = []; err = some eof }) (before_right ++ encode r)
        token_type_identifier (length (before_right ++ encode r)) (word l ∷ slash ∷ word r ∷ [])

  scan_last : scan_end last_state ≡ (ended, true)
  unfolding scan_end scan_end_by add
  scan_last =
      let some_bytes : ltb 0 (length (before_right ++ encode r)) ≡ true = lt→ltb _ _ (
        omega
          (arith, length-append before_right (encode r), length-append (encode l) (b'/' ∷ []))) in
      rw
        (
          some_bytes,
          append_pending (record start { unread = []; err = some eof }) token_type_identifier
              before_right (encode r) token_type_identifier (length before_right)
              (word l ∷ slash ∷ []) (encode-ne-nil r hr) refl,
        )
        refl

IsInner-IsRune : (cs : List ℕ) → All IsInner cs → All IsRune cs
IsInner-IsRune [] h = tt
IsInner-IsRune (c ∷ cs) (inl h, hs) = (h.3, IsInner-IsRune cs hs)
IsInner-IsRune (c ∷ cs) (inr e, hs) = (inl (omega (arith, e)), IsInner-IsRune cs hs)

pub IsIdentifier-IsRune : (cs : List ℕ) → IsIdentifier cs → All IsRune cs
IsIdentifier-IsRune [] h = absurd h
IsIdentifier-IsRune (c ∷ cs) h = (h.0.3, IsInner-IsRune cs h.1)

-- Two identifiers around a slash are read as one sequence of three tokens.
pub scan_exactly_one_seq-path :
    (l r : List ℕ)
    → IsIdentifier l
    → IsIdentifier r
    → scan_exactly_one_seq (encode (l ++ b'/' ∷ r)) ≡ ok (word l ∷ slash ∷ word r ∷ [])
unfolding scan_exactly_one_seq scan_dot_allowed_or_error
scan_exactly_one_seq-path l r hl hr =
    let ascii : IsRune b'/' = inl (omega arith) in
    let read : runes (encode (l ++ b'/' ∷ r)) ≡ l ++ b'/' ∷ r = runes-encode (l ++ b'/' ∷ r) (
      All-append IsRune l (b'/' ∷ r) (IsIdentifier-IsRune l hl)
        (ascii, IsIdentifier-IsRune r hr)) in
    let run =
      scan-eq false (start l r hl hr) refl (unfold is_eof in refl)
      ∙ scan_words l r hl hr
      ∙ scan_last l r hl hr in
    rw (read, run) (unfold can_scan in refl)
