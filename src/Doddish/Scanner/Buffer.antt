-- ===== src/Doddish/Scanner/Buffer.antt =====
-- The buffer and the tokens of go/internal/_/doddish/scanner.go: what they spell, and which cases of
-- the `switch` a rune can take.
use dodder.Prelude.{
  ℕ, zero, suc, ◌+◌, ◌≤◌, ◌≡◌, ◌≢◌, refl, sym, ap, ◌∙◌, List, [], ◌∷◌, ◌++◌, append_assoc,
  append-nil, Bool, true, length, length-append, length-drop, drop, Bytes, arith,
}
use dodder.Utf8.{encode_rune}
use dodder.Doddish.Op.{make_op, is_solo_seq_op, is_mixed_seq_op, is_inline_op, get_type}
use dodder.Doddish.Seq.{Seq, add, string, token_type_operator}
use dodder.Doddish.Scanner.{
  Scanner, quote, solo, split, case_of, write_rune, append_token_with_type_to_seq, scan_mixed,
  add_if_any,
}

pub string-append : (xs ys : Seq) → string (xs ++ ys) ≡ string xs ++ string ys
unfolding string
string-append [] ys = refl
string-append (x ∷ xs) ys = rw (string-append xs ys, append_assoc)

pub string-add : (seq : Seq) (t : ℕ) (c : Bytes) → string (add seq t c) ≡ string seq ++ c
unfolding add
string-add seq t c =
    string-append seq (record { type = t; contents = c } ∷ [])
    ∙ (unfold string in ap (λ x. string seq ++ x) (append-nil c))

-- what the tokens and the part of the buffer behind them spell
abbrev pub pending : Scanner → Bytes
pending s = string s.seq ++ drop s.scanned_offset s.scanned

-- the tokens end within the buffer
abbrev pub InBuffer : Scanner → Type 0
InBuffer s = s.scanned_offset ≤ length s.scanned

drop-append :
    {A : Type 0} (n : ℕ) (xs ys : List A) → n ≤ length xs → drop n (xs ++ ys) ≡ drop n xs ++ ys
drop-append zero xs ys h = refl
drop-append (suc n) [] ys h = absurd (omega arith)
drop-append (suc n) (x ∷ xs) ys h = drop-append n xs ys (omega arith)

pub pending-write_rune :
    (c : ℕ) (s : Scanner) → InBuffer s → pending (write_rune c s) ≡ pending s ++ encode_rune c
pending-write_rune c s h =
    rw (drop-append s.scanned_offset s.scanned (encode_rune c) h)
      (sym (append_assoc (string s.seq) (drop s.scanned_offset s.scanned) (encode_rune c)))

pub InBuffer-write_rune : (c : ℕ) (s : Scanner) → InBuffer s → InBuffer (write_rune c s)
InBuffer-write_rune c s h = omega (arith, length-append s.scanned (encode_rune c))

string-add_if_any :
    (t : ℕ) (bites : Bytes) (s : Scanner)
    → string (add_if_any t bites s).seq ≡ string s.seq ++ bites
string-add_if_any t [] s = sym (append-nil (string s.seq))
string-add_if_any t (b ∷ bites) s = string-add s.seq t (b ∷ bites)

add_if_any_offset :
    (t : ℕ) (bites : Bytes) (s : Scanner)
    → (add_if_any t bites s).scanned_offset ≡ s.scanned_offset + length bites
add_if_any_offset t [] s = omega arith
add_if_any_offset t (b ∷ bites) s = refl

add_if_any_rest :
    (t : ℕ) (bites : Bytes) (s : Scanner)
    → ((add_if_any t bites s).scanned ≡ s.scanned)
      × ((add_if_any t bites s).unread ≡ s.unread)
      × ((add_if_any t bites s).at_end ≡ s.at_end)
add_if_any_rest t [] s = (refl, refl, refl)
add_if_any_rest t (b ∷ bites) s = (refl, refl, refl)

drop_all : (n : ℕ) (xs : Bytes) → length xs ≤ n → drop n xs ≡ []
drop_all zero [] h = refl
drop_all zero (x ∷ xs) h = absurd (omega arith)
drop_all (suc n) [] h = refl
drop_all (suc n) (x ∷ xs) h = drop_all n xs (omega arith)

module _ (t : ℕ) (s : Scanner) (h : InBuffer s) where
  -- the pending part of the buffer becomes a token
  pub string-append_token : string (append_token_with_type_to_seq t s).seq ≡ pending s
  unfolding append_token_with_type_to_seq
  string-append_token = string-add_if_any t (drop s.scanned_offset s.scanned) s

  pub append_token_rest :
      ((append_token_with_type_to_seq t s).scanned ≡ s.scanned)
      × ((append_token_with_type_to_seq t s).unread ≡ s.unread)
      × ((append_token_with_type_to_seq t s).at_end ≡ s.at_end)
  unfolding append_token_with_type_to_seq
  append_token_rest = add_if_any_rest t (drop s.scanned_offset s.scanned) s

  append_token_offset : (append_token_with_type_to_seq t s).scanned_offset ≡ length s.scanned
  unfolding append_token_with_type_to_seq
  append_token_offset = omega (
    arith,
    add_if_any_offset t (drop s.scanned_offset s.scanned) s,
    length-drop s.scanned_offset s.scanned,
  )

  pub InBuffer-append_token : InBuffer (append_token_with_type_to_seq t s)
  InBuffer-append_token = rw (append_token_rest.0, append_token_offset) (omega arith)

  pub pending-append_token : pending (append_token_with_type_to_seq t s) ≡ pending s
  pending-append_token =
      rw
        (
          string-append_token,
          append_token_rest.0,
          append_token_offset,
          drop_all (length s.scanned) s.scanned (omega arith),
          append-nil,
        )
        refl

module _ (c : ℕ) (s : Scanner) (h : InBuffer s) where
  pub written : InBuffer (write_rune c (append_token_with_type_to_seq s.token_type_probably s))
  written =
      InBuffer-write_rune c (append_token_with_type_to_seq s.token_type_probably s)
        (InBuffer-append_token s.token_type_probably s h)

  pub InBuffer-scan_mixed : InBuffer (scan_mixed c s)
  unfolding scan_mixed
  InBuffer-scan_mixed =
      InBuffer-append_token token_type_operator
        (write_rune c (append_token_with_type_to_seq s.token_type_probably s)) written

  pub pending-scan_mixed : pending (scan_mixed c s) ≡ pending s ++ encode_rune c
  unfolding scan_mixed
  pending-scan_mixed =
      pending-append_token token_type_operator
        (write_rune c (append_token_with_type_to_seq s.token_type_probably s)) written
      ∙ pending-write_rune c (append_token_with_type_to_seq s.token_type_probably s)
          (InBuffer-append_token s.token_type_probably s h)
      ∙ ap (λ x. x ++ encode_rune c) (pending-append_token s.token_type_probably s h)

abbrev pub NotQuote : ℕ → Type 0
NotQuote c = (c ≢ b'"') × (c ≢ b'\'')

pub case-ne-quote : (dot af : Bool) (c : ℕ) → NotQuote c → case_of dot af c ≢ quote
unfolding case_of
case-ne-quote dot af c h = ground arith

pub case-ne-solo : (dot : Bool) (c : ℕ) → case_of dot true c ≢ solo
unfolding case_of
case-ne-solo dot c = ground arith

-- `=` may stand in a sequence, so that no sequence ends at one and `consumeField` is not reached
pub case-ne-split : (dot af : Bool) → case_of dot af b'=' ≢ split
unfolding case_of make_op is_solo_seq_op is_mixed_seq_op is_inline_op get_type
case-ne-split dot af = ground arith
