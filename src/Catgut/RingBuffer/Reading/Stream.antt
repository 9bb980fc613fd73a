-- ===== src/Catgut/RingBuffer/Reading/Stream.antt =====
-- A ring buffer over a reader is a reader of the same bytes.
use native.Mathlib.Decide.{dec_lt}
use dodder.Prelude.{
  ℕ, ◌+◌, ◌≤◌, ◌<◌, ◌≡◌, inl, inr, refl, sym, ◌∙◌, [], ◌++◌, true, false, leb, ◌==◌, if◌then◌else◌,
  Option, none, some, length, take, drop, Bytes, arith, append_assoc, length-append, length-take,
  length-drop, take-append-drop, Bool-cases, Option-cases,
}
use dodder.Catgut.RingBuffer.{
  RingBuffer, cap, Error, eof, no_progress, buffer_full, not_found, other,
}
use dodder.Catgut.RingBuffer.Reading.{returned, ◌>>=◌, run, ReadAnswer, read_buffered, fill, read}
use dodder.Catgut.RingBuffer.Reading.Filling.{IsReader}
use dodder.Catgut.RingBuffer.Reading.Fill.{Fills, fill_lem}
use dodder.Catgut.RingBuffer.Reading.Buffered.{read_buffered_lem}
use dodder.Catgut.RingBuffer.Layout.{Holds, rb_len-Holds}

module _ {R : Type 0} (next : R → ℕ → ReadAnswer R) (rest : R → Bytes) (law : IsReader next rest)
    (fuel : ℕ) where
  -- The answer of a call of `Read` for `n` bytes: `p` comes from the front of the stream, which is
  -- what the buffer holds and then what the reader has.
  abbrev pub ReadsOn : RingBuffer → Bytes → R → ℕ → Type 0
  ReadsOn rb q r n =
      (p : Bytes) × (e : Option Error) × (rb' : RingBuffer) × (q' : Bytes) × (r' : R) × (read next
          fuel rb r n
        ≡ returned (p, e, rb', r'))
      × Holds rb' q'
      × (q ++ rest r ≡ p ++ (q' ++ rest r'))
      × (length p ≤ n)
      × (cap rb' ≡ cap rb)
      × (e ≡ none → 0 < n → 0 < length p)

  on_buffered :
      (rb rb1 : RingBuffer) (q q1 : Bytes) (r r1 : R) (n : ℕ) (e : Option Error)
      → read next fuel rb r n
        ≡ (read_buffered rb1 n e >>= λ (p, e', rb2). returned (p, e', rb2, r1))
      → Holds rb1 q1
      → q ++ rest r ≡ q1 ++ rest r1
      → cap rb1 ≡ cap rb
      → 0 < length q1
      → ReadsOn rb q r n
  on_buffered rb rb1 q q1 r r1 n e result h same same_cap filled =
      let (rb2, done2, h2, cap2) = read_buffered_lem rb1 q1 n e h in
      let e' : Option Error = if leb (length q1) n then some eof else e in
      (
        take n q1,
        e',
        rb2,
        drop n q1,
        r1,
        result ∙ rw (done2, ◌>>=◌) refl,
        h2,
        same ∙ rw (← append_assoc (take n q1) (drop n q1) (rest r1), take-append-drop n q1) refl,
        omega (arith, length-take n q1),
        cap2 ∙ same_cap,
        λ _ pos. omega (arith, length-take n q1),
      )

  read-buffered :
      (rb : RingBuffer) (q : Bytes) (r : R) (n : ℕ)
      → Holds rb q
      → 0 < length q
      → read next fuel rb r n
        ≡ (read_buffered rb n none >>= λ (p, e', rb2). returned (p, e', rb2, r))
  unfolding read
  read-buffered rb q r n h some_left =
      let t : (length q == 0) ≡ false = ground arith in rw (rb_len-Holds rb q h, run, ◌>>=◌, t) refl

  on_filled :
      (rb : RingBuffer) (q : Bytes) (r : R) (n : ℕ)
      → Holds rb q
      → length q ≡ 0
      → 0 < cap rb
      → Fills next rest law fuel (fill next fuel rb r) rb q r
      → ReadsOn rb q r n
  unfolding read
  on_filled rb q r n h empty some_cap (d, e, rb1, r1, result, given, h1, cap1, moved, full, ended) =
      let t : (length q == 0) ≡ true = ground arith in
      let same : q ++ rest r ≡ (q ++ d) ++ rest r1 = rw given (sym (append_assoc q d (rest r1))) in
      let length_d : length (q ++ d) ≡ length d = omega (arith, length-append q d) in
      let failed : (x : Error)
          → read next fuel rb r n ≡ returned ([], some x, rb1, r1)
          → ReadsOn rb q r n =
        λ x eq. ([], some x, rb1, q ++ d, r1, eq, h1, same, omega arith, cap1, λ h2. cc) in
      let filled : (e' : Option Error)
          → 0 < length d
          → read next fuel rb r n
            ≡ (read_buffered rb1 n e' >>= λ (p, e2, rb2). returned (p, e2, rb2, r1))
          → ReadsOn rb q r n =
        λ e' pos eq. on_buffered rb rb1 q (q ++ d) r r1 n e' eq h1 same cap1 (omega arith) in
      elim (Option-cases e) [
        | inl fine ↦
            filled none (moved (omega arith) fine)
              (rw (rb_len-Holds rb q h, run, ◌>>=◌, t, result, ◌>>=◌, fine) refl)
        | inr (eof, is_eof) ↦ elim (Bool-cases (length d == 0)) [
          | inl no_bytes ↦
              failed eof
                (rw (rb_len-Holds rb q h, run, ◌>>=◌, t, result, ◌>>=◌, is_eof, no_bytes) refl)
          | inr some_bytes ↦
              filled (some eof) (ground arith)
                (rw (rb_len-Holds rb q h, run, ◌>>=◌, t, result, ◌>>=◌, is_eof, some_bytes) refl)
        ]
        | inr (no_progress, bad) ↦
            failed no_progress (rw (rb_len-Holds rb q h, run, ◌>>=◌, t, result, ◌>>=◌, bad) refl)
        | inr (buffer_full, bad) ↦
            failed buffer_full (rw (rb_len-Holds rb q h, run, ◌>>=◌, t, result, ◌>>=◌, bad) refl)
        | inr (not_found, bad) ↦
            failed not_found (rw (rb_len-Holds rb q h, run, ◌>>=◌, t, result, ◌>>=◌, bad) refl)
        | inr (other k, bad) ↦
            failed (other k) (rw (rb_len-Holds rb q h, run, ◌>>=◌, t, result, ◌>>=◌, bad) refl)
      ]

  -- Let the buffer have a place for a byte, and let its reader give its bytes in order and no more than
  -- it is asked for, say io.EOF at its end only, and give, when it is asked for bytes, one of them
  -- or an error, but for at most `stalls` calls that give neither. Let the fuel be as many calls as
  -- the buffer has places, and `stalls` more. Then `Read` returns, and the bytes that it gives are the next of the stream, none of which is
  -- lost or comes twice, also where it gives an error; without an error there is a byte, if one was
  -- asked for.
  pub read_lem :
      (rb : RingBuffer) (q : Bytes) (r : R) (n : ℕ)
      → Holds rb q
      → 0 < cap rb
      → cap rb + law.stalls r ≤ fuel
      → ReadsOn rb q r n
  read_lem rb q r n h some_cap enough = elim (dec_lt 0 (length q)) [
    | yes some_left ↦
        on_buffered rb rb q q r r n none (read-buffered rb q r n h some_left) h refl refl some_left
    | no none_left ↦
        on_filled rb q r n h (omega arith) some_cap (fill_lem next rest law fuel rb q r enough h)
  ]

  -- Where a buffer is empty and filling it meets io.EOF behind more bytes than are asked for, `Read`
  -- says io.EOF although the buffer holds the rest of these bytes.
  pub read-early_eof :
      (rb : RingBuffer) (r : R) (d : Bytes) (rb1 : RingBuffer) (r1 : R) (n : ℕ)
      → Holds rb []
      → fill next fuel rb r ≡ returned (length d, some eof, rb1, r1)
      → Holds rb1 d
      → n < length d
      → (rb' : RingBuffer) × (read next fuel rb r n ≡ returned (take n d, some eof, rb', r1))
        × Holds rb' (drop n d)
        × (0 < length (drop n d))
  unfolding read
  read-early_eof rb r d rb1 r1 n h filled h1 more =
      let t : (length d == 0) ≡ false = ground arith in
      let s : leb (length d) n ≡ false = ground arith in
      let (rb', result, h', same) = read_buffered_lem rb1 d n (some eof) h1 in
      (
        rb',
        rw (rb_len-Holds rb [] h, run, ◌>>=◌, filled, ◌>>=◌, t, result, s, ◌>>=◌) refl,
        h',
        omega (arith, length-drop n d),
      )
