-- ===== src/Catgut/RingBuffer/Reading/Fill.antt =====
-- `Fill` moves bytes from the reader to the end of the queue.
use native.Mathlib.Decide.{dec_lt}
use dodder.Prelude.{
  ℕ, zero, suc, ◌+◌, ◌-◌, ◌%◌, ◌^◌, ◌≤◌, ◌<◌, ◌≡◌, inl, inr, refl, sym, ap, subst, ◌∙◌, [], ◌++◌,
  true, false, ltb, leb, ◌==◌, if◌then◌else◌, Option, none, some, length, drop, Bytes, arith,
  append_assoc, append-nil, length-append, length-drop, Option-cases, lt→ltb,
}
use dodder.Run.{done}
use dodder.Wire.{u64_mod}
use dodder.Catgut.RingBuffer.{
  RingBuffer, Range, size, no_range, put_at, cap, Error, eof, no_progress, peek_writeable,
}
use dodder.Catgut.RingBuffer.Reading.{
  Loop, returned, ◌>>=◌, run, ReadAnswer, Filled, read_loop, read_from, fill_loop, fill,
}
use dodder.Catgut.RingBuffer.Reading.Filling.{IsReader, TookBoth, read_from-TookBoth, put_at-nil}
use dodder.Catgut.RingBuffer.Layout.{
  buffer-eq, straight, wrapped, Holds, in_one, in_two, length-straight, rb_len-Holds, nil_of_length,
  length-le-cap, put_at-append, drop_all,
}
use dodder.Catgut.RingBuffer.Free.{
  first_free, second_free, middle_free, peek_writeable-straight, peek_writeable-wrapped,
  drop-append_le,
}

-- what `Fill` makes of the buffer after `n` bytes have come into it
abbrev grown : Range → ℕ → RingBuffer → RingBuffer
grown a n rb = record rb {
  data_length = (rb.data_length + n) % u64_mod;
  w_idx = if leb n (size a) then rb.w_idx + n else n - size a;
}

abbrev HoldsMore : RingBuffer → RingBuffer → Bytes → Type 0
HoldsMore rb rb' q = Holds rb' q × (cap rb' ≡ cap rb)

module _ (a q c d1 : Bytes) (small : length a + (length q + length c) < 2 ^ 62) where
  first_put :
      put_at (a ++ (q ++ c)) (length a + length q) d1 ≡ a ++ ((q ++ d1) ++ drop (length d1) c)
  first_put =
      rw (← append_assoc a q c, put_at-append (a ++ q) c d1 _ (sym (length-append a q)))
        (simp append_assoc)

  grown-one :
      (d2 : Bytes)
      → length d1 ≤ length c
      → length d2 ≡ 0
      → HoldsMore
          (straight a q c)
          (grown (first_free a q c small) (length d1 + length d2) (record (straight a q c) {
            content = put_at (put_at (a ++ (q ++ c)) (length a + length q) d1) 0 d2;
          }))
          (q ++ (d1 ++ d2))
  grown-one d2 inside none_more =
      let e : d2 ≡ [] = nil_of_length d2 none_more in
      let n : length d1 + 0 ≡ length d1 = omega arith in
      let total = length-straight a q c in
      let total' = length-straight a (q ++ d1) (drop (length d1) c) in
      let held = length-append q d1 in
      let left = length-drop (length d1) c in
      let fits : leb (length d1) (size (first_free a q c small)) ≡ true = ground arith in
      rw
        (
          e,
          n,
          append-nil d1,
          put_at-nil (put_at (a ++ (q ++ c)) (length a + length q) d1) 0,
          first_put,
          fits,
        )
        (
          in_one a (drop (length d1) c) (buffer-eq refl (omega arith) refl (omega arith))
              (omega arith),
          omega arith,
        )

  grown-two :
      (d2 : Bytes)
      → length d1 ≡ length c
      → length d2 ≤ length a
      → 0 < length d2
      → HoldsMore
          (straight a q c)
          (grown (first_free a q c small) (length d1 + length d2) (record (straight a q c) {
            content = put_at (put_at (a ++ (q ++ c)) (length a + length q) d1) 0 d2;
          }))
          (q ++ (d1 ++ d2))
  grown-two d2 filled inside some_more =
      let total = length-straight a q c in
      let held = length-append q d1 in
      let left = length-drop (length d2) a in
      let total' = length-straight d2 (drop (length d2) a) (q ++ d1) in
      let used : drop (length d1) c ≡ [] = drop_all (length d1) c (omega arith) in
      let wraps : leb (length d1 + length d2) (size (first_free a q c small)) ≡ false =
        ground arith in
      let put : put_at (a ++ (q ++ d1)) 0 d2 ≡ d2 ++ (drop (length d2) a ++ (q ++ d1)) =
        rw
          (
            put_at-append [] (a ++ (q ++ d1)) d2 0 refl,
            drop-append_le (length d2) a (q ++ d1) inside,
          )
          refl in
      rw (first_put, used, append-nil (q ++ d1), put, wraps)
        (
          in_two (q ++ d1) (drop (length d2) a) d2 (sym (append_assoc q d1 d2))
              (buffer-eq refl (omega arith) (omega arith) (omega arith)) (omega arith),
          omega arith,
        )

grown-wrapped :
    (q1 b q2 d1 d2 : Bytes) (small : length q2 + (length b + length q1) < 2 ^ 62)
    → length d1 ≤ length b
    → length d2 ≡ 0
    → HoldsMore
        (wrapped q1 b q2)
        (grown (middle_free q1 b q2 small) (length d1 + length d2) (record (wrapped q1 b q2) {
          content = put_at (put_at (q2 ++ (b ++ q1)) (length q2) d1) 0 d2;
        }))
        ((q1 ++ q2) ++ (d1 ++ d2))
grown-wrapped q1 b q2 d1 d2 small inside none_more =
    let e : d2 ≡ [] = nil_of_length d2 none_more in
    let n : length d1 + 0 ≡ length d1 = omega arith in
    let total = length-straight q2 b q1 in
    let held = length-append q2 d1 in
    let left = length-drop (length d1) b in
    let total' = length-straight (q2 ++ d1) (drop (length d1) b) q1 in
    let fits : leb (length d1) (size (middle_free q1 b q2 small)) ≡ true = ground arith in
    let put : put_at (q2 ++ (b ++ q1)) (length q2) d1 ≡ (q2 ++ d1) ++ (drop (length d1) b ++ q1) =
      rw (put_at-append q2 (b ++ q1) d1 _ refl, drop-append_le (length d1) b q1 inside)
        (simp append_assoc) in
    rw (e, n, append-nil d1, put_at-nil (put_at (q2 ++ (b ++ q1)) (length q2) d1) 0, put, fits)
      (
        in_two q1 (drop (length d1) b) (q2 ++ d1) (append_assoc q1 q2 d1)
            (buffer-eq refl (omega arith) (omega arith) (omega arith)) (omega arith),
        omega arith,
      )

data_length-lt : (rb : RingBuffer) (q : Bytes) → Holds rb q → rb.data_length < u64_mod
data_length-lt rb q (in_one a c e small) = rw e (omega arith)
data_length-lt rb q (in_two q1 b q2 s e small) = rw e (omega arith)

module _ {R : Type 0} (next : R → ℕ → ReadAnswer R) (rest : R → Bytes) (law : IsReader next rest)
    (fuel : ℕ) where
  -- What a call of `Fill` that gives `result` does to the queue: the bytes `d` come from the reader
  -- to its end.
  abbrev pub Fills : Loop (Filled R) → RingBuffer → Bytes → R → Type 0
  Fills result rb q r =
      (d : Bytes) × (e : Option Error) × (rb' : RingBuffer) × (r' : R) × (result
        ≡ returned (length d, e, rb', r'))
      × (rest r ≡ d ++ rest r')
      × Holds rb' (q ++ d)
      × (cap rb' ≡ cap rb)
      × (length q < cap rb → e ≡ none → 0 < length d)
      × (length q ≡ cap rb → e ≡ some no_progress)
      × (e ≡ some eof → rest r' ≡ [])

  fill-once :
      (rb rb1 : RingBuffer) (a b : Range) (r r' : R) (n : ℕ) (e : Option Error)
      → peek_writeable rb ≡ done (a, b)
      → read_from next fuel a b rb r ≡ returned (n, e, rb1, r')
      → (e ≡ none → 0 < n)
      → fill next fuel rb r ≡ returned (n, e, grown a n rb1, r')
  unfolding fill fill_loop
  fill-once rb rb1 a b r r' n e peeked took moved =
      rw (peeked, run, ◌>>=◌, took)
        (elim (Option-cases e) [
          | inr (x, failed) ↦ rw failed
          | inl fine ↦ let t : ltb 0 n ≡ true = lt→ltb 0 n (moved fine) in rw (fine, t) refl
        ])

  fill-Fills :
      (rb : RingBuffer) (q : Bytes) (a b : Range) (r : R)
      → peek_writeable rb ≡ done (a, b)
      → TookBoth next rest law (read_from next fuel a b rb r) a b rb r
      → 0 < size a + size b
      → ((d1 d2 : Bytes)
          → length d1 ≤ size a
          → length d2 ≤ size b
          → (0 < length d2 → length d1 ≡ size a)
          → HoldsMore rb
              (grown a
                (length d1 + length d2)
                (record rb { content = put_at (put_at rb.content a.from d1) b.from d2 }))
              (q ++ (d1 ++ d2)))
      → length q < cap rb
      → Fills (fill next fuel rb r) rb q r
  fill-Fills rb q a b r peeked (d1, d2, e, r', result, given, in1, in2, order, moved, ended)
        some_room holds free =
      let n : length d1 + length d2 ≡ length (d1 ++ d2) = sym (length-append d1 d2) in
      let rb' =
        grown a (length d1 + length d2)
          (record rb { content = put_at (put_at rb.content a.from d1) b.from d2 }) in
      (
        d1 ++ d2,
        e,
        rb',
        r',
        fill-once rb _ a b r r' (length d1 + length d2) e peeked result (λ h. moved h some_room)
            ∙ ap (λ m. returned (m, e, rb', r')) n,
        given ∙ sym (append_assoc d1 d2 (rest r')),
        (holds d1 d2 in1 in2 order).0,
        (holds d1 d2 in1 in2 order).1,
        λ _ h. rw (← n) (moved h some_room),
        λ h. absurd (omega arith),
        ended,
      )

  fill-straight :
      (a q c : Bytes) (r : R)
      → length a + (length q + length c) < 2 ^ 62
      → length q < cap (straight a q c)
      → cap (straight a q c) + law.stalls r ≤ fuel
      → Fills (fill next fuel (straight a q c) r) (straight a q c) q r
  fill-straight a q c r small free enough =
      let f = first_free a q c small in
      let s = second_free a q c small in
      let total = length-straight a q c in
      fill-Fills (straight a q c) q f s r (peek_writeable-straight a q c small free)
        (read_from-TookBoth next rest law fuel f s (straight a q c) r (omega arith) (omega arith)
          (omega arith))
        (omega arith)
        (λ d1 d2 in1 in2 order. elim (dec_lt 0 (length d2)) [
          | yes two ↦
              grown-two a q c d1 small d2 (let o : length d1 ≡ size f = order two in omega arith)
                (omega arith) two
          | no one ↦ grown-one a q c d1 small d2 (omega arith) (omega arith)
        ])
        free

  fill-wrapped :
      (q1 b q2 : Bytes) (r : R)
      → length q2 + (length b + length q1) < 2 ^ 62
      → 0 < length b
      → cap (wrapped q1 b q2) + law.stalls r ≤ fuel
      → Fills (fill next fuel (wrapped q1 b q2) r) (wrapped q1 b q2) (q1 ++ q2) r
  fill-wrapped q1 b q2 r small free enough =
      let f = middle_free q1 b q2 small in
      let total = length-straight q2 b q1 in
      fill-Fills (wrapped q1 b q2) (q1 ++ q2) f no_range r
        (peek_writeable-wrapped q1 b q2 small free)
        (read_from-TookBoth next rest law fuel f no_range (wrapped q1 b q2) r (omega arith)
          (omega arith) (omega arith))
        (omega arith)
        (λ d1 d2 in1 in2 order. grown-wrapped q1 b q2 d1 d2 small (omega arith) (omega arith))
        (omega (arith, length-append q1 q2))

  read_loop-none :
      (f : ℕ) (rb : RingBuffer) (r : R)
      → read_loop next f 0 no_range 0 rb r ≡ returned (0, none, rb, r)
  unfolding read_loop
  read_loop-none zero rb r = refl
  read_loop-none (suc f) rb r = refl

  fill_loop-none :
      (i : ℕ) (rb : RingBuffer) (r : R)
      → rb.data_length < u64_mod
      → fill_loop next fuel i no_range no_range rb r ≡ returned (0, some no_progress, rb, r)
  unfolding fill_loop read_from
  fill_loop-none zero rb r small = refl
  fill_loop-none (suc i) rb r small =
      let same : grown no_range 0 rb ≡ rb = buffer-eq refl (omega arith) refl (omega arith) in
      rw (read_loop-none fuel rb r, ◌>>=◌, read_loop-none fuel rb r, ◌>>=◌)
        (ap (λ (x : RingBuffer). fill_loop next fuel i no_range no_range x r) same
          ∙ fill_loop-none i rb r small)

  fill-full :
      (rb : RingBuffer) (q : Bytes) (r : R)
      → Holds rb q
      → length q ≡ cap rb
      → Fills (fill next fuel rb r) rb q r
  unfolding fill peek_writeable
  fill-full rb q r h is_full =
      let t : (length q == cap rb) ≡ true = ground arith in
      let small : rb.data_length < u64_mod = data_length-lt rb q h in
      (
        [],
        some no_progress,
        rb,
        r,
        rw (rb_len-Holds rb q h, t, run, ◌>>=◌) (fill_loop-none 100 rb r small),
        refl,
        rw (append-nil q) h,
        refl,
        λ h1. absurd (omega arith),
        λ _. refl,
        λ h1. cc,
      )

  fill-free :
      (rb : RingBuffer) (q : Bytes) (r : R)
      → cap rb + law.stalls r ≤ fuel
      → length q < cap rb
      → Holds rb q
      → Fills (fill next fuel rb r) rb q r
  fill-free rb q r enough free (in_one a c e small) =
      let same_cap : cap rb ≡ cap (straight a q c) = ap (λ (x : RingBuffer). cap x) e in
      subst (λ x. Fills (fill next fuel x r) x q r) (sym e)
        (fill-straight a q c r small (omega arith) (omega arith))
  fill-free rb q r enough free (in_two q1 b q2 s e small) =
      let same_cap : cap rb ≡ cap (wrapped q1 b q2) = ap (λ (x : RingBuffer). cap x) e in
      let same : length q ≡ length (q1 ++ q2) = ap length s in
      let total = length-straight q2 b q1 in
      subst (λ x. Fills (fill next fuel rb r) rb x r) (sym s)
        (subst (λ x. Fills (fill next fuel x r) x (q1 ++ q2) r) (sym e)
          (fill-wrapped q1 b q2 r small (omega (arith, length-append q1 q2)) (omega arith)))

  -- Let a reader give its bytes in order and no more than it is asked for, say io.EOF at its end
  -- only, and give, when it is asked for bytes, one of them or an error, but for at most `stalls`
  -- calls that give neither. Let the fuel be as many calls as the buffer has places, and `stalls`
  -- more. Then `Fill` returns, and it has added bytes of the reader to the queue, in their order
  -- and none twice; at least one if there is room and no error. A full buffer gives
  -- io.ErrNoProgress.
  pub fill_lem :
      (rb : RingBuffer) (q : Bytes) (r : R)
      → cap rb + law.stalls r ≤ fuel
      → Holds rb q
      → Fills (fill next fuel rb r) rb q r
  fill_lem rb q r enough h = elim (dec_lt (length q) (cap rb)) [
    | no full ↦ fill-full rb q r h (omega (arith, length-le-cap rb q h))
    | yes free ↦ fill-free rb q r enough free h
  ]
