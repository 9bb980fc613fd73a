-- ===== src/Catgut/RingBuffer/Writing.antt =====
-- `Write` adds bytes to the queue that a ring buffer holds.
use Prim.Native.Nat.{min}
use native.Mathlib.Decide.{dec_lt}
use dodder.Prelude.{
  ◌⊎◌, ℕ, zero, suc, ◌+◌, ◌-◌, ◌%◌, ◌^◌, ◌<◌, ◌≡◌, ◌⊎◌, inl, inr, refl, sym, ap, subst, ◌∙◌, [],
  ◌∷◌, ◌++◌, true, false, ltb, ◌==◌, if◌then◌else◌, Option, none, some, length, take, drop, Bytes,
  arith, append_assoc, append-nil, length-append, length-take, length-drop, Bool-cases,
}
use dodder.Run.{Run, done, ◌>>=◌}
use dodder.Wire.{u64_mod}
use dodder.Catgut.RingBuffer.{
  RingBuffer, Range, no_range, fits, copy_into, cap, rb_len, peek_writeable, write_second,
  write_first, write, Error, eof,
}
use dodder.Catgut.RingBuffer.Layout.{
  buffer, straight, wrapped, Holds, in_one, in_two, length-straight, rb_len-Holds, nil_of_length,
  length-le-cap,
}
use dodder.Catgut.RingBuffer.Free.{
  second_free, straight-Holds, peek_writeable-straight, first_written, second_written,
  wrapped-Holds, peek_writeable-wrapped, middle_written,
}

abbrev after_first : RingBuffer → Range → Bytes → ℕ → Run (ℕ × Option Error × RingBuffer)
after_first rb1 b p n = do
  m ← rb_len rb1
  if m == cap rb1
      then done (n, some eof, rb1)
      else if n == length p
      then done (n, none, rb1)
      else write_second rb1 b p n

write_first-eq :
    (rb rb1 : RingBuffer) (a b : Range) (p : Bytes) (n : ℕ)
    → fits a p ≡ n
    → buffer
        (copy_into rb a p).content
        ((rb.data_length + fits a p) % u64_mod)
        (copy_into rb a p).r_idx
        (rb.w_idx + fits a p)
      ≡ rb1
    → write_first rb a b p ≡ after_first rb1 b p n
unfolding write_first
write_first-eq rb rb1 a b p n e1 e2 =
    ap (λ x. after_first x b p (fits a p)) e2 ∙ ap (λ k. after_first rb1 b p k) e1

abbrev after_second : RingBuffer → ℕ → Run (ℕ × Option Error × RingBuffer)
after_second rb1 n = rb_len rb1 >>= λ m. done (n, (if m == cap rb1 then some eof else none), rb1)

write_second-eq :
    (rb rb1 : RingBuffer) (b : Range) (p : Bytes) (n k : ℕ)
    → fits b (drop n p) ≡ k
    → buffer
        (copy_into rb b (drop n p)).content
        ((rb.data_length + fits b (drop n p)) % u64_mod)
        (copy_into rb b (drop n p)).r_idx
        (if ltb 0 (fits b (drop n p)) then fits b (drop n p) else rb.w_idx)
      ≡ rb1
    → write_second rb b p n ≡ after_second rb1 (n + k)
unfolding write_second
write_second-eq rb rb1 b p n k e1 e2 =
    ap (λ x. after_second x (n + fits b (drop n p))) e2 ∙ ap (λ m. after_second rb1 (n + m)) e1

-- as many of the bytes as there is room for
abbrev pub room : RingBuffer → Bytes → Bytes → ℕ
room rb q p = min (length p) (cap rb - length q)

-- what a call of `Write` does to a queue
abbrev pub Writes : RingBuffer → Bytes → Bytes → Type 0
Writes rb q p =
    (rb' : RingBuffer) × (write rb p
      ≡ done (room rb q p, (if length q + room rb q p == cap rb then some eof else none), rb'))
    × Holds rb' (q ++ take (room rb q p) p)
    × (cap rb' ≡ cap rb)

-- the rest of a call of which the first part is known
write-start :
    (rb rb1 : RingBuffer) (q : Bytes) (a b : Range) (p : Bytes) (n : ℕ)
    → Holds rb q
    → length q < cap rb
    → peek_writeable rb ≡ done (a, b)
    → write_first rb a b p ≡ after_first rb1 b p n
    → write rb p ≡ after_first rb1 b p n
unfolding write
write-start rb rb1 q a b p n h lt peeked e =
    let ne : (length q == cap rb) ≡ false = ground arith in
    rw (rb_len-Holds rb q h, ◌>>=◌, ne) (rw (peeked, ◌>>=◌) e)

take-nil : (n : ℕ) → ◌≡◌ {A = Bytes} (take n []) []
take-nil zero = refl
take-nil (suc n) = refl

-- bytes taken in two steps
take_twice : (n k : ℕ) (p : Bytes) → take n p ++ take k (drop n p) ≡ take (n + k) p
take_twice zero k p = let e : 0 + k ≡ k = omega arith in rw e
take_twice (suc n) k [] = let e : suc n + k ≡ suc (n + k) = omega arith in rw (e, take-nil k)
take_twice (suc n) k (x ∷ p) =
    let e : suc n + k ≡ suc (n + k) = omega arith in rw e (ap (λ t. x ∷ t) (take_twice n k p))

-- the cases of a call after its first part: there is no room, or nothing is left to write
module _ (rb rb1 : RingBuffer) (q p : Bytes) (b : Range) (n : ℕ) (exact : n ≡ room rb q p)
    (same : cap rb1 ≡ cap rb) (h : Holds rb1 (q ++ take n p)) where
  length-taken : length (q ++ take n p) ≡ length q + n
  length-taken = omega (arith, length-append q (take n p), length-take n p)

  after_first-done :
      (length q + n ≡ cap rb) ⊎ (n ≡ length p)
      → after_first rb1 b p n ≡ done (n, (if length q + n == cap rb then some eof else none), rb1)
  after_first-done side =
      rw (rb_len-Holds rb1 (q ++ take n p) h, ◌>>=◌, length-taken, same)
        (elim (Bool-cases (length q + n == cap rb)) [
          | inl is_full ↦ rw is_full
          | inr more ↦ let e : (n == length p) ≡ true = ground arith in rw (more, e)
        ])

  after_first-Writes :
      (length q + n ≡ cap rb) ⊎ (n ≡ length p) → write rb p ≡ after_first rb1 b p n → Writes rb q p
  after_first-Writes side e = (rb1, rw (← exact) (e ∙ after_first-done side), rw (← exact) h, same)

-- a full buffer takes nothing
write-full : (rb : RingBuffer) (q p : Bytes) → Holds rb q → length q ≡ cap rb → Writes rb q p
unfolding write
write-full rb q p h is_full =
    let none_fit : room rb q p ≡ 0 = omega arith in
    let e : (length q == cap rb) ≡ true = ground arith in
    let e0 : (length q + 0 == cap rb) ≡ true = ground arith in
    (rb, rw (none_fit, rb_len-Holds rb q h, ◌>>=◌, e, e0) refl, rw (none_fit, append-nil q) h, refl)

-- the free places at the end are filled, and there are more at the beginning
module _ (a q c p : Bytes) (small : length a + (length q + length c) < 2 ^ 62)
    (long : length c < length p) (free : 0 < length a) where
  abbrev n : ℕ
  n = min (length c) (length p)

  abbrev k : ℕ
  k = min (length a) (length (drop n p))

  abbrev q' : Bytes
  q' = q ++ take n p

  abbrev result : RingBuffer
  result = wrapped q' (drop k a) (take k (drop n p))

  length-q' : length q' ≡ length q + n
  length-q' = omega (arith, length-append q (take n p), length-take n p)

  result-Holds : Holds result (q ++ take (n + k) p)
  result-Holds =
      in_two q' (drop k a) (take k (drop n p))
        (rw (← take_twice n k p) (sym (append_assoc q (take n p) (take k (drop n p))))) refl
        (omega (arith, length-q', length-drop k a, length-take k (drop n p)))

  abbrev half : RingBuffer
  half = straight a q' (drop n c)

  used_up : drop n c ≡ []
  used_up = nil_of_length (drop n c) (omega (arith, length-drop n c))

  half_small : length a + (length q' + length (drop n c)) < 2 ^ 62
  half_small = omega (arith, length-q', length-drop n c)

  length-rest : length (drop n p) ≡ length p - n
  length-rest = length-drop n p

  write-half : write (straight a q c) p ≡ after_first half (second_free a q c small) p n
  write-half =
      let (e1, e2) = first_written a q c small p in
      let room_left : length q < cap (straight a q c) = omega (arith, length-straight a q c) in
      write-start _ half q _ _ p n (straight-Holds a q c small) room_left
        (peek_writeable-straight a q c small room_left) (write_first-eq _ half _ _ p n e1 e2)

  half-result : after_first half (second_free a q c small) p n ≡ after_second result (n + k)
  half-result =
      let some_free : 0 < k = omega (arith, length-rest) in
      let (e1, e2) = second_written a q' (drop n c) half_small (drop n p) used_up some_free in
      let not_full : (length q' == cap half) ≡ false =
        ground (arith, length-straight a q' (drop n c)) in
      let not_done : (n == length p) ≡ false = ground arith in
      rw
        (
          rb_len-Holds half q' (straight-Holds a q' (drop n c) half_small),
          ◌>>=◌,
          not_full,
          not_done,
        )
        (write_second-eq half result _ p n k e1 e2)

  write-wraps : Writes (straight a q c) q p
  write-wraps =
      let exact : n + k ≡ room (straight a q c) q p =
        omega (arith, length-straight a q c, length-rest) in
      let same : cap result ≡ cap (straight a q c) = omega (
        arith,
        length-straight a q c,
        length-straight (take k (drop n p)) (drop k a) q',
        length-q',
        length-drop k a,
        length-take k (drop n p),
        length-rest,
      ) in
      let held : length (q ++ take (n + k) p) ≡ length q + (n + k) =
        omega (arith, length-append q (take (n + k) p), length-take (n + k) p, length-rest) in
      let last : after_second result (n + k)
          ≡ done (
            n + k,
            (if length q + (n + k) == cap (straight a q c) then some eof else none),
            result,
          ) =
        rw (rb_len-Holds result (q ++ take (n + k) p) result-Holds, ◌>>=◌, held, same) refl in
      (result, rw (← exact) (write-half ∙ half-result ∙ last), rw (← exact) result-Holds, same)

write-straight :
    (a q c p : Bytes)
    → length a + (length q + length c) < 2 ^ 62
    → length q < cap (straight a q c)
    → Writes (straight a q c) q p
write-straight a q c p small free =
    let n = min (length c) (length p) in
    let rb1 = straight a (q ++ take n p) (drop n c) in
    let held = length-append q (take n p) in
    let taken = length-take n p in
    let left = length-drop n c in
    let h : Holds rb1 (q ++ take n p) =
      in_one a (drop n c) refl (omega (arith, held, taken, left)) in
    let same : cap rb1 ≡ cap (straight a q c) = omega (
      arith,
      held,
      taken,
      left,
      length-straight a q c,
      length-straight a (q ++ take n p) (drop n c),
    ) in
    let (e1, e2) = first_written a q c small p in
    let start : write (straight a q c) p ≡ after_first rb1 (second_free a q c small) p n =
      write-start _ rb1 q _ _ p n (straight-Holds a q c small) free
        (peek_writeable-straight a q c small free) (write_first-eq _ rb1 _ _ p n e1 e2) in
    let total = length-straight a q c in
    elim (dec_lt (length c) (length p)) [
      | no short ↦
          after_first-Writes _ rb1 q p _ n (omega (arith, total)) same h (inr (omega arith)) start
      | yes long ↦ elim (dec_lt 0 (length a)) [
        | yes more ↦ write-wraps a q c p small long more
        | no none_left ↦
            after_first-Writes _ rb1 q p _ n (omega (arith, total)) same h
              (inl (omega (arith, total))) start
      ]
    ]

write-wrapped :
    (q1 b q2 p : Bytes)
    → length q2 + (length b + length q1) < 2 ^ 62
    → 0 < length b
    → Writes (wrapped q1 b q2) (q1 ++ q2) p
write-wrapped q1 b q2 p small free =
    let n = min (length b) (length p) in
    let q = q1 ++ q2 in
    let rb1 = wrapped q1 (drop n b) (q2 ++ take n p) in
    let both = length-append q1 q2 in
    let held = length-append q2 (take n p) in
    let taken = length-take n p in
    let left = length-drop n b in
    let total = length-straight q2 b q1 in
    let h : Holds rb1 (q ++ take n p) =
      in_two q1 (drop n b) (q2 ++ take n p) (append_assoc q1 q2 (take n p)) refl
        (omega (arith, held, taken, left)) in
    let same : cap rb1 ≡ cap (wrapped q1 b q2) =
      omega (arith, held, taken, left, total, length-straight (q2 ++ take n p) (drop n b) q1) in
    let (e1, e2) = middle_written q1 b q2 small p in
    let start : write (wrapped q1 b q2) p ≡ after_first rb1 no_range p n =
      write-start _ rb1 q _ _ p n (wrapped-Holds q1 b q2 small) (omega (arith, total, both))
        (peek_writeable-wrapped q1 b q2 small free) (write_first-eq _ rb1 _ _ p n e1 e2) in
    let side : (length q + n ≡ cap (wrapped q1 b q2)) ⊎ (n ≡ length p) =
      elim (dec_lt (length b) (length p)) [
        | no short ↦ inr (omega arith)
        | yes long ↦ inl (omega (arith, total, both))
      ] in
    after_first-Writes _ rb1 q p _ n (omega (arith, total, both)) same h side start

-- `Write` adds as many of the bytes to the queue as there is room for, and says io.EOF exactly when
-- the buffer is full then.
pub write_lem : (rb : RingBuffer) (q p : Bytes) → Holds rb q → Writes rb q p
write_lem rb q p h = elim (dec_lt (length q) (cap rb)) [
  | no full ↦ write-full rb q p h (omega (arith, length-le-cap rb q h))
  | yes free ↦ elim h [
    | in_one a c e small ↦
        subst (λ x. Writes x q p) (sym e) (write-straight a q c p small (rw e at free))
    | in_two q1 b q2 s e small ↦
        let same_length : length q ≡ length (q1 ++ q2) = ap length s in
        let same_cap : cap rb ≡ cap (wrapped q1 b q2) = ap (λ (x : RingBuffer). cap x) e in
        let free_places : 0 < length b =
          omega (arith, length-straight q2 b q1, length-append q1 q2) in
        subst (λ x. Writes rb x p) (sym s)
          (subst (λ x. Writes x (q1 ++ q2) p) (sym e) (write-wrapped q1 b q2 p small free_places))
  ]
]
