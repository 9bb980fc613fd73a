-- ===== src/Catgut/RingBuffer/Taking.antt =====
-- `AdvanceRead` takes bytes from the front of the queue that a ring buffer holds.
use native.Mathlib.Decide.{dec_lt}
use dodder.Prelude.{
  ℕ, ◌+◌, ◌-◌, ◌^◌, ◌≤◌, ◌<◌, ◌≡◌, refl, sym, ap, subst, ◌++◌, true, false, leb, if◌then◌else◌,
  length, take, drop, Bytes, arith, append_assoc, length-append, length-take, length-drop,
  take-append-drop,
}
use dodder.Catgut.RingBuffer.{RingBuffer, advance_read}
use dodder.Catgut.RingBuffer.Layout.{
  buffer, buffer-eq, straight, wrapped, Holds, in_one, in_two, length-straight, drop-append_add,
}
use dodder.Catgut.RingBuffer.Free.{drop-append_le}

-- the places of `n` bytes at the front of the queue become free
module _ (n : ℕ) where
  pub front-straight :
      (a q c : Bytes)
      → n ≤ length q
      → buffer (a ++ (q ++ c)) (length q - n) (length a + n) (length a + length q)
        ≡ straight (a ++ take n q) (drop n q) c
  front-straight a q c h =
      let whole : a ++ (q ++ c) ≡ (a ++ take n q) ++ (drop n q ++ c) =
        rw
          (
            append_assoc a (take n q) (drop n q ++ c),
            ← append_assoc (take n q) (drop n q) c,
            take-append-drop n q,
          )
          refl in
      let l1 = length-append a (take n q) in
      let l2 = length-take n q in
      let l3 = length-drop n q in buffer-eq whole (omega arith) (omega arith) (omega arith)

  pub front-wrapped :
      (q1 b q2 : Bytes)
      → n ≤ length q1
      → buffer (q2 ++ (b ++ q1)) (length q1 + length q2 - n) (length q2 + length b + n) (length q2)
        ≡ wrapped (drop n q1) (b ++ take n q1) q2
  front-wrapped q1 b q2 h =
      let whole : q2 ++ (b ++ q1) ≡ q2 ++ ((b ++ take n q1) ++ drop n q1) =
        rw (append_assoc b (take n q1) (drop n q1), take-append-drop n q1) refl in
      let l1 = length-append b (take n q1) in
      let l2 = length-take n q1 in
      let l3 = length-drop n q1 in buffer-eq whole (omega arith) (omega arith) refl

  pub front-back :
      (q1 b q2 : Bytes) (m : ℕ)
      → n ≡ length q1 + m
      → m ≤ length q2
      → buffer (q2 ++ (b ++ q1)) (length q1 + length q2 - n) m (length q2)
        ≡ straight (take m q2) (drop m q2) (b ++ q1)
  front-back q1 b q2 m e h =
      let whole : q2 ++ (b ++ q1) ≡ take m q2 ++ (drop m q2 ++ (b ++ q1)) =
        rw (← append_assoc (take m q2) (drop m q2) (b ++ q1), take-append-drop m q2) refl in
      let l2 = length-take m q2 in
      let l3 = length-drop m q2 in buffer-eq whole (omega arith) (omega arith) (omega arith)

  pub drop-both : (q1 q2 : Bytes) (m : ℕ) → n ≡ length q1 + m → drop n (q1 ++ q2) ≡ drop m q2
  drop-both q1 q2 m e = rw e (drop-append_add q1 q2 m)

  pub straight-front-Holds :
      (a q c : Bytes)
      → n ≤ length q
      → length a + (length q + length c) < 2 ^ 62
      → Holds (straight (a ++ take n q) (drop n q) c) (drop n q)
  straight-front-Holds a q c h small =
      let l1 = length-append a (take n q) in
      let l2 = length-take n q in in_one (a ++ take n q) c refl (omega (arith, length-drop n q))

  pub wrapped-front-Holds :
      (q1 b q2 : Bytes)
      → n ≤ length q1
      → length q2 + (length b + length q1) < 2 ^ 62
      → Holds (wrapped (drop n q1) (b ++ take n q1) q2) (drop n (q1 ++ q2))
  wrapped-front-Holds q1 b q2 h small =
      let l1 = length-append b (take n q1) in
      let l2 = length-take n q1 in
      in_two (drop n q1) (b ++ take n q1) q2 (drop-append_le n q1 q2 h) refl
        (omega (arith, length-drop n q1))

  pub back-Holds :
      (q1 b q2 : Bytes) (m : ℕ)
      → n ≡ length q1 + m
      → m ≤ length q2
      → length q2 + (length b + length q1) < 2 ^ 62
      → Holds (straight (take m q2) (drop m q2) (b ++ q1)) (drop n (q1 ++ q2))
  back-Holds q1 b q2 m e h small =
      let l1 = length-append b q1 in
      let l2 = length-take m q2 in
      rw (drop-both q1 q2 m e) (in_one (take m q2) (b ++ q1) refl (omega (arith, length-drop m q2)))

  advance_read-straight :
      (a q c : Bytes)
      → n ≤ length q
      → length a + (length q + length c) < 2 ^ 62
      → advance_read (straight a q c) n
        ≡ buffer (a ++ (q ++ c)) (length q - n) (length a + n) (length a + length q)
  unfolding advance_read
  advance_read-straight a q c h small = ground (arith, length-straight a q c)

  advance_read-wrapped :
      (q1 b q2 : Bytes)
      → n ≤ length q1 + length q2
      → length q2 + (length b + length q1) < 2 ^ 62
      → advance_read (wrapped q1 b q2) n
        ≡ buffer
            (q2 ++ (b ++ q1))
            (length q1 + length q2 - n)
            (if leb n (length q1) then length q2 + length b + n else n - length q1)
            (length q2)
  unfolding advance_read
  advance_read-wrapped q1 b q2 h small = ground (arith, length-straight q2 b q1)

  advance_read-two :
      (q1 b q2 : Bytes)
      → n ≤ length q1 + length q2
      → length q2 + (length b + length q1) < 2 ^ 62
      → Holds (advance_read (wrapped q1 b q2) n) (drop n (q1 ++ q2))
  advance_read-two q1 b q2 h small =
      rw (advance_read-wrapped q1 b q2 h small) (elim (dec_lt (length q1) n) [
        | no first ↦
            let e : leb n (length q1) ≡ true = ground arith in
            rw (e, front-wrapped q1 b q2 (omega arith))
              (wrapped-front-Holds q1 b q2 (omega arith) small)
        | yes second ↦
            let e : leb n (length q1) ≡ false = ground arith in
            let m : n ≡ length q1 + (n - length q1) = omega arith in
            rw (e, front-back q1 b q2 _ m (omega arith))
              (back-Holds q1 b q2 _ m (omega arith) small)
      ])

  -- `AdvanceRead` takes bytes from the front of the queue, if it has as many.
  pub advance_read-Holds :
      (rb : RingBuffer) (q : Bytes)
      → Holds rb q
      → n ≤ length q
      → Holds (advance_read rb n) (drop n q)
  advance_read-Holds rb q (in_one a c e small) h =
      subst (λ x. Holds (advance_read x n) (drop n q)) (sym e)
        (rw (advance_read-straight a q c h small, front-straight a q c h)
          (straight-front-Holds a q c h small))
  advance_read-Holds rb q (in_two q1 b q2 s e small) h =
      let same : length q ≡ length (q1 ++ q2) = ap length s in
      let fits : n ≤ length q1 + length q2 = omega (arith, length-append q1 q2) in
      subst (λ x. Holds (advance_read rb n) (drop n x)) (sym s)
        (subst (λ x. Holds (advance_read x n) (drop n (q1 ++ q2))) (sym e)
          (advance_read-two q1 b q2 fits small))
