-- ===== src/Catgut/RingBuffer/Free.antt =====
-- The free places of a ring buffer, and what writing into them makes of its queue.
use Prim.Native.Nat.{min}
use dodder.Prelude.{
  ℕ, zero, suc, ◌+◌, ◌%◌, ◌^◌, ◌≤◌, ◌<◌, ◌≡◌, refl, sym, [], ◌∷◌, ◌++◌, ltb, if◌then◌else◌, length,
  take, drop, Bytes, arith, append_assoc, append-nil, length-append, length-drop, lt→ltb,
}
use dodder.Run.{done}
use dodder.Wire.{u64_mod}
use dodder.Catgut.RingBuffer.{Range, no_range, fits, put_at, copy_into, cap, peek_writeable}
use dodder.Catgut.RingBuffer.Layout.{
  buffer, buffer-eq, straight, wrapped, Holds, in_one, in_two, put_at-append, length-straight,
  length-take-min, rb_len-Holds,
}

pub drop-append_le : (k : ℕ) (xs ys : Bytes) → k ≤ length xs → drop k (xs ++ ys) ≡ drop k xs ++ ys
drop-append_le zero xs ys h = refl
drop-append_le (suc k) [] ys h = absurd (omega arith)
drop-append_le (suc k) (x ∷ xs) ys h = drop-append_le k xs ys (omega arith)

module _ (a q c : Bytes) (small : length a + (length q + length c) < 2 ^ 62) where
  abbrev pub first_free : Range
  first_free = record { from = length a + length q; to = cap (straight a q c) }

  abbrev pub second_free : Range
  second_free = record { from = 0; to = length a }

  pub straight-Holds : Holds (straight a q c) q
  straight-Holds = in_one a c refl small

  pub peek_writeable-straight :
      length q < cap (straight a q c)
      → peek_writeable (straight a q c) ≡ done (first_free, second_free)
  unfolding peek_writeable
  peek_writeable-straight room =
      rw (rb_len-Holds (straight a q c) q straight-Holds) (ground (arith, length-straight a q c))

  -- what the first `copy` does
  pub first_written :
      (p : Bytes)
      → let n = min (length c) (length p) in
        let rb = copy_into (straight a q c) first_free p in
        (fits first_free p ≡ n)
        × (buffer rb.content
              ((length q + fits first_free p) % u64_mod)
              rb.r_idx
              (length a + length q + fits first_free p)
            ≡ straight a (q ++ take n p) (drop n c))
  unfolding copy_into
  first_written p =
      let n = min (length c) (length p) in
      let e : fits first_free p ≡ n = omega (arith, length-straight a q c) in
      let taken : length (take n p) ≡ n = length-take-min (length c) p in
      let more = length-append q (take n p) in
      let put : put_at (a ++ (q ++ c)) (length a + length q) (take n p)
          ≡ a ++ ((q ++ take n p) ++ drop n c) =
        rw
          (
            ← append_assoc a q c,
            put_at-append (a ++ q) c (take n p) _ (sym (length-append a q)),
            taken,
          )
          (simp append_assoc) in
      (e, rw e (buffer-eq put (omega (arith, more, taken)) refl (omega (arith, more, taken))))

  -- what the second `copy` does where the first has filled its part
  pub second_written :
      (rest : Bytes)
      → let n = min (length a) (length rest) in
        let rb = copy_into (straight a q c) second_free rest in
        c ≡ []
        → 0 < n
        → (fits second_free rest ≡ n)
          × (buffer rb.content ((length q + fits second_free rest) % u64_mod) rb.r_idx (
                if ltb 0 (fits second_free rest)
                then fits second_free rest
                else length a + length q)
              ≡ wrapped q (drop n a) (take n rest))
  unfolding copy_into
  second_written rest none_left some_free =
      let n = min (length a) (length rest) in
      let e : fits second_free rest ≡ n = omega arith in
      let taken : length (take n rest) ≡ n = length-take-min (length a) rest in
      let left = length-drop n a in
      let put : put_at (a ++ (q ++ c)) 0 (take n rest) ≡ take n rest ++ (drop n a ++ q) =
        rw
          (
            put_at-append [] (a ++ (q ++ c)) (take n rest) 0 refl,
            taken,
            none_left,
            append-nil q,
            drop-append_le n a q (omega arith),
          )
          refl in
      (
        e,
        rw e (
            buffer-eq put (omega (arith, taken)) (omega (arith, taken, left))
              (rw (lt→ltb 0 n some_free) (sym taken))),
      )

module _ (q1 b q2 : Bytes) (small : length q2 + (length b + length q1) < 2 ^ 62) where
  abbrev pub middle_free : Range
  middle_free = record { from = length q2; to = length q2 + length b }

  pub wrapped-Holds : Holds (wrapped q1 b q2) (q1 ++ q2)
  wrapped-Holds = in_two q1 b q2 refl refl small

  pub peek_writeable-wrapped :
      0 < length b → peek_writeable (wrapped q1 b q2) ≡ done (middle_free, no_range)
  unfolding peek_writeable
  peek_writeable-wrapped room =
      rw (rb_len-Holds (wrapped q1 b q2) (q1 ++ q2) wrapped-Holds)
        (ground (arith, length-straight q2 b q1, length-append q1 q2))

  pub middle_written :
      (p : Bytes)
      → let n = min (length b) (length p) in
        let rb = copy_into (wrapped q1 b q2) middle_free p in
        (fits middle_free p ≡ n)
        × (buffer rb.content
              ((length q1 + length q2 + fits middle_free p) % u64_mod)
              rb.r_idx
              (length q2 + fits middle_free p)
            ≡ wrapped q1 (drop n b) (q2 ++ take n p))
  unfolding copy_into
  middle_written p =
      let n = min (length b) (length p) in
      let e : fits middle_free p ≡ n = omega arith in
      let taken : length (take n p) ≡ n = length-take-min (length b) p in
      let more = length-append q2 (take n p) in
      let left = length-drop n b in
      let put : put_at (q2 ++ (b ++ q1)) (length q2) (take n p)
          ≡ (q2 ++ take n p) ++ (drop n b ++ q1) =
        rw
          (put_at-append q2 (b ++ q1) (take n p) _ refl, taken, drop-append_le n b q1 (omega arith))
          (simp append_assoc) in
      (
        e,
        rw e (
            buffer-eq put (omega (arith, more, taken)) (omega (arith, more, taken, left))
              (omega (arith, more, taken))),
      )
