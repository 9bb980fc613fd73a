-- ===== src/Catgut/RingBuffer/Reading/Buffered.antt =====
-- What `Read` takes from a buffer that holds some bytes.

use native.Mathlib.Decide.{dec_lt}
use dodder.Prelude.{
  ℕ, ◌+◌, ◌-◌, ◌^◌, ◌≤◌, ◌<◌, ◌≡◌, ◌⊎◌, inl, inr, refl, sym, ap, subst, ◌∙◌, [], ◌++◌, true, false,
  ltb, leb, ◌==◌, if◌then◌else◌, Option, some, length, take, drop, Bytes, arith, append-nil,
  length-append, length-take, length-drop, Bool-cases, lt→ltb,
}
use dodder.Run.{done}
use dodder.Catgut.RingBuffer.{RingBuffer, cap, sub_int, Error, eof, rb_len, peek_readable}
use dodder.Catgut.RingBuffer.Reading.{returned, ◌>>=◌, run, read_second, read_buffered}
use dodder.Catgut.RingBuffer.Layout.{
  buffer, straight, wrapped, Holds, in_one, in_two, length-straight, rb_len-Holds, nil_of_length,
  take_all, drop_all, take-append_le, take-append_add, parts, peek_readable-straight,
  peek_readable-wrapped,
}
use dodder.Catgut.RingBuffer.Taking.{
  front-straight, front-wrapped, front-back, straight-front-Holds, wrapped-front-Holds, drop-both,
}

-- What `Read` takes from a queue: up to `n` bytes from the front. The error is io.EOF if that is all
-- of them, and else the one that was set before.
abbrev pub Reads : RingBuffer → Bytes → ℕ → Option Error → Type 0
Reads rb q n e =
    (rb' : RingBuffer) × (read_buffered rb n e
      ≡ returned (take n q, (if leb (length q) n then some eof else e), rb'))
    × Holds rb' (drop n q)
    × (cap rb' ≡ cap rb)

-- the cases in which the first part is enough, or there is no more
read_second-first :
    (rb1 : RingBuffer) (rest p1 second : Bytes) (n : ℕ) (e : Option Error)
    → Holds rb1 rest
    → (length rest ≡ 0) ⊎ (length p1 ≡ n)
    → read_second rb1 p1 second n e ≡ returned (p1, (if length rest == 0 then some eof else e), rb1)
unfolding read_second
read_second-first rb1 rest p1 second n e h side =
    rw (rb_len-Holds rb1 rest h) (elim (Bool-cases (length rest == 0)) [
      | inl empty ↦ rw (empty, run, ◌>>=◌) refl
      | inr more ↦
          let full : (length p1 == n) ≡ true = ground arith in rw (more, full, run, ◌>>=◌) refl
    ])

-- the case in which bytes of the second part are taken
read_second-both :
    (rb1 rb2 : RingBuffer) (q2 p1 : Bytes) (n : ℕ) (e : Option Error)
    → Holds rb1 q2
    → 0 < length q2
    → length p1 < n
    → buffer rb1.content
        (sub_int rb1.data_length (length (take (n - length p1) q2)))
        (length (take (n - length p1) q2))
        rb1.w_idx
      ≡ rb2
    → Holds rb2 (drop (n - length p1) q2)
    → read_second rb1 p1 q2 n e
      ≡ returned (
        p1 ++ take (n - length p1) q2,
        (if length (drop (n - length p1) q2) == 0 then some eof else e),
        rb2,
      )
unfolding read_second
read_second-both rb1 rb2 q2 p1 n e h some_left short same h2 =
    let t1 : (length q2 == 0) ≡ false = ground arith in
    let t2 : (length p1 == n) ≡ false = ground arith in
    let t3 : ltb 0 (length (take (n - length p1) q2)) ≡ true =
      lt→ltb _ _ (omega (arith, length-take (n - length p1) q2)) in
    rw (rb_len-Holds rb1 q2 h, run, ◌>>=◌, t1, t2, t3)
      (ap
          (λ (x : RingBuffer).
            (run (rb_len x) >>= λ left'.
            returned (p1 ++ take (n - length p1) q2, (if left' == 0 then some eof else e), x)))
          same
        ∙ rw (rb_len-Holds rb2 _ h2, run, ◌>>=◌) refl)

read_buffered-start :
    (rb rb1 : RingBuffer) (x y : Bytes) (n : ℕ) (e : Option Error)
    → peek_readable rb ≡ done (parts x y)
    → buffer rb.content
        (sub_int rb.data_length (length (take n x)))
        (rb.r_idx + length (take n x))
        rb.w_idx
      ≡ rb1
    → read_buffered rb n e ≡ read_second rb1 (take n x) y n e
unfolding read_buffered
read_buffered-start rb rb1 x y n e peeked same =
    rw (peeked, run, ◌>>=◌) (ap (λ (z : RingBuffer). read_second z (take n x) y n e) same)

take-min : (n : ℕ) (q : Bytes) → take (length (take n q)) q ≡ take n q
take-min n q = elim (dec_lt (length q) n) [
  | yes short ↦ rw (take_all n q (omega arith)) (take_all (length q) q (omega arith))
  | no long ↦ let k : length (take n q) ≡ n = omega (arith, length-take n q) in rw k
]

drop-min : (n : ℕ) (q : Bytes) → drop (length (take n q)) q ≡ drop n q
drop-min n q = elim (dec_lt (length q) n) [
  | yes short ↦
      rw (drop_all n q (omega arith))
        (drop_all (length (take n q)) q (omega (arith, length-take n q)))
  | no long ↦ let k : length (take n q) ≡ n = omega (arith, length-take n q) in rw k
]

-- the two ways to say that nothing is left
ends-eq :
    (q rest : Bytes) (n : ℕ) (e : Option Error)
    → length rest ≡ length q - n
    → (if length rest == 0 then some eof else e) ≡ (if leb (length q) n then some eof else e)
ends-eq q rest n e h = ground arith

straight-Reads :
    (a q c : Bytes) (n : ℕ) (e : Option Error)
    → length a + (length q + length c) < 2 ^ 62
    → Reads (straight a q c) q n e
straight-Reads a q c n e small =
    let k = length (take n q) in
    let size = length-take n q in
    let fits : k ≤ length q = omega arith in
    let less_left : sub_int (length q) k ≡ length q - k = omega arith in
    let rb1 = straight (a ++ take k q) (drop k q) c in
    let h1 : Holds rb1 (drop k q) = straight-front-Holds k a q c fits small in
    let start : read_buffered (straight a q c) n e ≡ read_second rb1 (take n q) [] n e =
      read_buffered-start _ rb1 q [] n e (peek_readable-straight a q c (omega arith))
        (rw less_left (front-straight k a q c fits)) in
    let left = length-drop k q in
    let side : (length (drop k q) ≡ 0) ⊎ (length (take n q) ≡ n) = elim (dec_lt (length q) n) [
      | yes short ↦ inl (omega arith)
      | no long ↦ inr (omega arith)
    ] in
    (
      rb1,
      start
          ∙ read_second-first rb1 (drop k q) (take n q) [] n e h1 side
          ∙ ap (λ t. returned (take n q, t, rb1)) (ends-eq q (drop k q) n e (omega arith)),
      subst (Holds rb1) (drop-min n q) h1,
      omega (
        arith,
        length-straight a q c,
        length-straight (a ++ take k q) (drop k q) c,
        length-append a (take k q),
        length-take k q,
      ),
    )

module _ (q1 b q2 : Bytes) (n : ℕ) (e : Option Error)
    (small : length q2 + (length b + length q1) < 2 ^ 62) where
  whole : length (q1 ++ q2) ≡ length q1 + length q2
  whole = length-append q1 q2

  first-Reads : n ≤ length q1 → Reads (wrapped q1 b q2) (q1 ++ q2) n e
  first-Reads long =
      let k : length (take n q1) ≡ n = omega (arith, length-take n q1) in
      let rb1 = wrapped (drop n q1) (b ++ take n q1) q2 in
      let h1 : Holds rb1 (drop n (q1 ++ q2)) = wrapped-front-Holds n q1 b q2 long small in
      let start : read_buffered (wrapped q1 b q2) n e ≡ read_second rb1 (take n q1) q2 n e =
        read_buffered-start _ rb1 q1 q2 n e (peek_readable-wrapped q1 b q2 (omega arith)) (
          rw k (
            let less_left : sub_int (length q1 + length q2) n ≡ length q1 + length q2 - n =
              omega arith in
            rw less_left (front-wrapped n q1 b q2 long))) in
      let left = length-drop n (q1 ++ q2) in
      (
        rb1,
        rw (take-append_le n q1 q2 long) (
            start
            ∙ read_second-first rb1 (drop n (q1 ++ q2)) (take n q1) q2 n e h1 (inr k)
            ∙ ap (λ t. returned (take n q1, t, rb1))
                (ends-eq (q1 ++ q2) (drop n (q1 ++ q2)) n e left)),
        h1,
        omega (
          arith,
          length-straight q2 b q1,
          length-straight q2 (b ++ take n q1) (drop n q1),
          length-append b (take n q1),
          length-take n q1,
          length-drop n q1,
        ),
      )

  module _ (short : length q1 < n) where
    abbrev k : ℕ
    k = length q1

    abbrev rb1 : RingBuffer
    rb1 = wrapped (drop k q1) (b ++ take k q1) q2

    nothing : drop k q1 ≡ []
    nothing = drop_all k q1 (omega arith)

    first_part : take n q1 ≡ q1
    first_part = take_all n q1 (omega arith)

    rest-Holds : Holds rb1 q2
    rest-Holds =
        subst (Holds rb1) (drop-both k q1 q2 0 (omega arith))
          (wrapped-front-Holds k q1 b q2 (omega arith) small)

    started : read_buffered (wrapped q1 b q2) n e ≡ read_second rb1 q1 q2 n e
    started =
        subst (λ p. read_buffered (wrapped q1 b q2) n e ≡ read_second rb1 p q2 n e) first_part
          (read_buffered-start _ rb1 q1 q2 n e (peek_readable-wrapped q1 b q2 (omega arith)) (
            rw first_part (
              let less_left : sub_int (length q1 + length q2) k ≡ length q1 + length q2 - k =
                omega arith in
              rw less_left (front-wrapped k q1 b q2 (omega arith)))))

    same_cap : cap rb1 ≡ cap (wrapped q1 b q2)
    same_cap = omega (
      arith,
      length-straight q2 b q1,
      length-straight q2 (b ++ take k q1) (drop k q1),
      length-append b (take k q1),
      length-take k q1,
      length-drop k q1,
    )

    none-Reads : length q2 ≡ 0 → Reads (wrapped q1 b q2) (q1 ++ q2) n e
    none-Reads empty =
        let e2 : q2 ≡ [] = nil_of_length q2 empty in
        let all_read : take n (q1 ++ q2) ≡ q1 = rw (e2, append-nil q1) first_part in
        let none_left : drop n (q1 ++ q2) ≡ q2 =
          rw (e2, append-nil q1) (drop_all n q1 (omega arith)) in
        (
          rb1,
          rw all_read (
              started
              ∙ read_second-first rb1 q2 q1 q2 n e rest-Holds (inl empty)
              ∙ ap (λ t. returned (q1, t, rb1)) (ends-eq (q1 ++ q2) q2 n e (omega (arith, whole)))),
          rw none_left rest-Holds,
          same_cap,
        )

    both-Reads : 0 < length q2 → Reads (wrapped q1 b q2) (q1 ++ q2) n e
    both-Reads some_left =
        let m = n - length q1 in
        let j = length (take m q2) in
        let a2 = take j q2 in
        let c2 = (b ++ take k q1) ++ drop k q1 in
        let rb2 = straight a2 (drop j q2) c2 in
        let l0 : length (drop k q1) ≡ 0 = ap length nothing in
        let l1 = length-append (b ++ take k q1) (drop k q1) in
        let l2 = length-append b (take k q1) in
        let l3 = length-take k q1 in
        let l4 = length-take m q2 in
        let l5 = length-take j q2 in
        let l6 = length-drop j q2 in
        let h2 : Holds rb2 (drop m q2) = rw (← drop-min m q2) (in_one a2 c2 refl (omega arith)) in
        let less_left : sub_int (length (drop k q1) + length q2) j
            ≡ length (drop k q1) + length q2 - j =
          omega arith in
        let moved : buffer rb1.content (sub_int rb1.data_length j) j rb1.w_idx ≡ rb2 =
          rw less_left
            (front-back j (drop k q1) (b ++ take k q1) q2 j (omega arith) (omega arith)) in
        let split : n ≡ length q1 + m = omega arith in
        let taken : take n (q1 ++ q2) ≡ q1 ++ take m q2 =
          ap (λ i. take i (q1 ++ q2)) split ∙ take-append_add q1 q2 m in
        (
          rb2,
          rw taken (
              started
              ∙ read_second-both rb1 rb2 q2 q1 n e rest-Holds some_left short moved h2
              ∙ ap (λ t. returned (q1 ++ take m q2, t, rb2))
                  (ends-eq (q1 ++ q2) (drop m q2) n e (omega (arith, whole, length-drop m q2)))),
          rw (drop-both n q1 q2 m split) h2,
          omega (arith, length-straight a2 (drop j q2) c2, length-straight q2 b q1),
        )

-- A buffer that holds bytes gives those at its front, up to the number asked for, and takes them
-- away; it says io.EOF if that was all it held.
pub read_buffered_lem :
    (rb : RingBuffer) (q : Bytes) (n : ℕ) (e : Option Error) → Holds rb q → Reads rb q n e
read_buffered_lem rb q n e (in_one a c s small) =
    subst (λ x. Reads x q n e) (sym s) (straight-Reads a q c n e small)
read_buffered_lem rb q n e (in_two q1 b q2 s t small) =
    subst (λ x. Reads rb x n e) (sym s)
      (subst (λ x. Reads x (q1 ++ q2) n e) (sym t)
        (elim (dec_lt (length q1) n) [
          | no long ↦ first-Reads q1 b q2 n e small (omega arith)
          | yes short ↦ elim (dec_lt 0 (length q2)) [
            | yes some_left ↦ both-Reads q1 b q2 n e small short some_left
            | no empty ↦ none-Reads q1 b q2 n e small short (omega arith)
          ]
        ]))
