-- ===== src/Catgut/RingBuffer/Layout.antt =====
-- Where the bytes of a queue lie in a ring buffer: in one piece with free places around it, or in
-- two, at the end and at the beginning.
use Prim.Native.Nat.{min}
use dodder.Prelude.{
  inr, inl, ℕ, zero, suc, ◌+◌, ◌-◌, ◌^◌, ◌≤◌, ◌<◌, ◌≡◌, refl, sym, subst, ap, [], ◌∷◌, ◌++◌, true,
  false, ltb, ◌==◌, length, take, drop, Bytes, arith, append_assoc, append-nil, length-append,
  length-take, length-drop, take_prefix, drop_prefix, ge→ltb, Bool-cases,
}
use dodder.Run.{done, ◌>>=◌}
use dodder.Catgut.Slice.{Slice, sub_slice}
use dodder.Catgut.RingBuffer.{RingBuffer, put_at, cap, rb_len, peek_readable}

abbrev pub buffer : Bytes → ℕ → ℕ → ℕ → RingBuffer
buffer content n r w = record { content = content; data_length = n; r_idx = r; w_idx = w }

-- free places `a`, the queue, free places `c`
abbrev pub straight : Bytes → Bytes → Bytes → RingBuffer
straight a q c = buffer (a ++ (q ++ c)) (length q) (length a) (length a + length q)

-- the end of the queue, free places `b`, and its beginning
abbrev pub wrapped : Bytes → Bytes → Bytes → RingBuffer
wrapped q1 b q2 =
    buffer (q2 ++ (b ++ q1)) (length q1 + length q2) (length q2 + length b) (length q2)

-- `rb` holds the bytes of `q`, in their order, and is small enough for its indexes to be added
pub data Holds (rb : RingBuffer) (q : Bytes) : Type 0 where
  in_one :
      (a c : Bytes) → rb ≡ straight a q c → length a + (length q + length c) < 2 ^ 62 → Holds rb q
  in_two :
      (q1 b q2 : Bytes)
      → q ≡ q1 ++ q2
      → rb ≡ wrapped q1 b q2
      → length q2 + (length b + length q1) < 2 ^ 62
      → Holds rb q

pub buffer-eq :
    {x y : Bytes} {n m r s w v : ℕ}
    → x ≡ y
    → n ≡ m
    → r ≡ s
    → w ≡ v
    → buffer x n r w ≡ buffer y m s v
buffer-eq p q r s = cc

pub drop-append_add : (xs ys : Bytes) (k : ℕ) → drop (length xs + k) (xs ++ ys) ≡ drop k ys
drop-append_add [] ys k = let e : 0 + k ≡ k = omega arith in rw e
drop-append_add (x ∷ xs) ys k =
    let e : suc (length xs) + k ≡ suc (length xs + k) = omega arith in
    rw e (drop-append_add xs ys k)

pub put_at-append :
    (x y p : Bytes) (k : ℕ) → k ≡ length x → put_at (x ++ y) k p ≡ x ++ (p ++ drop (length p) y)
unfolding put_at
put_at-append x y p k e = rw (e, take_prefix x y, drop-append_add x y (length p))

pub length-straight : (a q c : Bytes) → length (a ++ (q ++ c)) ≡ length a + (length q + length c)
length-straight a q c = omega (arith, length-append a (q ++ c), length-append q c)

pub length-take-min : (n : ℕ) (p : Bytes) → length (take (min n (length p)) p) ≡ min n (length p)
length-take-min n p = omega (arith, length-take (min n (length p)) p)

pub sub_slice-eq :
    (x y z : Bytes) (i j : ℕ)
    → i ≡ length x
    → j ≡ length x + length y
    → sub_slice (x ++ (y ++ z)) i j ≡ done y
unfolding sub_slice
sub_slice-eq x y z i j e h =
    let long : length (x ++ (y ++ z)) ≡ length x + (length y + length z) = length-straight x y z in
    let low : ltb j i ≡ false = ge→ltb _ _ (omega arith) in
    let high : ltb (length (x ++ (y ++ z))) j ≡ false = ge→ltb _ _ (omega arith) in
    let n : j - i ≡ length y = omega arith in
    rw (low, high, n, e, drop_prefix x (y ++ z), take_prefix y z)

pub sub_slice-end :
    (x y : Bytes) (i j : ℕ)
    → i ≡ length x
    → j ≡ length x + length y
    → sub_slice (x ++ y) i j ≡ done y
sub_slice-end x y i j e h =
    subst (λ z. sub_slice (x ++ z) i j ≡ done y) (append-nil y) (sub_slice-eq x y [] i j e h)

module _ (rb : RingBuffer) (q : Bytes) (h : Holds rb q) where
  pub rb_len-Holds : rb_len rb ≡ done (length q)
  unfolding rb_len
  rb_len-Holds = elim h [
    | in_one a c e small ↦ rw e (ground (arith, length-straight a q c))
    | in_two q1 b q2 s e small ↦
        rw (e, s) (ground (arith, length-straight q2 b q1, length-append q1 q2))
  ]

  -- the queue fits into the buffer
  pub length-le-cap : length q ≤ cap rb
  length-le-cap = elim h [
    | in_one a c e small ↦ rw e (omega (arith, length-straight a q c))
    | in_two q1 b q2 s e small ↦
        rw (e, s) (omega (arith, length-straight q2 b q1, length-append q1 q2))
  ]

  pub cap-lt : cap rb < 2 ^ 62
  cap-lt = elim h [
    | in_one a c e small ↦ rw e (omega (arith, length-straight a q c))
    | in_two q1 b q2 s e small ↦ rw e (omega (arith, length-straight q2 b q1))
  ]

pub nil_of_length : (q : Bytes) → length q ≡ 0 → q ≡ []
nil_of_length [] e = refl
nil_of_length (x ∷ q) e = absurd (omega arith)

abbrev pub parts : Bytes → Bytes → Slice
parts x y = record { first = x; second = y }

pub peek_readable-straight :
    (a q c : Bytes)
    → length a + (length q + length c) < 2 ^ 62
    → peek_readable (straight a q c) ≡ done (parts q [])
unfolding peek_readable
peek_readable-straight a q c small =
    let h : Holds (straight a q c) q = in_one a c refl small in
    let inside = sub_slice-eq a q c (length a) (length a + length q) refl refl in
    rw (rb_len-Holds (straight a q c) q h) (elim (Bool-cases (length q == 0)) [
      | inl empty ↦
          let e : q ≡ [] = nil_of_length q (ground arith) in
          rw (empty, ◌>>=◌) (ap (λ x. done (parts x [])) (sym e))
      | inr some_left ↦
          let lt : ltb (length a) (length a + length q) ≡ true = ground arith in
          rw (some_left, lt, inside) refl
    ])

pub peek_readable-wrapped :
    (q1 b q2 : Bytes)
    → length q2 + (length b + length q1) < 2 ^ 62
    → peek_readable (wrapped q1 b q2) ≡ done (parts q1 q2)
unfolding peek_readable
peek_readable-wrapped q1 b q2 small =
    let h : Holds (wrapped q1 b q2) (q1 ++ q2) = in_two q1 b q2 refl refl small in
    let total = length-append q1 q2 in
    let back : sub_slice (q2 ++ (b ++ q1)) (length q2 + length b) (length (q2 ++ (b ++ q1)))
        ≡ done q1 =
      rw (← append_assoc q2 b q1)
        (sub_slice-end (q2 ++ b) q1 _ _ (sym (length-append q2 b)) (length-append (q2 ++ b) q1)) in
    let front = sub_slice-eq [] q2 (b ++ q1) 0 (length q2) refl (omega arith) in
    rw (rb_len-Holds (wrapped q1 b q2) (q1 ++ q2) h) (elim (Bool-cases (length (q1 ++ q2) == 0)) [
      | inl empty ↦
          let e1 : q1 ≡ [] = nil_of_length q1 (ground (arith, total)) in
          let e2 : q2 ≡ [] = nil_of_length q2 (ground (arith, total)) in
          rw (empty, ◌>>=◌) (rw (e1, e2) refl)
      | inr some_left ↦
          let ge : ltb (length q2 + length b) (length q2) ≡ false = ground arith in
          rw (some_left, ge, back, front) refl
    ])

pub take_all : (n : ℕ) (p : Bytes) → length p ≤ n → take n p ≡ p
take_all zero [] h = refl
take_all zero (x ∷ p) h = absurd (omega arith)
take_all (suc n) [] h = refl
take_all (suc n) (x ∷ p) h = ap (λ t. x ∷ t) (take_all n p (omega arith))

pub take-append_le : (n : ℕ) (xs ys : Bytes) → n ≤ length xs → take n (xs ++ ys) ≡ take n xs
take-append_le zero xs ys h = refl
take-append_le (suc n) [] ys h = absurd (omega arith)
take-append_le (suc n) (x ∷ xs) ys h = ap (λ t. x ∷ t) (take-append_le n xs ys (omega arith))

pub take-append_add : (xs ys : Bytes) (k : ℕ) → take (length xs + k) (xs ++ ys) ≡ xs ++ take k ys
take-append_add [] ys k = let e : 0 + k ≡ k = omega arith in rw e
take-append_add (x ∷ xs) ys k =
    let e : suc (length xs) + k ≡ suc (length xs + k) = omega arith in
    rw e (ap (λ t. x ∷ t) (take-append_add xs ys k))

pub drop_all : (n : ℕ) (p : Bytes) → length p ≤ n → drop n p ≡ []
drop_all n p h = nil_of_length (drop n p) (omega (arith, length-drop n p))
