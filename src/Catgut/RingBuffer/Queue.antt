-- ===== src/Catgut/RingBuffer/Queue.antt =====
-- A bounded queue of bytes is what a ring buffer promises: the same calls get the same answers.
use Prim.Native.Nat.{min}
use dodder.Prelude.{
  ℕ, ◌+◌, ◌-◌, ◌^◌, ◌≤◌, ◌<◌, ◌≡◌, inl, inr, refl, sym, subst, ◌∙◌, List, [], ◌∷◌, ◌++◌, ◌==◌,
  if◌then◌else◌, Option, none, some, length, take, drop, Bytes, arith, append-nil, Bool-cases,
}
use dodder.Run.{Run, done, ◌>>=◌}
use dodder.Catgut.Slice
use dodder.Catgut.Slice.{Slice}
use dodder.Catgut.RingBuffer.{
  RingBuffer, Error, eof, cap, rb_len, peek_readable, write, advance_read, make_ring_buffer,
  default_size, length-make_ring_buffer,
}
use dodder.Catgut.RingBuffer.Layout.{
  Holds, in_one, in_two, rb_len-Holds, peek_readable-straight, peek_readable-wrapped, parts,
  nil_of_length,
}
use dodder.Catgut.RingBuffer.Writing.{room, write_lem}
use dodder.Catgut.RingBuffer.Taking.{advance_read-Holds}

-- calls of `Write`, of `AdvanceRead`, of `Len`, and of `PeekReadable` with `Bytes`
pub data Call : Type 0 where
  write_bytes : Bytes → Call
  advance : ℕ → Call
  ask_len ask_bytes : Call

pub data Answer : Type 0 where
  wrote : ℕ → Option Error → Answer
  advanced : Answer
  number : ℕ → Answer
  content : Bytes → Answer

unfoldable pub call : Call → RingBuffer → Run (Answer × RingBuffer)
call (write_bytes p) rb = write rb p >>= λ (n, e, rb'). done (wrote n e, rb')
call (advance n) rb = done (advanced, advance_read rb n)
call ask_len rb = rb_len rb >>= λ n. done (number n, rb)
call ask_bytes rb = peek_readable rb >>= λ s. done (content (Slice.bytes s), rb)

unfoldable pub calls : List Call → RingBuffer → Run (List Answer)
calls [] rb = done []
calls (c ∷ cs) rb = call c rb >>= λ (a, rb'). calls cs rb' >>= λ answers. done (a ∷ answers)

-- The queue, with room for `most` bytes: what is written goes to its end as far as it fits, and
-- what is advanced over goes away from its front.
unfoldable pub queue_after : ℕ → Call → Bytes → Bytes
queue_after most (write_bytes p) q = q ++ take (min (length p) (most - length q)) p
queue_after most (advance n) q = drop n q
queue_after most ask_len q = q
queue_after most ask_bytes q = q

unfoldable pub queue_answer : ℕ → Call → Bytes → Answer
queue_answer most (write_bytes p) q =
    let n = min (length p) (most - length q) in
    wrote n (if length q + n == most then some eof else none)
queue_answer most (advance n) q = advanced
queue_answer most ask_len q = number (length q)
queue_answer most ask_bytes q = content q

unfoldable pub queue_answers : ℕ → List Call → Bytes → List Answer
unfolding queue_answer queue_after
queue_answers most [] q = []
queue_answers most (c ∷ cs) q = queue_answer most c q ∷ queue_answers most cs (queue_after most c q)

-- no call advances over more bytes than there are
abbrev pub Allowed : ℕ → List Call → Bytes → Type 0
Allowed most [] q = Unit
Allowed most (advance n ∷ cs) q = (n ≤ length q) × Allowed most cs (drop n q)
Allowed most (write_bytes p ∷ cs) q =
    Allowed most cs (q ++ take (min (length p) (most - length q)) p)
Allowed most (ask_len ∷ cs) q = Allowed most cs q
Allowed most (ask_bytes ∷ cs) q = Allowed most cs q

bytes-parts : (x y : Bytes) → Slice.bytes (parts x y) ≡ x ++ y
unfolding Slice.bytes
bytes-parts x y = elim (Bool-cases (length x == length x + length y)) [
  | inl first ↦
      let e : y ≡ [] = nil_of_length y (ground arith) in rw first (rw e (sym (append-nil x)))
  | inr more ↦ elim (Bool-cases (length y == length x + length y)) [
    | inl second ↦ let e : x ≡ [] = nil_of_length x (ground arith) in rw (more, second) (rw e refl)
    | inr both ↦ rw (more, both)
  ]
]

bytes-Holds :
    (rb : RingBuffer) (q : Bytes)
    → Holds rb q
    → (s : Slice) × (peek_readable rb ≡ done s) × (Slice.bytes s ≡ q)
bytes-Holds rb q (in_one a c e small) =
    rw e (parts q [], peek_readable-straight a q c small, bytes-parts q [] ∙ append-nil q)
bytes-Holds rb q (in_two q1 b q2 s e small) =
    rw e (parts q1 q2, peek_readable-wrapped q1 b q2 small, bytes-parts q1 q2 ∙ sym s)

-- Whatever calls are made, a ring buffer answers as the queue does of which it holds the bytes. No
-- call advances over more bytes than there are.
pub calls-queue_answers :
    (cs : List Call) (rb : RingBuffer) (q : Bytes)
    → Holds rb q
    → Allowed (cap rb) cs q
    → calls cs rb ≡ done (queue_answers (cap rb) cs q)
unfolding calls call queue_answers advance_read
calls-queue_answers [] rb q h ok = refl
calls-queue_answers (write_bytes p ∷ cs) rb q h ok =
    let (rb', e, h', same) = write_lem rb q p h in
    let q' = q ++ take (room rb q p) p in
    let tail : calls cs rb' ≡ done (queue_answers (cap rb) cs q') =
      subst (λ k. calls cs rb' ≡ done (queue_answers k cs q')) same
        (calls-queue_answers cs rb' q' h' (subst (λ k. Allowed k cs q') (sym same) ok)) in
    rw (e, ◌>>=◌, tail, ◌>>=◌) refl
calls-queue_answers (advance n ∷ cs) rb q h ok =
    let h' : Holds (advance_read rb n) (drop n q) = advance_read-Holds n rb q h ok.0 in
    rw (calls-queue_answers cs (advance_read rb n) (drop n q) h' ok.1, ◌>>=◌) refl
calls-queue_answers (ask_len ∷ cs) rb q h ok =
    rw (rb_len-Holds rb q h, ◌>>=◌, calls-queue_answers cs rb q h ok, ◌>>=◌) refl
calls-queue_answers (ask_bytes ∷ cs) rb q h ok =
    let (s, e, same) = bytes-Holds rb q h in
    rw (e, ◌>>=◌, same, calls-queue_answers cs rb q h ok, ◌>>=◌) refl

abbrev pub made_size : ℕ → ℕ
made_size n = if n == 0 then default_size else n

pub make_ring_buffer-Holds : (n : ℕ) → n < 2 ^ 62 → Holds (make_ring_buffer n) []
unfolding make_ring_buffer
make_ring_buffer-Holds n h =
    in_one [] (make_ring_buffer n).content refl
      (let size = length-make_ring_buffer n in ground arith)

-- A buffer that `MakeRingBuffer` made with a size below 2 ^ 62 answers any sequence of calls of
-- `Write`, `AdvanceRead`, `Len` and `PeekReadable` as a queue with room for that many bytes (4096
-- for size 0) does, and does not panic, if no call advances over more bytes than there are.
pub calls-make_ring_buffer :
    (n : ℕ) (cs : List Call)
    → n < 2 ^ 62
    → Allowed (made_size n) cs []
    → calls cs (make_ring_buffer n) ≡ done (queue_answers (made_size n) cs [])
calls-make_ring_buffer n cs h ok =
    let size = length-make_ring_buffer n in
    subst (λ k. calls cs (make_ring_buffer n) ≡ done (queue_answers k cs [])) size
      (calls-queue_answers cs (make_ring_buffer n) [] (make_ring_buffer-Holds n h)
        (subst (λ k. Allowed k cs []) (sym size) ok))
