-- ===== src/Catgut/RingBuffer/Reading.antt =====
-- The operations of go/lib/delta/catgut/ring_buffer.go that take bytes from the reader, with
-- `Slice.ReadFrom` of slice.go. The reader is a parameter: what a call of its `Read` gives.
pub mod Buffered
pub mod Filling
pub mod Fill
pub mod Stream
use Prim.Native.Nat.{min}
use dodder.Prelude.{
  ℕ, zero, suc, ◌+◌, ◌-◌, ◌%◌, ◌^◌, ◌≤◌, ◌<◌, ◌≡◌, refl, List, [], ◌∷◌, ◌++◌, Bool, true, false,
  ltb, leb, ◌==◌, ◌&&◌, ◌||◌, if◌then◌else◌, Option, none, some, length, take, drop, Bytes,
}
use dodder.Run.{Run, done, panic}
use dodder.Wire.{u64_mod}
use dodder.Catgut.Slice
use dodder.Catgut.Slice.{Slice, slice_upto_and_including, slice_upto_but_excluding}
use dodder.Catgut.RingBuffer.{
  Error, eof, no_progress, buffer_full, not_found, RingBuffer, Range, size, put_at, cap, sub_int,
  rb_len, peek_writeable, peek_readable,
}

-- What a run may do: it returns, panics, or goes round a loop for as long as its fuel lasts.
pub data Loop {ℓ} (A : Type ℓ) : Type ℓ where
  returned : A → Loop A
  panicked : Loop A
  spins : Loop A

infixl 5 ◌>>=◌
abbrev pub ◌>>=◌ {ℓ κ} : {A : Type ℓ} {B : Type κ} → Loop A → (A → Loop B) → Loop B
returned a >>= f = f a
panicked >>= f = panicked
spins >>= f = spins

abbrev pub run {ℓ} : {A : Type ℓ} → Run A → Loop A
run (done a) = returned a
run panic = panicked

-- what `Read` gives: the bytes, the error, if there is one, and the next state of the reader
abbrev pub ReadAnswer : Type 0 → Type 0
ReadAnswer R = Bytes × Option Error × R

-- a number of bytes, an error, the buffer and the reader
abbrev pub Filled : Type 0 → Type 0
Filled R = ℕ × Option Error × RingBuffer × R

-- the rest of `Read`, after the first `copy`
unfoldable pub read_second :
    RingBuffer → Bytes → Bytes → ℕ → Option Error → Loop (Bytes × Option Error × RingBuffer)
read_second rb1 p1 second n e = run (rb_len rb1) >>= λ left.
    let p2 = take (n - length p1) second in
    let rb2 : RingBuffer = record rb1 {
      r_idx = if ltb 0 (length p2) then length p2 else rb1.r_idx;
      data_length = sub_int rb1.data_length (length p2);
    } in
    if left == 0
    then returned (p1, some eof, rb1)
    else if length p1 == n
    then returned (p1, e, rb1)
    else (run (rb_len rb2) >>= λ left'.
        returned (p1 ++ p2, (if left' == 0 then some eof else e), rb2))

-- the rest of `Read`, after the buffer has been filled if it was empty: what is copied to a slice of
-- `n` bytes, where `e` is the error that is already set
unfoldable pub read_buffered :
    RingBuffer → ℕ → Option Error → Loop (Bytes × Option Error × RingBuffer)
read_buffered rb n e = run (peek_readable rb) >>= λ rs.
    let p1 = take n rs.first in
    read_second
      (record rb { r_idx = rb.r_idx + length p1; data_length = sub_int rb.data_length (length p1) })
      p1 rs.second n e

module _ {R : Type 0} (next : R → ℕ → ReadAnswer R) where
  -- a loop of `Slice.ReadFrom`: it reads into a part of the buffer until there are `goal` bytes
  unfoldable pub read_loop : ℕ → ℕ → Range → ℕ → RingBuffer → R → Loop (Filled R)
  read_loop zero goal part n rb r = if ltb n goal then spins else returned (n, none, rb, r)
  read_loop (suc fuel) goal part n rb r =
      let answer = next r (size part - n) in
      let m = n + length answer.0 in
      let rb' : RingBuffer = record rb { content = put_at rb.content (part.from + n) answer.0 } in
      let rest = read_loop fuel goal part m rb' answer.2 in
      let go_on : Loop (Filled R) = elim answer.1 [
        | some e ↦ returned (m, some e, rb', answer.2)
        | none ↦ rest
      ] in
      if ltb n goal then go_on else returned (n, none, rb, r)

-- `fuel` bounds the calls of `Read` in one loop.
module _ {R : Type 0} (next : R → ℕ → ReadAnswer R) (fuel : ℕ) where
  -- `Slice.ReadFrom`; the second part is read until there are as many bytes in all as the second
  -- part is longer than the first
  unfoldable pub read_from : Range → Range → RingBuffer → R → Loop (Filled R)
  read_from a b rb r = read_loop next fuel (size a) a 0 rb r >>= λ (n, e, rb', r'). elim e [
    | some err ↦ returned (n, some err, rb', r')
    | none ↦ read_loop next fuel (size b - size a - size a) b 0 rb' r' >>= λ (m, e', rb2, r2).
        returned (n + m, e', rb2, r2)
  ]

  -- the loop of `Fill`, for the rounds that are left
  unfoldable pub fill_loop : ℕ → Range → Range → RingBuffer → R → Loop (Filled R)
  fill_loop zero a b rb r = returned (0, some no_progress, rb, r)
  fill_loop (suc i) a b rb r = read_from a b rb r >>= λ (n, e, rb1, r').
      let rb' : RingBuffer = record rb1 {
        data_length = (rb1.data_length + n) % u64_mod;
        w_idx = if leb n (size a) then rb1.w_idx + n else n - size a;
      } in
      let again = fill_loop i a b rb' r' in
      elim e [
        | some err ↦ returned (n, some err, rb', r')
        | none ↦ if ltb 0 n then returned (n, none, rb', r') else again
      ]

  unfoldable pub fill : RingBuffer → R → Loop (Filled R)
  fill rb r = run (peek_writeable rb) >>= λ parts. fill_loop 100 parts.0 parts.1 rb r

  unfoldable pub read : RingBuffer → R → ℕ → Loop (Bytes × Option Error × RingBuffer × R)
  read rb r n = run (rb_len rb) >>= λ m.
      let finish : RingBuffer → R → Option Error → Loop (Bytes × Option Error × RingBuffer × R) =
        λ rb' r' e. read_buffered rb' n e >>= λ (p, e', rb2). returned (p, e', rb2, r') in
      if m == 0
      then (fill rb r >>= λ (f, e, rb', r'). elim e [
        | none ↦ finish rb' r' none
        | some eof ↦ if f == 0 then returned ([], some eof, rb', r') else finish rb' r' (some eof)
        | some err ↦ returned ([], some err, rb', r')
      ])
      else finish rb r none

  -- `Peek`, for an `n` that is not negative
  unfoldable pub peek : RingBuffer → R → ℕ → Loop (Bytes × Option Error × RingBuffer × R)
  peek rb r n = run (rb_len rb) >>= λ m.
      let answer : ℕ → Bool → RingBuffer → R → Loop (Bytes × Option Error × RingBuffer × R) =
        λ filled is_eof rb' r'. run (peek_readable rb') >>= λ rs.
        if ltb (Slice.len rs) n
        then returned ([], some (if (filled == 0) && is_eof then eof else buffer_full), rb', r')
        else returned (take n (Slice.bytes rs), none, rb', r') in
      if ltb m n
      then (fill rb r >>= λ (f, e, rb', r'). elim e [
        | none ↦ answer f false rb' r'
        | some eof ↦ answer f true rb' r'
        | some err ↦ returned ([], some err, rb', r')
      ])
      else answer 0 false rb r

  unfoldable pub peek_upto_and_including :
      RingBuffer → R → ℕ → Loop (Option Slice × Option Error × RingBuffer × R)
  peek_upto_and_including rb r b = run (peek_readable rb) >>= λ rs.
      let search : RingBuffer → R → Loop (Option Slice × Option Error × RingBuffer × R) = λ rb' r'.
        run (peek_readable rb') >>= λ rs'. elim (slice_upto_and_including rs' b) [
          | some found ↦ returned (some found, none, rb', r')
          | none ↦ returned (none, some not_found, rb', r')
        ] in
      elim (slice_upto_and_including rs b) [
        | some found ↦ returned (some found, none, rb, r)
        | none ↦ fill rb r >>= λ (f, e, rb', r'). elim e [
          | none ↦ search rb' r'
          | some eof ↦ search rb' r'
          | some err ↦ returned (none, some err, rb', r')
        ]
      ]

  unfoldable pub peek_upto :
      RingBuffer → R → ℕ → Loop (Option Slice × Option Error × RingBuffer × R)
  peek_upto rb r b = run (peek_readable rb) >>= λ rs.
      let search : Option Error
          → RingBuffer
          → R
          → Loop (Option Slice × Option Error × RingBuffer × R) =
        λ e rb' r'. run (peek_readable rb') >>= λ rs'.
        returned (slice_upto_but_excluding rs' b, e, rb', r') in
      elim (slice_upto_but_excluding rs b) [
        | some found ↦ returned (some found, none, rb, r)
        | none ↦ fill rb r >>= λ (f, e, rb', r'). elim e [
          | none ↦ search none rb' r'
          | some eof ↦ search (some eof) rb' r'
          | some err ↦ returned (none, some err, rb', r')
        ]
      ]
