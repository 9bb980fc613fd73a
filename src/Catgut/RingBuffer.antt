-- ===== src/Catgut/RingBuffer.antt =====
-- go/lib/delta/catgut/ring_buffer.go. An int that the code subtracts from is the pattern of its 64
-- bits. `readLength` and `writeLength`, the positions in the stream, and the seeking are left out.
-- Reading is what takes bytes from the reader.
pub mod Layout
pub mod Free
pub mod Writing
pub mod Taking
pub mod Queue
pub mod Reading
use Prim.Native.Nat.{min}
use dodder.Prelude.{
  ℕ, zero, suc, ◌+◌, ◌-◌, ◌%◌, ◌^◌, ◌≤◌, ◌<◌, ◌≡◌, refl, ap, List, [], ◌∷◌, ◌++◌, Bool, true, false,
  ltb, leb, ◌==◌, ◌&&◌, ◌||◌, not, if◌then◌else◌, Option, none, some, length, take, drop, Bytes,
  arith,
}
use dodder.Run.{Run, done, panic, ◌>>=◌}
use dodder.Wire.{u64_mod}
use dodder.Catgut.Slice.{Slice, sub_slice}

-- the errors of io and bufio, the one of this package, and those that a reader has
pub data Error : Type 0 where
  eof no_progress buffer_full not_found : Error
  other : ℕ → Error

pub record RingBuffer : Type 0 where
  pub content : Bytes
  pub data_length : ℕ
  pub r_idx : ℕ
  pub w_idx : ℕ

abbrev pub default_size : ℕ
default_size = 4096

zeros : ℕ → Bytes
zeros zero = []
zeros (suc n) = 0 ∷ zeros n

unfoldable pub make_ring_buffer : ℕ → RingBuffer
unfolding zeros
make_ring_buffer n = record {
  content = zeros (if n == 0 then default_size else n);
  data_length = 0;
  r_idx = 0;
  w_idx = 0;
}

length-zeros : (n : ℕ) → length (zeros n) ≡ n
unfolding zeros
length-zeros zero = refl
length-zeros (suc n) = ap suc (length-zeros n)

pub length-make_ring_buffer :
    (n : ℕ) → length (make_ring_buffer n).content ≡ (if n == 0 then default_size else n)
unfolding make_ring_buffer
length-make_ring_buffer n = length-zeros (if n == 0 then default_size else n)

-- `Reset` also takes the new reader
unfoldable pub reset : RingBuffer → RingBuffer
unfolding zeros
reset rb = record { content = zeros (length rb.content); data_length = 0; r_idx = 0; w_idx = 0 }

abbrev pub cap : RingBuffer → ℕ
cap rb = length rb.content

abbrev pub sub_int : ℕ → ℕ → ℕ
sub_int a b = (a + u64_mod - b) % u64_mod

-- `a > b` for an `a` that may be negative
abbrev pub gt_int : ℕ → ℕ → Bool
gt_int a b = ltb b a && ltb a (2 ^ 63)

unfoldable pub rb_len : RingBuffer → Run ℕ
rb_len rb = if gt_int rb.data_length (cap rb) then panic else done rb.data_length

-- a part of the buffer that is written to
pub record Range : Type 0 where
  pub from : ℕ
  pub to : ℕ

abbrev pub size : Range → ℕ
size r = r.to - r.from

abbrev pub no_range : Range
no_range = record { from = 0; to = 0 }

unfoldable pub range : RingBuffer → ℕ → ℕ → Run Range
range rb from to =
    if ltb to from || ltb (cap rb) to then panic else done (record { from = from; to = to })

unfoldable pub peek_writeable : RingBuffer → Run (Range × Range)
unfolding range rb_len
peek_writeable rb = do
  n ← rb_len rb
  if n == cap rb then done (no_range, no_range) else do
    parts ←
        if ltb rb.w_idx rb.r_idx
        then (range rb rb.w_idx rb.r_idx >>= λ a. done (a, no_range))
        else (range rb 0 rb.r_idx >>= λ b. range rb rb.w_idx (cap rb) >>= λ a. done (a, b))
    if ltb (cap rb) (size parts.0 + size parts.1) then panic else done parts

unfoldable pub peek_readable : RingBuffer → Run Slice
unfolding rb_len
peek_readable rb = do
  n ← rb_len rb
  if n == 0
      then done (record { first = []; second = [] })
      else if ltb rb.r_idx rb.w_idx
      then (do a ← sub_slice rb.content rb.r_idx rb.w_idx; done (record { first = a; second = [] }))
      else do
        a ← sub_slice rb.content rb.r_idx (cap rb)
        b ← sub_slice rb.content 0 rb.w_idx
        done (record { first = a; second = b })

unfoldable pub peek_unreadable : RingBuffer → Run Slice
peek_unreadable rb =
    if ltb rb.w_idx rb.r_idx
    then (do a ← sub_slice rb.content rb.w_idx rb.r_idx; done (record { first = a; second = [] }))
    else if ltb rb.r_idx rb.w_idx
    then (do
      a ← sub_slice rb.content 0 rb.r_idx
      b ← sub_slice rb.content rb.w_idx (cap rb)
      done (record { first = a; second = b }))
    else done (record { first = []; second = [] })

-- bytes put over those from a position on
unfoldable pub put_at : Bytes → ℕ → Bytes → Bytes
put_at content i p = take i content ++ (p ++ drop (i + length p) content)

-- `copy` into a part of the buffer, with the number of bytes it copies
abbrev pub fits : Range → Bytes → ℕ
fits r p = min (size r) (length p)

unfoldable pub copy_into : RingBuffer → Range → Bytes → RingBuffer
unfolding put_at
copy_into rb r p = record rb { content = put_at rb.content r.from (take (fits r p) p) }

abbrev ending : RingBuffer → ℕ → Run (ℕ × Option Error × RingBuffer)
ending rb n = rb_len rb >>= λ m. done (n, (if m == cap rb then some eof else none), rb)

-- the end of `Write`, from the second `copy` on
unfoldable pub write_second : RingBuffer → Range → Bytes → ℕ → Run (ℕ × Option Error × RingBuffer)
write_second rb r p n =
    let rest = drop n p in
    let n1 = fits r rest in
    let rb' = copy_into rb r rest in
    ending
      (record rb' {
        w_idx = if ltb 0 n1 then n1 else rb.w_idx;
        data_length = (rb.data_length + n1) % u64_mod;
      })
      (n + n1)

unfoldable pub write_first :
    RingBuffer → Range → Range → Bytes → Run (ℕ × Option Error × RingBuffer)
write_first rb a b p =
    let n1 = fits a p in
    let rb' = copy_into rb a p in
    let rb1 : RingBuffer = record rb' {
      w_idx = rb.w_idx + n1;
      data_length = (rb.data_length + n1) % u64_mod;
    } in
    do
      m ← rb_len rb1
      if m == cap rb1
          then done (n1, some eof, rb1)
          else if n1 == length p
          then done (n1, none, rb1)
          else write_second rb1 b p n1

unfoldable pub write : RingBuffer → Bytes → Run (ℕ × Option Error × RingBuffer)
write rb p = do
  m ← rb_len rb
  if m == cap rb
      then done (0, some eof, rb)
      else do parts ← peek_writeable rb; write_first rb parts.0 parts.1 p

-- `AdvanceRead`, for an `n` that is not negative
unfoldable pub advance_read : RingBuffer → ℕ → RingBuffer
advance_read rb n =
    let r = (rb.r_idx + n) % u64_mod in
    record rb {
      r_idx = if gt_int r (cap rb) then r - cap rb else r;
      data_length = sub_int rb.data_length n;
    }

-- `Unread`, for a number that is not negative and a buffer that has room for a byte. The end of the
-- read part less the start of the free part is -1 where the free part is empty.
unfoldable pub unread_from_end : RingBuffer → ℕ → ℕ → ℕ × RingBuffer
unread_from_end rb n k =
    let last = cap rb - 1 in
    let more = if ltb last rb.w_idx then sub_int last rb.w_idx else min (n - k) (last - rb.w_idx) in
    (
      (k + more) % u64_mod,
      record rb {
        r_idx = sub_int last more;
        data_length = (rb.data_length + (k + more)) % u64_mod;
      },
    )

abbrev unread_by : RingBuffer → ℕ → ℕ × RingBuffer
unread_by rb k =
    (k, record rb { r_idx = rb.r_idx - k; data_length = (rb.data_length + k) % u64_mod })

unfoldable pub unread : RingBuffer → ℕ → ℕ × RingBuffer
unfolding unread_from_end
unread rb n =
    if ltb rb.w_idx rb.r_idx
    then unread_by rb (min (rb.r_idx - rb.w_idx) n)
    else if ltb (min n rb.r_idx) n && (rb.r_idx - min n rb.r_idx == 0)
    then unread_from_end rb n (min n rb.r_idx)
    else unread_by rb (min n rb.r_idx)
