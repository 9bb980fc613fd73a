-- ===== src/Catgut/Tests.antt =====
-- Runs of go/lib/delta/catgut on small inputs, and the instances of its theorems.
use dodder.Prelude.{
  ◌⊎◌, inr, zero, suc, inl, Bool, ℕ, ◌≤◌, ◌<◌, ◌≡◌, refl, sym, List, [], ◌∷◌, ◌++◌, none, some,
  length, take, drop, Bytes, codes, arith, take-append-drop, length-take,
}
use mathlib.Core.Option
use dodder.Run.{done, panic}
use dodder.Catgut.Slice.{
  Slice, cut, split_at, bytes, equal_bytes, compare_slice, bytes_between, slice_upto_but_excluding,
  slice_upto_and_including,
}
use dodder.Wire.{equal, compare_bytes}
use dodder.Catgut.Slice.Flat.{cut-split_at, slice_upto-split_at}
use dodder.Catgut.RingBuffer.{RingBuffer, eof, make_ring_buffer, unread, peek_writeable, put_at}
use dodder.Catgut.RingBuffer.Layout.{Holds, in_one, straight}
use dodder.Catgut.RingBuffer.Queue.{
  Call, write_bytes, advance, ask_len, ask_bytes, Answer, wrote, advanced, number, content, calls,
  queue_answers, calls-make_ring_buffer,
}
use dodder.Catgut.RingBuffer.Reading.{
  ReadAnswer, returned, fill, fill_loop, read_from, read_loop, read,
}
use dodder.Catgut.RingBuffer.Reading.Filling.{IsReader}
use dodder.Catgut.RingBuffer.Reading.Fill.{Fills, fill_lem}
use dodder.Catgut.RingBuffer.Reading.Stream.{ReadsOn, read_lem, read-early_eof}

-- four places, written over the end
abbrev script : List Call
script =
    write_bytes (codes "abc") ∷ advance 2 ∷ write_bytes (codes "defg") ∷ ask_bytes ∷ ask_len ∷ []

abbrev expected : List Answer
expected = wrote 3 none ∷ advanced ∷ wrote 3 (some eof) ∷ content (codes "cdef") ∷ number 4 ∷ []

calls-make_ring_buffer_example :
    calls script (make_ring_buffer 4) ≡ done (queue_answers 4 script [])
calls-make_ring_buffer_example = calls-make_ring_buffer 4 script (omega arith) (omega arith)

queue_answers-script : queue_answers 4 script [] ≡ expected
unfolding queue_answers
queue_answers-script = refl

-- a reader of bytes that are at hand, as strings.Reader is
abbrev next_of : Bytes → ℕ → ReadAnswer Bytes
next_of [] n = ([], some eof, [])
next_of (x ∷ w) n = (take n (x ∷ w), none, drop n (x ∷ w))

abbrev next_of-IsReader : IsReader next_of (λ w. w)
next_of-IsReader = record {
  fits = λ w n. fits_ w n;
  gives = λ w n. gives_ w n;
  stalls = λ w. 0;
  calms = λ w n. omega arith;
  moves = λ w n e pos. inl (moves_ w n e pos);
  ends = λ w n e. ends_ w n e;
}
  where
    fits_ : (w : Bytes) (n : ℕ) → length (next_of w n).0 ≤ n
    fits_ [] n = omega arith
    fits_ (x ∷ w) n = omega (arith, length-take n (x ∷ w))

    gives_ : (w : Bytes) (n : ℕ) → w ≡ (next_of w n).0 ++ (next_of w n).2
    gives_ [] n = refl
    gives_ (x ∷ w) n = sym (take-append-drop n (x ∷ w))

    moves_ : (w : Bytes) (n : ℕ) → (next_of w n).1 ≡ none → 0 < n → 0 < length (next_of w n).0
    moves_ [] n e pos = cc
    moves_ (x ∷ w) n e pos = omega (arith, length-take n (x ∷ w))

    ends_ : (w : Bytes) (n : ℕ) → (next_of w n).1 ≡ some eof → (next_of w n).2 ≡ []
    ends_ [] n e = refl
    ends_ (x ∷ w) n e = cc

-- the same, behind some calls that give nothing
abbrev slow_next : ℕ × Bytes → ℕ → ReadAnswer (ℕ × Bytes)
slow_next (zero, w) n = ((next_of w n).0, (next_of w n).1, (0, (next_of w n).2))
slow_next (suc k, w) n = ([], none, (k, w))

abbrev slow_next-IsReader : IsReader slow_next (λ s. s.1)
slow_next-IsReader = record {
  fits = λ s n. fits_ s n;
  gives = λ s n. gives_ s n;
  stalls = λ s. s.0;
  calms = λ s n. calms_ s n;
  moves = λ s n e pos. moves_ s n e pos;
  ends = λ s n e. ends_ s n e;
}
  where
    fits_ : (s : ℕ × Bytes) (n : ℕ) → length (slow_next s n).0 ≤ n
    fits_ (zero, w) n = next_of-IsReader.fits w n
    fits_ (suc k, w) n = omega arith

    gives_ : (s : ℕ × Bytes) (n : ℕ) → s.1 ≡ (slow_next s n).0 ++ (slow_next s n).2.1
    gives_ (zero, w) n = next_of-IsReader.gives w n
    gives_ (suc k, w) n = refl

    calms_ : (s : ℕ × Bytes) (n : ℕ) → (slow_next s n).2.0 ≤ s.0
    calms_ (zero, w) n = omega arith
    calms_ (suc k, w) n = omega arith

    moves_ :
        (s : ℕ × Bytes) (n : ℕ)
        → (slow_next s n).1 ≡ none
        → 0 < n
        → (0 < length (slow_next s n).0) ⊎ ((slow_next s n).2.0 < s.0)
    moves_ (zero, w) n e pos = elim (next_of-IsReader.moves w n e pos) [
      | inl moved ↦ inl moved
      | inr fewer ↦ absurd (omega arith)
    ]
    moves_ (suc k, w) n e pos = inr (omega arith)

    ends_ : (s : ℕ × Bytes) (n : ℕ) → (slow_next s n).1 ≡ some eof → (slow_next s n).2.1 ≡ []
    ends_ (zero, w) n e = next_of-IsReader.ends w n e
    ends_ (suc k, w) n e = cc

-- "de" stands at the end of five places, and the first three are free
abbrev half_full : RingBuffer
half_full = straight (codes "abc") (codes "de") []

half_full-Holds : Holds half_full (codes "de")
half_full-Holds = in_one (codes "abc") [] refl (omega arith)

fill_lem_example :
    Fills slow_next
      (λ s. s.1)
      slow_next-IsReader
      9
      (fill slow_next 9 half_full (3, codes "fg"))
      half_full
      (codes "de")
      (3, codes "fg")
fill_lem_example =
    fill_lem slow_next (λ s. s.1) slow_next-IsReader 9 half_full (codes "de") (3, codes "fg")
      (omega arith) half_full-Holds

read_lem_example : ReadsOn next_of (λ w. w) next_of-IsReader 9 half_full (codes "de") (codes "fg") 1
read_lem_example =
    read_lem next_of (λ w. w) next_of-IsReader 9 half_full (codes "de") (codes "fg") 1
      half_full-Holds (omega arith) (omega arith)

abbrev five_places : RingBuffer
five_places = straight [] [] (codes "-----")

abbrev filled_places : RingBuffer
filled_places = straight [] (codes "abc") (codes "--")

five_places-filled :
    fill next_of 9 five_places (codes "abc") ≡ returned (3, some eof, filled_places, [])
unfolding fill peek_writeable fill_loop read_from read_loop put_at
five_places-filled = refl

read-early_eof_example :
    (rb' : RingBuffer) × (read next_of 9 five_places (codes "abc") 2
      ≡ returned (codes "ab", some eof, rb', []))
    × Holds rb' (codes "c")
    × (0 < length (codes "c"))
read-early_eof_example =
    read-early_eof next_of (λ w. w) next_of-IsReader 9 five_places (codes "abc") (codes "abc")
      filled_places [] 2 (in_one [] (codes "-----") refl (omega arith)) five_places-filled
      (in_one [] (codes "--") refl (omega arith)) (omega arith)

abbrev in_two_parts : Slice
in_two_parts = record { first = codes "ab"; second = codes "c d" }

cut-split_at_example :
    Option.map (λ (s, t). (bytes s, bytes t)) (cut in_two_parts b' ')
    ≡ split_at b' ' (bytes in_two_parts)
cut-split_at_example = cut-split_at in_two_parts b' '

slice_upto-split_at_example :
    (Option.map bytes (slice_upto_but_excluding in_two_parts b' ')
      ≡ Option.map (λ (p, q). p) (split_at b' ' (bytes in_two_parts)))
    × (Option.map bytes (slice_upto_and_including in_two_parts b' ')
        ≡ Option.map (λ (p, q). p ++ b' ' ∷ []) (split_at b' ' (bytes in_two_parts)))
slice_upto-split_at_example = slice_upto-split_at in_two_parts b' '

-- the bytes of the first part, asked for up to its end
bytes_between-first_part : bytes_between in_two_parts 0 2 ≡ panic
unfolding bytes_between
bytes_between-first_part = refl

-- a text that is longer than the slice counts as equal if it begins with it
equal_bytes-longer : equal_bytes in_two_parts (codes "abc d!") ≡ done Bool.true
unfolding equal_bytes
equal_bytes-longer = refl

-- a text that ends with the first part compares as equal
compare_slice-shorter : compare_slice in_two_parts (codes "ab") ≡ equal
unfolding compare_slice compare_bytes
compare_slice-shorter = refl

-- "c" at the end and "d" at the beginning have been read, and are unread: the read part begins one
-- place too early, at "b".
unread-over_end :
    unread (record { content = codes "de-bc"; data_length = 1; r_idx = 1; w_idx = 2 }) 2
    ≡ (2, record { content = codes "de-bc"; data_length = 3; r_idx = 3; w_idx = 2 })
unfolding unread
unread-over_end = refl
