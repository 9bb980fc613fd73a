-- ===== src/Wire/At.antt =====
-- Reading at an offset where the parts of the file are known.
use dodder.Prelude.{
  ℕ, ◌+◌, ◌<◌, ◌≡◌, ◌^◌, ap, ◌++◌, ltb, leb, false, some, length, length-append, take, drop,
  take_prefix, drop_prefix, Bytes, arith,
}
use dodder.Wire.{read_at}

drop_eq : (before rest : Bytes) (k : ℕ) → k ≡ length before → drop k (before ++ rest) ≡ rest
drop_eq before rest k e = rw e (drop_prefix before rest)

take_eq : (mid after : Bytes) (n : ℕ) → n ≡ length mid → take n (mid ++ after) ≡ mid
take_eq mid after n e = rw e (take_prefix mid after)

pub read_at-eq :
    (before mid after : Bytes) (offset n : ℕ)
    → offset ≡ length before
    → n ≡ length mid
    → length before < 2 ^ 63
    → read_at (before ++ (mid ++ after)) offset n ≡ some mid
unfolding read_at
read_at-eq before mid after offset n e f small =
    let total : length (before ++ (mid ++ after)) ≡ length before + (length mid + length after) =
      omega (arith, length-append before (mid ++ after), length-append mid after) in
    let inside : leb (2 ^ 63) offset ≡ false = ground arith in
    let enough : ltb (length (before ++ (mid ++ after))) (offset + n) ≡ false =
      ground (arith, total) in
    rw (inside, enough, drop_eq before (mid ++ after) offset e) (ap some (take_eq mid after n f))

-- the same where the file is known to be split so
pub read_at_split :
    (file before mid after : Bytes) (offset n : ℕ)
    → file ≡ before ++ (mid ++ after)
    → offset ≡ length before
    → n ≡ length mid
    → length before < 2 ^ 63
    → read_at file offset n ≡ some mid
read_at_split file before mid after offset n e f g small =
    rw e (read_at-eq before mid after offset n f g small)
