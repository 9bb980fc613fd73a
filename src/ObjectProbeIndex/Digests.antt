-- ===== src/ObjectProbeIndex/Digests.antt =====
-- The rows of a page are compared by their digests.
use dodder.Prelude.{◌≡◌, ◌↔◌, refl, ap, List, true, Bytes, some, none, bytes_eq→eq, bytes_eq_refl}
use dodder.Wire
use dodder.Wire.{compare_bytes}
use dodder.Wire.Order.{
  compare_bytes_self, compare_bytes-eq, compare_bytes-swap, compare_bytes_trans,
}
use dodder.Compare.{less, equal, greater}
use dodder.Merge.Plain.{items}
use dodder.Merge.Union.{IsOrder, IsSorted, find, or_else}
use dodder.ObjectProbeIndex.Last.{IsStrict, find_last}
use dodder.ObjectProbeIndex.Flush.{flush_new-find}
use dodder.ObjectProbeIndex.{
  Row, to_result, cmp_bytes, cmp_digests, equals_digest, flush_new, written,
}

to_result-less : (r : Wire.Result) → to_result r ≡ less → r ≡ Wire.Result.less
unfolding to_result
to_result-less Wire.Result.less h = refl
to_result-less Wire.Result.equal h = cc
to_result-less Wire.Result.greater h = cc

to_result-equal : (r : Wire.Result) → to_result r ≡ equal → r ≡ Wire.Result.equal
unfolding to_result
to_result-equal Wire.Result.less h = cc
to_result-equal Wire.Result.equal h = refl
to_result-equal Wire.Result.greater h = cc

to_result-greater : (r : Wire.Result) → to_result r ≡ greater → r ≡ Wire.Result.greater
unfolding to_result
to_result-greater Wire.Result.less h = cc
to_result-greater Wire.Result.equal h = cc
to_result-greater Wire.Result.greater h = refl

flip :
    (x y : Bytes) → compare_bytes x y ≡ Wire.Result.less → compare_bytes y x ≡ Wire.Result.greater
flip x y h = go (compare_bytes y x) refl
  where
    go : (r : Wire.Result) → compare_bytes y x ≡ r → compare_bytes y x ≡ Wire.Result.greater
    go Wire.Result.less e =
        let self = compare_bytes_self x in let loop = compare_bytes_trans x y x h e in cc
    go Wire.Result.equal e =
        let same : y ≡ x = compare_bytes-eq y x e in
        let self : compare_bytes x y ≡ Wire.Result.equal = rw same (compare_bytes_self x) in cc
    go Wire.Result.greater e = e

bytes_same : (x y : Bytes) → cmp_bytes x y ≡ equal → x ≡ y
unfolding cmp_bytes
bytes_same x y h = compare_bytes-eq x y (to_result-equal (compare_bytes x y) h)

bytes-IsOrder : IsOrder cmp_bytes
unfolding cmp_bytes to_result
bytes-IsOrder = record {
  flip_less = λ x y h. ap to_result (flip x y (to_result-less (compare_bytes x y) h));
  flip_greater =
      λ x y h. ap to_result (compare_bytes-swap x y (to_result-greater (compare_bytes x y) h));
  flip_equal = λ x y h. rw (bytes_same x y h) (ap to_result (compare_bytes_self y));
  less_less = λ x y z h k. ap to_result (
      compare_bytes_trans x y z (to_result-less (compare_bytes x y) h)
        (to_result-less (compare_bytes y z) k));
  equal_same = λ x y z h. ap (λ w. to_result (compare_bytes w z)) (bytes_same x y h);
}

pub cmp_digests-IsOrder : IsOrder cmp_digests
unfolding cmp_digests
cmp_digests-IsOrder = record {
  flip_less = λ x y h. bytes-IsOrder.flip_less x.digest y.digest h;
  flip_greater = λ x y h. bytes-IsOrder.flip_greater x.digest y.digest h;
  flip_equal = λ x y h. bytes-IsOrder.flip_equal x.digest y.digest h;
  less_less = λ x y z h k. bytes-IsOrder.less_less x.digest y.digest z.digest h k;
  equal_same = λ x y z h. bytes-IsOrder.equal_same x.digest y.digest z.digest h;
}

pub equals_digest_iff : (x y : Row) → (equals_digest x y ≡ true) ↔ (cmp_digests x y ≡ equal)
unfolding equals_digest cmp_digests cmp_bytes to_result
equals_digest_iff x y = (
  λ h. rw (bytes_eq→eq x.digest y.digest h) (ap to_result (compare_bytes_self y.digest)),
  λ h. rw (bytes_same x.digest y.digest h) (bytes_eq_refl y.digest),
)

-- In a page without duplicates, let the added rows be sorted by their digests, and the rows of the
-- file strictly sorted and read without an error. Then `flushNew` writes rows that are strictly
-- sorted by their digests and meets no error, and for each digest it writes the last added row with
-- it, or, where there is none, the row of the file.
pub flush_new-digests :
    (added file : List Row)
    → IsSorted cmp_digests added
    → IsStrict cmp_digests file
    → (rows : List Row) × (flush_new equals_digest cmp_digests added (items file)
        ≡ some (written rows none))
      × IsStrict cmp_digests rows
      × ((k : Row)
          → find cmp_digests k rows
            ≡ or_else cmp_digests (find_last cmp_digests k added) (find cmp_digests k file))
flush_new-digests added file ha hf =
    flush_new-find cmp_digests equals_digest equals_digest_iff cmp_digests-IsOrder added file ha hf
