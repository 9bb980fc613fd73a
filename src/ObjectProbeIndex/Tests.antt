-- ===== src/ObjectProbeIndex/Tests.antt =====
-- Runs of `flushNew` of go/internal/hotel/object_probe_index on small pages, and the instances of
-- its theorems.
use dodder.Prelude.{ℕ, ◌≡◌, refl, List, [], ◌∷◌, some, none, codes, Bytes, bytes_eq}
use dodder.Wire.{compare_bytes}
use dodder.Merge.Plain.{items}
use dodder.Merge.Union.{IsSorted, find, or_else}
use dodder.ObjectProbeIndex.{
  Row, cmp_bytes, to_result, cmp_digests, equals_digest, equals_complete, flush_new, written,
}
use dodder.ObjectProbeIndex.Last.{IsStrict, find_last}
use dodder.ObjectProbeIndex.Digests.{flush_new-digests}

abbrev row : Bytes → ℕ → Row
row d offset = record { digest = d; loc = record { page = 1; offset = offset; content_length = 8 } }

-- two added rows have one digest, which a row of the file has too
abbrev added : List Row
added = row (codes "b") 10 ∷ row (codes "b") 20 ∷ row (codes "d") 30 ∷ []

abbrev file : List Row
file = row (codes "a") 1 ∷ row (codes "b") 2 ∷ row (codes "c") 3 ∷ []

added-IsSorted : IsSorted cmp_digests added
unfolding cmp_digests cmp_bytes to_result compare_bytes
added-IsSorted = (((λ h. cc), ((λ h. cc), tt)), (((λ h. cc), tt), (tt, tt)))

file-IsStrict : IsStrict cmp_digests file
unfolding cmp_digests cmp_bytes to_result compare_bytes
file-IsStrict = ((refl, (refl, tt)), ((refl, tt), (tt, tt)))

flush_new-digests_example :
    (rows : List Row) × (flush_new equals_digest cmp_digests added (items file)
      ≡ some (written rows none))
    × IsStrict cmp_digests rows
    × ((k : Row)
        → find cmp_digests k rows
          ≡ or_else cmp_digests (find_last cmp_digests k added) (find cmp_digests k file))
flush_new-digests_example = flush_new-digests added file added-IsSorted file-IsStrict

flush_new-added :
    flush_new equals_digest cmp_digests added (items file)
    ≡ some (
        written
          (row (codes "a") 1 ∷ row (codes "b") 20 ∷ row (codes "c") 3 ∷ row (codes "d") 30 ∷ [])
          none)
unfolding flush_new cmp_digests cmp_bytes to_result compare_bytes equals_digest bytes_eq
flush_new-added = refl

-- where duplicates are permitted, the row of the file with an added digest goes away all the same
flush_new-duplicate :
    flush_new equals_complete cmp_digests (row (codes "b") 10 ∷ []) (items (row (codes "b") 2 ∷ []))
    ≡ some (written (row (codes "b") 10 ∷ []) none)
unfolding flush_new cmp_digests cmp_bytes to_result compare_bytes
flush_new-duplicate = refl
