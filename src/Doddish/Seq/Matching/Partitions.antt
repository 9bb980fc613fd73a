-- ===== src/Doddish/Seq/Matching/Partitions.antt =====
-- The two `Partition` methods of go/internal/_/doddish/seq_matching.go.
use dodder.Prelude.{
  ℕ, zero, suc, ◌+◌, ◌≤◌, ◌≡◌, refl, [], ◌∷◌, ◌++◌, append_assoc, append-nil, true, false, length,
  length-append, take, drop, take_prefix, drop_after, ◌∙◌, All, arith, ap,
}
use dodder.Run.{done, index, index-append, All-index}
use dodder.Doddish.Seq.{Token, Seq}
use dodder.Doddish.Seq.Matching.{
  TokenMatcher, Partition, partition_left_from, partition_favoring_left, partition_right_from,
  partition_favoring_right,
}

-- the matcher refuses the token, and does not panic
abbrev pub Misses : TokenMatcher → Token → Type 0
Misses m t = m t ≡ done false

abbrev pub split_around : Seq → Token → Seq → Partition
split_around l t r = record { hit = true; left = l; right = r; partition = t }

partition_left_from-eq :
    (m : TokenMatcher) (t : Token) (seen l r : Seq) (last : Token)
    → m t ≡ done true
    → All (Misses m) l
    → partition_left_from m seen (l ++ t ∷ r) last ≡ done (split_around (seen ++ l) t r)
unfolding partition_left_from
partition_left_from-eq m t seen [] r last hit misses = rw (hit, append-nil)
partition_left_from-eq m t seen (x ∷ l) r last hit misses = rw misses.0 (
    partition_left_from-eq m t (seen ++ x ∷ []) l r x hit misses.1
    ∙ ap (λ s. done (split_around s t r)) (append_assoc seen (x ∷ []) l))

-- `PartitionFavoringLeft` splits around the first token that the matcher takes.
pub partition_favoring_left-eq :
    (m : TokenMatcher) (t : Token) (l r : Seq)
    → m t ≡ done true
    → All (Misses m) l
    → partition_favoring_left (l ++ t ∷ r) m ≡ done (split_around l t r)
unfolding partition_favoring_left
partition_favoring_left-eq m t l r = partition_left_from-eq m t [] l r _

module _ (m : TokenMatcher) (t : Token) (l r : Seq) where
  abbrev whole : Seq
  whole = l ++ t ∷ r

  -- the loop walks back over `r`, of which `k` tokens are left
  partition_right_from-eq :
      (k i : ℕ) (last : Token)
      → i ≡ length l + 1 + k
      → k ≤ length r
      → m t ≡ done true
      → All (Misses m) r
      → partition_right_from i m whole last ≡ done (split_around l t r)
  unfolding partition_right_from
  partition_right_from-eq k zero last e fits hit misses = absurd (omega arith)
  partition_right_from-eq zero (suc i) last e fits hit misses =
      let at : index whole i ≡ done t = index-append l (t ∷ r) 0 i (omega arith) in
      let ei : i ≡ length l = omega arith in
      let before : take i whole ≡ l = rw ei (take_prefix l (t ∷ r)) in
      let behind : drop (i + 1) whole ≡ r = drop_after l t r (i + 1) (omega arith) in
      rw (at, hit) (rw (before, behind) refl)
  partition_right_from-eq (suc k) (suc i) last e fits hit misses =
      let at : index whole i ≡ index r k = index-append l (t ∷ r) (suc k) i (omega arith) in
      let (x, ex, miss) = All-index (Misses m) r k misses (omega arith) in
      rw (at, ex, miss) (partition_right_from-eq k i x (omega arith) (omega arith) hit misses)

-- `PartitionFavoringRight` splits around the last token that the matcher takes.
pub partition_favoring_right-eq :
    (m : TokenMatcher) (t : Token) (l r : Seq)
    → m t ≡ done true
    → All (Misses m) r
    → partition_favoring_right (l ++ t ∷ r) m ≡ done (split_around l t r)
unfolding partition_favoring_right
partition_favoring_right-eq m t l r hit misses =
    partition_right_from-eq m t l r (length r) (length (l ++ t ∷ r)) _
      (omega (arith, length-append l (t ∷ r))) (omega arith) hit misses
