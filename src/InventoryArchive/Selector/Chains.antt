-- ===== src/InventoryArchive/Selector/Chains.antt =====
-- No base is itself stored as a delta.
use dodder.Prelude.{
  ℕ, ◌+◌, ◌<◌, ◌≢◌, subst, sym, List, [], ◌∷◌, ◌++◌, append_assoc, Bool, Bool-cases, inl, inr, ltb,
  length, All, All-append, arith,
}
use dodder.InventoryArchive.Selector.{
  IndexedBlob, eligible, last_of, assign_to, select_from, select_sorted, select_bases,
}
use mathlib.Core.List.{Permᴰ}
use dodder.InventoryArchive.Selector.Distinct.{
  Differs, IsDistinct, All-map, All-swap, IsDistinct-left, IsDistinct-right, IsDistinct-across,
  All-Permᴰ, IsDistinct-Permᴰ, IsIndexIn, eligible-IsIndexIn, eligible-IsDistinct,
}

-- of the assignments: a blob and its base
abbrev pub IsChainFree : List (ℕ × ℕ) → Type 0
IsChainFree out = All (λ p. All (λ q. q.0 ≢ p.1) out) out

module _ (P : ℕ → Type 0) where
  abbrev Holds : IndexedBlob → Type 0
  Holds b = P b.original_index

  abbrev Both : ℕ × ℕ → Type 0
  Both p = P p.0 × P p.1

  last_of-Holds :
      (b : IndexedBlob) (bs : List IndexedBlob) → Holds b → All Holds bs → Holds (last_of b bs)
  last_of-Holds b [] h hs = h
  last_of-Holds b (c ∷ cs) h hs = last_of-Holds c cs hs.0 hs.1

  assign_to-Both :
      (base : ℕ) (b : IndexedBlob) (bs : List IndexedBlob)
      → P base
      → Holds b
      → All Holds bs
      → All Both (assign_to base b bs)
  assign_to-Both base b [] hb h hs = tt
  assign_to-Both base b (c ∷ cs) hb h hs = ((h, hb), assign_to-Both base c cs hb hs.0 hs.1)

  -- only the indices of the blobs occur
  select_from-Both :
      (in_group : ℕ → ℕ → Bool) (start : IndexedBlob) (others rest : List IndexedBlob)
      → Holds start
      → All Holds others
      → All Holds rest
      → All Both (select_from in_group start others rest)
  unfolding select_from
  select_from-Both in_group start others [] h ho hr =
      assign_to-Both (last_of start others).original_index start others
        (last_of-Holds start others h ho) h ho
  select_from-Both in_group start others (b ∷ rest) h ho hr =
      elim (Bool-cases (in_group start.size b.size)) [
        | inl longer ↦ rw longer (
            select_from-Both in_group start (others ++ (b ∷ [])) rest h
              (All-append Holds others (b ∷ []) ho (hr.0, tt)) hr.1)
        | inr ended ↦ rw ended (
            All-append Both (assign_to (last_of start others).original_index start others)
              (select_from in_group b [] rest)
              (assign_to-Both (last_of start others).original_index start others
                (last_of-Holds start others h ho) h ho)
              (select_from-Both in_group b [] rest hr.0 tt hr.1))
      ]

-- the blobs that a group assigns are not its base
assign_to-Differs :
    (b : IndexedBlob) (bs : List IndexedBlob)
    → IsDistinct (b ∷ bs)
    → All (λ q. q.0 ≢ (last_of b bs).original_index) (assign_to (last_of b bs).original_index b bs)
assign_to-Differs b [] d = tt
assign_to-Differs b (c ∷ cs) d = (
  λ e. last_of-Holds (λ i. i ≢ b.original_index) c cs d.0.0 d.0.1 (sym e),
  assign_to-Differs c cs d.1,
)

-- every base of a group's assignments is the group's last blob
assign_to-base :
    (base : ℕ) (b : IndexedBlob) (bs : List IndexedBlob) (P : ℕ → Type 0)
    → P base
    → All (λ p. P p.1) (assign_to base b bs)
assign_to-base base b [] P h = tt
assign_to-base base b (c ∷ cs) P h = (h, assign_to-base base c cs P h)

module _ (in_group : ℕ → ℕ → Bool) where
  -- a group that is ended, and what comes of the rest
  IsChainFree-ended :
      (start : IndexedBlob) (others : List IndexedBlob) (b : IndexedBlob) (rest : List IndexedBlob)
      → IsDistinct ((start ∷ others) ++ (b ∷ rest))
      → IsChainFree (select_from in_group b [] rest)
      → IsChainFree (
          assign_to (last_of start others).original_index start others
          ++ select_from in_group b [] rest)
  IsChainFree-ended start others b rest d free =
      let base = (last_of start others).original_index in
      let group = assign_to base start others in
      let out = select_from in_group b [] rest in
      let apart = IsDistinct-across (start ∷ others) (b ∷ rest) d in
      let others_apart : (x : IndexedBlob)
          → All (Differs x.original_index) (b ∷ rest)
          → All (Both (λ i. i ≢ x.original_index)) out =
        λ x h. select_from-Both (λ i. i ≢ x.original_index) in_group b [] rest h.0 tt h.1 in
      let last_apart = last_of-apart start others b rest apart in
      let in_out : All (λ q. q.0 ≢ base) out =
        All-map (Both (λ i. i ≢ base)) (λ q. q.0 ≢ base) out (λ q t. t.0)
          (select_from-Both (λ i. i ≢ base) in_group b [] rest last_apart.0 tt last_apart.1) in
      let in_group' =
        assign_to-Differs start others (IsDistinct-left (start ∷ others) (b ∷ rest) d) in
      let first : All (λ p. All (λ q. q.0 ≢ p.1) (group ++ out)) group =
        assign_to-base base start others (λ k. All (λ q. q.0 ≢ k) (group ++ out))
          (All-append (λ q. q.0 ≢ base) group out in_group' in_out) in
      let back : All (λ p. All (λ q. q.0 ≢ p.1) group) out =
        All-swap (λ q p. q.0 ≢ p.1) group out (assigned base start others apart others_apart) in
      All-append (λ p. All (λ q. q.0 ≢ p.1) (group ++ out)) group out first (joined out back free)
    where
      last_of-apart :
          (start : IndexedBlob) (others : List IndexedBlob) (b : IndexedBlob)
          (rest : List IndexedBlob)
          → All (λ x. All (Differs x.original_index) (b ∷ rest)) (start ∷ others)
          → All (Differs (last_of start others).original_index) (b ∷ rest)
      last_of-apart start [] b rest h = h.0
      last_of-apart start (c ∷ cs) b rest h = last_of-apart c cs b rest h.1

      assigned :
          (base : ℕ) (start : IndexedBlob) (others : List IndexedBlob)
          → All (λ x. All (Differs x.original_index) (b ∷ rest)) (start ∷ others)
          → ((x : IndexedBlob)
              → All (Differs x.original_index) (b ∷ rest)
              → All (Both (λ i. i ≢ x.original_index)) (select_from in_group b [] rest))
          → All
              (λ q. All (λ p. q.0 ≢ p.1) (select_from in_group b [] rest))
              (assign_to base start others)
      assigned base start [] h each = tt
      assigned base start (c ∷ cs) h each = (
        All-map (Both (λ i. i ≢ start.original_index)) (λ p. start.original_index ≢ p.1)
            (select_from in_group b [] rest) (λ p t e. t.1 (sym e)) (each start h.0),
        assigned base c cs h.1 each,
      )

      joined :
          (ps : List (ℕ × ℕ))
          → All
              (λ p.
                All (λ q. q.0 ≢ p.1) (assign_to (last_of start others).original_index start others))
              ps
          → All (λ p. All (λ q. q.0 ≢ p.1) (select_from in_group b [] rest)) ps
          → All
              (λ p.
                All
                  (λ q. q.0 ≢ p.1)
                  (assign_to (last_of start others).original_index start others
                    ++ select_from in_group b [] rest))
              ps
      joined [] h h' = tt
      joined (p ∷ ps) h h' = (
        All-append (λ q. q.0 ≢ p.1) (assign_to (last_of start others).original_index start others)
            (select_from in_group b [] rest) h.0 h'.0,
        joined ps h.1 h'.1,
      )

  select_from-IsChainFree :
      (start : IndexedBlob) (others rest : List IndexedBlob)
      → IsDistinct ((start ∷ others) ++ rest)
      → IsChainFree (select_from in_group start others rest)
  unfolding select_from
  select_from-IsChainFree start others [] d =
      assign_to-base (last_of start others).original_index start others
        (λ k. All (λ q. q.0 ≢ k) (assign_to (last_of start others).original_index start others))
        (assign_to-Differs start others (IsDistinct-left (start ∷ others) [] d))
  select_from-IsChainFree start others (b ∷ rest) d =
      elim (Bool-cases (in_group start.size b.size)) [
        | inl longer ↦ rw longer (
            select_from-IsChainFree start (others ++ (b ∷ [])) rest
              (subst (λ l. IsDistinct (start ∷ l)) (sym (append_assoc others (b ∷ []) rest)) d))
        | inr ended ↦ rw ended (
            IsChainFree-ended start others b rest d
              (select_from-IsChainFree b [] rest (IsDistinct-right (start ∷ others) (b ∷ rest) d)))
      ]

-- Where sorting only rearranges, and whatever the test of the ratio says: `SelectBases` assigns indices
-- of the blob set to indices of the blob set, no blob to itself, and never a blob that is the base of
-- one. So a base is stored as a full entry.
pub select_bases-IsChainFree :
    (sort : List IndexedBlob → List IndexedBlob) (in_group : ℕ → ℕ → Bool) (min_size max_size : ℕ)
    (sizes : List ℕ)
    → ((blobs : List IndexedBlob) → Permᴰ blobs (sort blobs))
    → All
        (λ p. (p.0 < length sizes) × (p.1 < length sizes))
        (select_bases sort in_group min_size max_size sizes)
      × IsChainFree (select_bases sort in_group min_size max_size sizes)
unfolding select_bases
select_bases-IsChainFree sort in_group min_size max_size sizes rearranges =
    let blobs = eligible min_size max_size 0 sizes in
    let bound = All-Permᴰ (IsIndexIn 0 (length sizes)) blobs (sort blobs) (rearranges blobs) (
      All-map (IsIndexIn 0 (0 + length sizes)) (IsIndexIn 0 (length sizes)) blobs
        (λ b h. (h.0, omega (arith, h.1))) (eligible-IsIndexIn min_size max_size 0 sizes)) in
    let distinct =
      IsDistinct-Permᴰ blobs (sort blobs) (rearranges blobs)
        (eligible-IsDistinct min_size max_size 0 sizes) in
    elim (Bool-cases (ltb (length sizes) 2)) [
      | inl few ↦ rw few (tt, tt)
      | inr enough ↦ rw enough (of_sorted (sort blobs) bound distinct)
    ]
  where
    of_sorted :
        (sorted : List IndexedBlob)
        → All (IsIndexIn 0 (length sizes)) sorted
        → IsDistinct sorted
        → All (λ p. (p.0 < length sizes) × (p.1 < length sizes)) (select_sorted in_group sorted)
          × IsChainFree (select_sorted in_group sorted)
    of_sorted [] bound distinct = (tt, tt)
    of_sorted (b ∷ []) bound distinct = (tt, tt)
    of_sorted (b ∷ c ∷ rest) bound distinct =
        let below =
          All-map (IsIndexIn 0 (length sizes)) (Holds (λ i. i < length sizes)) (b ∷ c ∷ rest)
            (λ b h. h.1) bound in
        (
          select_from-Both (λ i. i < length sizes) in_group b [] (c ∷ rest) below.0 tt below.1,
          select_from-IsChainFree in_group b [] (c ∷ rest) distinct,
        )
