-- ===== src/InventoryArchive/Selector.antt =====
-- base_selector_size.go of go/internal/alfa/inventory_archive: blobs of similar size are grouped, and the
-- last of a group becomes the base of the others. A blob set is the list of its sizes, and the
-- assignments are the calls of `Assign` in their order. sort.Slice and the comparison with the
-- ratio, in float64, are parameters.
pub mod Distinct
pub mod Chains
mod Tests
use dodder.Prelude.{ℕ, zero, suc, ◌+◌, List, [], ◌∷◌, ◌++◌, Bool, ◌||◌, ltb, if◌then◌else◌, length}

pub record IndexedBlob : Type 0 where
  pub original_index : ℕ
  pub size : ℕ

-- the first loop of `SelectBases`, from blob `i` on
unfoldable pub eligible : ℕ → ℕ → ℕ → List ℕ → List IndexedBlob
eligible min_size max_size i [] = []
eligible min_size max_size i (s ∷ sizes) =
    let rest = eligible min_size max_size (i + 1) sizes in
    if ltb s min_size || ltb max_size s
    then rest
    else record { original_index = i; size = s } ∷ rest

-- the last blob of a group that begins with `b`
abbrev pub last_of : IndexedBlob → List IndexedBlob → IndexedBlob
last_of b [] = b
last_of b (c ∷ cs) = last_of c cs

-- The loop that assigns the blobs of a group but the last to the base. A group of one has none.
abbrev pub assign_to : ℕ → IndexedBlob → List IndexedBlob → List (ℕ × ℕ)
assign_to base b [] = []
assign_to base b (c ∷ cs) = (b.original_index, base) ∷ assign_to base c cs

-- The second loop: the group is `start` and `others`, and `in_group` tells from the sizes of a group's
-- first blob and of another whether this belongs to the group.
unfoldable pub select_from :
    (ℕ → ℕ → Bool) → IndexedBlob → List IndexedBlob → List IndexedBlob → List (ℕ × ℕ)
select_from in_group start others [] = assign_to (last_of start others).original_index start others
select_from in_group start others (b ∷ rest) =
    let longer = select_from in_group start (others ++ (b ∷ [])) rest in
    let ended =
      assign_to (last_of start others).original_index start others
      ++ select_from in_group b [] rest in
    if in_group start.size b.size then longer else ended

abbrev pub select_sorted : (ℕ → ℕ → Bool) → List IndexedBlob → List (ℕ × ℕ)
select_sorted in_group [] = []
select_sorted in_group (b ∷ []) = []
select_sorted in_group (b ∷ c ∷ rest) = select_from in_group b [] (c ∷ rest)

unfoldable pub select_bases :
    (List IndexedBlob → List IndexedBlob) → (ℕ → ℕ → Bool) → ℕ → ℕ → List ℕ → List (ℕ × ℕ)
unfolding eligible select_from
select_bases sort in_group min_size max_size sizes =
    if ltb (length sizes) 2
    then []
    else select_sorted in_group (sort (eligible min_size max_size 0 sizes))
