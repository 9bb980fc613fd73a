-- ===== src/InventoryArchive/Gear/Chunks.antt =====
-- The chunks of a blob: together they are the blob, and their sizes keep the bounds.
use dodder.Prelude.{
  ℕ, ◌+◌, ◌<◌, ◌≤◌, subst, ◌-◌, ◌≡◌, refl, ap, ◌∙◌, List, [], ◌∷◌, ◌++◌, append_assoc, Bool, true,
  false, ltb, if◌then◌else◌, length, length-append, Bytes, All, arith,
}
use dodder.InventoryArchive.Gear.{
  last_chunk, next_power_of_two, roll, cuts, chunks_from, gear_cdc_chunks,
}

abbrev pub concat : List Bytes → Bytes
concat [] = []
concat (c ∷ cs) = c ++ concat cs

-- neither empty nor longer than the limit
abbrev pub IsBounded : ℕ → Bytes → Type 0
IsBounded max_size chunk = (0 < length chunk) × (length chunk ≤ max_size)

-- all but the last have the least size
abbrev pub AllButLast : ℕ → List Bytes → Type 0
AllButLast min_size [] = Unit
AllButLast min_size (c ∷ []) = Unit
AllButLast min_size (c ∷ d ∷ cs) = (min_size ≤ length c) × AllButLast min_size (d ∷ cs)

AllButLast-cons :
    (min_size : ℕ) (c : Bytes) (cs : List Bytes)
    → min_size ≤ length c
    → AllButLast min_size cs
    → AllButLast min_size (c ∷ cs)
AllButLast-cons min_size c [] h hs = tt
AllButLast-cons min_size c (d ∷ cs) h hs = (h, hs)

module _ (min_size max_size mask : ℕ) (ordered : min_size ≤ max_size)
    (positive : 0 < max_size) where
  abbrev IsChunked : Bytes → List Bytes → Type 0
  IsChunked whole cs = (concat cs ≡ whole) × All (IsBounded max_size) cs × AllButLast min_size cs

  length-snoc : (cur : Bytes) (b : ℕ) → length (cur ++ (b ∷ [])) ≡ length cur + 1
  length-snoc cur b = length-append cur (b ∷ [])

  IsChunked-ended :
      (cur rest : Bytes) (b : ℕ) (cs : List Bytes)
      → min_size ≤ length cur + 1
      → length cur + 1 ≤ max_size
      → IsChunked rest cs
      → IsChunked (cur ++ (b ∷ rest)) ((cur ++ (b ∷ [])) ∷ cs)
  IsChunked-ended cur rest b cs least most (whole, bounded, sizes) =
      let len = length-snoc cur b in
      (
        append_assoc cur (b ∷ []) (concat cs) ∙ ap (λ r. cur ++ (b ∷ r)) whole,
        ((omega (arith, len), omega (arith, len)), bounded),
        AllButLast-cons min_size (cur ++ (b ∷ [])) cs (omega (arith, len)) sizes,
      )

  IsChunked-last_chunk :
      (cur : Bytes) → length cur < max_size → IsChunked (cur ++ []) (last_chunk cur)
  IsChunked-last_chunk [] small = (refl, tt, tt)
  IsChunked-last_chunk (b ∷ cur) small = (refl, ((omega arith, omega arith), tt), tt)

  -- one of the three branches of a round
  IsChunked-branch :
      (short ends : Bool) (whole : Bytes) (more ended : List Bytes)
      → (short ≡ true → IsChunked whole more)
      → (short ≡ false → ends ≡ true → IsChunked whole ended)
      → (short ≡ false → ends ≡ false → IsChunked whole more)
      → IsChunked whole (if short then more else if ends then ended else more)
  IsChunked-branch true ends whole more ended a b c = a refl
  IsChunked-branch false true whole more ended a b c = b refl refl
  IsChunked-branch false false whole more ended a b c = c refl refl

  -- a chunk that goes on has not the greatest size
  cuts-small : (len fp : ℕ) → cuts max_size mask len fp ≡ false → len < max_size
  unfolding cuts
  cuts-small len fp h = ground arith

  chunks_from-IsChunked :
      (fp : ℕ) (cur rest : Bytes)
      → length cur < max_size
      → IsChunked (cur ++ rest) (chunks_from min_size max_size mask fp cur rest)
  unfolding chunks_from
  chunks_from-IsChunked fp cur [] small = IsChunked-last_chunk cur small
  chunks_from-IsChunked fp cur (b ∷ rest) small =
      let more : length cur + 1 < max_size
          → IsChunked (cur ++ (b ∷ rest))
              (chunks_from min_size max_size mask (roll fp b) (cur ++ (b ∷ [])) rest) =
        λ lt.
          subst
            (λ w.
              IsChunked w (chunks_from min_size max_size mask (roll fp b) (cur ++ (b ∷ [])) rest))
            (append_assoc cur (b ∷ []) rest)
            (chunks_from-IsChunked (roll fp b) (cur ++ (b ∷ [])) rest
              (omega (arith, length-snoc cur b))) in
      let ended = chunks_from-IsChunked 0 [] rest positive in
      IsChunked-branch (ltb (length cur + 1) min_size)
        (cuts max_size mask (length cur + 1) (roll fp b)) (cur ++ (b ∷ rest)) _ _
        (λ short. more (ground (arith, short)))
        (λ long ends.
          IsChunked-ended cur rest b (chunks_from min_size max_size mask 0 [] rest)
            (ground (arith, long)) (omega arith) ended)
        (λ long on. more (cuts-small (length cur + 1) (roll fp b) on))

-- Where the least size is not more than the greatest, and this is not 0: the chunks of a blob, one
-- behind the other, are the blob, none is empty or longer than the greatest size, and all but the
-- last have at least the least size.
pub gear_cdc_chunks-concat :
    (content : Bytes) (min_size max_size average : ℕ)
    → min_size ≤ max_size
    → 0 < max_size
    → (concat (gear_cdc_chunks content min_size max_size average) ≡ content)
      × All (IsBounded max_size) (gear_cdc_chunks content min_size max_size average)
      × AllButLast min_size (gear_cdc_chunks content min_size max_size average)
unfolding gear_cdc_chunks
gear_cdc_chunks-concat content min_size max_size average ordered positive =
    chunks_from-IsChunked min_size max_size (next_power_of_two average - 1) ordered positive 0 []
      content positive
