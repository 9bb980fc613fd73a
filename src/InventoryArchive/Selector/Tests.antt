-- ===== src/InventoryArchive/Selector/Tests.antt =====
-- A selection among four blobs.
use dodder.Prelude.{ℕ, ◌*◌, ◌<◌, ◌≡◌, refl, List, [], ◌∷◌, leb, All}
use dodder.InventoryArchive.Selector.{IndexedBlob, eligible, select_from, select_bases}
use dodder.InventoryArchive.Selector.Chains.{IsChainFree, select_bases-IsChainFree}
use mathlib.Core.List.Permᴰ

-- sizes in order, and a ratio of 2
abbrev sizes : List ℕ
sizes = 10 ∷ 15 ∷ 20 ∷ 100 ∷ []

abbrev unchanged : List IndexedBlob → List IndexedBlob
unchanged blobs = blobs

selected :
    select_bases unchanged (λ start size. leb size (start * 2)) 1 1000 sizes ≡ (0, 2) ∷ (1, 2) ∷ []
unfolding select_bases eligible select_from
selected = refl

select_bases-IsChainFree_example :
    All
      (λ p. (p.0 < 4) × (p.1 < 4))
      (select_bases unchanged (λ start size. leb size (start * 2)) 1 1000 sizes)
    × IsChainFree (select_bases unchanged (λ start size. leb size (start * 2)) 1 1000 sizes)
select_bases-IsChainFree_example =
    select_bases-IsChainFree unchanged (λ start size. leb size (start * 2)) 1 1000 sizes
      (λ blobs. Permᴰ.refl blobs)
