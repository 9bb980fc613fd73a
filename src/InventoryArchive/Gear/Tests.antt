-- ===== src/InventoryArchive/Gear/Tests.antt =====
-- Examples of chunks and signatures, and the theorems applied to them.
use dodder.Prelude.{ℕ, ◌≡◌, refl, [], ◌∷◌, codes, All, arith}
use dodder.InventoryArchive.Gear.{next_power_of_two, gear_cdc_chunks, min_hash_signature}
use dodder.InventoryArchive.Gear.Chunks.{concat, IsBounded, AllButLast, gear_cdc_chunks-concat}
use dodder.InventoryArchive.Gear.Signature.{min_hash_signature-same}
use mathlib.Core.List.{Memᴰ}

next_power_of_two_100 : next_power_of_two 100 ≡ 128
unfolding next_power_of_two
next_power_of_two_100 = refl

next_power_of_two_128 : next_power_of_two 128 ≡ 128
unfolding next_power_of_two
next_power_of_two_128 = refl

gear_cdc_chunks-concat_example :
    (concat (gear_cdc_chunks (codes "a blob of some size") 2 5 4) ≡ codes "a blob of some size")
    × All (IsBounded 5) (gear_cdc_chunks (codes "a blob of some size") 2 5 4)
    × AllButLast 2 (gear_cdc_chunks (codes "a blob of some size") 2 5 4)
gear_cdc_chunks-concat_example =
    gear_cdc_chunks-concat (codes "a blob of some size") 2 5 4 (omega arith) (omega arith)

to_repeated : (f : ℕ) → Memᴰ f (5 ∷ 9 ∷ []) → Memᴰ f (9 ∷ 5 ∷ 9 ∷ [])
to_repeated f (Memᴰ.head e) = Memᴰ.tail (Memᴰ.head e)
to_repeated f (Memᴰ.tail (Memᴰ.head e)) = Memᴰ.head e
to_repeated f (Memᴰ.tail (Memᴰ.tail none_there)) = elim none_there [ ]

from_repeated : (f : ℕ) → Memᴰ f (9 ∷ 5 ∷ 9 ∷ []) → Memᴰ f (5 ∷ 9 ∷ [])
from_repeated f (Memᴰ.head e) = Memᴰ.tail (Memᴰ.head e)
from_repeated f (Memᴰ.tail (Memᴰ.head e)) = Memᴰ.head e
from_repeated f (Memᴰ.tail (Memᴰ.tail (Memᴰ.head e))) = Memᴰ.tail (Memᴰ.head e)
from_repeated f (Memᴰ.tail (Memᴰ.tail (Memᴰ.tail none_there))) = elim none_there [ ]

min_hash_signature-same_example :
    min_hash_signature (5 ∷ 9 ∷ []) 3 ≡ min_hash_signature (9 ∷ 5 ∷ 9 ∷ []) 3
min_hash_signature-same_example =
    min_hash_signature-same 3 (5 ∷ 9 ∷ []) (9 ∷ 5 ∷ 9 ∷ []) (λ f. (to_repeated f, from_repeated f))
