-- ===== src/InventoryArchive/Gear.antt =====
-- gear_hash.go, minhash.go and signature_gear_cdc_minhash.go of go/internal/alfa/inventory_archive: a blob is
-- cut into chunks where a rolling hash says so, and the least hashes of its chunks are its signature.
-- Sizes are ints that are not negative, and a byte is less than 256.
pub mod Chunks
pub mod Signature
mod Tests
use dodder.Prelude.{
  ℕ, zero, suc, ◌+◌, ◌-◌, ◌*◌, ◌/◌, ◌%◌, ◌^◌, List, [], ◌∷◌, ◌++◌, map, Bool, true, false, ◌||◌,
  ◌==◌, ltb, leb, if◌then◌else◌, length, get_elem?, Option, none, some, Bytes,
}
use dodder.Wire.{u64_mod}
use Prim.Native.Nat.{bit_and, bit_or, min}

-- the linear generator of `init` and `minhashCoefficients`
abbrev pub step : ℕ → ℕ
step state = (state * 6364136223846793005 + 1442695040888963407) % u64_mod

-- `gearTable`, filled by `init` from 0x5F3759DF
unfoldable pub gear_table_from : ℕ → ℕ → List ℕ
gear_table_from zero state = []
gear_table_from (suc n) state = step state ∷ gear_table_from n (step state)

unfoldable pub gear : ℕ → ℕ
unfolding gear_table_from
gear b = elim (get_elem? (gear_table_from 256 1597463007) b) [ some x ↦ x | none ↦ 0 ]

abbrev pub or_shifted : ℕ → ℕ → ℕ
or_shifted n k = bit_or n (n / 2 ^ k)

unfoldable pub next_power_of_two : ℕ → ℕ
next_power_of_two n =
    if leb n 1
    then 1
    else or_shifted
        (or_shifted (or_shifted (or_shifted (or_shifted (or_shifted (n - 1) 1) 2) 4) 8) 16) 32
      + 1

-- `fp` after a byte
unfoldable pub roll : ℕ → ℕ → ℕ
unfolding gear
roll fp b = (fp * 2 + gear b) % u64_mod

-- whether a chunk of this length ends at this hash
unfoldable pub cuts : ℕ → ℕ → ℕ → ℕ → Bool
cuts max_size mask len fp = leb max_size len || bit_and fp mask == 0

-- what is left at the end
abbrev pub last_chunk : Bytes → List Bytes
last_chunk [] = []
last_chunk (b ∷ cur) = (b ∷ cur) ∷ []

-- the loop of `GearCDCChunks`, with the bytes of the chunk that is not ended
unfoldable pub chunks_from : ℕ → ℕ → ℕ → ℕ → Bytes → Bytes → List Bytes
unfolding roll cuts
chunks_from min_size max_size mask fp cur [] = last_chunk cur
chunks_from min_size max_size mask fp cur (b ∷ rest) =
    let more = chunks_from min_size max_size mask (roll fp b) (cur ++ (b ∷ [])) rest in
    let ended = (cur ++ (b ∷ [])) ∷ chunks_from min_size max_size mask 0 [] rest in
    if ltb (length cur + 1) min_size
    then more
    else if cuts max_size mask (length cur + 1) (roll fp b)
    then ended
    else more

unfoldable pub gear_cdc_chunks : Bytes → ℕ → ℕ → ℕ → List Bytes
unfolding chunks_from next_power_of_two
gear_cdc_chunks content min_size max_size average =
    chunks_from min_size max_size (next_power_of_two average - 1) 0 [] content

abbrev pub minhash_prime : ℕ
minhash_prime = 4294967291

unfoldable pub universal_hash : ℕ → ℕ × ℕ → ℕ
universal_hash x (a, b) = bit_and (((a * x + b) % u64_mod) % minhash_prime) 4294967295

-- the pairs of `minhashCoefficients`
unfoldable pub coefficients_from : ℕ → ℕ → List (ℕ × ℕ)
coefficients_from zero state = []
coefficients_from (suc k) state =
    (step state % (minhash_prime - 1) + 1, step (step state) % minhash_prime)
    ∷ coefficients_from k (step (step state))

-- the inner loop of `MinHashSignature`, for a feature
unfoldable pub lower : ℕ → List (ℕ × ℕ) → List ℕ → List ℕ
unfolding universal_hash
lower f [] sig = sig
lower f (c ∷ cs) [] = []
lower f (c ∷ cs) (s ∷ sig) =
    (if ltb (universal_hash f c) s then universal_hash f c else s) ∷ lower f cs sig

unfoldable pub lower_all : List (ℕ × ℕ) → List ℕ → List ℕ → List ℕ
unfolding lower
lower_all cs [] sig = sig
lower_all cs (f ∷ fs) sig = lower_all cs fs (lower f cs sig)

abbrev pub start : ℕ → List ℕ
start zero = []
start (suc k) = 4294967295 ∷ start k

unfoldable pub min_hash_signature : List ℕ → ℕ → List ℕ
unfolding lower_all coefficients_from
min_hash_signature features k = lower_all (coefficients_from k 1597463007) features (start k)

-- `ComputeSignature`; `fnv` is FNV-1a of Go's hash/fnv
unfoldable pub compute_signature : (Bytes → ℕ) → ℕ → ℕ → ℕ → ℕ → Bytes → List ℕ
unfolding gear_cdc_chunks min_hash_signature
compute_signature fnv min_size max_size average k content =
    min_hash_signature (map fnv (gear_cdc_chunks content min_size max_size average)) k
