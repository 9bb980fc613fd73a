-- ===== src/CheckoutMode/Tests.antt =====
-- Runs of go/internal/_/checkout_mode/main.go, and the witness.
use dodder.Prelude.{ℕ, ◌≡◌, refl, true, false, ◌&&◌, codes, Bytes}
use dodder.CheckoutMode.{no_mode, metadata, blob, includes_blob, includes_metadata, string, set}
use dodder.CheckoutMode.Names.{set-string_of_mode}

abbrev invalid : ℕ → Bytes
invalid mode = codes "invalid"

all_three : includes_blob 14 && includes_metadata 14 ≡ true
unfolding includes_blob includes_metadata
all_three = refl

set-string_of_mode_example :
    (set (string invalid blob) 8 ≡ (blob, true))
    × (set (string invalid 14) 8 ≡ (6, true))
    × (set (string invalid metadata) 8 ≡ (8, true))
    × (set (string invalid no_mode) 8 ≡ (8, false))
set-string_of_mode_example = set-string_of_mode invalid 14 8 all_three
