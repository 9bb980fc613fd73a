-- ===== src/CheckoutMode.antt =====
-- go/internal/_/checkout_mode/main.go: what of an object is checked out, as the bits of an int, which
-- is kept modulo 2 ^ 64.
pub mod Names
mod Tests
use Prim.Native.Nat.{bit_and, bit_or}
use dodder.Prelude.{
  ℕ, zero, suc, ◌+◌, List, [], ◌∷◌, Bool, true, false, not, ◌&&◌, ◌||◌, ◌==◌, leb, if◌then◌else◌,
  Bytes, bytes_eq, codes, map,
}
use dodder.Utf8.{runes}
use dodder.Text.{trim_space}

abbrev pub no_mode : ℕ
no_mode = 0

abbrev pub metadata : ℕ
metadata = 2

abbrev pub blob : ℕ
blob = 4

abbrev pub lockfile : ℕ
lockfile = 8

abbrev pub conflict : ℕ
conflict = 16

pub record Constructor : Type 0 where
  pub mode : ℕ
  pub should_make : Bool

-- the loop of `MakeWith`, in the order in which the map is visited
unfoldable pub make_with_from : ℕ → List Constructor → ℕ
make_with_from mode [] = mode
make_with_from mode (c ∷ cs) =
    make_with_from (if c.should_make then bit_or mode c.mode else mode) cs

unfoldable pub make_with : List Constructor → ℕ
unfolding make_with_from
make_with cs = make_with_from no_mode cs

unfoldable pub make_from : ℕ → List ℕ → ℕ
make_from mode [] = mode
make_from mode (c ∷ cs) = make_from (bit_or mode c) cs

unfoldable pub make : List ℕ → ℕ
unfolding make_from
make cs = make_from no_mode cs

unfoldable pub is_metadata_only : ℕ → Bool
is_metadata_only mode = mode == metadata

unfoldable pub is_blob_only : ℕ → Bool
is_blob_only mode = mode == blob

unfoldable pub includes_blob : ℕ → Bool
includes_blob mode = not (bit_and mode blob == 0)

unfoldable pub includes_metadata : ℕ → Bool
includes_metadata mode = not (bit_and mode metadata == 0)

unfoldable pub includes_lockfile : ℕ → Bool
includes_lockfile mode = not (bit_and mode lockfile == 0)

unfoldable pub is_empty : ℕ → Bool
is_empty mode = mode == no_mode

unfoldable pub is_conflict : ℕ → Bool
is_conflict mode = not (bit_and mode conflict == 0)

-- `invalid` is the text that fmt gives for any other mode
unfoldable pub string : (ℕ → Bytes) → ℕ → Bytes
unfolding is_metadata_only is_blob_only includes_blob includes_metadata
string invalid mode =
    if mode == no_mode
    then codes "none"
    else if is_metadata_only mode
    then codes "metadata"
    else if is_blob_only mode
    then codes "blob"
    else if includes_blob mode && includes_metadata mode
    then codes "both"
    else invalid mode

-- strings.ToLower, as far as it can give one of the names
lower : ℕ → ℕ
lower r = if leb b'A' r && leb r b'Z' then r + 32 else r

-- the switch of `Set` on the mode; the case of "metadata" has no body, and Go does not fall through
unfoldable pub set_named : List ℕ → ℕ → ℕ × Bool
set_named value mode =
    if bytes_eq value []
    then (no_mode, true)
    else if bytes_eq value (codes "metadata")
    then (mode, true)
    else if bytes_eq value (codes "object")
    then (metadata, true)
    else if bytes_eq value (codes "blob")
    then (blob, true)
    else if bytes_eq value (codes "both")
    then (bit_or metadata blob, true)
    else (mode, false)

-- the mode after `Set`, and whether it succeeds
unfoldable pub set : Bytes → ℕ → ℕ × Bool
unfolding set_named lower
set value mode = set_named (map lower (runes (trim_space value))) mode
