-- ===== src/Genres.antt =====
-- go/internal/alfa/genres/main.go: the kinds of objects. A `Genre` is a byte.
pub mod Names
mod Tests
use dodder.Prelude.{
  ℕ, zero, suc, ◌+◌, ◌-◌, ◌/◌, ◌%◌, List, [], ◌∷◌, ◌++◌, Bool, true, false, ◌&&◌, ◌||◌, ◌==◌, ltb,
  leb, if◌then◌else◌, Option, none, some, Bytes, bytes_eq, codes, map,
}
use dodder.Run.{Run, done, panic}
use dodder.Utf8.{runes}
use dodder.Text.{trim_space}

abbrev pub unknown : ℕ
unknown = 0

abbrev pub blob : ℕ
blob = 1

abbrev pub type : ℕ
type = 2

abbrev pub tag : ℕ
tag = 3

abbrev pub zettel : ℕ
zettel = 4

abbrev pub config : ℕ
config = 5

abbrev pub inventory_list : ℕ
inventory_list = 6

abbrev pub repo : ℕ
repo = 7

abbrev pub max_genre : ℕ
max_genre = repo

-- the cases of the switch of `All`
unfoldable pub is_listed : ℕ → Bool
is_listed g =
    (g == type)
    || (g == tag)
    || (g == zettel)
    || (g == config)
    || (g == repo)
    || (g == inventory_list)
    || (g == blob)

-- the loop of `All`, from `i` on
unfoldable pub all_from : ℕ → ℕ → List ℕ
unfolding is_listed
all_from i zero = []
all_from i (suc todo) = let rest = all_from (i + 1) todo in if is_listed i then i ∷ rest else rest

unfoldable pub all : List ℕ
unfolding all_from
all = all_from (unknown + 1) max_genre

-- the bytes of the second block of constants are 1 shifted by the place in the block
unfoldable pub get_genre_bit_int : ℕ → Run ℕ
get_genre_bit_int g =
    if g == inventory_list
    then done 64
    else if g == blob
    then done 2
    else if g == zettel
    then done 16
    else if g == tag
    then done 8
    else if g == repo
    then done 128
    else if g == type
    then done 4
    else if g == config
    then done 32
    else panic

hex_digit : ℕ → ℕ
hex_digit d = if ltb d 10 then b'0' + d else b'a' + (d - 10)

hex : ℕ → Bytes
unfolding hex_digit
hex n = if ltb n 16 then hex_digit n ∷ [] else hex_digit (n / 16) ∷ hex_digit (n % 16) ∷ []

unfoldable pub string : ℕ → Bytes
unfolding hex
string g =
    if g == blob
    then codes "Blob"
    else if g == type
    then codes "Type"
    else if g == tag
    then codes "Tag"
    else if g == zettel
    then codes "Zettel"
    else if g == config
    then codes "Config"
    else if g == inventory_list
    then codes "InventoryList"
    else if g == repo
    then codes "Repo"
    else if g == unknown
    then codes "none"
    else codes "Unknown(0x" ++ hex g ++ codes ")"

-- simple case folding, as far as it reaches ASCII: the Kelvin sign and the long s fold to letters
fold : ℕ → ℕ
fold r =
    if leb b'A' r && leb r b'Z'
    then r + 32
    else if r == 0x212a
    then b'k'
    else if r == 0x17f
    then b's'
    else r

-- strings.EqualFold, one side of which is ASCII in lower case in all calls
unfoldable pub equal_fold : Bytes → Bytes → Bool
unfolding fold
equal_fold v ascii = bytes_eq (map fold (runes v)) ascii

-- strings.HasPrefix
unfoldable pub has_prefix : Bytes → Bytes → Bool
has_prefix v [] = true
has_prefix [] (c ∷ p) = false
has_prefix (d ∷ v) (c ∷ p) = (d == c) && has_prefix v p

-- the first argument is the name in all calls, so the text is to be a prefix of it
unfoldable pub has_prefix_or_equals : Bytes → Bytes → Bool
unfolding has_prefix equal_fold
has_prefix_or_equals v p = has_prefix v p || equal_fold p v

-- the switch of `Set`; `none` is its default
unfoldable pub genre_of : Bytes → Option ℕ
unfolding has_prefix_or_equals equal_fold
genre_of v =
    if equal_fold v (codes "blob") || equal_fold v (codes "akte")
    then some blob
    else if has_prefix_or_equals (codes "type") v || has_prefix_or_equals (codes "typ") v
    then some type
    else if equal_fold v (codes "aktetyp")
    then some type
    else if has_prefix_or_equals (codes "tag") v || has_prefix_or_equals (codes "etikett") v
    then some tag
    else if has_prefix_or_equals (codes "zettel") v
    then some zettel
    else if equal_fold v (codes "config") || equal_fold v (codes "konfig")
    then some config
    else if has_prefix_or_equals (codes "inventorylist") v
        || has_prefix_or_equals (codes "inventory_list") v
        || has_prefix_or_equals (codes "inventory-list") v
        || has_prefix_or_equals (codes "bestandsaufnahme") v
    then some inventory_list
    else if has_prefix_or_equals (codes "repo") v || has_prefix_or_equals (codes "kasten") v
    then some repo
    else none

-- the genre after `Set`, and whether it succeeds
unfoldable pub set_to : Option ℕ → ℕ → ℕ × Bool
set_to none g = (g, false)
set_to (some h) g = (h, true)

unfoldable pub set : Bytes → ℕ → ℕ × Bool
unfolding genre_of set_to
set v g = set_to (genre_of (trim_space v)) g

unfoldable pub make_or_unknown : Bytes → ℕ
unfolding set
make_or_unknown value = let r = set value unknown in if r.1 then r.0 else unknown
