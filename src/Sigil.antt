-- ===== src/Sigil.antt =====
-- go/internal/bravo/ids/sigil.go: what an object query reaches, as the bits of a byte.
pub mod Bits
mod Tests
use Prim.Native.Nat.{bit_and, bit_or}
use dodder.Prelude.{
  ℕ, zero, suc, ◌+◌, ◌-◌, List, [], ◌∷◌, ◌++◌, Bool, true, false, not, ◌&&◌, ◌||◌, ◌==◌,
  if◌then◌else◌, Option, none, some, Bytes,
}
use dodder.Utf8.{runes, encode_rune}
use dodder.Text.{trim_space}

abbrev pub sigil_unknown : ℕ
sigil_unknown = 0

abbrev pub sigil_latest : ℕ
sigil_latest = 2

abbrev pub sigil_history : ℕ
sigil_history = 4

abbrev pub sigil_external : ℕ
sigil_external = 8

abbrev pub sigil_hidden : ℕ
sigil_hidden = 16

abbrev pub sigil_max : ℕ
sigil_max = 32

-- `mapRuneToSigil`
unfoldable pub sigil_of_rune : ℕ → Option ℕ
sigil_of_rune c =
    if c == b':'
    then some sigil_latest
    else if c == b'+'
    then some sigil_history
    else if c == b'.'
    then some sigil_external
    else if c == b'?'
    then some sigil_hidden
    else none

-- `mapSigilToRune`
unfoldable pub rune_of_sigil : ℕ → Option ℕ
rune_of_sigil s =
    if s == sigil_latest
    then some b':'
    else if s == sigil_history
    then some b'+'
    else if s == sigil_external
    then some b'.'
    else if s == sigil_hidden
    then some b'?'
    else none

unfoldable pub add : ℕ → ℕ → ℕ
add s b = bit_or s b

unfoldable pub make_sigil_from : ℕ → List ℕ → ℕ
unfolding add
make_sigil_from s [] = s
make_sigil_from s (v ∷ vs) = make_sigil_from (add s v) vs

unfoldable pub make_sigil : List ℕ → ℕ
unfolding make_sigil_from
make_sigil vs = make_sigil_from sigil_unknown vs

-- `&^`: the complement of a byte is what it lacks of 255
unfoldable pub del : ℕ → ℕ → ℕ
del s b = bit_and s (255 - b)

unfoldable pub contains : ℕ → ℕ → Bool
contains s b = bit_and s b == b

unfoldable pub contains_one_of : ℕ → ℕ → Bool
contains_one_of s b = not (bit_and s b == 0)

unfoldable pub is_latest_or_unknown : ℕ → Bool
is_latest_or_unknown s =
    (s == sigil_latest) || (s == sigil_unknown) || (s == bit_or sigil_latest sigil_unknown)

unfoldable pub includes_latest : ℕ → Bool
unfolding contains_one_of
includes_latest s = contains_one_of s sigil_latest || contains_one_of s sigil_history || (s == 0)

unfoldable pub includes_history : ℕ → Bool
unfolding contains_one_of
includes_history s = contains_one_of s sigil_history

unfoldable pub includes_external : ℕ → Bool
unfolding contains_one_of
includes_external s = contains_one_of s sigil_external

unfoldable pub includes_hidden : ℕ → Bool
unfolding contains_one_of
includes_hidden s = contains_one_of s sigil_hidden || contains_one_of s sigil_external

unfoldable pub write_sigil : Option ℕ → Bytes
write_sigil none = []
write_sigil (some r) = encode_rune r

-- the loop of `String`, which counts from `SigilLatest` to `SigilMax` one by one
unfoldable pub string_from : ℕ → ℕ → ℕ → Bytes
unfolding write_sigil rune_of_sigil contains_one_of
string_from sigil s zero = []
string_from sigil s (suc todo) =
    let rest = string_from sigil (s + 1) todo in
    if contains_one_of sigil s then write_sigil (rune_of_sigil s) ++ rest else rest

unfoldable pub string : ℕ → Bytes
unfolding string_from
string sigil = string_from sigil sigil_latest (sigil_max + 1 - sigil_latest)

-- the sigil after `SetByte`, and whether it succeeds
unfoldable pub add_found : Option ℕ → ℕ → ℕ × Bool
unfolding add
add_found none sigil = (sigil, false)
add_found (some v) sigil = (add sigil v, true)

unfoldable pub set_byte : ℕ → ℕ → ℕ × Bool
unfolding add_found sigil_of_rune
set_byte r sigil = add_found (sigil_of_rune r) sigil

-- The loop of `Set`. An error keeps what was added before it.
unfoldable pub set_from : List ℕ → ℕ → ℕ × Bool
unfolding add_found sigil_of_rune
set_from [] sigil = (sigil, true)
set_from (v1 ∷ els) sigil =
    let r = add_found (sigil_of_rune v1) sigil in
    let more = set_from els r.0 in if r.1 then more else r

-- strings.ToLower neither makes nor changes one of the four runes, so it is left out
unfoldable pub set : Bytes → ℕ → ℕ × Bool
unfolding set_from
set v sigil = set_from (runes (trim_space v)) sigil

unfoldable pub byte : ℕ → ℕ
byte sigil = if sigil == sigil_unknown then sigil_latest else sigil
