-- ===== src/ZettelIdProvider.antt =====
-- go/internal/charlie/zettel_id_provider: the two lists of words that zettel ids are made of.
-- Files, blobs and the entries of the log come from outside: a file is what its path gives,
-- and the words of a blob are what the resolver gives.
pub mod Clean
pub mod Lookup
pub mod Log
mod Tests
use dodder.Prelude.{
  ◌-◌, ℕ, zero, suc, ◌+◌, List, [], ◌∷◌, ◌++◌, Bool, true, false, ◌&&◌, ◌==◌, ltb, leb,
  if◌then◌else◌, length, Option, none, some, Bytes, bytes_eq,
}
use dodder.Run.{Run, done, panic, ◌>>=◌, index}
use dodder.Utf8.{runes, encode}
use dodder.Text.{trim_space}

-- unicode.ToLower, as far as `Clean` can tell: beside the capital letters of ASCII, two runes above
-- 'z' have a lower case that is not, and the lower case of all others above 'z' is above 'z'
unfoldable pub to_lower : ℕ → ℕ
to_lower r =
    if leb b'A' r && leb r b'Z'
    then r + 32
    else if r == 0x130
    then b'i'
    else if r == 0x212a
    then b'k'
    else r

-- strings.ToLower and then strings.Map, which drops a rune above 'z'
unfoldable pub clean_runes : List ℕ → List ℕ
unfolding to_lower
clean_runes [] = []
clean_runes (r ∷ rs) =
    let rest = clean_runes rs in if ltb b'z' (to_lower r) then rest else to_lower r ∷ rest

unfoldable pub clean : Bytes → Bytes
clean v = trim_space (encode (clean_runes (runes v)))

abbrev pub Words : Type 0
Words = List Bytes

-- the loop of `newProvider`: `line` is read, and a line that the end of the file cuts off is dropped
unfoldable pub read_lines : Bytes → Bytes → Words
read_lines line [] = []
read_lines line (c ∷ rest) =
    let ended : Words = clean (line ++ c ∷ []) ∷ read_lines [] rest in
    let more = read_lines (line ++ c ∷ []) rest in if c == b'\n' then ended else more

pub data FileError : Type 0 where
  not_exist broken_file : FileError

-- what a path gives: no file, one that cannot be read to its end, or the bytes of one
pub data File : Type 0 where
  absent broken : File
  text : Bytes → File

-- the lines in front of a read that fails are left out
unfoldable pub new_provider : File → Words × Option FileError
unfolding read_lines
new_provider absent = ([], some not_exist)
new_provider broken = ([], some broken_file)
new_provider (text file) = (read_lines [] file, none)

-- `len(p)-1 < int(i)` is an error, whose message indexes the last word, which an empty list has not
unfoldable pub make_zettel_id_from_coordinates : Words → ℕ → Run (Option Bytes)
make_zettel_id_from_coordinates p i =
    let message : Run (Option Bytes) = (do last ← index p (length p - 1); done none) in
    let word : Run (Option Bytes) = (do s ← index p i; done (some s)) in
    if ltb (length p) (i + 1) then message else word

-- the loop of `ZettelId`, at position `i`
unfoldable pub find_word : ℕ → Words → Bytes → Option ℕ
find_word i [] v = none
find_word i (s ∷ p) v = let rest = find_word (i + 1) p v in if bytes_eq s v then some i else rest

unfoldable pub zettel_id : Words → Bytes → Option ℕ
unfolding find_word
zettel_id p v = find_word 0 p (clean v)

pub record Provider : Type 0 where
  pub yin : Words
  pub yang : Words

unfoldable pub new_yang : Words → (Words × Option FileError) → Provider × Option FileError
new_yang yin (yang, e) = (record { yin = yin; yang = yang }, e)

unfoldable pub new_yin :
    (Words × Option FileError) → (Words × Option FileError) → Provider × Option FileError
unfolding new_yang
new_yin (yin, some e) right = (record { yin = yin; yang = [] }, some e)
new_yin (yin, none) right = new_yang yin right

-- `New` from the two files, which on an error also returns the provider as far as it is filled
unfoldable pub new : File → File → Provider × Option FileError
unfolding new_yin new_provider
new yin yang = new_yin (new_provider yin) (new_provider yang)

unfoldable pub no_error : (Provider × Option FileError) → Option Provider
no_error (f, none) = some f
no_error (f, some e) = none

-- `zettel_id_log.Entry`: the side is a number that a file may hold, so also one that is no side
pub record Entry {ℓ} (I : Type ℓ) : Type ℓ where
  pub side : ℕ
  pub markl_id : I

abbrev pub side_yin : ℕ
side_yin = 0

abbrev pub side_yang : ℕ
side_yang = 1

unfoldable pub add_words : ℕ → Words → Provider → Option Provider
add_words side words f =
    if side == side_yin
    then some (record f { yin = f.yin ++ words })
    else if side == side_yang
    then some (record f { yang = f.yang ++ words })
    else none

module _ {ℓ} {I : Type ℓ} (resolve_blob : I → Option Words) where
  unfoldable pub add_resolved : ℕ → Option Words → Provider → Option Provider
  unfolding add_words
  add_resolved side none f = none
  add_resolved side (some words) f = add_words side words f

  -- the loop of `NewFromLog`
  unfoldable pub add_entries : List (Entry I) → Option Provider → Option Provider
  unfolding add_resolved
  add_entries [] f = f
  add_entries (entry ∷ entries) none = none
  add_entries (entry ∷ entries) (some f) =
      add_entries entries (add_resolved entry.side (resolve_blob entry.markl_id) f)

  -- An empty log, also a missing one, leaves the two files; `none` is a log that cannot be read.
  unfoldable pub new_from_log : Option (List (Entry I)) → File → File → Option Provider
  unfolding add_entries no_error new
  new_from_log none yin yang = none
  new_from_log (some []) yin yang = no_error (new yin yang)
  new_from_log (some (entry ∷ entries)) yin yang =
      add_entries (entry ∷ entries) (some (record { yin = []; yang = [] }))
