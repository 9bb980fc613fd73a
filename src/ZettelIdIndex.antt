-- ===== src/ZettelIdIndex.antt =====
-- go/internal/foxtrot/zettel_id_index/v0/main.go: the numbers of the zettel ids that are not taken.
--
-- The map of available numbers is the list of its keys, in the order in which the next loop over
-- it visits them: the theorems hold for every list, so for every order. encoding/gob is a
-- parameter, the reading operations take what opening the named blob and decoding it gives,
-- math/rand's Intn is a parameter of the operation that draws, and the lock is left out, as each
-- operation is one step.
pub mod Keys
pub mod Create
pub mod Reset
pub mod Numbers
mod Tests
use dodder.Prelude.{
  ℕ, zero, suc, ◌+◌, ◌-◌, ◌%◌, List, [], ◌∷◌, ◌++◌, Bool, true, false, ◌==◌, ◌||◌, ltb,
  if◌then◌else◌, length, Option, none, some, Bytes,
}
use dodder.Run.{Run, done, panic, ◌>>=◌}
use dodder.Coordinates.{int_mod, set_int, id}
use dodder.Doddish.Seq.{Seq}
use dodder.ZettelId.{ZettelId, empty, set_with_seq, make_from_head_and_tail}
use dodder.ZettelIdProvider.{
  File, FileError, not_exist, broken_file, new, Words, Provider, make_zettel_id_from_coordinates,
  zettel_id,
}

pub data IndexError : Type 0 where
  unsupported_genre bad_seq read_failed left_missing right_missing exhausted left_empty right_empty
        not_made :
      IndexError

pub data Outcome (A : Type 0) : Type 0 where
  ok : A → Outcome A
  err : IndexError → Outcome A

-- What `Decode` of encoding/gob makes of a blob: the keys, or io.EOF for an empty blob, or another
-- error behind the keys that it has put in before.
pub data Decoded : Type 0 where
  decoded : List ℕ → Decoded
  end_of_blob : Decoded
  undecodable : List ℕ → Decoded

-- encoding/gob, on maps with these keys
pub record Gob : Type 0 where
  pub encode : List ℕ → Bytes
  pub decode : Bytes → Decoded

-- the named blob: there is none, it cannot be opened, or it is opened and decoded
pub data Blob : Type 0 where
  missing unreadable : Blob
  opened : Decoded → Blob

abbrev pub open_blob : Gob → Option Bytes → Blob
open_blob gob none = missing
open_blob gob (some content) = opened (gob.decode content)

pub record Index : Type 0 where
  pub available_ids : List ℕ
  pub old_zettel_id_store : Provider
  pub did_read : Bool
  pub has_changes : Bool
  pub non_random_selection : Bool

-- `ids.Id`, as far as `AddZettelId` reads it
pub record ObjectId : Type 0 where
  pub is_zettel : Bool
  pub seq : Seq

-- the operations on the map
unfoldable pub has_key : ℕ → List ℕ → Bool
has_key n [] = false
has_key n (k ∷ keys) = (n == k) || has_key n keys

unfoldable pub insert : ℕ → List ℕ → List ℕ
unfolding has_key
insert n keys = if has_key n keys then keys else keys ++ n ∷ []

unfoldable pub delete : ℕ → List ℕ → List ℕ
delete n [] = []
delete n (k ∷ keys) = let rest = delete n keys in if n == k then rest else k ∷ rest

-- decoding into a map that has keys keeps them
unfoldable pub merge : List ℕ → List ℕ → List ℕ
unfolding insert
merge [] keys = keys
merge (n ∷ ns) keys = merge ns (insert n keys)

-- what `MakeIndex` stores; a provider that could not be read whole keeps what was read of it
unfoldable pub index_of : Bool → Provider → Index
index_of predictable store = record {
  available_ids = [];
  old_zettel_id_store = store;
  did_read = false;
  has_changes = false;
  non_random_selection = predictable;
}

-- `MakeIndex` on the files of the two lists: only a file that is there and fails is an error
unfoldable pub make_index_of : Bool → (Provider × Option FileError) → Option Index
unfolding index_of
make_index_of predictable (store, some broken_file) = none
make_index_of predictable (store, some not_exist) = some (index_of predictable store)
make_index_of predictable (store, none) = some (index_of predictable store)

unfoldable pub make_index : Bool → File → File → Option Index
unfolding make_index_of
make_index predictable yin yang = make_index_of predictable (new yin yang)

-- `Flush`: the content of the named blob afterwards, if there is one. It writes only if there are
-- changes, and leaves `hasChanges`.
unfoldable pub flush : Gob → Index → Option Bytes → Option Bytes
flush gob i content = if i.has_changes then some (gob.encode i.available_ids) else content

unfoldable pub read_decoded : Decoded → Index → Index × Option IndexError
unfolding merge
read_decoded (decoded keys) i = (record i { available_ids = merge keys i.available_ids }, none)
read_decoded end_of_blob i = (i, none)
read_decoded (undecodable keys) i =
    (record i { available_ids = merge keys i.available_ids }, some read_failed)

unfoldable pub read_blob : Blob → Index → Index × Option IndexError
unfolding read_decoded
read_blob missing i = (i, none)
read_blob unreadable i = (i, some read_failed)
read_blob (opened d) i = read_decoded d i

unfoldable pub read_if_necessary : Blob → Index → Index × Option IndexError
unfolding read_blob
read_if_necessary blob i =
    if i.did_read then (i, none) else read_blob blob (record i { did_read = true })

-- the loops of `Reset`: `right` counts up while `left` stands still
unfoldable pub reset_rights : ℕ → ℕ → ℕ → List ℕ → List ℕ
unfolding insert
reset_rights left right zero keys = keys
reset_rights left right (suc todo) keys =
    reset_rights left (right + 1) todo (insert (id (record { left = left; right = right })) keys)

unfoldable pub reset_lefts : ℕ → ℕ → ℕ → List ℕ → List ℕ
unfolding reset_rights
reset_lefts left zero rights keys = keys
reset_lefts left (suc todo) rights keys =
    reset_lefts (left + 1) todo rights (reset_rights left 0 rights keys)

-- `lMax` is the length less one; the loops run up to it, so over all words
unfoldable pub reset_with : Index → Provider → Index × Option IndexError
unfolding reset_lefts
reset_with i store =
    let keys = reset_lefts 0 (length store.yin) (length store.yang) [] in
    let filled : Index = record i { available_ids = keys; has_changes = true } in
    if length store.yin == 1
    then (i, some left_empty)
    else if length store.yang == 1
    then (i, some right_empty)
    else (filled, none)

unfoldable pub reset : Index → Index × Option IndexError
unfolding reset_with
reset i = reset_with i i.old_zettel_id_store

-- the number of an id, as `AddZettelId` finds it
unfoldable pub number_of_right : ℕ → Option ℕ → Outcome ℕ
number_of_right left none = err right_missing
number_of_right left (some right) = ok (id (record { left = left; right = right }))

unfoldable pub number_of_left : Option ℕ → Option ℕ → Outcome ℕ
unfolding number_of_right
number_of_left none right = err left_missing
number_of_left (some left) right = number_of_right left right

unfoldable pub number_of : Provider → ZettelId → Outcome ℕ
unfolding number_of_left
number_of store h = number_of_left (zettel_id store.yin h.left) (zettel_id store.yang h.right)

unfoldable pub delete_number : Outcome ℕ → Index → Index × Option IndexError
unfolding delete
delete_number (err e) i = (i, some e)
delete_number (ok n) i =
    (record i { available_ids = delete n i.available_ids; has_changes = true }, none)

unfoldable pub add_with : ZettelId → Index → Provider → Index × Option IndexError
unfolding delete_number number_of
add_with h i store = delete_number (number_of store h) i

unfoldable pub add_read : ZettelId → (Index × Option IndexError) → Run (Index × Option IndexError)
unfolding add_with
add_read h (i, some e) = done (i, some e)
add_read h (i, none) = done (add_with h i i.old_zettel_id_store)

unfoldable pub add_set : Option ZettelId → Blob → Index → Run (Index × Option IndexError)
unfolding add_read read_if_necessary
add_set none blob i = done (i, some bad_seq)
add_set (some h) blob i = add_read h (read_if_necessary blob i)

unfoldable pub add_zettel_id : ObjectId → Blob → Index → Run (Index × Option IndexError)
unfolding add_set
add_zettel_id a blob i =
    let add : Run (Index × Option IndexError) = (do
      h ← set_with_seq a.seq empty
      add_set h blob i) in
    if a.is_zettel then add else done (i, some unsupported_genre)

-- `MakeZettelIdFromProvidersAndCoordinates` of go/internal/bravo/ids/zettel_id.go
unfoldable pub make_of_words : Option Bytes → Option Bytes → Run (Option ZettelId)
make_of_words none right = done none
make_of_words (some left) none = done none
make_of_words (some left) (some right) = make_from_head_and_tail left right

unfoldable pub make_right : Option Bytes → Words → ℕ → Run (Option ZettelId)
unfolding make_of_words
make_right none words right = done none
make_right (some left) words right = do
  r ← make_zettel_id_from_coordinates words right
  make_of_words (some left) r

unfoldable pub make_from_providers_and_coordinates : ℕ → Words → Words → Run (Option ZettelId)
unfolding make_right
make_from_providers_and_coordinates coordinate left_provider right_provider = do
  l ← make_zettel_id_from_coordinates left_provider (set_int coordinate).left
  make_right l right_provider (set_int coordinate).right

unfoldable pub outcome : Option ZettelId → Outcome ZettelId
outcome none = err not_made
outcome (some h) = ok h

unfoldable pub make_but_dont_store : Provider → ℕ → Run (Outcome ZettelId)
unfolding make_from_providers_and_coordinates outcome
make_but_dont_store store j = do
  h ← make_from_providers_and_coordinates (id (set_int (j % int_mod))) store.yin store.yang
  done (outcome h)

-- the loop of `CreateZettelId` with predictable ids; `m` is 0 before the first number
unfoldable pub pick_least : ℕ → List ℕ → ℕ
pick_least m [] = m
pick_least m (n ∷ ns) = pick_least (if m == 0 then n else if ltb m n then m else n) ns

-- the same loop with random ids, stopped at the visit `ri`, which counts from 1
unfoldable pub pick_random : ℕ → ℕ → ℕ → List ℕ → ℕ
pick_random ri j m [] = m
pick_random ri j m (n ∷ ns) =
    let more = pick_random ri (j + 1) n ns in if j + 1 == ri then n else more

unfoldable pub pick : (ℕ → ℕ) → Bool → List ℕ → ℕ
unfolding pick_least pick_random
pick intn non_random ns =
    let ri = if ltb 1 (length ns) then intn (length ns - 1) else 0 in
    if non_random then pick_least 0 ns else pick_random ri 0 0 ns

-- the index after a number is taken
unfoldable pub taken : ℕ → Index → Index
unfolding delete
taken m i = record i { available_ids = delete m i.available_ids; has_changes = true }

unfoldable pub create_from : (ℕ → ℕ) → List ℕ → Index → Run (Index × Outcome ZettelId)
unfolding pick taken make_but_dont_store
create_from intn [] i = done (i, err exhausted)
create_from intn (n ∷ ns) i = do
  let m = pick intn i.non_random_selection (n ∷ ns)
  h ← make_but_dont_store i.old_zettel_id_store m
  done (taken m i, h)

unfoldable pub create_read : (ℕ → ℕ) → (Index × Option IndexError) → Run (Index × Outcome ZettelId)
unfolding create_from
create_read intn (i, some e) = done (i, err e)
create_read intn (i, none) = create_from intn i.available_ids i

unfoldable pub create_zettel_id : (ℕ → ℕ) → Blob → Index → Run (Index × Outcome ZettelId)
unfolding create_read read_if_necessary
create_zettel_id intn blob i = create_read intn (read_if_necessary blob i)

-- a round of the loop of `PeekZettelIds`: whether it is the last, the id, and the rounds behind it
unfoldable pub peek_add :
    Bool
    → Outcome ZettelId
    → Run (List ZettelId × Option IndexError)
    → Run (List ZettelId × Option IndexError)
peek_add last (err e) more = done ([], some e)
peek_add true (ok h) more = done (h ∷ [], none)
peek_add false (ok h) more = more >>= λ r. done (h ∷ r.0, r.1)

-- the loop; `j` ids are made, and it stops at `m`
unfoldable pub peek_from : Provider → ℕ → ℕ → List ℕ → Run (List ZettelId × Option IndexError)
unfolding make_but_dont_store peek_add
peek_from store m j [] = done ([], none)
peek_from store m j (n ∷ ns) = do
  h ← make_but_dont_store store n
  peek_add (j + 1 == m) h (peek_from store m (j + 1) ns)

unfoldable pub peek_read :
    ℕ → (Index × Option IndexError) → Run (Index × (List ZettelId × Option IndexError))
unfolding peek_from
peek_read m (i, some e) = done (i, ([], some e))
peek_read m (i, none) = do
  let all = length i.available_ids
  let count = if ltb all m then all else if m == 0 then all else m
  r ← peek_from i.old_zettel_id_store count 0 i.available_ids
  done (i, r)

-- a count below 0 is not modelled
unfoldable pub peek_zettel_ids :
    ℕ → Blob → Index → Run (Index × (List ZettelId × Option IndexError))
unfolding peek_read read_if_necessary
peek_zettel_ids m blob i = peek_read m (read_if_necessary blob i)
