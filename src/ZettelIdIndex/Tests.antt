-- ===== src/ZettelIdIndex/Tests.antt =====
-- Witnesses for go/internal/foxtrot/zettel_id_index/v0/main.go and
-- go/internal/charlie/zettel_id_provider.
use dodder.Prelude.{
  ℕ, zero, suc, Bytes, ◌≤◌, ◌<◌, bytes_eq, bytes_eq→ne, ◌≡◌, ◌≢◌, ◌↔◌, refl, [], ◌∷◌, inl, inr,
  true, none, codes, arith,
}
use dodder.Run.{done, ◌>>=◌, index}
use dodder.Utf8.{encode, encode_rune}
use dodder.Coordinates.Float.{round}
use dodder.Coordinates.{extrema, id}
use dodder.Doddish.Op.{get_type, make_op, is_space}
use dodder.Doddish.Scanner.Path.{IsPlain}
use dodder.ZettelId.RoundTrip.{of_words}
use dodder.ZettelIdProvider.{Provider}
use dodder.ZettelIdProvider.Clean.{IsSmall}
use dodder.ZettelIdProvider.Lookup.{Distinct}
use dodder.ZettelIdIndex.{
  Index, ok, Gob, Decoded, decoded, end_of_blob, undecodable, missing, taken, create_zettel_id,
  make_but_dont_store, reset, number_of, add_zettel_id,
}
use dodder.ZettelIdIndex.Keys.{Has}
use dodder.ZettelIdIndex.Create.{create-takes, IsGob, reread, read-flush-taken}
use dodder.ZettelIdIndex.Reset.{filled, IsInTable, reset-numbers}
use dodder.ZettelIdIndex.Numbers.{create-words, IsWord, added, number_of-make, add-takes}

letter-IsPlain : (c : ℕ) → b'a' ≤ c → c ≤ b'z' → IsPlain c
unfolding get_type make_op
letter-IsPlain c lo hi = ((ground arith), (omega arith), (omega arith), inl (omega arith))

letter-IsSmall : (c : ℕ) → b'a' ≤ c → c ≤ b'z' → IsSmall c
unfolding is_space
letter-IsSmall c lo hi = (hi, inr (omega arith), ground arith)

one_letter-IsWord : (c : ℕ) → b'a' ≤ c → c ≤ b'z' → IsWord (c ∷ [])
one_letter-IsWord c lo hi = ((letter-IsPlain c lo hi, tt), (letter-IsSmall c lo hi, tt))

abbrev store : Provider
store = record { yin = codes "a" ∷ codes "b" ∷ []; yang = codes "x" ∷ codes "y" ∷ [] }

a-ne-b : codes "a" ≢ codes "b"
unfolding bytes_eq
a-ne-b = bytes_eq→ne (codes "a") (codes "b") refl

x-ne-y : codes "x" ≢ codes "y"
unfolding bytes_eq
x-ne-y = bytes_eq→ne (codes "x") (codes "y") refl

yin-Distinct : Distinct store.yin
yin-Distinct = ((a-ne-b, tt), (tt, tt))

yang-Distinct : Distinct store.yang
yang-Distinct = ((x-ne-y, tt), (tt, tt))

abbrev read : Index
read = record {
  available_ids = 3 ∷ 2 ∷ [];
  old_zettel_id_store = store;
  did_read = true;
  has_changes = true;
  non_random_selection = true;
}

abbrev first : ℕ → ℕ
first n = 0

create-takes_example :
    (m : ℕ) × Has m (3 ∷ 2 ∷ [])
    × (create_zettel_id first missing read
        ≡ (make_but_dont_store store m >>= λ h. done (taken m read, h)))
    × (Has 2 (taken m read).available_ids ↔ (Has 2 (3 ∷ 2 ∷ []) × (2 ≢ m)))
create-takes_example = create-takes first missing read 3 (2 ∷ []) 2 refl refl

-- a blob that begins with 0, and then has the keys
abbrev gob : Gob
gob = record { encode = λ keys. 0 ∷ keys; decode = decode_plain }
  where
    decode_plain : Bytes → Decoded
    decode_plain [] = end_of_blob
    decode_plain (zero ∷ keys) = decoded keys
    decode_plain (suc n ∷ keys) = undecodable []

gob-IsGob : IsGob gob
gob-IsGob = record { keeps = λ keys h. (keys, refl, λ n. (λ h. h, λ h. h)) }

read-flush-taken_example :
    (m : ℕ) × Has m (3 ∷ 2 ∷ [])
    × (create_zettel_id first missing read
        ≡ (make_but_dont_store store m >>= λ h. done (taken m read, h)))
    × ((k : ℕ) → Has k (reread gob (taken m read) none true store) ↔ (Has k (3 ∷ 2 ∷ []) × (k ≢ m)))
read-flush-taken_example =
    read-flush-taken gob first missing read 3 (2 ∷ []) none true store gob-IsGob refl refl
      (omega arith, (omega arith, tt))

reset-numbers_example :
    (reset read ≡ (filled store read, none))
    × (Has 5 (filled store read).available_ids ↔ IsInTable 0 2 2 5)
reset-numbers_example = reset-numbers read store 5 refl (omega arith) (omega arith)

ascii : (c : ℕ) → c < 0x80 → encode (c ∷ []) ≡ c ∷ []
unfolding encode encode_rune
ascii c h = ground arith

at_a : index store.yin 0 ≡ done (encode (codes "a"))
unfolding encode encode_rune
at_a = refl

at_y : index store.yang 1 ≡ done (encode (codes "y"))
unfolding encode encode_rune
at_y = refl

number_of-make_example :
    (make_but_dont_store store (id (record { left = 0; right = 1 }))
      ≡ done (ok (of_words (codes "a") (codes "y"))))
    × (number_of store (of_words (codes "a") (codes "y"))
        ≡ ok (id (record { left = 0; right = 1 })))
number_of-make_example =
    number_of-make store (record { left = 0; right = 1 }) (codes "a") (codes "y") (omega arith) at_a
      at_y (one_letter-IsWord b'a' (omega arith) (omega arith))
      (one_letter-IsWord b'y' (omega arith) (omega arith)) yin-Distinct yang-Distinct

add-takes_example :
    (add_zettel_id
        (added store
          (record { left = 0; right = 1 })
          (codes "a")
          (codes "y")
          (omega arith)
          at_a
          at_y
          (one_letter-IsWord b'a' (omega arith) (omega arith))
          (one_letter-IsWord b'y' (omega arith) (omega arith)))
        missing
        read
      ≡ done (taken (id (record { left = 0; right = 1 })) read, none))
    × (Has 3 (taken (id (record { left = 0; right = 1 })) read).available_ids
        ↔ (Has 3 (3 ∷ 2 ∷ []) × (3 ≢ id (record { left = 0; right = 1 }))))
add-takes_example =
    add-takes store (record { left = 0; right = 1 }) (codes "a") (codes "y") (omega arith) at_a at_y
      (one_letter-IsWord b'a' (omega arith) (omega arith))
      (one_letter-IsWord b'y' (omega arith) (omega arith)) missing read 3 yin-Distinct yang-Distinct
      refl refl

abbrev from_yx : Index
from_yx = record read { available_ids = 4 ∷ 2 ∷ [] }

create-words_example :
    create_zettel_id first missing from_yx
    ≡ done
        (taken (id (record { left = 0; right = 1 })) from_yx, ok (of_words (codes "a") (codes "y")))
unfolding id extrema round
create-words_example =
    create-words store (record { left = 0; right = 1 }) (codes "a") (codes "y") (omega arith) at_a
      at_y (one_letter-IsWord b'a' (omega arith) (omega arith))
      (one_letter-IsWord b'y' (omega arith) (omega arith)) first missing from_yx 4 (2 ∷ []) refl
      refl refl refl (omega arith, (omega arith, tt)) (inr (inl refl))
      (omega arith, (omega arith, tt))
