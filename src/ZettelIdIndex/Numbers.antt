-- ===== src/ZettelIdIndex/Numbers.antt =====
-- Numbers and zettel ids of go/internal/foxtrot/zettel_id_index/v0/main.go.
use dodder.ZettelIdIndex.Create.{IsBelow, create-least}
use dodder.Prelude.{
  All, ◌∷◌, ◌<◌, ℕ, ◌+◌, ◌%◌, ◌≤◌, ◌≡◌, ◌↔◌, ◌≢◌, refl, ap, ◌∙◌, List, Option, none, true,
  if◌then◌else◌, arith,
}
use dodder.ZettelIdIndex.Keys.{Has-All, Has, Has-delete}
use dodder.Run.{Run, done, ◌>>=◌, index}
use dodder.Coordinates.{ZettelIdCoordinate, int_mod, id}
use dodder.Coordinates.RoundTrip.{set_int-id}
use dodder.Utf8.{encode}
use dodder.Doddish.Scanner.Path.{IsIdentifier}
use dodder.ZettelId.{empty, to_seq, ZettelId}
use dodder.ZettelId.RoundTrip.{of_words, make_from_head_and_tail-eq, set_with_seq-to_seq}
use dodder.ZettelIdProvider.{Provider}
use dodder.ZettelIdProvider.Clean.{IsSmallWord, IsSmall-IsInk, clean-small}
use dodder.ZettelIdProvider.Lookup.{Distinct, zettel_id-make, index-make}
use dodder.ZettelIdIndex.{
  Outcome, create_zettel_id, read_blob, delete_number, taken, add_zettel_id, delete_number,
  read_if_necessary, add_with, add_read, add_set, taken, add_zettel_id, number_of_right, Index, ok,
  ObjectId, Blob, make_but_dont_store, make_from_providers_and_coordinates, make_right,
  make_of_words, outcome, number_of, number_of_left,
}

-- a word that an id can be made of
abbrev pub IsWord : List ℕ → Type 0
IsWord cs = IsIdentifier cs × IsSmallWord cs

id_small : (p : ZettelIdCoordinate) → id p % int_mod ≡ id p
unfolding id
id_small p = omega arith

module _ (store : Provider) (p : ZettelIdCoordinate) (l r : List ℕ)
    (near : p.left + p.right + 1 ≤ 5792) (at_left : index store.yin p.left ≡ done (encode l))
    (at_right : index store.yang p.right ≡ done (encode r)) (word_l : IsWord l)
    (word_r : IsWord r) where
  make-words : make_but_dont_store store (id p) ≡ done (ok (of_words l r))
  unfolding make_but_dont_store make_from_providers_and_coordinates make_right make_of_words outcome
  make-words =
      rw
        (
          id_small p,
          set_int-id p near,
          set_int-id p near,
          index-make store.yin p.left (encode l) at_left,
          index-make store.yang p.right (encode r) at_right,
          make_from_head_and_tail-eq l r word_l.0 word_r.0 (IsSmall-IsInk l word_l.1)
              (IsSmall-IsInk r word_r.1),
        )
        refl

  -- Take a pair of positions that add up to at most 5791, and at which the two lists have words that
  -- are identifiers, without capital letters, spaces and runes above 'z'. The number of the pair is
  -- made into the id of these words; if no word stands twice in a list, that id is found to have
  -- this number.
  pub number_of-make :
      Distinct store.yin
      → Distinct store.yang
      → (make_but_dont_store store (id p) ≡ done (ok (of_words l r)))
        × (number_of store (of_words l r) ≡ ok (id p))
  unfolding number_of number_of_left number_of_right
  number_of-make dl dr = (
    make-words,
    rw
        (
          zettel_id-make store.yin p.left (encode l) dl (clean-small l word_l.1)
              (index-make store.yin p.left (encode l) at_left),
          zettel_id-make store.yang p.right (encode r) dr (clean-small r word_r.1)
              (index-make store.yang p.right (encode r) at_right),
        )
        refl,
  )

  -- the id of the pair, as an argument of `AddZettelId`
  abbrev pub added : ObjectId
  added = record { is_zettel = true; seq = to_seq (of_words l r) }

  add-eq :
      (blob : Blob) (i : Index)
      → i.old_zettel_id_store ≡ store
      → i.did_read ≡ true
      → number_of store (of_words l r) ≡ ok (id p)
      → add_zettel_id added blob i ≡ done (taken (id p) i, none)
  unfolding add_zettel_id add_set add_read add_with read_if_necessary delete_number taken
  add-eq blob i there did found =
      let h : ZettelId = of_words l r in
      let with_store : done (add_with h i store) ≡ done (taken (id p) i, none) = rw found refl in
      ap (λ (x : Run (Option ZettelId)). x >>= λ o. add_set o blob i) (set_with_seq-to_seq h empty)
      ∙ ap
          (λ b. add_read h (if b then (i, none) else read_blob blob (record i { did_read = true })))
          did
      ∙ ap (λ f. done (add_with h i f)) there
      ∙ with_store

  -- Take a pair of positions that add up to at most 5791, and at which the two lists, in which no
  -- word stands twice, have words that are identifiers, without capital letters, spaces and runes
  -- above 'z'. Adding the id of these words to an index that has been read takes the number of the
  -- pair: a number is available afterwards if it was and is another.
  pub add-takes :
      (blob : Blob) (i : Index) (k : ℕ)
      → Distinct store.yin
      → Distinct store.yang
      → i.old_zettel_id_store ≡ store
      → i.did_read ≡ true
      → (add_zettel_id added blob i ≡ done (taken (id p) i, none))
        × (Has k (taken (id p) i).available_ids ↔ (Has k i.available_ids × (k ≢ id p)))
  add-takes blob i k dl dr there did = (
    add-eq blob i there did (number_of-make dl dr).1,
    unfold taken in Has-delete k (id p) i.available_ids,
  )

  -- Take a pair of positions that add up to at most 5791, and at which the two lists have words that
  -- are identifiers, without capital letters, spaces and runes above 'z'. If the number of the pair
  -- is the least that is available in an index that has been read, and 0 is not available, then with
  -- predictable ids a call returns the id of these words and takes the number.
  pub create-words :
      (intn : ℕ → ℕ) (blob : Blob) (i : Index) (n : ℕ) (ns : List ℕ)
      → i.old_zettel_id_store ≡ store
      → i.did_read ≡ true
      → i.non_random_selection ≡ true
      → i.available_ids ≡ n ∷ ns
      → All (λ k. 0 < k) i.available_ids
      → Has (id p) i.available_ids
      → IsBelow (id p) i.available_ids
      → create_zettel_id intn blob i ≡ done (taken (id p) i, ok (of_words l r))
  create-words intn blob i n ns there did predictable e pos has below =
      let (m, has_m, below_m, run) = create-least intn blob i n ns did predictable e pos in
      let lower = Has-All (λ k. m ≤ k) (id p) i.available_ids below_m has in
      let upper = Has-All (λ k. id p ≤ k) m i.available_ids below has_m in
      let same : m ≡ id p = omega (arith, lower, upper) in
      run
      ∙ ap (λ k. make_but_dont_store i.old_zettel_id_store k >>= λ h. done (taken k i, h)) same
      ∙ ap (λ f. make_but_dont_store f (id p) >>= λ h. done (taken (id p) i, h)) there
      ∙ ap (λ (o : Run (Outcome ZettelId)). o >>= λ h. done (taken (id p) i, h)) make-words
