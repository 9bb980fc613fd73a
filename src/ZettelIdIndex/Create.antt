-- ===== src/ZettelIdIndex/Create.antt =====
-- The numbers that `CreateZettelId` of go/internal/foxtrot/zettel_id_index/v0/main.go takes, and
-- what a written index gives when it is read.
use dodder.Prelude.{
  sym, subst, ℕ, ◌+◌, ◌≤◌, ◌<◌, ◌≡◌, ◌≢◌, ◌↔◌, refl, ap, ◌∙◌, List, [], ◌∷◌, ◌⊎◌, inl, inr, Bool,
  true, false, ◌==◌, ltb, if◌then◌else◌, Option, some, none, Bytes, ◌^◌, Bool-cases, All, arith,
}
use dodder.Run.{done, ◌>>=◌}
use dodder.ZettelIdProvider.{Provider}
use dodder.ZettelIdIndex.{
  Index, Blob, Gob, decoded, open_blob, index_of, flush, read_decoded, read_blob, delete, merge,
  read_if_necessary, taken, pick, pick_least, pick_random, create_from, create_read,
  create_zettel_id, make_but_dont_store,
}
use dodder.ZettelIdIndex.Keys.{Has, Has-delete, Has-merge}

either : (P : ℕ → Type 0) (b : Bool) (x y : ℕ) → P x → P y → P (if b then x else y)
either P true x y h k = h
either P false x y h k = k

-- the loop ends at the number it starts with, or at a key
pick_random-Has :
    (ri j m : ℕ) (ns : List ℕ) → (pick_random ri j m ns ≡ m) ⊎ Has (pick_random ri j m ns) ns
unfolding pick_random
pick_random-Has ri j m [] = inl refl
pick_random-Has ri j m (n ∷ ns) =
    either (λ v. (v ≡ m) ⊎ ((v ≡ n) ⊎ Has v ns)) (j + 1 == ri) n (pick_random ri (j + 1) n ns)
      (inr (inl refl)) (inr (pick_random-Has ri (j + 1) n ns))

pick_random-first : (ri j m n : ℕ) (ns : List ℕ) → Has (pick_random ri j m (n ∷ ns)) (n ∷ ns)
unfolding pick_random
pick_random-first ri j m n ns =
    either (λ v. (v ≡ n) ⊎ Has v ns) (j + 1 == ri) n (pick_random ri (j + 1) n ns) (inl refl)
      (pick_random-Has ri (j + 1) n ns)

later : (v m n : ℕ) (ns : List ℕ) → (v ≡ m) ⊎ Has v ns → (v ≡ m) ⊎ ((v ≡ n) ⊎ Has v ns)
later v m n ns (inl e) = inl e
later v m n ns (inr h) = inr (inr h)

pick_least-Has : (m : ℕ) (ns : List ℕ) → (pick_least m ns ≡ m) ⊎ Has (pick_least m ns) ns
unfolding pick_least
pick_least-Has m [] = inl refl
pick_least-Has m (n ∷ ns) =
    let P : ℕ → Type 0 =
      λ k. (pick_least k ns ≡ m) ⊎ ((pick_least k ns ≡ n) ⊎ Has (pick_least k ns) ns) in
    either P (m == 0) n (if ltb m n then m else n) (inr (pick_least-Has n ns)) (
      either P (ltb m n) m n (later (pick_least m ns) m n ns (pick_least-Has m ns))
        (inr (pick_least-Has n ns)))

-- what is picked from a map that is not empty is one of its keys
pick-Has :
    (intn : ℕ → ℕ) (non_random : Bool) (n : ℕ) (ns : List ℕ)
    → Has (pick intn non_random (n ∷ ns)) (n ∷ ns)
unfolding pick
pick-Has intn true n ns = unfold pick_least in pick_least-Has n ns
pick-Has intn false n ns = pick_random-first _ 0 0 n ns

lesser_bound : (m n : ℕ) → ((if ltb m n then m else n) ≤ m) × ((if ltb m n then m else n) ≤ n)
lesser_bound m n = ground arith

pick_least-step :
    (m n : ℕ) (ns : List ℕ)
    → 0 < m
    → pick_least m (n ∷ ns) ≡ pick_least (if ltb m n then m else n) ns
unfolding pick_least
pick_least-step m n ns pos = let later_round : m == 0 ≡ false = ground arith in rw later_round refl

abbrev pub IsBelow : ℕ → List ℕ → Type 0
IsBelow m ns = All (λ k. m ≤ k) ns

IsBelow-step :
    (v w m n : ℕ) (ns : List ℕ)
    → v ≡ w
    → (w ≤ m) × IsBelow w (n ∷ ns)
    → (v ≤ m) × IsBelow v (n ∷ ns)
IsBelow-step v w m n ns e h = subst (λ x. (x ≤ m) × IsBelow x (n ∷ ns)) (sym e) h

pick_least-le :
    (m : ℕ) (ns : List ℕ)
    → 0 < m
    → All (λ k. 0 < k) ns
    → (pick_least m ns ≤ m) × IsBelow (pick_least m ns) ns
pick_least-le m [] pos h = unfold pick_least in (omega arith, tt)
pick_least-le m (n ∷ ns) pos h =
    let low : 0 < (if ltb m n then m else n) = either (λ k. 0 < k) (ltb m n) m n pos h.0 in
    let ih = pick_least-le (if ltb m n then m else n) ns low h.1 in
    let bound = lesser_bound m n in
    IsBelow-step (pick_least m (n ∷ ns)) _ m n ns (pick_least-step m n ns pos)
      (omega (arith, ih.0, bound.0), (omega (arith, ih.0, bound.1), ih.1))

pick-le :
    (intn : ℕ → ℕ) (n : ℕ) (ns : List ℕ)
    → All (λ k. 0 < k) (n ∷ ns)
    → IsBelow (pick intn true (n ∷ ns)) (n ∷ ns)
unfolding pick pick_least
pick-le intn n ns h = pick_least-le n ns h.0 h.1

create-eq :
    (intn : ℕ → ℕ) (blob : Blob) (i : Index) (n : ℕ) (ns : List ℕ)
    → i.did_read ≡ true
    → i.available_ids ≡ n ∷ ns
    → create_zettel_id intn blob i ≡ (
        make_but_dont_store i.old_zettel_id_store (pick intn i.non_random_selection (n ∷ ns))
        >>= λ h. done (taken (pick intn i.non_random_selection (n ∷ ns)) i, h))
unfolding create_zettel_id create_read create_from read_if_necessary
create-eq intn blob i n ns did e =
    ap
      (λ b.
        create_read intn (if b then (i, none) else read_blob blob (record i { did_read = true })))
      did
    ∙ ap (λ a. create_from intn a i) e

-- An index that has been read and has a number takes one of its numbers, if it returns: the words of
-- that number are made into the id, and a number is available afterwards if it was and is another.
pub create-takes :
    (intn : ℕ → ℕ) (blob : Blob) (i : Index) (n : ℕ) (ns : List ℕ) (k : ℕ)
    → i.did_read ≡ true
    → i.available_ids ≡ n ∷ ns
    → (m : ℕ) × Has m i.available_ids
      × (create_zettel_id intn blob i
          ≡ (make_but_dont_store i.old_zettel_id_store m >>= λ h. done (taken m i, h)))
      × (Has k (taken m i).available_ids ↔ (Has k i.available_ids × (k ≢ m)))
create-takes intn blob i n ns k did e =
    let m = pick intn i.non_random_selection (n ∷ ns) in
    (
      m,
      rw e (pick-Has intn i.non_random_selection n ns),
      create-eq intn blob i n ns did e,
      unfold taken in Has-delete k m i.available_ids,
    )

-- With predictable ids, and where no number is 0, the number taken is the least.
pub create-least :
    (intn : ℕ → ℕ) (blob : Blob) (i : Index) (n : ℕ) (ns : List ℕ)
    → i.did_read ≡ true
    → i.non_random_selection ≡ true
    → i.available_ids ≡ n ∷ ns
    → All (λ k. 0 < k) i.available_ids
    → (m : ℕ) × Has m i.available_ids
      × IsBelow m i.available_ids
      × (create_zettel_id intn blob i
          ≡ (make_but_dont_store i.old_zettel_id_store m >>= λ h. done (taken m i, h)))
create-least intn blob i n ns did predictable e pos =
    let m = pick intn true (n ∷ ns) in
    (
      m,
      rw e (pick-Has intn true n ns),
      rw e (pick-le intn n ns (rw e at pos)),
      create-eq intn blob i n ns did e
          ∙ ap
              (λ b. make_but_dont_store i.old_zettel_id_store (pick intn b (n ∷ ns)) >>= λ h.
                done (taken (pick intn b (n ∷ ns)) i, h))
              predictable,
    )

-- encoding/gob gives the keys of a map back, in any order, where they are ints.
pub record IsGob (gob : Gob) : Type 0 where
  pub keeps :
      (keys : List ℕ)
      → All (λ k. k < 2 ^ 63) keys
      → (keys' : List ℕ) × (gob.decode (gob.encode keys) ≡ decoded keys')
        × ((n : ℕ) → Has n keys' ↔ Has n keys)

-- the available numbers of a new index that reads what the index `i` has written
abbrev pub reread : Gob → Index → Option Bytes → Bool → Provider → List ℕ
reread gob i content predictable store =
    let (i', e) =
      read_if_necessary (open_blob gob (flush gob i content)) (index_of predictable store) in
    i'.available_ids

-- an index with changes that is written and then read by a new index has the same numbers there
read-flush :
    (gob : Gob) (i : Index) (content : Option Bytes) (predictable : Bool) (store : Provider) (n : ℕ)
    → IsGob gob
    → i.has_changes ≡ true
    → All (λ k. k < 2 ^ 63) i.available_ids
    → Has n (reread gob i content predictable store) ↔ Has n i.available_ids
unfolding flush read_if_necessary read_blob read_decoded index_of
read-flush gob i content predictable store n law changed ints =
    let (keys, back, same) = law.keeps i.available_ids ints in
    let all = Has-merge n keys [] in
    let wrote : flush gob i content ≡ some (gob.encode i.available_ids) = rw changed refl in
    let there : reread gob i content predictable store ≡ merge keys [] =
      ap (λ c. (read_if_necessary (open_blob gob c) (index_of predictable store)).0.available_ids)
        wrote
      ∙ ap
          (λ d.
            (read_decoded d
              (record (index_of predictable store) { did_read = true })).0.available_ids)
          back in
    rw there (
      λ h. elim (all.0 h) [ inl k ↦ (same n).0 k | inr none_left ↦ absurd none_left ],
      λ h. all.1 (inl ((same n).1 h)),
    )

All-delete : (P : ℕ → Type 0) (n : ℕ) (keys : List ℕ) → All P keys → All P (delete n keys)
unfolding delete
All-delete P n [] h = tt
All-delete P n (k ∷ keys) h = elim (Bool-cases (n == k)) [
  | inl e ↦ rw e (All-delete P n keys h.1)
  | inr e ↦ rw e (h.0, All-delete P n keys h.1)
]

-- Let an index that has been read have a number, let its numbers be ints, and let encoding/gob give
-- the keys of a map back. Then `CreateZettelId` makes the words of one of the numbers into an id,
-- if it returns, and a new index that reads what `Flush` writes afterwards has that number no more,
-- and all the others.
pub read-flush-taken :
    (gob : Gob) (intn : ℕ → ℕ) (blob : Blob) (i : Index) (n : ℕ) (ns : List ℕ)
    (content : Option Bytes) (predictable : Bool) (store : Provider)
    → IsGob gob
    → i.did_read ≡ true
    → i.available_ids ≡ n ∷ ns
    → All (λ k. k < 2 ^ 63) i.available_ids
    → (m : ℕ) × Has m i.available_ids
      × (create_zettel_id intn blob i
          ≡ (make_but_dont_store i.old_zettel_id_store m >>= λ h. done (taken m i, h)))
      × ((k : ℕ)
          → Has k (reread gob (taken m i) content predictable store)
            ↔ (Has k i.available_ids × (k ≢ m)))
unfolding taken
read-flush-taken gob intn blob i n ns content predictable store law did e ints =
    let m = pick intn i.non_random_selection (n ∷ ns) in
    (
      m,
      rw e (pick-Has intn i.non_random_selection n ns),
      create-eq intn blob i n ns did e,
      λ k.
          let read =
            read-flush gob (taken m i) content predictable store k law refl
              (All-delete (λ j. j < 2 ^ 63) m i.available_ids ints) in
          let deleted = Has-delete k m i.available_ids in
          (λ h. deleted.0 (read.0 h), λ h. read.1 (deleted.1 h)),
    )
