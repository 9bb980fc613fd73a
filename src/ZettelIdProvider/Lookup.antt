-- ===== src/ZettelIdProvider/Lookup.antt =====
-- Positions and words of a provider (go/internal/charlie/zettel_id_provider/main.go).
use dodder.Prelude.{
  ge→ltb, ℕ, zero, suc, ◌+◌, ◌-◌, ◌≤◌, ◌<◌, ◌≡◌, ◌≢◌, ap, ◌∙◌, [], ◌∷◌, inl, inr, false, ltb,
  Bool-cases, length, none, some, Bytes, bytes_eq, bytes_eq→eq, bytes_eq_refl, All, arith,
}
use dodder.Run.{done-injective, Run, done, panic, ◌>>=◌, index}
use dodder.ZettelIdProvider.{Words, clean, find_word, zettel_id, make_zettel_id_from_coordinates}

-- no word stands in two places
abbrev pub Distinct : Words → Type 0
Distinct [] = Unit
Distinct (w ∷ p) = All (λ x. w ≢ x) p × Distinct p

-- what is found stands at that position
find_word-index :
    (p : Words) (i k : ℕ) (v : Bytes)
    → find_word i p v ≡ some k
    → (i ≤ k) × (k < i + length p) × (index p (k - i) ≡ done v)
unfolding find_word
find_word-index [] i k v h = absurd (cc)
find_word-index (w ∷ p) i k v h = elim (Bool-cases (bytes_eq w v)) [
  | inl e ↦
      let here : i ≡ k = (ground (arith, e)) in
      let zero_off : k - i ≡ 0 = omega arith in
      (omega arith, omega arith, rw zero_off (ap done (bytes_eq→eq w v e)))
  | inr e ↦
      let ih = find_word-index p (i + 1) k v (rw e at h) in
      let off : k - i ≡ suc (k - (i + 1)) = omega (arith, ih.0) in
      (omega (arith, ih.0), omega (arith, ih.1), rw off ih.2)
]

-- The word at the position that is found for a text is the text, cleaned.
pub make-zettel_id :
    (p : Words) (v : Bytes) (i : ℕ)
    → zettel_id p v ≡ some i
    → make_zettel_id_from_coordinates p i ≡ done (some (clean v))
unfolding zettel_id make_zettel_id_from_coordinates
make-zettel_id p v i h =
    let found = find_word-index p 0 i (clean v) h in
    let inside : ltb (length p) (i + 1) ≡ false = ge→ltb _ _ (omega (arith, found.1)) in
    let same : i - 0 ≡ i = omega arith in
    rw inside (ap (λ (r : Run Bytes). r >>= λ s. done (some s)) (rw same at found.2))

index-All :
    (P : Bytes → Type 0) (p : Words) (i : ℕ) (v : Bytes) → All P p → index p i ≡ done v → P v
index-All P [] i v h e = absurd (cc)
index-All P (w ∷ p) zero v h e = rw (done-injective e) at h.0
index-All P (w ∷ p) (suc i) v h e = index-All P p i v h.1 e

find_word-Distinct :
    (p : Words) (i k : ℕ) (v : Bytes)
    → Distinct p
    → index p k ≡ done v
    → find_word i p v ≡ some (i + k)
unfolding find_word
find_word-Distinct [] i k v d e = absurd (cc)
find_word-Distinct (w ∷ p) i zero v d e =
    let same : w ≡ v = done-injective e in rw (same, bytes_eq_refl v) (ap some (omega arith))
find_word-Distinct (w ∷ p) i (suc k) v d e = elim (Bool-cases (bytes_eq w v)) [
  | inl hit ↦ absurd (index-All (λ x. w ≢ x) p k v d.0 e (bytes_eq→eq w v hit))
  | inr miss ↦
      let next : i + 1 + k ≡ i + suc k = omega arith in
      rw (miss, find_word-Distinct p (i + 1) k v d.1 e) (ap some next)
]

index-lt : (p : Words) (i : ℕ) (v : Bytes) → index p i ≡ done v → i < length p
index-lt [] i v e = absurd (cc)
index-lt (w ∷ p) zero v e = omega arith
index-lt (w ∷ p) (suc i) v e = omega (arith, index-lt p i v e)

-- the two branches of the lookup by position
word-some : (r : Run Bytes) (v : Bytes) → (r >>= λ s. done (some s)) ≡ done (some v) → r ≡ done v
word-some (done w) v h = cc
word-some panic v h = absurd (cc)

message-none : (r : Run Bytes) (v : Bytes) → (r >>= λ last. done none) ≢ done (some v)
message-none (done w) v h = cc
message-none panic v h = cc

make-index :
    (p : Words) (i : ℕ) (v : Bytes)
    → make_zettel_id_from_coordinates p i ≡ done (some v)
    → index p i ≡ done v
unfolding make_zettel_id_from_coordinates
make-index p i v made = elim (Bool-cases (ltb (length p) (i + 1))) [
  | inl over ↦ absurd (message-none (index p (length p - 1)) v (rw over at made))
  | inr inside ↦ word-some (index p i) v (rw inside at made)
]

-- In a list of distinct words each word that cleaning leaves as it is is found where it stands.
pub zettel_id-make :
    (p : Words) (i : ℕ) (v : Bytes)
    → Distinct p
    → clean v ≡ v
    → make_zettel_id_from_coordinates p i ≡ done (some v)
    → zettel_id p v ≡ some i
unfolding zettel_id make_zettel_id_from_coordinates
zettel_id-make p i v d e made =
    rw e (find_word-Distinct p 0 i v d (make-index p i v made) ∙ ap some (omega arith))

pub index-make :
    (p : Words) (i : ℕ) (v : Bytes)
    → index p i ≡ done v
    → make_zettel_id_from_coordinates p i ≡ done (some v)
unfolding make_zettel_id_from_coordinates
index-make p i v e =
    let inside : ltb (length p) (i + 1) ≡ false = ge→ltb _ _ (omega (arith, index-lt p i v e)) in
    rw inside (ap (λ (r : Run Bytes). r >>= λ s. done (some s)) e)
