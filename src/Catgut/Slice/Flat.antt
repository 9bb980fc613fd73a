-- ===== src/Catgut/Slice/Flat.antt =====
-- The operations on a slice in two parts do what they would do on its bytes in one piece.

use dodder.Prelude.{
  ℕ, ◌+◌, ◌≡◌, inl, inr, refl, sym, ap, ◌∙◌, [], ◌∷◌, ◌++◌, ◌==◌, Option, none, some, length, Bytes,
  arith, append_assoc, append-nil, Bool-cases, Option-cases,
}
use mathlib.Core.Option
use dodder.Catgut.Slice.{
  Slice, bytes, split_at, cut, slice_upto_but_excluding, slice_upto_and_including,
}

nil_of_length : (q : Bytes) → length q ≡ 0 → q ≡ []
nil_of_length [] e = refl
nil_of_length (x ∷ q) e = absurd (omega arith)

pub bytes_lem : (s : Slice) → bytes s ≡ s.first ++ s.second
unfolding bytes
bytes_lem s =
    let x = s.first in
    let y = s.second in
    elim (Bool-cases (length x == length x + length y)) [
      | inl first ↦
          let e : y ≡ [] = nil_of_length y (ground arith) in
          rw first (sym (append-nil x) ∙ ap (λ z. x ++ z) (sym e))
      | inr more ↦ elim (Bool-cases (length y == length x + length y)) [
        | inl second ↦
            let e : x ≡ [] = nil_of_length x (ground arith) in
            rw (more, second) (ap (λ z. z ++ y) (sym e))
        | inr both ↦ rw (more, both)
      ]
    ]

-- where `x ++ y` is split, from where its parts are
abbrev joined :
    Bytes → Bytes → Option (Bytes × Bytes) → Option (Bytes × Bytes) → Option (Bytes × Bytes)
joined x y (some (p, q)) o = some (p, q ++ y)
joined x y none (some (p, q)) = some (x ++ p, q)
joined x y none none = none

joined-nil : (y : Bytes) (o : Option (Bytes × Bytes)) → o ≡ joined [] y none o
joined-nil y none = refl
joined-nil y (some (p, q)) = refl

joined-cons :
    (c : ℕ) (x y : Bytes) (o o' : Option (Bytes × Bytes))
    → Option.map (λ (p, q). (c ∷ p, q)) (joined x y o o')
      ≡ joined (c ∷ x) y (Option.map (λ (p, q). (c ∷ p, q)) o) o'
joined-cons c x y none none = refl
joined-cons c x y none (some (p, q)) = refl
joined-cons c x y (some (p, q)) o' = refl

split_at-append :
    (b : ℕ) (x y : Bytes) → split_at b (x ++ y) ≡ joined x y (split_at b x) (split_at b y)
unfolding split_at
split_at-append b [] y = joined-nil y (split_at b y)
split_at-append b (c ∷ x) y = elim (Bool-cases (c == b)) [
  | inl here ↦ rw here refl
  | inr further ↦
      rw (further, split_at-append b x y) (joined-cons c x y (split_at b x) (split_at b y))
]

abbrev two : Bytes → Bytes → Slice
two x y = record { first = x; second = y }

abbrev both : Slice × Slice → Bytes × Bytes
both (s, t) = (bytes s, bytes t)

-- `Cut` of a slice in two parts splits its bytes at the first `b`, without it, or finds none, as a
-- scan of the bytes does.
pub cut-split_at : (s : Slice) (b : ℕ) → Option.map both (cut s b) ≡ split_at b (bytes s)
unfolding cut
cut-split_at s b =
    rw (bytes_lem s, split_at-append b s.first s.second)
      (elim (Option-cases (split_at b s.first)) [
        | inr ((p, q), here) ↦
            rw (here, cut)
              (rw (bytes_lem (two p []), bytes_lem (two q s.second), append-nil p) refl)
        | inl nowhere ↦ elim (Option-cases (split_at b s.second)) [
          | inr ((p, q), here) ↦
              rw (nowhere, here, cut)
                (rw (bytes_lem (two s.first p), bytes_lem (two q []), append-nil q) refl)
          | inl nowhere' ↦ rw (nowhere, nowhere', cut) refl
        ]
      ])

-- The bytes before the first `b` of a slice in two parts, and these with it, are those of its bytes.
pub slice_upto-split_at :
    (s : Slice) (b : ℕ)
    → (Option.map bytes (slice_upto_but_excluding s b)
        ≡ Option.map (λ (p, q). p) (split_at b (bytes s)))
      × (Option.map bytes (slice_upto_and_including s b)
          ≡ Option.map (λ (p, q). p ++ b ∷ []) (split_at b (bytes s)))
unfolding slice_upto_but_excluding slice_upto_and_including
slice_upto-split_at s b =
    rw (bytes_lem s, split_at-append b s.first s.second)
      (elim (Option-cases (split_at b s.first)) [
        | inr ((p, q), here) ↦
            rw (here, slice_upto_but_excluding, slice_upto_and_including)
              (rw
                (
                  bytes_lem (two p []),
                  bytes_lem (two (p ++ b ∷ []) []),
                  append-nil p,
                  append-nil (p ++ b ∷ []),
                )
                (refl, refl))
        | inl nowhere ↦ elim (Option-cases (split_at b s.second)) [
          | inr ((p, q), here) ↦
              rw (nowhere, here, slice_upto_but_excluding, slice_upto_and_including)
                (rw (bytes_lem (two s.first p), bytes_lem (two s.first (p ++ b ∷ [])))
                  (refl, ap some (sym (append_assoc s.first p (b ∷ [])))))
          | inl nowhere' ↦
              rw (nowhere, nowhere', slice_upto_but_excluding, slice_upto_and_including)
                (refl, refl)
        ]
      ])
