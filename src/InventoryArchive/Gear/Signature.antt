-- ===== src/InventoryArchive/Gear/Signature.antt =====
-- Signatures do not depend on the order of the features, nor on how often one occurs.
use dodder.Prelude.{
  ℕ, ◌≤◌, ◌≡◌, ◌↔◌, subst, refl, ap, sym, ◌∙◌, List, [], ◌∷◌, ltb, if◌then◌else◌, arith,
}
use dodder.InventoryArchive.Gear.{
  universal_hash, coefficients_from, lower, lower_all, start, min_hash_signature,
}
use mathlib.Core.List.{Memᴰ}

-- a place of the signature after the features
abbrev least_from : ℕ × ℕ → ℕ → List ℕ → ℕ
least_from c s [] = s
least_from c s (f ∷ fs) =
    least_from c (if ltb (universal_hash f c) s then universal_hash f c else s) fs

lower_all-cons :
    (c : ℕ × ℕ) (cs : List (ℕ × ℕ)) (s : ℕ) (sig fs : List ℕ)
    → lower_all (c ∷ cs) fs (s ∷ sig) ≡ least_from c s fs ∷ lower_all cs fs sig
unfolding lower_all lower
lower_all-cons c cs s sig [] = refl
lower_all-cons c cs s sig (f ∷ fs) =
    lower_all-cons c cs (if ltb (universal_hash f c) s then universal_hash f c else s)
      (lower f cs sig) fs

lower_all-nil : (sig fs : List ℕ) → lower_all [] fs sig ≡ sig
unfolding lower_all lower
lower_all-nil sig [] = refl
lower_all-nil sig (f ∷ fs) = lower_all-nil sig fs

lower_all-empty : (c : ℕ × ℕ) (cs : List (ℕ × ℕ)) (fs : List ℕ) → lower_all (c ∷ cs) fs [] ≡ []
unfolding lower_all lower
lower_all-empty c cs [] = refl
lower_all-empty c cs (f ∷ fs) = lower_all-empty c cs fs

least_from-start : (c : ℕ × ℕ) (s : ℕ) (fs : List ℕ) → least_from c s fs ≤ s
least_from-start c s [] = omega arith
least_from-start c s (f ∷ fs) =
    ground
      (arith, least_from-start c (if ltb (universal_hash f c) s then universal_hash f c else s) fs)

least_from-Mem :
    (c : ℕ × ℕ) (s f : ℕ) (fs : List ℕ) → Memᴰ f fs → least_from c s fs ≤ universal_hash f c
least_from-Mem c s f [] none_there = elim none_there [ ]
least_from-Mem c s f (x ∷ fs) (Memᴰ.head same) =
    let low =
      least_from-start c (if ltb (universal_hash x c) s then universal_hash x c else s) fs in
    subst (λ y. least_from c s (x ∷ fs) ≤ universal_hash y c) (sym same) (ground (arith, low))
least_from-Mem c s f (x ∷ fs) (Memᴰ.tail there) =
    least_from-Mem c (if ltb (universal_hash x c) s then universal_hash x c else s) f fs there

-- the greatest number that is not above the start and the features' hashes
least_from-greatest :
    (c : ℕ × ℕ) (s t : ℕ) (fs : List ℕ)
    → t ≤ s
    → ((f : ℕ) → Memᴰ f fs → t ≤ universal_hash f c)
    → t ≤ least_from c s fs
least_from-greatest c s t [] below all = below
least_from-greatest c s t (f ∷ fs) below all =
    least_from-greatest c (if ltb (universal_hash f c) s then universal_hash f c else s) t fs
      (let here = all f (Memᴰ.head refl) in ground arith) (λ g there. all g (Memᴰ.tail there))

least_from-le :
    (c : ℕ × ℕ) (s : ℕ) (xs ys : List ℕ)
    → ((f : ℕ) → Memᴰ f xs → Memᴰ f ys)
    → least_from c s ys ≤ least_from c s xs
least_from-le c s xs ys sub =
    least_from-greatest c s (least_from c s ys) xs (least_from-start c s ys)
      (λ f there. least_from-Mem c s f ys (sub f there))

lower_all-same :
    (cs : List (ℕ × ℕ)) (sig xs ys : List ℕ)
    → ((f : ℕ) → Memᴰ f xs ↔ Memᴰ f ys)
    → lower_all cs xs sig ≡ lower_all cs ys sig
lower_all-same [] sig xs ys same = lower_all-nil sig xs ∙ sym (lower_all-nil sig ys)
lower_all-same (c ∷ cs) [] xs ys same = lower_all-empty c cs xs ∙ sym (lower_all-empty c cs ys)
lower_all-same (c ∷ cs) (s ∷ sig) xs ys same =
    let down = least_from-le c s xs ys (λ f. (same f).0) in
    let up = least_from-le c s ys xs (λ f. (same f).1) in
    let here : least_from c s xs ≡ least_from c s ys = omega arith in
    lower_all-cons c cs s sig xs
    ∙ ap (λ l. l ∷ lower_all cs xs sig) here
    ∙ ap (λ l. least_from c s ys ∷ l) (lower_all-same cs sig xs ys same)
    ∙ sym (lower_all-cons c cs s sig ys)

-- Two lists of features with the same members have the same signature, in whatever order and how
-- often the members occur.
pub min_hash_signature-same :
    (k : ℕ) (xs ys : List ℕ)
    → ((f : ℕ) → Memᴰ f xs ↔ Memᴰ f ys)
    → min_hash_signature xs k ≡ min_hash_signature ys k
unfolding min_hash_signature
min_hash_signature-same k xs ys same =
    lower_all-same (coefficients_from k 1597463007) (start k) xs ys same
