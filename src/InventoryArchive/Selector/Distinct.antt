-- ===== src/InventoryArchive/Selector/Distinct.antt =====
-- The blobs that are sorted have indices of their own.
use dodder.Prelude.{
  ℕ, ◌+◌, ◌<◌, ◌≤◌, ◌≢◌, subst, sym, List, [], ◌∷◌, ◌++◌, Bool-cases, inl, inr, ◌||◌, ltb, length,
  All, arith,
}
use dodder.InventoryArchive.Selector.{IndexedBlob, eligible}
use mathlib.Core.List.{Permᴰ}

abbrev pub Differs : ℕ → IndexedBlob → Type 0
Differs x b = b.original_index ≢ x

-- no two blobs have one index
abbrev pub IsDistinct : List IndexedBlob → Type 0
IsDistinct [] = Unit
IsDistinct (b ∷ bs) = All (Differs b.original_index) bs × IsDistinct bs

pub All-left {ℓ κ} : {A : Type ℓ} (P : A → Type κ) (xs ys : List A) → All P (xs ++ ys) → All P xs
All-left P [] ys h = tt
All-left P (x ∷ xs) ys h = (h.0, All-left P xs ys h.1)

pub All-right {ℓ κ} : {A : Type ℓ} (P : A → Type κ) (xs ys : List A) → All P (xs ++ ys) → All P ys
All-right P [] ys h = h
All-right P (x ∷ xs) ys h = All-right P xs ys h.1

pub All-map {ℓ κ} :
    {A : Type ℓ} (P Q : A → Type κ) (xs : List A) → ((a : A) → P a → Q a) → All P xs → All Q xs
All-map P Q [] f h = tt
All-map P Q (x ∷ xs) f h = (f x h.0, All-map P Q xs f h.1)

-- what holds of two lists in one order holds in the other
pub All-swap :
    {A : Type 0} {B : Type 0} (R : A → B → Type 0) (xs : List A) (ys : List B)
    → All (λ x. All (R x) ys) xs
    → All (λ y. All (λ x. R x y) xs) ys
All-swap R xs [] h = tt
All-swap R xs (y ∷ ys) h = (
  All-map (λ x. R x y × All (R x) ys) (λ x. R x y) xs (λ x t. t.0) h,
  All-swap R xs ys (All-map (λ x. R x y × All (R x) ys) (λ x. All (R x) ys) xs (λ x t. t.1) h),
)

pub IsDistinct-left : (xs ys : List IndexedBlob) → IsDistinct (xs ++ ys) → IsDistinct xs
IsDistinct-left [] ys d = tt
IsDistinct-left (x ∷ xs) ys d =
    (All-left (Differs x.original_index) xs ys d.0, IsDistinct-left xs ys d.1)

pub IsDistinct-right : (xs ys : List IndexedBlob) → IsDistinct (xs ++ ys) → IsDistinct ys
IsDistinct-right [] ys d = d
IsDistinct-right (x ∷ xs) ys d = IsDistinct-right xs ys d.1

-- the blobs behind differ from those in front
pub IsDistinct-across :
    (xs ys : List IndexedBlob)
    → IsDistinct (xs ++ ys)
    → All (λ x. All (Differs x.original_index) ys) xs
IsDistinct-across [] ys d = tt
IsDistinct-across (x ∷ xs) ys d =
    (All-right (Differs x.original_index) xs ys d.0, IsDistinct-across xs ys d.1)

pub All-Permᴰ :
    (P : IndexedBlob → Type 0) (xs ys : List IndexedBlob) → Permᴰ xs ys → All P xs → All P ys
All-Permᴰ P [] [] Permᴰ.nil h = tt
All-Permᴰ P (a ∷ xs) (b ∷ ys) (Permᴰ.cons e d) h = (subst P e h.0, All-Permᴰ P xs ys d h.1)
All-Permᴰ P (a ∷ b ∷ xs) (c ∷ d ∷ ys) (Permᴰ.swap e f) h = (subst P f h.1.0, (subst P e h.0, h.1.1))
All-Permᴰ P xs zs (Permᴰ.trans {l₂ = ys} d e) h = All-Permᴰ P ys zs e (All-Permᴰ P xs ys d h)

pub IsDistinct-Permᴰ : (xs ys : List IndexedBlob) → Permᴰ xs ys → IsDistinct xs → IsDistinct ys
IsDistinct-Permᴰ [] [] Permᴰ.nil h = tt
IsDistinct-Permᴰ (a ∷ xs) (b ∷ ys) (Permᴰ.cons e d) h = (
  subst (λ c. All (Differs c.original_index) ys) e
      (All-Permᴰ (Differs a.original_index) xs ys d h.0),
  IsDistinct-Permᴰ xs ys d h.1,
)
IsDistinct-Permᴰ (a ∷ b ∷ xs) (c ∷ d ∷ ys) (Permᴰ.swap e f) h =
    let swapped : IsDistinct (b ∷ a ∷ xs) = (((λ g. h.0.0 (sym g)), h.1.0), (h.0.1, h.1.1)) in
    subst (λ p. IsDistinct (p ∷ d ∷ ys)) f (subst (λ p. IsDistinct (b ∷ p ∷ ys)) e swapped)
IsDistinct-Permᴰ xs zs (Permᴰ.trans {l₂ = ys} d e) h =
    IsDistinct-Permᴰ ys zs e (IsDistinct-Permᴰ xs ys d h)

abbrev pub IsIndexIn : ℕ → ℕ → IndexedBlob → Type 0
IsIndexIn lo hi b = (lo ≤ b.original_index) × (b.original_index < hi)

pub eligible-IsIndexIn :
    (min_size max_size i : ℕ) (sizes : List ℕ)
    → All (IsIndexIn i (i + length sizes)) (eligible min_size max_size i sizes)
unfolding eligible
eligible-IsIndexIn min_size max_size i [] = tt
eligible-IsIndexIn min_size max_size i (s ∷ sizes) =
    let ih =
      All-map (IsIndexIn (i + 1) (i + 1 + length sizes)) (IsIndexIn i (i + length (s ∷ sizes)))
        (eligible min_size max_size (i + 1) sizes) (λ b h. (omega (arith, h.0), omega (arith, h.1)))
        (eligible-IsIndexIn min_size max_size (i + 1) sizes) in
    elim (Bool-cases (ltb s min_size || ltb max_size s)) [
      | inl outside ↦ rw outside ih
      | inr inside ↦ rw inside ((omega arith, omega arith), ih)
    ]

pub eligible-IsDistinct :
    (min_size max_size i : ℕ) (sizes : List ℕ) → IsDistinct (eligible min_size max_size i sizes)
unfolding eligible
eligible-IsDistinct min_size max_size i [] = tt
eligible-IsDistinct min_size max_size i (s ∷ sizes) =
    let ih = eligible-IsDistinct min_size max_size (i + 1) sizes in
    let later =
      All-map (IsIndexIn (i + 1) (i + 1 + length sizes)) (Differs i)
        (eligible min_size max_size (i + 1) sizes) (λ b h e. omega (arith, h.0, e))
        (eligible-IsIndexIn min_size max_size (i + 1) sizes) in
    elim (Bool-cases (ltb s min_size || ltb max_size s)) [
      | inl outside ↦ rw outside ih
      | inr inside ↦ rw inside (later, ih)
    ]
