-- ===== src/InventoryArchive/Table/Columns.antt =====
-- Cutting a row into its columns.
use dodder.Prelude.{
  [], append-nil, ℕ, ◌+◌, ◌<◌, ◌≡◌, ap, sym, ◌∙◌, subst, ◌++◌, append_assoc, length, length-append,
  take, drop, take_prefix, drop_prefix, Bytes, arith,
}
use dodder.Wire.{un_be-be_1, u64_mod, be, un_be, length-be, un_be-be_8}

pub take_at : (x y : Bytes) (n : ℕ) → length x ≡ n → take n (x ++ y) ≡ x
take_at x y n e = subst (λ k. take k (x ++ y) ≡ x) e (take_prefix x y)

pub drop_at : (x y : Bytes) (n : ℕ) → length x ≡ n → drop n (x ++ y) ≡ y
drop_at x y n e = subst (λ k. drop k (x ++ y) ≡ y) e (drop_prefix x y)

-- a number in the middle of a row
pub number_at :
    (row x y : Bytes) (v n : ℕ)
    → row ≡ x ++ (be 8 v ++ y)
    → length x ≡ n
    → v < u64_mod
    → un_be (take 8 (drop n row)) ≡ v
number_at row x y v n whole e small =
    ap (λ r. un_be (take 8 (drop n r))) whole
    ∙ ap (λ r. un_be (take 8 r)) (drop_at x (be 8 v ++ y) n e)
    ∙ ap un_be (take_at (be 8 v) y 8 (length-be 8 v))
    ∙ un_be-be_8 v small

-- a byte in the middle of a row
pub byte_at :
    (row x y : Bytes) (v n : ℕ)
    → row ≡ x ++ (be 1 v ++ y)
    → length x ≡ n
    → v < 256
    → un_be (take 1 (drop n row)) ≡ v
byte_at row x y v n whole e small =
    ap (λ r. un_be (take 1 (drop n r))) whole
    ∙ ap (λ r. un_be (take 1 r)) (drop_at x (be 1 v ++ y) n e)
    ∙ ap un_be (take_at (be 1 v) y 1 (length-be 1 v))
    ∙ un_be-be_1 v small

-- the last three columns behind a prefix of the row
pub tail_columns :
    (row front : Bytes) (k p q s t o : ℕ)
    → row ≡ front ++ (be 8 s ++ (be 1 t ++ be 8 o))
    → length front ≡ k
    → k + 8 ≡ p
    → k + 9 ≡ q
    → s < u64_mod
    → t < 256
    → o < u64_mod
    → (un_be (take 8 (drop k row)) ≡ s)
      × (un_be (take 1 (drop p row)) ≡ t)
      × (un_be (take 8 (drop q row)) ≡ o)
tail_columns row front k p q s t o whole e at_p at_q hs ht ho =
    let two : row ≡ (front ++ be 8 s) ++ (be 1 t ++ be 8 o) =
      whole ∙ sym (append_assoc front (be 8 s) (be 1 t ++ be 8 o)) in
    let three : row ≡ ((front ++ be 8 s) ++ be 1 t) ++ (be 8 o ++ []) =
      two
      ∙ sym (append_assoc (front ++ be 8 s) (be 1 t) (be 8 o))
      ∙ ap (λ y. ((front ++ be 8 s) ++ be 1 t) ++ y) (sym (append-nil (be 8 o))) in
    let len : length (front ++ be 8 s) ≡ p =
      omega (arith, at_p, length-append front (be 8 s), length-be 8 s, e) in
    let len' : length ((front ++ be 8 s) ++ be 1 t) ≡ q =
      omega (arith, at_p, at_q, length-append (front ++ be 8 s) (be 1 t), length-be 1 t, len) in
    (
      number_at row front (be 1 t ++ be 8 o) s k whole e hs,
      byte_at row (front ++ be 8 s) (be 8 o) t p two len ht,
      number_at row ((front ++ be 8 s) ++ be 1 t) [] o q three len' ho,
    )
