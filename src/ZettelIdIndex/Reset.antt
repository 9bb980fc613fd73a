-- ===== src/ZettelIdIndex/Reset.antt =====
-- The numbers that `Reset` of go/internal/foxtrot/zettel_id_index/v0/main.go makes available.
use dodder.Prelude.{
  ==_iff, Bool-cases, ℕ, zero, suc, ◌+◌, ◌≤◌, ◌<◌, ◌≡◌, ◌≢◌, ◌↔◌, refl, ap, ◌∙◌, List, [], ◌⊎◌, inl,
  inr, true, false, ◌==◌, length, none, arith,
}
use dodder.Coordinates.{id}
use dodder.ZettelIdProvider.{Provider}
use dodder.ZettelIdIndex.{reset_with, Index, insert, reset_rights, reset_lefts, reset}
use dodder.ZettelIdIndex.Keys.{Has, Has-insert}

-- a number of the pairs (left, r) with from ≤ r < until
abbrev pub IsInRow : ℕ → ℕ → ℕ → ℕ → Type 0
IsInRow left from until n =
    (r : ℕ) × (from ≤ r) × (r < until) × (n ≡ id (record { left = left; right = r }))

-- a number of the pairs (l, r) with from ≤ l < until and r < rights
abbrev pub IsInTable : ℕ → ℕ → ℕ → ℕ → Type 0
IsInTable from until rights n = (l : ℕ) × (from ≤ l) × (l < until) × IsInRow l 0 rights n

row_step :
    (left right todo n : ℕ)
    → IsInRow left right (right + suc todo) n ↔ (
        (n ≡ id (record { left = left; right = right }))
        ⊎ IsInRow left (right + 1) (right + 1 + todo) n)
row_step left right todo n = (to, from)
  where
    to :
        IsInRow left right (right + suc todo) n
        → (n ≡ id (record { left = left; right = right }))
          ⊎ IsInRow left (right + 1) (right + 1 + todo) n
    to (r, lo, hi, e) = elim (Bool-cases (r == right)) [
      | inl same ↦ let q : r ≡ right = (==_iff r right).0 same in inl (rw q at e)
      | inr other ↦ inr (r, (ground (arith, other)), omega arith, e)
    ]

    from :
        (n ≡ id (record { left = left; right = right }))
          ⊎ IsInRow left (right + 1) (right + 1 + todo) n
        → IsInRow left right (right + suc todo) n
    from (inl e) = (right, omega arith, omega arith, e)
    from (inr (r, lo, hi, e)) = (r, omega arith, omega arith, e)

Has-reset_rights :
    (left right todo n : ℕ) (keys : List ℕ)
    → Has n (reset_rights left right todo keys) ↔ (Has n keys ⊎ IsInRow left right (right + todo) n)
unfolding reset_rights
Has-reset_rights left right zero n keys =
    (inl, λ h. elim h [ inl there ↦ there | inr (r, lo, hi, e) ↦ absurd (omega (arith, lo, hi)) ])
Has-reset_rights left right (suc todo) n keys =
    let one = Has-insert n (id (record { left = left; right = right })) keys in
    let more =
      Has-reset_rights left (right + 1) todo n
        (insert (id (record { left = left; right = right })) keys) in
    let step = row_step left right todo n in ground (arith, one, more, step)

table_step :
    (left todo rights n : ℕ)
    → IsInTable left (left + suc todo) rights n
      ↔ (IsInRow left 0 (0 + rights) n ⊎ IsInTable (left + 1) (left + 1 + todo) rights n)
table_step left todo rights n = (to, from)
  where
    to :
        IsInTable left (left + suc todo) rights n
        → IsInRow left 0 (0 + rights) n ⊎ IsInTable (left + 1) (left + 1 + todo) rights n
    to (l, lo, hi, (r, rlo, rhi, e)) = elim (Bool-cases (l == left)) [
      | inl same ↦ let q : l ≡ left = (==_iff l left).0 same in inl (r, rlo, omega arith, rw q at e)
      | inr other ↦ inr (l, (ground (arith, other)), omega arith, (r, rlo, rhi, e))
    ]

    from :
        IsInRow left 0 (0 + rights) n ⊎ IsInTable (left + 1) (left + 1 + todo) rights n
        → IsInTable left (left + suc todo) rights n
    from (inl (r, lo, hi, e)) = (left, omega arith, omega arith, (r, lo, omega arith, e))
    from (inr (l, lo, hi, row)) = (l, omega arith, omega arith, row)

Has-reset_lefts :
    (left todo rights n : ℕ) (keys : List ℕ)
    → Has n (reset_lefts left todo rights keys)
      ↔ (Has n keys ⊎ IsInTable left (left + todo) rights n)
unfolding reset_lefts
Has-reset_lefts left zero rights n keys =
    (inl, λ h. elim h [ inl there ↦ there | inr (l, lo, hi, row) ↦ absurd (omega (arith, lo, hi)) ])
Has-reset_lefts left (suc todo) rights n keys =
    let row = Has-reset_rights left 0 rights n keys in
    let more = Has-reset_lefts (left + 1) todo rights n (reset_rights left 0 rights keys) in
    let step = table_step left todo rights n in ground (arith, row, more, step)

-- the index that a reset over these words leaves
abbrev pub filled : Provider → Index → Index
filled store i = record i {
  available_ids = reset_lefts 0 (length store.yin) (length store.yang) [];
  has_changes = true;
}

-- Where neither list has exactly one word, a reset succeeds, and a number is available after it if
-- it is that of a pair of positions in the two lists.
pub reset-numbers :
    (i : Index) (store : Provider) (n : ℕ)
    → i.old_zettel_id_store ≡ store
    → length store.yin ≢ 1
    → length store.yang ≢ 1
    → (reset i ≡ (filled store i, none))
      × (Has n (filled store i).available_ids
          ↔ IsInTable 0 (length store.yin) (length store.yang) n)
unfolding reset reset_with
reset-numbers i store n there left right =
    let l : length store.yin == 1 ≡ false = ground (arith, left) in
    let r : length store.yang == 1 ≡ false = ground (arith, right) in
    let filling : reset_with i store ≡ (filled store i, none) = rw (l, r) refl in
    let keys = Has-reset_lefts 0 (length store.yin) (length store.yang) n [] in
    (ap (reset_with i) there ∙ filling, ground (arith, keys))
