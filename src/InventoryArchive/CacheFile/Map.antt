-- ===== src/InventoryArchive/CacheFile/Map.antt =====
-- The map of a cache's entries against a search of them.
use dodder.Prelude.{
  ℕ, ◌/◌, ◌%◌, ◌<◌, ◌≡◌, refl, ap, sym, ◌∙◌, List, [], ◌∷◌, true, false, Bool-cases, inl, inr,
  if◌then◌else◌, Option, none, some, Bytes, bytes_eq, bytes_eq→eq, bytes_eq_refl, All, arith,
}
use dodder.InventoryArchive.Table.{EntryFormat}
use dodder.InventoryArchive.Table.FanOut.{IsSorted, IsLeast}
use dodder.InventoryArchive.Table.Search.{find, less-ne}
use dodder.InventoryArchive.CacheFile.{hex_digit, hex_string, map_from}

abbrev pub IsByte : ℕ → Type 0
IsByte b = b < 256

hex_digit-injective : (a b : ℕ) → a < 16 → b < 16 → hex_digit a ≡ hex_digit b → a ≡ b
hex_digit-injective a b ha hb e = ground arith

byte-eq : (a b : ℕ) → a / 16 ≡ b / 16 → a % 16 ≡ b % 16 → a ≡ b
byte-eq a b e e' = omega arith

-- the same digits come of the same bytes
hex_string-injective :
    (x y : Bytes) → All IsByte x → All IsByte y → hex_string x ≡ hex_string y → x ≡ y
unfolding hex_string
hex_string-injective [] [] hx hy e = refl
hex_string-injective [] (b ∷ y) hx hy e = absurd (cc)
hex_string-injective (a ∷ x) [] hx hy e = absurd (cc)
hex_string-injective (a ∷ x) (b ∷ y) hx hy e =
    let high : hex_digit (a / 16) ≡ hex_digit (b / 16) = cc in
    let low : hex_digit (a % 16) ≡ hex_digit (b % 16) = cc in
    let rest : hex_string x ≡ hex_string y = cc in
    let same : a ≡ b =
      byte-eq a b
        (hex_digit-injective (a / 16) (b / 16) (omega (arith, hx.0)) (omega (arith, hy.0)) high)
        (hex_digit-injective (a % 16) (b % 16) (omega arith) (omega arith) low) in
    let same' = hex_string-injective x y hx.1 hy.1 rest in cc

module _ {E : Type 0} (f : EntryFormat E) where
  -- no entry behind has the key
  map_from-absent :
      (m : Bytes → Option E) (a : E) (es : List E)
      → IsLeast f a es
      → All IsByte (f.hash a)
      → All (λ e. All IsByte (f.hash e)) es
      → map_from f m es (hex_string (f.hash a)) ≡ m (hex_string (f.hash a))
  unfolding map_from
  map_from-absent m a [] least ha hs = refl
  map_from-absent m a (e ∷ es) least ha hs =
      map_from-absent (λ key. if bytes_eq key (hex_string (f.hash e)) then some e else m key) a es
        least.1 ha hs.1
      ∙ (elim (Bool-cases (bytes_eq (hex_string (f.hash a)) (hex_string (f.hash e)))) [
        | inl hit ↦ absurd (
            less-ne (f.hash a) (f.hash e) least.0 (
              hex_string-injective (f.hash a) (f.hash e) ha hs.0
                (bytes_eq→eq (hex_string (f.hash a)) (hex_string (f.hash e)) hit)))
        | inr miss ↦ rw miss refl
      ])

  map_from-lookup :
      (m : Bytes → Option E) (es : List E) (h : Bytes)
      → IsSorted f es
      → All (λ e. All IsByte (f.hash e)) es
      → All IsByte h
      → m (hex_string h) ≡ none
      → map_from f m es (hex_string h) ≡ find f h es
  unfolding map_from
  map_from-lookup m [] h s hs hh empty = empty
  map_from-lookup m (e ∷ es) h s hs hh empty = elim (Bool-cases (bytes_eq (f.hash e) h)) [
    | inl hit ↦
        let same = bytes_eq→eq (f.hash e) h hit in
        rw hit (
          ap
            (λ k.
              map_from f (λ key. if bytes_eq key (hex_string (f.hash e)) then some e else m key) es
                (hex_string k))
            (sym same)
          ∙ map_from-absent (λ key. if bytes_eq key (hex_string (f.hash e)) then some e else m key)
              e es s.0 hs.0 hs.1
          ∙ rw (bytes_eq_refl (hex_string (f.hash e))) refl)
    | inr miss ↦ rw miss (
        map_from-lookup (λ key. if bytes_eq key (hex_string (f.hash e)) then some e else m key) es h
          s.1 hs.1 hh
          (elim (Bool-cases (bytes_eq (hex_string h) (hex_string (f.hash e)))) [
            | inl hit ↦
                let same =
                  hex_string-injective h (f.hash e) hh hs.0
                    (bytes_eq→eq (hex_string h) (hex_string (f.hash e)) hit) in
                absurd
                  (let clash : true ≡ false = sym (rw same (bytes_eq_refl (f.hash e))) ∙ miss in cc)
            | inr other ↦ rw other empty
          ]))
  ]

  pub map_from-find :
      (es : List E) (h : Bytes)
      → IsSorted f es
      → All (λ e. All IsByte (f.hash e)) es
      → All IsByte h
      → map_from f (λ key. none) es (hex_string h) ≡ find f h es
  map_from-find es h s hs hh = map_from-lookup (λ key. none) es h s hs hh refl
