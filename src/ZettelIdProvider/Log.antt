-- ===== src/ZettelIdProvider/Log.antt =====
-- The words that go/internal/charlie/zettel_id_provider reads from its two files, and from its log.
use dodder.Prelude.{
  ℕ, ◌≡◌, ◌≢◌, refl, ap, ◌∙◌, List, [], ◌∷◌, ◌++◌, append_assoc, append-nil, map, ◌⊎◌, inl, inr,
  false, ◌==◌, if◌then◌else◌, Option, none, some, Bytes, All, arith,
}
use dodder.ZettelIdProvider.{
  File, text, Words, Provider, Entry, side_yin, side_yang, clean, read_lines, new_provider,
  add_words, add_resolved, add_entries, new_from_log,
}

abbrev pub IsUnbroken : Bytes → Type 0
IsUnbroken v = All (λ c. c ≢ b'\n') v

-- the text of a file with a line for each word
abbrev pub lines : Words → Bytes
lines [] = []
lines (w ∷ ws) = w ++ b'\n' ∷ lines ws

abbrev pub clean_lines : Words → Words
clean_lines ws = map (λ w. clean (w ++ b'\n' ∷ [])) ws

read_lines-tail : (line tail : Bytes) → IsUnbroken tail → read_lines line tail ≡ []
unfolding read_lines
read_lines-tail line [] h = refl
read_lines-tail line (c ∷ tail) h =
    let other : c == b'\n' ≡ false = ground (arith, h.0) in
    rw other (read_lines-tail (line ++ c ∷ []) tail h.1)

read_lines-line :
    (line w rest : Bytes)
    → IsUnbroken w
    → read_lines line (w ++ b'\n' ∷ rest) ≡ clean (line ++ (w ++ b'\n' ∷ [])) ∷ read_lines [] rest
unfolding read_lines
read_lines-line line [] rest h = refl
read_lines-line line (c ∷ w) rest h =
    let other : c == b'\n' ≡ false = ground (arith, h.0) in
    rw other (
      read_lines-line (line ++ c ∷ []) w rest h.1
      ∙ ap (λ l. clean l ∷ read_lines [] rest) (append_assoc line (c ∷ []) (w ++ b'\n' ∷ [])))

read_lines-lines :
    (ws : Words) (tail : Bytes)
    → All IsUnbroken ws
    → IsUnbroken tail
    → read_lines [] (lines ws ++ tail) ≡ clean_lines ws
read_lines-lines [] tail h t = read_lines-tail [] tail t
read_lines-lines (w ∷ ws) tail h t =
    ap (read_lines []) (append_assoc w (b'\n' ∷ lines ws) tail)
    ∙ read_lines-line [] w (lines ws ++ tail) h.0
    ∙ ap (λ r. clean (w ++ b'\n' ∷ []) ∷ r) (read_lines-lines ws tail h.1 t)

-- A file gives its lines, cleaned, in their order, and what stands behind the last newline is not
-- read.
pub new_provider-lines :
    (ws : Words) (tail : Bytes)
    → All IsUnbroken ws
    → IsUnbroken tail
    → new_provider (text (lines ws ++ tail)) ≡ (clean_lines ws, none)
unfolding new_provider
new_provider-lines ws tail h t = ap (λ l. (l, none)) (read_lines-lines ws tail h t)

module _ {ℓ} {I : Type ℓ} (resolve_blob : I → Option Words) where
  -- the blob of the entry is there, and its side is one of the two
  abbrev pub IsGood : Entry I → Type 0
  IsGood e =
      ((ws : Words) × (resolve_blob e.markl_id ≡ some ws))
      × ((e.side ≡ side_yin) ⊎ (e.side ≡ side_yang))

  abbrev words_or : Words → Option Words → Words
  words_or rest none = rest
  words_or rest (some ws) = ws ++ rest

  -- the words of all entries of one side, in the order of the log
  abbrev pub words_of : ℕ → List (Entry I) → Words
  words_of side [] = []
  words_of side (e ∷ es) =
      let rest = words_of side es in
      if e.side == side then words_or rest (resolve_blob e.markl_id) else rest

  add_entries-eq :
      (es : List (Entry I)) (f : Provider)
      → All IsGood es
      → add_entries resolve_blob es (some f)
        ≡ some
            (record { yin = f.yin ++ words_of side_yin es; yang = f.yang ++ words_of side_yang es })
  unfolding add_entries add_resolved add_words
  add_entries-eq [] f h = rw (append-nil f.yin, append-nil f.yang) refl
  add_entries-eq (e ∷ es) f (((ws, there), inl yin), hs) =
      rw (there, yin)
        (add_entries-eq es (record f { yin = f.yin ++ ws }) hs
          ∙ ap (λ l. some (record { yin = l; yang = f.yang ++ words_of side_yang es }))
              (append_assoc f.yin ws _))
  add_entries-eq (e ∷ es) f (((ws, there), inr yang), hs) =
      rw (there, yang)
        (add_entries-eq es (record f { yang = f.yang ++ ws }) hs
          ∙ ap (λ l. some (record { yin = f.yin ++ words_of side_yin es; yang = l }))
              (append_assoc f.yang ws _))

  -- Where the log has an entry and all its entries are of one of the two sides and have their blob,
  -- the provider has the words of each side in the order of the log, and the files do not matter.
  pub new_from_log-words :
      (e : Entry I) (es : List (Entry I)) (yin yang : File)
      → IsGood e
      → All IsGood es
      → new_from_log resolve_blob (some (e ∷ es)) yin yang
        ≡ some (record { yin = words_of side_yin (e ∷ es); yang = words_of side_yang (e ∷ es) })
  unfolding new_from_log
  new_from_log-words e es yin yang h hs =
      add_entries-eq (e ∷ es) (record { yin = []; yang = [] }) (h, hs)
