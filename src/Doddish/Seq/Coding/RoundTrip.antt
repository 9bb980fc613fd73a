-- ===== src/Doddish/Seq/Coding/RoundTrip.antt =====
-- What go/internal/_/doddish/seq_coding.go writes, it reads back.
use dodder.Prelude.{
  ℕ, zero, suc, ◌+◌, ◌%◌, ◌≤◌, ◌≡◌, refl, [], ◌∷◌, ◌++◌, append_assoc, append-nil, false, some, ltb,
  ge→ltb, length, length-append, length-drop, Bool-cases, inl, inr, take, drop, take_prefix,
  drop_prefix, Bytes, All, ◌∙◌, arith,
}
use dodder.Run.{done, panic, ◌>>=◌}
use dodder.Doddish.Seq.{Token, Seq}
use dodder.Doddish.Seq.Coding.{
  append_binary, marshal_binary, unmarshal_token, unmarshal_from, unmarshal_binary,
}

-- the count of the token fits a byte
abbrev pub IsShort : Token → Type 0
IsShort t = length t.contents ≤ 254

-- the bytes of a sequence, token by token
flat : Seq → Bytes
flat [] = []
flat (t ∷ seq) = ((1 + length t.contents) % 256) ∷ t.type ∷ (t.contents ++ flat seq)

append_binary-flat : (bites : Bytes) (seq : Seq) → append_binary bites seq ≡ bites ++ flat seq
unfolding append_binary flat
append_binary-flat bites [] = rw append-nil
append_binary-flat bites (t ∷ seq) =
    let n = (1 + length t.contents) % 256 in
    append_binary-flat ((bites ++ n ∷ []) ++ t.type ∷ t.contents) seq ∙ simp append_assoc

-- a round of `UnmarshalBinary` whose count does not pass the end
unmarshal_round :
    (fuel : ℕ) (before : Seq) (c b : ℕ) (bites : Bytes)
    → c ≤ suc (length bites)
    → unmarshal_from (suc fuel) before (c ∷ b ∷ bites) ≡ (
        unmarshal_token (take c (b ∷ bites)) >>= λ token.
        unmarshal_from fuel (before ++ token ∷ []) (drop c (b ∷ bites)))
unfolding unmarshal_from
unmarshal_round fuel before c b bites h = rw (ge→ltb (suc (length bites)) c h, unmarshal_from)

unmarshal_from-flat :
    (fuel : ℕ) (before seq : Seq)
    → All IsShort seq
    → length (flat seq) ≤ fuel
    → unmarshal_from fuel before (flat seq) ≡ done (some (before ++ seq))
unfolding unmarshal_token flat
unmarshal_from-flat fuel before [] short fits = unfold unmarshal_from in rw append-nil
unmarshal_from-flat zero before (t ∷ seq) short fits = absurd (omega arith)
unmarshal_from-flat (suc fuel) before (t ∷ seq) short fits =
    let n : (1 + length t.contents) % 256 ≡ suc (length t.contents) = omega (arith, short.0) in
    let total = length-append t.contents (flat seq) in
    rw
      (
        n,
        unmarshal_round fuel before (suc (length t.contents)) t.type (t.contents ++ flat seq)
            (omega arith),
        take_prefix t.contents (flat seq),
        drop_prefix t.contents (flat seq),
        unmarshal_from-flat fuel (before ++ t ∷ []) seq short.1 (omega arith),
        append_assoc before (t ∷ []) seq,
      )
      refl

-- A sequence whose tokens have at most 254 bytes each is read back from its binary form.
pub unmarshal-marshal :
    (seq : Seq) → All IsShort seq → unmarshal_binary (marshal_binary seq) ≡ done (some seq)
unfolding unmarshal_binary marshal_binary
unmarshal-marshal seq short =
    rw (append_binary-flat [] seq)
      (unmarshal_from-flat (length (flat seq)) [] seq short (omega arith))

-- A first token of 255 bytes is written with the count 0, and reading it back panics.
pub unmarshal-marshal_long :
    (t : Token) (seq : Seq)
    → length t.contents ≡ 255
    → unmarshal_binary (marshal_binary (t ∷ seq)) ≡ panic
unfolding unmarshal_binary marshal_binary unmarshal_token
unmarshal-marshal_long t seq long =
    let n : (1 + length t.contents) % 256 ≡ 0 = omega (arith, long) in
    rw (append_binary-flat [] (t ∷ seq)) (
      unfold flat in
      rw
        (
          n,
          unmarshal_round (suc (length (t.contents ++ flat seq))) [] 0 t.type
              (t.contents ++ flat seq) (omega arith),
        )
        refl)

-- The fuel given by `UnmarshalBinary`, the number of bytes, is enough: more of it changes nothing.
unmarshal_from-fuel :
    (f g : ℕ) (seq : Seq) (bites : Bytes)
    → length bites ≤ f
    → length bites ≤ g
    → unmarshal_from f seq bites ≡ unmarshal_from g seq bites
unfolding unmarshal_from unmarshal_token
unmarshal_from-fuel f g seq [] hf hg = refl
unmarshal_from-fuel f g seq (c ∷ []) hf hg = refl
unmarshal_from-fuel zero g seq (c ∷ b ∷ bites) hf hg = absurd (omega arith)
unmarshal_from-fuel (suc f) zero seq (c ∷ b ∷ bites) hf hg = absurd (omega arith)
unmarshal_from-fuel (suc f) (suc g) seq (zero ∷ b ∷ bites) hf hg =
    let some_left : ltb (suc (length bites)) 0 ≡ false = ge→ltb _ _ (omega arith) in
    rw (some_left, unmarshal_from)
unmarshal_from-fuel (suc f) (suc g) seq (suc c ∷ b ∷ bites) hf hg =
    elim (Bool-cases (ltb (suc (length bites)) (suc c))) [
      | inl past ↦ rw (past, unmarshal_from)
      | inr inside ↦
          let left = length-drop c bites in
          rw (inside, unmarshal_from)
            (unmarshal_from-fuel f g (seq ++ record { type = b; contents = take c bites } ∷ [])
              (drop c bites) (omega arith) (omega arith))
    ]
