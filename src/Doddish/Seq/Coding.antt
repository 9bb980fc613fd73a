-- ===== src/Doddish/Seq/Coding.antt =====
-- go/internal/_/doddish/token.go and seq_coding.go: the binary form of a sequence. Each token is
-- written as a byte that counts what follows, its type, and its contents. The count is a uint8, so
-- it is kept modulo 256.
pub mod RoundTrip
use dodder.Prelude.{
  ℕ, zero, suc, ◌+◌, ◌-◌, ◌%◌, List, [], ◌∷◌, ◌++◌, true, false, Option, none, some, ltb,
  if◌then◌else◌, length, take, drop, Bytes,
}
use dodder.Run.{Run, done, panic, ◌>>=◌}
use dodder.Doddish.Seq.{Token, Seq}

unfoldable pub get_binary_byte_count : Token → ℕ
get_binary_byte_count token = 1 + length token.contents

-- `Token.AppendBinary` behind what is written
unfoldable pub append_token : Bytes → Token → Bytes
append_token bites token = bites ++ token.type ∷ token.contents

-- `SeqBinaryCoding.AppendBinary`
unfoldable pub append_binary : Bytes → Seq → Bytes
unfolding get_binary_byte_count append_token
append_binary bites [] = bites
append_binary bites (token ∷ seq) =
    append_binary (append_token (bites ++ (get_binary_byte_count token % 256) ∷ []) token) seq

unfoldable pub marshal_binary : Seq → Bytes
marshal_binary seq = append_binary [] seq

-- `Token.UnmarshalBinary` reads the type from the first byte
unfoldable pub unmarshal_token : Bytes → Run Token
unmarshal_token [] = panic
unmarshal_token (t ∷ contents) = done (record { type = t; contents = contents })

-- `SeqBinaryCoding.UnmarshalBinary`; `none` is the error. The tokens read so far are `seq`. A round
-- takes at least one byte off, so the number of bytes is enough fuel. It returns with no error
-- when nothing follows a count.
unfoldable pub unmarshal_from : ℕ → Seq → Bytes → Run (Option Seq)
unfolding unmarshal_token
unmarshal_from fuel seq [] = done (some seq)
unmarshal_from fuel seq (byte_count ∷ []) = done (some seq)
unmarshal_from zero seq (byte_count ∷ b ∷ bites) = done none
unmarshal_from (suc fuel) seq (byte_count ∷ b ∷ bites) =
    elim (ltb (suc (length bites)) byte_count) [
      | true ↦ done none
      | false ↦ do
        token ← unmarshal_token (take byte_count (b ∷ bites))
        unmarshal_from fuel (seq ++ token ∷ []) (drop byte_count (b ∷ bites))
    ]

unfoldable pub unmarshal_binary : Bytes → Run (Option Seq)
unfolding unmarshal_from
unmarshal_binary bites = unmarshal_from (length bites) [] bites
