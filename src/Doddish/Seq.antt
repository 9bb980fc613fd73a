-- ===== src/Doddish/Seq.antt =====
-- go/internal/_/doddish/token.go, token_type.go and seq.go: tokens and sequences of tokens.
pub mod Matching
pub mod Coding
use dodder.Prelude.{ℕ, ◌+◌, List, [], ◌∷◌, ◌++◌, Bytes, map, length}

-- A `TokenType` is a byte, so that any byte may be read back as one.
abbrev pub token_type_incomplete : ℕ
token_type_incomplete = 0

abbrev pub token_type_operator : ℕ
token_type_operator = 1

abbrev pub token_type_identifier : ℕ
token_type_identifier = 2

abbrev pub token_type_literal : ℕ
token_type_literal = 3

pub record Token : Type 0 where
  pub type : ℕ
  pub contents : Bytes

abbrev pub Seq : Type 0
Seq = List Token

unfoldable pub add : Seq → ℕ → Bytes → Seq
add seq token_type contents = seq ++ record { type = token_type; contents = contents } ∷ []

-- `Seq.String`
unfoldable pub string : Seq → Bytes
string [] = []
string (t ∷ seq) = t.contents ++ string seq

unfoldable pub get_token_types : Seq → List ℕ
get_token_types seq = map (λ (t : Token). t.type) seq
