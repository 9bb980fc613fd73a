-- ===== src/Sigil/Bits.antt =====
-- What holds for every byte of go/internal/bravo/ids/sigil.go, by evaluation.
use Prim.Native.Nat.{bit_and}
use dodder.Prelude.{ℕ, zero, suc, ◌<◌, ◌≡◌, refl, Bool, true, false, ◌&&◌, not, ◌==◌, arith}
use dodder.Utf8.{runes, encode_rune, decode_rune}
use dodder.Text.{trim_space}
use dodder.Doddish.Op.{is_space}
use dodder.Sigil.{add, del, contains, contains_one_of, string, set}

all_below : ℕ → (ℕ → Bool) → Bool
all_below zero p = true
all_below (suc n) p = p n && all_below n p

all_below_lem : (n : ℕ) (p : ℕ → Bool) (x : ℕ) → all_below n p ≡ true → x < n → p x ≡ true
unfolding all_below
all_below_lem zero p x h lt = absurd (omega arith)
all_below_lem (suc n) p x h lt = ground (arith, all_below_lem n p x)

-- setting from the text, as a test
round_trips : ℕ → Bool
round_trips s = let r = set (string s) 0 in (r.0 == bit_and s 30) && r.1

round_trips_all : all_below 256 round_trips ≡ true
unfolding all_below round_trips set string runes decode_rune encode_rune trim_space is_space
round_trips_all = refl

-- An empty sigil that is set from the text of a byte succeeds, and has those of the byte's bits that
-- stand for latest, history, external and hidden.
pub set-string_of_sigil : (s : ℕ) → s < 256 → set (string s) 0 ≡ (bit_and s 30, true)
set-string_of_sigil s h = go (set (string s) 0) refl
  where
    go : (r : ℕ × Bool) → set (string s) 0 ≡ r → r ≡ (bit_and s 30, true)
    go (n, b) e =
        let t = all_below_lem 256 round_trips s round_trips_all h in
        let t' : ((n == bit_and s 30) && b) ≡ true = unfold round_trips in rw e at t in ground arith

adds : ℕ → ℕ → Bool
adds s b = contains (add s b) b && not (contains_one_of (del s b) b)

adds_all : all_below 256 (λ s. all_below 256 (adds s)) ≡ true
unfolding all_below adds add del contains contains_one_of
adds_all = refl

-- A byte that is added to a byte is contained in it, and after it is removed none of its bits is.
pub contains-add :
    (s b : ℕ)
    → s < 256
    → b < 256
    → (contains (add s b) b ≡ true) × (contains_one_of (del s b) b ≡ false)
contains-add s b hs hb =
    let row = all_below_lem 256 (λ s. all_below 256 (adds s)) s adds_all hs in
    let t : adds s b ≡ true = all_below_lem 256 (adds s) b row hb in
    let t' : (contains (add s b) b && not (contains_one_of (del s b) b)) ≡ true =
      unfold adds in t in
    ground arith
