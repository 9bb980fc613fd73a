-- ===== src/Doddish/Seq/Matching/Ends.antt =====
-- `MatchEnd` of go/internal/_/doddish/seq_matching.go.
use dodder.Prelude.{
  ℕ, zero, suc, ◌+◌, ◌≤◌, ◌≡◌, ◌≢◌, refl, List, [], ◌∷◌, ◌++◌, true, false, ge→ltb, length,
  length-append, take, drop, take_prefix, drop_prefix, arith,
}
use dodder.Run.{done, index, index-append}
use dodder.Doddish.Seq.{Token, Seq}
use dodder.Doddish.Seq.Matching.{TokenMatcher, Split, match_end_from, match_end}
use dodder.Doddish.Seq.Matching.Each.{Matches, Matches-length}

Matches-index :
    (ms : List TokenMatcher) (seq : Seq) (k : ℕ)
    → Matches ms seq
    → suc k ≤ length ms
    → (m : TokenMatcher) × (t : Token) × (index ms k ≡ done m)
      × (index seq k ≡ done t)
      × (m t ≡ done true)
Matches-index [] seq k h lt = elim lt [ ]
Matches-index (m ∷ ms) [] k h lt = absurd h
Matches-index (m ∷ ms) (t ∷ seq) zero h lt = (m, t, refl, refl, h.0)
Matches-index (m ∷ ms) (t ∷ seq) (suc k) h lt = Matches-index ms seq k h.1 (omega arith)

match_end_from-zero :
    (i : ℕ) (seq : Seq) (ms : List TokenMatcher) (s : Split)
    → match_end_from i 0 seq ms s ≡ done (record s { hit = true })
unfolding match_end_from
match_end_from-zero zero seq ms s = refl
match_end_from-zero (suc i) seq ms s = refl

module _ (l r : Seq) (ms : List TokenMatcher) (h : Matches ms r) where
  abbrev split_at : ℕ → Split
  split_at i = record { hit = false; left = take i (l ++ r); right = drop i (l ++ r) }

  -- the loop walks back over `r` and ends at its start
  match_end_from-eq :
      (k i : ℕ) (s : Split)
      → i ≡ length l + suc k
      → suc k ≤ length ms
      → match_end_from i (suc k) (l ++ r) ms s
        ≡ done (record {
          hit = true;
          left = take (length l) (l ++ r);
          right = drop (length l) (l ++ r);
        })
  unfolding match_end_from
  match_end_from-eq k zero s e fits = absurd (omega arith)
  match_end_from-eq zero (suc i) s e fits =
      let (m, t, em, et, hit) = Matches-index ms r 0 h fits in
      let at : index (l ++ r) i ≡ index r 0 = index-append l r 0 i (omega arith) in
      let ei : i ≡ length l = omega arith in rw (at, et, em, hit) (rw (match_end_from-zero, ei))
  match_end_from-eq (suc k) (suc i) s e fits =
      let (m, t, em, et, hit) = Matches-index ms r (suc k) h fits in
      let at : index (l ++ r) i ≡ index r (suc k) = index-append l r (suc k) i (omega arith) in
      rw (at, et, em, hit) (match_end_from-eq k i (split_at i) (omega arith) (omega arith))

-- `MatchEnd` splits a sequence in front of a part at its end that the matchers take one by one, if
-- there is at least one matcher.
pub match_end-append :
    (l r : Seq) (ms : List TokenMatcher)
    → ms ≢ []
    → Matches ms r
    → match_end (l ++ r) ms ≡ done (record { hit = true; left = l; right = r })
unfolding match_end
match_end-append l r [] ne h = absurd (ne refl)
match_end-append l r (m ∷ ms) ne h =
    let total = length-append l r in
    let same = Matches-length (m ∷ ms) r h in
    rw (ge→ltb (length (l ++ r)) (suc (length ms)) (omega arith)) (
      rw
        (
          match_end_from-eq l r (m ∷ ms) h (length ms) (length (l ++ r)) _ (omega arith)
              (omega arith),
          take_prefix,
          drop_prefix,
        )
        refl)
