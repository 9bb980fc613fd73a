-- ===== src/Doddish/Seq/Matching/Each.antt =====
-- `MatchAll` and `MatchStart` of go/internal/_/doddish/seq_matching.go: which sequences they take.
use dodder.Prelude.{
  ℕ, zero, suc, ◌≡◌, ◌↔◌, refl, List, [], ◌∷◌, Bool, true, false, ◌==◌, ltb, if◌then◌else◌, length,
  length-take, take, arith, Bool-cases, inl, inr, ltb→lt, ==_iff,
}
use dodder.Run.{Run, done, panic, ◌>>=◌}
use dodder.Doddish.Seq.{Seq}
use dodder.Doddish.Seq.Matching.{TokenMatcher, match_each, match_all, match_start}

-- one matcher for each token, and each takes its token
abbrev pub Matches : List TokenMatcher → Seq → Type 0
Matches [] [] = Unit
Matches [] (t ∷ seq) = ⊥
Matches (m ∷ ms) [] = ⊥
Matches (m ∷ ms) (t ∷ seq) = (m t ≡ done true) × Matches ms seq

pub Matches-length : (ms : List TokenMatcher) (seq : Seq) → Matches ms seq → length ms ≡ length seq
Matches-length [] [] h = refl
Matches-length [] (t ∷ seq) h = absurd h
Matches-length (m ∷ ms) [] h = absurd h
Matches-length (m ∷ ms) (t ∷ seq) h = omega (arith, Matches-length ms seq h.1)

abbrev hit_or_miss : Run Bool → Run Bool → Run Bool
hit_or_miss r rest = r >>= λ hit. if hit then rest else done false

hit_first :
    (r rest : Run Bool) → hit_or_miss r rest ≡ done true → (r ≡ done true) × (rest ≡ done true)
hit_first (done true) rest h = (refl, h)
hit_first (done false) rest h = cc
hit_first panic rest h = cc

match_each_sound :
    (ms : List TokenMatcher) (seq : Seq)
    → match_each ms seq ≡ done true
    → Matches ms (take (length ms) seq)
unfolding match_each
match_each_sound [] seq h = tt
match_each_sound (m ∷ ms) [] h = cc
match_each_sound (m ∷ ms) (t ∷ seq) h =
    let both = hit_first (m t) (match_each ms seq) h in (both.0, match_each_sound ms seq both.1)

match_each_complete :
    (ms : List TokenMatcher) (seq : Seq)
    → Matches ms (take (length ms) seq)
    → match_each ms seq ≡ done true
unfolding match_each
match_each_complete [] seq h = refl
match_each_complete (m ∷ ms) [] h = absurd h
match_each_complete (m ∷ ms) (t ∷ seq) h = rw h.0 (match_each_complete ms seq h.1)

-- `MatchStart` says yes exactly when the first tokens, as many as there are matchers, are taken one
-- by one.
pub match_start_iff :
    (seq : Seq) (ms : List TokenMatcher)
    → (match_start seq ms ≡ done true) ↔ Matches ms (take (length ms) seq)
unfolding match_start
match_start_iff seq ms = elim (Bool-cases (ltb (length seq) (length ms))) [
  | inl short ↦ rw short (
    λ h. cc,
    λ h.
        absurd
          (omega (arith, ltb→lt _ _ short, Matches-length ms _ h, length-take (length ms) seq)),
  )
  | inr long ↦ rw long (match_each_sound ms seq, match_each_complete ms seq)
]

take_all : (seq : Seq) (n : ℕ) → n ≡ length seq → take n seq ≡ seq
take_all [] zero e = refl
take_all [] (suc n) e = refl
take_all (t ∷ seq) zero e = absurd (omega arith)
take_all (t ∷ seq) (suc n) e = rw (take_all seq n (omega arith))

-- `MatchAll` says yes exactly when each token is taken by its matcher and none is left over.
pub match_all_iff :
    (seq : Seq) (ms : List TokenMatcher) → (match_all seq ms ≡ done true) ↔ Matches ms seq
unfolding match_all
match_all_iff seq ms = elim (Bool-cases (length ms == length seq)) [
  | inl same ↦
      let whole = take_all seq (length ms) ((==_iff _ _).0 same) in
      rw same
        (λ h. rw whole at (match_each_sound ms seq h), λ h. match_each_complete ms seq (rw whole h))
  | inr differ ↦ rw differ (λ h. cc, λ h. cc ((==_iff _ _).1 (Matches-length ms seq h)))
]
