-- ===== src/Catgut/RingBuffer/Reading/Filling.antt =====
-- `Slice.ReadFrom` and `Fill`: what they take from the reader stands behind the bytes of the queue.
use native.Mathlib.Decide.{dec_lt}
use dodder.Prelude.{
  ℕ, zero, suc, ◌+◌, ◌-◌, ◌≤◌, ◌<◌, ◌≡◌, ◌⊎◌, inl, inr, refl, sym, ap, ◌∙◌, [], ◌∷◌, ◌++◌, false,
  ltb, Option, none, some, length, take, drop, Bytes, arith, append_assoc, length-append,
  length-take, length-drop, take-append-drop, Option-cases, lt→ltb, ge→ltb,
}
use dodder.Catgut.RingBuffer.{RingBuffer, Range, size, put_at, cap, Error, eof}
use dodder.Catgut.RingBuffer.Reading.{
  Loop, returned, ◌>>=◌, ReadAnswer, Filled, read_loop, read_from,
}
use dodder.Catgut.RingBuffer.Layout.{put_at-append, drop_all}

-- An io.Reader that has the bytes `rest r` to give: it fills at most the space it is given, and says
-- io.EOF at the end only. A call that may give a byte gives one or an error, but for calls that give
-- neither, of which io.Reader says that they mean nothing happened: `stalls r` bounds their number.
pub record IsReader {R : Type 0} (next : R → ℕ → ReadAnswer R) (rest : R → Bytes) : Type 0 where
  pub fits : (r : R) (n : ℕ) → length (next r n).0 ≤ n
  pub gives : (r : R) (n : ℕ) → rest r ≡ (next r n).0 ++ rest (next r n).2
  pub stalls : R → ℕ
  pub calms : (r : R) (n : ℕ) → stalls (next r n).2 ≤ stalls r
  pub moves :
      (r : R) (n : ℕ)
      → (next r n).1 ≡ none
      → 0 < n
      → (0 < length (next r n).0) ⊎ (stalls (next r n).2 < stalls r)
  pub ends : (r : R) (n : ℕ) → (next r n).1 ≡ some eof → rest (next r n).2 ≡ []

pub drop-drop : (a b : ℕ) (xs : Bytes) → drop a (drop b xs) ≡ drop (b + a) xs
drop-drop a zero xs = let e : 0 + a ≡ a = omega arith in rw e
drop-drop a (suc b) [] = drop_all a [] (omega arith) ∙ sym (drop_all (suc b + a) [] (omega arith))
drop-drop a (suc b) (x ∷ xs) =
    let e : suc b + a ≡ suc (b + a) = omega arith in rw e (drop-drop a b xs)

-- bytes put behind others
pub put_at-put_at :
    (content : Bytes) (i : ℕ) (p d : Bytes)
    → i ≤ length content
    → put_at (put_at content i p) (i + length p) d ≡ put_at content i (p ++ d)
unfolding put_at
put_at-put_at content i p d h =
    let at_end : i + length p ≡ length (take i content ++ p) =
      omega (arith, length-append (take i content) p, length-take i content) in
    let put =
      put_at-append (take i content ++ p) (drop (i + length p) content) d (i + length p) at_end in
    let whole : take i content ++ (p ++ drop (i + length p) content)
        ≡ (take i content ++ p) ++ drop (i + length p) content =
      sym (append_assoc _ p _) in
    let skipped : drop (length d) (drop (i + length p) content)
        ≡ drop (i + length (p ++ d)) content =
      drop-drop (length d) (i + length p) content
      ∙ ap (λ k. drop k content) (omega (arith, length-append p d)) in
    ap (λ x. put_at x (i + length p) d) whole
    ∙ put
    ∙ rw
        (
          skipped,
          append_assoc (take i content) p (d ++ drop (i + length (p ++ d)) content),
          append_assoc p d (drop (i + length (p ++ d)) content),
        )
        refl

pub put_at-nil : (content : Bytes) (i : ℕ) → put_at content i [] ≡ content
unfolding put_at
put_at-nil content i = let e : i + 0 ≡ i = omega arith in rw e (take-append-drop i content)

pub length-put_at :
    (content : Bytes) (i : ℕ) (p : Bytes)
    → i + length p ≤ length content
    → length (put_at content i p) ≡ length content
unfolding put_at
length-put_at content i p h = omega (
  arith,
  length-append (take i content) (p ++ drop (i + length p) content),
  length-append p (drop (i + length p) content),
  length-take i content,
  length-drop (i + length p) content,
)

module _ {R : Type 0} (next : R → ℕ → ReadAnswer R) (rest : R → Bytes)
    (law : IsReader next rest) where
  -- What a loop took, `d`, with the error that ended it.
  abbrev pub Took : Loop (Filled R) → ℕ → ℕ → Range → RingBuffer → R → Type 0
  Took result goal n part rb r =
      (d : Bytes) × (e : Option Error) × (r' : R) × (result
        ≡ returned
            (n + length d, e, record rb { content = put_at rb.content (part.from + n) d }, r'))
      × (rest r ≡ d ++ rest r')
      × (n + length d ≤ size part)
      × (e ≡ none → goal ≤ n + length d)
      × (law.stalls r' ≤ law.stalls r)
      × (e ≡ some eof → rest r' ≡ [])

  nothing-Took :
      (goal n : ℕ) (part : Range) (rb : RingBuffer) (r : R)
      → goal ≤ n
      → n ≤ size part
      → Took (returned (n, none, rb, r)) goal n part rb r
  nothing-Took goal n part rb r enough inside =
      let same : rb ≡ record rb { content = put_at rb.content (part.from + n) [] } =
        ap (λ x. record rb { content = x }) (sym (put_at-nil rb.content (part.from + n))) in
      let e : n ≡ n + 0 = omega arith in
      (
        [],
        none,
        r,
        ap (λ m. returned (m, none, rb, r)) e
            ∙ ap (λ (x : RingBuffer). returned (n + 0, none, x, r)) same,
        refl,
        omega arith,
        λ _. omega arith,
        omega arith,
        λ h. cc,
      )

  more-Took :
      (fuel goal : ℕ) (part : Range) (n : ℕ) (rb : RingBuffer) (r : R) (got : Bytes) (r1 : R)
      → rest r ≡ got ++ rest r1
      → law.stalls r1 ≤ law.stalls r
      → let rb1 : RingBuffer = record rb { content = put_at rb.content (part.from + n) got } in
        Took
          (read_loop next fuel goal part (n + length got) rb1 r1)
          goal
          (n + length got)
          part
          rb1
          r1
        → part.from + n ≤ cap rb
        → Took (read_loop next fuel goal part (n + length got) rb1 r1) goal n part rb r
  more-Took fuel goal part n rb r got r1 given calmer
        (d, e, r', result, more, inside, reached, calmed, ended) h =
      let counted : n + length got + length d ≡ n + length (got ++ d) =
        omega (arith, length-append got d) in
      let place : part.from + (n + length got) ≡ part.from + n + length got = omega arith in
      let put : put_at (put_at rb.content (part.from + n) got) (part.from + (n + length got)) d
          ≡ put_at rb.content (part.from + n) (got ++ d) =
        rw place (put_at-put_at rb.content (part.from + n) got d h) in
      (
        got ++ d,
        e,
        r',
        result
            ∙ ap
                (λ m. returned (
                  m,
                  e,
                  record rb {
                    content =
                        put_at (put_at rb.content (part.from + n) got)
                          (part.from + (n + length got)) d;
                  },
                  r',
                ))
                counted
            ∙ ap (λ x. returned (n + length (got ++ d), e, record rb { content = x }, r')) put,
        given ∙ rw more (sym (append_assoc got d (rest r'))),
        omega arith,
        λ h'. rw (← counted) (reached h'),
        omega arith,
        ended,
      )

  read_loop-Took :
      (fuel goal : ℕ) (part : Range) (n : ℕ) (rb : RingBuffer) (r : R)
      → goal + law.stalls r ≤ n + fuel
      → goal ≤ size part
      → n ≤ size part
      → part.from + size part ≤ cap rb
      → Took (read_loop next fuel goal part n rb r) goal n part rb r
  unfolding read_loop
  read_loop-Took zero goal part n rb r enough small inside room =
      let t : ltb n goal ≡ false = ge→ltb _ _ (omega arith) in
      rw t (nothing-Took goal n part rb r (omega arith) inside)
  read_loop-Took (suc fuel) goal part n rb r enough small inside room =
      let space = size part - n in
      let got = (next r space).0 in
      let r1 = (next r space).2 in
      let fitting : length got ≤ space = law.fits r space in
      let given : rest r ≡ got ++ rest r1 = law.gives r space in
      let calmer : law.stalls r1 ≤ law.stalls r = law.calms r space in
      elim (dec_lt n goal) [
        | no enough_now ↦
            let t : ltb n goal ≡ false = ge→ltb _ _ (omega arith) in
            rw t (nothing-Took goal n part rb r (omega arith) inside)
        | yes less ↦ rw (lt→ltb n goal less) (elim (Option-cases (next r space).1) [
          | inr (x, failed) ↦ rw failed (
            got,
            some x,
            r1,
            refl,
            given,
            omega arith,
            λ h. cc,
            calmer,
            λ h. law.ends r space (failed ∙ h),
          )
          | inl fine ↦ rw fine (
              let closer : goal + law.stalls r1 ≤ n + length got + fuel =
                elim (law.moves r space fine (omega arith)) [
                  | inl moved ↦ omega arith
                  | inr fewer ↦ omega arith
                ] in
              more-Took fuel goal part n rb r got r1 given calmer
                (read_loop-Took fuel goal part (n + length got)
                  (record rb { content = put_at rb.content (part.from + n) got }) r1 closer small
                  (omega arith) (omega (arith, length-put_at rb.content (part.from + n) got)))
                (omega arith))
        ])
      ]

  -- What `ReadFrom` took: `d1` into the first part and `d2` into the second.
  abbrev pub TookBoth : Loop (Filled R) → Range → Range → RingBuffer → R → Type 0
  TookBoth result a b rb r =
      (d1 : Bytes) × (d2 : Bytes) × (e : Option Error) × (r' : R) × (result
        ≡ returned (
          length d1 + length d2,
          e,
          record rb { content = put_at (put_at rb.content a.from d1) b.from d2 },
          r',
        ))
      × (rest r ≡ d1 ++ (d2 ++ rest r'))
      × (length d1 ≤ size a)
      × (length d2 ≤ size b)
      × (0 < length d2 → length d1 ≡ size a)
      × (e ≡ none → 0 < size a + size b → 0 < length d1 + length d2)
      × (e ≡ some eof → rest r' ≡ [])

  pub read_from-TookBoth :
      (fuel : ℕ) (a b : Range) (rb : RingBuffer) (r : R)
      → size a + size b + law.stalls r ≤ fuel
      → a.from + size a ≤ cap rb
      → b.from + size b ≤ cap rb
      → TookBoth (read_from next fuel a b rb r) a b rb r
  unfolding read_from
  read_from-TookBoth fuel a b rb r enough ra rb_room =
      let (d1, e1, r1, done1, given1, in1, reach1, calm1, ends1) =
        read_loop-Took fuel (size a) a 0 rb r (omega arith) (omega arith) (omega arith) ra in
      let rb1 : RingBuffer = record rb { content = put_at rb.content a.from d1 } in
      let n1 : 0 + length d1 ≡ length d1 = omega arith in
      let at1 : a.from + 0 ≡ a.from = omega arith in
      let first : read_loop next fuel (size a) a 0 rb r ≡ returned (length d1, e1, rb1, r1) =
        done1 ∙ rw (n1, at1) refl in
      elim (Option-cases e1) [
        | inr (x, failed) ↦ (
          d1,
          [],
          some x,
          r1,
          rw (first, failed, ◌>>=◌)
              (ap (λ m. returned (m, some x, rb1, r1)) (omega arith)
                ∙ ap (λ y. returned (length d1 + 0, some x, record rb { content = y }, r1))
                    (sym (put_at-nil (put_at rb.content a.from d1) b.from))),
          given1,
          omega arith,
          omega arith,
          λ h. absurd (omega arith),
          λ h. cc,
          λ h. ends1 (failed ∙ h),
        )
        | inl fine ↦
            let full : size a ≤ 0 + length d1 = reach1 fine in
            let goal = size b - size a - size a in
            let (d2, e2, r2, done2, given2, in2, reach2, calm2, ends2) =
              read_loop-Took fuel goal b 0 rb1 r1 (omega arith) (omega arith) (omega arith)
                (omega (arith, length-put_at rb.content a.from d1)) in
            let n2 : 0 + length d2 ≡ length d2 = omega arith in
            let at2 : b.from + 0 ≡ b.from = omega arith in
            let rb2 : RingBuffer = record rb { content = put_at rb1.content b.from d2 } in
            let then_second : read_loop next fuel goal b 0 rb1 r1
                ≡ returned (length d2, e2, rb2, r2) =
              done2 ∙ rw (n2, at2) refl in
            (
              d1,
              d2,
              e2,
              r2,
              rw (first, fine, ◌>>=◌)
                  (ap
                    (λ (x : Loop (Filled R)).
                      (x >>= λ (m, e', rb3, r3). returned (length d1 + m, e', rb3, r3)))
                    then_second),
              rw (← given2) given1,
              omega arith,
              omega arith,
              λ h. omega arith,
              λ h1 h2. (let r2 : goal ≤ 0 + length d2 = reach2 h1 in omega arith),
              ends2,
            )
      ]
