-- ===== src/StringInfo/Valid.antt =====
-- What a string buffer holds, and that it does after it has grown.
use mathlib.Core.Path.{subst}
use postgres_v.Base.{
  ℕ, zero, suc, ◌+◌, ◌*◌, ◌^◌, ◌≤◌, ◌<◌, ◌≡◌, ◌⊎◌, refl, ◌∙◌, inl, inr, Bool, true, false, some,
  List, [], ◌∷◌, ◌++◌, length, arith, ltb, leb, ◌==◌, if◌then◌else◌, Bool-cases,
}
use postgres_v.StringInfo.{
  StringInfo, ok, int_limit, write, double_loop, resize, enlarge_string_info,
}

-- the bytes from the offset `i` on
abbrev pub Bytes : (ℕ → ℕ) → (i : ℕ) → List ℕ → Type 0
Bytes d i [] = Unit
Bytes d i (b ∷ bs) = (d i ≡ b) × Bytes d (i + 1) bs

pub write-below : (d : ℕ → ℕ) (i : ℕ) (bs : List ℕ) (j : ℕ) → j < i → write d i bs j ≡ d j
unfolding write
write-below d i [] j lt = refl
write-below d i (b ∷ bs) j lt =
    let e : (i == j) ≡ false = ground arith in
    write-below (λ j. if i == j then b else d j) (i + 1) bs j (omega arith) ∙ rw e refl

pub Bytes-write : (d : ℕ → ℕ) (i : ℕ) (bs : List ℕ) → Bytes (write d i bs) i bs
unfolding write
Bytes-write d i [] = tt
Bytes-write d i (b ∷ bs) =
    let here : (i == i) ≡ true = ground arith in
    (
      write-below (λ j. if i == j then b else d j) (i + 1) bs i (omega arith) ∙ rw here refl,
      Bytes-write (λ j. if i == j then b else d j) (i + 1) bs,
    )

-- a write behind them leaves the bytes
pub Bytes-kept :
    (d : ℕ → ℕ) (i : ℕ) (xs : List ℕ) (k : ℕ) (bs : List ℕ)
    → i + length xs ≤ k
    → Bytes d i xs
    → Bytes (write d k bs) i xs
Bytes-kept d i [] k bs le h = tt
Bytes-kept d i (x ∷ xs) k bs le (e, h) =
    (write-below d k bs i (omega arith) ∙ e, Bytes-kept d (i + 1) xs k bs (omega arith) h)

pub Bytes-append :
    (d : ℕ → ℕ) (i : ℕ) (xs ys : List ℕ)
    → Bytes d i xs
    → Bytes d (i + length xs) ys
    → Bytes d i (xs ++ ys)
Bytes-append d i [] ys h k = subst (λ j. Bytes d j ys) (let e : i + 0 ≡ i = omega arith in e) k
Bytes-append d i (x ∷ xs) ys (e, h) k = (
  e,
  Bytes-append d (i + 1) xs ys h (
      subst (λ j. Bytes d j ys) (let e : i + length (x ∷ xs) ≡ i + 1 + length xs = omega arith in e)
        k),
)

-- the text of the buffer; the NUL behind it may be missing
pub record HasText (s : StringInfo) (xs : List ℕ) : Type 0 where
  pub bytes : Bytes s.data_bytes 0 xs
  pub len : s.len ≡ length xs
  pub room : s.len < s.maxlen

-- the text, and the NUL
abbrev pub Holds : StringInfo → List ℕ → Type 0
Holds s xs = HasText s xs × (s.data_bytes s.len ≡ 0)

abbrev pub twice : (times w : ℕ) → ℕ
twice zero w = w
twice (suc times) w = twice times (2 * w)

pub twice_mono : (times v w : ℕ) → v ≤ w → twice times v ≤ twice times w
twice_mono zero v w le = le
twice_mono (suc times) v w le = twice_mono times (2 * v) (2 * w) (omega arith)

-- the doubling ends at a length that is enough, and less than twice what is needed
double_loop-enough :
    (fuel needed newlen : ℕ)
    → needed ≤ 2 ^ 30
    → newlen < 2 * needed
    → needed ≤ twice fuel newlen
    → (n : ℕ) × (double_loop (suc fuel) needed newlen ≡ some n)
      × (newlen ≤ n)
      × (needed ≤ n)
      × (n < 2 * needed)
unfolding double_loop
double_loop-enough zero needed newlen small below enough =
    let e : ltb newlen needed ≡ false = ground arith in
    (newlen, rw e refl, omega arith, enough, below)
double_loop-enough (suc fuel) needed newlen small below enough =
    elim (Bool-cases (ltb newlen needed)) [
      | inr e ↦ (newlen, rw e refl, omega arith, ground arith, below)
      | inl e ↦
          let f : leb int_limit (2 * newlen) ≡ false = ground arith in
          let (n, run, a, b, c) =
            double_loop-enough fuel needed (2 * newlen) small (ground arith) enough in
          (n, rw (e, f) run, omega arith, b, c)
    ]

-- `t` has room for `needed` bytes and the NUL, and is at most twice as long as that, or is not longer
pub record IsEnlarged (s t : StringInfo) (needed : ℕ) : Type 0 where
  pub same : t ≡ record s { maxlen = t.maxlen }
  pub fits : needed + s.len < t.maxlen
  pub grown : s.maxlen ≤ t.maxlen
  pub doubled : s.maxlen ≤ needed + s.len → 2 * s.maxlen ≤ t.maxlen
  pub bound : (t.maxlen ≡ s.maxlen) ⊎ (t.maxlen < 2 * (needed + s.len + 1))

module _ (repalloc : ℕ → Bool) (gives : (n : ℕ) → n < int_limit → repalloc n ≡ true) where
  pub enlarge_string_info-IsEnlarged :
      (s : StringInfo) (needed : ℕ)
      → 0 < s.maxlen
      → needed + s.len + 1 ≤ 2 ^ 30
      → (t : StringInfo) × (enlarge_string_info repalloc needed s ≡ ok t) × IsEnlarged s t needed
  unfolding enlarge_string_info resize
  enlarge_string_info-IsEnlarged s needed pos small =
      let all = needed + (s.len + 1) in
      let e : leb int_limit all ≡ false = ground arith in
      elim (Bool-cases (leb all s.maxlen)) [
        | inl f ↦ (
          s,
          rw (e, f) refl,
          record {
            same = refl;
            fits = ground arith;
            grown = omega arith;
            doubled = λ le. ground arith;
            bound = inl refl;
          },
        )
        | inr f ↦
            let g : leb int_limit (2 * s.maxlen) ≡ false = ground arith in
            let (n, run, a, b, c) =
              double_loop-enough 31 all (2 * s.maxlen) (omega arith) (ground arith) (omega arith) in
            let given = gives n (omega arith) in
            (
              record s { maxlen = n },
              rw (e, f, g, run, given) refl,
              record {
                same = refl;
                fits = omega arith;
                grown = omega arith;
                doubled = λ le. a;
                bound = inr (omega arith);
              },
            )
      ]
