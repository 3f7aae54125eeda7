-- ===== src/StringInfo/Append.antt =====
-- What the append functions of stringinfo.c do to the text.
use mathlib.Core.Path.{subst}
use postgres_v.Base.{
  ℕ, zero, suc, ◌+◌, ◌-◌, ◌*◌, ◌^◌, ◌≤◌, ◌<◌, ◌≡◌, ◌⊎◌, refl, ap, ◌∙◌, inl, inr, Bool, true, false,
  Option, none, some, List, [], ◌∷◌, ◌++◌, length, length-append, arith, ltb, leb, ◌==◌,
  if◌then◌else◌, Bool-cases,
}
use postgres_v.StringInfo.{
  StringInfo, ok, int_limit, write, append_string_info_char, append_binary_string_info, print_round,
  append_string_info, init_string_info,
}
use postgres_v.StringInfo.Valid.{
  Bytes, Bytes-write, Bytes-kept, Bytes-append, HasText, Holds, twice, twice_mono,
  enlarge_string_info-IsEnlarged,
}

-- bytes and a NUL behind a text
abbrev pub extended : StringInfo → List ℕ → StringInfo
extended s bs = record s {
  data_bytes = write (write s.data_bytes s.len bs) (s.len + length bs) (0 ∷ []);
  len = s.len + length bs;
}

extended-Holds :
    (s : StringInfo) (xs bs : List ℕ)
    → HasText s xs
    → s.len + length bs < s.maxlen
    → Holds (extended s bs) (xs ++ bs)
extended-Holds s xs bs v room =
    let d = write s.data_bytes s.len bs in
    let l = v.len in
    let z = s.len + length bs in
    let old = Bytes-kept s.data_bytes 0 xs s.len bs (omega arith) v.bytes in
    let new : Bytes d (0 + length xs) bs =
      subst (λ j. Bytes d j bs) (let e : s.len ≡ 0 + length xs = omega arith in e)
        (Bytes-write s.data_bytes s.len bs) in
    let both = Bytes-append d 0 xs bs old new in
    let sum = length-append xs bs in
    (
      record {
        bytes = Bytes-kept d 0 (xs ++ bs) z (0 ∷ []) (omega arith) both;
        len = omega arith;
        room = room;
      },
      (Bytes-write d z (0 ∷ [])).0,
    )

-- a longer buffer holds what the shorter one held
HasText-longer :
    (s : StringInfo) (n : ℕ) (xs : List ℕ)
    → HasText s xs
    → s.maxlen ≤ n
    → HasText (record s { maxlen = n }) xs
HasText-longer s n xs v le = record {
  bytes = v.bytes;
  len = v.len;
  room = let r = v.room in omega arith;
}

module _ (repalloc : ℕ → Bool) (gives : (n : ℕ) → n < int_limit → repalloc n ≡ true) where
  -- Where repalloc succeeds and the text with the new bytes takes at most 2 ^ 30 - 1 bytes,
  -- append_binary_string_info on a buffer that holds a text ends in one that holds the text and the
  -- bytes behind it, ended by a NUL: no int overflows and nothing is written outside of the buffer.
  pub append_binary_string_info-Holds :
      (s : StringInfo) (xs bytes : List ℕ)
      → Holds s xs
      → length xs + length bytes + 1 ≤ 2 ^ 30
      → (t : StringInfo) × (append_binary_string_info repalloc bytes s ≡ ok t)
        × Holds t (xs ++ bytes)
  unfolding append_binary_string_info
  append_binary_string_info-Holds s xs bytes (v, nul) small =
      let l = v.len in
      let r = v.room in
      let (t, run, big) =
        enlarge_string_info-IsEnlarged repalloc gives s (length bytes) (omega arith)
          (omega arith) in
      let u : StringInfo = record s { maxlen = t.maxlen } in
      let same = big.same in
      let fits = big.fits in
      let room : ltb (s.len + length bytes) t.maxlen ≡ true = ground arith in
      (
        extended u bytes,
        rw (run, same, room) refl,
        extended-Holds u xs bytes (HasText-longer s t.maxlen xs v big.grown) (omega arith),
      )

  -- Where repalloc succeeds and the text takes less than 2 ^ 30 - 1 bytes, append_string_info_char on
  -- a buffer that holds a text ends in one that holds the text and the character behind it.
  pub append_string_info_char-Holds :
      (s : StringInfo) (xs : List ℕ) (ch : ℕ)
      → Holds s xs
      → length xs + 2 ≤ 2 ^ 30
      → (t : StringInfo) × (append_string_info_char repalloc ch s ≡ ok t) × Holds t (xs ++ ch ∷ [])
  unfolding append_string_info_char write
  append_string_info_char-Holds s xs ch (v, nul) small =
      let l = v.len in
      let r = v.room in
      elim (Bool-cases (leb s.maxlen (s.len + 1))) [
        | inr e ↦
            let room : ltb (s.len + 1) s.maxlen ≡ true = ground arith in
            (
              extended s (ch ∷ []),
              rw (e, room) refl,
              extended-Holds s xs (ch ∷ []) v (ground arith),
            )
        | inl e ↦
            let (t, run, big) =
              enlarge_string_info-IsEnlarged repalloc gives s 1 (omega arith) (omega arith) in
            let u : StringInfo = record s { maxlen = t.maxlen } in
            let same = big.same in
            let fits = big.fits in
            let room : ltb (s.len + 1) t.maxlen ≡ true = ground arith in
            (
              extended u (ch ∷ []),
              rw (e, run, same, room) refl,
              extended-Holds u xs (ch ∷ []) (HasText-longer s t.maxlen xs v big.grown)
                  (ground arith),
            )
      ]

-- what vsnprintf does with the text it formats: it writes text that fits, and returns its length;
-- otherwise it returns a negative number, or at least the last position of the room
pub record Prints (vsnprintf : ℕ → Option ℕ × List ℕ) (text : List ℕ) : Type 0 where
  pub fits : (room : ℕ) → length text < room → vsnprintf room ≡ (some (length text), text ++ 0 ∷ [])
  pub fails :
      (room : ℕ)
      → room ≤ length text
      → ((vsnprintf room).0 ≡ none) ⊎ ((n : ℕ) × ((vsnprintf room).0 ≡ some n) × (room ≤ n + 1))

write-append :
    (d : ℕ → ℕ) (i : ℕ) (cs bs : List ℕ)
    → write d i (cs ++ bs) ≡ write (write d i cs) (i + length cs) bs
unfolding write
write-append d i [] bs = ap (λ j. write d j bs) (let e : i ≡ i + 0 = omega arith in e)
write-append d i (a ∷ cs) bs =
    write-append (λ j. if i == j then a else d j) (i + 1) cs bs
    ∙ ap (λ j. write (write (λ j. if i == j then a else d j) (i + 1) cs) j bs)
        (let e : i + 1 + length cs ≡ i + length (a ∷ cs) = omega arith in e)

HasText-write :
    (s : StringInfo) (xs bs : List ℕ)
    → HasText s xs
    → HasText (record s { data_bytes = write s.data_bytes s.len bs }) xs
HasText-write s xs bs v = record {
  bytes = (let l = v.len in Bytes-kept s.data_bytes 0 xs s.len bs (omega arith) v.bytes);
  len = v.len;
  room = v.room;
}

module _ (repalloc : ℕ → Bool) (vsnprintf : ℕ → Option ℕ × List ℕ) (text : List ℕ)
    (prints : Prints vsnprintf text) where
  print_round_lem :
      (s : StringInfo) (xs : List ℕ)
      → HasText s xs
      → ((t : StringInfo) × (print_round repalloc vsnprintf s ≡ (true, t)) × Holds t (xs ++ text))
        ⊎ ((d : ℕ → ℕ) × (print_round repalloc vsnprintf s ≡ (false, record s { data_bytes = d }))
            × HasText (record s { data_bytes = d }) xs
            × (s.maxlen ≤ s.len + length text + 18))
  unfolding print_round
  print_round_lem s xs v =
      let avail = s.maxlen - s.len - 1 in
      let r = v.room in
      elim (Bool-cases (ltb 16 avail)) [
        | inr e ↦ inr (s.data_bytes, rw e refl, v, ground arith)
        | inl e ↦ elim (Bool-cases (ltb (length text) avail)) [
          | inr f ↦ elim (prints.fails avail (ground arith)) [
            | inl none_back ↦ inr (
              write s.data_bytes s.len (vsnprintf avail).1,
              rw (e, none_back) refl,
              HasText-write s xs _ v,
              ground arith,
            )
            | inr (n, back, le) ↦
                let g : ltb (n + 1) avail ≡ false = ground arith in
                inr (
                  write s.data_bytes s.len (vsnprintf avail).1,
                  rw (e, back, g) refl,
                  HasText-write s xs _ v,
                  ground arith,
                )
          ]
          | inl f ↦
              let out = prints.fits avail (ground arith) in
              let ret : (vsnprintf avail).0 ≡ some (length text) =
                ap (λ (p : Option ℕ × List ℕ). p.0) out in
              let bytes : (vsnprintf avail).1 ≡ text ++ 0 ∷ [] =
                ap (λ (p : Option ℕ × List ℕ). p.1) out in
              elim (Bool-cases (ltb (length text + 1) avail)) [
                | inl g ↦ inl (
                  extended s text,
                  rw (e, ret, g, bytes, write-append s.data_bytes s.len text (0 ∷ [])) refl,
                  extended-Holds s xs text v (ground arith),
                )
                | inr g ↦ inr (
                  write s.data_bytes s.len (text ++ 0 ∷ []),
                  rw (e, ret, g, bytes) refl,
                  HasText-write s xs _ v,
                  ground arith,
                )
              ]
        ]
      ]

  -- Where repalloc succeeds, vsnprintf formats the text, and a buffer that holds a text with it and 18
  -- bytes more is shorter than 2 ^ 28, append_string_info ends: it takes at most as many doublings as
  -- bring the buffer to that length, a round of fuel for each and one more, and the buffer holds the
  -- new text behind the old one, ended by a NUL.
  pub append_string_info-Holds :
      (gives : (n : ℕ) → n < int_limit → repalloc n ≡ true)
      → (fuel : ℕ) (s : StringInfo) (xs : List ℕ) → HasText s xs
      → length xs + length text + 18 < 2 ^ 28
      → length xs + length text + 18 < twice fuel s.maxlen
      → (t : StringInfo) × (append_string_info repalloc vsnprintf (suc fuel) s ≡ ok t)
        × Holds t (xs ++ text)
  unfolding append_string_info
  append_string_info-Holds gives zero s xs v small enough = elim (print_round_lem s xs v) [
    | inl (t, run, holds) ↦ (t, rw run refl, holds)
    | inr (d, run, w, le) ↦ absurd (let l = v.len in omega arith)
  ]
  append_string_info-Holds gives (suc fuel) s xs v small enough = elim (print_round_lem s xs v) [
    | inl (t, run, holds) ↦ (t, rw run refl, holds)
    | inr (d, run, w, le) ↦
        let l = v.len in
        let r = v.room in
        let m : StringInfo = record s { data_bytes = d } in
        let (t, grow, big) =
          enlarge_string_info-IsEnlarged repalloc gives m s.maxlen (omega arith) (omega arith) in
        let u : StringInfo = record m { maxlen = t.maxlen } in
        let same = big.same in
        let double = twice_mono fuel (2 * s.maxlen) t.maxlen (big.doubled (omega arith)) in
        let longer = HasText-longer m t.maxlen xs w big.grown in
        let (x, again, holds) =
          append_string_info-Holds gives fuel u xs longer small (omega arith) in
        (x, rw (run, grow, same, again) refl, holds)
  ]

-- Where palloc returns 256 bytes, init_string_info makes a buffer that holds no text.
init_string_info-Holds :
    (palloc : ℕ → Bool) (garbage : ℕ → ℕ)
    → palloc 256 ≡ true
    → (t : StringInfo) × (init_string_info palloc garbage ≡ ok t) × Holds t []
unfolding init_string_info
init_string_info-Holds palloc garbage given = (
  record { data_bytes = write garbage 0 (0 ∷ []); len = 0; maxlen = 256 },
  rw given refl,
  (record { bytes = tt; len = refl; room = omega arith }, (Bytes-write garbage 0 (0 ∷ [])).0),
)
