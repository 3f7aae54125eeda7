-- ===== src/Hash/Laws.antt =====
-- What the hash functions compute: `tag_hash` against a fold over the key, `string_hash` on the
-- bytes before the NUL, and the range of both.
use mathlib.Core.Path.{subst}
use postgres_v.Base.{
  ℕ, zero, suc, ◌+◌, ◌-◌, ◌*◌, ◌%◌, ◌^◌, ◌≤◌, ◌<◌, ◌≡◌, ◌≢◌, ◌⊎◌, ◌∙◌, refl, ap, inl, inr, true,
  false, some, List, [], ◌∷◌, ◌++◌, arith, leb, ◌==◌, if◌then◌else◌, All, Bool-cases, ==→eq,
}
use postgres_v.Hash.{
  prime1, prime2, xor, sign_extend, remainder, string_loop, string_hash, int_at, char_at, mix,
  word_loop, tail_switch, default_case, six_words, tag_switch, tag_hash,
}

-- the values in turn mixed into the hash
abbrev pub mix_all : ℕ → List ℕ → ℕ
mix_all h [] = h
mix_all h (x ∷ xs) = mix_all (mix h x) xs

-- the bytes from `p` on, one at a time
abbrev pub chars : (ℕ → ℕ) → (p count : ℕ) → List ℕ
chars key p zero = []
chars key p (suc n) = char_at key p ∷ chars key (p + 1) n

-- the words from `p` on, and the `rest` bytes behind
abbrev pub chunks : (ℕ → ℕ) → (p words rest : ℕ) → List ℕ
chunks key p zero rest = chars key p rest
chunks key p (suc n) rest = int_at key p ∷ chunks key (p + 4) n rest

tail_switch-chars :
    (key : ℕ → ℕ) (h p r : ℕ) → r < 4 → tail_switch key h p r ≡ mix_all h (chars key p r)
unfolding tail_switch
tail_switch-chars key h p zero lt = refl
tail_switch-chars key h p (suc zero) lt = refl
tail_switch-chars key h p (suc (suc zero)) lt = refl
tail_switch-chars key h p (suc (suc (suc zero))) lt =
    let e : p + 1 + 1 ≡ p + 2 = omega arith in rw e
tail_switch-chars key h p (suc (suc (suc (suc r)))) lt = absurd (omega arith)

word_loop-chunks :
    (key : ℕ → ℕ) (rounds words rest h p : ℕ)
    → rest < 4
    → words ≤ rounds
    → (let (g, q, left) = word_loop rounds key h p (4 * words + rest) in tail_switch key g q left)
      ≡ mix_all h (chunks key p words rest)
unfolding word_loop
word_loop-chunks key zero zero rest h p lt le =
    let e : 4 * 0 + rest ≡ rest = omega arith in rw (e, tail_switch-chars key h p rest lt)
word_loop-chunks key (suc rounds) zero rest h p lt le =
    let e : 4 * 0 + rest ≡ rest = omega arith in
    let small : leb 4 rest ≡ false = ground arith in
    rw (e, small, tail_switch-chars key h p rest lt)
word_loop-chunks key zero (suc words) rest h p lt le = absurd (omega arith)
word_loop-chunks key (suc rounds) (suc words) rest h p lt le =
    let e : 4 * suc words + rest - 4 ≡ 4 * words + rest = omega arith in
    let more : leb 4 (4 * suc words + rest) ≡ true = ground arith in
    rw (more, e)
      (word_loop-chunks key rounds words rest (mix h (int_at key p)) (p + 4) lt (omega arith))

default_case-chunks :
    (key : ℕ → ℕ) (words rest : ℕ)
    → rest < 4
    → default_case key (4 * words + rest) ≡ mix_all 0 (chunks key 0 words rest)
unfolding default_case
default_case-chunks key words rest lt =
    word_loop-chunks key (4 * words + rest) words rest 0 0 lt (omega arith)

module _ (key : ℕ → ℕ) (words rest : ℕ) (lt : rest < 4) where
  -- the case for keys of `k` words, before the other cases
  chosen :
      (k v other : ℕ)
      → v ≡ mix_all 0 (chunks key 0 k 0)
      → other ≡ mix_all 0 (chunks key 0 words rest)
      → (if 4 * words + rest == 4 * k then v else other) ≡ mix_all 0 (chunks key 0 words rest)
  chosen k v other here else_ = elim (Bool-cases (4 * words + rest == 4 * k)) [
    | inl y ↦
        let same : 4 * words + rest ≡ 4 * k = ==→eq _ _ y in
        let ew : k ≡ words = omega arith in
        let er : 0 ≡ rest = omega arith in
        rw y (
          here
          ∙ subst (λ w. mix_all 0 (chunks key 0 k 0) ≡ mix_all 0 (chunks key 0 w 0)) ew refl
          ∙ subst (λ r. mix_all 0 (chunks key 0 words 0) ≡ mix_all 0 (chunks key 0 words r)) er
              refl)
    | inr n ↦ rw n else_
  ]

  tag_switch-chunks : tag_switch key (4 * words + rest) ≡ mix_all 0 (chunks key 0 words rest)
  unfolding tag_switch six_words
  tag_switch-chunks = chosen 6 _ _ refl (
      chosen 5 _ _ refl (
        chosen 4 _ _ refl (
          chosen 3 _ _ refl
            (chosen 2 _ _ refl (chosen 1 _ _ refl (default_case-chunks key words rest lt))))))

-- For a key of any number of words and fewer than four more bytes, `tag_hash` is the remainder of
-- the hash that mixes in the words and then the bytes, one after the other: the cases that fall
-- through compute what the loop of the default case does.
pub tag_hash-chunks :
    (key : ℕ → ℕ) (words rest : ℕ)
    → rest < 4
    → tag_hash key (4 * words + rest) ≡ remainder 64 (mix_all 0 (chunks key 0 words rest))
unfolding tag_hash
tag_hash-chunks key words rest lt = ap (remainder 64) (tag_switch-chunks key words rest lt)

-- what `string_hash` mixes in for the byte
abbrev pub string_mix : ℕ → ℕ → ℕ
string_mix h b = xor 32 (h * prime1 % 2 ^ 32) ((b + 2 ^ 32 - 32) % 2 ^ 32)

abbrev pub string_mix_all : ℕ → List ℕ → ℕ
string_mix_all h [] = h
string_mix_all h (b ∷ bs) = string_mix_all (string_mix h b) bs

string_loop-bytes :
    (h : ℕ) (bs beyond : List ℕ)
    → All (λ b. b ≢ 0) bs
    → string_loop h (bs ++ 0 ∷ beyond) ≡ some (string_mix_all h bs)
unfolding string_loop
string_loop-bytes h [] beyond nz = refl
string_loop-bytes h (b ∷ bs) beyond (n, nz) =
    let e : (b == 0) ≡ false = ground arith in
    rw (e, string_loop-bytes (string_mix h b) bs beyond nz)

-- A `long` between -PRIME2 and PRIME2
abbrev pub IsHash : ℕ → Type 0
IsHash h = (h < prime2) ⊎ ((2 ^ 64 < h + prime2) × (h < 2 ^ 64))

-- On a string, the bytes before its NUL, `string_hash` returns a number between -PRIME2 and PRIME2
-- that these bytes determine: it depends neither on what is in memory behind nor on `keysize`.
string_hash-IsHash :
    (bs beyond : List ℕ) (keysize : ℕ)
    → All (λ b. b ≢ 0) bs
    → (string_hash (bs ++ 0 ∷ beyond) keysize
        ≡ some (sign_extend 32 64 (remainder 32 (string_mix_all 0 bs))))
      × IsHash (sign_extend 32 64 (remainder 32 (string_mix_all 0 bs)))
unfolding string_hash
string_hash-IsHash bs beyond keysize nz =
    (rw (string_hash, string_loop-bytes 0 bs beyond nz) refl, ranged (string_mix_all 0 bs))
  where
    ranged : (h : ℕ) → IsHash (sign_extend 32 64 (remainder 32 h))
    ranged h = ground arith

-- `tag_hash` returns a number between -PRIME2 and PRIME2.
tag_hash-IsHash : (key : ℕ → ℕ) (keysize : ℕ) → IsHash (tag_hash key keysize)
unfolding tag_hash
tag_hash-IsHash key keysize = ranged (tag_switch key keysize)
  where
    ranged : (h : ℕ) → IsHash (remainder 64 h)
    ranged h = ground arith
