-- ===== src/DynaHash/Home.antt =====
-- The bucket of a key: `call_hash` of dynahash.c, and the masks of `expand_table`.
use Prim.Native.Nat.{bit_and}
use native.Mathlib.Nat.{
  pow-suc, mod-lt, mod-eq_of_lt, mod-mod_of_dvd, mod-eq-sub-mod, mul-mod_left, dvd-mul_left,
}
use postgres_v.Base.{
  ℕ, suc, ◌+◌, ◌-◌, ◌*◌, ◌%◌, ◌^◌, ◌≤◌, ◌<◌, ◌≡◌, ◌⊎◌, refl, ◌∙◌, true, false, arith, ltb,
  if◌then◌else◌, dec_lt, two_pow_pos, bit_and-mask, bit_or-ones, mod_double,
}
use postgres_v.DynaHash.{HashTable, call_hash, next_bucket}

-- the masks are those of `k` and of `k + 1` digits, and `max_bucket`, of 32 bits, is between them
abbrev pub Masked : (k : ℕ) → HashTable → Type 0
Masked k t =
    (t.low_mask + 1 ≡ 2 ^ k)
    × (t.high_mask + 1 ≡ 2 ^ suc k)
    × (t.low_mask ≤ t.max_bucket)
    × (t.max_bucket ≤ t.high_mask)
    × (t.max_bucket < 2 ^ 32)

-- the bucket of the value `v` when there are `n + 1` of them, `p` to `2 * p` in number
pub home : (p n v : ℕ) → ℕ
home p n v = if ltb n (v % (2 * p)) then v % p else v % (2 * p)

mask-minus : (m k a : ℕ) → m + 1 ≡ 2 ^ k → bit_and a m ≡ a % 2 ^ k
mask-minus m k a e = let low : m ≡ 2 ^ k - 1 = omega arith in rw low (bit_and-mask a k)

pub home-le : (p n v : ℕ) → 0 < p → p ≤ n + 1 → home p n v ≤ n
unfolding home
home-le p n v pos le = elim (dec_lt n (v % (2 * p))) [
  | yes a ↦
      (let t : ltb n (v % (2 * p)) ≡ true = ground arith in
        let lt = mod-lt v pos in rw t (omega arith))
  | no a ↦ (let t : ltb n (v % (2 * p)) ≡ false = ground arith in rw t (omega arith))
]

-- one bucket more, and no more digits
pub home-next :
    (p n v : ℕ)
    → 0 < p
    → p ≤ n + 1
    → n + 1 < 2 * p
    → (home p (n + 1) v ≡ home p n v) ⊎ ((home p n v ≡ n + 1 - p) × (home p (n + 1) v ≡ n + 1))
unfolding home
home-next p n v pos ge lt = let low = mod-lt v pos in let cases = mod_double v p pos in ground arith

-- one bucket more, and a digit more
pub home-doubled :
    (p n v : ℕ)
    → 0 < p
    → n + 1 ≡ 2 * p
    → (home (2 * p) (n + 1) v ≡ home p n v) ⊎ ((home p n v ≡ 0) × (home (2 * p) (n + 1) v ≡ n + 1))
unfolding home
home-doubled p n v pos e =
    let low = mod-lt v {m = 2 * p} (omega arith) in
    let cases = mod_double v (2 * p) (omega arith) in ground arith

module _ (hash : ℕ → ℕ) (alloc : HashTable → (size : ℕ) → ℕ) where
  call_hash-home :
      (k : ℕ) (t : HashTable) (x : ℕ)
      → Masked k t
      → call_hash hash alloc t x ≡ home (2 ^ k) t.max_bucket (hash x)
  unfolding call_hash home
  call_hash-home k t x (low, high, le, ge, small) =
      let pow = pow-suc 2 k in
      let double : 2 ^ suc k ≡ 2 * 2 ^ k = omega (arith, pow) in
      let bound = home-le (2 ^ k) t.max_bucket (hash x) (two_pow_pos k) (omega arith) in
      let again = mod-mod_of_dvd (2 ^ k) (hash x) (dvd-mul_left (2 ^ k) 2) in
      rw
        (
          mask-minus t.high_mask (suc k) (hash x) high,
          double,
          mask-minus t.low_mask k (hash x % (2 * 2 ^ k)) low,
          again,
        )
        (mod-eq_of_lt (omega arith))

  pub call_hash-le :
      (k : ℕ) (t : HashTable) (x : ℕ) → Masked k t → call_hash hash alloc t x ≤ t.max_bucket
  call_hash-le k t x m =
      let (low, high, le, ge, small) = m in
      let bound = home-le (2 ^ k) t.max_bucket (hash x) (two_pow_pos k) (omega arith) in
      rw (call_hash-home k t x m) bound

  -- the bucket that is split
  pub old_bucket-lt :
      (k : ℕ) (t : HashTable) → Masked k t → bit_and (t.max_bucket + 1) t.low_mask ≤ t.max_bucket
  old_bucket-lt k t (low, high, le, ge, small) =
      let lt = mod-lt (t.max_bucket + 1) (two_pow_pos k) in
      rw (mask-minus t.low_mask k (t.max_bucket + 1) low) (omega arith)

  next_bucket-within :
      (t : HashTable)
      → t.max_bucket < t.high_mask
      → next_bucket hash alloc t ≡ record t { max_bucket = t.max_bucket + 1 }
  unfolding next_bucket
  next_bucket-within t lt =
      let test : ltb t.high_mask (t.max_bucket + 1) ≡ false = ground arith in rw test refl

  next_bucket-doubled :
      (k : ℕ) (t : HashTable)
      → t.high_mask + 1 ≡ 2 ^ k
      → t.max_bucket ≡ t.high_mask
      → next_bucket hash alloc t ≡ record t {
        max_bucket = t.max_bucket + 1;
        low_mask = t.high_mask;
        high_mask = (t.high_mask + 1) + t.high_mask;
      }
  unfolding next_bucket
  next_bucket-doubled k t high e =
      let test : ltb t.high_mask (t.max_bucket + 1) ≡ true = ground arith in
      rw (test, e, bit_or-ones k t.high_mask high) refl

  -- when the last bucket is the last one that the masks allow, they gain a digit
  pub next_bucket-Masked :
      (k : ℕ) (t : HashTable)
      → Masked k t
      → t.max_bucket + 1 < 2 ^ 32
      → (j : ℕ) × Masked j (next_bucket hash alloc t)
  next_bucket-Masked k t (low, high, le, ge, small) room = elim (dec_lt t.max_bucket t.high_mask) [
    | yes lt ↦ (k, rw (next_bucket-within t lt) (low, high, omega arith, omega arith, room))
    | no end ↦
        let e : t.max_bucket ≡ t.high_mask = omega arith in
        (
          suc k,
          rw (next_bucket-doubled (suc k) t high e)
              (high, (let p = pow-suc 2 (suc k) in omega arith), omega arith, omega arith, room),
        )
  ]

  pub next_bucket-call_hash :
      (k : ℕ) (t : HashTable) (x : ℕ)
      → Masked k t
      → t.max_bucket + 1 < 2 ^ 32
      → (call_hash hash alloc (next_bucket hash alloc t) x ≡ call_hash hash alloc t x)
        ⊎ ((call_hash hash alloc t x ≡ bit_and (t.max_bucket + 1) t.low_mask)
            × (call_hash hash alloc (next_bucket hash alloc t) x ≡ t.max_bucket + 1))
  next_bucket-call_hash k t x m room =
      let (low, high, le, ge, small) = m in
      let p = 2 ^ k in
      let n = t.max_bucket + 1 in
      let double : 2 ^ suc k ≡ 2 * p = (let pow = pow-suc 2 k in omega arith) in
      let before = call_hash-home k t x m in
      let old = mask-minus t.low_mask k n low in
      elim (dec_lt t.max_bucket t.high_mask) [
        | yes lt ↦
            let after =
              call_hash-home k (record t { max_bucket = n }) x
                (low, high, omega arith, omega arith, room) in
            let rest : n % p ≡ n - p =
              mod-eq-sub-mod {n = n} {m = p} (omega arith) ∙ mod-eq_of_lt (omega arith) in
            rw (next_bucket-within t lt, before, after, old, rest)
              (home-next p t.max_bucket (hash x) (two_pow_pos k) (omega arith) (omega arith))
        | no end ↦
            let e : t.max_bucket ≡ t.high_mask = omega arith in
            let u : HashTable = record t {
              max_bucket = n;
              low_mask = t.high_mask;
              high_mask = (t.high_mask + 1) + t.high_mask;
            } in
            let after =
              call_hash-home (suc k) u x (
                high,
                (let q = pow-suc 2 (suc k) in omega arith),
                omega arith,
                omega arith,
                room,
              ) in
            let whole : n ≡ 2 * p = omega arith in
            let rest : n % p ≡ 0 = rw whole (mul-mod_left 2 p) in
            rw (next_bucket-doubled (suc k) t high e, before, after, double, old, rest)
              (home-doubled p t.max_bucket (hash x) (two_pow_pos k) whole)
      ]
