-- ===== src/AllocSet/Index.antt =====
-- `alloc_set_free_index`: the smallest free list whose chunks hold the request.
use native.Mathlib.Nat.{pow-suc}
use postgres_v.Base.{
  ℕ, zero, suc, ◌+◌, ◌-◌, ◌*◌, ◌/◌, ◌^◌, ◌≤◌, ◌<◌, max, ◌≡◌, ◌⊎◌, refl, ap, inl, inr, arith, ltb,
  ◌==◌, Bool-cases, ==→eq, ==→ne, two_pow-add-one, two_pow-add-four, two_pow-le, two_pow_pos,
  two_pow-lt_cancel, ltb→le, dec_lt,
}
use postgres_v.AllocSet.{
  free_index_loop, alloc_set_free_index, alloc_min_bits, alloc_chunk_limit, num_freelists,
}

loop-add : (r size idx : ℕ) → free_index_loop r size idx ≡ free_index_loop r size 0 + idx
unfolding free_index_loop
loop-add zero size idx = omega arith
loop-add (suc r) size idx =
    ground (arith, loop-add r (size / 2) (idx + 1), loop-add r (size / 2) (0 + 1))

loop_upper : (r size : ℕ) → size < 2 ^ r → size < 2 ^ free_index_loop r size 0
unfolding free_index_loop
loop_upper zero size h = h
loop_upper (suc r) size h = elim (Bool-cases (size == 0)) [
  | inl e ↦ rw e (omega (arith, ==→eq size 0 e))
  | inr e ↦ rw e (
      rw (loop-add r (size / 2) (0 + 1)) (
        omega (
          arith,
          two_pow-add-one (free_index_loop r (size / 2) 0),
          loop_upper r (size / 2) (omega (arith, pow-suc 2 r)),
        )))
]

loop_lower : (r size : ℕ) → 2 ^ free_index_loop r size 0 ≤ max 1 (2 * size)
unfolding free_index_loop
loop_lower zero size = omega arith
loop_lower (suc r) size = elim (Bool-cases (size == 0)) [
  | inl e ↦ rw e (omega arith)
  | inr e ↦ rw e (
      rw (loop-add r (size / 2) (0 + 1)) (
        omega (
          arith,
          ==→ne size 0 e,
          two_pow-add-one (free_index_loop r (size / 2) 0),
          loop_lower r (size / 2),
        )))
]

-- A request fits the chunks of its list.
pub index-fits :
    (size : ℕ) → size < 2 ^ 64 → size ≤ 2 ^ (alloc_set_free_index size + alloc_min_bits)
unfolding alloc_set_free_index
index-fits size h = elim (Bool-cases (ltb 0 size)) [
  | inl e ↦ rw (e, two_pow-add-four) (omega (arith, loop_upper 64 ((size - 1) / 16) (omega arith)))
  | inr e ↦ rw e (omega (arith, ltb→le 0 size e))
]

-- The chunks of the list before it are too small.
pub index-tight :
    (size : ℕ) → 2 ^ (alloc_set_free_index size + alloc_min_bits) ≤ max 16 (2 * (size - 1))
unfolding alloc_set_free_index
index-tight size = elim (Bool-cases (ltb 0 size)) [
  | inl e ↦ rw (e, two_pow-add-four) (omega (arith, loop_lower 64 ((size - 1) / 16)))
  | inr e ↦ rw e (omega arith)
]

-- The assertion of the C function: a request up to the limit has a free list.
pub index-lt : (size : ℕ) → size ≤ alloc_chunk_limit → alloc_set_free_index size < num_freelists
index-lt size h = elim (dec_lt (alloc_set_free_index size) num_freelists) [
  | yes p ↦ p
  | no p ↦ absurd (
      omega (
        arith,
        index-tight size,
        two_pow-le 14 (alloc_set_free_index size + alloc_min_bits) (omega arith),
      ))
]

smallest : (size k : ℕ) → size ≤ 2 ^ (k + alloc_min_bits) → alloc_set_free_index size ≤ k
smallest size k fits = omega (
  arith,
  two_pow-lt_cancel (alloc_set_free_index size + 4) (k + 4 + 1)
      (omega (arith, index-tight size, two_pow-add-one (k + 4), two_pow-add-four k, two_pow_pos k)),
)

-- For a request of at most ALLOC_CHUNK_LIMIT bytes the index is in range, the chunks of that free
-- list hold the request, and it is the first such list: the index is 0, or the chunks of the list
-- before it are too small.
pub alloc_set_free_index_lem :
    (size : ℕ)
    → size ≤ alloc_chunk_limit
    → (alloc_set_free_index size < num_freelists)
      × (size ≤ 2 ^ (alloc_set_free_index size + alloc_min_bits))
      × ((alloc_set_free_index size ≡ 0)
          ⊎ (2 ^ (alloc_set_free_index size - 1 + alloc_min_bits) < size))
alloc_set_free_index_lem size h = (
  index-lt size h,
  index-fits size (omega arith),
  tight (alloc_set_free_index size) (index-tight size),
)
  where
    tight :
        (k : ℕ)
        → 2 ^ (k + alloc_min_bits) ≤ max 16 (2 * (size - 1))
        → (k ≡ 0) ⊎ (2 ^ (k - 1 + alloc_min_bits) < size)
    tight zero t = inl refl
    tight (suc k) t = inr (
        omega (
          arith,
          two_pow-add-one (suc k - 1 + 4),
          ap (λ x. 2 ^ x) (let e : suc k - 1 + 4 + 1 ≡ suc k + 4 = omega arith in e),
          two_pow-le 5 (suc k + 4) (omega arith),
        ))

-- A chunk size has the list of that size.
pub index-two_pow :
    (k : ℕ) → k < num_freelists → alloc_set_free_index (2 ^ (k + alloc_min_bits)) ≡ k
index-two_pow k h = omega (
  arith,
  smallest (2 ^ (k + 4)) k (omega arith),
  two_pow-lt_cancel (k + 4) (alloc_set_free_index (2 ^ (k + 4)) + 4 + 1) (
      omega (
        arith,
        index-fits (2 ^ (k + 4)) (omega (arith, two_pow-le (k + 4) 14 (omega arith))),
        two_pow-add-one (alloc_set_free_index (2 ^ (k + 4)) + 4),
        two_pow_pos (k + 4),
      )),
)
