-- ===== src/AllocSet/Valid.antt =====
-- What the operations of aset.c keep true of an allocation set, and the bytes on its free lists.
use postgres_v.Base.{
  ℕ, zero, suc, ◌+◌, ◌^◌, ◌≤◌, ◌<◌, ◌≡◌, ◌⊎◌, refl, List, [], ◌∷◌, arith, ◌==◌, All, Bool-cases,
  inl, inr, ==→eq, ==→ne,
}
use postgres_v.AllocSet.{
  AllocSet, Block, Chunk, alloc_chunk_limit, alloc_min_bits, num_freelists, block_hdr_sz,
  chunk_hdr_sz, set_freelist,
}

-- the chunks of list k have size 2 ^ (k + 4)
abbrev pub IsListed : (ℕ → List Chunk) → Type 0
IsListed f = (k : ℕ) → k < num_freelists → All (λ c. c.size ≡ 2 ^ (k + alloc_min_bits)) (f k)

-- the sizes that chunks have: more than the limit, or that of a free list
abbrev pub IsChunkSize : ℕ → Type 0
IsChunkSize n =
    (alloc_chunk_limit < n) ⊎ ((k : ℕ) × (k < num_freelists) × (n ≡ 2 ^ (k + alloc_min_bits)))

-- a block's used space lies between its header and its end
abbrev pub IsBlock : Block → Type 0
IsBlock b = (b.base + block_hdr_sz ≤ b.freeptr) × (b.freeptr ≤ b.endptr)

pub record IsValid (s : AllocSet) : Type 0 where
  pub listed : IsListed s.freelist
  pub bounded : All IsBlock s.blocks
  pub init_at_least : 1024 ≤ s.init_block_size
  pub init-le-max : s.init_block_size ≤ s.max_block_size

pub IsListed-set_freelist :
    (f : ℕ → List Chunk) (k : ℕ) (l : List Chunk)
    → IsListed f
    → All (λ c. c.size ≡ 2 ^ (k + alloc_min_bits)) l
    → IsListed (set_freelist f k l)
IsListed-set_freelist f k l h fits j lt = elim (Bool-cases (k == j)) [
  | inl e ↦ rw e (rw (← ==→eq k j e) fits)
  | inr e ↦ rw e (h j lt)
]

-- the bytes of a list of chunks, headers included
unfoldable pub bytes : List Chunk → ℕ
bytes [] = 0
bytes (c ∷ cs) = c.size + chunk_hdr_sz + bytes cs

-- the bytes on the first n free lists
unfoldable pub held : ℕ → (ℕ → List Chunk) → ℕ
unfolding bytes
held zero f = 0
held (suc n) f = held n f + bytes (f n)

pub held-set_above :
    (n : ℕ) (f : ℕ → List Chunk) (k : ℕ) (l : List Chunk)
    → n ≤ k
    → held n (set_freelist f k l) ≡ held n f
unfolding held
held-set_above zero f k l h = refl
held-set_above (suc n) f k l h = ground (arith, held-set_above n f k l)

pub held-set_freelist :
    (n : ℕ) (f : ℕ → List Chunk) (k : ℕ) (l : List Chunk)
    → k < n
    → held n (set_freelist f k l) + bytes (f k) ≡ held n f + bytes l
unfolding held
held-set_freelist zero f k l h = absurd (omega arith)
held-set_freelist (suc n) f k l h = elim (Bool-cases (k == n)) [
  | inl e ↦ let p = ==→eq k n e in rw (e, p) (omega (arith, held-set_above n f n l))
  | inr e ↦ rw e (omega (arith, held-set_freelist n f k l (omega (arith, ==→ne k n e))))
]
