-- ===== src/AllocSet/Release/Free.antt =====
-- `alloc_set_free`, and an allocation after it.
use mathlib.Core.Path.{fun_ext, subst, subst₂}
use postgres_v.Base.{
  ℕ, ◌+◌, ◌^◌, ◌≤◌, ◌<◌, ◌≡◌, refl, sym, ◌∙◌, inl, inr, Option, none, some, List, [], ◌∷◌, arith,
  ltb, ◌==◌, All, Bool-cases, Option-cases, ltb→lt, ltb→le, ==→eq, le→ltb, eq→==, le→leb, ap,
}
use postgres_v.AllocSet.{
  AllocSet, Block, Chunk, Outcome, ok, memory_exhausted, no_containing_block, failed_assertion,
  alloc_set_alloc, alloc_set_free_index, alloc_min_bits, alloc_chunk_limit, block_hdr_sz,
  chunk_hdr_sz, set_freelist, take_fit,
}
use postgres_v.AllocSet.Index.{index-two_pow}
use postgres_v.AllocSet.Release.{take_block, is_single_chunk, alloc_set_free}
use postgres_v.AllocSet.Valid.{IsBlock, IsChunkSize, IsValid, IsListed-set_freelist}

-- the block that holds the chunk at the address has been cut out of the list
pub data Cut (addr : ℕ) (b : Block) : List Block → List Block → Type 0 where
  here : {bs : List Block} → addr ≡ b.base + block_hdr_sz → Cut addr b (b ∷ bs) bs
  there : {d : Block} {bs rest : List Block} → Cut addr b bs rest → Cut addr b (d ∷ bs) (d ∷ rest)

pub take_block-Cut :
    (addr : ℕ) (bs : List Block) (b : Block) (rest : List Block)
    → take_block addr bs ≡ some (b, rest)
    → Cut addr b bs rest
unfolding take_block
take_block-Cut addr [] b rest e = cc
take_block-Cut addr (d ∷ bs) b rest e = elim (Bool-cases (addr == d.base + block_hdr_sz)) [
  | inl q ↦
      let p : (d ≡ b) × (bs ≡ rest) = ground arith in
      subst₂ (λ x y. Cut addr x (d ∷ bs) y) p.0 p.1 (here (==→eq _ _ q))
  | inr q ↦ elim (Option-cases (take_block addr bs)) [
    | inl n ↦ absurd (ground arith)
    | inr ((d', bs'), n) ↦
        let p : (d' ≡ b) × (d ∷ bs' ≡ rest) = ground arith in
        subst₂ (λ x y. Cut addr x (d ∷ bs) y) p.0 p.1 (there (take_block-Cut addr bs d' bs' n))
  ]
]

pub Cut-All :
    (P : Block → Type 0) {addr : ℕ} {b : Block} {bs rest : List Block}
    → Cut addr b bs rest
    → All P bs
    → P b × All P rest
Cut-All P (here e) h = h
Cut-All P (there c) h = let t = Cut-All P c h.1 in (t.0, (h.0, t.1))

-- what `alloc_set_free` does with chunk `c` of a valid set
abbrev pub Frees : AllocSet → Chunk → Outcome (AllocSet × Option ℕ) → Type 0
Frees s c (ok (s', none)) =
    (c.size ≤ alloc_chunk_limit)
    × IsValid s'
    × (s'.blocks ≡ s.blocks)
    × (s'.freelist
        ≡ set_freelist s.freelist (alloc_set_free_index c.size)
            (c ∷ s.freelist (alloc_set_free_index c.size)))
Frees s c (ok (s', some base)) =
    (alloc_chunk_limit < c.size)
    × IsValid s'
    × (s'.freelist ≡ s.freelist)
    × ((b : Block) × (b.base ≡ base)
        × Cut c.addr b s.blocks s'.blocks
        × (b.freeptr ≡ b.base + (c.size + block_hdr_sz + chunk_hdr_sz)))
Frees s c memory_exhausted = ⊥
Frees s c no_containing_block = (alloc_chunk_limit < c.size) × (take_block c.addr s.blocks ≡ none)
Frees s c failed_assertion = alloc_chunk_limit < c.size

pub alloc_set_free-Frees :
    (s : AllocSet) (c : Chunk) → IsValid s → IsChunkSize c.size → Frees s c (alloc_set_free s c)
unfolding alloc_set_free is_single_chunk
alloc_set_free-Frees s c v shape = elim (Bool-cases (ltb alloc_chunk_limit c.size)) [
  | inl e ↦ elim (Option-cases (take_block c.addr s.blocks)) [
    | inl q ↦ rw (e, q) (ltb→lt _ _ e, q)
    | inr ((b, rest), q) ↦
        let cut = take_block-Cut c.addr s.blocks b rest q in
        elim (Bool-cases (b.freeptr == b.base + (c.size + block_hdr_sz + chunk_hdr_sz))) [
          | inl w ↦
              rw (e, q, w)
                (
                  ltb→lt _ _ e,
                  record {
                    listed = v.listed;
                    bounded = (Cut-All IsBlock cut v.bounded).1;
                    init_at_least = v.init_at_least;
                    init-le-max = v.init-le-max;
                  },
                  refl,
                  (b, refl, cut, ==→eq _ _ w),
                )
          | inr w ↦ rw (e, q, w) (ltb→lt _ _ e)
        ]
  ]
  | inr e ↦ rw e (
    ltb→le _ _ e,
    record {
      listed =
          IsListed-set_freelist s.freelist (alloc_set_free_index c.size)
            (c ∷ s.freelist (alloc_set_free_index c.size)) v.listed (small (ltb→le _ _ e) shape);
      bounded = v.bounded;
      init_at_least = v.init_at_least;
      init-le-max = v.init-le-max;
    },
    refl,
    refl,
  )
]
  where
    small :
        c.size ≤ alloc_chunk_limit
        → IsChunkSize c.size
        → All
            (λ (d : Chunk). d.size ≡ 2 ^ (alloc_set_free_index c.size + alloc_min_bits))
            (c ∷ s.freelist (alloc_set_free_index c.size))
    small le (inl gt) = absurd (omega arith)
    small le (inr (k, lt, e)) =
        let p = ap alloc_set_free_index e ∙ index-two_pow k lt in
        (
          e ∙ ap (λ j. 2 ^ (j + alloc_min_bits)) (sym p),
          v.listed (alloc_set_free_index c.size) (omega arith),
        )

pub alloc_set_free_small :
    (s : AllocSet) (c : Chunk) (s' : AllocSet)
    → alloc_set_free s c ≡ ok (s', none)
    → (c.size ≤ alloc_chunk_limit)
      × (s' ≡ record s {
        freelist =
            set_freelist s.freelist
              (alloc_set_free_index c.size)
              (c ∷ s.freelist (alloc_set_free_index c.size));
      })
unfolding alloc_set_free is_single_chunk
alloc_set_free_small s c s' freed = ground arith

set_back :
    (f : ℕ → List Chunk) (k : ℕ) (c : Chunk) (j : ℕ)
    → set_freelist (set_freelist f k (c ∷ f k)) k (f k) j ≡ f j
set_back f k c j = elim (Bool-cases (k == j)) [ inl e ↦ rw e (ap f (==→eq k j e)) | inr e ↦ rw e ]

-- A small chunk that was freed is the answer to the next request of its class, and the set is
-- again what it was; `malloc` is not called.
pub alloc-free :
    (malloc : ℕ → Option ℕ) (s s' : AllocSet) (c : Chunk) (size : ℕ)
    → alloc_set_free s c ≡ ok (s', none)
    → size ≤ c.size
    → alloc_set_free_index size ≡ alloc_set_free_index c.size
    → alloc_set_alloc malloc s' size ≡ ok (c, s)
unfolding alloc_set_free alloc_set_alloc take_fit is_single_chunk
alloc-free malloc s s' c size freed fits same =
    let (small, e) = alloc_set_free_small s c s' freed in
    let k = alloc_set_free_index c.size in
    subst (λ t. alloc_set_alloc malloc t size ≡ ok (c, s)) (sym e)
      (rw (le→ltb alloc_chunk_limit size (omega arith), same, eq→== k k refl, le→leb _ _ fits, same)
        (ap (λ f. ok (c, record s { freelist = f })) (fun_ext (set_back s.freelist k c))))
