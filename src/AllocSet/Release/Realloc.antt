-- ===== src/AllocSet/Release/Realloc.antt =====
-- `alloc_set_realloc` on every branch.
use postgres_v.Base.{
  ℕ, ◌+◌, ◌-◌, ◌^◌, ◌≤◌, ◌<◌, ◌≡◌, ◌⊎◌, refl, inl, inr, true, false, Option, none, some, List, [],
  ◌∷◌, arith, ltb, leb, ◌==◌, All, Bool-cases, Option-cases, ltb→lt, ltb→le, leb→le, leb→lt, le→ltb,
  max_align, max_align_bounds,
}
use postgres_v.AllocSet.{
  AllocSet, Block, Chunk, Outcome, ok, memory_exhausted, no_containing_block, failed_assertion,
  ◌>>=◌, chunk_get_pointer, alloc_set_alloc, alloc_set_free_index, alloc_min_bits,
  alloc_chunk_limit, block_hdr_sz, chunk_hdr_sz, set_freelist,
}
use postgres_v.AllocSet.Alloc.{aligned_lem, Allocated, Ends, Exhausts, needed, alloc_set_alloc-Ends}
use postgres_v.AllocSet.Index.{alloc_set_free_index_lem}
use postgres_v.AllocSet.Release.Free.{alloc_set_free-Frees}
use postgres_v.AllocSet.Release.{
  Moved, take_block, is_single_chunk, alloc_set_free, replace_block, realloc_large, growth,
  advance_top, alloc_set_realloc,
}
use postgres_v.AllocSet.Valid.{IsBlock, IsChunkSize, IsValid}

-- the chunk was large enough, and nothing changes
abbrev pub IsKept : AllocSet → Chunk → (size : ℕ) → Moved → Type 0
IsKept s c size r = (size ≤ c.size) × (r.chunk ≡ c) × (r.set ≡ s) × (r.copied ≡ none)

-- The chunk is the last one of the active block, and grows into the free space of that block, up to
-- its end at most.
abbrev pub IsGrown : AllocSet → Chunk → Moved → Type 0
IsGrown s c r =
    (top : Block) × (rest : List Block) × (s.blocks ≡ top ∷ rest)
    × (c.addr + (c.size + chunk_hdr_sz) ≡ top.freeptr)
    × (c.addr + (r.chunk.size + chunk_hdr_sz) ≤ top.endptr)
    × (r.chunk.addr ≡ c.addr)
    × (r.copied ≡ none)
    × (r.set.freelist ≡ s.freelist)
    × (r.set.blocks ≡ record top { freeptr = c.addr + (r.chunk.size + chunk_hdr_sz) } ∷ rest)

-- Another chunk was allocated, the contents were copied to it, and the old chunk went to its free
-- list.
abbrev pub IsCopied : (ℕ → Option ℕ) → AllocSet → Chunk → (size : ℕ) → Moved → Type 0
IsCopied malloc s c size r =
    (c.size ≤ alloc_chunk_limit)
    × (s₁ : AllocSet) × (alloc_set_alloc malloc s size ≡ ok (r.chunk, s₁))
    × (r.copied ≡ some (chunk_get_pointer c, chunk_get_pointer r.chunk, c.size))
    × (r.set.blocks ≡ s₁.blocks)
    × (r.set.freelist
        ≡ set_freelist s₁.freelist (alloc_set_free_index c.size)
            (c ∷ s₁.freelist (alloc_set_free_index c.size)))

-- The block of the chunk, which holds no other, went through `realloc`, and what that returned has
-- its place in the list of blocks.
abbrev pub IsReallocated : (ℕ → ℕ → Option ℕ) → AllocSet → Chunk → (size : ℕ) → Moved → Type 0
IsReallocated realloc s c size r =
    (alloc_chunk_limit < c.size)
    × (b : Block) × (rest : List Block) × (take_block c.addr s.blocks ≡ some (b, rest))
    × (is_single_chunk b c ≡ true)
    × (p : ℕ) × (realloc b.base (max_align size + 32 + 16) ≡ some p)
    × (r.chunk ≡ record { addr = p + 32; size = max_align size })
    × (r.copied ≡ none)
    × (r.set.freelist ≡ s.freelist)
    × (r.set.blocks
        ≡ replace_block c.addr
            (record {
              base = p;
              freeptr = p + (max_align size + 32 + 16);
              endptr = p + (max_align size + 32 + 16);
            })
            s.blocks)

-- `r` is what became of chunk `c` in a request for `size` bytes
pub record Resized (malloc : ℕ → Option ℕ) (realloc : ℕ → ℕ → Option ℕ) (s : AllocSet) (c : Chunk)
    (size : ℕ) (r : Moved) : Type 0 where
  pub valid : IsValid r.set
  pub fits : size ≤ r.chunk.size
  pub grows : c.size ≤ r.chunk.size
  pub shape : IsChunkSize r.chunk.size
  pub way :
      IsKept s c size r
      ⊎ (IsGrown s c r ⊎ (IsCopied malloc s c size r ⊎ IsReallocated realloc s c size r))

-- the ways in which a call ends
abbrev pub Resizes :
    (ℕ → Option ℕ) → (ℕ → ℕ → Option ℕ) → AllocSet → Chunk → ℕ → Outcome Moved → Type 0
Resizes malloc realloc s c size (ok r) = Resized malloc realloc s c size r
Resizes malloc realloc s c size memory_exhausted =
    (c.size < size)
    × (((c.size ≤ alloc_chunk_limit) × Exhausts malloc (needed size))
        ⊎ ((alloc_chunk_limit < c.size)
            × (b : Block) × (rest : List Block) × (take_block c.addr s.blocks ≡ some (b, rest))
            × (realloc b.base (max_align size + 32 + 16) ≡ none)))
Resizes malloc realloc s c size no_containing_block =
    (c.size < size) × (alloc_chunk_limit < c.size) × (take_block c.addr s.blocks ≡ none)
Resizes malloc realloc s c size failed_assertion =
    (c.size < size)
    × (alloc_chunk_limit < c.size)
    × (b : Block) × (rest : List Block) × (take_block c.addr s.blocks ≡ some (b, rest))
    × (is_single_chunk b c ≡ false)

replace_block-All :
    (P : Block → Type 0) (addr : ℕ) (new : Block) (bs : List Block)
    → P new
    → All P bs
    → All P (replace_block addr new bs)
unfolding replace_block
replace_block-All P addr new [] p h = tt
replace_block-All P addr new (b ∷ bs) p h = elim (Bool-cases (addr == b.base + block_hdr_sz)) [
  | inl e ↦ rw e (p, h.1)
  | inr e ↦ rw e (h.0, replace_block-All P addr new bs p h.1)
]

advance_top-All :
    (s : AllocSet) (bs : List Block) (c : Chunk) (size delta : ℕ)
    → growth s bs c size ≡ some delta
    → All IsBlock bs
    → All IsBlock (advance_top delta bs)
unfolding growth advance_top
advance_top-All s [] c size delta e h = tt
advance_top-All s (top ∷ rest) c size delta e h = (ground arith, h.1)

growth_lem :
    (s : AllocSet) (bs : List Block) (c : Chunk) (size delta : ℕ)
    → growth s bs c size ≡ some delta
    → (size ≤ alloc_chunk_limit)
      × (delta ≡ 2 ^ (alloc_set_free_index size + alloc_min_bits) - c.size)
unfolding growth
growth_lem s [] c size delta e = cc
growth_lem s (top ∷ rest) c size delta e = ground arith

growth-IsGrown :
    (s : AllocSet) (bs : List Block) (c : Chunk) (size delta : ℕ)
    → growth s bs c size ≡ some delta
    → 0 < delta
    → (top : Block) × (rest : List Block) × (bs ≡ top ∷ rest)
      × (c.addr + (c.size + chunk_hdr_sz) ≡ top.freeptr)
      × (c.addr + (c.size + delta + chunk_hdr_sz) ≤ top.endptr)
      × (advance_top delta bs
          ≡ record top { freeptr = c.addr + (c.size + delta + chunk_hdr_sz) } ∷ rest)
unfolding growth advance_top
growth-IsGrown s [] c size delta e pos = cc
growth-IsGrown s (top ∷ rest) c size delta e pos =
    let last : c.addr + (c.size + chunk_hdr_sz) ≡ top.freeptr = ground arith in
    let room : delta ≤ top.endptr - top.freeptr = ground arith in
    let end : top.freeptr + delta ≡ c.addr + (c.size + delta + chunk_hdr_sz) =
      omega (arith, last) in
    (top, rest, refl, last, omega (arith, last, room, pos), rw end refl)

module _ (malloc : ℕ → Option ℕ) (realloc : ℕ → ℕ → Option ℕ) (s : AllocSet) (c : Chunk) (size : ℕ)
    (v : IsValid s) (more : c.size < size) (small_size : size < 2 ^ 63) where
  large :
      alloc_chunk_limit < c.size
      → Resizes malloc realloc s c size (
          realloc_large realloc s c size >>= λ (d, s₁).
          ok (record { chunk = d; set = s₁; copied = none }))
  unfolding realloc_large
  large big =
      let (whole, block) = aligned_lem size small_size in
      elim (Option-cases (take_block c.addr s.blocks)) [
        | inl e ↦ rw (e, Resizes) (more, big, e)
        | inr ((b, rest), e) ↦ elim (Bool-cases (is_single_chunk b c)) [
          | inr w ↦ rw (e, w, Resizes) (more, big, b, rest, e, w)
          | inl w ↦ elim (Option-cases (realloc b.base (max_align size + 32 + 16))) [
            | inl q ↦ rw (e, w, whole, block, q, Resizes) (more, inr (big, b, rest, e, q))
            | inr (p, q) ↦
                rw (e, w, whole, block, q, Resizes, whole, block)
                  (record {
                    valid = record {
                      listed = v.listed;
                      bounded = replace_block-All IsBlock c.addr _ s.blocks (omega arith) v.bounded;
                      init_at_least = v.init_at_least;
                      init-le-max = v.init-le-max;
                    };
                    fits = omega (arith, max_align_bounds size);
                    grows = omega (arith, max_align_bounds size);
                    shape = inl (omega (arith, max_align_bounds size));
                    way = inr (inr (inr (big, b, rest, e, w, p, q, refl, refl, refl, refl)));
                  })
          ]
        ]
      ]

  freed :
      (d : Chunk) (s₁ : AllocSet)
      → IsChunkSize c.size
      → c.size ≤ alloc_chunk_limit
      → Allocated s size (d, s₁)
      → alloc_set_alloc malloc s size ≡ ok (d, s₁)
      → Resizes malloc realloc s c size (
          alloc_set_free s₁ c >>= λ (s₂, _). ok (record {
            chunk = d;
            set = s₂;
            copied = some (chunk_get_pointer c, chunk_get_pointer d, c.size);
          }))
  unfolding alloc_set_free
  freed d s₁ shape small t run =
      let f =
        rw (le→ltb alloc_chunk_limit c.size small) at (alloc_set_free-Frees s₁ c t.valid shape) in
      rw (le→ltb alloc_chunk_limit c.size small) (record {
        valid = f.1;
        fits = t.fits;
        grows = omega (arith, t.fits);
        shape = t.shape;
        way = inr (inr (inl (small, s₁, run, refl, refl, refl)));
      })

  copied :
      IsChunkSize c.size
      → c.size ≤ alloc_chunk_limit
      → (o : Outcome (Chunk × AllocSet)) → Ends malloc s size o
      → alloc_set_alloc malloc s size ≡ o
      → Resizes malloc realloc s c size (
          o >>= λ (d, s₁). alloc_set_free s₁ c >>= λ (s₂, _). ok (record {
            chunk = d;
            set = s₂;
            copied = some (chunk_get_pointer c, chunk_get_pointer d, c.size);
          }))
  copied shape small (ok (d, s₁)) t run = freed d s₁ shape small t run
  copied shape small memory_exhausted t run = (more, inl (small, t))
  copied shape small no_containing_block t run = elim t [ ]
  copied shape small failed_assertion t run = elim t [ ]

-- `alloc_set_realloc` of a chunk with a proper size, in a valid set, ends in one of these ways. The
-- new chunk holds the request and the old contents, has a proper chunk size, and the set is valid.
-- Either the chunk had the size already, and nothing changes; or it is the last one of the active
-- block, and grows into the free space of that block only; or its contents were copied to a chunk
-- from `alloc_set_alloc`, and it went to its free list (within ALLOC_CHUNK_LIMIT); or it is the
-- only chunk of its block, which went through `realloc` (above that limit). If the call ends in
-- an error, the request was for more than the chunk has: `malloc` or `realloc` failed for the size
-- that is needed; or the chunk is over the limit and no block starts with it, or its block holds
-- more than it. The size and the maximum block size of the set are below 2^63.
pub alloc_set_realloc-Resizes :
    (malloc : ℕ → Option ℕ) (realloc : ℕ → ℕ → Option ℕ) (s : AllocSet) (c : Chunk) (size : ℕ)
    → IsValid s
    → size < 2 ^ 63
    → s.max_block_size < 2 ^ 63
    → IsChunkSize c.size
    → Resizes malloc realloc s c size (alloc_set_realloc malloc realloc s c size)
unfolding alloc_set_realloc
alloc_set_realloc-Resizes malloc realloc s c size v small_size max_size shape =
    elim (Bool-cases (leb size c.size)) [
      | inl e ↦ rw e (record {
        valid = v;
        fits = leb→le _ _ e;
        grows = omega arith;
        shape = shape;
        way = inl (leb→le _ _ e, refl, refl, refl);
      })
      | inr e ↦
          let more = leb→lt size c.size e in
          elim (Bool-cases (ltb alloc_chunk_limit c.size)) [
            | inl big ↦
                rw (e, big) (large malloc realloc s c size v more small_size (ltb→lt _ _ big))
            | inr small ↦ elim (Option-cases (growth s s.blocks c size)) [
              | inl q ↦
                  rw (e, small, q)
                    (copied malloc realloc s c size v more small_size shape (ltb→le _ _ small)
                      (alloc_set_alloc malloc s size)
                      (alloc_set_alloc-Ends malloc s size v small_size max_size) refl)
              | inr (delta, q) ↦
                  let (le, eq) = growth_lem s s.blocks c size delta q in
                  let (lt, fits, _) = alloc_set_free_index_lem size le in
                  let (top, rest, split, last, room, ends) =
                    growth-IsGrown s s.blocks c size delta q (omega arith) in
                  rw (e, small, q)
                    (record {
                      valid = record {
                        listed = v.listed;
                        bounded = advance_top-All s s.blocks c size delta q v.bounded;
                        init_at_least = v.init_at_least;
                        init-le-max = v.init-le-max;
                      };
                      fits = omega arith;
                      grows = omega arith;
                      shape = inr (alloc_set_free_index size, lt, omega arith);
                      way = inr (inl (top, rest, split, last, room, refl, refl, refl, ends));
                    })
            ]
          ]
    ]
