-- ===== src/AllocSet/Alloc.antt =====
-- `alloc_set_alloc` on every branch.
use mathlib.Core.Path.{subst}
use native.Mathlib.Nat.{pow-suc}
use postgres_v.Base.{
  ℕ, zero, suc, ◌+◌, ◌-◌, ◌*◌, ◌/◌, ◌%◌, ◌^◌, ◌≤◌, ◌<◌, ◌≡◌, ◌⊎◌, refl, inl, inr, Option, none,
  some, List, [], ◌∷◌, arith, ltb, leb, if◌then◌else◌, true, All, max_align, max_align_bounds,
  Bool-cases, Option-cases, ltb→lt, ltb→le, two_pow-le, dec_lt, sym, max, ◌∙◌,
}
use postgres_v.AllocSet.{
  AllocSet, Block, Chunk, Outcome, ok, memory_exhausted, no_containing_block, failed_assertion,
  alloc_set_alloc, alloc_set_free_index, alloc_chunk_limit, block_hdr_sz, chunk_hdr_sz, alloc_large,
  insert_below, take_fit, carve_top, block_size_after, new_block_size, malloc_retry, put_chunk,
  alloc_in_new_block, alloc_chunk,
}
use postgres_v.AllocSet.Carve.{carve-IsCarved}
use postgres_v.AllocSet.Index.{alloc_set_free_index_lem}
use postgres_v.AllocSet.Valid.{IsBlock, IsChunkSize, IsValid, IsListed-set_freelist}

-- the chunk lies in the used space of one of the blocks
abbrev pub IsIn : Chunk → List Block → Type 0
IsIn c [] = ⊥
IsIn c (b ∷ bs) =
    ((b.base + block_hdr_sz ≤ c.addr) × (c.addr + (c.size + chunk_hdr_sz) ≤ b.freeptr)) ⊎ IsIn c bs

-- A chunk for `size` bytes was handed out: from its free list, or from a block.
pub record Allocated (s : AllocSet) (size : ℕ) (r : Chunk × AllocSet) : Type 0 where
  pub valid : IsValid r.1
  pub fits : size ≤ r.0.size
  pub shape : IsChunkSize r.0.size
  pub origin :
      ((rest : List Chunk) × (take_fit size (s.freelist (alloc_set_free_index size))
          ≡ some (r.0, rest))
        × (r.1.blocks ≡ s.blocks))
      ⊎ IsIn r.0 r.1.blocks
  pub init_kept : r.1.init_block_size ≡ s.init_block_size
  pub max_kept : r.1.max_block_size ≡ s.max_block_size
  pub keeper_kept : r.1.keeper ≡ s.keeper

-- the bytes of a block that holds one chunk for `size` bytes, with the two headers
abbrev pub needed : (size : ℕ) → ℕ
needed size =
    if ltb alloc_chunk_limit size
    then max_align size + block_hdr_sz + chunk_hdr_sz
    else 2 ^ (alloc_set_free_index size + 4) + block_hdr_sz + chunk_hdr_sz

-- `malloc` failed for `n` bytes, which hold the chunk, and half of `n` was not to be tried
abbrev pub Exhausts : (ℕ → Option ℕ) → (required : ℕ) → Type 0
Exhausts malloc required =
    (n : ℕ) × (malloc n ≡ none) × (required ≤ n) × ((n ≤ 1024 * 1024) ⊎ (n / 2 < required))

-- A call ends in a chunk, or in the error after `malloc` has failed for a size that holds what is
-- needed and is at most a megabyte or less than twice what is needed.
abbrev pub Ends : (ℕ → Option ℕ) → AllocSet → ℕ → Outcome (Chunk × AllocSet) → Type 0
Ends malloc s size (ok r) = Allocated s size r
Ends malloc s size memory_exhausted = Exhausts malloc (needed size)
Ends malloc s size no_containing_block = ⊥
Ends malloc s size failed_assertion = ⊥

take_fit_lem :
    (P : Chunk → Type 0) (size : ℕ) (cs : List Chunk) (c : Chunk) (rest : List Chunk)
    → take_fit size cs ≡ some (c, rest)
    → All P cs
    → (size ≤ c.size) × P c × All P rest
unfolding take_fit
take_fit_lem P size [] c rest e h = cc
take_fit_lem P size (d ∷ ds) c rest e h = elim (Bool-cases (leb size d.size)) [
  | inl b ↦
      let p : (d ≡ c) × (ds ≡ rest) = ground arith in
      (ground arith, subst P p.0 h.0, subst (All P) p.1 h.1)
  | inr b ↦ elim (Option-cases (take_fit size ds)) [
    | inl n ↦ absurd (ground arith)
    | inr ((d', ds'), q) ↦
        let p : (d' ≡ c) × (d ∷ ds' ≡ rest) = ground arith in
        let t = take_fit_lem P size ds c ds' (rw q (ground arith)) h.1 in
        (t.0, t.1, subst (All P) p.1 (h.0, t.2))
  ]
]

insert_below-All :
    (P : Block → Type 0) (b : Block) (bs : List Block) → P b → All P bs → All P (insert_below b bs)
unfolding insert_below
insert_below-All P b [] p h = (p, tt)
insert_below-All P b (top ∷ rest) p h = (h.0, (p, h.1))

insert_below-IsIn :
    (c : Chunk) (b : Block) (bs : List Block)
    → b.base + block_hdr_sz ≤ c.addr
    → c.addr + (c.size + chunk_hdr_sz) ≤ b.freeptr
    → IsIn c (insert_below b bs)
unfolding insert_below
insert_below-IsIn c b [] lo hi = inl (lo, hi)
insert_below-IsIn c b (top ∷ rest) lo hi = inr (inl (lo, hi))

-- sizes that do not wrap
pub aligned_lem :
    (size : ℕ)
    → size < 2 ^ 63
    → (max_align size % 2 ^ 64 ≡ max_align size)
      × ((max_align size + 32 + 16) % 2 ^ 64 ≡ max_align size + 32 + 16)
aligned_lem size small =
    (omega (arith, max_align_bounds size), omega (arith, max_align_bounds size))

alloc_large-Ends :
    (malloc : ℕ → Option ℕ) (s : AllocSet) (size : ℕ)
    → IsValid s
    → size < 2 ^ 63
    → alloc_chunk_limit < size
    → Ends malloc s size (alloc_large malloc s size)
unfolding alloc_large
alloc_large-Ends malloc s size v small big =
    let (whole, block) = aligned_lem size small in
    let large : ltb alloc_chunk_limit size ≡ true = ground arith in
    elim (Option-cases (malloc (max_align size + 32 + 16))) [
      | inl e ↦
          rw (whole, block, e, Ends, large)
            (max_align size + 32 + 16, e, omega arith, inr (omega arith))
      | inr (b, e) ↦
          rw (whole, block, e, Ends, whole, block)
            (record {
              valid = record {
                listed = v.listed;
                bounded = insert_below-All IsBlock _ s.blocks (omega arith) v.bounded;
                init_at_least = v.init_at_least;
                init-le-max = v.init-le-max;
              };
              fits = omega (arith, max_align_bounds size);
              shape = inl (omega (arith, max_align_bounds size));
              origin = inr (insert_below-IsIn _ _ s.blocks (omega arith) (omega arith));
              init_kept = refl;
              max_kept = refl;
              keeper_kept = refl;
            })
    ]

malloc_retry-some :
    (r : ℕ) (malloc : ℕ → Option ℕ) (required blk_size b n : ℕ)
    → required ≤ blk_size
    → malloc_retry r malloc required blk_size ≡ some (b, n)
    → required ≤ n
unfolding malloc_retry
malloc_retry-some zero malloc required blk_size b n h e = ground arith
malloc_retry-some (suc r) malloc required blk_size b n h e =
    ground (arith, malloc_retry-some r malloc required (blk_size / 2) b n)

module _ (r : ℕ) (malloc : ℕ → Option ℕ) (required blk_size : ℕ) where
  malloc_retry-first :
      {b : ℕ}
      → malloc blk_size ≡ some b
      → malloc_retry (suc r) malloc required blk_size ≡ some (b, blk_size)
  unfolding malloc_retry
  malloc_retry-first q = ground arith

  malloc_retry-halve :
      malloc blk_size ≡ none
      → 1024 * 1024 < blk_size
      → required ≤ blk_size / 2
      → malloc_retry (suc r) malloc required blk_size
        ≡ malloc_retry r malloc required (blk_size / 2)
  unfolding malloc_retry
  malloc_retry-halve q big high = ground arith

-- With enough rounds the loop gives up for its own reasons.
malloc_retry-none :
    (r : ℕ) (malloc : ℕ → Option ℕ) (required blk_size : ℕ)
    → required ≤ blk_size
    → blk_size < 1024 * 1024 * 2 ^ r
    → malloc_retry (suc r) malloc required blk_size ≡ none
    → Exhausts malloc required
malloc_retry-none zero malloc required blk_size h bound e = elim (Option-cases (malloc blk_size)) [
  | inr (b, q) ↦ absurd (cc (malloc_retry-first 0 malloc required blk_size q))
  | inl q ↦ (blk_size, q, h, inl (omega arith))
]
malloc_retry-none (suc r) malloc required blk_size h bound e =
    elim (Option-cases (malloc blk_size)) [
      | inr (b, q) ↦ absurd (cc (malloc_retry-first (suc r) malloc required blk_size q))
      | inl q ↦ elim (dec_lt (1024 * 1024) blk_size) [
        | no small ↦ (blk_size, q, h, inl (omega arith))
        | yes big ↦ elim (dec_lt (blk_size / 2) required) [
          | yes low ↦ (blk_size, q, h, inr low)
          | no high ↦
              malloc_retry-none r malloc required (blk_size / 2) (omega arith)
                (omega (arith, pow-suc 2 r))
                (sym (malloc_retry-halve (suc r) malloc required blk_size q big (omega arith)) ∙ e)
        ]
      ]
    ]

put_chunk-Allocated :
    (s s' : AllocSet) (top : Block) (rest : List Block) (size chunk_size : ℕ)
    → IsValid s'
    → (s'.init_block_size ≡ s.init_block_size)
      × (s'.max_block_size ≡ s.max_block_size)
      × (s'.keeper ≡ s.keeper)
    → top.base + block_hdr_sz ≤ top.freeptr
    → top.freeptr + (chunk_size + chunk_hdr_sz) ≤ top.endptr
    → All IsBlock rest
    → size ≤ chunk_size
    → IsChunkSize chunk_size
    → Allocated s size (put_chunk s' top rest chunk_size)
unfolding put_chunk
put_chunk-Allocated s s' top rest size chunk_size v same lo hi bs fits shape = record {
  valid = record {
    listed = v.listed;
    bounded = (omega arith, bs);
    init_at_least = v.init_at_least;
    init-le-max = v.init-le-max;
  };
  fits = fits;
  shape = shape;
  origin = inr (inl (lo, omega arith));
  init_kept = same.0;
  max_kept = same.1;
  keeper_kept = same.2;
}

block_size_after-le :
    (s : AllocSet) (bs : List Block) → IsValid s → block_size_after s bs ≤ s.max_block_size
unfolding block_size_after
block_size_after-le s [] v = v.init-le-max
block_size_after-le s (b ∷ bs) v = ground arith

-- A new block holds the chunk, and is at most the larger of what is needed and `max_block_size`.
new_block_size_bounds :
    (s : AllocSet) (chunk_size : ℕ)
    → IsValid s
    → (chunk_size + block_hdr_sz + chunk_hdr_sz ≤ new_block_size s chunk_size)
      × (new_block_size s chunk_size
          ≤ max (chunk_size + block_hdr_sz + chunk_hdr_sz) s.max_block_size)
unfolding new_block_size
new_block_size_bounds s chunk_size v =
    elim (dec_lt (block_size_after s s.blocks) (chunk_size + 48)) [
      | yes p ↦ ground (arith, block_size_after-le s s.blocks v)
      | no p ↦ ground (arith, block_size_after-le s s.blocks v)
    ]

alloc_in_new_block-Ends :
    (malloc : ℕ → Option ℕ) (s s' : AllocSet) (size chunk_size : ℕ)
    → IsValid s'
    → (s'.init_block_size ≡ s.init_block_size)
      × (s'.max_block_size ≡ s.max_block_size)
      × (s'.keeper ≡ s.keeper)
    → size ≤ chunk_size
    → IsChunkSize chunk_size
    → chunk_size ≤ alloc_chunk_limit
    → needed size ≡ chunk_size + block_hdr_sz + chunk_hdr_sz
    → s'.max_block_size < 2 ^ 63
    → Ends malloc s size (alloc_in_new_block malloc s' chunk_size)
unfolding alloc_in_new_block
alloc_in_new_block-Ends malloc s s' size chunk_size v same fits shape limit need max_size =
    let required = chunk_size + block_hdr_sz + chunk_hdr_sz in
    let (enough, bound) = new_block_size_bounds s' chunk_size v in
    elim (Option-cases (malloc_retry 64 malloc required (new_block_size s' chunk_size))) [
      | inl e ↦
          let (n, q, ge, why) =
            malloc_retry-none 63 malloc required (new_block_size s' chunk_size) enough (omega arith)
              e in
          rw (e, Ends) (subst (Exhausts malloc) (sym need) (n, q, ge, why))
      | inr ((b, n), e) ↦
          let ge =
            malloc_retry-some 64 malloc required (new_block_size s' chunk_size) b n enough e in
          rw (e, Ends)
            (put_chunk-Allocated s s' (record { base = b; freeptr = b + 32; endptr = b + n })
              s'.blocks size chunk_size v same (omega arith) (omega arith) v.bounded fits shape)
    ]

carve_top-IsValid :
    (s : AllocSet) (top : Block) (rest : List Block)
    → IsValid s
    → IsBlock top
    → All IsBlock rest
    → top.endptr - top.freeptr < alloc_chunk_limit + chunk_hdr_sz
    → IsValid (carve_top s top rest)
unfolding carve_top
carve_top-IsValid s top rest v b bs small =
    let t =
      carve-IsCarved 9
        (record { freeptr = top.freeptr; avail = top.endptr - top.freeptr; lists = s.freelist })
        (omega arith) small v.listed in
    record {
      listed = t.listed;
      bounded = (omega arith, bs);
      init_at_least = v.init_at_least;
      init-le-max = v.init-le-max;
    }

alloc_chunk-Ends :
    (malloc : ℕ → Option ℕ) (s : AllocSet) (size chunk_size : ℕ) (bs : List Block)
    → IsValid s
    → All IsBlock bs
    → size ≤ chunk_size
    → IsChunkSize chunk_size
    → chunk_size ≤ alloc_chunk_limit
    → needed size ≡ chunk_size + block_hdr_sz + chunk_hdr_sz
    → s.max_block_size < 2 ^ 63
    → Ends malloc s size (alloc_chunk malloc s bs chunk_size)
unfolding alloc_chunk carve_top
alloc_chunk-Ends malloc s size chunk_size [] v b fits shape limit need max_size =
    alloc_in_new_block-Ends malloc s s size chunk_size v (refl, refl, refl) fits shape limit need
      max_size
alloc_chunk-Ends malloc s size chunk_size (top ∷ rest) v b fits shape limit need max_size =
    elim (Bool-cases (ltb (top.endptr - top.freeptr) (chunk_size + chunk_hdr_sz))) [
      | inl e ↦ rw e (
          alloc_in_new_block-Ends malloc s (carve_top s top rest) size chunk_size
            (carve_top-IsValid s top rest v b.0 b.1 (omega (arith, ltb→lt _ _ e)))
            (refl, refl, refl) fits shape limit need max_size)
      | inr e ↦ rw e (
          put_chunk-Allocated s s top rest size chunk_size v (refl, refl, refl) (omega arith)
            (omega (arith, ltb→le _ _ e)) b.1 fits shape)
    ]

-- `alloc_set_alloc` on a valid set ends in one of two ways. It hands out a chunk of at least the
-- requested size and of a proper chunk size, the first that fits on its free list or one in the
-- used space of a block, leaves the set valid, and changes neither the block sizes nor the keeper.
-- Or it reports exhaustion after `malloc` failed for a size that holds what is needed and that is at
-- most a megabyte or less than twice what is needed. What is needed are the two headers and the size
-- of the chunk: the aligned request above ALLOC_CHUNK_LIMIT, else the power of 2 of its free list.
-- The size and the maximum block size of the set are below 2^63.
pub alloc_set_alloc-Ends :
    (malloc : ℕ → Option ℕ) (s : AllocSet) (size : ℕ)
    → IsValid s
    → size < 2 ^ 63
    → s.max_block_size < 2 ^ 63
    → Ends malloc s size (alloc_set_alloc malloc s size)
unfolding alloc_set_alloc
alloc_set_alloc-Ends malloc s size v small max_size =
    elim (Bool-cases (ltb alloc_chunk_limit size)) [
      | inl e ↦ rw e (alloc_large-Ends malloc s size v small (ltb→lt _ _ e))
      | inr e ↦
          let k = alloc_set_free_index size in
          let (lt, fits, _) =
            alloc_set_free_index_lem size (omega (arith, ltb→le alloc_chunk_limit size e)) in
          elim (Option-cases (take_fit size (s.freelist k))) [
            | inl q ↦
                rw (e, q)
                  (alloc_chunk-Ends malloc s size (2 ^ (k + 4)) s.blocks v v.bounded fits
                    (inr (k, lt, refl)) (two_pow-le (k + 4) 13 (omega arith)) (rw e refl) max_size)
            | inr ((c, rest), q) ↦
                let t =
                  take_fit_lem (λ (d : Chunk). d.size ≡ 2 ^ (k + 4)) size (s.freelist k) c rest q
                    (v.listed k lt) in
                rw (e, q)
                  (record {
                    valid = record {
                      listed = IsListed-set_freelist s.freelist k rest v.listed t.2;
                      bounded = v.bounded;
                      init_at_least = v.init_at_least;
                      init-le-max = v.init-le-max;
                    };
                    fits = t.0;
                    shape = inr (k, lt, t.1);
                    origin = inl (rest, q, refl);
                    init_kept = refl;
                    max_kept = refl;
                    keeper_kept = refl;
                  })
          ]
    ]
