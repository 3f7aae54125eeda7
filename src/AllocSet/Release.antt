-- ===== src/AllocSet/Release.antt =====
-- The other operations of aset.c: `alloc_set_free`, `alloc_set_realloc`, `alloc_set_reset`,
-- `alloc_set_delete` and `alloc_set_stats`.
pub mod Free
pub mod Realloc
pub mod Reset
use postgres_v.Base.{
  ℕ, ◌+◌, ◌-◌, ◌%◌, ◌^◌, Bool, false, Option, none, some, List, [], ◌∷◌, ltb, leb, ◌==◌,
  if◌then◌else◌, max_align,
}
use postgres_v.AllocSet.{
  AllocSet, Block, Chunk, Outcome, ok, ◌>>=◌, chunk_get_pointer, memory_exhausted,
  no_containing_block, failed_assertion, alloc_chunk_limit, block_hdr_sz, chunk_hdr_sz,
  alloc_min_bits, set_freelist, alloc_set_free_index, alloc_set_alloc,
}

-- The search for the block whose first chunk is at the address, and its removal.
pub take_block : ℕ → List Block → Option (Block × List Block)
take_block addr [] = none
take_block addr (b ∷ bs) =
    if addr == b.base + block_hdr_sz
    then some (b, bs)
    else elim (take_block addr bs) [ none ↦ none | some (d, rest) ↦ some (d, b ∷ rest) ]

-- `assert`: the chunk is the only one in the block
pub is_single_chunk : Block → Chunk → Bool
is_single_chunk b c = b.freeptr == b.base + (c.size + block_hdr_sz + chunk_hdr_sz)

-- beside the set, the address of the block that goes back to `malloc`
unfoldable pub alloc_set_free : AllocSet → Chunk → Outcome (AllocSet × Option ℕ)
unfolding take_block is_single_chunk
alloc_set_free s c =
    if ltb alloc_chunk_limit c.size
    then elim (take_block c.addr s.blocks) [
      | none ↦ no_containing_block
      | some (b, rest) ↦
          if is_single_chunk b c
          then ok (record s { blocks = rest }, some b.base)
          else failed_assertion
    ]
    else (let fidx = alloc_set_free_index c.size in
        ok (record s { freelist = set_freelist s.freelist fidx (c ∷ s.freelist fidx) }, none))

-- The block that `realloc` returned takes the place of the old one.
pub replace_block : ℕ → Block → List Block → List Block
replace_block addr new [] = []
replace_block addr new (b ∷ bs) =
    if addr == b.base + block_hdr_sz then new ∷ bs else b ∷ replace_block addr new bs

pub realloc_large : (ℕ → ℕ → Option ℕ) → AllocSet → Chunk → ℕ → Outcome (Chunk × AllocSet)
unfolding take_block is_single_chunk replace_block
realloc_large realloc s c size =
    let chunk_size = max_align size % 2 ^ 64 in
    let blk_size = (chunk_size + block_hdr_sz + chunk_hdr_sz) % 2 ^ 64 in
    elim (take_block c.addr s.blocks) [
      | none ↦ no_containing_block
      | some (b, _) ↦
          if is_single_chunk b c
          then elim (realloc b.base blk_size) [
            | none ↦ memory_exhausted
            | some p ↦
                let new : Block = record {
                  base = p;
                  freeptr = p + blk_size;
                  endptr = p + blk_size;
                } in
                ok (
                  record { addr = p + block_hdr_sz; size = chunk_size },
                  record s { blocks = replace_block c.addr new s.blocks },
                )
          ]
          else failed_assertion
    ]

-- The growth in place of the last chunk of the active block: the bytes that it takes, if it fits.
-- A set that a chunk belongs to has a block, so the first clause is out of the code's reach.
pub growth : AllocSet → List Block → Chunk → ℕ → Option ℕ
growth s [] c size = none
growth s (top ∷ _) c size =
    let delta = 2 ^ (alloc_set_free_index size + alloc_min_bits) - c.size in
    if leb size alloc_chunk_limit
    then (if c.addr + (c.size + chunk_hdr_sz) == top.freeptr
        then (if leb delta (top.endptr - top.freeptr) then some delta else none)
        else none)
    else none

pub advance_top : ℕ → List Block → List Block
advance_top delta [] = []
advance_top delta (top ∷ rest) = record top { freeptr = top.freeptr + delta } ∷ rest

-- the result of `alloc_set_realloc`; `copied` is (source, target, bytes) of the `memcpy`
pub record Moved : Type 0 where
  pub chunk : Chunk
  pub set : AllocSet
  pub copied : Option (ℕ × ℕ × ℕ)

-- allocate, copy, free
pub realloc_by_copy : (ℕ → Option ℕ) → AllocSet → Chunk → ℕ → Outcome Moved
realloc_by_copy malloc s c size = do
  (d, s₁) ← alloc_set_alloc malloc s size
  (s₂, _) ← alloc_set_free s₁ c
  ok (record {
    chunk = d;
    set = s₂;
    copied = some (chunk_get_pointer c, chunk_get_pointer d, c.size);
  })

unfoldable pub alloc_set_realloc :
    (ℕ → Option ℕ) → (ℕ → ℕ → Option ℕ) → AllocSet → Chunk → ℕ → Outcome Moved
unfolding growth advance_top realloc_by_copy
alloc_set_realloc malloc realloc s c size =
    if leb size c.size
    then ok (record { chunk = c; set = s; copied = none })
    else if ltb alloc_chunk_limit c.size
    then (do
      (d, s₁) ← realloc_large realloc s c size
      ok (record { chunk = d; set = s₁; copied = none }))
    else elim (growth s s.blocks c size) [
      | some delta ↦ ok (record {
        chunk = record c { size = c.size + delta };
        set = record s { blocks = advance_top delta s.blocks };
        copied = none;
      })
      | none ↦ realloc_by_copy malloc s c size
    ]

pub is_keeper : Option ℕ → Block → Bool
is_keeper none b = false
is_keeper (some k) b = b.base == k

-- The loop of `alloc_set_reset` over the old list of blocks: what stays, and what is freed.
pub keep_blocks : Option ℕ → List Block → List Block
unfolding is_keeper
keep_blocks keeper [] = []
keep_blocks keeper (b ∷ bs) =
    if is_keeper keeper b
    then record b { freeptr = b.base + block_hdr_sz } ∷ keep_blocks keeper bs
    else keep_blocks keeper bs

pub drop_blocks : Option ℕ → List Block → List ℕ
unfolding is_keeper
drop_blocks keeper [] = []
drop_blocks keeper (b ∷ bs) =
    if is_keeper keeper b then drop_blocks keeper bs else b.base ∷ drop_blocks keeper bs

pub alloc_set_reset : AllocSet → AllocSet × List ℕ
unfolding keep_blocks drop_blocks
alloc_set_reset s = (
  record s { blocks = keep_blocks s.keeper s.blocks; freelist = λ _. [] },
  drop_blocks s.keeper s.blocks,
)

pub alloc_set_delete : AllocSet → AllocSet × List ℕ
unfolding drop_blocks
alloc_set_delete s =
    (record s { blocks = []; freelist = λ _. []; keeper = none }, drop_blocks none s.blocks)
