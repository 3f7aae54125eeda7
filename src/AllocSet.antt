-- ===== src/AllocSet.antt =====
-- The allocation-set memory context, src/backend/utils/mmgr/aset.c (built without
-- MEMORY_CONTEXT_CHECKING and CLOBBER_FREED_MEMORY).
--
-- An address is a number. A block's `next` link is its place in the list `blocks`, a free chunk's
-- link (its `aset` field) its place in a free list. A chunk is its address with the `size` field of
-- its header: aset.c alone writes that field, and a chunk's size changes only in
-- `alloc_set_realloc`, which hands the new chunk back. A data pointer is the chunk's address plus
-- the header size. `malloc` and `realloc` are parameters: what they return for the sizes that one
-- call of an operation asks for. Bytes of user data are not modelled, but for the copy that
-- `alloc_set_realloc` makes, which is part of its result.
pub mod Index
pub mod Valid
pub mod Carve
pub mod Alloc
pub mod Create
pub mod Stats
mod Examples
pub mod Release
use postgres_v.Base.{
  ℕ, zero, suc, ◌+◌, ◌-◌, ◌*◌, ◌/◌, ◌%◌, ◌^◌, Bool, true, false, Option, none, some, List, [], ◌∷◌,
  ltb, leb, ◌==◌, if◌then◌else◌, max_align,
}

-- ALLOC_MIN_BITS, ALLOC_SET_NUM_FREELISTS, ALLOC_CHUNK_LIMIT
abbrev pub alloc_min_bits : ℕ
alloc_min_bits = 4

abbrev pub num_freelists : ℕ
num_freelists = 10

abbrev pub alloc_chunk_limit : ℕ
alloc_chunk_limit = 8192

-- ALLOC_BLOCK_HDR_SZ: four pointers; ALLOC_CHUNK_HDR_SZ: a pointer and a Size
abbrev pub block_hdr_sz : ℕ
block_hdr_sz = 32

abbrev pub chunk_hdr_sz : ℕ
chunk_hdr_sz = 16

pub record Block : Type 0 where
  pub base : ℕ
  pub freeptr : ℕ
  pub endptr : ℕ

pub record Chunk : Type 0 where
  pub addr : ℕ
  pub size : ℕ

-- `freelist k` is the list of array entry k; `keeper` is a block's address
pub record AllocSet : Type 0 where
  pub blocks : List Block
  pub freelist : ℕ → List Chunk
  pub init_block_size : ℕ
  pub max_block_size : ℕ
  pub keeper : Option ℕ

-- `elog(ERROR, …)` leaves by a long jump
pub data Outcome (A : Type 0) : Type 0 where
  ok : A → Outcome A
  memory_exhausted : Outcome A
  no_containing_block : Outcome A
  failed_assertion : Outcome A

infixl 5 ◌>>=◌
abbrev pub ◌>>=◌ : {A B : Type 0} → Outcome A → (A → Outcome B) → Outcome B
ok a >>= f = f a
memory_exhausted >>= f = memory_exhausted
no_containing_block >>= f = no_containing_block
failed_assertion >>= f = failed_assertion

-- ALLOC_CHUNK_GET_POINTER
abbrev pub chunk_get_pointer : Chunk → ℕ
chunk_get_pointer c = c.addr + chunk_hdr_sz

-- one entry of the array of free lists is assigned
abbrev pub set_freelist : (ℕ → List Chunk) → ℕ → List Chunk → ℕ → List Chunk
set_freelist f k l j = if k == j then l else f j

-- `while (size != 0) { idx++; size >>= 1; }`, with a round for each bit of a Size
pub free_index_loop : ℕ → ℕ → ℕ → ℕ
free_index_loop zero size idx = idx
free_index_loop (suc rounds) size idx =
    let rest = free_index_loop rounds (size / 2) (idx + 1) in if size == 0 then idx else rest

pub alloc_set_free_index : ℕ → ℕ
alloc_set_free_index size =
    if ltb 0 size then free_index_loop 64 ((size - 1) / 2 ^ alloc_min_bits) 0 else 0

-- `node` is how the type-independent part, `memory_context_create`, ends: with the address of the
-- zeroed context node, or in an error, which leaves this function as well.
pub alloc_set_context_create :
    (node : Outcome ℕ) → (ℕ → Option ℕ) → (min_context_size init max : ℕ) → Outcome AllocSet
alloc_set_context_create node malloc min_context_size init max =
    let init₁ = max_align init % 2 ^ 64 in
    let init₂ = if ltb init₁ 1024 then 1024 else init₁ in
    let max₁ = max_align max % 2 ^ 64 in
    let max₂ = if ltb max₁ init₂ then init₂ else max₁ in
    let blk_size = max_align min_context_size % 2 ^ 64 in
    let context : AllocSet = record {
      blocks = [];
      freelist = λ _. [];
      init_block_size = init₂;
      max_block_size = max₂;
      keeper = none;
    } in
    node >>= λ _.
    (if ltb (block_hdr_sz + chunk_hdr_sz) min_context_size
      then elim (malloc blk_size) [
        | none ↦ memory_exhausted
        | some b ↦ ok (record context {
          blocks = (record { base = b; freeptr = b + block_hdr_sz; endptr = b + blk_size }) ∷ [];
          keeper = some b;
        })
      ]
      else ok context)

-- a block for one chunk goes under the active block
pub insert_below : Block → List Block → List Block
insert_below block [] = block ∷ []
insert_below block (top ∷ rest) = top ∷ block ∷ rest

pub alloc_large : (ℕ → Option ℕ) → AllocSet → ℕ → Outcome (Chunk × AllocSet)
unfolding insert_below
alloc_large malloc s size =
    let chunk_size = max_align size % 2 ^ 64 in
    let blk_size = (chunk_size + block_hdr_sz + chunk_hdr_sz) % 2 ^ 64 in
    elim (malloc blk_size) [
      | none ↦ memory_exhausted
      | some b ↦
          let block : Block = record { base = b; freeptr = b + blk_size; endptr = b + blk_size } in
          ok (
            record { addr = b + block_hdr_sz; size = chunk_size },
            record s { blocks = insert_below block s.blocks },
          )
    ]

-- the search of a free list for the first chunk that is large enough, and its removal
pub take_fit : ℕ → List Chunk → Option (Chunk × List Chunk)
take_fit size [] = none
take_fit size (c ∷ cs) =
    if leb size c.size
    then some (c, cs)
    else elim (take_fit size cs) [ none ↦ none | some (d, rest) ↦ some (d, c ∷ rest) ]

-- The size and the list of the next chunk that is cut from `avail_chunk` bytes.
pub carve_index : ℕ → ℕ
carve_index avail_chunk =
    let a_fidx = alloc_set_free_index avail_chunk in
    if avail_chunk == 2 ^ (a_fidx + alloc_min_bits) then a_fidx else a_fidx - 1

-- what the loop changes: the block's `freeptr`, `avail_space` and the free lists
pub record Carving : Type 0 where
  pub freeptr : ℕ
  pub avail : ℕ
  pub lists : ℕ → List Chunk

pub carve_step : Carving → Carving
carve_step w =
    let k = carve_index (w.avail - chunk_hdr_sz) in
    let avail_chunk = 2 ^ (k + alloc_min_bits) in
    record {
      freeptr = w.freeptr + (avail_chunk + chunk_hdr_sz);
      avail = w.avail - (avail_chunk + chunk_hdr_sz);
      lists =
          set_freelist w.lists k ((record { addr = w.freeptr; size = avail_chunk }) ∷ w.lists k);
    }

-- `while (avail_space >= ((1 << ALLOC_MIN_BITS) + ALLOC_CHUNK_HDR_SZ))`
pub carve : ℕ → Carving → Carving
carve zero w = w
carve (suc rounds) w =
    let rest = carve rounds (carve_step w) in
    if leb (2 ^ alloc_min_bits + chunk_hdr_sz) w.avail then rest else w

-- `init_block_size` for the first block, twice the prior block's size for the others, up to
-- `max_block_size`; an undersized prior block counts for nothing
pub block_size_after : AllocSet → List Block → ℕ
block_size_after s [] = s.init_block_size
block_size_after s (top ∷ _) =
    let prior = top.endptr - top.base in
    if ltb prior s.init_block_size
    then s.init_block_size
    else (if ltb s.max_block_size (prior * 2) then s.max_block_size else prior * 2)

-- The size that is asked for first when a new block is needed.
pub new_block_size : AllocSet → ℕ → ℕ
unfolding block_size_after
new_block_size s chunk_size =
    let required = chunk_size + block_hdr_sz + chunk_hdr_sz in
    let blk_size = block_size_after s s.blocks in
    if ltb blk_size required then required else blk_size

-- `while (block == NULL && blk_size > 1024 * 1024)`; the result is the block and its size
pub malloc_retry : ℕ → (ℕ → Option ℕ) → (required blk_size : ℕ) → Option (ℕ × ℕ)
malloc_retry zero malloc required blk_size = none
malloc_retry (suc rounds) malloc required blk_size =
    let smaller = malloc_retry rounds malloc required (blk_size / 2) in
    elim (malloc blk_size) [
      | some b ↦ some (b, blk_size)
      | none ↦
          if ltb (1024 * 1024) blk_size
          then (if ltb (blk_size / 2) required then none else smaller)
          else none
    ]

-- the chunk is cut from the start of the active block's free space
pub put_chunk : AllocSet → Block → List Block → ℕ → Chunk × AllocSet
put_chunk s top rest chunk_size = (
  record { addr = top.freeptr; size = chunk_size },
  record s { blocks = record top { freeptr = top.freeptr + (chunk_size + chunk_hdr_sz) } ∷ rest },
)

pub alloc_in_new_block : (ℕ → Option ℕ) → AllocSet → ℕ → Outcome (Chunk × AllocSet)
alloc_in_new_block malloc s chunk_size =
    let required = chunk_size + block_hdr_sz + chunk_hdr_sz in
    elim (malloc_retry 64 malloc required (new_block_size s chunk_size)) [
      | none ↦ memory_exhausted
      | some (b, n) ↦ ok (
          put_chunk s (record { base = b; freeptr = b + block_hdr_sz; endptr = b + n }) s.blocks
            chunk_size)
    ]

-- the rest of the active block goes to the free lists
pub carve_top : AllocSet → Block → List Block → AllocSet
carve_top s top rest =
    let w =
      carve (num_freelists - 1)
        (record { freeptr = top.freeptr; avail = top.endptr - top.freeptr; lists = s.freelist }) in
    record s { blocks = record top { freeptr = w.freeptr } ∷ rest; freelist = w.lists }

pub alloc_chunk : (ℕ → Option ℕ) → AllocSet → List Block → ℕ → Outcome (Chunk × AllocSet)
alloc_chunk malloc s [] chunk_size = alloc_in_new_block malloc s chunk_size
alloc_chunk malloc s (top ∷ rest) chunk_size =
    if ltb (top.endptr - top.freeptr) (chunk_size + chunk_hdr_sz)
    then alloc_in_new_block malloc (carve_top s top rest) chunk_size
    else ok (put_chunk s top rest chunk_size)

pub alloc_set_alloc : (ℕ → Option ℕ) → AllocSet → ℕ → Outcome (Chunk × AllocSet)
alloc_set_alloc malloc s size =
    if ltb alloc_chunk_limit size
    then alloc_large malloc s size
    else (let fidx = alloc_set_free_index size in
        elim (take_fit size (s.freelist fidx)) [
          | some (c, rest) ↦ ok (c, record s { freelist = set_freelist s.freelist fidx rest })
          | none ↦ alloc_chunk malloc s s.blocks (2 ^ (fidx + alloc_min_bits))
        ])
