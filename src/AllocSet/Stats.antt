-- ===== src/AllocSet/Stats.antt =====
-- `alloc_set_stats`: the numbers that it prints, and what becomes of them.
use native.Mathlib.Numerals.{add-one}
use postgres_v.Base.{ℕ, zero, suc, ◌+◌, ◌-◌, ◌<◌, ◌≡◌, refl, ap, none, List, [], ◌∷◌, arith, length}
use postgres_v.AllocSet.{
  AllocSet, Block, Chunk, ok, carve_top, chunk_hdr_sz, alloc_chunk_limit, num_freelists,
  alloc_set_free_index,
}
use postgres_v.AllocSet.Carve.{carve-IsCarved}
use postgres_v.AllocSet.Index.{alloc_set_free_index_lem}
use postgres_v.AllocSet.Release.{alloc_set_free}
use postgres_v.AllocSet.Release.Free.{alloc_set_free_small}
use postgres_v.AllocSet.Valid.{IsBlock, IsValid, bytes, held, held-set_freelist}

pub record AllocStats : Type 0 where
  pub nblocks : ℕ
  pub nchunks : ℕ
  pub total_space : ℕ
  pub free_space : ℕ

-- the loop over the blocks
pub block_stats : List Block → AllocStats → AllocStats
block_stats [] t = t
block_stats (b ∷ bs) t = block_stats bs (record t {
  nblocks = t.nblocks + 1;
  total_space = t.total_space + (b.endptr - b.base);
  free_space = t.free_space + (b.endptr - b.freeptr);
})

pub chunk_stats : List Chunk → AllocStats → AllocStats
chunk_stats [] t = t
chunk_stats (c ∷ cs) t =
    chunk_stats cs
      (record t { nchunks = t.nchunks + 1; free_space = t.free_space + (c.size + chunk_hdr_sz) })

-- the loop over the free lists: `left` of them from `fidx` on
pub list_stats : (left fidx : ℕ) → (ℕ → List Chunk) → AllocStats → AllocStats
unfolding chunk_stats
list_stats zero fidx lists t = t
list_stats (suc left) fidx lists t = list_stats left (fidx + 1) lists (chunk_stats (lists fidx) t)

pub alloc_set_stats : AllocSet → AllocStats
alloc_set_stats s =
    list_stats num_freelists 0 s.freelist
      (block_stats s.blocks (record { nblocks = 0; nchunks = 0; total_space = 0; free_space = 0 }))

-- the space of the blocks, and what of it is behind the free pointers
abbrev space : List Block → ℕ
space [] = 0
space (b ∷ bs) = b.endptr - b.base + space bs

abbrev unused : List Block → ℕ
unused [] = 0
unused (b ∷ bs) = b.endptr - b.freeptr + unused bs

block_stats_lem :
    (bs : List Block) (t : AllocStats)
    → ((block_stats bs t).total_space ≡ t.total_space + space bs)
      × ((block_stats bs t).free_space ≡ t.free_space + unused bs)
      × ((block_stats bs t).nblocks ≡ t.nblocks + length bs)
      × ((block_stats bs t).nchunks ≡ t.nchunks)
unfolding block_stats
block_stats_lem [] t = omega arith
block_stats_lem (b ∷ bs) t = omega (arith, block_stats_lem bs _)

chunk_stats_lem :
    (cs : List Chunk) (t : AllocStats)
    → ((chunk_stats cs t).total_space ≡ t.total_space)
      × ((chunk_stats cs t).free_space ≡ t.free_space + bytes cs)
      × ((chunk_stats cs t).nblocks ≡ t.nblocks)
      × ((chunk_stats cs t).nchunks ≡ t.nchunks + length cs)
unfolding chunk_stats bytes
chunk_stats_lem [] t = omega arith
chunk_stats_lem (c ∷ cs) t = omega (arith, chunk_stats_lem cs _)

held-add-one : (n : ℕ) (f : ℕ → List Chunk) → held (n + 1) f ≡ held n f + bytes (f n)
unfolding held
held-add-one n f = rw add-one

list_stats_lem :
    (left fidx j : ℕ) (lists : ℕ → List Chunk) (t : AllocStats)
    → fidx + left ≡ j
    → ((list_stats left fidx lists t).total_space ≡ t.total_space)
      × ((list_stats left fidx lists t).free_space + held fidx lists ≡ t.free_space + held j lists)
unfolding list_stats
list_stats_lem zero fidx j lists t e = (refl, let p : fidx ≡ j = omega arith in rw p)
list_stats_lem (suc left) fidx j lists t e = omega (
  arith,
  list_stats_lem left (fidx + 1) j lists (chunk_stats (lists fidx) t) (omega arith),
  chunk_stats_lem (lists fidx) t,
  held-add-one fidx lists,
)

held-zero : (f : ℕ → List Chunk) → held 0 f ≡ 0
unfolding held
held-zero f = refl

bytes-cons : (c : Chunk) (cs : List Chunk) → bytes (c ∷ cs) ≡ c.size + chunk_hdr_sz + bytes cs
unfolding bytes
bytes-cons c cs = refl

-- the printed sums
stats_sums :
    (s : AllocSet)
    → ((alloc_set_stats s).total_space ≡ space s.blocks)
      × ((alloc_set_stats s).free_space ≡ unused s.blocks + held num_freelists s.freelist)
unfolding alloc_set_stats
stats_sums s =
    let t₀ : AllocStats = record { nblocks = 0; nchunks = 0; total_space = 0; free_space = 0 } in
    let b = block_stats_lem s.blocks t₀ in
    let l = list_stats_lem 10 0 10 s.freelist (block_stats s.blocks t₀) refl in
    omega (arith, b, l, held-zero s.freelist)

-- Freeing a chunk that goes to a free list adds its size and its header to the free space that the
-- statistics show, and leaves the total as it was.
stats-free :
    (s s' : AllocSet) (c : Chunk)
    → alloc_set_free s c ≡ ok (s', none)
    → ((alloc_set_stats s').total_space ≡ (alloc_set_stats s).total_space)
      × ((alloc_set_stats s').free_space ≡ (alloc_set_stats s).free_space + (c.size + chunk_hdr_sz))
stats-free s s' c freed =
    let (small, e) = alloc_set_free_small s c s' freed in
    let k = alloc_set_free_index c.size in
    let (lt, _, _) = alloc_set_free_index_lem c.size small in
    let l = c ∷ s.freelist k in
    omega (
      arith,
      stats_sums s,
      stats_sums s',
      ap (λ (t : AllocSet). space t.blocks) e,
      ap (λ (t : AllocSet). unused t.blocks) e,
      ap (λ (t : AllocSet). held 10 t.freelist) e,
      held-set_freelist 10 s.freelist k l lt,
      bytes-cons c (s.freelist k),
    )

-- Cutting up the rest of the active block, which has less room than the largest chunk takes, changes
-- neither sum that the statistics show: no byte is lost.
stats-carve_top :
    (s : AllocSet) (top : Block) (rest : List Block)
    → IsValid s
    → s.blocks ≡ top ∷ rest
    → IsBlock top
    → top.endptr - top.freeptr < alloc_chunk_limit + chunk_hdr_sz
    → ((alloc_set_stats (carve_top s top rest)).total_space ≡ (alloc_set_stats s).total_space)
      × ((alloc_set_stats (carve_top s top rest)).free_space ≡ (alloc_set_stats s).free_space)
unfolding carve_top
stats-carve_top s top rest v e b small =
    let t =
      carve-IsCarved 9
        (record { freeptr = top.freeptr; avail = top.endptr - top.freeptr; lists = s.freelist })
        (omega arith) small v.listed in
    omega (
      arith,
      stats_sums s,
      stats_sums (carve_top s top rest),
      ap space e,
      ap unused e,
      t.kept,
      t.forward,
      t.conserved,
    )
