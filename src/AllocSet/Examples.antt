-- ===== src/AllocSet/Examples.antt =====
-- The theorems at small allocation sets, and runs of the operations.
use postgres_v.Base.{
  ℕ, ◌+◌, ◌-◌, ◌^◌, ◌≡◌, ◌≤◌, ◌<◌, ◌⊎◌, refl, inr, none, some, Option, [], ◌∷◌, arith,
}
use postgres_v.AllocSet.Alloc.{Ends, alloc_set_alloc-Ends}
use postgres_v.AllocSet.Carve.{IsCarved, carve-IsCarved}
use postgres_v.AllocSet.Create.{Creates, alloc_set_context_create-Creates}
use postgres_v.AllocSet.Index.{alloc_set_free_index_lem}
use postgres_v.AllocSet.Release.Free.{Frees, alloc_set_free-Frees, alloc-free}
use postgres_v.AllocSet.Release.Realloc.{Resizes, alloc_set_realloc-Resizes}
use postgres_v.AllocSet.Release.{alloc_set_free, alloc_set_realloc}
use postgres_v.AllocSet.Valid.{IsValid}
use postgres_v.AllocSet.{
  AllocSet, Block, Chunk, Carving, ok, alloc_set_context_create, alloc_set_free_index,
  alloc_min_bits, num_freelists, alloc_set_alloc, carve, carve_step, carve_top, carve_index,
  take_fit, put_chunk, free_index_loop, malloc_retry, block_size_after, new_block_size,
  alloc_in_new_block, alloc_chunk, set_freelist,
}

program : Unit {0}
unfolding free_index_loop alloc_set_free_index carve_index carve_step carve take_fit put_chunk
    malloc_retry block_size_after new_block_size alloc_in_new_block carve_top alloc_chunk
    alloc_set_alloc
program = tt

abbrev heap : ℕ → Option ℕ
heap n = some 65536

-- 100 bytes of the active block are free, and an oversize block is below it
abbrev top : Block
top = record { base = 4096; freeptr = 5020; endptr = 5120 }

abbrev big : Block
big = record { base = 20000; freeptr = 30048; endptr = 30048 }

abbrev sample : AllocSet
sample = record {
  blocks = top ∷ big ∷ [];
  freelist = λ _. [];
  init_block_size = 1024;
  max_block_size = 8192;
  keeper = some 4096;
}

sample-IsValid : IsValid sample
sample-IsValid = record {
  listed = λ k lt. tt;
  bounded = omega arith;
  init_at_least = omega arith;
  init-le-max = omega arith;
}

abbrev small : Chunk
small = record { addr = 4128; size = 64 }

-- the last chunk of the active block
abbrev last : Chunk
last = record { addr = 4492; size = 512 }

abbrev without_keeper : AllocSet
without_keeper = record sample { keeper = none }

alloc_set_free_index_lem_example :
    (alloc_set_free_index 100 < num_freelists)
    × (100 ≤ 2 ^ (alloc_set_free_index 100 + alloc_min_bits))
    × ((alloc_set_free_index 100 ≡ 0) ⊎ (2 ^ (alloc_set_free_index 100 - 1 + alloc_min_bits) < 100))
alloc_set_free_index_lem_example = alloc_set_free_index_lem 100 (omega arith)

alloc_set_alloc-Ends_example : Ends heap sample 200 (alloc_set_alloc heap sample 200)
alloc_set_alloc-Ends_example =
    alloc_set_alloc-Ends heap sample 200 sample-IsValid (omega arith) (omega arith)

abbrev rest_of_top : Carving
rest_of_top = record { freeptr = 5020; avail = 100; lists = λ _. [] }

carve-IsCarved_example : IsCarved rest_of_top (carve 9 rest_of_top)
carve-IsCarved_example = carve-IsCarved 9 rest_of_top (omega arith) (omega arith) (λ k lt. tt)

alloc_set_context_create-Creates_example :
    Creates (ok 128) heap 2000 500 500 (alloc_set_context_create (ok 128) heap 2000 500 500)
alloc_set_context_create-Creates_example =
    alloc_set_context_create-Creates (ok 128) heap 2000 500 500 (omega arith) (omega arith)
      (omega arith)

alloc_set_free-Frees_example : Frees sample small (alloc_set_free sample small)
alloc_set_free-Frees_example =
    alloc_set_free-Frees sample small sample-IsValid (inr (2, omega arith, refl))

abbrev after_free : AllocSet
after_free = record sample { freelist = λ j. (set_freelist (λ _. []) 2 (small ∷ []) j) }

small_freed : alloc_set_free sample small ≡ ok (after_free, none)
unfolding alloc_set_free program
small_freed = refl

alloc-free_example : alloc_set_alloc heap after_free 50 ≡ ok (small, sample)
alloc-free_example =
    alloc-free heap sample after_free small 50 small_freed (omega arith) (unfold program in refl)

alloc_set_realloc-Resizes_example :
    Resizes heap
      (λ b n. none)
      sample
      last
      600
      (alloc_set_realloc heap (λ b n. none) sample last 600)
alloc_set_realloc-Resizes_example =
    alloc_set_realloc-Resizes heap (λ b n. none) sample last 600 sample-IsValid (omega arith)
      (omega arith) (inr (5, omega arith, refl))

-- 200 bytes do not fit the active block: its rest becomes a chunk of 64 bytes, and the new block
-- has twice the size of the old one.
alloc_in_new_block_run :
    alloc_set_alloc heap sample 200
    ≡ ok (
      record { addr = 65568; size = 256 },
      record sample {
        blocks =
            (record { base = 65536; freeptr = 65840; endptr = 67584 })
            ∷ (record { base = 4096; freeptr = 5100; endptr = 5120 })
            ∷ big
            ∷ [];
        freelist = λ j. (set_freelist (λ _. []) 2 ((record { addr = 5020; size = 64 }) ∷ []) j);
      },
    )
unfolding program
alloc_in_new_block_run = refl
