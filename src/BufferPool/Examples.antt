-- ===== src/BufferPool/Examples.antt =====
-- The theorems at a pool of three buffers that was just set up, and at one of two buffers of which
-- number 1 is pinned.
use postgres_v.Base.{◌+◌, ◌≡◌, refl, some, [], ◌∷◌, arith, ◌==◌, if◌then◌else◌}
use postgres_v.Rings.{Lacks}
use postgres_v.BufferPool.Init.{init_buffer_pool-IsPool}
use postgres_v.BufferPool.Pins.{Gets, unpin_buffer-after_unpin, get_free_buffer-Gets}
use postgres_v.BufferPool.Valid.{IsPool}
use postgres_v.BufferPool.{
  Pool, invalid_descriptor, unpin_buffer, get_free_buffer, init_buffer_pool,
}

abbrev blank : Pool
blank = record {
  free_list_descriptor = 0;
  links = record { prev = λ b. 0; next = λ b. 0 };
  flags = λ b. 0;
  refcount = λ b. 0;
  private_ref_count = λ b. 0;
}

abbrev three : Pool
three = init_buffer_pool 3 blank

init_buffer_pool-IsPool_example : IsPool (init_buffer_pool 3 blank) (1 ∷ 2 ∷ 0 ∷ [])
init_buffer_pool-IsPool_example = init_buffer_pool-IsPool 3 blank (omega arith) (omega arith)

three-IsPool : IsPool three (1 ∷ 2 ∷ 0 ∷ [])
three-IsPool = init_buffer_pool-IsPool 3 blank (omega arith) (omega arith)

get_free_buffer-Gets_example : Gets three (1 ∷ 2 ∷ 0 ∷ []) (get_free_buffer three)
get_free_buffer-Gets_example = get_free_buffer-Gets three (1 ∷ 2 ∷ 0 ∷ []) three-IsPool

abbrev busy : Pool
busy = record {
  free_list_descriptor = 2;
  links = record {
    prev = λ b. if b == 0 then 2 else if b == 2 then 0 else invalid_descriptor;
    next = λ b. if b == 0 then 2 else if b == 2 then 0 else invalid_descriptor;
  };
  flags = λ b. if b == 0 then 28 else 12;
  refcount = λ b. if b == 1 then 1 else 0;
  private_ref_count = λ b. if b == 1 then 1 else 0;
}

busy-IsPool : IsPool busy (0 ∷ [])
busy-IsPool = record {
  limit = omega arith;
  ring = (refl, refl, (refl, refl));
  distinct = (((λ (e : 2 ≡ 0). omega arith), tt), (tt, tt));
  queued = (record { unpinned = refl; mine = refl; marked = refl; buffer = omega arith }, tt);
  others = λ b lt out. let ne = out.0 in ground arith;
}

off : Lacks 1 (0 ∷ [])
off = ((λ (e : 1 ≡ 0). omega arith), tt)

unpin_buffer-after_unpin_example :
    (q : Pool) × (unpin_buffer 1 busy ≡ some q)
    × IsPool q (0 ∷ 1 ∷ [])
    × (q.private_ref_count 1 + 1 ≡ 1)
    × (q.refcount 1 + 1 ≡ 1)
unpin_buffer-after_unpin_example =
    unpin_buffer-after_unpin busy 1 (0 ∷ []) busy-IsPool (omega arith) off (omega arith)
      (omega arith)
