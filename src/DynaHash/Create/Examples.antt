-- ===== src/DynaHash/Create/Examples.antt =====
-- The creation of two tables by dynahash.c: one that is private, and one for 100 elements with a
-- directory that was allocated before.
use postgres_v.Base.{ℕ, ◌+◌, ◌*◌, ◌<◌, ◌≤◌, ◌≡◌, refl, true, arith, max_align}
use postgres_v.DynaHash.Home.{Masked}
use postgres_v.DynaHash.Create.{
  HashCtrl, Creation, created, not_created, broken_assertion, overflow, has_flag, log2_loop,
  my_log2, hdefault, wanted_buckets, double_until, hash_select_dirsize, hash_estimate_size,
  alloc_segments, init_htab, set_parameters, hash_create,
}
use postgres_v.DynaHash.Create.Sizes.{IsSegment, init_htab-created, hash_select_dirsize-enough}
use postgres_v.DynaHash.{HashTable, seg_alloc}

abbrev identity : ℕ → ℕ
identity k = k

abbrev bump : HashTable → (size : ℕ) → ℕ
bump t size = 4096

bump-memory : (t : HashTable) (size : ℕ) → 0 < bump t size
bump-memory t size = omega arith

-- no segments yet, with 4 entries each, and a directory of 8
abbrev blank : HashTable
blank = record {
  words = λ p. 0;
  key = λ e. 0;
  segbase = 0;
  dir = λ i. 0;
  dsize = 8;
  ssize = 4;
  sshift = 2;
  max_bucket = 0;
  high_mask = 0;
  low_mask = 0;
  ffactor = 1;
  nkeys = 0;
  nsegs = 0;
  keysize = 8;
  datasize = 8;
  max_dsize = 8;
  free_bucket_index = 0;
}

init_htab-created_example :
    (u : HashTable) × (k : ℕ) × (init_htab identity bump true 20 blank ≡ created u)
    × Masked k u
    × (20 ≤ (u.max_bucket + 1) * u.ffactor)
    × (u.max_bucket < u.nsegs * u.ssize)
    × (u.nsegs ≤ u.dsize)
    × ((i : ℕ) → i < u.nsegs → IsSegment bump u i)
unfolding my_log2 log2_loop wanted_buckets
init_htab-created_example =
    init_htab-created identity bump bump-memory true 20 blank (omega arith) (omega arith)
      (omega arith) (omega arith) refl (λ _. omega arith)

abbrev shared : HashTable
shared = record blank { ssize = 256; sshift = 8; dsize = 256 }

hash_select_dirsize-enough_example :
    (u : HashTable) × (k : ℕ) × (init_htab identity bump true 100 shared ≡ created u)
    × Masked k u
    × (100 ≤ (u.max_bucket + 1) * u.ffactor)
    × (u.max_bucket < u.nsegs * u.ssize)
    × (u.nsegs ≤ u.dsize)
    × ((i : ℕ) → i < u.nsegs → IsSegment bump u i)
unfolding hash_select_dirsize double_until my_log2 log2_loop wanted_buckets
hash_select_dirsize-enough_example =
    hash_select_dirsize-enough identity bump bump-memory 100 shared (omega arith) (omega arith) refl
      refl refl refl

-- the last bucket and the fill factor of a table, or 0
last_bucket : Creation → ℕ × ℕ
last_bucket (created t) = (t.max_bucket, t.ffactor)
last_bucket not_created = (0, 0)
last_bucket broken_assertion = (0, 0)
last_bucket overflow = (0, 0)

-- HASH_ELEM, HASH_FFACTOR and HASH_SEGMENT for 20 elements, two to a bucket
abbrev options : HashCtrl
options = record {
  ssize = 4;
  dsize = 16;
  ffactor = 2;
  keysize = 4;
  datasize = 12;
  max_dsize = 16;
  segbase = 0;
  dir = 0;
  hctl = 0;
}

private_table : last_bucket (hash_create identity bump true 20 options 42 blank) ≡ (15, 2)
unfolding last_bucket hash_create set_parameters has_flag hdefault init_htab alloc_segments
    seg_alloc my_log2 log2_loop wanted_buckets
private_table = refl

-- 1 directory, 1 segment and 120 elements of 48 bytes
table_estimate : hash_estimate_size 100 20 20 ≡ 9984
unfolding hash_estimate_size double_until my_log2 log2_loop wanted_buckets max_align
table_estimate = refl
