-- ===== src/DynaHash/Examples.antt =====
-- A hash table with two buckets, three elements and two free ones, and runs of dynahash.c on it.
use postgres_v.Base.{
  some, ℕ, zero, suc, ◌+◌, ◌/◌, ◌^◌, ◌<◌, ◌≤◌, ◌≡◌, ◌≢◌, ◌⊎◌, refl, true, false, List, [], ◌∷◌,
  ◌++◌, length, arith, ◌==◌, if◌then◌else◌, max_align,
}
use postgres_v.DynaHash.Valid.{Bucket, IsTable}
use postgres_v.Rings.{store}
use postgres_v.DynaHash.Keys.{Keyless, find_key}
use postgres_v.DynaHash.Valid.{lookup}
use postgres_v.DynaHash.Search.{hash_search-find}
use postgres_v.DynaHash.Remove.{hash_search-remove}
use postgres_v.DynaHash.Expand.{expand_table-keeps}
use postgres_v.DynaHash.Insert.{hash_search-asserted, hash_search-enter}
use postgres_v.DynaHash.Sequence.{visit, elements, hash_seq-elements}
use postgres_v.DynaHash.{
  HashTable, hash_find, hash_enter, hash_remove, Answer, element, null, is_true, Outcome, done,
  failed_assertion, no_max_dsize, place, call_hash, hash_search, expand_table, scan_start,
  hash_find_save, hash_remove_saved, undefined, follow_chain, split_loop, ensure_segment,
  next_bucket, bucket_alloc, link_buckets, bucket_size, dir_realloc, new_segment, seg_alloc,
  clear_words,
}

abbrev identity : ℕ → ℕ
identity k = k

abbrev bump : HashTable → (size : ℕ) → ℕ
bump t size = 4096

abbrev sample_words : ℕ → ℕ
sample_words p =
    if p == 1000
    then 2200
    else (if p == 1008 then 2000 else (if p == 2000 then 2100 else (if p == 2300 then 2400 else 0)))

abbrev sample_key : ℕ → ℕ
sample_key e = if e == 2000 then 5 else (if e == 2100 then 7 else (if e == 2200 then 2 else 0))

abbrev sample_owner : ℕ → ℕ
sample_owner q =
    if q == 1000
    then 1
    else (if q == 2200
        then 1
        else (if q == 1008
            then 2
            else (if q == 2000
                then 2
                else (if q == 2100
                    then 2
                    else (if q == 1016 then 3 else (if q == 1024 then 4 else 0))))))

abbrev sample_chain : ℕ → List ℕ
sample_chain b = if b == 0 then 2200 ∷ [] else (if b == 1 then 2000 ∷ 2100 ∷ [] else [])

abbrev sample : HashTable
sample = record {
  words = sample_words;
  key = sample_key;
  segbase = 0;
  dir = λ i. if i == 0 then 1000 else 0;
  dsize = 256;
  ssize = 4;
  sshift = 2;
  max_bucket = 1;
  high_mask = 3;
  low_mask = 1;
  ffactor = 1;
  nkeys = 3;
  nsegs = 1;
  keysize = 8;
  datasize = 8;
  max_dsize = no_max_dsize;
  free_bucket_index = 2300;
}

sample-Bucket : (b : ℕ) → b < 4 → Bucket identity bump sample sample_owner b (sample_chain b)
unfolding place call_hash
sample-Bucket zero lt = record {
  linked = (refl, omega arith, refl);
  distinct = ((omega arith, tt), (tt, tt));
  owned = (refl, (refl, tt));
  at_home = (refl, tt);
  one_each = (tt, tt);
}
sample-Bucket (suc zero) lt = record {
  linked = (refl, omega arith, (refl, omega arith, refl));
  distinct = ((omega arith, (omega arith, tt)), ((omega arith, tt), (tt, tt)));
  owned = (refl, (refl, (refl, tt)));
  at_home = (refl, (refl, tt));
  one_each = ((omega arith, tt), (tt, tt));
}
sample-Bucket (suc (suc zero)) lt = record {
  linked = refl;
  distinct = (tt, tt);
  owned = (refl, tt);
  at_home = tt;
  one_each = tt;
}
sample-Bucket (suc (suc (suc zero))) lt = record {
  linked = refl;
  distinct = (tt, tt);
  owned = (refl, tt);
  at_home = tt;
  one_each = tt;
}
sample-Bucket (suc (suc (suc (suc b)))) lt = absurd (omega arith)

sample-IsTable : IsTable identity bump 4 sample_chain (2300 ∷ 2400 ∷ []) sample_owner sample
sample-IsTable = record {
  mask_digits = 1;
  masked = (refl, refl, omega arith, omega arith, omega arith);
  within = omega arith;
  bucket = sample-Bucket;
  free_list = record {
    leads = (refl, omega arith, (refl, omega arith, refl));
    different = ((omega arith, tt), (tt, tt));
    unowned = (refl, (refl, tt));
  };
}

sample_lengths : (b : ℕ) → b < 4 → length (sample_chain b) < 4
sample_lengths b lt = ground arith

sample_segments : (c : ℕ) → c ≤ 1 → (0 + sample.dir (c / 2 ^ 2) == 0) ≡ false
sample_segments zero le = refl
sample_segments (suc zero) le = refl
sample_segments (suc (suc c)) le = absurd (omega arith)

hash_search-find_example :
    ((e : ℕ) × (before : List ℕ) × (after : List ℕ) × (sample_chain
          (call_hash identity bump sample 7)
        ≡ before ++ e ∷ after)
      × (sample_key e ≡ 7)
      × (hash_search identity bump true 4 sample 7 hash_find ≡ done true (element e) sample))
    ⊎ (((b : ℕ) → b < 4 → Keyless sample_key 7 (sample_chain b))
        × (hash_search identity bump true 4 sample 7 hash_find ≡ done false is_true sample))
unfolding call_hash
hash_search-find_example =
    hash_search-find identity bump 4 sample_chain (2300 ∷ 2400 ∷ []) sample_owner sample true 4 7
      sample-IsTable (omega arith)

hash_search-remove_example :
    (u : HashTable) × (after : ℕ → List ℕ) × (hash_search identity bump true 4 sample 5 hash_remove
      ≡ done true (element 2000) u)
    × IsTable identity bump 4 after (2000 ∷ 2300 ∷ 2400 ∷ []) (store sample_owner 2000 0) u
    × (lookup identity bump after u 5 ≡ 0)
    × ((j : ℕ)
        → j ≢ 5
        → lookup identity bump after u j ≡ lookup identity bump sample_chain sample j)
unfolding call_hash find_key
hash_search-remove_example =
    hash_search-remove identity bump 4 sample_chain (2300 ∷ 2400 ∷ []) sample_owner sample true 4 5
      sample-IsTable (omega arith) (omega arith) (omega arith)

hash_search-enter_example :
    (u : HashTable) × (after : ℕ → List ℕ) × (other : ℕ → ℕ) × (hash_search identity bump false 4
        sample 6 hash_enter
      ≡ done false (element 2300) u)
    × IsTable identity bump 4 after (2400 ∷ []) other u
    × (lookup identity bump after u 6 ≡ 2300)
    × ((j : ℕ)
        → j ≢ 6
        → lookup identity bump after u j ≡ lookup identity bump sample_chain sample j)
unfolding call_hash find_key
hash_search-enter_example =
    hash_search-enter identity bump 4 sample_chain (2400 ∷ []) sample_owner sample 4 6
      sample-IsTable sample_lengths (λ _. (omega arith, omega arith, omega arith)) refl

hash_search-asserted_example :
    (hash_search identity bump true 4 sample 6 hash_enter ≡ failed_assertion)
    ⊎ (hash_search identity bump true 4 sample 6 hash_enter ≡ done false null sample)
unfolding call_hash find_key
hash_search-asserted_example =
    hash_search-asserted identity bump 4 sample_chain (2300 ∷ 2400 ∷ []) sample_owner sample 4 6
      sample-IsTable (omega arith) refl

expand_table-keeps_example :
    (u : HashTable) × (after : ℕ → List ℕ) × (other : ℕ → ℕ) × (expand_table identity bump 4 sample
      ≡ (true, u))
    × (u.max_bucket ≡ 2)
    × IsTable identity bump 4 after (2300 ∷ 2400 ∷ []) other u
    × ((k : ℕ) → lookup identity bump after u k ≡ lookup identity bump sample_chain sample k)
expand_table-keeps_example =
    expand_table-keeps identity bump 4 sample_chain (2300 ∷ 2400 ∷ []) sample_owner sample 4
      sample-IsTable (omega arith) (omega arith) (omega arith) (omega arith)

hash_seq-elements_example : visit 4 3 sample scan_start ≡ some (2200 ∷ 2000 ∷ 2100 ∷ [])
unfolding elements
hash_seq-elements_example =
    hash_seq-elements identity bump 4 sample_chain (2300 ∷ 2400 ∷ []) sample_owner sample 3 4
      sample-IsTable sample_segments (omega arith) (omega arith)

-- the answers, on the two keys of one bucket, a key of the other and a key that is not there
answer : Outcome → Answer
answer (done found a t) = a
answer failed_assertion = null
answer undefined = null

found_keys :
    (answer (hash_search identity bump true 4 sample 5 hash_find) ≡ element 2000)
    × (answer (hash_search identity bump true 4 sample 7 hash_find) ≡ element 2100)
    × (answer (hash_search identity bump true 4 sample 2 hash_find_save) ≡ element 2200)
    × (answer (hash_search identity bump true 4 sample 6 hash_find) ≡ is_true)
unfolding answer hash_search follow_chain call_hash place
found_keys = (refl, refl, refl, refl)

no_saved_removal : hash_search identity bump true 4 sample 5 hash_remove_saved ≡ undefined
unfolding hash_search
no_saved_removal = refl

-- the third bucket gets the element of the key 2
split_sample :
    ((expand_table identity bump 4 sample).1.words 1000 ≡ 0)
    × ((expand_table identity bump 4 sample).1.words 1016 ≡ 2200)
unfolding expand_table split_loop ensure_segment next_bucket call_hash place
split_sample = (refl, refl)

-- the free list starts with new elements of 32 bytes, the last one in front of 2300
more_elements :
    ((bucket_alloc identity bump sample).1.free_bucket_index ≡ 4096)
    × ((bucket_alloc identity bump sample).1.words 4096 ≡ 4128)
    × ((bucket_alloc identity bump sample).1.words 5024 ≡ 2300)
unfolding bucket_alloc link_buckets bucket_size max_align
more_elements = (refl, refl, refl)

-- a segment of 4 entries behind a directory that is full, and twice as large then
full_dir : HashTable
full_dir = record sample { dsize = 1; max_bucket = 3 }

more_segments :
    ((ensure_segment identity bump 1 full_dir).0 ≡ true)
    × ((ensure_segment identity bump 1 full_dir).1.dsize ≡ 2)
    × ((ensure_segment identity bump 1 full_dir).1.dir 1 ≡ 4096)
    × ((ensure_segment identity bump 1 full_dir).1.words 4120 ≡ 0)
unfolding ensure_segment dir_realloc new_segment seg_alloc clear_words full_dir
more_segments = (refl, refl, refl, refl)
