-- ===== src/DynaHash.antt =====
-- Dynamic hash tables: src/backend/utils/hash/dynahash.c with src/include/rdbms/utils/hsearch.h.
--
-- Pointers go by their offset from `segbase`, 0 is NULL and INVALID_INDEX. `words` has the
-- BUCKET_INDEX at an offset: the entries of segments, 8 bytes each, and the field `next` of
-- elements, which stands first. A key is the number that its `keysize` bytes make, so that memcmp
-- compares numbers. The hash function and the allocator are arguments; the allocator may use the
-- table, which shows what was given out. No field of the type long is negative: `nkeys` stays 0
-- where the source, without assertions, goes to -1. Statistics are left out, and so are the memory
-- that `dir_realloc` frees and the assertions on pointers.
pub mod Create
pub mod Sequence
pub mod Chains
pub mod Keys
pub mod Home
pub mod Valid
pub mod Search
pub mod Remove
pub mod Enter
pub mod Split
pub mod Grow
pub mod Expand
pub mod Insert
pub mod Examples
use Prim.Native.Nat.{bit_and, bit_or}
use postgres_v.Base.{
  Option, none, some, ℕ, zero, suc, ◌+◌, ◌-◌, ◌*◌, ◌/◌, ◌%◌, ◌^◌, Bool, true, false, not, ◌&&◌,
  ◌||◌, ltb, leb, ◌==◌, if◌then◌else◌, max_align,
}
use postgres_v.Rings.{store}

pub record HashTable : Type 0 where
  pub words : ℕ → ℕ
  pub key : ℕ → ℕ
  pub segbase : ℕ
  pub dir : ℕ → ℕ
  pub dsize : ℕ
  pub ssize : ℕ
  pub sshift : ℕ
  pub max_bucket : ℕ
  pub high_mask : ℕ
  pub low_mask : ℕ
  pub ffactor : ℕ
  pub nkeys : ℕ
  pub nsegs : ℕ
  pub keysize : ℕ
  pub datasize : ℕ
  pub max_dsize : ℕ
  pub free_bucket_index : ℕ

-- NO_MAX_DSIZE, -1
abbrev pub no_max_dsize : ℕ
no_max_dsize = 2 ^ 64 - 1

pub data HashAction : Type 0 where
  hash_find hash_enter hash_remove hash_find_save hash_remove_saved : HashAction

-- the result of `hash_search`: the key of an element, NULL, or TRUE
pub data Answer : Type 0 where
  element : (index : ℕ) → Answer
  null : Answer
  is_true : Answer

-- `*found_ptr`, the answer and the table; `undefined` is the use of a variable without a value
pub data Outcome : Type 0 where
  done : (found : Bool) → Answer → HashTable → Outcome
  failed_assertion : Outcome
  undefined : Outcome

-- &segp[segment_ndx] of a bucket
pub place : HashTable → (bucket : ℕ) → ℕ
place t bucket = t.dir (bucket / 2 ^ t.sshift) + 8 * bit_and bucket (t.ssize - 1)

-- the collision chain is followed from the index at `prev`, for a round of fuel for each element and
-- one for the end: the last `prev_index_ptr`, and the index there
pub follow_chain : (fuel : ℕ) → HashTable → (k prev : ℕ) → ℕ × ℕ
follow_chain zero t k prev = (prev, t.words prev)
follow_chain (suc fuel) t k prev =
    let curr = t.words prev in
    let rest = follow_chain fuel t k curr in
    if curr == 0 || t.key curr == k then (prev, curr) else rest

module _ (hash : ℕ → ℕ) (alloc : HashTable → (size : ℕ) → ℕ) where
  pub call_hash : HashTable → (k : ℕ) → ℕ
  call_hash t k =
      let bucket = bit_and (hash k) t.high_mask in
      (if ltb t.max_bucket bucket then bit_and bucket t.low_mask else bucket) % 2 ^ 32

  -- the words of `n` entries from `a` on are 0
  pub clear_words : (n a : ℕ) → (ℕ → ℕ) → ℕ → ℕ
  clear_words n a f p = if leb a p && ltb p (a + 8 * n) then 0 else f p

  -- the offset, or 0, and the table
  pub seg_alloc : HashTable → ℕ × HashTable
  seg_alloc t =
      let a = alloc t (8 * t.ssize) in
      if a == 0 then (0, t) else (a, record t { words = clear_words t.ssize a t.words })

  -- the loop of `bucket_alloc` for `n` buckets from `a` on
  pub link_buckets : (n size a : ℕ) → (ℕ → ℕ) → ℕ → ℕ
  link_buckets zero size a f = f
  link_buckets (suc n) size a f = link_buckets n size (a + size) (store f a (a + size))

  pub bucket_size : HashTable → ℕ
  bucket_size t = max_align (8 + t.keysize + t.datasize)

  -- BUCKET_ALLOC_INCR is 30
  pub bucket_alloc : HashTable → Bool × HashTable
  bucket_alloc t =
      let size = bucket_size t in
      let a = alloc t (30 * size) in
      if a == 0 then (false, t) else (
        true,
        record t {
          free_bucket_index = a;
          words = store (link_buckets 30 size a t.words) (a + 29 * size) t.free_bucket_index;
        },
      )

  -- the copy of the directory has the entries of the old one, and 0 in the new ones
  pub dir_realloc : HashTable → Bool × HashTable
  dir_realloc t =
      let new_dsize = 2 * t.dsize in
      if not (t.max_dsize == no_max_dsize) || alloc t (8 * new_dsize) == 0 then (false, t) else (
        true,
        record t {
          dir = λ i. if leb t.dsize i && ltb i new_dsize then 0 else t.dir i;
          dsize = new_dsize;
        },
      )

  -- the entry of the directory gets the segment, or 0
  pub new_segment : (new_segnum : ℕ) → HashTable → Bool × HashTable
  new_segment n t =
      let (a, u) = seg_alloc t in
      let v = record u { dir = store u.dir n a } in
      if a == 0 then (false, v) else (true, record v { nsegs = v.nsegs + 1 })

  -- `if (new_segnum >= hctl->nsegs)` with its block
  pub ensure_segment : (new_segnum : ℕ) → HashTable → Bool × HashTable
  ensure_segment n t =
      if leb t.nsegs n
      then (if leb t.dsize n
          then (let (grown, u) = dir_realloc t in if grown then new_segment n u else (false, u))
          else new_segment n t)
      else (true, t)

  -- `max_bucket` and the masks with one bucket more
  pub next_bucket : HashTable → HashTable
  next_bucket t =
      let n = t.max_bucket + 1 in
      record t {
        max_bucket = n;
        low_mask = if ltb t.high_mask n then t.high_mask else t.low_mask;
        high_mask = if ltb t.high_mask n then bit_or n t.high_mask else t.high_mask;
      }

  -- the loop that relocates records, from the element `chain_index` on; `old` and `newbi` are the
  -- places that get the next element of each chain. A round of fuel for each element.
  pub split_loop : (fuel old_bucket chain_index old newbi : ℕ) → HashTable → HashTable
  split_loop zero old_bucket chain_index old newbi t = record t {
    words = store (store t.words old 0) newbi 0;
  }
  split_loop (suc fuel) old_bucket chain_index old newbi t =
      let next_index = t.words chain_index in
      let stays = call_hash t (t.key chain_index) == old_bucket in
      let u = record t { words = store t.words (if stays then old else newbi) chain_index } in
      let rest =
        split_loop fuel old_bucket next_index (if stays then chain_index else old)
          (if stays then newbi else chain_index) u in
      if chain_index == 0 then record t { words = store (store t.words old 0) newbi 0 } else rest

  pub expand_table : (fuel : ℕ) → HashTable → Bool × HashTable
  expand_table fuel t =
      let new_bucket = t.max_bucket + 1 in
      let old_bucket = bit_and new_bucket t.low_mask in
      let (ready, u) = ensure_segment (new_bucket / 2 ^ t.sshift) t in
      let v = next_bucket u in
      if ready
      then (
        true,
        split_loop fuel old_bucket (v.words (place v old_bucket)) (place v old_bucket)
            (place v new_bucket) v,
      )
      else (false, u)

  -- the free element taken by `hash_search`, put behind `prev` with the key
  pub take_free : (prev k : ℕ) → HashTable → HashTable
  take_free prev k t =
      let curr = t.free_bucket_index in
      let n = t.words curr in
      record t {
        free_bucket_index = n;
        words = store (store t.words prev curr) curr 0;
        key = store t.key curr k;
        nkeys = t.nkeys + 1;
      }

  -- the element behind `prev` goes to the front of the free list
  pub remove_element : (prev curr : ℕ) → HashTable → HashTable
  remove_element prev curr t =
      let f = store t.words prev (t.words curr) in
      record t {
        nkeys = t.nkeys - 1;
        words = store f curr t.free_bucket_index;
        free_bucket_index = curr;
      }

  -- the end of `hash_search`, which inserts; `asserts` says whether assertions are compiled
  pub enter : (asserts : Bool) → (fuel prev k : ℕ) → HashTable → Outcome
  enter asserts fuel prev k t =
      let (given, u) = if t.free_bucket_index == 0 then bucket_alloc t else (true, t) in
      let v = take_free prev k u in
      let w = if ltb v.ffactor (v.nkeys / (v.max_bucket + 1)) then (expand_table fuel v).1 else v in
      if not given
      then done false null u
      else (if asserts && not (u.free_bucket_index == 0)
          then failed_assertion
          else done false (element u.free_bucket_index) w)

  -- HASH_FIND_SAVE also saves the element, for HASH_REMOVE_SAVED, which does not read it
  pub hash_search : (asserts : Bool) → (fuel : ℕ) → HashTable → (k : ℕ) → HashAction → Outcome
  hash_search asserts fuel t k hash_remove_saved = undefined
  hash_search asserts fuel t k hash_find =
      let (prev, curr) = follow_chain fuel t k (place t (call_hash t k)) in
      if curr == 0 then done false is_true t else done true (element curr) t
  hash_search asserts fuel t k hash_find_save =
      let (prev, curr) = follow_chain fuel t k (place t (call_hash t k)) in
      if curr == 0 then done false is_true t else done true (element curr) t
  hash_search asserts fuel t k hash_remove =
      let (prev, curr) = follow_chain fuel t k (place t (call_hash t k)) in
      if curr == 0
      then done false is_true t
      else (if asserts && t.nkeys == 0
          then failed_assertion
          else done true (element curr) (remove_element prev curr t))
  hash_search asserts fuel t k hash_enter =
      let (prev, curr) = follow_chain fuel t k (place t (call_hash t k)) in
      if curr == 0 then enter asserts fuel prev k t else done true (element curr) t

-- the static variables of `hash_seq`
pub record Scan : Type 0 where
  pub cur_bucket : ℕ
  pub cur_index : ℕ

-- hash_seq(NULL)
abbrev pub scan_start : Scan
scan_start = record { cur_bucket = 0; cur_index = 0 }

-- A round of fuel for each bucket that is passed, one for its element, and one for the test behind the
-- last one; `none` when there were not enough.
pub hash_seq : (fuel : ℕ) → HashTable → Scan → Option (Answer × Scan)
hash_seq zero t s = none
hash_seq (suc fuel) t s =
    let b = s.cur_bucket in
    let next = t.words s.cur_index in
    let first = t.words (place t b) in
    let rest =
      hash_seq fuel t
        (record { cur_bucket = if first == 0 then b + 1 else b; cur_index = first }) in
    if leb b t.max_bucket
    then (if s.cur_index == 0
        then (if t.segbase + t.dir (b / 2 ^ t.sshift) == 0 then some (null, s) else rest)
        else some (
          element s.cur_index,
          record { cur_bucket = if next == 0 then b + 1 else b; cur_index = next },
        ))
    else some (is_true, s)
