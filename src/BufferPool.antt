-- ===== src/BufferPool.antt =====
-- The buffer pool's replacement strategy: src/backend/storage/buffer/freelist.c, and the part of
-- `init_buffer_pool` in src/backend/storage/buffer/buf_init.c that links the descriptors.
--
-- Descriptors go by their index, which is their `buf_id`; the one at `free_list_descriptor`, behind
-- the buffers, is the head of the free list (`SharedFreeList`). Their fields stand in a map for each:
-- `free_next` and `free_prev` in `links`, `flags`, `refcount`, and this backend's PrivateRefCount.
-- A negative descriptor is its 32 bits; counts are not large enough to wrap. `none` is an assertion
-- that fails. The caller holds the buffer manager's spin lock.
pub mod Valid
pub mod Pins
pub mod Init
pub mod Examples
use postgres_v.Base.{
  ℕ, zero, suc, ◌+◌, ◌-◌, ◌*◌, ◌/◌, ◌%◌, ◌^◌, Bool, true, false, not, ◌&&◌, Option, none, some, ltb,
  ◌==◌, if◌then◌else◌,
}
use postgres_v.Rings.{Links, store, inserted, unlinked, cleared}

-- INVALID_DESCRIPTOR, -3
abbrev pub invalid_descriptor : ℕ
invalid_descriptor = 2 ^ 32 - 3

pub record Pool : Type 0 where
  pub free_list_descriptor : ℕ
  pub links : Links
  pub flags : ℕ → ℕ
  pub refcount : ℕ → ℕ
  pub private_ref_count : ℕ → ℕ

-- BM_FREE, the bit 1 << 4: the test, and the two assignments to it
abbrev pub bm_free : ℕ
bm_free = 16

abbrev pub has_free : ℕ → Bool
has_free flags = flags / bm_free % 2 == 1

abbrev pub set_free : ℕ → ℕ
set_free flags = if has_free flags then flags else flags + bm_free

abbrev pub unset_free : ℕ → ℕ
unset_free flags = if has_free flags then flags - bm_free else flags

-- the assertions of IsInQueue and NotInQueue
pub is_in_queue : Pool → ℕ → Bool
is_in_queue p b =
    not (p.links.next b == invalid_descriptor)
    && (not (p.links.prev b == invalid_descriptor) && has_free (p.flags b))

pub not_in_queue : Pool → ℕ → Bool
not_in_queue p b =
    p.links.next b == invalid_descriptor
    && (p.links.prev b == invalid_descriptor && not (has_free (p.flags b)))

pub add_buffer_to_freelist : ℕ → Pool → Option Pool
unfolding not_in_queue
add_buffer_to_freelist b p =
    let head = p.free_list_descriptor in
    let prev = p.links.prev head in
    if not_in_queue p b then some (record p { links = inserted p.links head b prev }) else none

-- `b` leaves the queue: its neighbours are linked, its links are INVALID_DESCRIPTOR, BM_FREE is off
pub remove_from_freelist : ℕ → Pool → Pool
remove_from_freelist b p = record p {
  links = cleared (unlinked p.links (p.links.prev b) (p.links.next b)) b invalid_descriptor;
  flags = store p.flags b (unset_free (p.flags b));
}

-- the counts at the end of `pin_buffer`
pub count_pin : ℕ → Pool → Pool
count_pin b p = record p {
  refcount =
      if p.private_ref_count b == 0 then store p.refcount b (p.refcount b + 1) else p.refcount;
  private_ref_count = store p.private_ref_count b (p.private_ref_count b + 1);
}

pub pin_buffer : ℕ → Pool → Option Pool
unfolding is_in_queue not_in_queue remove_from_freelist count_pin
pin_buffer b p =
    if p.refcount b == 0
    then (if is_in_queue p b then some (count_pin b (remove_from_freelist b p)) else none)
    else (if not_in_queue p b then some (count_pin b p) else none)

-- the counts at the start of `unpin_buffer`
pub count_unpin : ℕ → Pool → Pool
count_unpin b p = record p {
  private_ref_count = store p.private_ref_count b (p.private_ref_count b - 1);
  refcount =
      if p.private_ref_count b - 1 == 0 then store p.refcount b (p.refcount b - 1) else p.refcount;
}

pub mark_free : ℕ → Pool → Pool
mark_free b p = record p { flags = store p.flags b (set_free (p.flags b)) }

pub unpin_buffer : ℕ → Pool → Option Pool
unfolding add_buffer_to_freelist count_unpin mark_free
unpin_buffer b p =
    let q = count_unpin b p in
    if ltb 0 (p.refcount b) && ltb 0 (p.private_ref_count b)
    then (if q.refcount b == 0
        then elim (add_buffer_to_freelist b q) [ none ↦ none | some r ↦ some (mark_free b r) ]
        else some q)
    else none

-- The buffer, or `none` for NULL when all are pinned. The reference count is left to the caller.
pub get_free_buffer : Pool → Option ℕ × Pool
unfolding remove_from_freelist
get_free_buffer p =
    let b = p.links.next p.free_list_descriptor in
    if p.free_list_descriptor == b then (none, p) else (some b, remove_from_freelist b p)

-- The loop of `init_buffer_pool` for the descriptors from `i` on, `rounds` of them. The flags are
-- BM_DELETED, BM_FREE and BM_VALID.
pub link_descriptors : (rounds i : ℕ) → Pool → Pool
link_descriptors zero i p = p
link_descriptors (suc rounds) i p = link_descriptors rounds (i + 1) (record p {
  links = record {
    next = store p.links.next i (i + 1);
    prev = store p.links.prev i ((i + 2 ^ 32 - 1) % 2 ^ 32);
  };
  flags = store p.flags i (8 + bm_free + 4);
  refcount = store p.refcount i 0;
})

-- `init_freelist (true)`: the head's flags are 0, and it goes between descriptor 0 and its successor
pub init_freelist : Pool → Pool
init_freelist p =
    let head = p.free_list_descriptor in
    let first = p.links.next 0 in
    record p {
      flags = store p.flags head 0;
      links = record {
        next = store (store p.links.next head first) 0 head;
        prev = store (store p.links.prev head 0) first head;
      };
    }

-- The first backend's `init_buffer_pool`, for `nbuffers` buffers. `calloc` zeroes the counts.
pub init_buffer_pool : (nbuffers : ℕ) → Pool → Pool
unfolding link_descriptors init_freelist
init_buffer_pool nbuffers p =
    let q = link_descriptors nbuffers 0 (record p { free_list_descriptor = nbuffers }) in
    record (init_freelist (record q {
      links = record {
        prev = store q.links.prev 0 (nbuffers - 1);
        next = store q.links.next (nbuffers - 1) 0;
      };
    })) { private_ref_count = λ b. 0 }
