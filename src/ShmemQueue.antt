-- ===== src/ShmemQueue.antt =====
-- Queues in shared memory: src/backend/storage/ipc/shmqueue.c with the macros of
-- src/include/rdbms/storage/shmem.h.
--
-- The memory maps the offset of a ShmemQueue, from `ShmemBase` on, to its links, which are offsets
-- too; offsets are unsigned 64-bit numbers. `none` is an assertion that fails.
pub mod Delete
pub mod Laws
pub mod Examples
use postgres_v.Base.{
  ℕ, ◌+◌, ◌-◌, ◌%◌, ◌^◌, Bool, true, false, ◌&&◌, Option, none, some, ltb, ◌==◌, if◌then◌else◌,
}
use postgres_v.Rings.{Links, store}

-- -1 as an unsigned number
abbrev pub invalid_offset : ℕ
invalid_offset = 2 ^ 64 - 1

module _ (shmem_base : ℕ) where
  -- SHM_PTR_VALID of the pointer to the offset
  abbrev pub shm_ptr_valid : ℕ → Bool
  shm_ptr_valid offset = ltb shmem_base ((shmem_base + offset) % 2 ^ 64)

  pub shm_queue_init : (queue : ℕ) → Links → Option Links
  shm_queue_init queue m =
      if shm_ptr_valid queue
      then some (record { prev = store m.prev queue queue; next = store m.next queue queue })
      else none

  pub shm_queue_elem_init : (queue : ℕ) → Links → Option Links
  shm_queue_elem_init queue m =
      if shm_ptr_valid queue
      then some (record {
        prev = store m.prev queue invalid_offset;
        next = store m.next queue invalid_offset;
      })
      else none

  pub shm_queue_delete : (queue : ℕ) → Links → Option Links
  shm_queue_delete queue m =
      let next_elem = m.next queue in
      let prev_elem = m.prev queue in
      if shm_ptr_valid queue && (shm_ptr_valid next_elem && shm_ptr_valid prev_elem)
      then some (record {
        prev = store (store m.prev next_elem prev_elem) queue invalid_offset;
        next = store (store m.next prev_elem next_elem) queue invalid_offset;
      })
      else none

  pub shm_queue_insert_before : (queue elem : ℕ) → Links → Option Links
  shm_queue_insert_before queue elem m =
      let prev_ptr = m.prev queue in
      if shm_ptr_valid queue && shm_ptr_valid elem
      then some (record {
        prev = store (store m.prev elem prev_ptr) queue elem;
        next = store (store m.next elem (m.next prev_ptr)) prev_ptr elem;
      })
      else none

  -- The outer `none` is the failed assertion, the inner one NULL; the result is an offset.
  pub shm_queue_next : (queue cur_elem link_offset : ℕ) → Links → Option (Option ℕ)
  shm_queue_next queue cur_elem link_offset m =
      let elem_ptr = m.next cur_elem in
      if shm_ptr_valid cur_elem
      then (if elem_ptr == queue then some none else some (some (elem_ptr - link_offset)))
      else none

  pub shm_queue_empty : (queue : ℕ) → Links → Option Bool
  shm_queue_empty queue m =
      if shm_ptr_valid queue
      then (if m.prev queue == queue
          then (if m.next queue == queue then some true else none)
          else some false)
      else none
