-- ===== src/ShmemQueue/Delete.antt =====
-- Deletion from the queue.
use postgres_v.Base.{ℕ, ◌≡◌, refl, true, some, List, [], ◌∷◌, ◌++◌, arith, ◌==◌, All}
use postgres_v.ShmemQueue.{invalid_offset, shm_queue_delete}
use postgres_v.ShmemQueue.Laws.{IsOffset}
use postgres_v.Rings.{
  Links, Ring, Distinct, last, head_or, Seg-at, unlinked, cleared, Seg-unlinked, Seg-cleared,
  Distinct-without,
}

module _ (shmem_base : ℕ) where
  last_valid :
      (a : ℕ) (xs ys : List ℕ)
      → IsOffset shmem_base a
      → All (IsOffset shmem_base) (xs ++ ys)
      → IsOffset shmem_base (last a xs) × All (IsOffset shmem_base) ys
  last_valid a [] ys v vs = (v, vs)
  last_valid a (x ∷ xs) ys v (vx, vs) = last_valid x xs ys vx vs

  head_valid :
      (z : ℕ) (ys : List ℕ)
      → IsOffset shmem_base z
      → All (IsOffset shmem_base) ys
      → IsOffset shmem_base (head_or ys z)
  head_valid z [] v vs = v
  head_valid z (y ∷ ys) v (vy, _) = vy

  -- On a queue of distinct elements with valid offsets, `shm_queue_delete` of one of them, wherever
  -- it stands, leaves the queue of the others in their order, and clears the links of the element.
  pub delete-Ring :
      (m : Links) (head e : ℕ) (xs ys : List ℕ)
      → Ring m head (xs ++ e ∷ ys)
      → Distinct (head ∷ (xs ++ e ∷ ys))
      → IsOffset shmem_base head
      → All (IsOffset shmem_base) (xs ++ e ∷ ys)
      → (m2 : Links) × (shm_queue_delete shmem_base e m ≡ some m2)
        × Ring m2 head (xs ++ ys)
        × (m2.prev e ≡ invalid_offset)
        × (m2.next e ≡ invalid_offset)
  unfolding shm_queue_delete
  delete-Ring m head e xs ys t d vh vs =
      let (ep, en) = Seg-at m head head e xs ys t in
      let (vp, (ve, vy)) = last_valid head xs (e ∷ ys) vh vs in
      let vn = head_valid head ys vh vy in
      let here : (e == e) ≡ true = ground arith in
      (
        cleared (unlinked m (last head xs) (head_or ys head)) e invalid_offset,
        rw (ep, en, ve, vn, vp) refl,
        Seg-cleared (unlinked m (last head xs) (head_or ys head)) head head e invalid_offset
            (xs ++ ys) (Seg-unlinked m head head e xs ys t d d.0)
            (Distinct-without e (head ∷ xs) ys d).0 (Distinct-without e (head ∷ xs) ys d).0.0,
        rw here refl,
        rw here refl,
      )
