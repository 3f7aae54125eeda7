-- ===== src/ShmemQueue/Laws.antt =====
-- The queue as a list: what a ring is, insertion at the tail, the walk along it.
use postgres_v.Base.{
  ◌-◌, Option, none, ℕ, ◌≡◌, refl, true, false, some, List, [], ◌∷◌, ◌++◌, arith, ◌==◌,
}
use postgres_v.Rings.{
  Links, store, Seg, Ring, Lacks, Distinct, last, head_or, Lacks-last, Seg-last, Seg-at, inserted,
  Seg-inserted,
}
use postgres_v.ShmemQueue.{
  shm_queue_next, shm_ptr_valid, shm_queue_init, shm_queue_insert_before, shm_queue_empty,
}

module _ (shmem_base : ℕ) where
  abbrev pub IsOffset : ℕ → Type 0
  IsOffset o = shm_ptr_valid shmem_base o ≡ true

  -- On a queue of distinct elements, `shm_queue_insert_before` of the head puts an element that is
  -- not on it behind the last one. The offsets of the head and of the element are valid.
  insert_before-Ring :
      (m : Links) (head e : ℕ) (xs : List ℕ)
      → Ring m head xs
      → Distinct (head ∷ xs)
      → Lacks e (head ∷ xs)
      → IsOffset head
      → IsOffset e
      → (m2 : Links) × (shm_queue_insert_before shmem_base head e m ≡ some m2)
        × Ring m2 head (xs ++ e ∷ [])
  unfolding shm_queue_insert_before
  insert_before-Ring m head e xs t d out vh ve =
      let (ep, en) = Seg-last m head head xs t in
      (
        inserted m head e (last head xs),
        rw (vh, ve, ep, en) refl,
        Seg-inserted m head head e xs t out out.0 d.0 d,
      )

  -- A queue that `shm_queue_init` makes is a ring without elements, and `shm_queue_empty` says
  -- of any queue of distinct elements whether it has none. The offset of the head is valid.
  empty-Ring :
      (m : Links) (head : ℕ) (xs : List ℕ)
      → IsOffset head
      → Ring m head xs
      → Distinct (head ∷ xs)
      → ((m2 : Links) × (shm_queue_init shmem_base head m ≡ some m2) × Ring m2 head [])
        × (shm_queue_empty shmem_base head m ≡ some (elim xs [ [] ↦ true | x ∷ ys ↦ false ]))
  unfolding shm_queue_init shm_queue_empty
  empty-Ring m head [] v (f, g) d =
      let here : (head == head) ≡ true = ground arith in
      (
        (
          record { prev = store m.prev head head; next = store m.next head head },
          rw v refl,
          (rw here refl, rw here refl),
        ),
        rw (v, f, g, here) refl,
      )
  empty-Ring m head (x ∷ xs) v t d =
      let here : (head == head) ≡ true = ground arith in
      let ne = Lacks-last head x xs d.0 in
      let back = (Seg-last m head head (x ∷ xs) t).0 in
      let no : (m.prev head == head) ≡ false = ground arith in
      (
        (
          record { prev = store m.prev head head; next = store m.next head head },
          rw v refl,
          (rw here refl, rw here refl),
        ),
        rw (v, no) refl,
      )

  -- what the walk gives behind an element: the structure that the next one is part of, or NULL
  abbrev pub following : List ℕ → (link_offset : ℕ) → Option ℕ
  following [] link_offset = none
  following (y ∷ ys) link_offset = some (y - link_offset)

  -- On a queue of distinct elements, `shm_queue_next` leads from the head to the first element, and
  -- from an element to the one behind it, each as the start of its structure; from the last element
  -- it leads to NULL. The offsets of the head and of the element are valid.
  next-Ring :
      (m : Links) (head e link_offset : ℕ) (xs ys : List ℕ)
      → Ring m head (xs ++ e ∷ ys)
      → Distinct (head ∷ (xs ++ e ∷ ys))
      → IsOffset head
      → IsOffset e
      → (shm_queue_next shmem_base head head link_offset m
          ≡ some (following (xs ++ e ∷ ys) link_offset))
        × (shm_queue_next shmem_base head e link_offset m ≡ some (following ys link_offset))
  unfolding shm_queue_next
  next-Ring m head e link_offset xs ys t d vh ve = (
    goes_on head (xs ++ e ∷ ys) (first_link head (xs ++ e ∷ ys) t) d.0 vh,
    goes_on e ys (Seg-at m head head e xs ys t).1 (rest xs d.0) ve,
  )
    where
      first_link : (a : ℕ) (zs : List ℕ) → Seg m a zs head → m.next a ≡ head_or zs head
      first_link a [] (f, g) = f
      first_link a (z ∷ zs) (f, g, u) = f

      rest : (us : List ℕ) → Lacks head (us ++ e ∷ ys) → Lacks head ys
      rest [] (_, l) = l
      rest (u ∷ us) (_, l) = rest us l

      goes_on :
          (a : ℕ) (zs : List ℕ)
          → m.next a ≡ head_or zs head
          → Lacks head zs
          → IsOffset a
          → shm_queue_next shmem_base head a link_offset m ≡ some (following zs link_offset)
      goes_on a [] f out v = let here : (head == head) ≡ true = ground arith in rw (v, f, here)
      goes_on a (z ∷ zs) f (ne, out) v =
          let other : (z == head) ≡ false = ground arith in rw (v, f, other)
