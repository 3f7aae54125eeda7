-- ===== src/BufferPool/Pins.antt =====
-- What pins, unpins and requests for a free buffer do to the free list.
use mathlib.Core.Path.{subst}
use postgres_v.Base.{
  ℕ, ◌+◌, ◌<◌, ◌≡◌, refl, sym, ap, ◌∙◌, inl, inr, true, false, ◌&&◌, Option, none, some, List, [],
  ◌∷◌, ◌++◌, arith, ltb, ◌==◌, if◌then◌else◌, All, All-parts, Bool-cases,
}
use postgres_v.Rings.{Lacks, Distinct-without, Seg-at, last, head_or}
use postgres_v.BufferPool.{
  Pool, invalid_descriptor, is_in_queue, remove_from_freelist, count_pin, count_unpin, mark_free,
  pin_buffer, unpin_buffer, get_free_buffer,
}
use postgres_v.BufferPool.Valid.{
  IsQueued, IsOff, IsPool, unqueue-IsPool, count_pin-IsPool, count_unpin-IsPool, enqueue-IsPool,
  IsOff-not_in_queue,
}

count_pin-first :
    (p : Pool) (b : ℕ)
    → IsQueued p b
    → ((count_pin b (remove_from_freelist b p)).refcount b ≡ 1)
      × ((count_pin b (remove_from_freelist b p)).private_ref_count b ≡ 1)
unfolding count_pin remove_from_freelist
count_pin-first p b q =
    let here : (b == b) ≡ true = ground arith in
    let z : (p.private_ref_count b == 0) ≡ true = let m = q.mine in ground arith in
    let r = q.unpinned in let m = q.mine in (rw (z, here, r) refl, rw (here, m) refl)

count_unpin_lem :
    (p : Pool) (b : ℕ)
    → 0 < p.refcount b
    → 0 < p.private_ref_count b
    → ((count_unpin b p).private_ref_count b + 1 ≡ p.private_ref_count b)
      × ((count_unpin b p).refcount b + (if p.private_ref_count b == 1 then 1 else 0)
          ≡ p.refcount b)
unfolding count_unpin
count_unpin_lem p b pos mine = ground arith

-- the buffer that is queued between `xs` and `ys`
module _ (p : Pool) (b : ℕ) (xs ys : List ℕ) (v : IsPool p (xs ++ b ∷ ys)) where
  queued_lem : is_in_queue p b ≡ true
  unfolding is_in_queue
  queued_lem =
      let a = p.free_list_descriptor in
      let (qx, qb, qy) = All-parts (IsQueued p) xs b ys v.queued in
      let (ep, en) = Seg-at p.links a a b xs ys v.ring in
      let small = v.limit in
      let lp = below a xs small (All-buffers xs qx) in
      let ln = below_head ys (All-buffers ys qy) in
      let marked = qb.marked in
      let e1 : (p.links.next b == invalid_descriptor) ≡ false = ground arith in
      let e2 : (p.links.prev b == invalid_descriptor) ≡ false = ground arith in
      rw (e1, e2, marked) refl
    where
      All-buffers : (zs : List ℕ) → All (IsQueued p) zs → All (λ z. z < invalid_descriptor) zs
      All-buffers [] q = tt
      All-buffers (z ∷ zs) (q, r) =
          ((let lt = q.buffer in let l = v.limit in omega arith), All-buffers zs r)

      below :
          (z : ℕ) (zs : List ℕ)
          → z < invalid_descriptor
          → All (λ z. z < invalid_descriptor) zs
          → last z zs < invalid_descriptor
      below z [] lt l = lt
      below z (w ∷ zs) lt (lw, l) = below w zs lw l

      below_head :
          (zs : List ℕ)
          → All (λ z. z < invalid_descriptor) zs
          → head_or zs p.free_list_descriptor < invalid_descriptor
      below_head [] l = v.limit
      below_head (w ∷ zs) (lw, l) = lw

  -- A pin of a buffer that is on the free list, wherever it stands there, takes it off, leaves the
  -- others on the list in their order, and counts one pin, of this backend.
  pin_buffer-queued :
      (q : Pool) × (pin_buffer b p ≡ some q)
      × IsPool q (xs ++ ys)
      × (q.refcount b ≡ 1)
      × (q.private_ref_count b ≡ 1)
  unfolding pin_buffer count_pin
  pin_buffer-queued =
      let (qx, qb, qy) = All-parts (IsQueued p) xs b ys v.queued in
      let r = remove_from_freelist b p in
      let out = (Distinct-without b (p.free_list_descriptor ∷ xs) ys v.distinct).0.1 in
      let e0 : (p.refcount b == 0) ≡ true = let h = qb.unpinned in ground arith in
      let (c0, c1) = count_pin-first p b qb in
      (
        count_pin b r,
        rw (e0, queued_lem) refl,
        count_pin-IsPool r b (xs ++ ys) (unqueue-IsPool p b xs ys v) out,
        c0,
        c1,
      )

-- A pin of a buffer that is off the free list and pinned already leaves the list as it is, counts one
-- pin more of this backend, and one more of all if it is the first of this backend.
pin_buffer-pinned :
    (p : Pool) (b : ℕ) (order : List ℕ)
    → IsPool p order
    → b < p.free_list_descriptor
    → Lacks b order
    → 0 < p.refcount b
    → (q : Pool) × (pin_buffer b p ≡ some q)
      × IsPool q order
      × (q.private_ref_count b ≡ p.private_ref_count b + 1)
      × (q.refcount b ≡ p.refcount b + (if p.private_ref_count b == 0 then 1 else 0))
unfolding pin_buffer count_pin
pin_buffer-pinned p b order v lt off pos =
    let e0 : (p.refcount b == 0) ≡ false = ground arith in
    let o = IsOff-not_in_queue p b (v.others b lt off) in
    (count_pin b p, rw (e0, o) refl, count_pin-IsPool p b order v off, ground arith, ground arith)

-- the list after an unpin
abbrev pub after_unpin : Pool → ℕ → List ℕ → List ℕ
after_unpin p b order =
    if p.refcount b == 1 && p.private_ref_count b == 1 then order ++ b ∷ [] else order

-- An unpin of a buffer that this backend has pinned takes one of its pins back, and one of all if it
-- was the last of this backend. If no pin is left the buffer goes to the end of the free list, behind
-- those that were unpinned before it; otherwise the list stays as it is.
pub unpin_buffer-after_unpin :
    (p : Pool) (b : ℕ) (order : List ℕ)
    → IsPool p order
    → b < p.free_list_descriptor
    → Lacks b order
    → 0 < p.refcount b
    → 0 < p.private_ref_count b
    → (q : Pool) × (unpin_buffer b p ≡ some q)
      × IsPool q (after_unpin p b order)
      × (q.private_ref_count b + 1 ≡ p.private_ref_count b)
      × (q.refcount b + (if p.private_ref_count b == 1 then 1 else 0) ≡ p.refcount b)
unfolding unpin_buffer count_unpin mark_free
unpin_buffer-after_unpin p b order v lt off pos mine =
    let q = count_unpin b p in
    let w = count_unpin-IsPool p b order v off in
    let counts = count_unpin_lem p b pos mine in
    let g1 : ltb 0 (p.refcount b) ≡ true = ground arith in
    let g2 : ltb 0 (p.private_ref_count b) ≡ true = ground arith in
    elim (Bool-cases (p.refcount b == 1 && p.private_ref_count b == 1)) [
      | inl e ↦
          let z : q.refcount b ≡ 0 = ground arith in
          let zm : q.private_ref_count b ≡ 0 = ground arith in
          let (s, run, valid, same, same2) = enqueue-IsPool q b order w off lt z zm in
          let ez : (q.refcount b == 0) ≡ true = ground arith in
          (
            mark_free b s,
            rw (g1, g2, ez, run) refl,
            rw e valid,
            ap (λ (f : ℕ → ℕ). f b + 1) same2 ∙ counts.0,
            ap (λ (f : ℕ → ℕ). f b + (if p.private_ref_count b == 1 then 1 else 0)) same ∙ counts.1,
          )
      | inr e ↦
          let ez : (q.refcount b == 0) ≡ false = ground arith in
          (q, rw (g1, g2, ez) refl, rw e w, counts.0, counts.1)
    ]

-- what a request for a free buffer gets from the list
abbrev pub Gets : Pool → List ℕ → Option ℕ × Pool → Type 0
Gets p [] (b, q) = (b ≡ none) × (q ≡ p)
Gets p (x ∷ ys) (b, q) =
    (b ≡ some x)
    × IsPool q ys
    × IsOff q x
    × (q.refcount ≡ p.refcount)
    × (q.private_ref_count ≡ p.private_ref_count)

-- A request for a free buffer returns the first of the free list, the one that has been unpinned
-- longest, takes it off, leaves the others in order and changes no count; NULL is returned, with
-- nothing changed, exactly when the list is empty.
pub get_free_buffer-Gets :
    (p : Pool) (order : List ℕ) → IsPool p order → Gets p order (get_free_buffer p)
unfolding get_free_buffer
get_free_buffer-Gets p [] v =
    let e = v.ring.0 in
    let here : (p.free_list_descriptor == p.links.next p.free_list_descriptor) ≡ true =
      ground arith in
    rw (get_free_buffer, here) (refl, refl)
get_free_buffer-Gets p (x ∷ ys) v =
    let e = v.ring.0 in
    let q = v.queued.0.buffer in
    let other : (p.free_list_descriptor == x) ≡ false = ground arith in
    let w = unqueue-IsPool p x [] ys v in
    let off = w.others x q v.distinct.1.0 in
    subst
      (λ b.
        Gets p (x ∷ ys)
          (if p.free_list_descriptor == b then (none, p) else (some b, remove_from_freelist b p)))
      (sym e) (rw other (refl, w, off, same.0, same.1))
  where
    same :
        ((remove_from_freelist x p).refcount ≡ p.refcount)
        × ((remove_from_freelist x p).private_ref_count ≡ p.private_ref_count)
    same = (refl, refl)
