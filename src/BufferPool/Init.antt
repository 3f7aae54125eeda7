-- ===== src/BufferPool/Init.antt =====
-- The free list that the first backend sets up.
use mathlib.Core.Path.{subst}
use postgres_v.Base.{
  ℕ, zero, suc, ◌+◌, ◌-◌, ◌%◌, ◌^◌, ◌≤◌, ◌<◌, ◌≡◌, ◌≢◌, refl, sym, ◌∙◌, inl, inr, true, false, ◌&&◌,
  List, [], ◌∷◌, ◌++◌, arith, ltb, leb, ◌==◌, if◌then◌else◌, All, All-split, All-append, Bool-cases,
  ==→eq, ==→ne,
}
use postgres_v.Rings.{Links, store, Seg, Ring, Lacks, Distinct, Distinct-append}
use postgres_v.BufferPool.{
  Pool, invalid_descriptor, bm_free, link_descriptors, init_freelist, init_buffer_pool,
}
use postgres_v.BufferPool.Valid.{IsQueued, IsPool}

-- a, a + 1, … , `count` of them
abbrev pub from : (a count : ℕ) → List ℕ
from a zero = []
from a (suc k) = a ∷ from (a + 1) k

-- the buffers as the first backend queues them: all, number 0 last
abbrev pub initial : ℕ → List ℕ
initial nbuffers = from 1 (nbuffers - 1) ++ 0 ∷ []

abbrev Within : (i rounds j : ℕ) → Type 0
Within i rounds j = (i ≤ j) × (j < i + rounds)

-- what the loop sets, from descriptor `i` on
link_descriptors_lem :
    (rounds i : ℕ) (p : Pool) (j : ℕ)
    → let q = link_descriptors rounds i p in
      let set = leb i j && ltb j (i + rounds) in
      (q.links.next j ≡ (if set then j + 1 else p.links.next j))
      × (q.links.prev j ≡ (if set then (j + 2 ^ 32 - 1) % 2 ^ 32 else p.links.prev j))
      × (q.flags j ≡ (if set then 28 else p.flags j))
      × (q.refcount j ≡ (if set then 0 else p.refcount j))
      × (q.free_list_descriptor ≡ p.free_list_descriptor)
unfolding link_descriptors
link_descriptors_lem zero i p j = ground arith
link_descriptors_lem (suc rounds) i p j =
    let ih =
      link_descriptors_lem rounds (i + 1)
        (record p {
          links = record {
            next = store p.links.next i (i + 1);
            prev = store p.links.prev i ((i + 2 ^ 32 - 1) % 2 ^ 32);
          };
          flags = store p.flags i (8 + bm_free + 4);
          refcount = store p.refcount i 0;
        })
        j in
    ground arith

from-All {ℓ} : (P : ℕ → Type ℓ) (a k : ℕ) → ((j : ℕ) → a ≤ j → j < a + k → P j) → All P (from a k)
from-All P a zero h = tt
from-All P a (suc k) h = (
  h a (omega arith) (omega arith),
  from-All P (a + 1) k (λ j le lt. h j (omega arith) (omega arith)),
)

from-Distinct : (a k : ℕ) → Distinct (from a k)
from-Distinct a zero = tt
from-Distinct a (suc k) =
    (from-All (λ j. a ≢ j) (a + 1) k (λ j le lt (e : a ≡ j). omega arith), from-Distinct (a + 1) k)

not-Lacks-from : (a k c : ℕ) → a ≤ c → c < a + k → Lacks c (from a k) → ⊥
not-Lacks-from a zero c le lt l = omega arith
not-Lacks-from a (suc k) c le lt (ne, l) =
    not-Lacks-from (a + 1) k c (let m : c ≢ a = ne in ground arith) (omega arith) l

-- a run of neighbours up to the last buffer, then 0, then the head
Seg-from :
    (m : Links) (a k head : ℕ)
    → ((j : ℕ) → a ≤ j → j < a + k → (m.next j ≡ j + 1) × (m.prev (j + 1) ≡ j))
    → m.next (a + k) ≡ 0
    → m.prev 0 ≡ a + k
    → m.next 0 ≡ head
    → m.prev head ≡ 0
    → Seg m a (from (a + 1) k ++ 0 ∷ []) head
Seg-from m a zero head h e f g i = let z : a + 0 ≡ a = omega arith in (rw z at e, f ∙ z, (g, i))
Seg-from m a (suc k) head h e f g i =
    let s : a + suc k ≡ a + 1 + k = omega arith in
    let (n, p) = h a (omega arith) (omega arith) in
    (
      n,
      p,
      Seg-from m (a + 1) k head (λ j le lt. h j (omega arith) (omega arith)) (rw s at e) (f ∙ s) g
          i,
    )

-- the pool behind the loop, and the one in the end
module _ (n : ℕ) (p : Pool) (few : 0 < n) where
  abbrev looped : Pool
  looped = link_descriptors n 0 (record p { free_list_descriptor = n })

  looped_lem :
      (j : ℕ)
      → j < n
      → (looped.links.next j ≡ j + 1)
        × (looped.links.prev j ≡ (j + 2 ^ 32 - 1) % 2 ^ 32)
        × (looped.flags j ≡ 28)
        × (looped.refcount j ≡ 0)
        × (looped.free_list_descriptor ≡ n)
  looped_lem j lt =
      let (e0, e1, e2, e3, e4) =
        link_descriptors_lem n 0 (record p { free_list_descriptor = n }) j in
      let set : (leb 0 j && ltb j (0 + n)) ≡ true = ground arith in
      (rw set at e0, rw set at e1, rw set at e2, rw set at e3, e4)

  abbrev done : Pool
  done = init_buffer_pool n p

  first_lem : store looped.links.next (n - 1) 0 0 ≡ (if n == 1 then 0 else 1)
  first_lem = let e = (looped_lem 0 few).0 in ground arith

  done_lem :
      (j : ℕ)
      → (done.links.next j ≡ (
          if 0 == j
          then n
          else if n == j
          then (if n == 1 then 0 else 1)
          else store looped.links.next (n - 1) 0 j))
        × (done.links.prev j ≡ (
            if (if n == 1 then 0 else 1) == j
            then n
            else if n == j
            then 0
            else if 0 == j
            then n - 1
            else looped.links.prev j))
        × (done.flags j ≡ (if n == j then 0 else looped.flags j))
        × (done.refcount j ≡ looped.refcount j)
        × (done.private_ref_count j ≡ 0)
        × (done.free_list_descriptor ≡ n)
  unfolding init_buffer_pool init_freelist
  done_lem j =
      let e = first_lem in
      let f = (looped_lem 0 few).4 in rw (f, e) (refl, refl, refl, refl, refl, refl)

  done-Ring : n < invalid_descriptor → Ring done.links n (initial n)
  done-Ring small = elim (Bool-cases (n == 1)) [
    | inl e ↦
        let one : n ≡ 1 = ==→eq _ _ e in
        let z : n - 1 ≡ 0 = omega arith in
        let (a, b, _, _, _, _) = done_lem n in
        let (c, d, _, _, _, _) = done_lem 0 in
        rw z (ground arith, ground arith, (ground arith, ground arith))
    | inr e ↦
        let many : n ≢ 1 = ==→ne _ _ e in
        let k : n - 1 ≡ suc (n - 2) = omega arith in
        let (a, b, _, _, _, _) = done_lem n in
        let (c, d, _, _, _, _) = done_lem 0 in
        let (f, g, _, _, _, _) = done_lem 1 in
        let (x, y, _, _, _, _) = done_lem (n - 1) in
        let l : 1 + (n - 2) ≡ n - 1 = omega arith in
        rw k (
          ground arith,
          ground arith,
          Seg-from done.links 1 (n - 2) n steps (rw l (ground arith)) (rw l (ground arith))
              (ground arith) (ground arith),
        )
  ]
    where
      steps :
          (j : ℕ)
          → 1 ≤ j
          → j < 1 + (n - 2)
          → (done.links.next j ≡ j + 1) × (done.links.prev (j + 1) ≡ j)
      steps j lo hi =
          let (a, b, _, _, _, _) = done_lem j in
          let (c, d, _, _, _, _) = done_lem (j + 1) in
          let (f, g, _, _, _) = looped_lem j (omega arith) in
          let (h, i, _, _, _) = looped_lem (j + 1) (omega arith) in (ground arith, ground arith)

  -- `init_buffer_pool` of the first backend, for at least one buffer and fewer than INVALID_DESCRIPTOR,
  -- leaves a pool whose free list holds every buffer, unpinned: from number 1 up, and number 0 last.
  pub init_buffer_pool-IsPool : n < invalid_descriptor → IsPool (init_buffer_pool n p) (initial n)
  init_buffer_pool-IsPool small =
      let fld = (done_lem 0).5 in
      record {
        limit = rw fld small;
        ring = subst (λ a. Ring done.links a (initial n)) (sym fld) (done-Ring small);
        distinct = subst (λ a. Distinct (a ∷ initial n)) (sym fld) order_distinct;
        queued =
            All-append (IsQueued done) (from 1 (n - 1)) (0 ∷ [])
              (from-All (IsQueued done) 1 (n - 1) (λ j lo hi. is_queued j (omega arith)))
              (is_queued 0 few, tt);
        others = λ c lt out. absurd (everyone c (let l : c < n = rw (← fld) lt in l) out);
      }
    where
      order_distinct : Distinct (n ∷ initial n)
      order_distinct = (
        All-append (λ j. n ≢ j) (from 1 (n - 1)) (0 ∷ [])
            (from-All (λ j. n ≢ j) 1 (n - 1) (λ j lo hi (e : n ≡ j). omega arith))
            ((λ (e : n ≡ 0). omega arith), tt),
        Distinct-append 0 (from 1 (n - 1))
            (from-All (λ j. 0 ≢ j) 1 (n - 1) (λ j lo hi (e : 0 ≡ j). omega arith))
            (from-Distinct 1 (n - 1)),
      )

      is_queued : (j : ℕ) → j < n → IsQueued done j
      is_queued j lt =
          let (_, _, f, r, m, fld) = done_lem j in
          let (_, _, lf, lr, _) = looped_lem j lt in
          let other : (n == j) ≡ false = ground arith in
          let flags : done.flags j ≡ 28 = f ∙ rw other lf in
          record { unpinned = r ∙ lr; mine = m; marked = rw flags refl; buffer = rw fld lt }

      everyone : (c : ℕ) → c < n → Lacks c (initial n) → ⊥
      everyone zero lt out = (All-split (λ x. 0 ≢ x) (from 1 (n - 1)) (0 ∷ []) out).1.0 refl
      everyone (suc c) lt out =
          not-Lacks-from 1 (n - 1) (suc c) (omega arith) (omega arith)
            (All-split (λ x. suc c ≢ x) (from 1 (n - 1)) (0 ∷ []) out).0
