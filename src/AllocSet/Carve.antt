-- ===== src/AllocSet/Carve.antt =====
-- The loop that cuts the rest of the active block into chunks for the free lists.
use postgres_v.Base.{
  ℕ, zero, suc, ◌+◌, ◌-◌, ◌*◌, ◌^◌, ◌≤◌, ◌<◌, ◌≡◌, ◌≢◌, max, refl, ap, inl, inr, List, ◌∷◌, arith,
  leb, ◌==◌, Bool-cases, ==→eq, ==→ne, two_pow-add-one, two_pow-le, two_pow_pos, two_pow-lt_cancel,
}
use postgres_v.AllocSet.{
  Chunk, Carving, carve_index, carve_step, carve, alloc_set_free_index, alloc_min_bits,
  num_freelists, chunk_hdr_sz,
}
use postgres_v.AllocSet.Index.{index-fits, index-tight}
use postgres_v.AllocSet.Valid.{IsListed, IsListed-set_freelist, bytes, held, held-set_freelist}

-- The largest chunk size that the space holds.
carve_index_lem :
    (n : ℕ)
    → 16 ≤ n
    → n < 2 ^ 64
    → (2 ^ (carve_index n + 4) ≤ n) × (n < 2 * 2 ^ (carve_index n + 4))
unfolding carve_index
carve_index_lem n lo hi = elim (Bool-cases (n == 2 ^ (alloc_set_free_index n + alloc_min_bits))) [
  | inl e ↦ let p = ==→eq n _ e in rw e (omega (arith, p, two_pow_pos (alloc_set_free_index n + 4)))
  | inr e ↦ rw e (below (alloc_set_free_index n) (==→ne n _ e) (index-fits n hi) (index-tight n))
]
  where
    below :
        (a : ℕ)
        → n ≢ 2 ^ (a + 4)
        → n ≤ 2 ^ (a + 4)
        → 2 ^ (a + 4) ≤ max 16 (2 * (n - 1))
        → (2 ^ (a - 1 + 4) ≤ n) × (n < 2 * 2 ^ (a - 1 + 4))
    below zero p q r = absurd (omega arith)
    below (suc a) p q r = omega (
      arith,
      two_pow-add-one (suc a - 1 + 4),
      ap (λ x. 2 ^ x) (let e : suc a - 1 + 4 + 1 ≡ suc a + 4 = omega arith in e),
      two_pow-le 5 (suc a + 4) (omega arith),
    )

-- what the loop achieves, from `w` to `w'`
pub record IsCarved (w w' : Carving) : Type 0 where
  pub used_up : w'.avail < 2 ^ alloc_min_bits + chunk_hdr_sz
  pub kept : w'.freeptr + w'.avail ≡ w.freeptr + w.avail
  pub forward : w.freeptr ≤ w'.freeptr
  pub listed : IsListed w'.lists
  pub conserved : held num_freelists w'.lists + w.freeptr ≡ held num_freelists w.lists + w'.freeptr

bytes-cons : (c : Chunk) (cs : List Chunk) → bytes (c ∷ cs) ≡ c.size + 16 + bytes cs
unfolding bytes
bytes-cons c cs = refl

record IsStep (r : ℕ) (w w' : Carving) : Type 0 where
  kept : w'.freeptr + w'.avail ≡ w.freeptr + w.avail
  forward : w.freeptr ≤ w'.freeptr
  smaller : w'.avail < 2 ^ (r + 4) + 16
  listed : IsListed w'.lists
  conserved : held num_freelists w'.lists + w.freeptr ≡ held num_freelists w.lists + w'.freeptr

carve_step-IsStep :
    (r : ℕ) (w : Carving)
    → r < num_freelists - 1
    → 32 ≤ w.avail
    → w.avail < 2 ^ (suc r + 4) + 16
    → IsListed w.lists
    → IsStep r w (carve_step w)
unfolding carve_step
carve_step-IsStep r w rounds lo hi listed =
    let n = w.avail - 16 in
    let k = carve_index n in
    let (fits, tight) =
      carve_index_lem n (omega arith) (omega (arith, two_pow-le (suc r + 4) 13 (omega arith))) in
    let k-le : k ≤ r = omega (arith, two_pow-lt_cancel (k + 4) (suc r + 4) (omega arith)) in
    let c : Chunk = record { addr = w.freeptr; size = 2 ^ (k + 4) } in
    record {
      kept = omega arith;
      forward = omega arith;
      smaller = omega (arith, two_pow-le (k + 4) (r + 4) (omega arith));
      listed =
          IsListed-set_freelist w.lists k (c ∷ w.lists k) listed (refl, listed k (omega arith));
      conserved = omega (
        arith,
        held-set_freelist 10 w.lists k (c ∷ w.lists k) (omega arith),
        bytes-cons c (w.lists k),
      );
    }

-- With `r` rounds for `r` at most 9, less than 2 ^ (r + 4) + 16 bytes available and free lists in
-- order, the loop that cuts up the rest of a block ends by its own test, keeps the free lists in
-- order, and puts every byte it takes from the block on a free list.
pub carve-IsCarved :
    (r : ℕ) (w : Carving)
    → r ≤ num_freelists - 1
    → w.avail < 2 ^ (r + 4) + 16
    → IsListed w.lists
    → IsCarved w (carve r w)
unfolding carve
carve-IsCarved zero w rounds hi listed = record {
  used_up = omega arith;
  kept = refl;
  forward = omega arith;
  listed = listed;
  conserved = refl;
}
carve-IsCarved (suc r) w rounds hi listed = elim (Bool-cases (leb 32 w.avail)) [
  | inl e ↦
      let t = carve_step-IsStep r w (omega arith) (ground arith) hi listed in
      let u = carve-IsCarved r (carve_step w) (omega arith) t.smaller t.listed in
      rw e (record {
        used_up = u.used_up;
        kept = omega arith;
        forward = omega arith;
        listed = u.listed;
        conserved = omega arith;
      })
  | inr e ↦ rw e (record {
    used_up = ground arith;
    kept = refl;
    forward = omega arith;
    listed = listed;
    conserved = refl;
  })
]
