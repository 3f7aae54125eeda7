-- ===== src/AllocSet/Create.antt =====
-- `alloc_set_context_create` on every branch.
use postgres_v.Base.{
  ℕ, ◌+◌, ◌%◌, ◌^◌, ◌≤◌, ◌<◌, ◌≡◌, ◌⊎◌, refl, inl, inr, Option, none, some, [], ◌∷◌, arith, ltb,
  max_align, max_align_bounds, Bool-cases, Option-cases, ltb→lt, ltb→le,
}
use postgres_v.AllocSet.{
  AllocSet, Outcome, ok, memory_exhausted, no_containing_block, failed_assertion,
  alloc_set_context_create, block_hdr_sz, chunk_hdr_sz,
}
use postgres_v.AllocSet.Valid.{IsValid}

wraps_not : (n : ℕ) → n < 2 ^ 63 → max_align n % 2 ^ 64 ≡ max_align n
wraps_not n small = omega (arith, max_align_bounds n)

-- what the creation of a context with a minimum size leaves
abbrev pub Creates :
    (node : Outcome ℕ) → (ℕ → Option ℕ) → (min_size init max_size : ℕ) → Outcome AllocSet → Type 0
Creates node malloc min_size init max_size (ok s) =
    ((n : ℕ) × (node ≡ ok n))
    × IsValid s
    × (init ≤ s.init_block_size)
    × (max_size ≤ s.max_block_size)
    × (((min_size ≤ block_hdr_sz + chunk_hdr_sz) × (s.blocks ≡ []) × (s.keeper ≡ none))
        ⊎ ((b : ℕ) × (malloc (max_align min_size) ≡ some b)
            × (s.keeper ≡ some b)
            × (s.blocks
                ≡ (record { base = b; freeptr = b + block_hdr_sz; endptr = b + max_align min_size })
                  ∷ [])))
Creates node malloc min_size init max_size memory_exhausted =
    (node ≡ memory_exhausted)
    ⊎ ((block_hdr_sz + chunk_hdr_sz < min_size) × (malloc (max_align min_size) ≡ none))
Creates node malloc min_size init max_size no_containing_block = node ≡ no_containing_block
Creates node malloc min_size init max_size failed_assertion = node ≡ failed_assertion

-- For sizes below 2^63, `alloc_set_context_create` ends in a valid set whose block sizes are at least
-- those asked for. A minimum size over the two headers gives it one block of that size, aligned, as
-- its keeper, and else it has none. It fails only if `memory_context_create` fails, in the same
-- way, or if `malloc` fails for that block.
pub alloc_set_context_create-Creates :
    (node : Outcome ℕ) (malloc : ℕ → Option ℕ) (min_size init max_size : ℕ)
    → min_size < 2 ^ 63
    → init < 2 ^ 63
    → max_size < 2 ^ 63
    → Creates node malloc min_size init max_size
        (alloc_set_context_create node malloc min_size init max_size)
unfolding alloc_set_context_create
alloc_set_context_create-Creates memory_exhausted malloc min_size init max_size a b c = inl refl
alloc_set_context_create-Creates no_containing_block malloc min_size init max_size a b c = refl
alloc_set_context_create-Creates failed_assertion malloc min_size init max_size a b c = refl
alloc_set_context_create-Creates (ok n) malloc min_size init max_size min_small init_small
      max_small =
    let e1 = wraps_not min_size min_small in
    let e2 = wraps_not init init_small in
    let e3 = wraps_not max_size max_small in
    elim (Bool-cases (ltb 48 min_size)) [
      | inr e ↦
          rw (e, e2, e3)
            (
              (n, refl),
              record {
                listed = λ k lt. tt;
                bounded = tt;
                init_at_least = ground arith;
                init-le-max = ground arith;
              },
              ground (arith, max_align_bounds init),
              ground (arith, max_align_bounds max_size),
              inl (ltb→le 48 min_size e, refl, refl),
            )
      | inl e ↦ elim (Option-cases (malloc (max_align min_size))) [
        | inl q ↦ rw (e, e1, q) (inr (ltb→lt 48 min_size e, q))
        | inr (b, q) ↦
            rw (e, e1, q, e2, e3, e1)
              (
                (n, refl),
                record {
                  listed = λ k lt. tt;
                  bounded = (omega (arith, max_align_bounds min_size, ltb→lt 48 min_size e));
                  init_at_least = ground arith;
                  init-le-max = ground arith;
                },
                ground (arith, max_align_bounds init),
                ground (arith, max_align_bounds max_size),
                inr (b, q, refl, refl),
              )
      ]
    ]
