-- ===== src/AllocSet/Release/Reset.antt =====
-- `alloc_set_reset` and `alloc_set_delete`.
use postgres_v.Base.{
  ℕ, ◌+◌, ◌≡◌, ◌≢◌, refl, none, some, List, [], ◌∷◌, ◌++◌, map, ap, arith, All, eq→==, ne→==,
}
use postgres_v.AllocSet.{AllocSet, Block, block_hdr_sz}
use postgres_v.AllocSet.Release.{keep_blocks, drop_blocks, alloc_set_reset, alloc_set_delete}
use postgres_v.AllocSet.Valid.{IsBlock, IsValid}

-- the addresses of the blocks
abbrev pub bases : List Block → List ℕ
bases bs = map (λ b. b.base) bs

-- no other block has the address
abbrev Without : ℕ → List Block → Type 0
Without k bs = All (λ b. b.base ≢ k) bs

keep-none : (bs : List Block) → keep_blocks none bs ≡ []
unfolding keep_blocks
keep-none [] = refl
keep-none (b ∷ bs) = keep-none bs

drop-none : (bs : List Block) → drop_blocks none bs ≡ bases bs
unfolding drop_blocks
drop-none [] = refl
drop-none (b ∷ bs) = ap (λ l. b.base ∷ l) (drop-none bs)

keep-Without : (k : ℕ) (bs : List Block) → Without k bs → keep_blocks (some k) bs ≡ []
unfolding keep_blocks
keep-Without k [] h = refl
keep-Without k (b ∷ bs) h = rw (ne→== b.base k h.0) (keep-Without k bs h.1)

drop-Without : (k : ℕ) (bs : List Block) → Without k bs → drop_blocks (some k) bs ≡ bases bs
unfolding drop_blocks
drop-Without k [] h = refl
drop-Without k (b ∷ bs) h = rw (ne→== b.base k h.0) (ap (λ l. b.base ∷ l) (drop-Without k bs h.1))

-- the keeper, with all its space free again
abbrev pub emptied : Block → Block
emptied b = record b { freeptr = b.base + block_hdr_sz }

keep-append :
    (b : Block) (xs ys : List Block)
    → Without b.base xs
    → Without b.base ys
    → keep_blocks (some b.base) (xs ++ b ∷ ys) ≡ emptied b ∷ []
unfolding keep_blocks
keep-append b [] ys h g =
    rw (eq→== b.base b.base refl) (ap (λ l. emptied b ∷ l) (keep-Without b.base ys g))
keep-append b (x ∷ xs) ys h g = rw (ne→== x.base b.base h.0) (keep-append b xs ys h.1 g)

drop-append :
    (b : Block) (xs ys : List Block)
    → Without b.base xs
    → Without b.base ys
    → drop_blocks (some b.base) (xs ++ b ∷ ys) ≡ bases xs ++ bases ys
unfolding drop_blocks
drop-append b [] ys h g = rw (eq→== b.base b.base refl) (drop-Without b.base ys g)
drop-append b (x ∷ xs) ys h g =
    rw (ne→== x.base b.base h.0) (ap (λ l. x.base ∷ l) (drop-append b xs ys h.1 g))

-- A valid set whose keeper stands between the blocks `xs` and `ys`, which have other addresses: the
-- reset leaves that block alone, with all its space free, empties the free lists, gives every other
-- block back in order, and leaves the set valid.
alloc_set_reset-keeper :
    (s : AllocSet) (b : Block) (xs ys : List Block)
    → IsValid s
    → s.blocks ≡ xs ++ b ∷ ys
    → s.keeper ≡ some b.base
    → IsBlock b
    → Without b.base xs
    → Without b.base ys
    → ((alloc_set_reset s).0.blocks ≡ emptied b ∷ [])
      × ((alloc_set_reset s).1 ≡ bases xs ++ bases ys)
      × IsValid (alloc_set_reset s).0
unfolding alloc_set_reset
alloc_set_reset-keeper s b xs ys v e k p h g = (
  rw (e, k) (keep-append b xs ys h g),
  rw (e, k) (drop-append b xs ys h g),
  record {
    listed = λ j lt. tt;
    bounded = rw (e, k, keep-append b xs ys h g) (omega arith);
    init_at_least = v.init_at_least;
    init-le-max = v.init-le-max;
  },
)

-- A deletion gives back every block, in order, and leaves no block, no free chunk and no keeper; a
-- reset of a set without a keeper does the same.
alloc_set_reset-delete :
    (s : AllocSet)
    → s.keeper ≡ none
    → ((alloc_set_delete s).1 ≡ bases s.blocks)
      × ((alloc_set_delete s).0.blocks ≡ [])
      × ((alloc_set_delete s).0.keeper ≡ none)
      × (alloc_set_reset s ≡ alloc_set_delete s)
unfolding alloc_set_delete alloc_set_reset
alloc_set_reset-delete s k = (drop-none s.blocks, refl, refl, simp (k, keep-none))
