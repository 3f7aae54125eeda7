-- ===== src/DynaHash/Search.antt =====
-- `hash_search` of dynahash.c with HASH_FIND.
use postgres_v.Base.{
  All-implies, ℕ, ◌<◌, ◌≡◌, ◌≢◌, ◌⊎◌, refl, sym, ap, ◌∙◌, inl, inr, Bool, true, false, List, ◌∷◌,
  ◌++◌, length, arith, ◌==◌, ℕ_discrete,
}
use postgres_v.DynaHash.Keys.{Keyless}
use postgres_v.DynaHash.Chains.{Found-at, Found-missing, follow_chain-Found}
use postgres_v.DynaHash.Valid.{Bucket, IsTable, lookup, call_hash-lt}
use postgres_v.DynaHash.{
  HashTable, hash_find, element, is_true, done, place, call_hash, hash_search,
}

module _ (hash : ℕ → ℕ) (alloc : HashTable → (size : ℕ) → ℕ) where
  -- an element is in the bucket of its key
  elsewhere-Keyless :
      (t : HashTable) (owner : ℕ → ℕ) (k b : ℕ) (xs : List ℕ)
      → Bucket hash alloc t owner b xs
      → b ≢ call_hash hash alloc t k
      → Keyless t.key k xs
  elsewhere-Keyless t owner k b xs v ne =
      All-implies (λ e. call_hash hash alloc t (t.key e) ≡ b) (λ e. t.key e ≢ k) xs v.at_home
        (λ e h same. ne (sym h ∙ ap (call_hash hash alloc t) same))

  -- When the table `t` has the lists `chain`, and the fuel exceeds the length of the list of the
  -- bucket of `k`, HASH_FIND leaves the table and answers with the element of that list that has the
  -- key, or no element of any bucket has it and the answer is TRUE.
  pub hash_search-find :
      (slots : ℕ) (chain : ℕ → List ℕ) (free : List ℕ) (owner : ℕ → ℕ) (t : HashTable)
      (asserts : Bool) (fuel k : ℕ)
      → IsTable hash alloc slots chain free owner t
      → length (chain (call_hash hash alloc t k)) < fuel
      → ((e : ℕ) × (before : List ℕ) × (after : List ℕ) × (chain (call_hash hash alloc t k)
            ≡ before ++ e ∷ after)
          × (t.key e ≡ k)
          × (hash_search hash alloc asserts fuel t k hash_find ≡ done true (element e) t))
        ⊎ (((b : ℕ) → b < slots → Keyless t.key k (chain b))
            × (hash_search hash alloc asserts fuel t k hash_find ≡ done false is_true t))
  unfolding hash_search
  hash_search-find slots chain free owner t asserts fuel k v enough =
      let b = call_hash hash alloc t k in
      let e = lookup hash alloc chain t k in
      let here = v.bucket b (call_hash-lt hash alloc slots chain free owner t k v) in
      let walk = follow_chain-Found fuel t k (place t b) (chain b) here.linked enough in
      elim (ℕ_discrete e 0) [
        | yes z ↦
            let (none, run) = Found-missing walk z in
            inr (
              (λ c lt. elim (ℕ_discrete c b) [
                | yes same ↦ rw same none
                | no ne ↦ elsewhere-Keyless t owner k c (chain c) (v.bucket c lt) ne
              ]),
              rw run refl,
            )
        | no nz ↦
            let (before, after, split, same, run) = Found-at walk (omega arith) in
            let test : (e == 0) ≡ false = ground arith in
            inl (e, before, after, split, same, rw (run, test) refl)
      ]
