-- ===== src/DynaHash/Remove.antt =====
-- `hash_search` of dynahash.c with HASH_REMOVE.
use postgres_v.Base.{
  All-implies, ℕ, ◌+◌, ◌<◌, ◌≡◌, ◌≢◌, refl, sym, ◌∙◌, Bool, true, false, ◌&&◌, List, ◌∷◌, ◌++◌,
  length, arith, ◌==◌, All-zip, All-parts, ℕ_discrete,
}
use mathlib.Core.Path.{subst}
use postgres_v.Rings.{store, last, Distinct-without}
use postgres_v.DynaHash.Keys.{OneEach, Keyless, find_key-Keyless, find_key-removed, OneEach-removed}
use postgres_v.DynaHash.Chains.{Chain-kept, Leads-kept, Chain-removed, Found-at, follow_chain-Found}
use postgres_v.DynaHash.Valid.{
  with_chain, with_chain-at, with_chain-other, with_chain-each, All-last, Lacks-owner,
  owner-differs, All-without, place-same, call_hash-same, Bucket, IsTable, lookup, call_hash-lt,
  Bucket-same,
}
use postgres_v.DynaHash.{
  HashTable, hash_remove, element, done, place, call_hash, remove_element, hash_search,
}

and_false : (a : Bool) → (a && false) ≡ false
and_false true = refl
and_false false = refl

module _ (hash : ℕ → ℕ) (alloc : HashTable → (size : ℕ) → ℕ) where
  remove_element-IsTable :
      (slots : ℕ) (chain : ℕ → List ℕ) (free : List ℕ) (owner : ℕ → ℕ) (t : HashTable) (b e : ℕ)
      (before after : List ℕ)
      → IsTable hash alloc slots chain free owner t
      → b < slots
      → chain b ≡ before ++ e ∷ after
      → 0 < e
      → IsTable hash alloc slots
          (with_chain chain b (before ++ after))
          (e ∷ free)
          (store owner e 0)
          (remove_element hash alloc (last (place t b) before) e t)
  unfolding remove_element
  remove_element-IsTable slots chain free owner t b e before after v lt split pos =
      let p = place t b in
      let prev = last p before in
      let u = remove_element hash alloc prev e t in
      let here = subst (λ xs. Bucket hash alloc t owner b xs) split (v.bucket b lt) in
      let (lacks, rest) = Distinct-without e (p ∷ before) after here.distinct in
      let (owned, mine, _) = All-parts (λ x. owner x ≡ b + 1) (p ∷ before) e after here.owned in
      let prev_mine = All-last (λ x. owner x ≡ b + 1) p before owned in
      let place_same = λ (c : ℕ). place-same t u c refl refl refl in
      let home_same = λ (k : ℕ). call_hash-same hash alloc t u k refl refl refl in
      record {
        mask_digits = v.mask_digits;
        masked = v.masked;
        within = v.within;
        bucket = λ c.
            with_chain-each (λ c xs. c < slots → Bucket hash alloc u (store owner e 0) c xs) chain b
              (before ++ after)
              (λ _. record {
                linked = rw (place_same b) (
                    Chain-kept (store t.words prev (t.words e)) e t.free_bucket_index p
                      (before ++ after)
                      (Chain-removed t.words p e before after here.linked here.distinct) lacks);
                distinct = rw (place_same b) rest;
                owned = rw (place_same b) (
                    All-zip (λ x. e ≢ x) (λ x. owner x ≡ b + 1) (λ x. store owner e 0 x ≡ b + 1)
                      (λ x ne o. let test : (e == x) ≡ false = ground arith in rw test o)
                      (p ∷ (before ++ after)) lacks
                      (All-without (λ x. owner x ≡ b + 1) e (p ∷ before) after here.owned));
                at_home =
                    All-implies (λ x. call_hash hash alloc t (t.key x) ≡ b)
                      (λ x. call_hash hash alloc u (t.key x) ≡ b) (before ++ after)
                      (All-without (λ x. call_hash hash alloc t (t.key x) ≡ b) e before after
                        here.at_home)
                      (λ x h. home_same (t.key x) ∙ h);
                one_each = (OneEach-removed t.key e before after here.one_each).1;
              })
              (λ c ne clt.
                Bucket-same hash alloc t u owner (store owner e 0) c (chain c) (v.bucket c clt)
                  (place_same c)
                  (λ q o.
                    let qp =
                      owner-differs owner prev q (b + 1) (c + 1) prev_mine o
                        (λ same. ne (omega arith)) in
                    let qe =
                      owner-differs owner e q (b + 1) (c + 1) mine o (λ same. ne (omega arith)) in
                    (rw (qe, qp) refl, refl, rw qe refl))
                  (λ k h. home_same k ∙ h))
              c;
        free_list = record {
          leads = (
            refl,
            pos,
            (let test : (e == e) ≡ true = ground arith in
                rw test (
                  Leads-kept (store t.words prev (t.words e)) e t.free_bucket_index
                    t.free_bucket_index free
                    (Leads-kept t.words prev (t.words e) t.free_bucket_index free v.free_list.leads
                      (Lacks-owner owner prev 0 free (λ q. absurd (omega (arith, q, prev_mine)))
                        v.free_list.unowned))
                    (Lacks-owner owner e 0 free (λ q. absurd (omega (arith, q, mine)))
                      v.free_list.unowned))),
          );
          different = (
            Lacks-owner owner e 0 free (λ q. absurd (omega (arith, q, mine))) v.free_list.unowned,
            v.free_list.different,
          );
          unowned = (
            ground arith,
            All-implies (λ x. owner x ≡ 0) (λ x. store owner e 0 x ≡ 0) free v.free_list.unowned
                (λ x o. ground arith),
          );
        };
      }

  remove_element-lookup :
      (chain : ℕ → List ℕ) (owner : ℕ → ℕ) (t : HashTable) (b e k prev : ℕ) (before after : List ℕ)
      → Bucket hash alloc t owner b (chain b)
      → chain b ≡ before ++ e ∷ after
      → t.key e ≡ k
      → call_hash hash alloc t k ≡ b
      → (lookup hash alloc
            (with_chain chain b (before ++ after))
            (remove_element hash alloc prev e t)
            k
          ≡ 0)
        × ((j : ℕ)
            → j ≢ k
            → lookup hash alloc
                (with_chain chain b (before ++ after))
                (remove_element hash alloc prev e t)
                j
              ≡ lookup hash alloc chain t j)
  unfolding remove_element
  remove_element-lookup chain owner t b e k prev before after v split same home =
      let u = remove_element hash alloc prev e t in
      let home_same = λ (j : ℕ). call_hash-same hash alloc t u j refl refl refl in
      let one =
        OneEach-removed t.key e before after (subst (λ xs. OneEach t.key xs) split v.one_each) in
      (
        rw (home_same k, home, with_chain-at chain b (before ++ after))
            (find_key-Keyless t.key k (before ++ after)
              (subst (λ x. Keyless t.key x (before ++ after)) same one.0)),
        λ j ne. elim (ℕ_discrete (call_hash hash alloc t j) b) [
          | yes at_b ↦
              rw (home_same j, at_b, with_chain-at chain b (before ++ after), split)
                (find_key-removed t.key j e before after (λ q. ne (sym q ∙ same)))
          | no other ↦
              rw
                (
                  home_same j,
                  with_chain-other chain b (call_hash hash alloc t j) (before ++ after) other,
                )
                refl
        ],
      )

  -- When `t` has the lists `chain`, the fuel exceeds the length of the list of the bucket of `k`,
  -- `nkeys` is positive and the element `e` has the key `k`, HASH_REMOVE answers with it. In the
  -- table that is left it is the first of the free list, no element has the key `k`, and each other
  -- key has the element that it had.
  pub hash_search-remove :
      (slots : ℕ) (chain : ℕ → List ℕ) (free : List ℕ) (owner : ℕ → ℕ) (t : HashTable)
      (asserts : Bool) (fuel k : ℕ)
      → IsTable hash alloc slots chain free owner t
      → length (chain (call_hash hash alloc t k)) < fuel
      → 0 < t.nkeys
      → 0 < lookup hash alloc chain t k
      → (u : HashTable) × (after : ℕ → List ℕ) × (hash_search hash alloc asserts fuel t k
            hash_remove
          ≡ done true (element (lookup hash alloc chain t k)) u)
        × IsTable hash alloc slots after
            (lookup hash alloc chain t k ∷ free)
            (store owner (lookup hash alloc chain t k) 0)
            u
        × (lookup hash alloc after u k ≡ 0)
        × ((j : ℕ) → j ≢ k → lookup hash alloc after u j ≡ lookup hash alloc chain t j)
  unfolding hash_search
  hash_search-remove slots chain free owner t asserts fuel k v enough some_key found =
      let b = call_hash hash alloc t k in
      let e = lookup hash alloc chain t k in
      let lt = call_hash-lt hash alloc slots chain free owner t k v in
      let (before, after, split, same, run) =
        Found-at (follow_chain-Found fuel t k (place t b) (chain b) (v.bucket b lt).linked enough)
          found in
      let no_null : (e == 0) ≡ false = ground arith in
      let no_key : (t.nkeys == 0) ≡ false = ground arith in
      let u = remove_element hash alloc (last (place t b) before) e t in
      let (cleared, others) =
        remove_element-lookup chain owner t b e k (last (place t b) before) before after
          (v.bucket b lt) split same refl in
      (
        u,
        with_chain chain b (before ++ after),
        rw (run, no_null, no_key, and_false asserts) refl,
        remove_element-IsTable slots chain free owner t b e before after v lt split found,
        cleared,
        others,
      )
