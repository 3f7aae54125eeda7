-- ===== src/DynaHash/Enter.antt =====
-- The insertion of `hash_search` in dynahash.c: a free element gets the key, behind the last one of
-- its bucket.
use postgres_v.Base.{
  All-implies, ℕ, ◌+◌, ◌<◌, ◌≡◌, ◌≢◌, refl, sym, ap, ◌∙◌, false, List, [], ◌∷◌, ◌++◌, arith, ◌==◌,
  All, All-zip, All-append, ℕ_discrete,
}
use mathlib.Core.Path.{subst}
use postgres_v.Rings.{store, last, Distinct-append}
use postgres_v.DynaHash.Keys.{
  Keyless, find_key-same, find_key-appended, find_key-appended_other, OneEach-same,
  OneEach-appended,
}
use postgres_v.DynaHash.Chains.{Leads-kept, Chain-appended}
use postgres_v.DynaHash.Valid.{
  with_chain, with_chain-at, with_chain-other, with_chain-each, All-last, Lacks-owner,
  owner-differs, place-same, call_hash-same, Bucket, IsTable, lookup, call_hash-lt, Bucket-same,
}
use postgres_v.DynaHash.{HashTable, place, call_hash, take_free}

module _ (hash : ℕ → ℕ) (alloc : HashTable → (size : ℕ) → ℕ) where
  -- the key of the free element is written; those of other cells stay
  kept_keys :
      (t : HashTable) (owner : ℕ → ℕ) (e k c : ℕ) (xs : List ℕ)
      → owner e ≡ 0
      → All (λ x. owner x ≡ c + 1) xs
      → All (λ x. store t.key e k x ≡ t.key x) xs
  kept_keys t owner e k c xs unowned owned =
      All-implies (λ x. owner x ≡ c + 1) (λ x. store t.key e k x ≡ t.key x) xs owned
        (λ x o.
          let test = owner-differs owner e x 0 (c + 1) unowned o (omega arith) in rw test refl)

  pub take_free-IsTable :
      (slots : ℕ) (chain : ℕ → List ℕ) (free : List ℕ) (owner : ℕ → ℕ) (t : HashTable) (b k : ℕ)
      → IsTable hash alloc slots chain (t.free_bucket_index ∷ free) owner t
      → b < slots
      → call_hash hash alloc t k ≡ b
      → Keyless t.key k (chain b)
      → IsTable hash alloc slots
          (with_chain chain b (chain b ++ t.free_bucket_index ∷ []))
          free
          (store owner t.free_bucket_index (b + 1))
          (take_free hash alloc (last (place t b) (chain b)) k t)
  unfolding take_free
  take_free-IsTable slots chain free owner t b k v lt home none =
      let p = place t b in
      let e = t.free_bucket_index in
      let xs = chain b in
      let prev = last p xs in
      let u = take_free hash alloc prev k t in
      let here = v.bucket b lt in
      let (fe, pos, leads) = v.free_list.leads in
      let (out, different) = v.free_list.different in
      let (mine, unowned) = v.free_list.unowned in
      let lacks =
        Lacks-owner owner e (b + 1) (p ∷ xs) (λ q. absurd (omega (arith, q, mine))) here.owned in
      let prev_owner = All-last (λ x. owner x ≡ b + 1) p xs here.owned in
      let keys = kept_keys t owner e k b xs mine here.owned.1 in
      let key_e : u.key e ≡ k = ground arith in
      let place_same = λ (c : ℕ). place-same t u c refl refl refl in
      let home_same = λ (j : ℕ). call_hash-same hash alloc t u j refl refl refl in
      record {
        mask_digits = v.mask_digits;
        masked = v.masked;
        within = v.within;
        bucket = λ c.
            with_chain-each (λ c xs. c < slots → Bucket hash alloc u (store owner e (b + 1)) c xs)
              chain b (xs ++ e ∷ [])
              (λ _. record {
                linked =
                    rw (place_same b)
                      (Chain-appended t.words p e xs here.linked here.distinct lacks pos);
                distinct = rw (place_same b) (Distinct-append e (p ∷ xs) lacks here.distinct);
                owned = rw (place_same b) (
                    All-append (λ x. store owner e (b + 1) x ≡ b + 1) (p ∷ xs) (e ∷ [])
                      (All-implies (λ x. owner x ≡ b + 1) (λ x. store owner e (b + 1) x ≡ b + 1)
                        (p ∷ xs) here.owned (λ x o. ground arith))
                      (ground arith, tt));
                at_home =
                    All-append (λ x. call_hash hash alloc u (u.key x) ≡ b) xs (e ∷ [])
                      (All-zip (λ x. u.key x ≡ t.key x) (λ x. call_hash hash alloc t (t.key x) ≡ b)
                        (λ x. call_hash hash alloc u (u.key x) ≡ b)
                        (λ x same h. ap (call_hash hash alloc u) same ∙ (home_same (t.key x) ∙ h))
                        xs keys here.at_home)
                      ((ap (call_hash hash alloc u) key_e ∙ (home_same k ∙ home)), tt);
                one_each =
                    OneEach-appended u.key k e xs key_e
                      (All-zip (λ x. u.key x ≡ t.key x) (λ x. t.key x ≢ k) (λ x. u.key x ≢ k)
                        (λ x same ne q. ne (sym same ∙ q)) xs keys none)
                      (OneEach-same t.key u.key xs keys here.one_each);
              })
              (λ c ne clt.
                Bucket-same hash alloc t u owner (store owner e (b + 1)) c (chain c)
                  (v.bucket c clt) (place_same c)
                  (λ q o.
                    let qp =
                      owner-differs owner prev q (b + 1) (c + 1) prev_owner o
                        (λ same. ne (omega arith)) in
                    let qe = owner-differs owner e q 0 (c + 1) mine o (omega arith) in
                    (rw (qe, qp) refl, rw qe refl, rw qe refl))
                  (λ j h. home_same j ∙ h))
              c;
        free_list = record {
          leads =
              Leads-kept (store t.words prev e) e 0 (t.words e) free
                (Leads-kept t.words prev e (t.words e) free leads (
                  Lacks-owner owner prev 0 free (λ q. absurd (omega (arith, q, prev_owner)))
                    unowned))
                out;
          different = different;
          unowned =
              All-zip (λ x. e ≢ x) (λ x. owner x ≡ 0) (λ x. store owner e (b + 1) x ≡ 0)
                (λ x ne o. let test : (e == x) ≡ false = ground arith in rw test o) free out
                unowned;
        };
      }

  pub take_free-lookup :
      (slots : ℕ) (chain : ℕ → List ℕ) (free : List ℕ) (owner : ℕ → ℕ) (t : HashTable)
      (b k prev : ℕ)
      → IsTable hash alloc slots chain (t.free_bucket_index ∷ free) owner t
      → call_hash hash alloc t k ≡ b
      → Keyless t.key k (chain b)
      → (lookup hash alloc
            (with_chain chain b (chain b ++ t.free_bucket_index ∷ []))
            (take_free hash alloc prev k t)
            k
          ≡ t.free_bucket_index)
        × ((j : ℕ)
            → j ≢ k
            → lookup hash alloc
                (with_chain chain b (chain b ++ t.free_bucket_index ∷ []))
                (take_free hash alloc prev k t)
                j
              ≡ lookup hash alloc chain t j)
  unfolding take_free
  take_free-lookup slots chain free owner t b k prev v home none =
      let e = t.free_bucket_index in
      let u = take_free hash alloc prev k t in
      let mine = v.free_list.unowned.0 in
      let home_same = λ (j : ℕ). call_hash-same hash alloc t u j refl refl refl in
      let key_e : u.key e ≡ k = ground arith in
      let keys = λ (j : ℕ).
        (let c = call_hash hash alloc t j in
          kept_keys t owner e k c (chain c) mine
            (v.bucket c (call_hash-lt hash alloc slots chain (e ∷ free) owner t j v)).owned.1) in
      let keys_b = subst (λ c. All (λ x. u.key x ≡ t.key x) (chain c)) home (keys k) in
      (
        rw (home_same k, home, with_chain-at chain b (chain b ++ e ∷ []))
            (find_key-appended u.key k e (chain b) key_e (
              All-zip (λ x. u.key x ≡ t.key x) (λ x. t.key x ≢ k) (λ x. u.key x ≢ k)
                (λ x same ne q. ne (sym same ∙ q)) (chain b) keys_b none)),
        λ j ne. elim (ℕ_discrete (call_hash hash alloc t j) b) [
          | yes at_b ↦
              rw (home_same j, at_b, with_chain-at chain b (chain b ++ e ∷ []))
                (find_key-appended_other u.key j e (chain b) (λ q. ne (sym q ∙ key_e))
                  ∙ find_key-same t.key u.key j (chain b) keys_b)
          | no other ↦
              rw
                (
                  home_same j,
                  with_chain-other chain b (call_hash hash alloc t j) (chain b ++ e ∷ []) other,
                )
                (find_key-same t.key u.key j (chain (call_hash hash alloc t j)) (keys j))
        ],
      )
