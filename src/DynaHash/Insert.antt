-- ===== src/DynaHash/Insert.antt =====
-- `hash_search` of dynahash.c with HASH_ENTER, which may call `expand_table`.
use Prim.Native.Nat.{bit_and}
use postgres_v.Base.{
  ℕ, ◌+◌, ◌*◌, ◌/◌, ◌^◌, ◌<◌, ◌≤◌, ◌≡◌, ◌≢◌, ◌⊎◌, refl, ◌∙◌, inl, inr, Bool, true, false, List, [],
  ◌∷◌, ◌++◌, length, arith, ltb, ◌==◌, if◌then◌else◌, length-append, Bool-cases,
}
use postgres_v.Rings.{store, last}
use postgres_v.DynaHash.Keys.{Keyless}
use postgres_v.DynaHash.Chains.{Found-missing, follow_chain-Found}
use postgres_v.DynaHash.Home.{old_bucket-lt}
use postgres_v.DynaHash.Valid.{with_chain, with_chain-each, IsTable, lookup, call_hash-lt}
use postgres_v.DynaHash.Enter.{take_free-IsTable, take_free-lookup}
use postgres_v.DynaHash.{
  HashTable, hash_enter, done, failed_assertion, element, null, place, call_hash, expand_table,
  take_free, enter, hash_search, bucket_size, bucket_alloc,
}
use postgres_v.DynaHash.Expand.{expand_table-keeps}

module _ (hash : ℕ → ℕ) (alloc : HashTable → (size : ℕ) → ℕ) where
  hash_search-new :
      (slots : ℕ) (chain : ℕ → List ℕ) (free : List ℕ) (owner : ℕ → ℕ) (t : HashTable)
      (asserts : Bool) (fuel k : ℕ)
      → IsTable hash alloc slots chain free owner t
      → length (chain (call_hash hash alloc t k)) < fuel
      → lookup hash alloc chain t k ≡ 0
      → Keyless t.key k (chain (call_hash hash alloc t k))
        × (hash_search hash alloc asserts fuel t k hash_enter
            ≡ enter hash alloc asserts fuel
                (last (place t (call_hash hash alloc t k)) (chain (call_hash hash alloc t k)))
                k
                t)
  unfolding hash_search
  hash_search-new slots chain free owner t asserts fuel k v enough none =
      let b = call_hash hash alloc t k in
      let here = v.bucket b (call_hash-lt hash alloc slots chain free owner t k v) in
      let (keyless, run) =
        Found-missing (follow_chain-Found fuel t k (place t b) (chain b) here.linked enough) none in
      (keyless, rw run refl)

  enter-asserted :
      (t : HashTable) (fuel prev k : ℕ)
      → (enter hash alloc true fuel prev k t ≡ failed_assertion)
        ⊎ (enter hash alloc true fuel prev k t ≡ done false null t)
  unfolding enter bucket_alloc
  enter-asserted t fuel prev k = elim (Bool-cases (t.free_bucket_index == 0)) [
    | inl no_free ↦ elim (Bool-cases (alloc t (30 * bucket_size hash alloc t) == 0)) [
      | inl no_room ↦ inr (rw (no_free, no_room) refl)
      | inr room ↦ inl (rw (no_free, room, room) refl)
    ]
    | inr some_free ↦ inl (rw (some_free, some_free) refl)
  ]

  -- the element taken, and the table after `expand_table` if the test calls for it
  enter-free :
      (t : HashTable) (fuel prev k : ℕ)
      → 0 < t.free_bucket_index
      → enter hash alloc false fuel prev k t
        ≡ done false (element t.free_bucket_index) (
            if ltb t.ffactor ((t.nkeys + 1) / (t.max_bucket + 1))
            then (expand_table hash alloc fuel (take_free hash alloc prev k t)).1
            else take_free hash alloc prev k t)
  unfolding enter take_free
  enter-free t fuel prev k pos =
      let test : (t.free_bucket_index == 0) ≡ false = ground arith in rw test refl

  -- When no element of the bucket of `k` has the key `k`, and the fuel exceeds the length of its list,
  -- HASH_ENTER fails an assertion or answers NULL, with assertions compiled.
  pub hash_search-asserted :
      (slots : ℕ) (chain : ℕ → List ℕ) (free : List ℕ) (owner : ℕ → ℕ) (t : HashTable) (fuel k : ℕ)
      → IsTable hash alloc slots chain free owner t
      → length (chain (call_hash hash alloc t k)) < fuel
      → lookup hash alloc chain t k ≡ 0
      → (hash_search hash alloc true fuel t k hash_enter ≡ failed_assertion)
        ⊎ (hash_search hash alloc true fuel t k hash_enter ≡ done false null t)
  hash_search-asserted slots chain free owner t fuel k v enough none =
      let (_, run) = hash_search-new slots chain free owner t true fuel k v enough none in
      let b = call_hash hash alloc t k in
      rw run (enter-asserted t fuel (last (place t b) (chain b)) k)

  -- When no element of the bucket of `k` has the key `k`, the free list is not empty, and the fuel
  -- exceeds the length of each list, HASH_ENTER, without assertions, answers with the first free
  -- element, in two cases: the fill factor calls for no bucket more, or it does, the bucket's number is
  -- below `slots` and 2^32, and a segment that is there already has the slot for it. The table that
  -- is left has the element under the key `k`, whether `expand_table` was called or not, and each
  -- other key has the element that it had; the free list is the rest.
  pub hash_search-enter :
      (slots : ℕ) (chain : ℕ → List ℕ) (free : List ℕ) (owner : ℕ → ℕ) (t : HashTable) (fuel k : ℕ)
      → IsTable hash alloc slots chain (t.free_bucket_index ∷ free) owner t
      → ((b : ℕ) → b < slots → length (chain b) < fuel)
      → (ltb t.ffactor ((t.nkeys + 1) / (t.max_bucket + 1)) ≡ true
          → (t.max_bucket + 1 < slots)
            × (t.max_bucket + 1 < 2 ^ 32)
            × ((t.max_bucket + 1) / 2 ^ t.sshift < t.nsegs))
      → lookup hash alloc chain t k ≡ 0
      → (u : HashTable) × (after : ℕ → List ℕ) × (other : ℕ → ℕ) × (hash_search hash alloc false
            fuel t k hash_enter
          ≡ done false (element t.free_bucket_index) u)
        × IsTable hash alloc slots after free other u
        × (lookup hash alloc after u k ≡ t.free_bucket_index)
        × ((j : ℕ) → j ≢ k → lookup hash alloc after u j ≡ lookup hash alloc chain t j)
  unfolding take_free
  hash_search-enter slots chain free owner t fuel k v enough grows none =
      let b = call_hash hash alloc t k in
      let e = t.free_bucket_index in
      let lt = call_hash-lt hash alloc slots chain (e ∷ free) owner t k v in
      let (keyless, run) =
        hash_search-new slots chain (e ∷ free) owner t false fuel k v (enough b lt) none in
      let prev = last (place t b) (chain b) in
      let w = take_free hash alloc prev k t in
      let after = with_chain chain b (chain b ++ e ∷ []) in
      let put = take_free-IsTable hash alloc slots chain free owner t b k v lt refl keyless in
      let (at_k, others) =
        take_free-lookup hash alloc slots chain free owner t b k prev v refl keyless in
      let pos = v.free_list.leads.1 in
      let lengths =
        with_chain-each (λ c xs. c < slots → length xs ≤ fuel) chain b (chain b ++ e ∷ [])
          (λ clt.
            let shorter = enough b clt in
            let longer = length-append (chain b) (e ∷ []) in omega (arith, shorter, longer))
          (λ c ne clt. let shorter = enough c clt in omega (arith, shorter)) in
      elim (Bool-cases (ltb t.ffactor ((t.nkeys + 1) / (t.max_bucket + 1)))) [
        | inl full ↦
            let (room, small, there) = grows full in
            let old_lt = old_bucket-lt hash alloc v.mask_digits t v.masked in
            let (u, later, other, grown, _, is_table, same) =
              expand_table-keeps hash alloc slots after free (store owner e (b + 1)) w fuel put room
                small there
                (lengths (bit_and (t.max_bucket + 1) t.low_mask) (omega (arith, old_lt, room))) in
            (
              u,
              later,
              other,
              run ∙ (enter-free t fuel prev k pos ∙ rw (full, grown) refl),
              is_table,
              same k ∙ at_k,
              λ j ne. same j ∙ others j ne,
            )
        | inr fits ↦ (
          w,
          after,
          store owner e (b + 1),
          run ∙ (enter-free t fuel prev k pos ∙ rw fits refl),
          put,
          at_k,
          others,
        )
      ]
