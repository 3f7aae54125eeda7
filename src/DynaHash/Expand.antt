-- ===== src/DynaHash/Expand.antt =====
-- `expand_table` of dynahash.c as a whole: each key has the element that it had.
use Prim.Native.Nat.{bit_and}
use mathlib.Core.Path.{subst}
use postgres_v.Base.{
  ℕ, ◌+◌, ◌/◌, ◌^◌, ◌<◌, ◌≤◌, ◌≡◌, ◌≢◌, refl, sym, ap, ◌∙◌, inl, inr, true, false, not, List,
  length, arith, leb, ne→==, eq→==, ℕ_discrete,
}
use postgres_v.Rings.{Lacks}
use postgres_v.DynaHash.Keys.{staying, going, going-staying, find_key-staying}
use postgres_v.DynaHash.Chains.{Chain, stays_in, split_loop-Chain}
use postgres_v.DynaHash.Home.{call_hash-le, old_bucket-lt, next_bucket-call_hash}
use postgres_v.DynaHash.Valid.{
  with_chain, with_chain-at, with_chain-other, Lacks-owner, place-same, call_hash-same, IsTable,
  lookup,
}
use postgres_v.DynaHash.Split.{split_owner, split_chain}
use postgres_v.DynaHash.Grow.{split_loop-IsTable}
use postgres_v.DynaHash.{HashTable, place, call_hash, next_bucket, ensure_segment, expand_table}

module _ (hash : ℕ → ℕ) (alloc : HashTable → (size : ℕ) → ℕ) where
  -- each key has the element that it had
  split_loop-lookup :
      (slots : ℕ) (chain : ℕ → List ℕ) (free : List ℕ) (owner : ℕ → ℕ) (t : HashTable) (old : ℕ)
      (g : ℕ → ℕ) (k : ℕ)
      → IsTable hash alloc slots chain free owner t
      → t.max_bucket + 1 < 2 ^ 32
      → bit_and (t.max_bucket + 1) t.low_mask ≡ old
      → lookup hash alloc
          (split_chain chain
            (stays_in hash alloc (next_bucket hash alloc t) old)
            old
            (t.max_bucket + 1))
          (record (next_bucket hash alloc t) { words = g })
          k
        ≡ lookup hash alloc chain t k
  unfolding next_bucket
  split_loop-lookup slots chain free owner t old g k v small is_old =
      let n = t.max_bucket + 1 in
      let w = next_bucket hash alloc t in
      let u : HashTable = record w { words = g } in
      let stays = stays_in hash alloc w old in
      let some = staying stays (chain old) in
      let others = going stays (chain old) in
      let le : old ≤ t.max_bucket =
        subst (λ x. x ≤ t.max_bucket) is_old (old_bucket-lt hash alloc v.mask_digits t v.masked) in
      let here = call_hash-le hash alloc v.mask_digits t k v.masked in
      let home_same = call_hash-same hash alloc w u k refl refl refl in
      elim (next_bucket-call_hash hash alloc v.mask_digits t k v.masked small) [
        | inl same ↦
            let not_n : call_hash hash alloc t k ≢ n = (λ q. absurd (omega (arith, q, here))) in
            elim (ℕ_discrete (call_hash hash alloc t k) old) [
              | yes e ↦
                  rw
                    (
                      home_same,
                      same,
                      with_chain-other (with_chain chain old some) n (call_hash hash alloc t k)
                          others not_n,
                      e,
                      with_chain-at chain old some,
                    )
                    (find_key-staying t.key k stays (chain old) (λ x key_x.
                      eq→== (call_hash hash alloc w (t.key x)) old
                        (ap (call_hash hash alloc w) key_x ∙ (same ∙ e))))
              | no ne ↦
                  rw
                    (
                      home_same,
                      same,
                      with_chain-other (with_chain chain old some) n (call_hash hash alloc t k)
                          others not_n,
                      with_chain-other chain old (call_hash hash alloc t k) some ne,
                    )
                    refl
            ]
        | inr (at_split, at_new) ↦
            rw
              (
                home_same,
                at_new,
                with_chain-at (with_chain chain old some) n others,
                at_split ∙ is_old,
                going-staying stays (chain old),
              )
              (find_key-staying t.key k (λ x. not (stays x)) (chain old)
                (λ x key_x.
                  let goes = ne→== (call_hash hash alloc w (t.key x)) old (λ q.
                    let moved = ap (call_hash hash alloc w) key_x ∙ at_new in
                    absurd (omega (arith, q, moved, le))) in
                  rw goes refl))
      ]

  ensure_segment-present :
      (t : HashTable) (n : ℕ) → n < t.nsegs → ensure_segment hash alloc n t ≡ (true, t)
  unfolding ensure_segment
  ensure_segment-present t n lt = let test : leb t.nsegs n ≡ false = ground arith in rw test refl

  -- When the table `t` has the lists `chain`, a slot for one bucket more in a segment that is there, and
  -- `max_bucket + 1` is of 32 bits, and the fuel is not less than the length of the list of the bucket
  -- that is split, `expand_table` succeeds. There is one bucket more, the invariant holds, with the
  -- same free list, and each key has the element that it had.
  pub expand_table-keeps :
      (slots : ℕ) (chain : ℕ → List ℕ) (free : List ℕ) (owner : ℕ → ℕ) (t : HashTable) (fuel : ℕ)
      → IsTable hash alloc slots chain free owner t
      → t.max_bucket + 1 < slots
      → t.max_bucket + 1 < 2 ^ 32
      → (t.max_bucket + 1) / 2 ^ t.sshift < t.nsegs
      → length (chain (bit_and (t.max_bucket + 1) t.low_mask)) ≤ fuel
      → (u : HashTable) × (after : ℕ → List ℕ) × (other : ℕ → ℕ) × (expand_table hash alloc fuel t
          ≡ (true, u))
        × (u.max_bucket ≡ t.max_bucket + 1)
        × IsTable hash alloc slots after free other u
        × ((k : ℕ) → lookup hash alloc after u k ≡ lookup hash alloc chain t k)
  unfolding expand_table next_bucket
  expand_table-keeps slots chain free owner t fuel v room small there enough =
      let n = t.max_bucket + 1 in
      let old = bit_and n t.low_mask in
      let w = next_bucket hash alloc t in
      let stays = stays_in hash alloc w old in
      let xs = chain old in
      let le = old_bucket-lt hash alloc v.mask_digits t v.masked in
      let at_old = v.bucket old (omega arith) in
      let at_n = v.bucket n room in
      let place_same = λ (c : ℕ). place-same t w c refl refl refl in
      let apart : place w old ≢ place w n = (λ q.
        let e = sym (place_same old) ∙ (q ∙ place_same n) in
        let o = sym at_old.owned.0 ∙ (ap owner e ∙ at_n.owned.0) in
        absurd (omega (arith, o, le))) in
      let lacks_n : Lacks (place w n) xs = rw (place_same n) (
        Lacks-owner owner (place t n) (old + 1) xs
          (λ e. let e2 = at_n.owned.0 in absurd (omega (arith, e, e2, le))) at_old.owned.1) in
      let (g, run, to_old, to_n, same) =
        split_loop-Chain hash alloc fuel old (w.words (place w old)) (place w old) (place w n) w xs
          (rw (place_same old) at_old.linked) enough apart (rw (place_same old) at_old.distinct.0)
          lacks_n at_old.distinct.1 in
      (
        record w { words = g },
        split_chain chain stays old n,
        split_owner owner stays (place t old) old n,
        rw (ensure_segment-present t (n / 2 ^ t.sshift) there, run) refl,
        refl,
        split_loop-IsTable hash alloc slots chain free owner t old g v room small refl
            (subst (λ p. Chain g p (staying stays xs)) (place_same old) to_old)
            (subst (λ p. Chain g p (going stays xs)) (place_same n) to_n)
            (λ q (qo, (qn, out)).
              same q ((λ e. qo (e ∙ place_same old)), ((λ e. qn (e ∙ place_same n)), out))),
        λ k. split_loop-lookup slots chain free owner t old g k v small refl,
      )
