-- ===== src/DynaHash/Grow.antt =====
-- `expand_table` of dynahash.c with the segment of the new bucket there: the chain of the old bucket
-- is split, and each key has the element that it had.
use Prim.Native.Nat.{bit_and}
use mathlib.Core.Path.{subst}
use postgres_v.Base.{
  not-true, All-implies, ℕ, ◌+◌, ◌^◌, ◌<◌, ◌≤◌, ◌≡◌, ◌≢◌, refl, sym, ap, ◌∙◌, inl, inr, Bool, true,
  not, List, [], ◌∷◌, arith, All-zip, ==→eq, ==→ne,
}
use postgres_v.Rings.{Lacks}
use postgres_v.DynaHash.Keys.{
  OneEach, staying, going, going-staying, All-staying, Distinct-staying, OneEach-staying,
}
use postgres_v.DynaHash.Chains.{Chain, Leads-same, stays_in}
use postgres_v.DynaHash.Home.{
  call_hash-le, old_bucket-lt, next_bucket-Masked, next_bucket-call_hash,
}
use postgres_v.DynaHash.Valid.{
  with_chain, with_chain-each, Lacks-owner, place-same, call_hash-same, Bucket, IsTable,
  Bucket-same,
}
use postgres_v.DynaHash.{HashTable, place, call_hash, next_bucket}
use postgres_v.DynaHash.Split.{
  split_owner, split_chain, split_owner-other, split_owner-place, split_owner-stays,
  split_owner-goes,
}

module _ (hash : ℕ → ℕ) (alloc : HashTable → (size : ℕ) → ℕ) where
  -- the selected elements of the bucket `b` as those of the bucket `c`
  Bucket-part :
      (t u : HashTable) (owner other : ℕ → ℕ) (b c : ℕ) (sel : ℕ → Bool) (xs : List ℕ)
      → Bucket hash alloc t owner b xs
      → u.key ≡ t.key
      → Chain u.words (place u c) (staying sel xs)
      → Lacks (place u c) xs
      → other (place u c) ≡ c + 1
      → ((x : ℕ) → owner x ≡ b + 1 → place t b ≢ x → sel x ≡ true → other x ≡ c + 1)
      → ((x : ℕ)
          → call_hash hash alloc t (t.key x) ≡ b
          → sel x ≡ true
          → call_hash hash alloc u (t.key x) ≡ c)
      → Bucket hash alloc u other c (staying sel xs)
  Bucket-part t u owner other b c sel xs v keys linked lacks place_owner owners homes =
      let p = place t b in
      let cells =
        All-staying (λ x. (owner x ≡ b + 1) × (p ≢ x)) sel xs
          (All-zip (λ x. owner x ≡ b + 1) (λ x. p ≢ x) (λ x. (owner x ≡ b + 1) × (p ≢ x))
            (λ x o ne. (o, ne)) xs v.owned.1 v.distinct.0) in
      record {
        linked = linked;
        distinct = (
          All-implies (λ x. (place u c ≢ x) × (sel x ≡ true)) (λ x. place u c ≢ x) (staying sel xs)
              (All-staying (λ x. place u c ≢ x) sel xs lacks) (λ x (h, _). h),
          Distinct-staying sel xs v.distinct.1,
        );
        owned = (
          place_owner,
          All-implies (λ x. ((owner x ≡ b + 1) × (p ≢ x)) × (sel x ≡ true)) (λ x. other x ≡ c + 1)
              (staying sel xs) cells (λ x ((o, ne), s). owners x o ne s),
        );
        at_home =
            All-implies (λ x. (call_hash hash alloc t (t.key x) ≡ b) × (sel x ≡ true))
              (λ x. call_hash hash alloc u (u.key x) ≡ c) (staying sel xs)
              (All-staying (λ x. call_hash hash alloc t (t.key x) ≡ b) sel xs v.at_home)
              (λ x (h, s). ap (λ key. call_hash hash alloc u (key x)) keys ∙ homes x h s);
        one_each =
            subst (λ key. OneEach key (staying sel xs)) (sym keys)
              (OneEach-staying t.key sel xs v.one_each);
      }

  empty-Bucket :
      (t : HashTable) (owner : ℕ → ℕ) (b : ℕ) (xs : List ℕ)
      → Bucket hash alloc t owner b xs
      → ((k : ℕ) → call_hash hash alloc t k ≢ b)
      → xs ≡ []
  empty-Bucket t owner b [] v none = refl
  empty-Bucket t owner b (x ∷ xs) v none = absurd (none (t.key x) v.at_home.0)

  -- the loop of `expand_table` keeps the invariant; the elements that do not stay go to the new bucket
  pub split_loop-IsTable :
      (slots : ℕ) (chain : ℕ → List ℕ) (free : List ℕ) (owner : ℕ → ℕ) (t : HashTable) (old : ℕ)
      (g : ℕ → ℕ)
      → IsTable hash alloc slots chain free owner t
      → t.max_bucket + 1 < slots
      → t.max_bucket + 1 < 2 ^ 32
      → bit_and (t.max_bucket + 1) t.low_mask ≡ old
      → Chain g
          (place t old)
          (staying (stays_in hash alloc (next_bucket hash alloc t) old) (chain old))
      → Chain g
          (place t (t.max_bucket + 1))
          (going (stays_in hash alloc (next_bucket hash alloc t) old) (chain old))
      → ((q : ℕ) → Lacks q (place t old ∷ place t (t.max_bucket + 1) ∷ chain old) → g q ≡ t.words q)
      → IsTable hash alloc slots
          (split_chain chain
            (stays_in hash alloc (next_bucket hash alloc t) old)
            old
            (t.max_bucket + 1))
          free
          (split_owner owner
            (stays_in hash alloc (next_bucket hash alloc t) old)
            (place t old)
            old
            (t.max_bucket + 1))
          (record (next_bucket hash alloc t) { words = g })
  unfolding next_bucket
  split_loop-IsTable slots chain free owner t old g v room small is_old to_old to_n same =
      let n = t.max_bucket + 1 in
      let w = next_bucket hash alloc t in
      let u : HashTable = record w { words = g } in
      let p = place t old in
      let stays = stays_in hash alloc w old in
      let owner2 = split_owner owner stays p old n in
      let le : old ≤ t.max_bucket =
        subst (λ x. x ≤ t.max_bucket) is_old (old_bucket-lt hash alloc v.mask_digits t v.masked) in
      let differ : n ≢ old = (λ q. absurd (omega (arith, q, le))) in
      let old_lt : old < slots = omega arith in
      let at_old = v.bucket old old_lt in
      let at_n = v.bucket n room in
      let none =
        empty-Bucket t owner n (chain n) at_n
          (λ k q. absurd (omega (arith, q, call_hash-le hash alloc v.mask_digits t k v.masked))) in
      let (j, masked) = next_bucket-Masked hash alloc v.mask_digits t v.masked small in
      let place_same = λ (c : ℕ). place-same t u c refl refl refl in
      let home_same = λ (k : ℕ). call_hash-same hash alloc w u k refl refl refl in
      let next_home =
        λ (k : ℕ). next_bucket-call_hash hash alloc v.mask_digits t k v.masked small in
      let untouched = λ (q m : ℕ) (o : owner q ≡ m) (a : m ≢ old + 1) (b : m ≢ n + 1). same q (
        (
          (λ s. a (sym o ∙ (ap owner s ∙ at_old.owned.0))),
          (
            (λ s. b (sym o ∙ (ap owner s ∙ at_n.owned.0))),
            Lacks-owner owner q (old + 1) (chain old) (λ e. a (sym o ∙ e)) at_old.owned.1,
          ),
        )) in
      record {
        mask_digits = j;
        masked = masked;
        within = room;
        bucket =
            with_chain-each (λ c xs. (clt : c < slots) → Bucket hash alloc u owner2 c xs)
              (with_chain chain old (staying stays (chain old))) n (going stays (chain old))
              (λ clt.
                subst (λ xs. Bucket hash alloc u owner2 n xs)
                  (sym (going-staying stays (chain old)))
                  (Bucket-part t u owner owner2 old n (λ x. not (stays x)) (chain old) at_old refl
                    (rw (place_same n)
                      (subst (λ xs. Chain g (place t n) xs) (going-staying stays (chain old)) to_n))
                    (rw (place_same n) (
                      Lacks-owner owner (place t n) (old + 1) (chain old)
                        (λ e. let e2 = at_n.owned.0 in absurd (omega (arith, e, e2, le)))
                        at_old.owned.1))
                    (rw (place_same n) (
                      split_owner-other owner stays p old n (place t n) (n + 1) at_n.owned.0
                        (omega arith)))
                    (λ x o ne s. split_owner-goes owner stays p old n x o ne (not-true (stays x) s))
                    (λ x h s. home_same (t.key x) ∙ elim (next_home (t.key x)) [
                      | inl stay ↦ absurd (
                          ==→ne (call_hash hash alloc w (t.key x)) old (not-true (stays x) s)
                            (stay ∙ h))
                      | inr (_, at_new) ↦ at_new
                    ])))
              (λ c ne.
                with_chain-each
                  (λ c xs. c ≢ n → (clt : c < slots) → Bucket hash alloc u owner2 c xs) chain old
                  (staying stays (chain old))
                  (λ _ clt.
                    Bucket-part t u owner owner2 old old stays (chain old) at_old refl
                      (rw (place_same old) to_old) (rw (place_same old) at_old.distinct.0)
                      (rw (place_same old) (split_owner-place owner stays p old n at_old.owned.0))
                      (λ x o ne s. split_owner-stays owner stays p old n x o ne s)
                      (λ x h s.
                        home_same (t.key x) ∙ ==→eq (call_hash hash alloc w (t.key x)) old s))
                  (λ d nd ne clt.
                    Bucket-same hash alloc t u owner owner2 d (chain d) (v.bucket d clt)
                      (place_same d)
                      (λ q o. (
                        untouched q (d + 1) o (λ e. nd (omega arith)) (λ e. ne (omega arith)),
                        refl,
                        split_owner-other owner stays p old n q (d + 1) o (λ e. nd (omega arith))
                            ∙ sym o,
                      ))
                      (λ k h. home_same k ∙ elim (next_home k) [
                        | inl stay ↦ stay ∙ h
                        | inr (at_split, _) ↦ absurd (nd (sym h ∙ (at_split ∙ is_old)))
                      ]))
                  c ne);
        free_list = record {
          leads = Leads-same t.words g t.free_bucket_index free v.free_list.leads (
              All-implies (λ x. owner x ≡ 0) (λ x. g x ≡ t.words x) free v.free_list.unowned
                (λ x o. untouched x 0 o (omega arith) (omega arith)));
          different = v.free_list.different;
          unowned =
              All-implies (λ x. owner x ≡ 0) (λ x. owner2 x ≡ 0) free v.free_list.unowned
                (λ x o. split_owner-other owner stays p old n x 0 o (omega arith));
        };
      }
