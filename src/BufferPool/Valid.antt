-- ===== src/BufferPool/Valid.antt =====
-- The free list as a list of buffers, in the order of their last unpin, and how single steps of the
-- operations change it.
use mathlib.Core.Path.{subst}
use postgres_v.Base.{
  ℕ, ◌<◌, ◌≡◌, ◌≢◌, refl, sym, inl, inr, true, false, some, List, [], ◌∷◌, ◌++◌, arith, ◌==◌, All,
  All-parts, All-append, All-zip, All-split, Bool-cases, ==→ne,
}
use postgres_v.Rings.{
  store, Ring, Lacks, Distinct, last, head_or, Lacks-last, Lacks-head_or, Seg-last, Seg-at,
  inserted, Seg-inserted, unlinked, cleared, Seg-unlinked, Seg-cleared, Distinct-without,
  Distinct-append,
}
use postgres_v.BufferPool.{
  Pool, invalid_descriptor, has_free, set_free, unset_free, not_in_queue, add_buffer_to_freelist,
  remove_from_freelist, count_pin, count_unpin, mark_free,
}

-- a buffer on the free list
pub record IsQueued (p : Pool) (b : ℕ) : Type 0 where
  pub unpinned : p.refcount b ≡ 0
  pub mine : p.private_ref_count b ≡ 0
  pub marked : has_free (p.flags b) ≡ true
  pub buffer : b < p.free_list_descriptor

-- a buffer that is off it
pub record IsOff (p : Pool) (b : ℕ) : Type 0 where
  pub next_invalid : p.links.next b ≡ invalid_descriptor
  pub prev_invalid : p.links.prev b ≡ invalid_descriptor
  pub unmarked : has_free (p.flags b) ≡ false

-- the free list of the pool, from the head on
pub record IsPool (p : Pool) (order : List ℕ) : Type 0 where
  pub limit : p.free_list_descriptor < invalid_descriptor
  pub ring : Ring p.links p.free_list_descriptor order
  pub distinct : Distinct (p.free_list_descriptor ∷ order)
  pub queued : All (IsQueued p) order
  pub others : (b : ℕ) → b < p.free_list_descriptor → Lacks b order → IsOff p b

has_free-unset : (f : ℕ) → has_free (unset_free f) ≡ false
has_free-unset f = ground arith

has_free-set : (f : ℕ) → has_free (set_free f) ≡ true
has_free-set f = ground arith

-- the neighbours of a queued buffer are no other buffer that is off the list
module _ (p : Pool) (b : ℕ) (xs ys : List ℕ) (v : IsPool p (xs ++ b ∷ ys)) where
  head : ℕ
  head = p.free_list_descriptor

  neighbours :
      (p.links.prev b ≡ last p.free_list_descriptor xs)
      × (p.links.next b ≡ head_or ys p.free_list_descriptor)
  neighbours = Seg-at p.links p.free_list_descriptor p.free_list_descriptor b xs ys v.ring

  pub unqueue-IsPool : IsPool (remove_from_freelist b p) (xs ++ ys)
  unfolding remove_from_freelist
  unqueue-IsPool =
      let a = p.free_list_descriptor in
      let (out, rest) = Distinct-without b (a ∷ xs) ys v.distinct in
      let (qx, qb, qy) = All-parts (IsQueued p) xs b ys v.queued in
      let r = remove_from_freelist b p in
      record {
        limit = v.limit;
        ring =
            subst
              (λ pr.
                Ring (cleared (unlinked p.links pr (p.links.next b)) b invalid_descriptor) a
                  (xs ++ ys))
              (sym neighbours.0)
              (subst
                (λ nx.
                  Ring (cleared (unlinked p.links (last a xs) nx) b invalid_descriptor) a
                    (xs ++ ys))
                (sym neighbours.1)
                (Seg-cleared (unlinked p.links (last a xs) (head_or ys a)) a a b invalid_descriptor
                  (xs ++ ys) (Seg-unlinked p.links a a b xs ys v.ring v.distinct v.distinct.0) out
                  out.0));
        distinct = rest;
        queued =
            All-zip (λ c. b ≢ c) (IsQueued p) (IsQueued r)
              (λ c ne q. record {
                unpinned = q.unpinned;
                mine = q.mine;
                marked = let m = q.marked in ground arith;
                buffer = q.buffer;
              })
              (xs ++ ys) out.1 (All-append (IsQueued p) xs ys qx qy);
        others = λ c lt off. elim (Bool-cases (b == c)) [
          | inl e ↦ record {
            next_invalid = rw e refl;
            prev_invalid = rw e refl;
            unmarked = rw e (has_free-unset (p.flags b));
          }
          | inr e ↦
              let ne : c ≢ b = λ q. ==→ne _ _ e (sym q) in
              let (ox, oy) = All-split (λ x. c ≢ x) xs ys off in
              let o = v.others c lt (All-append (λ x. c ≢ x) xs (b ∷ ys) ox (ne, oy)) in
              let ca : c ≢ a = λ q. omega arith in
              let cp = Lacks-last c a xs (ca, ox) in
              let cn = Lacks-head_or c a ys oy ca in
              let ep = neighbours.0 in
              let en = neighbours.1 in
              let fp : (p.links.prev b == c) ≡ false = ground arith in
              let fn : (p.links.next b == c) ≡ false = ground arith in
              record {
                next_invalid = rw (e, fp) o.next_invalid;
                prev_invalid = rw (e, fn) o.prev_invalid;
                unmarked = rw e o.unmarked;
              }
        ];
      }

pub IsOff-not_in_queue : (p : Pool) (b : ℕ) → IsOff p b → not_in_queue p b ≡ true
unfolding not_in_queue
IsOff-not_in_queue p b o =
    let e1 = o.next_invalid in
    let e2 = o.prev_invalid in let e3 = o.unmarked in rw (e1, e2, e3) refl

-- the counts of a buffer off the list are of no concern to it
module _ (p : Pool) (b : ℕ) (order : List ℕ) (v : IsPool p order) (off : Lacks b order) where
  pub count_pin-IsPool : IsPool (count_pin b p) order
  unfolding count_pin
  count_pin-IsPool = record {
    limit = v.limit;
    ring = v.ring;
    distinct = v.distinct;
    queued =
        All-zip (λ c. b ≢ c) (IsQueued p) (IsQueued (count_pin b p))
          (λ c ne q. record {
            unpinned = let m = q.unpinned in ground arith;
            mine = let m = q.mine in ground arith;
            marked = q.marked;
            buffer = q.buffer;
          })
          order off v.queued;
    others = λ c lt out.
        let o = v.others c lt out in
        record {
          next_invalid = o.next_invalid;
          prev_invalid = o.prev_invalid;
          unmarked = o.unmarked;
        };
  }

  pub count_unpin-IsPool : IsPool (count_unpin b p) order
  unfolding count_unpin
  count_unpin-IsPool = record {
    limit = v.limit;
    ring = v.ring;
    distinct = v.distinct;
    queued =
        All-zip (λ c. b ≢ c) (IsQueued p) (IsQueued (count_unpin b p))
          (λ c ne q. record {
            unpinned = let m = q.unpinned in ground arith;
            mine = let m = q.mine in ground arith;
            marked = q.marked;
            buffer = q.buffer;
          })
          order off v.queued;
    others = λ c lt out.
        let o = v.others c lt out in
        record {
          next_invalid = o.next_invalid;
          prev_invalid = o.prev_invalid;
          unmarked = o.unmarked;
        };
  }

  -- a buffer with no pins goes to the end of the list
  pub enqueue-IsPool :
      b < p.free_list_descriptor
      → p.refcount b ≡ 0
      → p.private_ref_count b ≡ 0
      → (s : Pool) × (add_buffer_to_freelist b p ≡ some s)
        × IsPool (mark_free b s) (order ++ b ∷ [])
        × (s.refcount ≡ p.refcount)
        × (s.private_ref_count ≡ p.private_ref_count)
  unfolding add_buffer_to_freelist mark_free
  enqueue-IsPool lt none_left mine =
      let a = p.free_list_descriptor in
      let o = v.others b lt off in
      let ba : b ≢ a = λ q. omega arith in
      let back = (Seg-last p.links a a order v.ring).0 in
      let s : Pool = record p { links = inserted p.links a b (p.links.prev a) } in
      let t : Pool = record s { flags = store s.flags b (set_free (s.flags b)) } in
      let test : not_in_queue p b ≡ true = IsOff-not_in_queue p b o in
      (
        s,
        rw test refl,
        record {
          limit = v.limit;
          ring =
              subst (λ pr. Ring (inserted p.links a b pr) a (order ++ b ∷ [])) (sym back)
                (Seg-inserted p.links a a b order v.ring (ba, off) ba v.distinct.0 v.distinct);
          distinct = (
            All-append (λ x. a ≢ x) order (b ∷ []) v.distinct.0 ((λ q. ba (sym q)), tt),
            Distinct-append b order off v.distinct.1,
          );
          queued =
              All-append (IsQueued t) order (b ∷ [])
                (All-zip (λ c. b ≢ c) (IsQueued p) (IsQueued t)
                  (λ c ne q. record {
                    unpinned = q.unpinned;
                    mine = q.mine;
                    marked = let m = q.marked in ground arith;
                    buffer = q.buffer;
                  })
                  order off v.queued)
                (
                  record {
                    unpinned = none_left;
                    mine = mine;
                    marked =
                        let here : (b == b) ≡ true = ground arith in
                        rw here (has_free-set (p.flags b));
                    buffer = lt;
                  },
                  tt,
                );
          others = λ c ltc out.
              let (oc, (cb, _)) = All-split (λ x. c ≢ x) order (b ∷ []) out in
              let ca : c ≢ a = λ q. omega arith in
              let cl = Lacks-last c a order (ca, oc) in
              let h = v.others c ltc oc in
              let e1 : (b == c) ≡ false = ground arith in
              let e2 : (a == c) ≡ false = ground arith in
              let e3 : (p.links.prev a == c) ≡ false = ground arith in
              record {
                next_invalid = rw (e1, e3) h.next_invalid;
                prev_invalid = rw (e1, e2) h.prev_invalid;
                unmarked = rw e1 h.unmarked;
              };
        },
        refl,
        refl,
      )
