-- ===== src/MemoryContext/Create.antt =====
-- The creation of contexts in mctx.c: `memory_context_create` links the new one below its parent.
use postgres_v.Base.{
  not-true, All-implies, ℕ, ◌+◌, ◌<◌, ◌≡◌, ◌≢◌, refl, sym, ◌∙◌, inl, inr, Bool, true, false, not,
  ◌&&◌, some, ◌∷◌, arith, ◌==◌, max_align, All-zip, ne→==, Bool-cases,
}
use postgres_v.Rings.{store, Lacks}
use mathlib.Core.Path.{subst}
use postgres_v.MemoryContext.Tree.{
  valid-same, Forest, no_context, one_context, contexts, Shape, Same, Shape-Same,
}
use postgres_v.MemoryContext.{
  Contexts, init_call, alloc_set_context, alloc_size_is_valid, context_is_valid,
  memory_context_alloc, new_node, link_node, memory_context_create,
}

both-true : (a b : Bool) → (a && b) ≡ true → a ≡ true
both-true true b e = refl
both-true false b e = e

-- a context that was valid is, when another node gets the type of one
valid-kept :
    (s u : Contexts) (n y : ℕ)
    → u.node_type ≡ store s.node_type n alloc_set_context
    → context_is_valid s y ≡ true
    → context_is_valid u y ≡ true
unfolding context_is_valid
valid-kept s u n y e v = elim (Bool-cases (n == y)) [
  | inl same ↦ rw (e, same, both-true (not (y == 0)) (s.node_type y == alloc_set_context) v) refl
  | inr other ↦ rw (e, other) v
]

valid-some : (s : Contexts) (c : ℕ) → context_is_valid s c ≡ true → (c == 0) ≡ false
unfolding context_is_valid
valid-some s c v =
    not-true (c == 0) (both-true (not (c == 0)) (s.node_type c == alloc_set_context) v)

valid-new :
    (s u : Contexts) (n : ℕ)
    → u.node_type ≡ store s.node_type n alloc_set_context
    → 0 < n
    → context_is_valid u n ≡ true
unfolding context_is_valid
valid-new s u n e pos =
    let some_n : (n == 0) ≡ false = ground arith in
    let here : (n == n) ≡ true = ground arith in rw (e, some_n, here) refl

module _ (alloc : (context size : ℕ) → Contexts → ℕ × Contexts)
    (realloc : (context pointer size : ℕ) → Contexts → ℕ × Contexts) (malloc : (size : ℕ) → ℕ) where
  link_node-Shape :
      (t : Contexts) (p n : ℕ) (f : Forest)
      → Shape t p (t.firstchild p) f
      → 0 < p
      → 0 < n
      → n ≡ max_align n
      → Lacks n (p ∷ contexts f)
      → Lacks p (contexts f)
      → context_is_valid t (t.header_context n) ≡ true
      → Shape
          (link_node alloc realloc malloc alloc_set_context p n t)
          p
          ((link_node alloc realloc malloc alloc_set_context p n t).firstchild p)
          (one_context n no_context f)
  unfolding link_node
  link_node-Shape t p n f shape p_pos n_pos aligned (np, out) lacks owner =
      let fc = store t.firstchild n 0 in
      let w : Contexts = record t {
        node_type = store t.node_type n alloc_set_context;
        parent = store t.parent n p;
        firstchild = store fc p n;
        nextchild = store (store t.nextchild n 0) n (fc p);
        calls = init_call n ∷ t.calls;
      } in
      let some_p : (p == 0) ≡ false = ground arith in
      let p_p : (p == p) ≡ true = ground arith in
      let n_n : (n == n) ≡ true = ground arith in
      let n_p : (n == p) ≡ false = ne→== n p np in
      let p_n : (p == n) ≡ false = ne→== p n (λ e. np (sym e)) in
      let run : link_node alloc realloc malloc alloc_set_context p n t ≡ w = rw some_p refl in
      let others =
        All-zip (λ q. n ≢ q) (λ q. p ≢ q) (Same t w)
          (λ q nq pq.
            let n_q = ne→== n q nq in
            let p_q = ne→== p q pq in
            (
              rw n_q refl,
              rw (p_q, n_q) refl,
              rw n_q refl,
              λ (v, a, o).
                  (valid-kept t w n q refl v, a, valid-kept t w n (t.header_context q) refl o),
            ))
          (contexts f) out lacks in
      subst (λ x. Shape x p (x.firstchild p) (one_context n no_context f)) (sym run)
        (
          rw p_p refl,
          n_pos,
          (valid-new t w n refl n_pos, aligned, valid-kept t w n (t.header_context n) refl owner),
          rw n_n refl,
          rw (p_n, n_n) refl,
          rw (n_n, n_p) (Shape-Same t w p (t.firstchild p) f shape others),
        )

  -- When the top context is valid, the size of the node with its name is a valid one, and the method
  -- alloc of the top context gives an aligned chunk that is neither the parent `p` nor a context of
  -- the forest `f` below it, and writes the header of the chunk, with any size `z`,
  -- `memory_context_create` with the tag of an allocation set answers with the node, which is then
  -- the first child of `p`, without children, in front of those of `f`.
  pub memory_context_create-Shape :
      (s : Contexts) (size len p n z : ℕ) (f : Forest)
      → Shape s p (s.firstchild p) f
      → context_is_valid s s.top ≡ true
      → alloc_size_is_valid (size + len + 1) ≡ true
      → alloc s.top (size + len + 1) s ≡ (
        n,
        record s {
          header_context = store s.header_context n s.top;
          header_size = store s.header_size n z;
        },
      )
      → 0 < p
      → 0 < n
      → n ≡ max_align n
      → Lacks n (p ∷ contexts f)
      → Lacks p (contexts f)
      → (u : Contexts) × (memory_context_create alloc realloc malloc alloc_set_context size len p s
          ≡ some (n, u))
        × Shape u p (u.firstchild p) (one_context n no_context f)
  unfolding memory_context_create new_node memory_context_alloc
  memory_context_create-Shape s size len p n z f shape valid fits given p_pos n_pos aligned out
        lacks =
      let t : Contexts = record s {
        header_context = store s.header_context n s.top;
        header_size = store s.header_size n z;
      } in
      let n_n : (n == n) ≡ true = ground arith in
      let some_top = valid-some s s.top valid in
      let others =
        All-implies (λ q. n ≢ q) (Same s t) (contexts f) out.1
          (λ q nq. (
            refl,
            refl,
            refl,
            λ (v, a, o). (
              valid-same s t q refl ∙ v,
              a,
              (let n_q = ne→== n q nq in rw n_q (valid-same s t (s.header_context q) refl ∙ o)),
            ),
          )) in
      (
        link_node alloc realloc malloc alloc_set_context p n t,
        rw (some_top, valid, fits, given) refl,
        link_node-Shape t p n f (Shape-Same s t p (s.firstchild p) f shape others) p_pos n_pos
            aligned out lacks (rw n_n (valid-same s t s.top refl ∙ valid)),
      )
