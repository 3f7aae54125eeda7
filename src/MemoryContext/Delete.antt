-- ===== src/MemoryContext/Delete.antt =====
-- The deletion of contexts in mctx.c: `memory_context_delete_children` deletes all below a context.
use postgres_v.Base.{
  ℕ, zero, suc, ◌<◌, ◌≤◌, ◌≡◌, ◌≢◌, refl, sym, ◌∙◌, true, false, Option, some, List, [], ◌∷◌, ◌++◌,
  arith, ◌==◌, max_align, All, All-split, All-zip, ne→==, eq→==,
}
use postgres_v.Rings.{store, Lacks, Distinct}
use postgres_v.MemoryContext.Tree.{
  Forest, no_context, one_context, contexts, Good, Shape, Same, Shape-Same, All-every, valid-same,
  rounds,
}
use postgres_v.MemoryContext.{
  Contexts, MethodCall, delete_call, free_call, context_is_valid, and_then, call_method, pfree,
  delink, memory_context_delete, delete_loop, memory_context_delete_children,
}

-- the calls that delete the contexts and free their nodes, each one after its children, in front of
-- `calls`; `h` has the contexts that the nodes are chunks of
pub deletions : (h : ℕ → ℕ) → Forest → List MethodCall → List MethodCall
deletions h no_context calls = calls
deletions h (one_context x kids rest) calls =
    deletions h rest (free_call (h x) x ∷ delete_call x ∷ deletions h kids calls)

-- two parts of a list of distinct elements
pub Distinct-split :
    (xs ys : List ℕ) → Distinct (xs ++ ys) → All (λ q. Lacks q xs) ys × Distinct xs × Distinct ys
Distinct-split [] ys d = (All-every (λ q. Lacks q []) ys (λ q. tt), tt, d)
Distinct-split (x ∷ xs) ys (l, d) =
    let (lx, ly) = All-split (λ q. x ≢ q) xs ys l in
    let (cross, dx, dy) = Distinct-split xs ys d in
    (
      All-zip (λ q. x ≢ q) (λ q. Lacks q xs) (λ q. Lacks q (x ∷ xs))
          (λ q ne c. ((λ e. ne (sym e)), c)) ys ly cross,
      (lx, dx),
      dy,
    )

-- the end of `memory_context_delete`, for the first child of `c`
delete-first :
    (fuel : ℕ) (u : Contexts) (c x : ℕ)
    → u.parent x ≡ c
    → 0 < c
    → u.firstchild c ≡ x
    → 0 < x
    → Good u x
    → and_then (delink fuel x u) (λ v. and_then (call_method (delete_call x) v) (pfree x))
      ≡ some (record u {
        firstchild = store u.firstchild c (u.nextchild x);
        calls = free_call (u.header_context x) x ∷ delete_call x ∷ u.calls;
      })
unfolding delink call_method pfree
delete-first fuel u c x up c_pos first pos (valid, aligned, owner) =
    let some_c : (c == 0) ≡ false = ground arith in
    let some_x : (x == 0) ≡ false = ground arith in
    let here : (x == x) ≡ true = ground arith in
    let is_aligned : (x == max_align x) ≡ true = eq→== x (max_align x) aligned in
    let v : Contexts = record u {
      firstchild = store u.firstchild c (u.nextchild x);
      calls = delete_call x ∷ u.calls;
    } in
    let still = valid-same u v (u.header_context x) refl ∙ owner in
    rw (up, some_c, first, here, some_x, is_aligned, still) refl

-- what the deletion of the forest `f` below `c` leaves
abbrev pub Emptied : Contexts → (c : ℕ) → Forest → Option Contexts → Type 0
Emptied s c f r =
    (g : ℕ → ℕ) × (r
      ≡ some (record s { firstchild = g; calls = deletions s.header_context f s.calls }))
    × (g c ≡ 0)
    × ((q : ℕ) → Lacks q (c ∷ contexts f) → g q ≡ s.firstchild q)

pub delete_loop-empties :
    (fuel : ℕ) (s : Contexts) (c : ℕ) (f : Forest)
    → Shape s c (s.firstchild c) f
    → 0 < c
    → Distinct (c ∷ contexts f)
    → Lacks s.top (contexts f)
    → Lacks s.current (contexts f)
    → rounds f ≤ fuel
    → Emptied s c f (delete_loop fuel c s)
unfolding delete_loop memory_context_delete rounds contexts deletions
delete_loop-empties zero s c no_context e pos d no_top no_current le = absurd (omega arith)
delete_loop-empties (suc fuel) s c no_context e pos d no_top no_current le =
    (s.firstchild, rw e refl, e, λ q out. refl)
delete_loop-empties zero s c (one_context x kids rest) shape pos d no_top no_current le =
    absurd (omega arith)
delete_loop-empties (suc zero) s c (one_context x kids rest) shape pos d no_top no_current le =
    absurd (omega arith)
delete_loop-empties (suc (suc fuel)) s c (one_context x kids rest)
      (e, x_pos, good, up, below, beside) pos ((cx, out), (apart, d)) (tx, no_top) (yx, no_current)
      le =
    let (ck, cr) = All-split (λ q. c ≢ q) (contexts kids) (contexts rest) out in
    let (xk, xr) = All-split (λ q. x ≢ q) (contexts kids) (contexts rest) apart in
    let (tk, tr) = All-split (λ q. s.top ≢ q) (contexts kids) (contexts rest) no_top in
    let (yk, yr) = All-split (λ q. s.current ≢ q) (contexts kids) (contexts rest) no_current in
    let (cross, dk, dr) = Distinct-split (contexts kids) (contexts rest) d in
    let (g, run, empty, kept) =
      delete_loop-empties fuel s x kids below x_pos (xk, dk) tk yk (omega arith) in
    let u : Contexts = record s {
      firstchild = g;
      calls = deletions s.header_context kids s.calls;
    } in
    let first : g c ≡ x = kept c (cx, ck) ∙ e in
    let (valid, aligned, owner) = good in
    let good_u : Good u x =
      (valid-same s u x refl ∙ valid, aligned, valid-same s u (s.header_context x) refl ∙ owner) in
    let ending = delete-first fuel u c x up pos first x_pos good_u in
    let w : Contexts = record u {
      firstchild = store g c (s.nextchild x);
      calls =
          free_call (s.header_context x) x
          ∷ delete_call x
          ∷ deletions s.header_context kids s.calls;
    } in
    let here : (c == c) ≡ true = ground arith in
    let same_rest =
      All-zip (λ q. c ≢ q) (λ q. Lacks q (x ∷ contexts kids)) (Same s w)
        (λ q cq lacks. (
          refl,
          (let other = ne→== c q cq in rw other (kept q lacks)),
          refl,
          λ (v, a, o). (valid-same s w q refl ∙ v, a, valid-same s w (s.header_context q) refl ∙ o),
        ))
        (contexts rest) cr
        (All-zip (λ q. x ≢ q) (λ q. Lacks q (contexts kids)) (λ q. Lacks q (x ∷ contexts kids))
          (λ q ne l. ((λ i. ne (sym i)), l)) (contexts rest) xr cross) in
    let (h, rerun, emptied, stays) =
      delete_loop-empties (suc fuel) w c rest
        (rw here (Shape-Same s w c (s.nextchild x) rest beside same_rest)) pos (cr, dr) tr yr
        (omega arith) in
    let some_x : (x == 0) ≡ false = ground arith in
    (
      h,
      rw
          (
            e,
            some_x,
            valid,
            ne→== x s.top (λ i. tx (sym i)),
            ne→== x s.current (λ i. yx (sym i)),
            run,
            ending,
          )
          rerun,
      emptied,
      λ q (qc, (qx, others)).
          let (qk, qr) = All-split (λ y. q ≢ y) (contexts kids) (contexts rest) others in
          stays q (qc, qr)
          ∙ (let other : (c == q) ≡ false = ne→== c q (λ i. qc (sym i)) in
              rw other (kept q (qx, qk))),
    )

-- When `c` is valid, the links have the forest `f` below it, whose contexts are distinct and neither
-- `c`, nor the top context, nor the current one, and the fuel is not less than the rounds of the
-- loops, `memory_context_delete_children` calls the method delete once for each context below `c` and
-- then frees its node, each one after its own children. `c` has no child then, and the first child
-- of each context outside is the one that it was.
pub memory_context_delete_children-Emptied :
    (fuel : ℕ) (s : Contexts) (c : ℕ) (f : Forest)
    → context_is_valid s c ≡ true
    → Shape s c (s.firstchild c) f
    → 0 < c
    → Distinct (c ∷ contexts f)
    → Lacks s.top (contexts f)
    → Lacks s.current (contexts f)
    → rounds f ≤ fuel
    → Emptied s c f (memory_context_delete_children fuel c s)
unfolding memory_context_delete_children
memory_context_delete_children-Emptied fuel s c f valid shape pos d no_top no_current le =
    rw valid (delete_loop-empties fuel s c f shape pos d no_top no_current le)
