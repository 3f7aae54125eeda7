-- ===== src/MemoryContext/Tree.antt =====
-- The contexts of mctx.c as a tree: what the links of a list of children say, and the resets of all
-- contexts of a list.
use mathlib.Core.Path.{subst}
use postgres_v.Base.{
  ℕ, zero, suc, ◌+◌, ◌<◌, ◌≤◌, ◌≡◌, refl, sym, ◌∙◌, true, false, some, List, [], ◌∷◌, ◌++◌, arith,
  ◌==◌, max_align, All, All-split,
}
use postgres_v.MemoryContext.{
  Contexts, MethodCall, reset_call, context_is_valid, call_method, memory_context_reset, reset_loop,
}

-- a list of children: the first one with its children, and the others
pub data Forest : Type 0 where
  no_context : Forest
  one_context : (context : ℕ) → (children others : Forest) → Forest

unfoldable pub contexts : Forest → List ℕ
contexts no_context = []
contexts (one_context x kids rest) = x ∷ (contexts kids ++ contexts rest)

-- a context that can be deleted: it is valid, and its node is a chunk of a valid one
abbrev pub Good : Contexts → ℕ → Type 0
Good s x =
    (context_is_valid s x ≡ true)
    × (x ≡ max_align x)
    × (context_is_valid s (s.header_context x) ≡ true)

-- the list of children from `child` on, with the parent `p`
abbrev pub Shape : Contexts → (p child : ℕ) → Forest → Type 0
Shape s p child no_context = child ≡ 0
Shape s p child (one_context x kids rest) =
    (child ≡ x)
    × (0 < x)
    × Good s x
    × (s.parent x ≡ p)
    × Shape s x (s.firstchild x) kids
    × Shape s p (s.nextchild x) rest

-- the fields of a context that the tree is about
abbrev pub Same : (s u : Contexts) → ℕ → Type 0
Same s u q =
    (u.parent q ≡ s.parent q)
    × (u.firstchild q ≡ s.firstchild q)
    × (u.nextchild q ≡ s.nextchild q)
    × (Good s q → Good u q)

pub Shape-Same :
    (s u : Contexts) (p child : ℕ) (f : Forest)
    → Shape s p child f
    → All (Same s u) (contexts f)
    → Shape u p child f
unfolding contexts
Shape-Same s u p child no_context e same = e
Shape-Same s u p child (one_context x kids rest) (e, pos, good, up, below, beside)
      ((pa, fc, nc, keeps), all) =
    let (inner, outer) = All-split (Same s u) (contexts kids) (contexts rest) all in
    (
      e,
      pos,
      keeps good,
      pa ∙ up,
      subst (λ c. Shape u x c kids) (sym fc) (Shape-Same s u x (s.firstchild x) kids below inner),
      subst (λ c. Shape u p c rest) (sym nc) (Shape-Same s u p (s.nextchild x) rest beside outer),
    )

pub All-every : (P : ℕ → Type 0) (xs : List ℕ) → ((x : ℕ) → P x) → All P xs
All-every P [] f = tt
All-every P (x ∷ xs) f = (f x, All-every P xs f)

pub valid-same :
    (s u : Contexts) (x : ℕ)
    → u.node_type ≡ s.node_type
    → context_is_valid u x ≡ context_is_valid s x
unfolding context_is_valid
valid-same s u x e = rw e refl

-- the rounds of the loops over a list of children
unfoldable pub rounds : Forest → ℕ
rounds no_context = 1
rounds (one_context x kids rest) = (rounds kids + rounds rest) + 2

-- the calls that reset the contexts, each one after its children, in front of `calls`
unfoldable pub resets : Forest → List MethodCall → List MethodCall
resets no_context calls = calls
resets (one_context x kids rest) calls = resets rest (reset_call x ∷ resets kids calls)

Shape-calls :
    (s : Contexts) (calls : List MethodCall) (p child : ℕ) (f : Forest)
    → Shape s p child f
    → Shape (record s { calls = calls }) p child f
Shape-calls s calls p child f shape =
    let u : Contexts = record s { calls = calls } in
    Shape-Same s u p child f shape (
      All-every (Same s u) (contexts f) (λ q. (
        refl,
        refl,
        refl,
        λ (valid, aligned, owner). (
          valid-same s u q refl ∙ valid,
          aligned,
          valid-same s u (s.header_context q) refl ∙ owner,
        ),
      )))

pub reset_loop-resets :
    (fuel : ℕ) (s : Contexts) (p child : ℕ) (f : Forest)
    → Shape s p child f
    → rounds f ≤ fuel
    → reset_loop fuel child s ≡ some (record s { calls = resets f s.calls })
unfolding reset_loop memory_context_reset rounds resets call_method
reset_loop-resets zero s p child no_context e le = absurd (omega arith)
reset_loop-resets (suc fuel) s p child no_context e le = rw e refl
reset_loop-resets zero s p child (one_context x kids rest) shape le = absurd (omega arith)
reset_loop-resets (suc zero) s p child (one_context x kids rest) shape le = absurd (omega arith)
reset_loop-resets (suc (suc fuel)) s p child (one_context x kids rest)
      (e, pos, (valid, aligned, owner), up, below, beside) le =
    let some_x : (x == 0) ≡ false = ground arith in
    let calls = reset_call x ∷ resets kids s.calls in
    let inner = reset_loop-resets fuel s x (s.firstchild x) kids below (omega arith) in
    let u : Contexts = record s { calls = calls } in
    let outer =
      reset_loop-resets (suc fuel) u p (s.nextchild x) rest
        (Shape-calls s calls p (s.nextchild x) rest beside) (omega arith) in
    rw (e, some_x, valid, inner) outer

-- When the context `c` is valid, the links have the forest `f` below it, and the fuel exceeds the rounds
-- of its loops, `memory_context_reset` calls the method reset once for each context below `c`, each
-- one after its own children, and last for `c`. Nothing else changes.
pub memory_context_reset-resets :
    (fuel : ℕ) (s : Contexts) (c : ℕ) (f : Forest)
    → context_is_valid s c ≡ true
    → Shape s c (s.firstchild c) f
    → rounds f < fuel
    → memory_context_reset fuel c s ≡ some (record s { calls = reset_call c ∷ resets f s.calls })
unfolding memory_context_reset call_method
memory_context_reset-resets zero s c f valid shape lt = absurd (omega arith)
memory_context_reset-resets (suc fuel) s c f valid shape lt =
    rw (valid, reset_loop-resets fuel s c (s.firstchild c) f shape (omega arith)) refl
