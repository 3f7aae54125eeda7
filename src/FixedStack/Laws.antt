-- ===== src/FixedStack/Laws.antt =====
-- The stack as the list of its structures.
use mathlib.Core.Path.{subst}
use postgres_v.Base.{
  ℕ, zero, suc, ◌+◌, ◌-◌, ◌<◌, ◌≡◌, ◌≢◌, refl, ap, inl, inr, true, false, some, List, [], ◌∷◌, ◌++◌,
  length, arith, ◌==◌, if◌then◌else◌, All, Bool-cases,
}
use postgres_v.FixedStack.{
  State, fixed_stack_init, fixed_stack_pop, fixed_stack_push, fixed_stack_get_top, contains_loop,
  fixed_stack_contains, fixed_stack_get_next,
}

-- the items of the structures, in order from `item` on, with a NULL behind the last
abbrev pub Linked : (offset : ℕ) → (ℕ → ℕ) → (item : ℕ) → List ℕ → Type 0
Linked offset next item [] = item ≡ 0
Linked offset next item (p ∷ ps) = (0 < p) × (item ≡ p + offset) × Linked offset next (next item) ps

abbrev pub Holds : State → List ℕ → Type 0
Holds s ps = Linked s.stack.offset s.next s.stack.top ps

abbrev pub first : List ℕ → ℕ
first [] = 0
first (p ∷ ps) = p

abbrev pub rest_of : List ℕ → List ℕ
rest_of [] = []
rest_of (p ∷ ps) = ps

abbrev pub Lacks : ℕ → List ℕ → Type 0
Lacks p ps = All (λ q. p ≢ q) ps

Linked-update :
    (offset : ℕ) (next : ℕ → ℕ) (item p v : ℕ) (ps : List ℕ)
    → Lacks p ps
    → Linked offset next item ps
    → Linked offset (λ a. if p + offset == a then v else next a) item ps
Linked-update offset next item p v [] out t = t
Linked-update offset next item p v (q ∷ ps) (ne, out) (pos, e, t) =
    let other : (p + offset == item) ≡ false = ground arith in
    (pos, e, rw other (Linked-update offset next (next item) p v ps out t))

-- Pushing a structure that is not on the stack, by a pointer that is not NULL, puts it on top of
-- the others, which stay in order; the next pop returns it and leaves a stack that holds them.
pub push-pop :
    (s : State) (p : ℕ) (ps : List ℕ)
    → Holds s ps
    → 0 < p
    → Lacks p ps
    → (t : State) × (fixed_stack_push p s ≡ some t)
      × Holds t (p ∷ ps)
      × (fixed_stack_get_top t ≡ p)
      × ((fixed_stack_pop t).0 ≡ p)
      × Holds (fixed_stack_pop t).1 ps
unfolding fixed_stack_push fixed_stack_pop fixed_stack_get_top
push-pop s p ps h pos out =
    let offset = s.stack.offset in
    let item = p + offset in
    let t : State = record {
      stack = record s.stack { top = item };
      next = λ a. if item == a then s.stack.top else s.next a;
    } in
    let nz : (p == 0) ≡ false = ground arith in
    let ni : (item == 0) ≡ false = ground arith in
    let here : (item == item) ≡ true = ground arith in
    let base : item - offset ≡ p = omega arith in
    let below = Linked-update offset s.next s.stack.top p s.stack.top ps out h in
    (
      t,
      rw nz refl,
      (pos, refl, rw here below),
      rw (ni, base) refl,
      rw (ni, base) refl,
      rw (ni, here) below,
    )

-- On a stack that holds a list of structures, `fixed_stack_pop` returns the first, or NULL when
-- there is none, and leaves the rest; `fixed_stack_get_top` returns the same without a change; and
-- a stack that `fixed_stack_init` makes holds none.
pop-Holds :
    (s : State) (ps : List ℕ) (offset : ℕ)
    → Holds s ps
    → ((fixed_stack_pop s).0 ≡ first ps)
      × Holds (fixed_stack_pop s).1 (rest_of ps)
      × (fixed_stack_get_top s ≡ first ps)
      × Holds (fixed_stack_init offset s) []
unfolding fixed_stack_pop fixed_stack_get_top fixed_stack_init
pop-Holds s [] offset h =
    let z : (s.stack.top == 0) ≡ true = ground arith in (rw z refl, rw z h, rw z refl, refl)
pop-Holds s (p ∷ ps) offset (pos, e, t) =
    let z : (s.stack.top == 0) ≡ false = ground arith in
    let base : s.stack.top - s.stack.offset ≡ p = omega arith in
    (rw (z, base) refl, rw z t, rw (z, base) refl, refl)

-- the structure is met in the loop
contains_loop-found :
    (offset : ℕ) (next : ℕ → ℕ) (fuel item p : ℕ) (ps qs : List ℕ)
    → Linked offset next item (ps ++ p ∷ qs)
    → length ps < fuel
    → contains_loop fuel next item (p + offset) ≡ some true
unfolding contains_loop
contains_loop-found offset next zero item p ps qs t lt = absurd (omega arith)
contains_loop-found offset next (suc fuel) item p [] qs (pos, e, t) lt =
    let nz : (item == 0) ≡ false = ground arith in
    let eq : (item == p + offset) ≡ true = ground arith in rw (nz, eq)
contains_loop-found offset next (suc fuel) item p (q ∷ ps) qs (pos, e, t) lt =
    let nz : (item == 0) ≡ false = ground arith in
    let rest = contains_loop-found offset next fuel (next item) p ps qs t (omega arith) in
    elim (Bool-cases (item == p + offset)) [ inl y ↦ rw (nz, y) | inr n ↦ rw (nz, n, rest) ]

after_item :
    (offset : ℕ) (next : ℕ → ℕ) (item p : ℕ) (ps qs : List ℕ)
    → Linked offset next item (ps ++ p ∷ qs)
    → Linked offset next (next (p + offset)) qs
after_item offset next item p [] qs (pos, e, t) = subst (λ i. Linked offset next (next i) qs) e t
after_item offset next item p (q ∷ ps) qs (pos, e, t) = after_item offset next (next item) p ps qs t

-- With fuel for one round more than there are structures above it, `fixed_stack_get_next` of a
-- structure on the stack returns the one below it, or NULL for the last.
get_next-first :
    (s : State) (fuel p : ℕ) (ps qs : List ℕ)
    → Holds s (ps ++ p ∷ qs)
    → 0 < p
    → length ps < fuel
    → fixed_stack_get_next fuel s p ≡ some (first qs)
unfolding fixed_stack_get_next fixed_stack_contains
get_next-first s fuel p ps qs h pos lt =
    let nz : (p == 0) ≡ false = ground arith in
    let met = contains_loop-found s.stack.offset s.next fuel s.stack.top p ps qs h lt in
    let c : fixed_stack_contains fuel s p ≡ some true = rw nz met in
    rw (fixed_stack_get_next, c)
      (ap some (answer qs (after_item s.stack.offset s.next s.stack.top p ps qs h)))
  where
    answer :
        (qs : List ℕ)
        → Linked s.stack.offset s.next (s.next (p + s.stack.offset)) qs
        → (if s.next (p + s.stack.offset) == 0
            then 0
            else s.next (p + s.stack.offset) - s.stack.offset)
          ≡ first qs
    answer [] e = ground arith
    answer (q ∷ qs) (pq, e, t) = ground arith
