-- ===== src/Rings.antt =====
-- Rings of doubly linked cells: what it means that the links form one, and how they do after a cell
-- was linked in at the end or taken out. Queues in shared memory, the free list of the buffer pool
-- and the files in order of use are such rings.
use postgres_v.Base.{
  ℕ, ◌≡◌, ◌≢◌, sym, List, [], ◌∷◌, ◌++◌, arith, ◌==◌, if◌then◌else◌, All, All-parts, All-append,
}

-- the links of each cell, by its address or its index
pub record Links : Type 0 where
  pub prev : ℕ → ℕ
  pub next : ℕ → ℕ

abbrev pub store : (ℕ → ℕ) → ℕ → ℕ → ℕ → ℕ
store f p v a = if p == a then v else f a

-- the links lead from `a` over the elements to `z`, and back
abbrev pub Seg : Links → (a : ℕ) → List ℕ → (z : ℕ) → Type 0
Seg m a [] z = (m.next a ≡ z) × (m.prev z ≡ a)
Seg m a (x ∷ xs) z = (m.next a ≡ x) × (m.prev x ≡ a) × Seg m x xs z

-- the head of the queue and its elements in a ring
abbrev pub Ring : Links → (head : ℕ) → List ℕ → Type 0
Ring m head xs = Seg m head xs head

abbrev pub Lacks : ℕ → List ℕ → Type 0
Lacks a xs = All (λ x. a ≢ x) xs

abbrev pub Distinct : List ℕ → Type 0
Distinct [] = Unit
Distinct (x ∷ xs) = Lacks x xs × Distinct xs

abbrev pub last : ℕ → List ℕ → ℕ
last a [] = a
last a (x ∷ xs) = last x xs

abbrev pub head_or : List ℕ → ℕ → ℕ
head_or [] z = z
head_or (x ∷ xs) z = x

pub Lacks-last : (a x : ℕ) (xs : List ℕ) → Lacks a (x ∷ xs) → a ≢ last x xs
Lacks-last a x [] (ne, _) = ne
Lacks-last a x (y ∷ xs) (ne, out) = Lacks-last a y xs out

pub Seg-last :
    (m : Links) (a z : ℕ) (xs : List ℕ)
    → Seg m a xs z
    → (m.prev z ≡ last a xs) × (m.next (last a xs) ≡ z)
Seg-last m a z [] (e, f) = (f, e)
Seg-last m a z (x ∷ xs) (e, f, t) = Seg-last m x z xs t

-- the neighbours of an element
pub Seg-at :
    (m : Links) (a z e : ℕ) (xs ys : List ℕ)
    → Seg m a (xs ++ e ∷ ys) z
    → (m.prev e ≡ last a xs) × (m.next e ≡ head_or ys z)
Seg-at m a z e [] [] (f, g, (h, k)) = (g, h)
Seg-at m a z e [] (y ∷ ys) (f, g, (h, k, t)) = (g, h)
Seg-at m a z e (x ∷ xs) ys (f, g, t) = Seg-at m x z e xs ys t

abbrev pub inserted : Links → (z e p : ℕ) → Links
inserted m z e p = record {
  prev = store (store m.prev e p) z e;
  next = store (store m.next e z) p e;
}

pub Seg-inserted :
    (m : Links) (a z e : ℕ) (xs : List ℕ)
    → Seg m a xs z
    → Lacks e (a ∷ xs)
    → e ≢ z
    → Lacks z xs
    → Distinct (a ∷ xs)
    → Seg (inserted m z e (last a xs)) a (xs ++ e ∷ []) z
Seg-inserted m a z e [] (f, g) (ea, _) ez out d =
    (ground arith, ground arith, (ground arith, ground arith))
Seg-inserted m a z e (x ∷ xs) (f, g, t) (ea, (ex, exs)) ez (zx, out) (ax, d) =
    let ne = Lacks-last a x xs ax in
    (ground arith, ground arith, Seg-inserted m x z e xs t (ex, exs) ez out d)

abbrev pub unlinked : Links → (p n : ℕ) → Links
unlinked m p n = record { prev = store m.prev n p; next = store m.next p n }

-- behind the place of a removal the links stay
Seg-behind :
    (m : Links) (p y z x : ℕ) (xs : List ℕ)
    → Seg m x xs z
    → Lacks p (x ∷ xs)
    → Lacks y xs
    → y ≢ z
    → Seg (unlinked m p y) x xs z
Seg-behind m p y z x [] (f, g) (px, _) out yz = (ground arith, ground arith)
Seg-behind m p y z x (w ∷ xs) (f, g, t) (px, pr) (yw, out) yz =
    (ground arith, ground arith, Seg-behind m p y z w xs t pr out yz)

pub Lacks-head_or : (b z : ℕ) (ws : List ℕ) → Lacks b ws → b ≢ z → b ≢ head_or ws z
Lacks-head_or b z [] l ne = ne
Lacks-head_or b z (w ∷ ws) (l, _) ne = l

-- without `e`, which stands behind `xs`
pub Seg-unlinked :
    (m : Links) (a z e : ℕ) (xs ys : List ℕ)
    → Seg m a (xs ++ e ∷ ys) z
    → Distinct (a ∷ (xs ++ e ∷ ys))
    → Lacks z (xs ++ e ∷ ys)
    → Seg (unlinked m (last a xs) (head_or ys z)) a (xs ++ ys) z
Seg-unlinked m a z e [] [] (f, g, (h, k)) ((ae, _), d) (ze, _) = (ground arith, ground arith)
Seg-unlinked m a z e [] (y ∷ ys) (f, g, (h, k, t)) ((ae, ay), (de, dy)) (ze, zy) =
    (ground arith, ground arith, Seg-behind m a y z y ys t ay dy.0 (λ q. zy.0 (sym q)))
Seg-unlinked m a z e (x ∷ xs) ys (f, g, t) ((ax, ar), d) (zx, out) =
    let ne = Lacks-last a x xs (ax, (All-parts (λ x. a ≢ x) xs e ys ar).0) in
    let xn = Lacks-head_or x z ys (All-parts (λ u. x ≢ u) xs e ys d.0).2 (λ q. zx (sym q)) in
    (ground arith, ground arith, Seg-unlinked m x z e xs ys t d out)

abbrev pub cleared : Links → (e v : ℕ) → Links
cleared m e v = record { prev = store m.prev e v; next = store m.next e v }

-- a cell that is not in the ring may change its links
pub Seg-cleared :
    (m : Links) (a z e v : ℕ) (xs : List ℕ)
    → Seg m a xs z
    → Lacks e (a ∷ xs)
    → e ≢ z
    → Seg (cleared m e v) a xs z
Seg-cleared m a z e v [] (f, g) (ea, _) ez = (ground arith, ground arith)
Seg-cleared m a z e v (x ∷ xs) (f, g, t) (ea, (ex, exs)) ez =
    (ground arith, ground arith, Seg-cleared m x z e v xs t (ex, exs) ez)

-- an element of a list of distinct ones differs from the others, and these are distinct
pub Distinct-without :
    (e : ℕ) (xs ys : List ℕ) → Distinct (xs ++ e ∷ ys) → Lacks e (xs ++ ys) × Distinct (xs ++ ys)
Distinct-without e [] ys (l, d) = (l, d)
Distinct-without e (x ∷ xs) ys (l, d) =
    let (lx, xe, ly) = All-parts (λ u. x ≢ u) xs e ys l in
    let (le, rest) = Distinct-without e xs ys d in
    (((λ q. xe (sym q)), le), (All-append (λ u. x ≢ u) xs ys lx ly, rest))

pub Distinct-append : (e : ℕ) (xs : List ℕ) → Lacks e xs → Distinct xs → Distinct (xs ++ e ∷ [])
Distinct-append e [] l d = (tt, tt)
Distinct-append e (x ∷ xs) (ne, l) (lx, d) =
    (All-append (λ u. x ≢ u) xs (e ∷ []) lx ((λ q. ne (sym q)), tt), Distinct-append e xs l d)
