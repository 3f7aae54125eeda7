-- ===== src/DynaHash/Chains.antt =====
-- Collision chains and the free list of dynahash.c: what it means that the words lead over elements,
-- and the walk, the removal, the insertion and the split of a chain.
use mathlib.Core.Path.{subst}
use postgres_v.Base.{
  All-implies, ℕ, zero, suc, ◌≤◌, ◌<◌, ◌≡◌, ◌≢◌, refl, sym, ap, ◌∙◌, inl, inr, Bool, true, false,
  List, [], ◌∷◌, ◌++◌, length, arith, ◌==◌, All, All-parts, Bool-cases, ==→eq, ==→ne,
}
use postgres_v.Rings.{store, Lacks, Distinct, last, Lacks-last}
use postgres_v.DynaHash.Keys.{find_key, staying, going, Keyless}
use postgres_v.DynaHash.{HashTable, follow_chain, call_hash, split_loop}

-- the elements from the index `c` on
abbrev pub Leads : (ℕ → ℕ) → (c : ℕ) → List ℕ → Type 0
Leads f c [] = c ≡ 0
Leads f c (x ∷ xs) = (c ≡ x) × (0 < x) × Leads f (f x) xs

-- the elements that the index at the place `p` leads to
abbrev pub Chain : (ℕ → ℕ) → (p : ℕ) → List ℕ → Type 0
Chain f p xs = Leads f (f p) xs

pub Leads-kept :
    (f : ℕ → ℕ) (q v c : ℕ) (xs : List ℕ) → Leads f c xs → Lacks q xs → Leads (store f q v) c xs
Leads-kept f q v c [] e out = e
Leads-kept f q v c (x ∷ xs) (e, pos, t) (ne, out) =
    let differ : (q == x) ≡ false = ground arith in
    (e, pos, rw differ (Leads-kept f q v (f x) xs t out))

pub Chain-kept :
    (f : ℕ → ℕ) (q v p : ℕ) (xs : List ℕ)
    → Chain f p xs
    → Lacks q (p ∷ xs)
    → Chain (store f q v) p xs
Chain-kept f q v p xs t (ne, out) =
    let differ : (q == p) ≡ false = ground arith in rw differ (Leads-kept f q v (f p) xs t out)

-- words that agree on the cells of a chain have it too
pub Leads-same :
    (f g : ℕ → ℕ) (c : ℕ) (xs : List ℕ) → Leads f c xs → All (λ x. g x ≡ f x) xs → Leads g c xs
Leads-same f g c [] e same = e
Leads-same f g c (x ∷ xs) (e, pos, t) (s, same) =
    (e, pos, subst (λ d. Leads g d xs) (sym s) (Leads-same f g (f x) xs t same))

pub Chain-same :
    (f g : ℕ → ℕ) (p : ℕ) (xs : List ℕ)
    → Chain f p xs
    → All (λ x. g x ≡ f x) (p ∷ xs)
    → Chain g p xs
Chain-same f g p xs t (s, same) = subst (λ d. Leads g d xs) (sym s) (Leads-same f g (f p) xs t same)

-- without `e`, which stands behind `xs`
pub Chain-removed :
    (f : ℕ → ℕ) (p e : ℕ) (xs ys : List ℕ)
    → Chain f p (xs ++ e ∷ ys)
    → Distinct (p ∷ (xs ++ e ∷ ys))
    → Chain (store f (last p xs) (f e)) p (xs ++ ys)
Chain-removed f p e [] ys (s, pos, t) ((ne, out), (lacks, d)) =
    let here : (p == p) ≡ true = ground arith in rw here (Leads-kept f p (f e) (f e) ys t out)
Chain-removed f p e (x ∷ xs) ys (s, pos, t) ((ne, out), d) =
    let differ : (last x xs == p) ≡ false =
      (let apart = Lacks-last p x xs (ne, (All-parts (λ u. p ≢ u) xs e ys out).0) in
        ground arith) in
    rw differ (s, pos, Chain-removed f x e xs ys t d)

-- with `e` behind the last one
pub Chain-appended :
    (f : ℕ → ℕ) (p e : ℕ) (xs : List ℕ)
    → Chain f p xs
    → Distinct (p ∷ xs)
    → Lacks e (p ∷ xs)
    → 0 < e
    → Chain (store (store f (last p xs) e) e 0) p (xs ++ e ∷ [])
Chain-appended f p e [] t d (ne, out) pos = (ground arith, pos, ground arith)
Chain-appended f p e (x ∷ xs) (s, px, t) ((pn, po), d) (ne, out) pos =
    let apart = Lacks-last p x xs (pn, po) in
    (ground arith, px, Chain-appended f x e xs t d out pos)

-- where the walk ends: in front of the first element with the key, or behind the last one
pub data Found (key : ℕ → ℕ) (k p : ℕ) (xs : List ℕ) : (result : ℕ × ℕ) → Type 0 where
  at :
      (before : List ℕ) (e : ℕ) (after : List ℕ)
      → xs ≡ before ++ e ∷ after
      → 0 < e
      → key e ≡ k
      → find_key key k xs ≡ e
      → Found key k p xs (last p before, e)
  missing :
      find_key key k xs ≡ 0 → All (λ x. (key x == k) ≡ false) xs → Found key k p xs (last p xs, 0)

pub follow_chain-Found :
    (fuel : ℕ) (t : HashTable) (k p : ℕ) (xs : List ℕ)
    → Chain t.words p xs
    → length xs < fuel
    → Found t.key k p xs (follow_chain fuel t k p)
unfolding follow_chain find_key
follow_chain-Found zero t k p xs c lt = absurd (omega arith)
follow_chain-Found (suc fuel) t k p [] e lt = rw e (missing refl tt)
follow_chain-Found (suc fuel) t k p (x ∷ xs) (e, pos, c) lt =
    let z : (x == 0) ≡ false = ground arith in
    elim (Bool-cases (t.key x == k)) [
      | inl same ↦ rw (e, z, same) (at [] x xs refl pos (==→eq (t.key x) k same) (rw same refl))
      | inr differ ↦
          rw (e, z, differ) (behind (follow_chain-Found fuel t k x xs c (omega arith)) differ)
    ]
  where
    behind :
        {r : ℕ × ℕ} → Found t.key k x xs r → (t.key x == k) ≡ false → Found t.key k p (x ∷ xs) r
    behind (at before e after split pos same first) differ =
        at (x ∷ before) e after (ap (λ zs. x ∷ zs) split) pos same (rw differ first)
    behind (missing none all) differ = missing (rw differ none) (differ, all)

module _ (hash : ℕ → ℕ) (alloc : HashTable → (size : ℕ) → ℕ) where
  abbrev pub stays_in : HashTable → (bucket : ℕ) → ℕ → Bool
  stays_in t bucket e = call_hash hash alloc t (t.key e) == bucket

  -- the loop leaves the elements that stay behind `old`, the others behind `newbi`, and each cell
  -- besides as it was
  pub split_loop-Chain :
      (fuel b c o n : ℕ) (t : HashTable) (xs : List ℕ)
      → Leads t.words c xs
      → length xs ≤ fuel
      → o ≢ n
      → Lacks o xs
      → Lacks n xs
      → Distinct xs
      → (g : ℕ → ℕ) × (split_loop hash alloc fuel b c o n t ≡ record t { words = g })
        × Chain g o (staying (stays_in t b) xs)
        × Chain g n (going (stays_in t b) xs)
        × ((q : ℕ) → Lacks q (o ∷ n ∷ xs) → g q ≡ t.words q)
  unfolding split_loop staying going call_hash
  split_loop-Chain zero b c o n t [] e le on lo ln d = (
    store (store t.words o 0) n 0,
    refl,
    ground arith,
    ground arith,
    λ q (qo, (qn, _)). ground arith,
  )
  split_loop-Chain zero b c o n t (x ∷ xs) l le on lo ln d = absurd (omega arith)
  split_loop-Chain (suc fuel) b c o n t [] e le on lo ln d = (
    store (store t.words o 0) n 0,
    rw e refl,
    ground arith,
    ground arith,
    λ q (qo, (qn, _)). ground arith,
  )
  split_loop-Chain (suc fuel) b c o n t (x ∷ xs) (e, pos, l) le on (ox, lo) (nx, ln) (lx, d) =
      let z : (x == 0) ≡ false = ground arith in
      elim (Bool-cases (stays_in t b x)) [
        | inl s ↦
            let u : HashTable = record t { words = store t.words o x } in
            let (g, run, co, cn, same) =
              split_loop-Chain fuel b (t.words x) x n u xs
                (Leads-kept t.words o x (t.words x) xs l lo) (omega arith) (λ q. nx (sym q)) lx ln
                d in
            let so = same o (ox, (on, lo)) in
            (
              g,
              rw (e, s, z, run) refl,
              rw s ((let here : store t.words o x o ≡ x = ground arith in so ∙ here), pos, co),
              rw s cn,
              λ q (qo, (qn, (qx, out))).
                  same q (qx, (qn, out))
                  ∙ (let f : store t.words o x q ≡ t.words q = ground arith in f),
            )
        | inr s ↦
            let u : HashTable = record t { words = store t.words n x } in
            let (g, run, co, cn, same) =
              split_loop-Chain fuel b (t.words x) o x u xs
                (Leads-kept t.words n x (t.words x) xs l ln) (omega arith) ox lo lx d in
            let sn = same n ((λ q. on (sym q)), (nx, ln)) in
            (
              g,
              rw (e, s, z, run) refl,
              rw s co,
              rw s ((let here : store t.words n x n ≡ x = ground arith in sn ∙ here), pos, cn),
              λ q (qo, (qn, (qx, out))).
                  same q (qo, (qx, out))
                  ∙ (let f : store t.words n x q ≡ t.words q = ground arith in f),
            )
      ]

pub Found-at :
    {key : ℕ → ℕ} {k p : ℕ} {xs : List ℕ} {r : ℕ × ℕ}
    → Found key k p xs r
    → 0 < find_key key k xs
    → (before : List ℕ) × (after : List ℕ) × (xs ≡ before ++ find_key key k xs ∷ after)
      × (key (find_key key k xs) ≡ k)
      × (r ≡ (last p before, find_key key k xs))
Found-at (at before e after split pos same first) lt =
    (before, after, rw first split, rw first same, rw first refl)
Found-at (missing none all) lt = absurd (omega (arith, none))

pub Found-missing :
    {key : ℕ → ℕ} {k p : ℕ} {xs : List ℕ} {r : ℕ × ℕ}
    → Found key k p xs r
    → find_key key k xs ≡ 0
    → Keyless key k xs × (r ≡ (last p xs, 0))
Found-missing (at before e after split pos same first) none = absurd (omega (arith, first, none))
Found-missing {key} {k} {p} {xs} (missing none all) first = (
  All-implies (λ x. (key x == k) ≡ false) (λ x. key x ≢ k) xs all
      (λ x differ. ==→ne (key x) k differ),
  refl,
)
