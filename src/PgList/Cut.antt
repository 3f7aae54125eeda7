-- ===== src/PgList/Cut.antt =====
-- The functions of list.c that change a list: `ltruncate`, `lremove`, and the loop that frees every
-- node.
use postgres_v.Base.{
  ℕ, zero, suc, ◌-◌, ◌<◌, ◌≡◌, ◌∙◌, refl, inl, inr, Bool, true, false, Option, none, [], ◌∷◌, ap,
  arith, ◌==◌, if◌then◌else◌, Bool-cases, take,
}
use postgres_v.PgList.{
  Run, nil_ptr, Cell, Store, update, ◌>>=◌, find_prev, unlink, remove_first, lremove, lisp_remove,
  truncate_loop, ltruncate, free_list,
}
use postgres_v.PgList.Chains.{
  Nodes, first, count, cell_at, Chain, Avoids, IsDistinct, load-ok, set_next-ok, pfree-ok,
  Chain-update, Returns,
}

-- the cells of no node in the list are as they were
abbrev pub Outside : Nodes → Store → Store → Type 0
Outside xs s s2 = (a : ℕ) → Avoids a xs → s2.cell a ≡ s.cell a

abbrev pub linked : Store → ℕ → ℕ → ℕ → Store
linked s a v q = record s { cell = update s.cell a (cell_at v q) }

first-take : (n : ℕ) (xs : Nodes) → first xs ≡ first (take (suc n) xs)
first-take n [] = refl
first-take n (x ∷ xs) = refl

truncate_loop-take :
    (s : Store) (fuel n : ℕ) (xs : Nodes)
    → Chain s.cell xs
    → IsDistinct xs
    → count xs < fuel
    → Returns
        (truncate_loop fuel (suc n) (first xs) s)
        (λ _ s2. Chain s2.cell (take (suc n) xs) × Outside xs s s2)
unfolding truncate_loop
truncate_loop-take s zero n xs t d lt = absurd (omega arith)
truncate_loop-take s (suc fuel) n [] t d lt = (tt, s, refl, (tt, λ a out. refl))
truncate_loop-take s (suc fuel) zero ((a, v) ∷ xs) (p, e, t) d lt =
    let nz : (a == 0) ≡ false = ground arith in
    let here : (a == a) ≡ true = ground arith in
    (
      tt,
      linked s a v 0,
      (rw (nz, set_next-ok a v (first xs) 0 s p e)),
      ((p, rw here, tt), λ b out. let q = out.0 in ground arith),
    )
truncate_loop-take s (suc fuel) (suc n) ((a, v) ∷ xs) (p, e, t) (da, d) lt =
    let nz : (a == 0) ≡ false = ground arith in
    let m : suc (suc n) - 1 ≡ suc n = omega arith in
    let m2 : (suc n == 0) ≡ false = ground arith in
    let (u, s2, run, (c, same)) = truncate_loop-take s fuel n xs t d (omega arith) in
    let ea : s2.cell a ≡ cell_at v (first (take (suc n) xs)) =
      same a da ∙ e ∙ ap (cell_at v) (first-take n xs) in
    (
      tt,
      s2,
      (rw (nz, m, m2, load-ok a v (first xs) s p e) run),
      ((p, ea, c), λ b out. same b out.1),
    )

-- On a list with distinct nodes and fuel for one round more than it has nodes, `ltruncate` returns
-- a pointer to the list of the first `n` nodes, or of all nodes when it has fewer, and it writes to
-- no cell outside the list.
ltruncate-take :
    (s : Store) (fuel n : ℕ) (xs : Nodes)
    → Chain s.cell xs
    → IsDistinct xs
    → count xs < fuel
    → Returns
        (ltruncate fuel n (first xs) s)
        (λ p s2. (p ≡ first (take n xs)) × Chain s2.cell (take n xs) × Outside xs s s2)
unfolding ltruncate
ltruncate-take s fuel zero xs t d lt = (nil_ptr, s, refl, (refl, tt, λ a out. refl))
ltruncate-take s fuel (suc n) xs t d lt =
    let (u, s2, run, (c, same)) = truncate_loop-take s fuel n xs t d lt in
    let nz : (suc n == 0) ≡ false = ground arith in
    (first xs, s2, rw (nz, run), (first-take n xs, c, same))

-- the nodes but for the first whose element passes the test
abbrev pub without : (ℕ → Bool) → Nodes → Nodes
without test [] = []
without test ((a, v) ∷ xs) = if test v then xs else (a, v) ∷ without test xs

-- a search that goes on behind the node `p`
remove_behind :
    (test : ℕ → Bool) (list : ℕ) (s : Store) (fuel p w : ℕ) (xs : Nodes)
    → Chain s.cell ((p, w) ∷ xs)
    → IsDistinct ((p, w) ∷ xs)
    → count xs < fuel
    → Returns
        ((find_prev fuel test (first xs) p >>= λ (l, prev). unlink list l prev) s)
        (λ r s2. (r ≡ list) × Chain s2.cell ((p, w) ∷ without test xs) × Outside ((p, w) ∷ xs) s s2)
unfolding find_prev unlink
remove_behind test list s zero p w xs t d lt = absurd (omega arith)
remove_behind test list s (suc fuel) p w [] t d lt = (list, s, refl, (refl, t, λ a out. refl))
remove_behind test list s (suc fuel) p w ((a, v) ∷ xs) (pp, ep, (pa, ea, t)) ((pna, dp), (da, d))
      lt =
    let na : (a == 0) ≡ false = ground arith in
    let np : (p == 0) ≡ false = ground arith in
    let here : (p == p) ≡ true = ground arith in
    elim (Bool-cases (test v)) [
      | inl y ↦ (
        list,
        linked s p w (first xs),
        (rw (
          na,
          load-ok a v (first xs) s pa ea,
          y,
          na,
          load-ok a v (first xs) s pa ea,
          np,
          set_next-ok p w a (first xs) s pp ep,
        )),
        (
          refl,
          (rw y (pp, rw here, Chain-update s.cell p (cell_at w (first xs)) xs dp t)),
          λ b out. let q = out.0 in ground arith,
        ),
      )
      | inr n ↦
          let (r, s2, run, (er, tail, same)) =
            remove_behind test list s fuel a v xs (pa, ea, t) (da, d) (omega arith) in
          (
            r,
            s2,
            rw (na, load-ok a v (first xs) s pa ea, n) run,
            (er, rw n (pp, same p (pna, dp) ∙ ep, tail), λ b out. same b out.1),
          )
    ]

-- the run returns the list without the first node whose element passes the test
abbrev pub Removes : Store → Nodes → (ℕ → Bool) → Run ℕ → Type 0
Removes s xs test run =
    Returns run
      (λ r s2. (r ≡ first (without test xs)) × Chain s2.cell (without test xs) × Outside xs s s2)

remove_first-Removes :
    (test : ℕ → Bool) (s : Store) (fuel : ℕ) (xs : Nodes)
    → Chain s.cell xs
    → IsDistinct xs
    → count xs < fuel
    → Removes s xs test (remove_first fuel test (first xs) s)
unfolding remove_first find_prev unlink
remove_first-Removes test s zero xs t d lt = absurd (omega arith)
remove_first-Removes test s (suc fuel) [] t d lt = (nil_ptr, s, refl, (refl, tt, λ a out. refl))
remove_first-Removes test s (suc fuel) ((a, v) ∷ xs) (pa, ea, t) d lt =
    let na : (a == 0) ≡ false = ground arith in
    let read = load-ok a v (first xs) s pa ea in
    elim (Bool-cases (test v)) [
      | inl y ↦ (first xs, s, rw (na, read, y, na, read), (rw y refl, rw y t, λ b out. refl))
      | inr n ↦
          let (r, s2, run, (er, tail, same)) =
            remove_behind test a s fuel a v xs (pa, ea, t) d (omega arith) in
          (r, s2, rw (na, read, n) run, (er ∙ rw n refl, rw n tail, same))
    ]

-- On a list with distinct nodes and fuel for one round more than it has nodes, `lremove` returns a
-- pointer to the list without the first node whose element is the pointer `elem`, or to the whole
-- list when there is none, and it writes to no cell outside the list; `lisp_remove` does the same
-- with the first node whose element is equal to `elem`, whatever `equal` decides.
pub lremove-Removes :
    (equal : ℕ → ℕ → Bool) (elem : ℕ) (s : Store) (fuel : ℕ) (xs : Nodes)
    → Chain s.cell xs
    → IsDistinct xs
    → count xs < fuel
    → Removes s xs (λ v. elem == v) (lremove fuel elem (first xs) s)
      × Removes s xs (equal elem) (lisp_remove equal fuel elem (first xs) s)
unfolding lremove lisp_remove
lremove-Removes equal elem s fuel xs t d lt = (
  remove_first-Removes (λ v. elem == v) s fuel xs t d lt,
  remove_first-Removes (equal elem) s fuel xs t d lt,
)

-- the nodes are free
abbrev pub Freed : (ℕ → Option Cell) → Nodes → Type 0
Freed h [] = Unit
Freed h ((a, _) ∷ xs) = (h a ≡ none) × Freed h xs

-- On a list with distinct nodes and fuel for one round more than it has nodes, `free_list` frees
-- every node, each once, and no other cell.
free_list-Freed :
    (s : Store) (fuel : ℕ) (xs : Nodes)
    → Chain s.cell xs
    → IsDistinct xs
    → count xs < fuel
    → Returns (free_list fuel (first xs) s) (λ _ s2. Freed s2.cell xs × Outside xs s s2)
unfolding free_list
free_list-Freed s zero xs t d lt = absurd (omega arith)
free_list-Freed s (suc fuel) [] t d lt = (tt, s, refl, (tt, λ a out. refl))
free_list-Freed s (suc fuel) ((a, v) ∷ xs) (pa, ea, t) (da, d) lt =
    let na : (a == 0) ≡ false = ground arith in
    let here : (a == a) ≡ true = ground arith in
    let s1 : Store = record s { cell = update s.cell a none } in
    let t1 = Chain-update s.cell a none xs da t in
    let (u, s2, run, (gone, same)) = free_list-Freed s1 fuel xs t1 d (omega arith) in
    (
      u,
      s2,
      rw (na, load-ok a v (first xs) s pa ea, pfree-ok a v (first xs) s pa ea) run,
      ((same a da ∙ rw here refl, gone), λ b out. same b out.1 ∙ (let q = out.0 in ground arith)),
    )
