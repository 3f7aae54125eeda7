-- ===== src/PgList/Change.antt =====
-- The functions of list.c that change a list: `nconc`, which links two lists.
use postgres_v.Base.{ℕ, zero, suc, ◌<◌, ◌≡◌, ◌∙◌, refl, true, false, [], ◌∷◌, ap, arith, ◌==◌}
use postgres_v.PgList.{Store, ok, update, nconc_walk, nconc}
use postgres_v.PgList.Chains.{
  Nodes, first, count, cell_at, Chain, Avoids, load-ok, set_next-ok, Chain-update, Returns,
}

-- the last node's address
nconc_walk-ends :
    (s : Store) (fuel a v : ℕ) (xs : Nodes)
    → Chain s.cell ((a, v) ∷ xs)
    → count xs < fuel
    → Returns (nconc_walk fuel a s) (λ _ s2. s2 ≡ s)
unfolding nconc_walk
nconc_walk-ends s zero a v xs t lt = absurd (omega arith)
nconc_walk-ends s (suc fuel) a v [] (pos, e, t) lt = rw (load-ok a v 0 s pos e) (a, s, refl, refl)
nconc_walk-ends s (suc fuel) a v ((b, w) ∷ xs) (pos, e, t) lt =
    let nz : (b == 0) ≡ false = let p = t.1 in ground arith in
    rw (load-ok a v b s pos e, nz) (nconc_walk-ends s fuel b w xs t (omega arith))

-- the store where the first node of a list is linked to another list
abbrev pub linked : Store → ℕ → ℕ → ℕ → Store
linked s a v q = record s { cell = update s.cell a (cell_at v q) }

-- `nconc` of two lists that are not NIL, with different first nodes, returns the pointer to the
-- first list when there is fuel for one round for each of its nodes; in the store that it leaves,
-- this pointer is a list of the first node of the first list followed by the second list: the other
-- nodes of the first list are no longer on it. The condition is that the first node of the first
-- list is not a node of the second.
pub nconc-linked :
    (s : Store) (fuel a v : ℕ) (xs : Nodes) (b w : ℕ) (ys : Nodes)
    → Chain s.cell ((a, v) ∷ xs)
    → Chain s.cell ((b, w) ∷ ys)
    → Avoids a ((b, w) ∷ ys)
    → count xs < fuel
    → (nconc fuel a b s ≡ ok a (linked s a v b))
      × Chain (linked s a v b).cell ((a, v) ∷ (b, w) ∷ ys)
unfolding nconc
nconc-linked s fuel a v xs b w ys tx ty out lt =
    let na : (a == 0) ≡ false = let p = tx.0 in ground arith in
    let nb : (b == 0) ≡ false = let p = ty.0 in ground arith in
    let ne : (a == b) ≡ false = let p = out.0 in ground arith in
    let (end, s2, run, same) = nconc_walk-ends s fuel a v xs tx lt in
    let run2 : nconc_walk fuel a s ≡ ok end s = run ∙ ap (ok end) same in
    let step = set_next-ok a v (first xs) b s tx.0 tx.1 in
    let here : (a == a) ≡ true = ground arith in
    (
      rw (na, nb, ne, run2, step),
      (tx.0, rw here, Chain-update s.cell a (cell_at v b) ((b, w) ∷ ys) out ty),
    )
