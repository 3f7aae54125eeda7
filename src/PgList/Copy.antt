-- ===== src/PgList/Copy.antt =====
-- The functions of list.c that build nodes: `list_copy`, `make_list`, `lappend`.
use postgres_v.Base.{
  ℕ, zero, suc, ◌+◌, ◌-◌, ◌≤◌, ◌<◌, ◌≡◌, ◌≢◌, ◌⊎◌, ◌∙◌, refl, inl, inr, Bool, true, false, Option,
  none, some, List, [], ◌∷◌, ◌++◌, map, ap, arith, ◌==◌, if◌then◌else◌, All, Bool-cases, ==→eq,
  ==→ne,
}
use postgres_v.Base
use postgres_v.PgList.{
  Store, update, nconc, lcons, lappend, copy_loop, list_copy, make_list_loop, make_list,
}
use postgres_v.PgList.Chains.{
  Nodes, first, values, count, cell_at, Chain, Avoids, IsStore, load-ok, set_next-ok, Chain-update,
  Returns,
}
use postgres_v.PgList.Change.{nconc-linked, linked}

abbrev pub Below : ℕ → Nodes → Type 0
Below b [] = Unit
Below b ((a, _) ∷ xs) = (a < b) × Below b xs

Below-Avoids : (b a : ℕ) (xs : Nodes) → Below b xs → b ≤ a → Avoids a xs
Below-Avoids b a [] l le = tt
Below-Avoids b a ((c, v) ∷ xs) (lt, l) le = ((λ (p : a ≡ c). omega arith), Below-Avoids b a xs l le)

-- the nodes of a list lie below the next address
Chain-Below : (s : Store) (xs : Nodes) → IsStore s → Chain s.cell xs → Below s.brk xs
Chain-Below s [] st t = tt
Chain-Below s ((a, v) ∷ xs) st (pos, e, t) = (
  elim (Base.dec_lt a s.brk) [
    | yes lt ↦ lt
    | no ge ↦ let unused = st.1 a (omega arith) in ground arith
  ],
  Chain-Below s xs st t,
)

-- the store behind one round of the copying loop
abbrev after : Store → (nl w v : ℕ) → Store
after s nl w v = record {
  cell = update (update s.cell s.brk (cell_at v 0)) nl (cell_at w s.brk);
  brk = s.brk + 1;
}

-- the new nodes, at addresses that were not used, have the same values, and cells at used addresses
-- but `nl` are as they were
abbrev pub Copied : Store → Nodes → ℕ → ℕ → Store → Type 0
Copied s xs nl w s2 =
    (ys : Nodes) × Chain s2.cell ((nl, w) ∷ ys)
    × (values ys ≡ values xs)
    × IsStore s2
    × ((a : ℕ) → a < s.brk → a ≢ nl → s2.cell a ≡ s.cell a)

copy_loop-Copied :
    (b : ℕ) (s : Store) (fuel nl w : ℕ) (xs : Nodes)
    → Chain s.cell xs
    → Below b xs
    → IsStore s
    → 0 < nl
    → b ≤ nl
    → nl < s.brk
    → s.cell nl ≡ cell_at w 0
    → count xs < fuel
    → Returns (copy_loop fuel (first xs) nl s) (λ _ s2. Copied s xs nl w s2)
unfolding copy_loop lcons
copy_loop-Copied b s zero nl w xs t l st pos le lt e enough = absurd (omega arith)
copy_loop-Copied b s (suc fuel) nl w [] t l st pos le lt e enough =
    (tt, s, refl, ([], (pos, e, tt), refl, st, λ a x y. refl))
copy_loop-Copied b s (suc fuel) nl w ((a, v) ∷ xs) (pa, ea, t) (la, l) st pos le lt e enough =
    let na : (a == 0) ≡ false = ground arith in
    let s1 : Store = record { cell = update s.cell s.brk (cell_at v 0); brk = s.brk + 1 } in
    let e1 : s1.cell nl ≡ cell_at w 0 = ground arith in
    let t1 =
      Chain-update s1.cell nl (cell_at w s.brk) xs (Below-Avoids b nl xs l le)
        (Chain-update s.cell s.brk (cell_at v 0) xs (Below-Avoids b s.brk xs l (omega arith)) t) in
    let s3 : Store = after s nl w v in
    let st3 : IsStore s3 = (omega arith, λ c ge. let u = st.1 c (omega arith) in ground arith) in
    let e3 : s3.cell s.brk ≡ cell_at v 0 = ground arith in
    let (u, s2, run, (ys, tail, same_values, st2, same)) =
      copy_loop-Copied b s3 fuel s.brk v xs t1 l st3 (omega arith) (omega arith) (omega arith) e3
        (omega arith) in
    let enl : s2.cell nl ≡ cell_at w s.brk =
      same nl (omega arith) (λ p. omega arith) ∙ ground arith in
    (
      u,
      s2,
      rw (na, load-ok a v (first xs) s pa ea, set_next-ok nl w 0 s.brk s1 pos e1) run,
      (
        (s.brk, v) ∷ ys,
        (pos, enl, tail),
        ap (λ vs. v ∷ vs) same_values,
        st2,
        λ c x y. same c (omega arith) (λ p. omega arith) ∙ ground arith,
      ),
    )

-- In a store whose unused addresses are those from `brk` on, with fuel for one round for each node
-- of a list that is not NIL, `list_copy` returns a list with the same elements in the same order,
-- whose first node is new, keeps the store's unused addresses unused and every cell that was in use
-- as it was; so the old list is still there.
list_copy-Copied :
    (s : Store) (fuel a v : ℕ) (xs : Nodes)
    → Chain s.cell ((a, v) ∷ xs)
    → IsStore s
    → count xs < fuel
    → Returns (list_copy fuel a s) (λ r s2.
      (r ≡ s.brk)
      × Chain s2.cell ((a, v) ∷ xs)
      × ((ys : Nodes) × (first ys ≡ r) × Chain s2.cell ys × (values ys ≡ v ∷ values xs))
      × IsStore s2
      × ((c : ℕ) → c < s.brk → s2.cell c ≡ s.cell c))
unfolding list_copy lcons
list_copy-Copied s fuel a v xs (pa, ea, t) st enough =
    let below = Chain-Below s ((a, v) ∷ xs) st (pa, ea, t) in
    let s1 : Store = record { cell = update s.cell s.brk (cell_at v 0); brk = s.brk + 1 } in
    let st1 : IsStore s1 = (omega arith, λ c ge. let u = st.1 c (omega arith) in ground arith) in
    let e1 : s1.cell s.brk ≡ cell_at v 0 = ground arith in
    let t1 =
      Chain-update s.cell s.brk (cell_at v 0) xs (Below-Avoids s.brk s.brk xs below.1 (omega arith))
        t in
    let (u, s2, run, (ys, tail, same_values, st2, same)) =
      copy_loop-Copied s.brk s1 fuel s.brk v xs t1 below.1 st1 st.0 (omega arith) (omega arith) e1
        enough in
    let kept : (c : ℕ) → c < s.brk → s2.cell c ≡ s.cell c =
      λ c lt. same c (omega arith) (λ p. omega arith) ∙ ground arith in
    (
      s.brk,
      s2,
      rw (load-ok a v (first xs) s pa ea, run),
      (
        refl,
        Chain-kept s s2 ((a, v) ∷ xs) below kept (pa, ea, t),
        ((s.brk, v) ∷ ys, refl, tail, ap (λ vs. v ∷ vs) same_values),
        st2,
        kept,
      ),
    )
  where
    Chain-kept :
        (s s2 : Store) (xs : Nodes)
        → Below s.brk xs
        → ((c : ℕ) → c < s.brk → s2.cell c ≡ s.cell c)
        → Chain s.cell xs
        → Chain s2.cell xs
    Chain-kept s s2 [] l kept t = tt
    Chain-kept s s2 ((a, v) ∷ xs) (la, l) kept (pa, ea, t) =
        (pa, kept a la ∙ ea, Chain-kept s s2 xs l kept t)

-- the first node alone
abbrev pub head_of : Nodes → Nodes
head_of [] = []
head_of (x ∷ xs) = x ∷ []

-- In a store whose unused addresses are those from `brk` on, with fuel for one round for each node,
-- `lappend` returns a list of the first node of the given one, if it has one, and of a new node
-- with the datum: the other nodes of the given list are not on it.
lappend-head_of :
    (s : Store) (fuel datum : ℕ) (xs : Nodes)
    → Chain s.cell xs
    → IsStore s
    → count xs < suc fuel
    → Returns (lappend fuel (first xs) datum s) (λ r s2.
      (r ≡ first (head_of xs ++ (s.brk, datum) ∷ []))
      × Chain s2.cell (head_of xs ++ (s.brk, datum) ∷ []))
unfolding lappend lcons nconc
lappend-head_of s fuel datum [] t st lt =
    let s1 : Store = record { cell = update s.cell s.brk (cell_at datum 0); brk = s.brk + 1 } in
    (s.brk, s1, refl, (refl, (st.0, ground arith, tt)))
lappend-head_of s fuel datum ((a, v) ∷ xs) (pa, ea, t) st lt =
    let s1 : Store = record { cell = update s.cell s.brk (cell_at datum 0); brk = s.brk + 1 } in
    let below = Chain-Below s ((a, v) ∷ xs) st (pa, ea, t) in
    let t1 =
      Chain-update s.cell s.brk (cell_at datum 0) ((a, v) ∷ xs)
        (Below-Avoids s.brk s.brk ((a, v) ∷ xs) below (omega arith)) (pa, ea, t) in
    let e1 : s1.cell s.brk ≡ cell_at datum 0 = ground arith in
    let ne : a ≢ s.brk = λ p. let q = below.0 in omega arith in
    let (run, tail) =
      nconc-linked s1 fuel a v xs s.brk datum [] t1 (st.0, e1, tt) (ne, tt) (omega arith) in
    (a, linked s1 a v s.brk, run, (refl, tail))

make_list_loop-last :
    (vs : List ℕ) (v retval : ℕ) (s : Store)
    → IsStore s
    → Returns (make_list_loop (vs ++ v ∷ []) retval 0 s) (λ r s2. Chain s2.cell ((r, v) ∷ []))
unfolding make_list_loop lcons
make_list_loop-last [] v retval s st = (
  s.brk,
  record { cell = update s.cell s.brk (cell_at v 0); brk = s.brk + 1 },
  refl,
  (st.0, ground arith, tt),
)
make_list_loop-last (u ∷ vs) v retval s st =
    let s1 : Store = record { cell = update s.cell s.brk (cell_at u 0); brk = s.brk + 1 } in
    let st1 : IsStore s1 = (omega arith, λ c ge. let w = st.1 c (omega arith) in ground arith) in
    make_list_loop-last vs v s.brk s1 st1

-- Of one or more arguments, `make_list` returns a list with the last one alone; the store is one
-- whose unused addresses are those from `brk` on.
make_list-last :
    (vs : List ℕ) (v : ℕ) (s : Store)
    → IsStore s
    → Returns (make_list (vs ++ v ∷ []) s) (λ r s2. Chain s2.cell ((r, v) ∷ []))
unfolding make_list
make_list-last vs v s st = make_list_loop-last vs v 0 s st
