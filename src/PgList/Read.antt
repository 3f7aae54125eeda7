-- ===== src/PgList/Read.antt =====
-- The functions of list.c that only read: `length`, `int_member`, `nth`.
use postgres_v.Base.{
  ℕ, zero, suc, ◌+◌, ◌<◌, ◌≡◌, refl, inl, inr, Bool, true, false, Option, none, some, List, [], ◌∷◌,
  arith, ◌==◌, if◌then◌else◌, Bool-cases, get_elem?,
}
use postgres_v.PgList.{
  nil_ptr, Store, Run, ok, fault, load, length_loop, length, int_member, walk, nth,
}
use postgres_v.PgList.Chains.{Nodes, first, values, count, Chain, load-ok}

abbrev pub has : ℕ → List ℕ → Bool
has d [] = false
has d (v ∷ vs) = if d == v then true else has d vs

module _ (s : Store) where
  length_loop-count :
      (fuel i : ℕ) (xs : Nodes)
      → Chain s.cell xs
      → count xs < fuel
      → length_loop fuel (first xs) i s ≡ ok (i + count xs) s
  unfolding length_loop
  length_loop-count zero i xs t lt = absurd (omega arith)
  length_loop-count (suc fuel) i [] t lt = let e : i + 0 ≡ i = omega arith in rw e
  length_loop-count (suc fuel) i ((a, v) ∷ xs) (pos, e, t) lt =
      let nz : (a == 0) ≡ false = ground arith in
      let later : i + 1 + count xs ≡ i + suc (count xs) = omega arith in
      rw (
        nz,
        load-ok a v (first xs) s pos e,
        length_loop-count fuel (i + 1) xs t (omega arith),
        later,
      )

  -- With fuel for one round more than the list has nodes, `length` returns their number and leaves
  -- the store as it is.
  pub length-count :
      (fuel : ℕ) (xs : Nodes)
      → Chain s.cell xs
      → count xs < fuel
      → length fuel (first xs) s ≡ ok (count xs) s
  unfolding length
  length-count fuel xs t lt =
      let e : 0 + count xs ≡ count xs = omega arith in rw (length_loop-count fuel 0 xs t lt, e)

  -- With fuel for one round more than the list has nodes, `int_member` returns whether the int is
  -- an element of the list, and leaves the store as it is.
  pub int_member-has :
      (fuel d : ℕ) (xs : Nodes)
      → Chain s.cell xs
      → count xs < fuel
      → int_member fuel d (first xs) s ≡ ok (has d (values xs)) s
  unfolding int_member
  int_member-has zero d xs t lt = absurd (omega arith)
  int_member-has (suc fuel) d [] t lt = refl
  int_member-has (suc fuel) d ((a, v) ∷ xs) (pos, e, t) lt =
      let nz : (a == 0) ≡ false = ground arith in
      let rest = int_member-has fuel d xs t (omega arith) in
      elim (Bool-cases (d == v)) [
        | inl y ↦ rw (nz, load-ok a v (first xs) s pos e, y)
        | inr n ↦ rw (nz, load-ok a v (first xs) s pos e, n, rest)
      ]

  walk_beyond : (n : ℕ) → walk (suc n) nil_ptr s ≡ fault
  unfolding walk load
  walk_beyond n = refl

  abbrev pub found : Option ℕ → Run ℕ
  found none = fault
  found (some v) = ok v s

  -- `nth` returns the element at the index, counted from 0, and leaves the store as it is; at an
  -- index past the last node it faults.
  nth-get_elem? :
      (n : ℕ) (xs : Nodes) → Chain s.cell xs → nth n (first xs) s ≡ found (get_elem? (values xs) n)
  unfolding nth walk load
  nth-get_elem? zero [] t = refl
  nth-get_elem? (suc n) [] t = rw (walk_beyond n)
  nth-get_elem? zero ((a, v) ∷ xs) (pos, e, t) = rw (load-ok a v (first xs) s pos e)
  nth-get_elem? (suc n) ((a, v) ∷ xs) (pos, e, t) =
      rw (load-ok a v (first xs) s pos e, nth-get_elem? n xs t)
