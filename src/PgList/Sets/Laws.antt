-- ===== src/PgList/Sets/Laws.antt =====
-- What the tests on lists of ints decide: the comparisons of the two as sets.
use postgres_v.Base.{
  ℕ, zero, suc, ◌+◌, ◌≤◌, ◌<◌, ◌≡◌, ◌≢◌, ◌⊎◌, refl, inl, inr, Bool, true, false, Option, none, some,
  List, [], ◌∷◌, not, arith, ◌==◌, if◌then◌else◌, Bool-cases,
}
use postgres_v.Base
use postgres_v.PgList.{Store, ok}
use postgres_v.PgList.Chains.{Nodes, first, values, count, Chain, load-ok}
use postgres_v.PgList.Read.{has, length-count, int_member-has}
use postgres_v.PgList.Sets.{subset_loop, is_subseti, disjoint_loop, non_overlap_setsi, same_seti}

-- every element of the first is one of the second
abbrev pub includes : List ℕ → List ℕ → Bool
includes vs [] = true
includes vs (u ∷ us) = if has u vs then includes vs us else false

-- no element of the first is one of the second
abbrev pub excludes : List ℕ → List ℕ → Bool
excludes vs [] = true
excludes vs (u ∷ us) = if has u vs then false else excludes vs us

module _ (s : Store) (ys : Nodes) (inner : ℕ) (ty : Chain s.cell ys)
    (enough : count ys < inner) where
  subset_loop-includes :
      (fuel : ℕ) (xs : Nodes)
      → Chain s.cell xs
      → count xs < fuel
      → subset_loop inner fuel (first xs) (first ys) s ≡ ok (includes (values ys) (values xs)) s
  unfolding subset_loop
  subset_loop-includes zero xs t lt = absurd (omega arith)
  subset_loop-includes (suc fuel) [] t lt = refl
  subset_loop-includes (suc fuel) ((a, v) ∷ xs) (pos, e, t) lt =
      let nz : (a == 0) ≡ false = ground arith in
      let test = int_member-has s inner v ys ty enough in
      let rest = subset_loop-includes fuel xs t (omega arith) in
      elim (Bool-cases (has v (values ys))) [
        | inl y ↦ rw (nz, load-ok a v (first xs) s pos e, test, y, rest)
        | inr n ↦ rw (nz, load-ok a v (first xs) s pos e, test, n)
      ]

  disjoint_loop-excludes :
      (fuel : ℕ) (xs : Nodes)
      → Chain s.cell xs
      → count xs < fuel
      → disjoint_loop inner fuel (first xs) (first ys) s ≡ ok (excludes (values ys) (values xs)) s
  unfolding disjoint_loop
  disjoint_loop-excludes zero xs t lt = absurd (omega arith)
  disjoint_loop-excludes (suc fuel) [] t lt = refl
  disjoint_loop-excludes (suc fuel) ((a, v) ∷ xs) (pos, e, t) lt =
      let nz : (a == 0) ≡ false = ground arith in
      let test = int_member-has s inner v ys ty enough in
      let rest = disjoint_loop-excludes fuel xs t (omega arith) in
      elim (Bool-cases (has v (values ys))) [
        | inl y ↦ rw (nz, load-ok a v (first xs) s pos e, test, y)
        | inr n ↦ rw (nz, load-ok a v (first xs) s pos e, test, n, rest)
      ]

-- what `same_seti` returns on two lists with these elements
abbrev pub same_as : List ℕ → List ℕ → Bool
same_as us vs = if Base.length us == Base.length vs then includes vs us else false

abbrev pub Reads : Store → (fuel : ℕ) → (xs ys : Nodes) → Type 0
Reads s fuel xs ys =
    (is_subseti fuel (first xs) (first ys) s ≡ ok (includes (values ys) (values xs)) s)
    × (non_overlap_setsi fuel (first xs) (first ys) s ≡ ok (excludes (values ys) (values xs)) s)
    × (same_seti fuel (first xs) (first ys) s ≡ ok (same_as (values xs) (values ys)) s)

length-values : (xs : Nodes) → Base.length (values xs) ≡ count xs
length-values [] = refl
length-values ((a, v) ∷ xs) = rw (length-values xs)

same_seti-same_as :
    (s : Store) (fuel : ℕ) (xs ys : Nodes)
    → Chain s.cell xs
    → Chain s.cell ys
    → count xs < fuel
    → count ys < fuel
    → same_seti fuel (first xs) (first ys) s ≡ ok (same_as (values xs) (values ys)) s
unfolding same_seti
same_seti-same_as s fuel [] [] tx ty lx ly = refl
same_seti-same_as s fuel [] ((b, w) ∷ ys) tx (pos, e, ty) lx ly =
    let nz : (b == 0) ≡ false = ground arith in
    let z : (0 == suc (Base.length (values ys))) ≡ false = ground arith in rw (nz, z)
same_seti-same_as s fuel ((a, v) ∷ xs) [] (pos, e, tx) ty lx ly =
    let nz : (a == 0) ≡ false = ground arith in
    let z : (suc (Base.length (values xs)) == 0) ≡ false = ground arith in rw (nz, z)
same_seti-same_as s fuel ((a, v) ∷ xs) ((b, w) ∷ ys) tx ty lx ly =
    let na : (a == 0) ≡ false = let p = tx.1 in ground arith in
    let nb : (b == 0) ≡ false = let p = ty.1 in ground arith in
    let m = length-count s fuel ((a, v) ∷ xs) tx lx in
    let n = length-count s fuel ((b, w) ∷ ys) ty ly in
    let sub = subset_loop-includes s ((b, w) ∷ ys) fuel ty ly fuel ((a, v) ∷ xs) tx lx in
    elim (Bool-cases (suc (count xs) == suc (count ys))) [
      | inl y ↦ rw (na, nb, m, n, length-values xs, length-values ys, y, sub)
      | inr k ↦ rw (na, nb, m, n, length-values xs, length-values ys, k)
    ]

-- On two lists in the store, with fuel above the length of each, `is_subseti` returns whether every
-- element of the first is an element of the second, `non_overlap_setsi` whether none is, and
-- `same_seti` whether the lists are equally long and the first is a subset of the second; the store
-- stays as it is.
set_tests-Reads :
    (s : Store) (fuel : ℕ) (xs ys : Nodes)
    → Chain s.cell xs
    → Chain s.cell ys
    → count xs < fuel
    → count ys < fuel
    → Reads s fuel xs ys
unfolding is_subseti non_overlap_setsi
set_tests-Reads s fuel xs ys tx ty lx ly = (
  subset_loop-includes s ys fuel ty ly fuel xs tx lx,
  disjoint_loop-excludes s ys fuel ty ly fuel xs tx lx,
  same_seti-same_as s fuel xs ys tx ty lx ly,
)
