-- ===== src/PgList/Examples.antt =====
-- The theorems on a store with a list of three nodes and one of two, and runs on it.
use postgres_v.Base.{ltb, ◌≡◌, refl, none, [], ◌∷◌, arith, ◌==◌, if◌then◌else◌}
use postgres_v.PgList.{Store, lremove, lisp_remove}
use postgres_v.PgList.Chains.{Nodes, cell_at, Chain, IsDistinct, IsStore}
use postgres_v.PgList.Cut.{lremove-Removes, Removes}

abbrev three : Nodes
three = (16, 5) ∷ (24, 7) ∷ (32, 9) ∷ []

abbrev two : Nodes
two = (40, 9) ∷ (48, 5) ∷ []

abbrev sample : Store
sample = record {
  cell = λ a.
      if a == 16
      then cell_at 5 24
      else if a == 24
      then cell_at 7 32
      else if a == 32
      then cell_at 9 0
      else if a == 40
      then cell_at 9 48
      else if a == 48
      then cell_at 5 0
      else none;
  brk = 56;
}

three-Chain : Chain sample.cell three
three-Chain = (omega arith, refl, (omega arith, refl, (omega arith, refl, tt)))

two-Chain : Chain sample.cell two
two-Chain = (omega arith, refl, (omega arith, refl, tt))

three-IsDistinct : IsDistinct three
three-IsDistinct = (
  ((λ (p : 16 ≡ 24). omega arith), ((λ (p : 16 ≡ 32). omega arith), tt)),
  (((λ (p : 24 ≡ 32). omega arith), tt), (tt, tt)),
)

sample-IsStore : IsStore sample
sample-IsStore = (omega arith, λ a ge. ground arith)

lremove-Removes_example :
    Removes sample three (λ v. 7 == v) (lremove 4 7 16 sample)
    × Removes sample three (λ v. ltb 7 v) (lisp_remove ltb 4 7 16 sample)
lremove-Removes_example =
    lremove-Removes ltb 7 sample 4 three three-Chain three-IsDistinct (omega arith)
