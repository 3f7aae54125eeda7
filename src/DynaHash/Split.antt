-- ===== src/DynaHash/Split.antt =====
-- The owners and the lists of two buckets after `expand_table` of dynahash.c has split one.
use postgres_v.Base.{
  ℕ, ◌+◌, ◌≡◌, ◌≢◌, refl, Bool, true, false, not, ◌&&◌, List, arith, ◌==◌, if◌then◌else◌, ne→==,
}
use postgres_v.DynaHash.Keys.{staying, going}
use postgres_v.DynaHash.Valid.{with_chain}

-- the elements of the bucket `old` that do not stay get the owner of the bucket `n`
abbrev pub split_owner : (owner : ℕ → ℕ) (stays : ℕ → Bool) (p old n : ℕ) → ℕ → ℕ
split_owner owner stays p old n q =
    if (owner q == old + 1) && (not (p == q) && not (stays q)) then n + 1 else owner q

pub split_owner-other :
    (owner : ℕ → ℕ) (stays : ℕ → Bool) (p old n q m : ℕ)
    → owner q ≡ m
    → m ≢ old + 1
    → split_owner owner stays p old n q ≡ m
split_owner-other owner stays p old n q m o ne = rw (o, ne→== m (old + 1) ne) refl

pub split_owner-place :
    (owner : ℕ → ℕ) (stays : ℕ → Bool) (p old n : ℕ)
    → owner p ≡ old + 1
    → split_owner owner stays p old n p ≡ old + 1
split_owner-place owner stays p old n o =
    let here : (p == p) ≡ true = ground arith in
    let same : (old + 1 == old + 1) ≡ true = ground arith in rw (o, same, here) refl

pub split_owner-stays :
    (owner : ℕ → ℕ) (stays : ℕ → Bool) (p old n q : ℕ)
    → owner q ≡ old + 1
    → p ≢ q
    → stays q ≡ true
    → split_owner owner stays p old n q ≡ old + 1
split_owner-stays owner stays p old n q o ne s =
    let same : (old + 1 == old + 1) ≡ true = ground arith in rw (o, same, ne→== p q ne, s) refl

pub split_owner-goes :
    (owner : ℕ → ℕ) (stays : ℕ → Bool) (p old n q : ℕ)
    → owner q ≡ old + 1
    → p ≢ q
    → stays q ≡ false
    → split_owner owner stays p old n q ≡ n + 1
split_owner-goes owner stays p old n q o ne s =
    let same : (old + 1 == old + 1) ≡ true = ground arith in rw (o, same, ne→== p q ne, s) refl

abbrev pub split_chain : (chain : ℕ → List ℕ) (stays : ℕ → Bool) (old n : ℕ) → ℕ → List ℕ
split_chain chain stays old n =
    with_chain (with_chain chain old (staying stays (chain old))) n (going stays (chain old))
