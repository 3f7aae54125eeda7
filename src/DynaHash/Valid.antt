-- ===== src/DynaHash/Valid.antt =====
-- The invariant of a hash table: the collision chains of its buckets, the free list, and the cells
-- that belong to each; what a change of other cells leaves as it was.
use postgres_v.Base.{
  All-implies, ℕ, ◌+◌, ◌<◌, ◌≡◌, ◌≢◌, refl, sym, ap, ◌∙◌, inl, inr, true, false, List, [], ◌∷◌,
  ◌++◌, arith, ◌==◌, if◌then◌else◌, All, All-zip, All-parts, All-append, Bool-cases, ==→eq, ==→ne,
}
use mathlib.Core.Path.{subst}
use postgres_v.Rings.{Lacks, Distinct, last}
use postgres_v.DynaHash.Keys.{find_key, OneEach, OneEach-same}
use postgres_v.DynaHash.Chains.{Leads, Chain, Chain-same}
use postgres_v.DynaHash.Home.{Masked, call_hash-le}
use postgres_v.DynaHash.{HashTable, place, call_hash}

-- the list of the bucket `b` is `xs`
pub with_chain : (chain : ℕ → List ℕ) → (b : ℕ) → List ℕ → ℕ → List ℕ
with_chain chain b xs c = if c == b then xs else chain c

pub with_chain-at : (chain : ℕ → List ℕ) (b : ℕ) (xs : List ℕ) → with_chain chain b xs b ≡ xs
unfolding with_chain
with_chain-at chain b xs = let here : (b == b) ≡ true = ground arith in rw here refl

pub with_chain-other :
    (chain : ℕ → List ℕ) (b c : ℕ) (xs : List ℕ) → c ≢ b → with_chain chain b xs c ≡ chain c
unfolding with_chain
with_chain-other chain b c xs ne = let other : (c == b) ≡ false = ground arith in rw other refl

-- what holds of the list of each bucket
pub with_chain-each :
    (P : ℕ → List ℕ → Type 0) (chain : ℕ → List ℕ) (b : ℕ) (xs : List ℕ)
    → P b xs
    → ((c : ℕ) → c ≢ b → P c (chain c))
    → (c : ℕ) → P c (with_chain chain b xs c)
unfolding with_chain
with_chain-each P chain b xs here others c = elim (Bool-cases (c == b)) [
  | inl e ↦ rw e (subst (λ d. P d xs) (sym (==→eq c b e)) here)
  | inr e ↦ rw e (others c (==→ne c b e))
]

pub All-last : (P : ℕ → Type 0) (p : ℕ) (xs : List ℕ) → All P (p ∷ xs) → P (last p xs)
All-last P p [] (h, _) = h
All-last P p (x ∷ xs) (h, all) = All-last P x xs all

-- cells of a bucket are not those of another owner
pub Lacks-owner :
    (owner : ℕ → ℕ) (q b : ℕ) (xs : List ℕ) → owner q ≢ b → All (λ x. owner x ≡ b) xs → Lacks q xs
Lacks-owner owner q b xs ne all =
    All-implies (λ x. owner x ≡ b) (λ x. q ≢ x) xs all (λ x e same. ne (ap owner same ∙ e))

-- cells of different owners
pub owner-differs :
    (owner : ℕ → ℕ) (q r m n : ℕ) → owner q ≡ m → owner r ≡ n → m ≢ n → (q == r) ≡ false
owner-differs owner q r m n eq er ne = elim (Bool-cases (q == r)) [
  | inl same ↦ absurd (ne (sym eq ∙ (ap owner (==→eq q r same) ∙ er)))
  | inr differ ↦ differ
]

pub All-without :
    (P : ℕ → Type 0) (e : ℕ) (xs ys : List ℕ) → All P (xs ++ e ∷ ys) → All P (xs ++ ys)
All-without P e xs ys all = let (l, _, r) = All-parts P xs e ys all in All-append P xs ys l r

pub place-same :
    (t u : HashTable) (b : ℕ)
    → u.dir ≡ t.dir
    → u.sshift ≡ t.sshift
    → u.ssize ≡ t.ssize
    → place u b ≡ place t b
unfolding place
place-same t u b d e f = rw (d, e, f) refl

module _ (hash : ℕ → ℕ) (alloc : HashTable → (size : ℕ) → ℕ) where
  pub call_hash-same :
      (t u : HashTable) (k : ℕ)
      → u.max_bucket ≡ t.max_bucket
      → u.high_mask ≡ t.high_mask
      → u.low_mask ≡ t.low_mask
      → call_hash hash alloc u k ≡ call_hash hash alloc t k
  unfolding call_hash
  call_hash-same t u k d e f = rw (d, e, f) refl

  -- `xs` are the elements of the bucket `b`: its cells have the owner `b + 1`, and no two elements
  -- have the same key
  pub record Bucket (t : HashTable) (owner : ℕ → ℕ) (b : ℕ) (xs : List ℕ) : Type 0 where
    pub linked : Chain t.words (place t b) xs
    pub distinct : Distinct (place t b ∷ xs)
    pub owned : All (λ x. owner x ≡ b + 1) (place t b ∷ xs)
    pub at_home : All (λ e. call_hash hash alloc t (t.key e) ≡ b) xs
    pub one_each : OneEach t.key xs

  -- `xs` are the elements of the free list, whose cells have the owner 0
  pub record FreeList (t : HashTable) (owner : ℕ → ℕ) (xs : List ℕ) : Type 0 where
    pub leads : Leads t.words t.free_bucket_index xs
    pub different : Distinct xs
    pub unowned : All (λ x. owner x ≡ 0) xs

  -- the masks fit `max_bucket`, there are segments for `slots` buckets, and each has its list
  pub record IsTable (slots : ℕ) (chain : ℕ → List ℕ) (free : List ℕ) (owner : ℕ → ℕ)
      (t : HashTable) : Type 0 where
    pub mask_digits : ℕ
    pub masked : Masked mask_digits t
    pub within : t.max_bucket < slots
    pub bucket : (b : ℕ) → b < slots → Bucket t owner b (chain b)
    pub free_list : FreeList t owner free

  -- the element with the key `k`, or 0
  abbrev pub lookup : (chain : ℕ → List ℕ) → HashTable → (k : ℕ) → ℕ
  lookup chain t k = find_key t.key k (chain (call_hash hash alloc t k))

  pub call_hash-lt :
      (slots : ℕ) (chain : ℕ → List ℕ) (free : List ℕ) (owner : ℕ → ℕ) (t : HashTable) (k : ℕ)
      → IsTable slots chain free owner t
      → call_hash hash alloc t k < slots
  call_hash-lt slots chain free owner t k v =
      let le = call_hash-le hash alloc v.mask_digits t k v.masked in
      let lt = v.within in omega arith

  -- a bucket none of whose cells changes
  pub Bucket-same :
      (t u : HashTable) (owner other : ℕ → ℕ) (b : ℕ) (xs : List ℕ)
      → Bucket t owner b xs
      → place u b ≡ place t b
      → ((q : ℕ)
          → owner q ≡ b + 1
          → (u.words q ≡ t.words q) × (u.key q ≡ t.key q) × (other q ≡ owner q))
      → ((k : ℕ) → call_hash hash alloc t k ≡ b → call_hash hash alloc u k ≡ b)
      → Bucket u other b xs
  Bucket-same t u owner other b xs v p same home =
      let keys =
        All-implies (λ x. owner x ≡ b + 1) (λ x. u.key x ≡ t.key x) xs v.owned.1
          (λ q o. (same q o).1) in
      record {
        linked = rw p (
            Chain-same t.words u.words (place t b) xs v.linked (
              All-implies (λ x. owner x ≡ b + 1) (λ x. u.words x ≡ t.words x) (place t b ∷ xs)
                v.owned (λ q o. (same q o).0)));
        distinct = rw p v.distinct;
        owned = rw p (
            All-implies (λ x. owner x ≡ b + 1) (λ x. other x ≡ b + 1) (place t b ∷ xs) v.owned
              (λ q o. (same q o).2 ∙ o));
        at_home =
            All-zip (λ x. u.key x ≡ t.key x) (λ x. call_hash hash alloc t (t.key x) ≡ b)
              (λ x. call_hash hash alloc u (u.key x) ≡ b) (λ x e h. rw e (home (t.key x) h)) xs keys
              v.at_home;
        one_each = OneEach-same t.key u.key xs keys v.one_each;
      }
