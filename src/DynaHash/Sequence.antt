-- ===== src/DynaHash/Sequence.antt =====
-- `hash_seq` of dynahash.c: that its calls return each element.
use postgres_v.Base.{
  Option, none, some, ℕ, zero, suc, ◌+◌, ◌/◌, ◌^◌, ◌<◌, ◌≤◌, ◌≡◌, refl, true, false, List, [], ◌∷◌,
  ◌++◌, length, arith, leb, ◌==◌, if◌then◌else◌,
}
use postgres_v.DynaHash.Chains.{Leads}
use postgres_v.DynaHash.Valid.{IsTable}
use postgres_v.DynaHash.{
  HashTable, Answer, element, null, is_true, Scan, scan_start, place, hash_seq,
}

with_first : ℕ → Option (List ℕ) → Option (List ℕ)
with_first e none = none
with_first e (some xs) = some (e ∷ xs)

go_on : (rest : Scan → Option (List ℕ)) → Option (Answer × Scan) → Option (List ℕ)
go_on rest none = none
go_on rest (some (element e, s)) = with_first e (rest s)
go_on rest (some (null, s)) = none
go_on rest (some (is_true, s)) = some []

-- the elements that at most `calls` calls return, up to TRUE; `none` if they do not come to it
pub visit : (calls fuel : ℕ) → HashTable → Scan → Option (List ℕ)
visit zero fuel t s = none
visit (suc calls) fuel t s = go_on (visit calls fuel t) (hash_seq fuel t s)

-- the elements of `n` buckets from `b` on
unfoldable pub elements : (chain : ℕ → List ℕ) → (n b : ℕ) → List ℕ
elements chain zero b = []
elements chain (suc n) b = chain b ++ elements chain n (b + 1)

-- the calls after the element `x` of the bucket `b`, when those from the next bucket on return `ys`
chain-visit :
    (t : HashTable) (fuel calls b x : ℕ) (xs ys : List ℕ)
    → b ≤ t.max_bucket
    → Leads t.words x (x ∷ xs)
    → ((c : ℕ)
        → length ys < c
        → visit c (suc fuel) t (record { cur_bucket = b + 1; cur_index = 0 }) ≡ some ys)
    → length (x ∷ xs ++ ys) < calls
    → visit calls (suc fuel) t (record { cur_bucket = b; cur_index = x }) ≡ some (x ∷ xs ++ ys)
unfolding visit hash_seq with_first go_on
chain-visit t fuel zero b x xs ys le leads behind lt = absurd (omega arith)
chain-visit t fuel (suc calls) b x [] ys le (_, pos, e) behind lt =
    let here : leb b t.max_bucket ≡ true = ground arith in
    let some_x : (x == 0) ≡ false = ground arith in
    rw (here, some_x, e, behind calls (omega arith)) refl
chain-visit t fuel (suc calls) b x (y ∷ xs) ys le (_, pos, (e, pos2, leads)) behind lt =
    let here : leb b t.max_bucket ≡ true = ground arith in
    let some_x : (x == 0) ≡ false = ground arith in
    let some_y : (y == 0) ≡ false = ground arith in
    rw
      (
        here,
        some_x,
        e,
        some_y,
        chain-visit t fuel calls b y xs ys le (refl, pos2, leads) behind (omega arith),
      )
      refl

hash_seq-index :
    (f g b x : ℕ) (t : HashTable)
    → b ≤ t.max_bucket
    → 0 < x
    → hash_seq (suc f) t (record { cur_bucket = b; cur_index = x })
      ≡ hash_seq (suc g) t (record { cur_bucket = b; cur_index = x })
unfolding hash_seq
hash_seq-index f g b x t le pos =
    let here : leb b t.max_bucket ≡ true = ground arith in
    let some_x : (x == 0) ≡ false = ground arith in rw (here, some_x) refl

hash_seq-first :
    (f b : ℕ) (t : HashTable)
    → b ≤ t.max_bucket
    → (t.segbase + t.dir (b / 2 ^ t.sshift) == 0) ≡ false
    → hash_seq (suc f) t (record { cur_bucket = b; cur_index = 0 })
      ≡ hash_seq f t (record {
        cur_bucket = if t.words (place t b) == 0 then b + 1 else b;
        cur_index = t.words (place t b);
      })
unfolding hash_seq
hash_seq-first f b t le segment =
    let here : leb b t.max_bucket ≡ true = ground arith in rw (here, segment) refl

visit-call :
    (fuel : ℕ) (t : HashTable) (s : Scan) (ys : List ℕ)
    → ((c : ℕ) → length ys ≤ c → go_on (visit c (suc fuel) t) (hash_seq (suc fuel) t s) ≡ some ys)
    → (c : ℕ) → length ys < c
    → visit c (suc fuel) t s ≡ some ys
unfolding visit
visit-call fuel t s ys run zero lt = absurd (omega arith)
visit-call fuel t s ys run (suc c) lt = run c (omega arith)

-- the calls from the beginning of the bucket `b`, of the elements `xs`
bucket-visit :
    (t : HashTable) (fuel calls f b : ℕ) (xs ys : List ℕ)
    → b ≤ t.max_bucket
    → Leads t.words (t.words (place t b)) xs
    → (t.segbase + t.dir (b / 2 ^ t.sshift) == 0) ≡ false
    → ((c : ℕ)
        → length ys < c
        → visit c (suc fuel) t (record { cur_bucket = b + 1; cur_index = 0 }) ≡ some ys)
    → (length ys ≤ calls
        → go_on
            (visit calls (suc fuel) t)
            (hash_seq (suc f) t (record { cur_bucket = b + 1; cur_index = 0 }))
          ≡ some ys)
    → length (xs ++ ys) ≤ calls
    → go_on
        (visit calls (suc fuel) t)
        (hash_seq (suc (suc f)) t (record { cur_bucket = b; cur_index = 0 }))
      ≡ some (xs ++ ys)
unfolding visit
bucket-visit t fuel calls f b [] ys le e segment behind next lt =
    rw (hash_seq-first (suc f) b t le segment, e) (next lt)
bucket-visit t fuel calls f b (x ∷ xs) ys le (e, pos, leads) segment behind next lt =
    let some_x : (x == 0) ≡ false = ground arith in
    rw (hash_seq-first (suc f) b t le segment, e, some_x, hash_seq-index f fuel b x t le pos)
      (chain-visit t fuel (suc calls) b x xs ys le (refl, pos, leads) behind (omega arith))

-- the calls from the beginning of the bucket `b`, with `n` from it on
buckets-visit :
    (t : HashTable) (chain : ℕ → List ℕ) (fuel n b f calls : ℕ)
    → b + n ≡ t.max_bucket + 1
    → ((c : ℕ) → c ≤ t.max_bucket → Leads t.words (t.words (place t c)) (chain c))
    → ((c : ℕ) → c ≤ t.max_bucket → (t.segbase + t.dir (c / 2 ^ t.sshift) == 0) ≡ false)
    → n ≤ f
    → n ≤ fuel
    → length (elements chain n b) ≤ calls
    → go_on
        (visit calls (suc fuel) t)
        (hash_seq (suc f) t (record { cur_bucket = b; cur_index = 0 }))
      ≡ some (elements chain n b)
unfolding hash_seq elements go_on
buckets-visit t chain fuel zero b f calls e lists segments enough full lt =
    let behind : leb b t.max_bucket ≡ false = ground arith in rw behind refl
buckets-visit t chain fuel (suc n) b zero calls e lists segments enough full lt =
    absurd (omega arith)
buckets-visit t chain fuel (suc n) b (suc f) calls e lists segments enough full lt =
    bucket-visit t fuel calls f b (chain b) (elements chain n (b + 1)) (omega arith)
      (lists b (omega arith)) (segments b (omega arith))
      (visit-call fuel t (record { cur_bucket = b + 1; cur_index = 0 }) (elements chain n (b + 1))
        (λ c le.
          buckets-visit t chain fuel n (b + 1) fuel c (omega arith) lists segments (omega arith)
            (omega arith) le))
      (λ le.
        buckets-visit t chain fuel n (b + 1) f calls (omega arith) lists segments (omega arith)
          (omega arith) le)
      lt

-- After hash_seq(NULL), when the table `t` has the lists `chain` and each bucket's segment has an
-- address that is not NULL, calls of `hash_seq`, more than there are elements, with fuel above the
-- number of buckets, return the elements of each bucket in order, each once, and then TRUE.
pub hash_seq-elements :
    (hash : ℕ → ℕ) (alloc : HashTable → (size : ℕ) → ℕ) (slots : ℕ) (chain : ℕ → List ℕ)
    (free : List ℕ) (owner : ℕ → ℕ) (t : HashTable) (fuel calls : ℕ)
    → IsTable hash alloc slots chain free owner t
    → ((c : ℕ) → c ≤ t.max_bucket → (t.segbase + t.dir (c / 2 ^ t.sshift) == 0) ≡ false)
    → t.max_bucket + 1 < fuel
    → length (elements chain (t.max_bucket + 1) 0) < calls
    → visit calls fuel t scan_start ≡ some (elements chain (t.max_bucket + 1) 0)
hash_seq-elements hash alloc slots chain free owner t zero calls v segments enough lt =
    absurd (omega arith)
hash_seq-elements hash alloc slots chain free owner t (suc fuel) calls v segments enough lt =
    let within = v.within in
    visit-call fuel t scan_start (elements chain (t.max_bucket + 1) 0)
      (λ c le.
        buckets-visit t chain fuel (t.max_bucket + 1) 0 fuel c (omega arith)
          (λ b b_le. (v.bucket b (omega arith)).linked) segments (omega arith) (omega arith) le)
      calls lt
