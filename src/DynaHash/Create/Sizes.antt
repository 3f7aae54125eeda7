-- ===== src/DynaHash/Create/Sizes.antt =====
-- What the creation of a hash table in dynahash.c promises: the masks and the segments for the number
-- of elements, and that a directory of the size of `hash_select_dirsize` is large enough.
use mathlib.Core.Path.{subst}
use native.Mathlib.Nat.{
  pow-suc, div-add-mod, mod-lt, mul-le-mul_right, div-le_self, mul_comm, add-mul,
}
use postgres_v.Base.{
  ℕ, zero, suc, ◌+◌, ◌-◌, ◌*◌, ◌/◌, ◌^◌, ◌<◌, ◌≤◌, ◌≡◌, ◌⊎◌, refl, sym, ◌∙◌, ==→eq, inl, inr, Bool,
  true, false, not, ◌&&◌, ◌||◌, arith, leb, ltb, ◌==◌, if◌then◌else◌, two_pow_pos, Bool-cases,
  ltb→lt, ltb→le, two_pow-add-one, lt→leb,
}
use postgres_v.Rings.{store}
use postgres_v.DynaHash.Home.{Masked}
use postgres_v.DynaHash.Create.{
  created, log2_loop, my_log2, wanted_buckets, double_until, hash_select_dirsize, alloc_segments,
  init_htab,
}
use postgres_v.DynaHash.{HashTable, seg_alloc, clear_words}

log2_loop-bounds :
    (fuel i num : ℕ)
    → num ≤ 2 ^ i + fuel
    → 2 ^ i < 2 * num
    → (num ≤ 2 ^ log2_loop fuel i (2 ^ i) num) × (2 ^ log2_loop fuel i (2 ^ i) num < 2 * num)
unfolding log2_loop
log2_loop-bounds zero i num enough lt = (omega arith, lt)
log2_loop-bounds (suc fuel) i num enough lt =
    let double : 2 * 2 ^ i ≡ 2 ^ (i + 1) = sym (two_pow-add-one i) in
    let pos = two_pow_pos i in
    elim (Bool-cases (ltb (2 ^ i) num)) [
      | inl small ↦
          let less = ltb→lt (2 ^ i) num small in
          rw (small, double)
            (log2_loop-bounds fuel (i + 1) num (omega (arith, double)) (omega (arith, double)))
      | inr large ↦ rw large (ltb→le (2 ^ i) num large, lt)
    ]

-- `my_log2` of a positive number is the least power of 2 that is not below it
pub my_log2-bounds : (num : ℕ) → 0 < num → (num ≤ 2 ^ my_log2 num) × (2 ^ my_log2 num < 2 * num)
unfolding my_log2
my_log2-bounds num pos = log2_loop-bounds num 0 num (omega arith) (omega arith)

double_until-enough : (fuel d n : ℕ) → 0 < d → n ≤ d + fuel → n ≤ double_until fuel d n
unfolding double_until
double_until-enough zero d n pos le = omega arith
double_until-enough (suc fuel) d n pos le = elim (Bool-cases (ltb d n)) [
  | inl small ↦ rw small (double_until-enough fuel (2 * d) n (omega arith) (omega arith))
  | inr large ↦ rw large (ltb→le d n large)
]

quotient-bound : (a s n : ℕ) → 0 < s → a / s + 1 ≤ n → a < n * s
quotient-bound a s n pos le =
    let e = div-add-mod a s in
    let lt = mod-lt a pos in
    let more = mul-le-mul_right {m = a / s + 1} {n = n} s le in
    omega (arith, e, lt, more, mul_comm s (a / s), add-mul (a / s) 1 s)

wanted_buckets-pos :
    (nelem ffactor : ℕ) → 0 < nelem → wanted_buckets nelem ffactor ≡ (nelem - 1) / ffactor + 1
unfolding wanted_buckets
wanted_buckets-pos nelem ffactor pos =
    let test : (nelem == 0) ≡ false = ground arith in rw test refl

-- the directory that was allocated before is large enough
dir_fits :
    (small has_dir no_memory : Bool)
    → (has_dir ≡ true → small ≡ false)
    → no_memory ≡ false
    → (small && has_dir || not has_dir && no_memory) ≡ false
dir_fits small true no_memory fits some = rw (fits refl) refl
dir_fits true false no_memory fits some = some
dir_fits false false no_memory fits some = some

grown_dir :
    (small : Bool) (n : ℕ) (t : HashTable)
    → (if small then record t { dsize = n } else t)
      ≡ record t { dsize = if small then n else t.dsize }
grown_dir true n t = refl
grown_dir false n t = refl

-- Entry `i` of the directory is the place that `alloc` gave for a segment when there were `i` of them,
-- and each word of the segment is 0.
abbrev pub IsSegment : (alloc : HashTable → (size : ℕ) → ℕ) → HashTable → (i : ℕ) → Type 0
IsSegment alloc u i =
    ((v : HashTable) × (v.nsegs ≡ i) × (u.dir i ≡ alloc v (8 * u.ssize)))
    × (0 < u.dir i)
    × ((p : ℕ) → u.dir i ≤ p → p < u.dir i + 8 * u.ssize → u.words p ≡ 0)

module _ (hash : ℕ → ℕ) (alloc : HashTable → (size : ℕ) → ℕ)
    (memory : (t : HashTable) (size : ℕ) → 0 < alloc t size) where
  seg_alloc-ready :
      (t : HashTable)
      → seg_alloc hash alloc t ≡ (
        alloc t (8 * t.ssize),
        record t { words = clear_words hash alloc t.ssize (alloc t (8 * t.ssize)) t.words },
      )
  unfolding seg_alloc
  seg_alloc-ready t =
      let some_a : (alloc t (8 * t.ssize) == 0) ≡ false =
        (let pos = memory t (8 * t.ssize) in ground arith) in
      rw some_a refl

  -- the words of a segment are cleared, and no word that is 0 changes
  clear_words-zero :
      (n a p : ℕ) (f : ℕ → ℕ)
      → (f p ≡ 0) ⊎ ((a ≤ p) × (p < a + 8 * n))
      → clear_words hash alloc n a f p ≡ 0
  unfolding clear_words
  clear_words-zero n a p f (inl e) = ground arith
  clear_words-zero n a p f (inr (le, lt)) = ground arith

  -- the directory gets the new segments behind those that it has
  alloc_segments-ready :
      (n : ℕ) (t : HashTable)
      → (f : ℕ → ℕ) × (d : ℕ → ℕ) × (alloc_segments hash alloc n t
          ≡ (true, record t { words = f; dir = d; nsegs = t.nsegs + n }))
        × ((i : ℕ) → i < t.nsegs → d i ≡ t.dir i)
        × ((p : ℕ) → t.words p ≡ 0 → f p ≡ 0)
        × ((i : ℕ)
            → t.nsegs ≤ i
            → i < t.nsegs + n
            → IsSegment alloc (record t { words = f; dir = d; nsegs = t.nsegs + n }) i)
  unfolding alloc_segments
  alloc_segments-ready zero t = (
    t.words,
    t.dir,
    (let e : t.nsegs + 0 ≡ t.nsegs = omega arith in rw e refl),
    λ i lt. refl,
    λ p e. e,
    λ i le lt. absurd (omega arith),
  )
  alloc_segments-ready (suc n) t =
      let a = alloc t (8 * t.ssize) in
      let pos = memory t (8 * t.ssize) in
      let some_a : (a == 0) ≡ false = ground arith in
      let g = clear_words hash alloc t.ssize a t.words in
      let (f, d, run, kept, zeros, segments) =
        alloc_segments-ready n
          (record t { words = g; dir = store t.dir t.nsegs a; nsegs = t.nsegs + 1 }) in
      let more : t.nsegs + suc n ≡ t.nsegs + 1 + n = omega arith in
      let here : (t.nsegs == t.nsegs) ≡ true = ground arith in
      let stored : d t.nsegs ≡ a = kept t.nsegs (omega arith) ∙ rw here refl in
      (
        f,
        d,
        rw (seg_alloc-ready t, some_a, run, more) refl,
        λ i lt.
            (let other : (t.nsegs == i) ≡ false = ground arith in
              kept i (omega arith) ∙ rw other refl),
        λ p e. zeros p (clear_words-zero t.ssize a p t.words (inl e)),
        λ i le lt. elim (Bool-cases (t.nsegs == i)) [
          | inl same ↦
              subst (IsSegment alloc (record t { words = f; dir = d; nsegs = t.nsegs + suc n }))
                (==→eq t.nsegs i same)
                (
                  (t, refl, stored),
                  rw stored pos,
                  λ p le lt. zeros p (
                      clear_words-zero t.ssize a p t.words
                        (inr (omega (arith, stored, le), omega (arith, stored, lt)))),
                )
          | inr later ↦ segments i (ground arith) (omega arith)
        ],
      )

  -- When no allocation fails, the table has no segment yet, its fill factor and its segment size are
  -- positive, there are 1 to 2^29 elements, and a directory that was allocated before is not smaller
  -- than the number of segments, `init_htab` makes a table with masks for the last bucket, at least
  -- a bucket for each `ffactor` elements, segments with an entry for each bucket, and a directory
  -- with an entry for each segment. Each entry of the directory below `nsegs` holds the place of a
  -- segment that was allocated for it, all of whose words are 0.
  pub init_htab-created :
      (has_dir : Bool) (nelem : ℕ) (t : HashTable)
      → 0 < nelem
      → nelem ≤ 2 ^ 29
      → 0 < t.ffactor
      → 0 < t.ssize
      → t.nsegs ≡ 0
      → (has_dir ≡ true
          → 2 ^ my_log2 ((2 ^ my_log2 (wanted_buckets nelem t.ffactor) - 1) / t.ssize + 1)
            ≤ t.dsize)
      → (u : HashTable) × (k : ℕ) × (init_htab hash alloc has_dir nelem t ≡ created u)
        × Masked k u
        × (nelem ≤ (u.max_bucket + 1) * u.ffactor)
        × (u.max_bucket < u.nsegs * u.ssize)
        × (u.nsegs ≤ u.dsize)
        × ((i : ℕ) → i < u.nsegs → IsSegment alloc u i)
  unfolding init_htab
  init_htab-created has_dir nelem t pos most factor size fresh fits =
      let k = my_log2 (wanted_buckets nelem t.ffactor) in
      let nb = 2 ^ k in
      let ns = 2 ^ my_log2 ((nb - 1) / t.ssize + 1) in
      let u : HashTable = record t {
        max_bucket = nb - 1;
        low_mask = nb - 1;
        high_mask = 2 * nb - 1;
      } in
      let small = ltb t.dsize ns in
      let d = if small then ns else t.dsize in
      let v : HashTable = record u { dsize = d } in
      let wanted = wanted_buckets-pos nelem t.ffactor pos in
      let quotient = div-le_self (nelem - 1) t.ffactor in
      let (ge, lt) = my_log2-bounds (wanted_buckets nelem t.ffactor) (rw wanted (omega arith)) in
      let (ge2, _) = my_log2-bounds ((nb - 1) / t.ssize + 1) (omega arith) in
      let (f, dir, run, _, _, made) = alloc_segments-ready (ns - t.nsegs) v in
      let int : leb (2 ^ 30) nb ≡ false =
        lt→leb nb (2 ^ 30) (omega (arith, lt, wanted, quotient)) in
      let some_a : (alloc v (d * 8) == 0) ≡ false = (let a = memory v (d * 8) in ground arith) in
      let ready =
        dir_fits small has_dir (alloc v (d * 8) == 0) (λ h. let ok = fits h in ground arith)
          some_a in
      let segments : t.nsegs + (ns - t.nsegs) ≡ ns = omega (arith, fresh) in
      let buckets : nb - 1 + 1 ≡ nb = omega (arith, two_pow_pos k) in
      let enough = quotient-bound (nelem - 1) t.ffactor nb factor (rw (sym wanted) ge) in
      (
        record v { words = f; dir = dir; nsegs = t.nsegs + (ns - t.nsegs) },
        k,
        rw (grown_dir small ns u, run, int, ready) refl,
        (
          buckets,
          omega (arith, pow-suc 2 k, two_pow_pos k),
          omega arith,
          omega arith,
          omega (arith, lt, wanted, quotient),
        ),
        rw buckets (omega (arith, enough, pos)),
        rw segments (quotient-bound (nb - 1) t.ssize ns size ge2),
        rw segments (ground arith),
        λ i lt. made i (omega (arith, fresh)) lt,
      )

  -- When no allocation fails, there are 1 to 2^29 elements, the table has no segment yet, the default
  -- fill factor and segment size, and a directory of the size that `hash_select_dirsize` gives,
  -- `init_htab` makes the table with the directory that was allocated before: with masks for the last
  -- bucket, a bucket for each element, and segments for the buckets, each of them, cleared, with its
  -- entry in the directory.
  pub hash_select_dirsize-enough :
      (nelem : ℕ) (t : HashTable)
      → 0 < nelem
      → nelem ≤ 2 ^ 29
      → t.ffactor ≡ 1
      → t.ssize ≡ 256
      → t.nsegs ≡ 0
      → t.dsize ≡ hash_select_dirsize nelem
      → (u : HashTable) × (k : ℕ) × (init_htab hash alloc true nelem t ≡ created u)
        × Masked k u
        × (nelem ≤ (u.max_bucket + 1) * u.ffactor)
        × (u.max_bucket < u.nsegs * u.ssize)
        × (u.nsegs ≤ u.dsize)
        × ((i : ℕ) → i < u.nsegs → IsSegment alloc u i)
  unfolding hash_select_dirsize
  hash_select_dirsize-enough nelem t pos most factor size fresh dir =
      init_htab-created true nelem t pos most (omega arith) (omega arith) fresh (λ _.
        rw (factor, size, dir)
          (double_until-enough (2 ^ my_log2 ((2 ^ my_log2 (wanted_buckets nelem 1) - 1) / 256 + 1))
            256 (2 ^ my_log2 ((2 ^ my_log2 (wanted_buckets nelem 1) - 1) / 256 + 1)) (omega arith)
            (omega arith)))
