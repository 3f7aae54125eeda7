-- ===== src/DynaHash/Create.antt =====
-- The creation of hash tables: `hash_create`, `hdefault`, `init_htab`, `my_log2`,
-- `hash_estimate_size` and `hash_select_dirsize` of dynahash.c. An int has values below 2^31 here.
pub mod Sizes
pub mod Examples
use Prim.Native.Nat.{bit_and}
use native.Mathlib.Nat.{pow-suc}
use postgres_v.Base.{
  ℕ, zero, suc, ◌+◌, ◌-◌, ◌*◌, ◌/◌, ◌^◌, ◌<◌, ◌≤◌, ◌≡◌, ◌≢◌, ◌⊎◌, refl, sym, ap, ◌∙◌, inl, inr,
  Bool, true, false, not, ◌&&◌, ◌||◌, arith, leb, ltb, ◌==◌, if◌then◌else◌, max_align, two_pow_pos,
  two_pow-le, two_pow-lt_cancel, Bool-cases, ltb→lt, ltb→le,
}
use postgres_v.Rings.{store}
use postgres_v.DynaHash.{HashTable, no_max_dsize, seg_alloc}

-- HASHCTL, less the functions
pub record HashCtrl : Type 0 where
  pub ssize : ℕ
  pub dsize : ℕ
  pub ffactor : ℕ
  pub keysize : ℕ
  pub datasize : ℕ
  pub max_dsize : ℕ
  pub segbase : ℕ
  pub dir : ℕ
  pub hctl : ℕ

abbrev pub hash_segment : ℕ
hash_segment = 2

abbrev pub hash_dirsize : ℕ
hash_dirsize = 4

abbrev pub hash_ffactor : ℕ
hash_ffactor = 8

abbrev pub hash_elem : ℕ
hash_elem = 32

abbrev pub hash_shared_mem : ℕ
hash_shared_mem = 64

abbrev pub hash_attach : ℕ
hash_attach = 128

pub has_flag : (flags flag : ℕ) → Bool
has_flag flags flag = not (bit_and flags flag == 0)

-- the result of `hash_create`: a table, NULL, the failure of an assertion, or the overflow of an int
pub data Creation : Type 0 where
  created : HashTable → Creation
  not_created : Creation
  broken_assertion : Creation
  overflow : Creation

-- the loop of `my_log2`; fuel for `num` rounds is enough
pub log2_loop : (fuel i limit num : ℕ) → ℕ
log2_loop zero i limit num = i
log2_loop (suc fuel) i limit num =
    let rest = log2_loop fuel (i + 1) (2 * limit) num in if ltb limit num then rest else i

pub my_log2 : (num : ℕ) → ℕ
my_log2 num = log2_loop num 0 1 num

-- DEF_SEGSIZE, DEF_SEGSIZE_SHIFT, DEF_DIRSIZE and DEF_FFACTOR
pub hdefault : HashTable → HashTable
hdefault t = record t {
  ssize = 256;
  sshift = 8;
  dsize = 256;
  ffactor = 1;
  nkeys = 0;
  nsegs = 0;
  max_bucket = 0;
  high_mask = 0;
  low_mask = 0;
  keysize = 8;
  datasize = 8;
  max_dsize = no_max_dsize;
  free_bucket_index = 0;
}

-- (nelem - 1) / ffactor + 1, where 0 - 1 is -1 and the division rounds to 0
pub wanted_buckets : (nelem ffactor : ℕ) → ℕ
wanted_buckets nelem ffactor =
    if nelem == 0 then (if ffactor == 1 then 0 else 1) else (nelem - 1) / ffactor + 1

-- the loop `while (ndir_entries < nsegments)`; fuel for `nsegments` rounds is enough
pub double_until : (fuel ndir_entries nsegments : ℕ) → ℕ
double_until zero ndir_entries nsegments = ndir_entries
double_until (suc fuel) ndir_entries nsegments =
    let rest = double_until fuel (2 * ndir_entries) nsegments in
    if ltb ndir_entries nsegments then rest else ndir_entries

pub hash_select_dirsize : (num_entries : ℕ) → ℕ
hash_select_dirsize num_entries =
    let nbuckets = 2 ^ my_log2 (wanted_buckets num_entries 1) in
    let nsegments = 2 ^ my_log2 ((nbuckets - 1) / 256 + 1) in double_until nsegments 256 nsegments

-- the records come in groups of BUCKET_ALLOC_INCR; sizeof(HHDR) is 120
pub hash_estimate_size : (num_entries keysize datasize : ℕ) → ℕ
hash_estimate_size num_entries keysize datasize =
    let nbuckets = 2 ^ my_log2 (wanted_buckets num_entries 1) in
    let nsegments = 2 ^ my_log2 ((nbuckets - 1) / 256 + 1) in
    let ndir_entries = double_until nsegments 256 nsegments in
    let record_size = max_align (8 + keysize + datasize) in
    let nrecord_allocs = wanted_buckets num_entries 30 in
    (max_align 120 + max_align (ndir_entries * 8))
    + (nsegments * max_align (256 * 8) + (nrecord_allocs * 30) * record_size)

module _ (hash : ℕ → ℕ) (alloc : HashTable → (size : ℕ) → ℕ) where
  -- the initial segments, `n` of them still; whether there was memory
  pub alloc_segments : (n : ℕ) → HashTable → Bool × HashTable
  alloc_segments zero t = (true, t)
  alloc_segments (suc n) t =
      let (a, u) = seg_alloc hash alloc t in
      let v = record u { dir = store u.dir u.nsegs a } in
      let rest = alloc_segments n (record v { nsegs = v.nsegs + 1 }) in
      if a == 0 then (false, v) else rest

  -- `has_dir` when `dir` is not NULL
  pub init_htab : (has_dir : Bool) (nelem : ℕ) → HashTable → Creation
  init_htab has_dir nelem t =
      let nbuckets = 2 ^ my_log2 (wanted_buckets nelem t.ffactor) in
      let u = record t {
        max_bucket = nbuckets - 1;
        low_mask = nbuckets - 1;
        high_mask = 2 * nbuckets - 1;
      } in
      let nsegs = 2 ^ my_log2 ((nbuckets - 1) / t.ssize + 1) in
      let v = if ltb u.dsize nsegs then record u { dsize = nsegs } else u in
      let (ready, w) = alloc_segments (nsegs - v.nsegs) v in
      if leb (2 ^ 30) nbuckets
      then overflow
      else (if (ltb u.dsize nsegs && has_dir) || (not has_dir && alloc v (v.dsize * 8) == 0)
          then not_created
          else (if ready then created w else not_created))

  -- the parameters of the caller
  pub set_parameters : (info : HashCtrl) (flags : ℕ) → HashTable → HashTable
  set_parameters info flags t =
      let u =
        if has_flag flags hash_segment
        then record t { ssize = info.ssize; sshift = my_log2 info.ssize }
        else t in
      let v = if has_flag flags hash_ffactor then record u { ffactor = info.ffactor } else u in
      let w =
        if has_flag flags hash_dirsize
        then record v { max_dsize = info.max_dsize; dsize = info.dsize }
        else v in
      if has_flag flags hash_elem
      then record w { keysize = info.keysize; datasize = info.datasize }
      else w

  -- `t` is what the memory of the control information and of the directory has; `hash` and `alloc`
  -- are the functions that the flags choose
  pub hash_create :
      (asserts : Bool) (nelem : ℕ) (info : HashCtrl) (flags : ℕ) → HashTable → Creation
  hash_create asserts nelem info flags t =
      let shared = has_flag flags hash_shared_mem in
      let base = record t { segbase = if shared then info.segbase else 0 } in
      let u = set_parameters info flags (hdefault base) in
      if shared && has_flag flags hash_attach
      then created base
      else (if not (shared && not (info.hctl == 0)) && alloc base 120 == 0
          then not_created
          else (if asserts && (has_flag flags hash_segment && not (u.ssize == 2 ^ u.sshift))
              then broken_assertion
              else init_htab (shared && not (info.dir == 0)) nelem u))
