-- ===== src/FileCache/Valid.antt =====
-- When the ring of fd.c lists the open files, and what closing one of them does to it.
use postgres_v.Base.{
  ℕ, suc, ◌-◌, ◌^◌, ◌<◌, ◌≡◌, ◌≢◌, ◌⊎◌, refl, ap, ◌∙◌, inl, inr, Bool, true, false, Option, List,
  ◌&&◌, if◌then◌else◌, [], ◌∷◌, ◌++◌, length, arith, ◌==◌, All, All-parts, All-split, All-append,
  All-zip, Bool-cases,
}
use postgres_v.Rings.{Ring, Lacks, Distinct, unlinked, Seg-at, Seg-unlinked, Distinct-without}
use postgres_v.FileCache.{
  Call, System, Files, ok, put, minus_one, is_negative, open_file, close_fd, fsync, lseek, seek_cur,
  delete, call, pg_fsync, sync_dirty, close_file, lru_delete,
}

-- the open files in order of use, the least recently used first
pub record IsCache (s : Files) (order : List ℕ) : Type 0 where
  pub ring : Ring s.lru 0 order
  pub distinct : Distinct (0 ∷ order)
  pub sized : All (λ f. f < s.size_vfd_cache) order
  pub opened : All (λ f. is_negative (s.fd f) ≡ false) order
  pub closed : (f : ℕ) → f < s.size_vfd_cache → Lacks f order → s.fd f ≡ minus_one
  pub count : s.nfile ≡ length order

-- descriptors fit a short, and closing, syncing and seeking in files below 2 GiB do not fail
pub record IsReliable (sys : System) : Type 0 where
  pub opens :
      (name : Option (List ℕ)) (flags mode : ℕ) (h : List Call)
      → (is_negative (sys.os (open_file name flags mode ∷ h)).ret ≡ true)
        ⊎ ((sys.os (open_file name flags mode ∷ h)).ret < 2 ^ 15)
  pub closes : (fd : ℕ) (h : List Call) → (sys.os (close_fd fd ∷ h)).ret ≢ minus_one
  pub syncs : (fd : ℕ) (h : List Call) → (sys.os (fsync fd ∷ h)).ret ≢ minus_one
  pub seeks :
      (fd offset whence : ℕ) (h : List Call) → (sys.os (lseek fd offset whence ∷ h)).ret < 2 ^ 31

pub not_minus_one : (w : ℕ) → w ≢ minus_one → (w == minus_one) ≡ false
not_minus_one w ne = ground arith

-- a file marked as closed: `h` and `d` are the calls and the flags then, `p` its position
abbrev pub closed_at : Files → (file : ℕ) → List Call → (ℕ → Bool) → ℕ → Files
closed_at s file h d p = record s {
  lru = unlinked s.lru (s.lru.prev file) (s.lru.next file);
  history = h;
  dirty = d;
  seek_pos = put s.seek_pos file p;
  nfile = s.nfile - 1;
  fd = put s.fd file minus_one;
}

-- `file` is not dirty by `d`, and the others are as before
abbrev pub IsSynced : (ℕ → Bool) → (file : ℕ) → (ℕ → Bool) → Type 0
IsSynced before file d = (d file ≡ false) × ((f : ℕ) → file ≢ f → d f ≡ before f)

-- the calls that sync a descriptor whose file is marked as dirty, put before the earlier ones
abbrev pub synced_history : (enable_fsync dirty : Bool) → (fd : ℕ) → List Call → List Call
synced_history enable_fsync dirty fd h = if dirty && enable_fsync then fsync fd ∷ h else h

-- the calls that close a file for a while: its position is asked for, it is synced and closed
abbrev pub closing_history : (enable_fsync dirty : Bool) → (fd : ℕ) → List Call → List Call
closing_history enable_fsync dirty fd h =
    close_fd fd ∷ synced_history enable_fsync dirty fd (lseek fd 0 seek_cur ∷ h)

pub sync_dirty_lem :
    (sys : System) (file : ℕ) (s : Files)
    → IsReliable sys
    → (d : ℕ → Bool) × (sync_dirty sys file s
        ≡ ok tt (record s {
          history = synced_history sys.enable_fsync (s.dirty file) (s.fd file) s.history;
          dirty = d;
        }))
      × IsSynced s.dirty file d
unfolding sync_dirty pg_fsync call
sync_dirty_lem sys file s rel = elim (Bool-cases (s.dirty file)) [
  | inr clean ↦ (s.dirty, rw clean refl, (clean, λ f ne. refl))
  | inl dirty ↦ elim (Bool-cases sys.enable_fsync) [
    | inr off ↦ (put s.dirty file false, rw (dirty, off) refl, (ground arith, λ f ne. ground arith))
    | inl on ↦
        let e = not_minus_one _ (rel.syncs (s.fd file) s.history) in
        (put s.dirty file false, rw (dirty, on, e) refl, (ground arith, λ f ne. ground arith))
  ]
]

pub lru_delete_lem :
    (sys : System) (file : ℕ) (s : Files)
    → IsReliable sys
    → file ≢ 0
    → (d : ℕ → Bool) × (lru_delete sys file s
        ≡ ok tt (
            closed_at s file
              (closing_history sys.enable_fsync (s.dirty file) (s.fd file) s.history)
              d
              (sys.os (lseek (s.fd file) 0 seek_cur ∷ s.history)).ret))
      × IsSynced s.dirty file d
unfolding lru_delete delete close_file call
lru_delete_lem sys file s rel ne =
    let z : (file == 0) ≡ false = ground arith in
    let p = (sys.os (lseek (s.fd file) 0 seek_cur ∷ s.history)).ret in
    let small = rel.seeks (s.fd file) 0 seek_cur s.history in
    let e = not_minus_one p (λ q. ground arith) in
    let h =
      synced_history sys.enable_fsync (s.dirty file) (s.fd file)
        (lseek (s.fd file) 0 seek_cur ∷ s.history) in
    let (d, same, synced) =
      sync_dirty_lem sys file
        (record s {
          lru = unlinked s.lru (s.lru.prev file) (s.lru.next file);
          history = lseek (s.fd file) 0 seek_cur ∷ s.history;
          seek_pos = put s.seek_pos file p;
        })
        rel in
    let c = not_minus_one _ (rel.closes (s.fd file) h) in (d, rw (z, e, same, c) refl, synced)

-- what closing and opening files in the background leaves as it was
pub record IsKept (s t : Files) : Type 0 where
  pub filename : t.filename ≡ s.filename
  pub file_flags : t.file_flags ≡ s.file_flags
  pub file_mode : t.file_mode ≡ s.file_mode
  pub temporary : t.temporary ≡ s.temporary
  pub next_free : t.next_free ≡ s.next_free
  pub size : t.size_vfd_cache ≡ s.size_vfd_cache
  pub allocated_files : t.allocated_files ≡ s.allocated_files

pub IsKept-same : (s : Files) → IsKept s s
IsKept-same s = record {
  filename = refl;
  file_flags = refl;
  file_mode = refl;
  temporary = refl;
  next_free = refl;
  size = refl;
  allocated_files = refl;
}

pub IsKept-trans : (s t u : Files) → IsKept s t → IsKept t u → IsKept s u
IsKept-trans s t u a b = record {
  filename = b.filename ∙ a.filename;
  file_flags = b.file_flags ∙ a.file_flags;
  file_mode = b.file_mode ∙ a.file_mode;
  temporary = b.temporary ∙ a.temporary;
  next_free = b.next_free ∙ a.next_free;
  size = b.size ∙ a.size;
  allocated_files = b.allocated_files ∙ a.allocated_files;
}

pub closed_at-IsCache :
    (s : Files) (file : ℕ) (h : List Call) (d : ℕ → Bool) (p : ℕ) (xs ys : List ℕ)
    → IsCache s (xs ++ file ∷ ys)
    → IsCache (closed_at s file h d p) (xs ++ ys)
closed_at-IsCache s file h d p xs ys v =
    let (ep, en) = Seg-at s.lru 0 0 file xs ys v.ring in
    let (out, distinct) = Distinct-without file (0 ∷ xs) ys v.distinct in
    let (sx, _, sy) = All-parts (λ f. f < s.size_vfd_cache) xs file ys v.sized in
    let (ox, _, oy) = All-parts (λ f. is_negative (s.fd f) ≡ false) xs file ys v.opened in
    record {
      ring = rw (ep, en) (Seg-unlinked s.lru 0 0 file xs ys v.ring v.distinct v.distinct.0);
      distinct = distinct;
      sized = All-append (λ f. f < s.size_vfd_cache) xs ys sx sy;
      opened =
          All-zip (λ f. is_negative (s.fd f) ≡ false) (λ f. file ≢ f)
            (λ f. is_negative (put s.fd file minus_one f) ≡ false) (λ f o ne. ground arith)
            (xs ++ ys) (All-append (λ f. is_negative (s.fd f) ≡ false) xs ys ox oy) out.1;
      closed = λ f lt lacks. elim (Bool-cases (file == f)) [
        | inl e ↦ rw e refl
        | inr e ↦
            let (lx, ly) = All-split (λ g. f ≢ g) xs ys lacks in
            rw e
              (v.closed f lt (All-append (λ g. f ≢ g) xs (file ∷ ys) lx ((λ q. ground arith), ly)))
      ];
      count = let c = v.count in let l = length-without xs file ys in omega arith;
    }
  where
    length-without :
        (xs : List ℕ) (file : ℕ) (ys : List ℕ) → length (xs ++ file ∷ ys) ≡ suc (length (xs ++ ys))
    length-without [] file ys = refl
    length-without (x ∷ xs) file ys = ap suc (length-without xs file ys)

-- the other fields may change
pub IsCache-data :
    (s : Files) (h : List Call) (n : ℕ → ℕ) (d t : ℕ → Bool) (p : ℕ → ℕ) (f : ℕ → Option (List ℕ))
    (order : List ℕ)
    → IsCache s order
    → IsCache
        (record s {
          history = h;
          next_free = n;
          dirty = d;
          temporary = t;
          seek_pos = p;
          filename = f;
        })
        order
IsCache-data s h n d t p f order v = record {
  ring = v.ring;
  distinct = v.distinct;
  sized = v.sized;
  opened = v.opened;
  closed = v.closed;
  count = v.count;
}
