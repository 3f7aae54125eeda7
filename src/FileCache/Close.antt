-- ===== src/FileCache/Close.antt =====
-- Closing files of fd.c: one for good, and the descriptors of all.
use mathlib.Core.Path.{subst}
use postgres_v.Base.{
  ℕ, zero, suc, ◌+◌, ◌-◌, ◌≤◌, ◌<◌, ◌≡◌, ◌≢◌, ◌⊎◌, refl, sym, ap, ◌∙◌, inl, inr, Bool, true, false,
  none, List, [], ◌∷◌, ◌++◌, arith, ltb, ◌==◌, if◌then◌else◌, All, All-parts, All-append, All-zip,
  Bool-cases, ==→eq,
}
use postgres_v.Rings.{Lacks, Distinct-without}
use postgres_v.FileCache.{Call, System, Files, ok, minus_one, is_negative, unlink_file}
use postgres_v.FileCache.Stdio.{close_entries, close_all_vfds}
use postgres_v.FileCache.Valid.{
  IsCache, IsReliable, IsKept, IsKept-same, IsKept-trans, closing_history,
}
use postgres_v.FileCache.Lru.{lru_delete-IsClosed}

-- a list has an element or lacks it
find :
    (e : ℕ) (xs : List ℕ)
    → Lacks e xs ⊎ ((before : List ℕ) × (after : List ℕ) × (xs ≡ before ++ e ∷ after))
find e [] = inl tt
find e (x ∷ xs) = elim (Bool-cases (e == x)) [
  | inl same ↦ inr ([], xs, ap (λ y. y ∷ xs) (sym (==→eq e x same)))
  | inr differ ↦ elim (find e xs) [
    | inl out ↦ inl ((λ q. ground arith), out)
    | inr (before, after, split) ↦ inr (x ∷ before, after, ap (λ ys. x ∷ ys) split)
  ]
]

-- a file that is not open is not in the ring
closed-Lacks :
    (s : Files) (file : ℕ) (order : List ℕ)
    → IsCache s order
    → s.fd file ≡ minus_one
    → Lacks file order
closed-Lacks s file order v e =
    All-zip (λ f. is_negative (s.fd f) ≡ false) (λ f. is_negative (s.fd f) ≡ false) (λ f. file ≢ f)
      (λ f o o2 q.
        absurd (let e2 : s.fd f ≡ minus_one = subst (λ g. s.fd g ≡ minus_one) q e in ground arith))
      order v.opened v.opened

-- the calls that close the open files among the slots `i` to `i + count - 1`, put before earlier ones
abbrev pub closing_histories : (enable_fsync : Bool) → Files → (count i : ℕ) → List Call → List Call
closing_histories enable_fsync s zero i h = h
closing_histories enable_fsync s (suc count) i h =
    closing_histories enable_fsync s count (i + 1)
      (if s.fd i == minus_one then h else closing_history enable_fsync (s.dirty i) (s.fd i) h)

closing_histories-same :
    (enable_fsync : Bool) (s t : Files) (count i : ℕ) (h : List Call)
    → ((f : ℕ) → i ≤ f → (t.fd f ≡ s.fd f) × (t.dirty f ≡ s.dirty f))
    → closing_histories enable_fsync t count i h ≡ closing_histories enable_fsync s count i h
closing_histories-same enable_fsync s t zero i h same = refl
closing_histories-same enable_fsync s t (suc count) i h same =
    let (e, d) = same i (omega arith) in
    rw (e, d)
      (closing_histories-same enable_fsync s t count (i + 1) _ (λ f le. same f (omega arith)))

module _ (sys : System) (rel : IsReliable sys) where
  close_entries-closed :
      (count i : ℕ) (s : Files) (order : List ℕ)
      → IsCache s order
      → i + count ≡ s.size_vfd_cache
      → All (λ f. i ≤ f) order
      → (t : Files) × (close_entries sys count i s ≡ ok tt t)
        × IsCache t []
        × IsKept s t
        × (t.history ≡ closing_histories sys.enable_fsync s count i s.history)
  unfolding close_entries
  close_entries-closed zero i s [] v e above = (s, refl, v, IsKept-same s, refl)
  close_entries-closed zero i s (f ∷ order) v e (le, above) =
      absurd (let lt = v.sized.0 in omega arith)
  close_entries-closed (suc count) i s order v e above = elim (Bool-cases (s.fd i == minus_one)) [
    | inl shut ↦
        let lacks = closed-Lacks s i order v (==→eq (s.fd i) minus_one shut) in
        let further =
          All-zip (λ f. i ≤ f) (λ f. i ≢ f) (λ f. i + 1 ≤ f) (λ f le ne. omega arith) order above
            lacks in
        let (t, run, cache, kept, calls) =
          close_entries-closed count (i + 1) s order v (omega arith) further in
        (t, rw (shut, run) refl, cache, kept, rw shut calls)
    | inr still ↦ elim (find i order) [
      | inl lacks ↦ absurd (let c = v.closed i (omega arith) lacks in ground arith)
      | inr (xs, ys, split) ↦
          let cached = subst (λ o. IsCache s o) split v in
          let (t, run, cache, closed) = lru_delete-IsClosed sys rel s i xs ys cached in
          let (a, _, b) =
            All-parts (λ f. i ≤ f) xs i ys (subst (λ o. All (λ f. i ≤ f) o) split above) in
          let (out, _) = Distinct-without i xs ys cached.distinct.1 in
          let further =
            All-zip (λ f. i ≤ f) (λ f. i ≢ f) (λ f. i + 1 ≤ f) (λ f le ne. omega arith) (xs ++ ys)
              (All-append (λ f. i ≤ f) xs ys a b) out in
          let size = closed.kept.size in
          let (u, again, done, kept, calls) =
            close_entries-closed count (i + 1) t (xs ++ ys) cache (omega arith) further in
          let same = closing_histories-same sys.enable_fsync s t count (i + 1) t.history (λ f le.
            let ne : i ≢ f = (λ q. omega (arith, q, le)) in
            (closed.fd.1 f ne, closed.synced.1 f ne)) in
          (
            u,
            rw (still, run) again,
            done,
            IsKept-trans s t u closed.kept kept,
            rw still (
                calls
                ∙ (same ∙ ap (closing_histories sys.enable_fsync s count (i + 1)) closed.calls)),
          )
    ]
  ]

  -- Where the ring lists the open files, close_all_vfds closes them all: for each open file, by
  -- the order of the slots, it asks lseek for its position, syncs it if it is dirty and EnableFsync is
  -- set, and closes its descriptor, and it makes no other call. It keeps the names, flags and modes
  -- of the files, the free slots, and the files of stdio. Descriptors fit a short, close and fsync do
  -- not fail, and lseek replies positions below 2 GiB.
  pub close_all_vfds-closed :
      (s : Files) (order : List ℕ)
      → IsCache s order
      → (t : Files) × (close_all_vfds sys s ≡ ok tt t)
        × IsCache t []
        × IsKept s t
        × (t.history ≡ closing_histories sys.enable_fsync s (s.size_vfd_cache - 1) 1 s.history)
  unfolding close_all_vfds
  close_all_vfds-closed s order v = elim (Bool-cases (ltb 0 s.size_vfd_cache)) [
    | inr none_yet ↦ elim (empty order v.sized) [
      | inl e ↦
          let no_slot : s.size_vfd_cache - 1 ≡ 0 = ground arith in
          (s, rw none_yet refl, subst (λ o. IsCache s o) e v, IsKept-same s, rw no_slot refl)
      | inr pos ↦ absurd (ground arith)
    ]
    | inl some_yet ↦
        let anchor : s.fd 0 ≡ minus_one = v.closed 0 (ground arith) v.distinct.0 in
        let above =
          All-zip (λ f. 0 ≢ f) (λ f. 0 ≢ f) (λ f. 1 ≤ f) (λ f ne _. omega arith) order v.distinct.0
            v.distinct.0 in
        let (t, run, cache, kept, calls) =
          close_entries-closed (s.size_vfd_cache - 1) 1 s order v (ground arith) above in
        (t, rw (some_yet, anchor, run) refl, cache, kept, calls)
  ]
    where
      empty :
          (order : List ℕ)
          → All (λ f. f < s.size_vfd_cache) order
          → (order ≡ []) ⊎ (0 < s.size_vfd_cache)
      empty [] l = inl refl
      empty (f ∷ order) (lt, l) = inr (omega arith)

-- the slot of `file` is the first free one, without a name and flags
pub record IsFreed (s t : Files) (file : ℕ) : Type 0 where
  pub filename : t.filename file ≡ none
  pub flags : (t.dirty file ≡ false) × (t.temporary file ≡ false)
  pub free : (t.next_free 0 ≡ file) × (t.next_free file ≡ s.next_free 0)
  pub unlinked_file :
      ((s.temporary file ≡ true)
        × (h : List Call) × (t.history ≡ unlink_file (s.filename file) ∷ h))
      ⊎ (s.temporary file ≡ false)
