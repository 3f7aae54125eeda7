-- ===== src/FileCache/Opened.antt =====
-- Opening a file of fd.c: a slot, a descriptor, and a place in the ring.
use mathlib.Core.Path.{subst}
use Prim.Native.Nat.{bit_and}
use postgres_v.Base.{
  ℕ, ◌+◌, ◌≤◌, ◌<◌, ◌≡◌, ◌-◌, ◌≢◌, ◌⊎◌, refl, sym, ap, ◌∙◌, inl, inr, true, false, not, Option,
  some, List, [], ◌∷◌, ◌++◌, length, arith, ◌==◌,
}
use postgres_v.Rings.{Lacks}
use postgres_v.FileCache.{
  Call, System, Files, ok, put, minus_one, is_negative, open_file, allocate, as_short, call, insert,
  free_vfd,
}
use postgres_v.FileCache.Open.{
  creates, reopening, allocate_vfd, opened_vfd, file_name_open_file_aux,
}
use postgres_v.FileCache.Valid.{IsCache, IsCache-data, IsReliable}
use postgres_v.FileCache.Descriptors.{IsShed-Lacks, descriptor_lem}
use postgres_v.FileCache.Placed.{opened_at, opened_at-IsCache, unopened-IsCache}
use postgres_v.FileCache.Slots.{IsFreeList, IsFreeList-same, IsFreeList-start}

-- the last call opened `name` and failed
abbrev pub FailedOpen : System → (name : Option (List ℕ)) → (flags mode : ℕ) → List Call → Type 0
FailedOpen sys name flags mode h =
    ((before : List Call) × (h ≡ open_file name flags mode ∷ before))
    × (is_negative (sys.os h).ret ≡ true)

-- A file that was opened. The last calls opened `name` and allocated the copy of it, and the slot has
-- the descriptor that the first of them replied, the flags without O_CREAT (64), O_EXCL (128) and
-- O_TRUNC (512), and the mode; it is dirty if the flags have O_CREAT.
pub record IsOpened (sys : System) (t : Files) (file : ℕ) (name : List ℕ) (flags mode : ℕ)
    : Type 0 where
  pub calls :
      (before : List Call) × (t.history
        ≡ allocate (length name + 1) ∷ open_file (some name) flags mode ∷ before)
      × (t.fd file ≡ (sys.os (open_file (some name) flags mode ∷ before)).ret)
  pub named : t.filename file ≡ some name
  pub reopened :
      (t.file_flags file ≡ flags - bit_and flags (64 + 128 + 512)) × (t.file_mode file ≡ mode)
  pub dirty : t.dirty file ≡ not (bit_and flags 64 == 0)
  pub temporary : t.temporary file ≡ false
  pub start : t.seek_pos file ≡ 0

free_vfd-IsCache :
    (s : Files) (file : ℕ) (order : List ℕ) → IsCache s order → IsCache (free_vfd file s) order
unfolding free_vfd
free_vfd-IsCache s file order v = IsCache-data s _ _ _ _ _ _ order v

free_vfd-IsFreeList :
    (s : Files) (file : ℕ) (frees : List ℕ)
    → 0 < file
    → Lacks file frees
    → Lacks 0 frees
    → IsFreeList s.next_free 0 frees
    → IsFreeList (free_vfd file s).next_free 0 (file ∷ frees)
unfolding free_vfd
free_vfd-IsFreeList s file frees pos others nonzero free =
    let k = put s.next_free file (s.next_free 0) in
    let at_zero =
      IsFreeList-same s.next_free k file 0 frees (λ i ne. ground arith)
        ((λ q. ground arith), others) free in
    let at_file = IsFreeList-start k 0 file frees (ground arith) at_zero in
    (
      refl,
      pos,
      IsFreeList-same k (put k 0 file) 0 file frees (λ i ne. ground arith)
          ((λ q. ground arith), nonzero) at_file,
    )

module _ (sys : System) (gives : (n : ℕ) (h : List Call) → (sys.os (allocate n ∷ h)).ret ≢ 0) where
  opened_vfd_lem :
      (s : Files) (file fd : ℕ) (name : List ℕ) (flags mode : ℕ) (order : List ℕ)
      (before : List Call)
      → IsCache s order
      → Lacks file (0 ∷ order)
      → file < s.size_vfd_cache
      → is_negative fd ≡ false
      → s.history ≡ open_file (some name) flags mode ∷ before
      → fd ≡ (sys.os s.history).ret
      → (t : Files) × (opened_vfd sys file name flags mode (record s { fd = put s.fd file fd })
          ≡ ok file t)
        × IsCache t (order ++ file ∷ [])
        × IsOpened sys t file name flags mode
        × (t.next_free ≡ s.next_free)
  unfolding opened_vfd insert call creates reopening
  opened_vfd_lem s file fd name flags mode order before v lacks lt sign calls reply =
      let ne = lacks.0 in
      let z : (file == 0) ≡ false = ground arith in
      let given = gives (length name + 1) s.history in
      let got : ((sys.os (allocate (length name + 1) ∷ s.history)).ret == 0) ≡ false =
        ground arith in
      let here : (file == file) ≡ true = ground arith in
      let w =
        opened_at-IsCache s file fd (allocate (length name + 1) ∷ s.history) order v lacks lt
          sign in
      let t : Files = record (opened_at s file fd (allocate (length name + 1) ∷ s.history)) {
        filename = put s.filename file (some name);
        file_flags = put s.file_flags file (reopening flags);
        file_mode = put s.file_mode file mode;
        seek_pos = put s.seek_pos file 0;
        dirty = put s.dirty file (creates flags);
        temporary = put s.temporary file false;
      } in
      (
        t,
        rw (z, got) refl,
        record {
          ring = w.ring;
          distinct = w.distinct;
          sized = w.sized;
          opened = w.opened;
          closed = w.closed;
          count = w.count;
        },
        record {
          calls = (
            before,
            ap (λ h. allocate (length name + 1) ∷ h) calls,
            rw here (subst (λ h. fd ≡ (sys.os h).ret) calls reply),
          );
          named = rw here refl;
          reopened = (rw here refl, rw here refl);
          dirty = rw here refl;
          temporary = rw here refl;
          start = rw here refl;
        },
        refl,
      )

  -- Where the ring lists the open files, the free list begins with a slot that is not open, descriptors
  -- fit a short, malloc succeeds and the system allows 20 descriptors or more, opening a file ends,
  -- having closed some of the least recently used files if any, and then opened the name with the
  -- flags and the mode. Either that succeeds and it gives that slot: the file is the most recently
  -- used one, and its slot has the descriptor, the name, the flags without O_CREAT, O_EXCL and
  -- O_TRUNC, the mode and position 0, and is dirty if the flags have O_CREAT; or the open fails, it
  -- returns -1 and the slot is free again. Close and fsync do not fail, and lseek replies positions
  -- below 2 GiB.
  pub file_name_open_file_aux-IsOpened :
      (s : Files) (order frees : List ℕ) (file : ℕ) (name : List ℕ) (flags mode : ℕ)
      → IsReliable sys
      → 20 ≤ sys.nofile
      → IsCache s order
      → file < s.size_vfd_cache
      → Lacks file order
      → IsFreeList s.next_free 0 (file ∷ frees)
      → Lacks 0 frees
      → Lacks file frees
      → (t : Files) × (rest : List ℕ) × ((gone : List ℕ) × (order ≡ gone ++ rest))
        × (((file_name_open_file_aux sys (some name) flags mode s ≡ ok file t)
              × IsCache t (rest ++ file ∷ [])
              × IsFreeList t.next_free 0 frees
              × IsOpened sys t file name flags mode)
            ⊎ ((file_name_open_file_aux sys (some name) flags mode s ≡ ok minus_one t)
                × IsCache t rest
                × IsFreeList t.next_free 0 (file ∷ frees)
                × FailedOpen sys (some name) flags mode t.history))
  unfolding file_name_open_file_aux allocate_vfd free_vfd
  file_name_open_file_aux-IsOpened s order frees file name flags mode rel le v lt lacks
        (first, pos, free) nonzero others =
      let n = put s.next_free 0 (s.next_free file) in
      let p : Files = record s { next_free = n } in
      let popped : IsFreeList n 0 frees = IsFreeList-start n file 0 frees (ground arith) (
        IsFreeList-same s.next_free n 0 file frees (λ i ne. ground arith)
          ((λ q. ground arith), nonzero) free) in
      let some_yet : (s.size_vfd_cache == 0) ≡ false = ground arith in
      let z : (file == 0) ≡ false = ground arith in
      let (t, u, result, rest, room, run, both, _, ((before, calls), range)) =
        descriptor_lem sys rel p order (λ _. some name) (λ _. flags) (λ _. mode)
          (IsCache-data s _ _ _ _ _ _ order v) le in
      let out = IsShed-Lacks p order u rest file both lacks in
      let kept : u.next_free ≡ n = both.kept.next_free in
      elim range [
        | inl (e, fails) ↦
            let w = unopened-IsCache u file u.history rest both.cache out in
            let f : Files = record u { fd = put u.fd file minus_one } in
            (
              free_vfd file f,
              rest,
              both.older,
              inr (
                rw (some_yet, first, z, first, room, run, e) refl,
                free_vfd-IsCache f file rest w,
                free_vfd-IsFreeList f file frees pos others nonzero
                    (subst (λ m. IsFreeList m 0 frees) (sym kept) popped),
                ((before, calls), fails),
              ),
            )
        | inr (reply, e) ↦
            let below = subst (λ k. file < k) (sym both.kept.size) lt in
            let (f, opened, cache, info, same) =
              opened_vfd_lem u file (as_short result) name flags mode rest before both.cache
                ((λ q. ground arith), out) below e calls reply in
            (
              f,
              rest,
              both.older,
              inl (
                rw (some_yet, first, z, first, room, run, e) opened,
                cache,
                subst (λ m. IsFreeList m 0 frees) (sym (same ∙ kept)) popped,
                info,
              ),
            )
      ]
