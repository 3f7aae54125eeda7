-- ===== src/FileCache/Access.antt =====
-- Access to files of fd.c: the file becomes the most recently used one, opened again if needed.
use mathlib.Core.Path.{subst}
use postgres_v.Base.{
  ℕ, ◌+◌, ◌≤◌, ◌<◌, ◌≡◌, ◌≢◌, ◌⊎◌, refl, sym, ◌∙◌, inl, inr, true, false, List, [], ◌∷◌, ◌++◌,
  arith, ◌==◌, if◌then◌else◌, All-parts, Bool-cases, ==→eq,
}
use postgres_v.Rings.{Links, Lacks, last, Seg-last}
use postgres_v.FileCache.{
  Call, System, Files, ok, put, minus_one, is_negative, seek_set, lseek, as_short,
  as_int_is_minus_one, call, delete, insert, open_file, reopen, lru_insert, file_access,
}
use postgres_v.FileCache.Valid.{IsCache, IsReliable, IsKept}
use postgres_v.FileCache.Placed.{
  opened_at, opened_at-IsCache, unopened-IsCache, moved_to_end, moved_to_end-IsCache, moved-last,
}
use postgres_v.FileCache.Descriptors.{IsShed, IsShed-Lacks, descriptor_lem}

module _ (sys : System) where
  -- Where the ring lists the open files, file_access to one of them makes no system call and returns
  -- 0: the file is the most recently used one then, the others keep their order, and nothing but
  -- the ring changes.
  pub file_access-open :
      (s : Files) (file : ℕ) (xs ys : List ℕ)
      → IsCache s (xs ++ file ∷ ys)
      → (t : Files) × (file_access sys file s ≡ ok 0 t)
        × IsCache t ((xs ++ ys) ++ file ∷ [])
        × (t ≡ record s { lru = t.lru })
  unfolding file_access delete insert
  file_access-open s file xs ys v =
      let (_, ne, _) = All-parts (λ f. 0 ≢ f) xs file ys v.distinct.0 in
      let (_, o, _) = All-parts (λ f. is_negative (s.fd f) ≡ false) xs file ys v.opened in
      let z : (file == 0) ≡ false = ground arith in
      let open_now : (s.fd file == minus_one) ≡ false = ground arith in
      elim (Bool-cases (s.lru.prev 0 == file)) [
        | inl e ↦
            let newest : last 0 (xs ++ file ∷ ys) ≡ file =
              sym (Seg-last s.lru 0 0 (xs ++ file ∷ ys) v.ring).0 ∙ ==→eq (s.lru.prev 0) file e in
            (
              s,
              rw (open_now, e) refl,
              subst (λ o. IsCache s o) (moved-last file xs ys v.distinct newest) v,
              refl,
            )
        | inr e ↦ (
          moved_to_end s file,
          rw (open_now, e, z) refl,
          moved_to_end-IsCache s file xs ys v,
          refl,
        )
      ]

-- the last call opens `file` with the name, flags and mode of its slot
abbrev pub IsReopening : Files → (file : ℕ) → List Call → Type 0
IsReopening s file h =
    (before : List Call) × (h
      ≡ open_file (s.filename file) (s.file_flags file) (s.file_mode file) ∷ before)

-- the calls that set a position again
abbrev pub seek_history : (fd position : ℕ) → List Call → List Call
seek_history fd position h = if position == 0 then h else lseek fd position seek_set ∷ h

-- what an access to a file that is not open comes to: its name, flags and mode are what was opened,
-- the reply is its descriptor, and lseek sets its position again unless that is 0
pub record IsReopened (sys : System) (s t : Files) (file : ℕ) (order rest : List ℕ) : Type 0 where
  pub older : (gone : List ℕ) × (order ≡ gone ++ rest)
  pub kept : IsKept s t
  pub cache : IsCache t (rest ++ file ∷ [])
  pub calls :
      (opened : List Call) × IsReopening s file opened
      × (t.fd file ≡ (sys.os opened).ret)
      × (t.history ≡ seek_history (t.fd file) (s.seek_pos file) opened)

module _ (sys : System) (rel : IsReliable sys) where
  reopen_lem :
      (s : Files) (file : ℕ) (order : List ℕ)
      → IsCache s order
      → 20 ≤ sys.nofile
      → Lacks file order
      → (t : Files) × (rest : List ℕ) × IsShed s order t rest
        × IsReopening s file t.history
        × (((is_negative (sys.os t.history).ret ≡ true)
              × (reopen sys file s ≡ ok minus_one (record t { fd = put t.fd file minus_one })))
            ⊎ ((r : ℕ) × (r ≡ (sys.os t.history).ret)
                × (is_negative r ≡ false)
                × (reopen sys file s
                    ≡ ok r (record t {
                      fd = put t.fd file r;
                      nfile = t.nfile + 1;
                      history = seek_history r (s.seek_pos file) t.history;
                    }))))
  unfolding reopen call
  reopen_lem s file order v le lacks =
      let (t, u, result, rest, room, run, both, kept, (opening, range)) =
        descriptor_lem sys rel s order (λ t. t.filename file) (λ t. t.file_flags file)
          (λ t. t.file_mode file) v le in
      let same : s.seek_pos file ≡ u.seek_pos file = sym (both.positions file lacks) in
      let opened : IsReopening s file u.history =
        (opening.0, rw (sym kept.filename, sym kept.file_flags, sym kept.file_mode) opening.1) in
      elim range [
        | inl (e, fails) ↦ (u, rest, both, opened, inl (fails, rw (room, run, e) refl))
        | inr (reply, e) ↦ elim (Bool-cases (u.seek_pos file == 0)) [
          | inl f ↦ (
            u,
            rest,
            both,
            opened,
            inr (as_short result, reply, e, rw (room, run, e, same, f) refl),
          )
          | inr f ↦
              let fd = as_short result in
              let small = rel.seeks fd (u.seek_pos file) seek_set u.history in
              let fits : as_int_is_minus_one
                    (sys.os (lseek fd (u.seek_pos file) seek_set ∷ u.history)).ret
                  ≡ false =
                ground arith in
              (u, rest, both, opened, inr (fd, reply, e, rw (room, run, e, same, f, fits) refl))
        ]
      ]

  -- Where the ring lists the open files, the system allows 20 descriptors or more, and `file` is
  -- valid and not open, file_access ends, having closed some of the least recently used files if
  -- any, and then opened the name of the slot with the slot's flags and mode. Either that succeeds: it
  -- returns 0, `file` is the most recently used open file, its descriptor is the reply, and the
  -- only call after the open sets its position again by lseek unless it is 0; or the open fails, it
  -- returns -1 and `file` stays closed. Descriptors fit a short, close and fsync do not fail, and
  -- lseek replies positions below 2 GiB.
  pub file_access-closed :
      (s : Files) (file : ℕ) (order : List ℕ)
      → IsCache s order
      → 20 ≤ sys.nofile
      → 0 < file
      → file < s.size_vfd_cache
      → Lacks file order
      → (t : Files) × (rest : List ℕ) × (((file_access sys file s ≡ ok 0 t)
            × IsReopened sys s t file order rest)
          ⊎ ((file_access sys file s ≡ ok minus_one t)
              × IsCache t rest
              × IsKept s t
              × (t.fd file ≡ minus_one)
              × IsReopening s file t.history
              × (is_negative (sys.os t.history).ret ≡ true)))
  unfolding file_access lru_insert insert
  file_access-closed s file order v le pos lt lacks =
      let closed = v.closed file lt lacks in
      let z : (file == 0) ≡ false = ground arith in
      let here : (file == file) ≡ true = ground arith in
      let (t, rest, shed, opened, ends) = reopen_lem s file order v le lacks in
      let out = IsShed-Lacks s order t rest file shed lacks in
      elim ends [
        | inl (fails, run) ↦ (
          record t { fd = put t.fd file minus_one },
          rest,
          inr (
            rw (closed, z, closed, run) refl,
            unopened-IsCache t file t.history rest shed.cache out,
            same_data t _ _ _ _ shed.kept,
            ground arith,
            opened,
            fails,
          ),
        )
        | inr (r, reply, sign, run) ↦
            let below = subst (λ n. file < n) (sym shed.kept.size) lt in
            let h = seek_history r (s.seek_pos file) t.history in
            (
              opened_at t file r h,
              rest,
              inl (
                rw (closed, z, closed, run, sign) refl,
                record {
                  older = shed.older;
                  kept = same_data t _ _ _ _ shed.kept;
                  cache =
                      opened_at-IsCache t file r h rest shed.cache ((λ q. ground arith), out) below
                        sign;
                  calls = (t.history, opened, rw here reply, rw here refl);
                },
              ),
            )
      ]
    where
      same_data :
          (t : Files) (l : Links) (h : List Call) (n : ℕ) (d : ℕ → ℕ)
          → IsKept s t
          → IsKept s (record t { lru = l; history = h; nfile = n; fd = d })
      same_data t l h n d k = record {
        filename = k.filename;
        file_flags = k.file_flags;
        file_mode = k.file_mode;
        temporary = k.temporary;
        next_free = k.next_free;
        size = k.size;
        allocated_files = k.allocated_files;
      }
