-- ===== src/FileCache/Open.antt =====
-- Opening files of fd.c: slots for them, and the paths of relative names. Registering
-- at_eo_xact_files with on_proc_exit is not modelled.
use Prim.Native.Nat.{bit_and, bit_or}
use postgres_v.Base.{
  ℕ, suc, ◌+◌, ◌-◌, ◌*◌, Bool, true, false, not, ◌&&◌, ◌||◌, Option, none, some, List, [], ◌∷◌,
  ◌++◌, length, ltb, leb, ◌==◌, if◌then◌else◌,
}
use postgres_v.FileCache.{
  System, Files, Cmd, pure, ◌>>=◌, ◌>>◌, get, modify, error, put, minus_one, is_negative, allocate,
  as_short, free_vfd, insert, make_room, basic_open_file, call,
}

-- SEP_CHAR is '/'; `malloc` and `palloc` of the buffer are not modelled
unfoldable pub filepath : (database_path filename : List ℕ) → List ℕ
filepath database_path [] = database_path ++ 47 ∷ []
filepath database_path (c ∷ name) = if c == 47 then c ∷ name else database_path ++ 47 ∷ c ∷ name

-- entries `lo` to `hi - 1` replaced by those of `g`
abbrev pub fill {ℓ} : {A : Type ℓ} → (lo hi : ℕ) → (g f : ℕ → A) → ℕ → A
fill lo hi g f i = if leb lo i && ltb i hi then g i else f i

-- MEMSET of entries to zero and `fd = VFD_CLOSED`
unfoldable pub cleared_entries : (lo hi : ℕ) → Files → Files
cleared_entries lo hi s = record s {
  lru = record { prev = fill lo hi (λ _. 0) s.lru.prev; next = fill lo hi (λ _. 0) s.lru.next };
  next_free = fill lo hi (λ _. 0) s.next_free;
  fd = fill lo hi (λ _. minus_one) s.fd;
  dirty = fill lo hi (λ _. false) s.dirty;
  temporary = fill lo hi (λ _. false) s.temporary;
  seek_pos = fill lo hi (λ _. 0) s.seek_pos;
  filename = fill lo hi (λ _. none) s.filename;
  file_flags = fill lo hi (λ _. 0) s.file_flags;
  file_mode = fill lo hi (λ _. 0) s.file_mode;
}

abbrev pub new_cache_size : ℕ → ℕ
new_cache_size size = if ltb (size * 2) 32 then 32 else size * 2

-- the new entries, linked into the free list
unfoldable pub enlarged : Files → Files
enlarged s =
    let size = s.size_vfd_cache in
    let new_size = new_cache_size size in
    let linked = fill size new_size (λ i. i + 1) s.next_free in
    record (cleared_entries size new_size s) {
      next_free = put (put linked (new_size - 1) 0) 0 size;
      size_vfd_cache = new_size;
    }

-- of Linux
abbrev pub o_creat : ℕ
o_creat = 64

abbrev pub o_excl : ℕ
o_excl = 128

abbrev pub o_trunc : ℕ
o_trunc = 512

-- `file_flags & O_CREAT`
unfoldable pub creates : (file_flags : ℕ) → Bool
creates file_flags = not (bit_and file_flags o_creat == 0)

-- `file_flags & ~(O_CREAT | O_TRUNC | O_EXCL)`
unfoldable pub reopening : (file_flags : ℕ) → ℕ
reopening file_flags = file_flags - bit_and file_flags (bit_or o_creat (bit_or o_trunc o_excl))

module _ (sys : System) where
  unfoldable pub allocate_vfd : Cmd ℕ
  allocate_vfd = do
    s ← get
    (if s.size_vfd_cache == 0
        then (do
          r ← call sys (allocate 1)
          (if r.ret == 0
              then (λ _. error)
              else modify (λ t. record (cleared_entries 0 1 t) { size_vfd_cache = 1 })))
        else pure tt)
    t ← get
    (if t.next_free 0 == 0
        then (do
          r ← call sys (allocate (new_cache_size t.size_vfd_cache))
          if r.ret == 0 then (λ _. error) else modify enlarged)
        else pure tt)
    u ← get
    file ← pure (u.next_free 0)
    modify (λ v. record v { next_free = put v.next_free 0 (v.next_free file) })
    pure file

  -- the end of file_name_open_file_aux, on a descriptor; malloc makes the copy of the name
  unfoldable pub opened_vfd : (file : ℕ) → (filename : List ℕ) → (file_flags file_mode : ℕ) → Cmd ℕ
  opened_vfd file filename file_flags file_mode = do
    modify (λ s. record s { nfile = s.nfile + 1 })
    insert file
    r ← call sys (allocate (length filename + 1))
    (if r.ret == 0 then (λ _. error) else (do
      modify (λ s. record s {
        filename = put s.filename file (some filename);
        file_flags = put s.file_flags file (reopening file_flags);
        file_mode = put s.file_mode file file_mode;
        seek_pos = put s.seek_pos file 0;
        dirty = put s.dirty file (creates file_flags);
        temporary = put s.temporary file false;
      })
      pure file))

  unfoldable pub file_name_open_file_aux :
      (filename : Option (List ℕ)) → (file_flags file_mode : ℕ) → Cmd ℕ
  file_name_open_file_aux none file_flags file_mode = λ _. error
  file_name_open_file_aux (some filename) file_flags file_mode = do
    file ← allocate_vfd
    s ← get
    make_room sys (suc s.nfile)
    t ← get
    result ← basic_open_file sys (suc t.nfile) (some filename) file_flags file_mode
    fd ← pure (as_short result)
    modify (λ u. record u { fd = put u.fd file fd })
    (if is_negative fd
        then (do modify (free_vfd file); pure minus_one)
        else opened_vfd file filename file_flags file_mode)

  module _ (database_path : List ℕ) where
    -- also path_name_open_file
    unfoldable pub file_name_open_file : (filename : List ℕ) → (file_flags file_mode : ℕ) → Cmd ℕ
    file_name_open_file filename file_flags file_mode =
        file_name_open_file_aux (some (filepath database_path filename)) file_flags file_mode

    -- `temp_name` prints "pg_sorttemp%d.%ld" with MyProcPid; the flags are O_RDWR, O_CREAT, O_TRUNC
    -- and PG_BINARY. The mode is 0600.
    unfoldable pub open_temporary_file : (temp_name : ℕ → List ℕ) → (flags : ℕ) → Cmd ℕ
    open_temporary_file temp_name flags = do
      s ← get
      modify (λ t. record t { temp_file_counter = t.temp_file_counter + 1 })
      file ← file_name_open_file (temp_name s.temp_file_counter) flags 384
      (if file == 0 || is_negative file
          then (λ _. error)
          else (do modify (λ t. record t { temporary = put t.temporary file true }); pure file))
