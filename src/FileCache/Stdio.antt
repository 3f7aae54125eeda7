-- ===== src/FileCache/Stdio.antt =====
-- Files of stdio that fd.c keeps track of, and what it closes at the end of a transaction.
use postgres_v.Base.{
  ℕ, zero, suc, ◌+◌, ◌-◌, Bool, false, not, ◌&&◌, ◌||◌, List, [], ◌∷◌, ◌++◌, length, ltb, leb, ◌==◌,
  if◌then◌else◌,
}
use postgres_v.FileCache.{
  System, Cmd, pure, ◌>>=◌, ◌>>◌, get, modify, ensure, error, out_of_fuel, put, emfile, enfile,
  fopen, fclose, is_null, file_is_not_open, call, lru_delete, release_lru_file,
}
use postgres_v.FileCache.Ops.{file_close}

-- the last entry, of `x` and the entries behind it, and the others
abbrev pub last_entry : (x : ℕ) → List ℕ → ℕ
last_entry x [] = x
last_entry x (y ∷ ys) = last_entry y ys

abbrev pub but_last : (x : ℕ) → List ℕ → List ℕ
but_last x [] = []
but_last x (y ∷ ys) = x ∷ but_last y ys

abbrev pub is_entry : (file : ℕ) → List ℕ → Bool
is_entry file [] = false
is_entry file (x ∷ xs) = file == x || is_entry file xs

-- AllocatedFiles after the loop of `free_file`, which looks from the end: the last entry takes the
-- place of the entry that is found, and is not kept behind it
unfoldable pub remove_entry : (file : ℕ) → List ℕ → List ℕ
remove_entry file [] = []
remove_entry file (x ∷ xs) =
    if is_entry file xs then x ∷ remove_entry file xs else (if file == x then moved xs else x ∷ xs)
  where
    moved : List ℕ → List ℕ
    moved [] = []
    moved (y ∷ ys) = last_entry y ys ∷ but_last y ys

-- the body of `while (NumAllocatedFiles > 0)`, on AllocatedFiles[0]
abbrev pub free_next : List ℕ → (ℕ → Cmd (Unit {0})) → Cmd (Unit {0})
free_next [] round = pure tt
free_next (file ∷ files) round = round file

module _ (sys : System) where
  unfoldable pub open_stdio : (fuel : ℕ) → (name mode : List ℕ) → Cmd ℕ
  open_stdio zero name mode = λ _. out_of_fuel
  open_stdio (suc fuel) name mode = do
    r ← call sys (fopen name mode)
    (if not (r.ret == 0)
        then (do
          modify (λ s. record s { allocated_files = s.allocated_files ++ r.ret ∷ [] })
          pure r.ret)
        else (if r.errno == emfile || r.errno == enfile
            then (do
              released ← release_lru_file sys
              if released then open_stdio fuel name mode else pure 0)
            else pure 0))

  -- MAX_ALLOCATED_FILES is 32
  unfoldable pub allocate_file : (name mode : List ℕ) → Cmd ℕ
  allocate_file name mode = do
    s ← get
    (if leb 32 (length s.allocated_files) then (λ _. error) else open_stdio (suc s.nfile) name mode)

  -- elog(NOTICE) on a file that is not found is not modelled
  unfoldable pub free_file : (file : ℕ) → Cmd (Unit {0})
  free_file file = do
    modify (λ s. record s { allocated_files = remove_entry file s.allocated_files })
    call sys (fclose file)
    pure tt

  -- entries `i` to `i + count - 1`
  unfoldable pub close_entries : (count i : ℕ) → Cmd (Unit {0})
  close_entries zero i = pure tt
  close_entries (suc count) i = do
    s ← get
    (if file_is_not_open s i then pure tt else lru_delete sys i)
    close_entries count (i + 1)

  unfoldable pub close_all_vfds : Cmd (Unit {0})
  close_all_vfds = do
    s ← get
    (if ltb 0 s.size_vfd_cache
        then (do ensure (file_is_not_open s 0); close_entries (s.size_vfd_cache - 1) 1)
        else pure tt)

  unfoldable pub end_entries : (count i : ℕ) → Cmd (Unit {0})
  end_entries zero i = pure tt
  end_entries (suc count) i = do
    s ← get
    (if s.temporary i && not (is_null (s.filename i))
        then file_close sys i
        else modify (λ t. record t { dirty = put t.dirty i false }))
    end_entries count (i + 1)

  -- a round for each entry of AllocatedFiles
  unfoldable pub free_files : (fuel : ℕ) → Cmd (Unit {0})
  free_files zero = do
    s ← get
    if length s.allocated_files == 0 then pure tt else (λ _. out_of_fuel)
  free_files (suc fuel) = do
    s ← get
    free_next s.allocated_files (λ file. free_file file >> free_files fuel)

  unfoldable pub at_eo_xact_files : Cmd (Unit {0})
  at_eo_xact_files = do
    s ← get
    (if ltb 0 s.size_vfd_cache
        then (do ensure (file_is_not_open s 0); end_entries (s.size_vfd_cache - 1) 1)
        else pure tt)
    t ← get
    free_files (length t.allocated_files)
    modify (λ u. record u { temp_file_counter = 0 })
