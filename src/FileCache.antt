-- ===== src/FileCache.antt =====
-- Virtual file descriptors: src/backend/storage/file/fd.c.
--
-- A `File` is an index of VfdCache; the fields of its Vfd stand in a map for each. The links of the
-- ring in order of use are `lru`, with lru_less_recently as `prev` and lru_more_recently as `next`;
-- element 0 is the anchor. The flags FD_DIRTY and FD_TEMPORARY are Booleans. The results of system
-- calls and positions are 64-bit numbers in two's complement, a descriptor is stored after its
-- conversion to short. A file name is the list of its bytes, `none` for NULL. AllocatedFiles is the
-- list of its first NumAllocatedFiles entries.
--
-- The operating system is an argument: what it replies to a call after the calls before it, newest
-- first. malloc and realloc are calls of it too. A failed assertion ends a run; `error` is
-- elog(ERROR) or elog(FATAL). The loops that close files to get a descriptor take fuel, a round for
-- each open file and one for the end.
pub mod Open
pub mod Ops
pub mod Stdio
pub mod Valid
pub mod Lru
pub mod Descriptors
pub mod Placed
pub mod Access
pub mod Close
pub mod Sync
pub mod Slots
pub mod Allocated
pub mod Opened
pub mod Sample
pub mod Runs
pub mod Examples
use postgres_v.Base.{
  ℕ, zero, suc, ◌+◌, ◌-◌, ◌*◌, ◌%◌, ◌^◌, Bool, true, false, not, ◌&&◌, ◌||◌, Option, none, some,
  List, [], ◌∷◌, length, ltb, leb, ◌==◌, if◌then◌else◌,
}
use postgres_v.Rings.{Links, store, inserted, unlinked}

pub data Call : Type 0 where
  open_file : (name : Option (List ℕ)) → (flags mode : ℕ) → Call
  close_fd : (fd : ℕ) → Call
  lseek : (fd offset whence : ℕ) → Call
  fsync : (fd : ℕ) → Call
  read_fd : (fd amount : ℕ) → Call
  write_fd : (fd amount : ℕ) → Call
  ftruncate : (fd offset : ℕ) → Call
  unlink_file : (name : Option (List ℕ)) → Call
  fopen : (name mode : List ℕ) → Call
  fclose : (file : ℕ) → Call
  allocate : (entries : ℕ) → Call

pub record Reply : Type 0 where
  pub ret : ℕ
  pub errno : ℕ

-- -1; VFD_CLOSED and FILE_UNKNOWN_POS
abbrev pub minus_one : ℕ
minus_one = 2 ^ 64 - 1

abbrev pub is_negative : ℕ → Bool
is_negative w = leb (2 ^ 63) w

-- SEEK_SET, SEEK_CUR, SEEK_END, EMFILE, ENFILE
abbrev pub seek_set : ℕ
seek_set = 0

abbrev pub seek_cur : ℕ
seek_cur = 1

abbrev pub seek_end : ℕ
seek_end = 2

abbrev pub emfile : ℕ
emfile = 24

abbrev pub enfile : ℕ
enfile = 23

pub record Files : Type 0 where
  pub history : List Call
  pub lru : Links
  pub next_free : ℕ → ℕ
  pub fd : ℕ → ℕ
  pub dirty : ℕ → Bool
  pub temporary : ℕ → Bool
  pub seek_pos : ℕ → ℕ
  pub filename : ℕ → Option (List ℕ)
  pub file_flags : ℕ → ℕ
  pub file_mode : ℕ → ℕ
  pub size_vfd_cache : ℕ
  pub nfile : ℕ
  pub allocated_files : List ℕ
  pub temp_file_counter : ℕ

pub data Run (A : Type 0) : Type 0 where
  ok : A → Files → Run A
  failed_assertion : Run A
  error : Run A
  out_of_fuel : Run A

abbrev pub Cmd : Type 0 → Type 0
Cmd A = Files → Run A

abbrev pub pure : {A : Type 0} → A → Cmd A
pure a s = ok a s

abbrev pub and_then : {A B : Type 0} → Run A → (A → Cmd B) → Run B
and_then (ok a s) f = f a s
and_then failed_assertion f = failed_assertion
and_then error f = error
and_then out_of_fuel f = out_of_fuel

infixl 5 ◌>>=◌ ◌>>◌
abbrev pub ◌>>=◌ : {A B : Type 0} → Cmd A → (A → Cmd B) → Cmd B
◌>>=◌ m f s = and_then (m s) f

abbrev pub ◌>>◌ : {A B : Type 0} → Cmd A → Cmd B → Cmd B
m >> k = m >>= λ _. k

abbrev pub get : Cmd Files
get s = ok s s

abbrev pub modify : (Files → Files) → Cmd (Unit {0})
modify f s = ok tt (f s)

abbrev pub ensure : Bool → Cmd (Unit {0})
ensure b s = if b then ok tt s else failed_assertion

abbrev pub put {ℓ} : {A : Type ℓ} → (ℕ → A) → ℕ → A → ℕ → A
put f i v j = if i == j then v else f j

abbrev pub is_null : {A : Type 0} → Option A → Bool
is_null none = true
is_null (some a) = false

-- conversion of a long to short and back, and whether (int)w is -1
pub as_short : ℕ → ℕ
as_short w = if ltb (w % 2 ^ 16) (2 ^ 15) then w % 2 ^ 16 else (w % 2 ^ 16 + 2 ^ 64) - 2 ^ 16

abbrev pub as_int_is_minus_one : ℕ → Bool
as_int_is_minus_one w = w % 2 ^ 32 == 2 ^ 32 - 1

-- FILE_IS_VALID, FILE_IS_NOT_OPEN
abbrev pub file_is_valid : Files → ℕ → Bool
file_is_valid s file = ltb 0 file && (ltb file s.size_vfd_cache && not (is_null (s.filename file)))

abbrev pub file_is_not_open : Files → ℕ → Bool
file_is_not_open s file = s.fd file == minus_one

pub delete : (file : ℕ) → Cmd (Unit {0})
delete file = do
  ensure (not (file == 0))
  modify (λ s. record s { lru = unlinked s.lru (s.lru.prev file) (s.lru.next file) })

pub insert : (file : ℕ) → Cmd (Unit {0})
insert file = do
  ensure (not (file == 0))
  modify (λ s. record s { lru = inserted s.lru 0 file (s.lru.prev 0) })

-- `free (filename)` is not modelled
pub free_vfd : (file : ℕ) → Files → Files
free_vfd file s = record s {
  filename = put s.filename file none;
  dirty = put s.dirty file false;
  temporary = put s.temporary file false;
  next_free = put (put s.next_free file (s.next_free 0)) 0 file;
}

-- what the operating system replies, EnableFsync, and NOFILE
pub record System : Type 0 where
  pub os : List Call → Reply
  pub enable_fsync : Bool
  pub nofile : ℕ

module _ (sys : System) where
  pub call : Call → Cmd Reply
  call c s = ok (sys.os (c ∷ s.history)) (record s { history = c ∷ s.history })

  pub pg_fsync : (fd : ℕ) → Cmd ℕ
  pg_fsync fd = if sys.enable_fsync then (do r ← call (fsync fd); pure r.ret) else pure 0

  -- RESERVE_FOR_LD and FD_MINFREE are 10
  pub pg_nofile : Cmd ℕ
  pg_nofile = if ltb sys.nofile 20 then (λ _. error) else pure (sys.nofile - 10)

  -- `if (fdstate & FD_DIRTY)` with its block, in `lru_delete` and `file_close`
  pub sync_dirty : (file : ℕ) → Cmd (Unit {0})
  sync_dirty file = do
    s ← get
    (if s.dirty file
        then (do
          r ← pg_fsync (s.fd file)
          ensure (not (r == minus_one))
          modify (λ t. record t { dirty = put t.dirty file false }))
        else pure tt)

  pub close_file : (file : ℕ) → Cmd (Unit {0})
  close_file file = do
    s ← get
    r ← call (close_fd (s.fd file))
    ensure (not (r.ret == minus_one))
    modify (λ t. record t { nfile = t.nfile - 1; fd = put t.fd file minus_one })

  pub lru_delete : (file : ℕ) → Cmd (Unit {0})
  lru_delete file = do
    delete file
    s ← get
    r ← call (lseek (s.fd file) 0 seek_cur)
    modify (λ t. record t { seek_pos = put t.seek_pos file r.ret })
    ensure (not (r.ret == minus_one))
    sync_dirty file
    close_file file

  pub release_lru_file : Cmd Bool
  release_lru_file = do
    s ← get
    (if ltb 0 s.nfile
        then (do ensure (not (s.lru.next 0 == 0)); lru_delete (s.lru.next 0); pure true)
        else pure false)

  -- `while (NFile + NumAllocatedFiles >= pg_nofile())`
  pub make_room : (fuel : ℕ) → Cmd (Unit {0})
  make_room zero = λ _. out_of_fuel
  make_room (suc fuel) = do
    limit ← pg_nofile
    s ← get
    (if leb limit (s.nfile + length s.allocated_files)
        then (do released ← release_lru_file; if released then make_room fuel else pure tt)
        else pure tt)

  pub basic_open_file :
      (fuel : ℕ) → (filename : Option (List ℕ)) → (file_flags file_mode : ℕ) → Cmd ℕ
  basic_open_file zero filename file_flags file_mode = λ _. out_of_fuel
  basic_open_file (suc fuel) filename file_flags file_mode = do
    r ← call (open_file filename file_flags file_mode)
    (if is_negative r.ret
        then (if r.errno == emfile || r.errno == enfile
            then (do
              released ← release_lru_file
              if released
                  then basic_open_file fuel filename file_flags file_mode
                  else pure minus_one)
            else pure minus_one)
        else pure r.ret)

  -- the part of `lru_insert` for a file that is not open; the result is that of the open
  pub reopen : (file : ℕ) → Cmd ℕ
  reopen file = do
    s ← get
    make_room (suc s.nfile)
    t ← get
    result ← basic_open_file (suc t.nfile) (t.filename file) (t.file_flags file) (t.file_mode file)
    fd ← pure (as_short result)
    modify (λ u. record u { fd = put u.fd file fd })
    (if is_negative fd then pure fd else (do
      modify (λ u. record u { nfile = u.nfile + 1 })
      u ← get
      (if u.seek_pos file == 0 then pure fd else (do
        r ← call (lseek fd (u.seek_pos file) seek_set)
        ensure (not (as_int_is_minus_one r.ret))
        pure fd))))

  pub lru_insert : (file : ℕ) → Cmd ℕ
  lru_insert file = do
    ensure (not (file == 0))
    s ← get
    (if file_is_not_open s file
        then (do fd ← reopen file; if is_negative fd then pure fd else insert file >> pure 0)
        else insert file >> pure 0)

  pub file_access : (file : ℕ) → Cmd ℕ
  file_access file = do
    s ← get
    (if file_is_not_open s file
        then lru_insert file
        else (if s.lru.prev 0 == file then pure 0 else (do delete file; insert file; pure 0)))
