-- ===== src/FileCache/Ops.antt =====
-- The operations of fd.c on an open File. The bytes that are read and written are not modelled.
use postgres_v.Base.{
  ℕ, ◌+◌, ◌%◌, ◌^◌, true, false, not, ◌&&◌, ◌||◌, Option, none, some, ◌==◌, if◌then◌else◌,
}
use postgres_v.FileCache.{
  System, Files, Cmd, pure, ◌>>=◌, ◌>>◌, get, modify, ensure, error, put, minus_one, is_negative,
  seek_set, seek_cur, seek_end, lseek, read_fd, write_fd, ftruncate, unlink_file, file_is_valid,
  file_is_not_open, delete, free_vfd, call, pg_fsync, sync_dirty, close_file, lru_insert,
  file_access,
}

-- `ASSERT(FILE_IS_VALID(file))`
abbrev pub ensure_valid : (file : ℕ) → Cmd (Unit {0})
ensure_valid file s = ensure (file_is_valid s file) s

module _ (sys : System) where
  -- the block of `file_close` for an open file
  unfoldable pub close_open : (file : ℕ) → Cmd (Unit {0})
  close_open file = do delete file; sync_dirty sys file; close_file sys file

  -- the block of `file_close` for a temporary file
  unfoldable pub unlink_temporary : (file : ℕ) → Cmd (Unit {0})
  unlink_temporary file = do
    s ← get
    (if s.temporary file
        then (do
          modify (λ t. record t { temporary = put t.temporary file false })
          call sys (unlink_file (s.filename file))
          pure tt)
        else pure tt)

  unfoldable pub file_close : (file : ℕ) → Cmd (Unit {0})
  file_close file = do
    ensure_valid file
    s ← get
    (if file_is_not_open s file then pure tt else close_open file)
    unlink_temporary file
    modify (free_vfd file)

  unfoldable pub file_unlink : (file : ℕ) → Cmd (Unit {0})
  file_unlink file = do
    ensure_valid file
    modify (λ s. record s { temporary = put s.temporary file true })
    file_close file

  -- the position after a transfer of `w` bytes
  unfoldable pub advance : (file w : ℕ) → Files → Files
  advance file w s = record s {
    seek_pos =
        put s.seek_pos file (
          if not (is_negative w) && not (w == 0)
          then (s.seek_pos file + w) % 2 ^ 64
          else minus_one);
  }

  unfoldable pub file_read : (file amount : ℕ) → Cmd ℕ
  file_read file amount = do
    ensure_valid file
    file_access sys file
    s ← get
    r ← call sys (read_fd (s.fd file) amount)
    modify (advance file r.ret)
    pure r.ret

  unfoldable pub file_write : (file amount : ℕ) → Cmd ℕ
  file_write file amount = do
    ensure_valid file
    file_access sys file
    s ← get
    r ← call sys (write_fd (s.fd file) amount)
    modify (advance file r.ret)
    pure r.ret

  -- `VfdCache[file].seek_pos = lseek(...)`
  unfoldable pub seek_to : (file offset whence : ℕ) → Cmd (Unit {0})
  seek_to file offset whence = do
    s ← get
    r ← call sys (lseek (s.fd file) offset whence)
    modify (λ t. record t { seek_pos = put t.seek_pos file r.ret })

  unfoldable pub seek_closed : (file offset whence : ℕ) → Cmd (Unit {0})
  seek_closed file offset whence =
      if whence == seek_set
      then (if is_negative offset
          then (λ _. error)
          else modify (λ s. record s { seek_pos = put s.seek_pos file offset }))
      else (if whence == seek_cur
          then modify (λ s. record s {
            seek_pos = put s.seek_pos file ((s.seek_pos file + offset) % 2 ^ 64);
          })
          else (if whence == seek_end
              then (do file_access sys file; seek_to file offset whence)
              else (λ _. error)))

  unfoldable pub seek_open : (file offset whence : ℕ) → Cmd (Unit {0})
  seek_open file offset whence = do
    s ← get
    (if whence == seek_set
        then (if is_negative offset
            then (λ _. error)
            else (if s.seek_pos file == offset then pure tt else seek_to file offset whence))
        else (if whence == seek_cur
            then (if not (offset == 0) || s.seek_pos file == minus_one
                then seek_to file offset whence
                else pure tt)
            else (if whence == seek_end then seek_to file offset whence else (λ _. error))))

  unfoldable pub file_seek : (file offset whence : ℕ) → Cmd ℕ
  file_seek file offset whence = do
    ensure_valid file
    s ← get
    (if file_is_not_open s file
        then seek_closed file offset whence
        else seek_open file offset whence)
    t ← get
    pure (t.seek_pos file)

  -- the result is `none` where the code returns a variable that it never assigned
  unfoldable pub file_sync : (file : ℕ) → Cmd (Option ℕ)
  file_sync file = do
    ensure_valid file
    s ← get
    (if not (s.dirty file)
        then pure (some 0)
        else (if not sys.enable_fsync
            then (do modify (λ t. record t { dirty = put t.dirty file false }); pure (some 0))
            else (if file_is_not_open s file
                then (do
                  opened ← lru_insert sys file
                  (if not (opened == 0) then pure (some opened) else (do
                    t ← get
                    synced ← pg_fsync sys (t.fd file)
                    (if synced == 0
                        then modify (λ u. record u { dirty = put u.dirty file false })
                        else pure tt)
                    pure (some synced))))
                else pure none)))

  unfoldable pub file_truncate : (file offset : ℕ) → Cmd ℕ
  file_truncate file offset = do
    ensure_valid file
    file_sync file
    file_access sys file
    s ← get
    r ← call sys (ftruncate (s.fd file) offset)
    pure r.ret

  unfoldable pub file_mark_dirty : (file : ℕ) → Cmd (Unit {0})
  file_mark_dirty file = do
    ensure_valid file
    modify (λ s. record s { dirty = put s.dirty file true })
