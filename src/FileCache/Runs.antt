-- ===== src/FileCache/Runs.antt =====
-- Tests of fd.c on the sample of five slots.
use postgres_v.Base.{ℕ, ◌≡◌, refl, Bool, true, false, Option, none, some, List, [], ◌∷◌}
use postgres_v.FileCache.{
  Files, Run, ok, error, failed_assertion, out_of_fuel, minus_one, close_fd, fsync, ftruncate,
  unlink_file, fclose, file_access, delete, insert, make_room, pg_nofile, basic_open_file, as_short,
  call, pg_fsync, sync_dirty, close_file, free_vfd,
}
use postgres_v.FileCache.Open.{
  allocate_vfd, opened_vfd, file_name_open_file_aux, file_name_open_file, filepath,
  open_temporary_file,
}
use postgres_v.FileCache.Ops.{
  file_close, close_open, unlink_temporary, file_unlink, file_read, file_write, advance, file_sync,
  file_truncate,
}
use postgres_v.FileCache.Stdio.{
  allocate_file, open_stdio, free_file, free_files, end_entries, at_eo_xact_files, remove_entry,
}
use postgres_v.FileCache.Sample.{unix, two_open}

-- what a run returns, where it ends, and a value read off its final state
abbrev outcome : {A B : Type 0} → (Files → B) → Run A → Option (A × B)
outcome f (ok a s) = some (a, f s)
outcome f failed_assertion = none
outcome f error = none
outcome f out_of_fuel = none

-- a read of 12 bytes moves the position from 100 to 112, one of no bytes makes it unknown
file_read-position : outcome (λ s. s.seek_pos 1) (file_read unix 1 12 two_open) ≡ some (12, 112)
unfolding file_read advance file_access delete insert call
file_read-position = refl

file_read-no_bytes : outcome (λ s. s.seek_pos 1) (file_read unix 1 0 two_open) ≡ some (0, minus_one)
unfolding file_read advance file_access delete insert call
file_read-no_bytes = refl

-- a write does not mark the file
file_write-clean :
    outcome {B = Bool × ℕ} (λ s. (s.dirty 2, s.seek_pos 2)) (file_write unix 2 8 two_open)
    ≡ some (8, (false, 8))
unfolding file_write advance file_access call
file_write-clean = refl

file_truncate-calls :
    outcome (λ s. s.history) (file_truncate unix 2 8192 two_open) ≡ some (0, ftruncate 9 8192 ∷ [])
unfolding file_truncate file_sync file_access call
file_truncate-calls = refl

file_unlink-calls :
    outcome (λ s. s.history) (file_unlink unix 1 two_open)
    ≡ some (tt, unlink_file (some (97 ∷ [])) ∷ close_fd 8 ∷ fsync 8 ∷ [])
unfolding file_unlink file_close close_open unlink_temporary free_vfd delete sync_dirty close_file
    pg_fsync call
file_unlink-calls = refl

allocate_file-entries :
    outcome (λ s. s.allocated_files) (allocate_file unix (97 ∷ []) (114 ∷ []) two_open)
    ≡ some (90, 70 ∷ 71 ∷ 70 ∷ 90 ∷ [])
unfolding allocate_file open_stdio call
allocate_file-entries = refl

-- the temporary file 2 is closed and unlinked, file 1 is clean, and the files of stdio are closed
at_eo_xact_files-calls :
    outcome (λ s. s.history) (at_eo_xact_files unix two_open)
    ≡ some (tt, fclose 71 ∷ fclose 70 ∷ fclose 70 ∷ unlink_file (some (98 ∷ [])) ∷ close_fd 9 ∷ [])
unfolding at_eo_xact_files end_entries free_files free_file remove_entry file_close close_open
    unlink_temporary free_vfd delete sync_dirty close_file call
at_eo_xact_files-calls = refl

-- a relative name is completed with the path of the database
open_temporary_file-name :
    outcome {B = Option (List ℕ) × Bool}
      (λ s. (s.filename 3, s.temporary 3))
      (open_temporary_file unix (47 ∷ 100 ∷ []) (λ n. 116 ∷ n ∷ []) 2 two_open)
    ≡ some (3, (some (47 ∷ 100 ∷ 47 ∷ 116 ∷ 0 ∷ []), true))
unfolding open_temporary_file file_name_open_file filepath file_name_open_file_aux allocate_vfd
    make_room pg_nofile basic_open_file as_short opened_vfd insert call
open_temporary_file-name = refl
