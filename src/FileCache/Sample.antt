-- ===== src/FileCache/Sample.antt =====
-- A concrete state: five slots, of which 1 and 2 hold open files, 2 the most recently used one, and 3 and
-- 4 are free. The system opens every file as descriptor 5, and seeks where it is asked to.
use postgres_v.Base.{ℕ, ◌^◌, true, none, some, List, [], ◌∷◌, ◌==◌, leb, if◌then◌else◌}
use postgres_v.FileCache.{
  Call, Reply, System, Files, minus_one, open_file, close_fd, lseek, fsync, read_fd, write_fd,
  ftruncate, unlink_file, fopen, fclose, allocate,
}

abbrev pub reply_to : Call → ℕ
reply_to (open_file name flags mode) = 5
reply_to (close_fd fd) = 0
reply_to (lseek fd offset whence) = if leb (2 ^ 31) offset then 0 else offset
reply_to (fsync fd) = 0
reply_to (read_fd fd amount) = amount
reply_to (write_fd fd amount) = amount
reply_to (ftruncate fd offset) = 0
reply_to (unlink_file name) = 0
reply_to (fopen name mode) = 90
reply_to (fclose file) = 0
reply_to (allocate n) = 1000

abbrev pub unix_replies : List Call → Reply
unix_replies [] = record { ret = 0; errno = 0 }
unix_replies (c ∷ h) = record { ret = reply_to c; errno = 0 }

abbrev pub unix : System
unix = record { os = unix_replies; enable_fsync = true; nofile = 256 }

abbrev pub two_open : Files
two_open = record {
  history = [];
  lru = record {
    prev = λ i. if i == 0 then 2 else (if i == 2 then 1 else 0);
    next = λ i. if i == 0 then 1 else (if i == 1 then 2 else 0);
  };
  next_free = λ i. if i == 0 then 3 else (if i == 3 then 4 else 0);
  fd = λ i. if i == 1 then 8 else (if i == 2 then 9 else minus_one);
  dirty = λ i. i == 1;
  temporary = λ i. i == 2;
  seek_pos = λ i. if i == 1 then 100 else 0;
  filename = λ i. if i == 1 then some (97 ∷ []) else (if i == 2 then some (98 ∷ []) else none);
  file_flags = λ i. 0;
  file_mode = λ i. 0;
  size_vfd_cache = 5;
  nfile = 2;
  allocated_files = 70 ∷ 71 ∷ 70 ∷ [];
  temp_file_counter = 0;
}
