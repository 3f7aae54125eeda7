-- ===== src/FileCache/Examples.antt =====
-- Concrete runs of what is proved, on the sample of five slots.
use postgres_v.Base.{
  ℕ, ◌≡◌, ◌⊎◌, refl, inr, true, false, some, List, [], ◌∷◌, ◌++◌, arith, ◌==◌, if◌then◌else◌,
}
use postgres_v.FileCache.{
  Call, Reply, System, Files, ok, minus_one, is_negative, lseek, file_access, release_lru_file,
}
use postgres_v.FileCache.Open.{file_name_open_file_aux}
use postgres_v.FileCache.Stdio.{close_all_vfds}
use postgres_v.FileCache.Valid.{IsCache, IsReliable, IsKept}
use postgres_v.FileCache.Lru.{IsClosed, release_lru_file-IsClosed}
use postgres_v.FileCache.Access.{IsReopening, IsReopened, file_access-open, file_access-closed}
use postgres_v.FileCache.Close.{closing_histories, close_all_vfds-closed}
use postgres_v.FileCache.Slots.{IsFreeList}
use postgres_v.FileCache.Opened.{IsOpened, FailedOpen, file_name_open_file_aux-IsOpened}
use postgres_v.FileCache.Sample.{unix, two_open}

unix-IsReliable : IsReliable unix
unix-IsReliable = record {
  opens = λ name flags mode h. inr (ground arith);
  closes = λ fd h q. ground arith;
  syncs = λ fd h q. ground arith;
  seeks = λ fd offset whence h. ground arith;
}

two_open-IsCache : IsCache two_open (1 ∷ 2 ∷ [])
two_open-IsCache = record {
  ring = (refl, refl, (refl, refl, (refl, refl)));
  distinct = (((λ q. omega arith), ((λ q. omega arith), tt)), (((λ q. omega arith), tt), (tt, tt)));
  sized = (omega arith, (omega arith, tt));
  opened = (refl, (refl, tt));
  closed = λ f lt lacks. let a = lacks.0 in let b = lacks.1.0 in ground arith;
  count = refl;
}

-- a file that was opened before and is closed now: slot 2, with position 40
abbrev one_open : Files
one_open = record two_open {
  lru = record { prev = λ i. if i == 0 then 1 else 0; next = λ i. if i == 0 then 1 else 0 };
  fd = λ i. if i == 1 then 8 else minus_one;
  seek_pos = λ i. 40;
  nfile = 1;
}

one_open-IsCache : IsCache one_open (1 ∷ [])
one_open-IsCache = record {
  ring = (refl, refl, (refl, refl));
  distinct = (((λ q. omega arith), tt), (tt, tt));
  sized = (omega arith, tt);
  opened = (refl, tt);
  closed = λ f lt lacks. let a = lacks.0 in ground arith;
  count = refl;
}

release_lru_file-IsClosed_example :
    ((◌≡◌ {A = List ℕ} (1 ∷ 2 ∷ []) []) × (release_lru_file unix two_open ≡ ok false two_open))
    ⊎ ((file : ℕ) × (rest : List ℕ) × (◌≡◌ {A = List ℕ} (1 ∷ 2 ∷ []) (file ∷ rest))
        × (t : Files) × (release_lru_file unix two_open ≡ ok true t)
        × IsCache t rest
        × IsClosed unix two_open t file)
release_lru_file-IsClosed_example =
    release_lru_file-IsClosed unix unix-IsReliable two_open (1 ∷ 2 ∷ []) two_open-IsCache

file_access-open_example :
    (t : Files) × (file_access unix 1 two_open ≡ ok 0 t)
    × IsCache t (2 ∷ 1 ∷ [])
    × (t ≡ record two_open { lru = t.lru })
file_access-open_example = file_access-open unix two_open 1 [] (2 ∷ []) two_open-IsCache

file_access-closed_example :
    (t : Files) × (rest : List ℕ) × (((file_access unix 2 one_open ≡ ok 0 t)
        × IsReopened unix one_open t 2 (1 ∷ []) rest)
      ⊎ ((file_access unix 2 one_open ≡ ok minus_one t)
          × IsCache t rest
          × IsKept one_open t
          × (t.fd 2 ≡ minus_one)
          × IsReopening one_open 2 t.history
          × (is_negative (unix.os t.history).ret ≡ true)))
file_access-closed_example =
    file_access-closed unix unix-IsReliable one_open 2 (1 ∷ []) one_open-IsCache (omega arith)
      (omega arith) (omega arith) ((λ q. omega arith), tt)

close_all_vfds-closed_example :
    (t : Files) × (close_all_vfds unix two_open ≡ ok tt t)
    × IsCache t []
    × IsKept two_open t
    × (t.history ≡ closing_histories true two_open 4 1 [])
close_all_vfds-closed_example =
    close_all_vfds-closed unix unix-IsReliable two_open (1 ∷ 2 ∷ []) two_open-IsCache

-- lseek of a system whose files have any size
abbrev seeks_anywhere : List Call → Reply
seeks_anywhere [] = record { ret = 0; errno = 0 }
seeks_anywhere (lseek fd offset whence ∷ h) = record { ret = offset; errno = 0 }
seeks_anywhere (c ∷ h) = record { ret = 0; errno = 0 }

abbrev seekable : System
seekable = record unix { os = seeks_anywhere }

abbrev no_slot_free : Files
no_slot_free = record two_open { next_free = λ i. 0 }

file_name_open_file_aux-IsOpened_example :
    (t : Files) × (rest : List ℕ) × ((gone : List ℕ) × (1 ∷ 2 ∷ [] ≡ gone ++ rest))
    × (((file_name_open_file_aux unix (some (99 ∷ [])) 66 384 two_open ≡ ok 3 t)
          × IsCache t (rest ++ 3 ∷ [])
          × IsFreeList t.next_free 0 (4 ∷ [])
          × IsOpened unix t 3 (99 ∷ []) 66 384)
        ⊎ ((file_name_open_file_aux unix (some (99 ∷ [])) 66 384 two_open ≡ ok minus_one t)
            × IsCache t rest
            × IsFreeList t.next_free 0 (3 ∷ 4 ∷ [])
            × FailedOpen unix (some (99 ∷ [])) 66 384 t.history))
file_name_open_file_aux-IsOpened_example =
    file_name_open_file_aux-IsOpened unix (λ n h q. ground arith) two_open (1 ∷ 2 ∷ []) (4 ∷ []) 3
      (99 ∷ []) 66 384 unix-IsReliable (omega arith) two_open-IsCache (omega arith)
      ((λ q. omega arith), ((λ q. omega arith), tt)) (refl, omega arith, (refl, omega arith, refl))
      ((λ q. omega arith), tt) ((λ q. omega arith), tt)
