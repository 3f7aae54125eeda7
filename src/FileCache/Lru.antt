-- ===== src/FileCache/Lru.antt =====
-- Closing files of fd.c to get descriptors: which file is closed.
use postgres_v.Base.{
  ℕ, ◌≡◌, ◌≢◌, ◌⊎◌, refl, sym, inl, inr, true, false, List, [], ◌∷◌, ◌++◌, arith, ltb, ◌==◌,
  All-parts,
}
use postgres_v.FileCache.{
  System, Files, ok, minus_one, lseek, seek_cur, lru_delete, release_lru_file,
}
use postgres_v.FileCache.Valid.{
  IsCache, IsReliable, IsKept, IsSynced, closing_history, closed_at, closed_at-IsCache,
  lru_delete_lem,
}

-- `file` was closed: the calls asked for its position, synced it if it was dirty, and closed its
-- descriptor; it is not open and not dirty, its position is the reply, and the others are as they were
pub record IsClosed (sys : System) (s t : Files) (file : ℕ) : Type 0 where
  pub calls : t.history ≡ closing_history sys.enable_fsync (s.dirty file) (s.fd file) s.history
  pub position : t.seek_pos file ≡ (sys.os (lseek (s.fd file) 0 seek_cur ∷ s.history)).ret
  pub kept : IsKept s t
  pub fd : (t.fd file ≡ minus_one) × ((f : ℕ) → file ≢ f → t.fd f ≡ s.fd f)
  pub synced : IsSynced s.dirty file t.dirty
  pub positions : (f : ℕ) → file ≢ f → t.seek_pos f ≡ s.seek_pos f

module _ (sys : System) (rel : IsReliable sys) where
  -- Where the ring lists the open files, lru_delete of one of them succeeds: the ring lists the others
  -- in the same order, the file is closed and not dirty, and the other files are as they were.
  pub lru_delete-IsClosed :
      (s : Files) (file : ℕ) (xs ys : List ℕ)
      → IsCache s (xs ++ file ∷ ys)
      → (t : Files) × (lru_delete sys file s ≡ ok tt t)
        × IsCache t (xs ++ ys)
        × IsClosed sys s t file
  lru_delete-IsClosed s file xs ys v =
      let (_, ne, _) = All-parts (λ f. 0 ≢ f) xs file ys v.distinct.0 in
      let (d, run, synced) = lru_delete_lem sys file s rel (λ q. ne (sym q)) in
      let h = closing_history sys.enable_fsync (s.dirty file) (s.fd file) s.history in
      let p = (sys.os (lseek (s.fd file) 0 seek_cur ∷ s.history)).ret in
      let here : (file == file) ≡ true = ground arith in
      (
        closed_at s file h d p,
        run,
        closed_at-IsCache s file h d p xs ys v,
        record {
          kept = record {
            filename = refl;
            file_flags = refl;
            file_mode = refl;
            temporary = refl;
            next_free = refl;
            size = refl;
            allocated_files = refl;
          };
          calls = refl;
          position = rw here refl;
          fd = (ground arith, λ f ne. ground arith);
          synced = synced;
          positions = λ f ne. ground arith;
        },
      )

  -- Where the ring lists the open files, release_lru_file closes the least recently used one and
  -- says so, and says that there is none exactly when no file is open. The calls are an lseek that
  -- asks for the position, which the slot keeps, an fsync if the file was dirty and EnableFsync is
  -- set, and the close of its descriptor, in this order; the file is not dirty then, and the other
  -- files stay as they are. Descriptors fit a short, close and fsync do not fail, and lseek replies
  -- positions below 2 GiB.
  pub release_lru_file-IsClosed :
      (s : Files) (order : List ℕ)
      → IsCache s order
      → ((order ≡ []) × (release_lru_file sys s ≡ ok false s))
        ⊎ ((file : ℕ) × (rest : List ℕ) × (order ≡ file ∷ rest)
            × (t : Files) × (release_lru_file sys s ≡ ok true t)
            × IsCache t rest
            × IsClosed sys s t file)
  unfolding release_lru_file
  release_lru_file-IsClosed s [] v =
      let e = v.count in let g : ltb 0 s.nfile ≡ false = ground arith in inl (refl, rw g refl)
  release_lru_file-IsClosed s (file ∷ rest) v =
      let c = v.count in
      let g : ltb 0 s.nfile ≡ true = ground arith in
      let first : s.lru.next 0 ≡ file = v.ring.0 in
      let ne = v.distinct.0.0 in
      let z : (file == 0) ≡ false = ground arith in
      let (t, run, valid, closed) = lru_delete-IsClosed s file [] rest v in
      inr (file, rest, refl, t, rw (g, first, z, run) refl, valid, closed)
