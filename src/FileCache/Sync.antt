-- ===== src/FileCache/Sync.antt =====
-- Positioning in the files of fd.c.
use postgres_v.Base.{
  ℕ, ◌+◌, ◌%◌, ◌^◌, ◌≡◌, refl, true, false, inl, inr, List, ◌∷◌, arith, ◌==◌, Bool-cases, ==→eq,
}
use postgres_v.FileCache.{
  Call, System, Files, ok, put, minus_one, is_negative, seek_set, seek_cur, lseek, file_is_valid,
  file_is_not_open, call,
}
use postgres_v.FileCache.Ops.{file_seek, seek_closed, seek_open, seek_to}

module _ (sys : System) where
  file_seek-set :
      (s : Files) (file offset : ℕ)
      → ((fd w : ℕ) (h : List Call) → (sys.os (lseek fd w seek_set ∷ h)).ret ≡ w)
      → file_is_valid s file ≡ true
      → is_negative offset ≡ false
      → (p : ℕ → ℕ) × (h : List Call) × (file_seek sys file offset seek_set s
          ≡ ok offset (record s { seek_pos = p; history = h }))
        × (p file ≡ offset)
  unfolding file_seek seek_closed seek_open seek_to call
  file_seek-set s file offset echo valid sign =
      let here : (file == file) ≡ true = ground arith in
      elim (Bool-cases (file_is_not_open s file)) [
        | inl shut ↦
            (put s.seek_pos file offset, s.history, rw (valid, shut, sign, here) refl, rw here refl)
        | inr still ↦ elim (Bool-cases (s.seek_pos file == offset)) [
          | inl same ↦
              let e = ==→eq (s.seek_pos file) offset same in
              (s.seek_pos, s.history, rw (valid, still, sign, same, e) refl, e)
          | inr differ ↦
              let e = echo (s.fd file) offset s.history in
              (
                put s.seek_pos file offset,
                lseek (s.fd file) offset seek_set ∷ s.history,
                rw (valid, still, sign, differ, e, here) refl,
                rw here refl,
              )
        ]
      ]

  -- Where lseek with SEEK_SET replies the offset it is given, file_seek of a valid file to an offset
  -- from the start succeeds, whether the file is open or not, and file_seek by 0 from the current
  -- position then makes no system call and returns that offset.
  file_seek-tell :
      (s : Files) (file offset : ℕ)
      → ((fd w : ℕ) (h : List Call) → (sys.os (lseek fd w seek_set ∷ h)).ret ≡ w)
      → file_is_valid s file ≡ true
      → is_negative offset ≡ false
      → (t : Files) × (u : Files) × (file_seek sys file offset seek_set s ≡ ok offset t)
        × (file_seek sys file 0 seek_cur t ≡ ok offset u)
        × (t.seek_pos file ≡ offset)
        × (u.seek_pos file ≡ offset)
        × (u.history ≡ t.history)
  unfolding file_seek seek_closed seek_open
  file_seek-tell s file offset echo valid sign =
      let (p, h, run, at) = file_seek-set s file offset echo valid sign in
      let t : Files = record s { seek_pos = p; history = h } in
      let here : (file == file) ≡ true = ground arith in
      elim (Bool-cases (file_is_not_open s file)) [
        | inl shut ↦
            let small : (offset + 0) % 2 ^ 64 ≡ offset = ground arith in
            (
              t,
              record t { seek_pos = put p file offset },
              run,
              rw (valid, shut, at, small, here) refl,
              at,
              rw here refl,
              refl,
            )
        | inr still ↦
            let known : (offset == minus_one) ≡ false = ground arith in
            (t, t, run, rw (valid, still, at, known, at) refl, at, at, refl)
      ]
