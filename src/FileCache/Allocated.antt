-- ===== src/FileCache/Allocated.antt =====
-- The files of stdio that fd.c keeps track of: free_file removes one entry, and the loop at the end of
-- a transaction removes them all.
use postgres_v.Base.{
  ℕ, zero, suc, ◌+◌, ◌≡◌, refl, inl, inr, true, false, List, [], ◌∷◌, length, arith, ◌==◌,
  if◌then◌else◌, Bool-cases,
}
use postgres_v.FileCache.{Call, System, Files, ok, fclose, call}
use postgres_v.FileCache.Stdio.{last_entry, but_last, is_entry, remove_entry, free_file, free_files}

-- how often `e` stands in a list
abbrev pub occurrences : (e : ℕ) → List ℕ → ℕ
occurrences e [] = 0
occurrences e (x ∷ xs) = (if e == x then 1 else 0) + occurrences e xs

occurrences-last :
    (e x : ℕ) (xs : List ℕ)
    → occurrences e (last_entry x xs ∷ but_last x xs) ≡ occurrences e (x ∷ xs)
occurrences-last e x [] = refl
occurrences-last e x (y ∷ ys) = let i = occurrences-last e y ys in omega arith

length-but_last : (x : ℕ) (xs : List ℕ) → length (but_last x xs) ≡ length xs
length-but_last x [] = refl
length-but_last x (y ∷ ys) = let i = length-but_last y ys in omega arith

-- For a file of AllocatedFiles, free_file takes it out of the list once: the number of entries and its
-- occurrences go down by one, and every other file occurs as often as before.
remove_entry-occurrences :
    (file : ℕ) (xs : List ℕ)
    → is_entry file xs ≡ true
    → (length (remove_entry file xs) + 1 ≡ length xs)
      × ((e : ℕ)
          → occurrences e (remove_entry file xs) + (if e == file then 1 else 0) ≡ occurrences e xs)
unfolding remove_entry
remove_entry-occurrences file [] h = ground arith
remove_entry-occurrences file (x ∷ xs) h = elim (Bool-cases (is_entry file xs)) [
  | inl later ↦
      let (l, o) = remove_entry-occurrences file xs later in
      (rw later (omega arith), rw later (λ e. let oe = o e in omega arith))
  | inr first ↦ elim (Bool-cases (file == x)) [
    | inl same ↦ moved_case xs first same
    | inr differ ↦ ground arith
  ]
]
  where
    moved_case :
        (xs : List ℕ)
        → is_entry file xs ≡ false
        → (file == x) ≡ true
        → (length (remove_entry file (x ∷ xs)) + 1 ≡ length (x ∷ xs))
          × ((e : ℕ)
              → occurrences e (remove_entry file (x ∷ xs)) + (if e == file then 1 else 0)
                ≡ occurrences e (x ∷ xs))
    moved_case [] first same = (rw same refl, rw same (λ e. ground arith))
    moved_case (y ∷ ys) first same =
        let l = length-but_last y ys in
        (
          rw (first, same) (omega arith),
          rw (first, same) (λ e. let o = occurrences-last e y ys in ground arith),
        )

-- the calls that close the files of a list, the last call first
abbrev pub closings : List ℕ → List Call → List Call
closings [] h = h
closings (f ∷ fs) h = closings fs (fclose f ∷ h)

module _ (sys : System) where
  -- A round of fuel for each entry of AllocatedFiles lets the loop of at_eo_xact_files end: no entry is
  -- left, nothing else but the calls changed, and each file was closed as often as it stood there.
  free_files-closings :
      (fuel : ℕ) (s : Files)
      → length s.allocated_files ≡ fuel
      → (closed : List ℕ) × (free_files sys fuel s
          ≡ ok tt (record s { allocated_files = []; history = closings closed s.history }))
        × ((e : ℕ) → occurrences e closed ≡ occurrences e s.allocated_files)
  unfolding free_files free_file call
  free_files-closings fuel s enough = rounds fuel s.allocated_files s.history enough
    where
      rounds :
          (fuel : ℕ) (files : List ℕ) (h : List Call)
          → length files ≡ fuel
          → (closed : List ℕ) × (free_files sys fuel
                (record s { allocated_files = files; history = h })
              ≡ ok tt (record s { allocated_files = []; history = closings closed h }))
            × ((e : ℕ) → occurrences e closed ≡ occurrences e files)
      rounds zero [] h enough = ([], refl, λ e. refl)
      rounds zero (f ∷ files) h enough = ground arith
      rounds (suc fuel) [] h enough = ground arith
      rounds (suc fuel) (f ∷ files) h enough =
          let (l, o) = remove_entry-occurrences f (f ∷ files) (ground arith) in
          let (closed, run, all) =
            rounds fuel (remove_entry f (f ∷ files)) (fclose f ∷ h) (omega arith) in
          (f ∷ closed, run, λ e. let a = all e in let b = o e in omega arith)
