-- ===== src/FileCache/Placed.antt =====
-- The ring of fd.c where a file is put at its recently used end, and where an open failed.
use mathlib.Core.Path.{subst}
use postgres_v.Base.{
  ℕ, ◌+◌, ◌<◌, ◌≡◌, ◌≢◌, refl, sym, ap, ◌∙◌, false, List, [], ◌∷◌, ◌++◌, length-append, arith, All,
  All-parts, All-split, All-append, All-zip,
}
use postgres_v.Rings.{
  Links, Ring, Lacks, Distinct, unlinked, inserted, last, Lacks-last, Seg-at, Seg-last,
  Seg-unlinked, Seg-inserted, Distinct-without, Distinct-append,
}
use postgres_v.FileCache.{Call, Files, put, minus_one, is_negative}
use postgres_v.FileCache.Valid.{IsCache}

Ring-insert :
    (m : Links) (file : ℕ) (order : List ℕ)
    → Ring m 0 order
    → Distinct (0 ∷ order)
    → Lacks file (0 ∷ order)
    → Ring (inserted m 0 file (m.prev 0)) 0 (order ++ file ∷ [])
Ring-insert m file order ring distinct lacks =
    subst (λ p. Ring (inserted m 0 file p) 0 (order ++ file ∷ []))
      (sym (Seg-last m 0 0 order ring).0)
      (Seg-inserted m 0 0 file order ring lacks lacks.0 distinct.0 distinct)

Distinct-insert :
    (file : ℕ) (order : List ℕ)
    → Distinct (0 ∷ order)
    → Lacks file (0 ∷ order)
    → Distinct (0 ∷ (order ++ file ∷ []))
Distinct-insert file order distinct (ne, out) = (
  All-append (λ f. 0 ≢ f) order (file ∷ []) distinct.0 ((λ q. ne (sym q)), tt),
  Distinct-append file order out distinct.1,
)

-- `file`, open as `fd`, at the recently used end of the ring
abbrev pub opened_at : Files → (file fd : ℕ) → List Call → Files
opened_at s file fd h = record s {
  lru = inserted s.lru 0 file (s.lru.prev 0);
  history = h;
  nfile = s.nfile + 1;
  fd = put s.fd file fd;
}

pub opened_at-IsCache :
    (s : Files) (file fd : ℕ) (h : List Call) (order : List ℕ)
    → IsCache s order
    → Lacks file (0 ∷ order)
    → file < s.size_vfd_cache
    → is_negative fd ≡ false
    → IsCache (opened_at s file fd h) (order ++ file ∷ [])
opened_at-IsCache s file fd h order v lacks lt sign = record {
  ring = Ring-insert s.lru file order v.ring v.distinct lacks;
  distinct = Distinct-insert file order v.distinct lacks;
  sized = All-append (λ f. f < s.size_vfd_cache) order (file ∷ []) v.sized (lt, tt);
  opened =
      All-append (λ f. is_negative (put s.fd file fd f) ≡ false) order (file ∷ [])
        (All-zip (λ f. is_negative (s.fd f) ≡ false) (λ f. file ≢ f)
          (λ f. is_negative (put s.fd file fd f) ≡ false) (λ f o ne. ground arith) order v.opened
          lacks.1)
        (ground arith, tt);
  closed = λ f small out.
      let (l, ne, _) = All-parts (λ g. f ≢ g) order file [] out in
      let c = v.closed f small l in ground arith;
  count = let c = v.count in let l = length-append order (file ∷ []) in omega arith;
}

-- `file`, which stood behind `xs`, moved to the recently used end
abbrev pub moved_to_end : Files → (file : ℕ) → Files
moved_to_end s file =
    let m = unlinked s.lru (s.lru.prev file) (s.lru.next file) in
    record s { lru = inserted m 0 file (m.prev 0) }

pub moved_to_end-IsCache :
    (s : Files) (file : ℕ) (xs ys : List ℕ)
    → IsCache s (xs ++ file ∷ ys)
    → IsCache (moved_to_end s file) ((xs ++ ys) ++ file ∷ [])
moved_to_end-IsCache s file xs ys v =
    let (ep, en) = Seg-at s.lru 0 0 file xs ys v.ring in
    let (out, distinct) = Distinct-without file (0 ∷ xs) ys v.distinct in
    let m = unlinked s.lru (s.lru.prev file) (s.lru.next file) in
    let ring : Ring m 0 (xs ++ ys) =
      rw (ep, en) (Seg-unlinked s.lru 0 0 file xs ys v.ring v.distinct v.distinct.0) in
    record {
      ring = Ring-insert m file (xs ++ ys) ring distinct out;
      distinct = Distinct-insert file (xs ++ ys) distinct out;
      sized = All-moved (λ f. f < s.size_vfd_cache) xs file ys v.sized;
      opened = All-moved (λ f. is_negative (s.fd f) ≡ false) xs file ys v.opened;
      closed = λ f small lacks. v.closed f small (All-back (λ g. f ≢ g) xs file ys lacks);
      count =
          let c = v.count in
          let a = length-append (xs ++ ys) (file ∷ []) in
          let b = length-append xs ys in let d = length-append xs (file ∷ ys) in omega arith;
    }
  where
    All-moved :
        (P : ℕ → Type 0) (xs : List ℕ) (file : ℕ) (ys : List ℕ)
        → All P (xs ++ file ∷ ys)
        → All P ((xs ++ ys) ++ file ∷ [])
    All-moved P xs file ys all =
        let (x, f, y) = All-parts P xs file ys all in
        All-append P (xs ++ ys) (file ∷ []) (All-append P xs ys x y) (f, tt)

    All-back :
        (P : ℕ → Type 0) (xs : List ℕ) (file : ℕ) (ys : List ℕ)
        → All P ((xs ++ ys) ++ file ∷ [])
        → All P (xs ++ file ∷ ys)
    All-back P xs file ys all =
        let (both, f, _) = All-parts P (xs ++ ys) file [] all in
        let (x, y) = All-split P xs ys both in All-append P xs (file ∷ ys) x (f, y)

last-append : (a : ℕ) (xs : List ℕ) (e : ℕ) (ys : List ℕ) → last a (xs ++ e ∷ ys) ≡ last e ys
last-append a [] e ys = refl
last-append a (x ∷ xs) e ys = last-append x xs e ys

-- the file that stands last has none behind it
pub moved-last :
    (file : ℕ) (xs ys : List ℕ)
    → Distinct (0 ∷ (xs ++ file ∷ ys))
    → last 0 (xs ++ file ∷ ys) ≡ file
    → xs ++ file ∷ ys ≡ (xs ++ ys) ++ file ∷ []
moved-last file xs [] distinct e = ap (λ zs. zs ++ file ∷ []) (sym (nil-right xs))
  where
    nil-right : (xs : List ℕ) → xs ++ [] ≡ xs
    nil-right [] = refl
    nil-right (x ∷ xs) = ap (λ zs. x ∷ zs) (nil-right xs)
moved-last file xs (y ∷ ys) distinct e =
    let (out, _) = Distinct-without file xs (y ∷ ys) distinct.1 in
    let (_, l) = All-split (λ f. file ≢ f) xs (y ∷ ys) out in
    absurd (Lacks-last file y ys l (sym e ∙ last-append 0 xs file (y ∷ ys)))

-- a failed open leaves the descriptor at -1
pub unopened-IsCache :
    (s : Files) (file : ℕ) (h : List Call) (order : List ℕ)
    → IsCache s order
    → Lacks file order
    → IsCache (record s { fd = put s.fd file minus_one; history = h }) order
unopened-IsCache s file h order v lacks = record {
  ring = v.ring;
  distinct = v.distinct;
  sized = v.sized;
  opened =
      All-zip (λ f. is_negative (s.fd f) ≡ false) (λ f. file ≢ f)
        (λ f. is_negative (put s.fd file minus_one f) ≡ false) (λ f o ne. ground arith) order
        v.opened lacks;
  closed = λ f small out. let c = v.closed f small out in ground arith;
  count = v.count;
}
