-- ===== src/FileCache/Slots.antt =====
-- Slots of fd.c for files: the free list, and its growth.
use postgres_v.Base.{
  ℕ, zero, suc, ◌+◌, ◌-◌, ◌≤◌, ◌<◌, ◌≡◌, ◌≢◌, refl, sym, ◌∙◌, true, false, inl, inr, List, [], ◌∷◌,
  arith, ltb, ◌==◌, Bool-cases, All, All-zip,
}
use postgres_v.Rings.{Links, Seg, Lacks}
use postgres_v.FileCache.Valid.{IsCache, IsCache-data}
use postgres_v.FileCache.{Call, System, Files, ok, put, is_negative, allocate, call, free_vfd}
use postgres_v.FileCache.Open.{new_cache_size, enlarged, cleared_entries, allocate_vfd}

-- the free list leads from the entry `a` over `frees`
abbrev pub IsFreeList : (ℕ → ℕ) → (a : ℕ) → List ℕ → Type 0
IsFreeList m a [] = m a ≡ 0
IsFreeList m a (f ∷ frees) = (m a ≡ f) × (0 < f) × IsFreeList m f frees

-- `a + 1` and what follows it, `count` indexes in all
abbrev pub upward : (a count : ℕ) → List ℕ
upward a zero = []
upward a (suc count) = (a + 1) ∷ upward (a + 1) count

IsFreeList-upward :
    (m : ℕ → ℕ) (a count : ℕ)
    → ((i : ℕ) → a ≤ i → i < a + count → m i ≡ i + 1)
    → m (a + count) ≡ 0
    → IsFreeList m a (upward a count)
IsFreeList-upward m a zero links ends = rw (sym (add_zero a)) ends
  where
    add_zero : (a : ℕ) → a + 0 ≡ a
    add_zero a = omega arith
IsFreeList-upward m a (suc count) links ends = (
  links a (omega arith) (omega arith),
  omega arith,
  IsFreeList-upward m (a + 1) count (λ i le lt. links i (omega arith) (omega arith))
      (let e : (a + 1) + count ≡ a + suc count = omega arith in rw e ends),
)

-- the links of an entry that is not in the list may change
pub IsFreeList-same :
    (m n : ℕ → ℕ) (file a : ℕ) (frees : List ℕ)
    → ((i : ℕ) → file ≢ i → n i ≡ m i)
    → Lacks file (a ∷ frees)
    → IsFreeList m a frees
    → IsFreeList n a frees
IsFreeList-same m n file a [] same (ne, _) l = same a ne ∙ l
IsFreeList-same m n file a (f ∷ frees) same (ne, out) (e, pos, l) =
    (same a ne ∙ e, pos, IsFreeList-same m n file f frees same out l)

module _ (sys : System) where
  -- allocate_vfd after free_vfd of a slot gives that slot, makes no system call, and leaves the free
  -- list as it was before.
  allocate_vfd-free_vfd :
      (s : Files) (file : ℕ) (frees : List ℕ)
      → 0 < s.size_vfd_cache
      → Lacks file (0 ∷ frees)
      → IsFreeList s.next_free 0 frees
      → (t : Files) × (allocate_vfd sys (free_vfd file s) ≡ ok file t)
        × IsFreeList t.next_free 0 frees
        × (t.history ≡ s.history)
  unfolding allocate_vfd free_vfd
  allocate_vfd-free_vfd s file frees pos lacks free =
      let ne = lacks.0 in
      let z : (file == 0) ≡ false = ground arith in
      let z2 : (0 == file) ≡ false = ground arith in
      let here : (file == file) ≡ true = ground arith in
      let some_yet : (s.size_vfd_cache == 0) ≡ false = ground arith in
      let freed = free_vfd file s in
      let n = put freed.next_free 0 (freed.next_free file) in
      (
        record freed { next_free = n },
        rw (some_yet, z) refl,
        IsFreeList-same s.next_free n file 0 frees (λ i ne. ground arith) lacks free,
        refl,
      )

-- the ring does not change where the links below `n` stay
Seg-below :
    (m k : Links) (n a z : ℕ) (xs : List ℕ)
    → ((i : ℕ) → i < n → k.prev i ≡ m.prev i)
    → ((i : ℕ) → i < n → k.next i ≡ m.next i)
    → a < n
    → z < n
    → All (λ x. x < n) xs
    → Seg m a xs z
    → Seg k a xs z
Seg-below m k n a z [] ps ns la lz all (e, f) = (ns a la ∙ e, ps z lz ∙ f)
Seg-below m k n a z (x ∷ xs) ps ns la lz (lx, all) (e, f, t) =
    (ns a la ∙ e, ps x lx ∙ f, Seg-below m k n x z xs ps ns lx lz all t)

-- above the old size nothing is open
enlarged-IsCache :
    (s : Files) (order : List ℕ)
    → 0 < s.size_vfd_cache
    → IsCache s order
    → IsCache (enlarged s) order
unfolding enlarged cleared_entries
enlarged-IsCache s order pos v =
    let n = s.size_vfd_cache in
    record {
      ring =
          Seg-below s.lru (enlarged s).lru n 0 0 order (λ i lt. ground arith) (λ i lt. ground arith)
            pos pos v.sized v.ring;
      distinct = v.distinct;
      sized =
          All-zip (λ f. f < n) (λ f. f < n) (λ f. f < new_cache_size n) (λ f lt _. ground arith)
            order v.sized v.sized;
      opened =
          All-zip (λ f. is_negative (s.fd f) ≡ false) (λ f. f < n)
            (λ f. is_negative ((enlarged s).fd f) ≡ false) (λ f o lt. ground arith) order v.opened
            v.sized;
      closed = λ f lt lacks. elim (Bool-cases (ltb f n)) [
        | inl old ↦ let c = v.closed f (ground arith) lacks in ground arith
        | inr new ↦ ground arith
      ];
      count = v.count;
    }

enlarged-IsFreeList :
    (s : Files)
    → 0 < s.size_vfd_cache
    → IsFreeList (enlarged s).next_free 0 (
        s.size_vfd_cache
        ∷ upward s.size_vfd_cache (new_cache_size s.size_vfd_cache - s.size_vfd_cache - 1))
unfolding enlarged cleared_entries
enlarged-IsFreeList s pos =
    let n = s.size_vfd_cache in
    let count = new_cache_size n - n - 1 in
    let size : new_cache_size n ≡ n + count + 1 = ground arith in
    (
      refl,
      pos,
      IsFreeList-upward (enlarged s).next_free n count (λ i le lt. ground arith) (ground arith),
    )

pub IsFreeList-start :
    (m : ℕ → ℕ) (a b : ℕ) (frees : List ℕ) → m b ≡ m a → IsFreeList m a frees → IsFreeList m b frees
IsFreeList-start m a b [] e l = e ∙ l
IsFreeList-start m a b (f ∷ frees) e (l, pos, more) = (e ∙ l, pos, more)

Lacks-upward : (a count : ℕ) → Lacks 0 (upward a count)
Lacks-upward a zero = tt
Lacks-upward a (suc count) = ((λ q. omega (arith, q)), Lacks-upward (a + 1) count)

module _ (sys : System) (gives : (n : ℕ) (h : List Call) → (sys.os (allocate n ∷ h)).ret ≢ 0) where
  -- Where malloc and realloc succeed, the ring lists the open files and no slot is free, allocate_vfd
  -- doubles the slots, to 32 at least, and gives the first new one; the other new slots are the
  -- free list, in order, and the ring still lists the open files.
  allocate_vfd-grows :
      (s : Files) (order : List ℕ)
      → IsCache s order
      → 0 < s.size_vfd_cache
      → s.next_free 0 ≡ 0
      → (t : Files) × (allocate_vfd sys s ≡ ok s.size_vfd_cache t)
        × (t.size_vfd_cache ≡ new_cache_size s.size_vfd_cache)
        × IsFreeList t.next_free 0
            (upward s.size_vfd_cache (new_cache_size s.size_vfd_cache - s.size_vfd_cache - 1))
        × IsCache t order
  unfolding allocate_vfd enlarged cleared_entries call
  allocate_vfd-grows s order v pos full =
      let n = s.size_vfd_cache in
      let up = upward n (new_cache_size n - n - 1) in
      let given = gives (new_cache_size n) s.history in
      let some_yet : (n == 0) ≡ false = ground arith in
      let got : ((sys.os (allocate (new_cache_size n) ∷ s.history)).ret == 0) ≡ false =
        ground arith in
      let called : Files = record s { history = allocate (new_cache_size n) ∷ s.history } in
      let w = enlarged-IsCache called order pos (IsCache-data s _ _ _ _ _ _ order v) in
      let m = (enlarged called).next_free in
      let (_, _, l) = enlarged-IsFreeList called pos in
      let popped = put m 0 (m n) in
      let rest =
        IsFreeList-same m popped 0 n up (λ i ne. ground arith)
          ((λ q. ground arith), Lacks-upward n _) l in
      (
        record (enlarged called) { next_free = popped },
        rw (some_yet, full, got) refl,
        refl,
        IsFreeList-start popped n 0 up (ground arith) rest,
        IsCache-data (enlarged called) _ _ _ _ _ _ order w,
      )

  -- Where malloc and realloc succeed and no file is open, the first allocate_vfd makes 32 slots and
  -- gives slot 1; slots 2 to 31 are the free list, in order, and the ring is empty.
  allocate_vfd-first :
      (s : Files)
      → s.size_vfd_cache ≡ 0
      → s.nfile ≡ 0
      → (t : Files) × (allocate_vfd sys s ≡ ok 1 t)
        × (t.size_vfd_cache ≡ 32)
        × IsFreeList t.next_free 0 (upward 1 30)
        × IsCache t []
  unfolding allocate_vfd cleared_entries call
  allocate_vfd-first s none_yet closed =
      let given = gives 1 s.history in
      let got : ((sys.os (allocate 1 ∷ s.history)).ret == 0) ≡ false = ground arith in
      let header : Files =
        record (cleared_entries 0 1 (record s { history = allocate 1 ∷ s.history })) {
          size_vfd_cache = 1;
        } in
      let empty : IsCache header [] = record {
        ring = (refl, refl);
        distinct = (tt, tt);
        sized = tt;
        opened = tt;
        closed = λ f lt _. ground arith;
        count = closed;
      } in
      let (t, run, size, free, cache) = allocate_vfd-grows header [] empty (ground arith) refl in
      (t, rw (none_yet, got) run, size, free, cache)
