-- ===== src/FileCache/Descriptors.antt =====
-- Getting descriptors in fd.c: the loops that close files for them end.
use mathlib.Core.Path.{subst}
use postgres_v.Base.{
  ℕ, zero, suc, ◌+◌, ◌-◌, ◌^◌, ◌≤◌, ◌<◌, ◌≡◌, ◌≢◌, ◌⊎◌, refl, sym, ap, ◌∙◌, inl, inr, true, false,
  ◌||◌, Option, List, [], ◌∷◌, ◌++◌, length, arith, ltb, leb, ◌==◌, All-split, Bool-cases,
}
use postgres_v.Rings.{Lacks}
use postgres_v.FileCache.{
  Call, as_short, System, Files, ok, minus_one, is_negative, emfile, enfile, open_file, call,
  pg_nofile, make_room, basic_open_file,
}
use postgres_v.FileCache.Valid.{IsCache, IsReliable, IsKept, IsKept-same, IsKept-trans}
use postgres_v.FileCache.Lru.{IsClosed, release_lru_file-IsClosed}

-- the last call opened a file; its reply is `r`, or it failed and `r` is -1
abbrev pub Opens :
    (sys : System) → (name : Option (List ℕ)) → (flags mode r : ℕ) → List Call → Type 0
Opens sys name flags mode r h =
    ((before : List Call) × (h ≡ open_file name flags mode ∷ before))
    × (((r ≡ minus_one) × (is_negative (sys.os h).ret ≡ true))
        ⊎ ((r ≡ (sys.os h).ret) × (is_negative r ≡ false)))

-- a result of basic_open_file as a short
Opens-as_short :
    (sys : System) (name : Option (List ℕ)) (flags mode r : ℕ) (h : List Call)
    → IsReliable sys
    → Opens sys name flags mode r h
    → Opens sys name flags mode (as_short r) h
unfolding as_short
Opens-as_short sys name flags mode r h rel (opened, inl (e, fails)) =
    (opened, inl (rw e refl, fails))
Opens-as_short sys name flags mode r h rel ((before, e), inr (reply, sign)) =
    let small : r < 2 ^ 15 = elim (rel.opens name flags mode before) [
      | inl n ↦ absurd (
          let same : r ≡ (sys.os (open_file name flags mode ∷ before)).ret =
            subst (λ k. r ≡ (sys.os k).ret) e reply in
          ground arith)
      | inr lt ↦
          (let same : r ≡ (sys.os (open_file name flags mode ∷ before)).ret =
              subst (λ k. r ≡ (sys.os k).ret) e reply in
            omega (arith, same, lt))
    ] in
    let kept : as_short r ≡ r = ground arith in ((before, e), inr (kept ∙ reply, rw kept sign))

-- some of the least recently used files were closed, and `rest` are open
pub record IsShed (s : Files) (order : List ℕ) (t : Files) (rest : List ℕ) : Type 0 where
  pub older : (gone : List ℕ) × (order ≡ gone ++ rest)
  pub cache : IsCache t rest
  pub kept : IsKept s t
  pub positions : (f : ℕ) → Lacks f order → t.seek_pos f ≡ s.seek_pos f

IsShed-none : (s : Files) (order : List ℕ) → IsCache s order → IsShed s order s order
IsShed-none s order v = record {
  older = ([], refl);
  cache = v;
  kept = IsKept-same s;
  positions = λ f lacks. refl;
}

IsShed-IsClosed :
    (sys : System) (s : Files) (order : List ℕ) (t : Files) (file : ℕ) (more : List ℕ) (u : Files)
    (rest : List ℕ)
    → order ≡ file ∷ more
    → IsClosed sys s t file
    → IsShed t more u rest
    → IsShed s order u rest
IsShed-IsClosed sys s order t file more u rest split closed shed = record {
  older = (file ∷ shed.older.0, split ∙ ap (λ o. file ∷ o) shed.older.1);
  cache = shed.cache;
  kept = IsKept-trans s t u closed.kept shed.kept;
  positions = λ f lacks.
      let (ne, out) = subst (λ o. Lacks f o) split lacks in
      shed.positions f out ∙ closed.positions f (λ q. ne (sym q));
}

IsShed-trans :
    (s : Files) (order : List ℕ) (t : Files) (mid : List ℕ) (u : Files) (rest : List ℕ)
    → IsShed s order t mid
    → IsShed t mid u rest
    → IsShed s order u rest
IsShed-trans s order t mid u rest a b =
    let (gone, e) = a.older in
    let (more, f) = b.older in
    record {
      older = (gone ++ more, e ∙ ap (λ o. gone ++ o) f ∙ append-assoc gone more rest);
      cache = b.cache;
      kept = IsKept-trans s t u a.kept b.kept;
      positions = λ f lacks.
          let out = subst (λ o. Lacks f o) e lacks in
          b.positions f (All-split (λ g. f ≢ g) gone mid out).1 ∙ a.positions f lacks;
    }
  where
    append-assoc : (xs ys zs : List ℕ) → xs ++ (ys ++ zs) ≡ (xs ++ ys) ++ zs
    append-assoc [] ys zs = refl
    append-assoc (x ∷ xs) ys zs = ap (λ o. x ∷ o) (append-assoc xs ys zs)

pub IsShed-Lacks :
    (s : Files) (order : List ℕ) (t : Files) (rest : List ℕ) (f : ℕ)
    → IsShed s order t rest
    → Lacks f order
    → Lacks f rest
IsShed-Lacks s order t rest f shed lacks =
    let (gone, e) = shed.older in
    (All-split (λ g. f ≢ g) gone rest (subst (λ o. Lacks f o) e lacks)).1

module _ (sys : System) (rel : IsReliable sys) where
  -- Where the ring lists the open files and the system allows 20 descriptors or more, a round of fuel
  -- for each open file and one more let the loop of lru_insert end: it closes the least recently used
  -- files until descriptors are below the limit or no file is open.
  pub make_room-IsShed :
      (fuel : ℕ) (s : Files) (order : List ℕ)
      → IsCache s order
      → 20 ≤ sys.nofile
      → length order < fuel
      → (t : Files) × (rest : List ℕ) × (make_room sys fuel s ≡ ok tt t)
        × IsShed s order t rest
        × ((t.nfile + length t.allocated_files < sys.nofile - 10) ⊎ (rest ≡ []))
  unfolding make_room pg_nofile
  make_room-IsShed zero s order v le lt = ground arith
  make_room-IsShed (suc fuel) s order v le lt =
      let g : ltb sys.nofile 20 ≡ false = ground arith in
      elim (Bool-cases (leb (sys.nofile - 10) (s.nfile + length s.allocated_files))) [
        | inr e ↦ (s, order, rw (g, e) refl, IsShed-none s order v, inl (ground arith))
        | inl e ↦ elim (release_lru_file-IsClosed sys rel s order v) [
          | inl (nil, run) ↦ (s, order, rw (g, e, run) refl, IsShed-none s order v, inr nil)
          | inr (file, rest, split, t, run, valid, closed) ↦
              let shorter : length rest < fuel =
                let lt2 = subst (λ o. length o < suc fuel) split lt in omega arith in
              let (u, last, again, shed, ends) = make_room-IsShed fuel t rest valid le shorter in
              (
                u,
                last,
                rw (g, e, run) again,
                IsShed-IsClosed sys s order t file rest u last split closed shed,
                ends,
              )
        ]
      ]

  -- Where the ring lists the open files, a round of fuel for each and one more let basic_open_file end:
  -- it has closed some of the least recently used files, its last call opened the file, and it
  -- returns the reply, or -1 if the call failed.
  pub basic_open_file-IsShed :
      (fuel : ℕ) (s : Files) (order : List ℕ) (name : Option (List ℕ)) (flags mode : ℕ)
      → IsCache s order
      → length order < fuel
      → (r : ℕ) × (t : Files) × (rest : List ℕ) × (basic_open_file sys fuel name flags mode s
          ≡ ok r t)
        × IsShed s order t rest
        × Opens sys name flags mode r t.history
  unfolding basic_open_file call
  basic_open_file-IsShed zero s order name flags mode v lt = ground arith
  basic_open_file-IsShed (suc fuel) s order name flags mode v lt =
      let reply = sys.os (open_file name flags mode ∷ s.history) in
      let called = record s { history = open_file name flags mode ∷ s.history } in
      let valid : IsCache called order = record {
        ring = v.ring;
        distinct = v.distinct;
        sized = v.sized;
        opened = v.opened;
        closed = v.closed;
        count = v.count;
      } in
      let none_closed : IsShed s order called order = record {
        older = ([], refl);
        cache = valid;
        kept = IsKept-called;
        positions = λ f lacks. refl;
      } in
      elim (Bool-cases (is_negative reply.ret)) [
        | inr e ↦
            (reply.ret, called, order, rw e refl, none_closed, ((s.history, refl), inr (refl, e)))
        | inl e ↦ elim (Bool-cases (reply.errno == emfile || reply.errno == enfile)) [
          | inr f ↦ (
            minus_one,
            called,
            order,
            rw (e, f) refl,
            none_closed,
            ((s.history, refl), inl (refl, e)),
          )
          | inl f ↦ elim (release_lru_file-IsClosed sys rel called order valid) [
            | inl (nil, run) ↦ (
              minus_one,
              called,
              order,
              rw (e, f, run) refl,
              none_closed,
              ((s.history, refl), inl (refl, e)),
            )
            | inr (file, rest, split, t, run, cache, closed) ↦
                let shorter : length rest < fuel =
                  let lt2 = subst (λ o. length o < suc fuel) split lt in omega arith in
                let (r, u, last, again, shed, ends) =
                  basic_open_file-IsShed fuel t rest name flags mode cache shorter in
                let both = IsShed-IsClosed sys called order t file rest u last split closed shed in
                (
                  r,
                  u,
                  last,
                  rw (e, f, run) again,
                  record {
                    older = both.older;
                    cache = both.cache;
                    kept = IsKept-trans s called u IsKept-called both.kept;
                    positions = both.positions;
                  },
                  ends,
                )
          ]
        ]
      ]
    where
      IsKept-called : IsKept s (record s { history = open_file name flags mode ∷ s.history })
      IsKept-called = record {
        filename = refl;
        file_flags = refl;
        file_mode = refl;
        temporary = refl;
        next_free = refl;
        size = refl;
        allocated_files = refl;
      }

  -- the two loops one after the other, as in `lru_insert` and `file_name_open_file_aux`
  pub descriptor_lem :
      (s : Files) (order : List ℕ) (name : Files → Option (List ℕ)) (flags mode : Files → ℕ)
      → IsCache s order
      → 20 ≤ sys.nofile
      → (t : Files) × (u : Files) × (result : ℕ) × (rest : List ℕ) × (make_room sys (suc s.nfile) s
          ≡ ok tt t)
        × (basic_open_file sys (suc t.nfile) (name t) (flags t) (mode t) t ≡ ok result u)
        × IsShed s order u rest
        × IsKept s t
        × Opens sys (name t) (flags t) (mode t) (as_short result) u.history
  descriptor_lem s order name flags mode v le =
      let c = v.count in
      let (t, mid, room, shed, _) = make_room-IsShed (suc s.nfile) s order v le (omega arith) in
      let d = shed.cache.count in
      let (result, u, rest, run, more, opens) =
        basic_open_file-IsShed (suc t.nfile) t mid (name t) (flags t) (mode t) shed.cache
          (omega arith) in
      (
        t,
        u,
        result,
        rest,
        room,
        run,
        IsShed-trans s order t mid u rest shed more,
        shed.kept,
        Opens-as_short sys (name t) (flags t) (mode t) result u.history rel opens,
      )
