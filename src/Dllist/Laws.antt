-- ===== src/Dllist/Laws.antt =====
-- The lists of dllist.c as lists of their elements.
use mathlib.Core.Path.{subst}
use postgres_v.Base.{
  ℕ, ◌≡◌, ◌≢◌, ◌⊎◌, refl, sym, ◌∙◌, inl, inr, true, false, not, ◌||◌, some, List, [], ◌∷◌, ◌++◌,
  arith, ◌==◌, if◌then◌else◌, All-parts, All-append, All-zip, Bool-cases,
}
use postgres_v.Rings.{
  store, Seg, Lacks, last, head_or, Seg-last, inserted, Seg-inserted, unlinked, Seg-unlinked,
  cleared, Seg-cleared, Distinct-without, Distinct-append, Lacks-last,
}
use postgres_v.Dllist.{Dllists, dl_remove, dl_add_head, dl_add_tail, dl_move_to_front}
use postgres_v.Dllist.Near.{links_of, IsDllist, Seg-same, neighbours, is_at}

-- what DLRemove and DLMoveToFront leave, of an element of `l`
abbrev removed : Dllists → (l e : ℕ) → Dllists
removed s l e =
    let p = s.dle_prev e in
    let n = s.dle_next e in
    record s {
      dll_head = if p == 0 then store s.dll_head l n else s.dll_head;
      dll_tail = if n == 0 then store s.dll_tail l p else s.dll_tail;
      dle_next = store (if p == 0 then s.dle_next else store s.dle_next p n) e 0;
      dle_prev = store (if n == 0 then s.dle_prev else store s.dle_prev n p) e 0;
      dle_list = store s.dle_list e 0;
    }

abbrev moved : Dllists → (l e : ℕ) → Dllists
moved s l e =
    let p = s.dle_prev e in
    let n = s.dle_next e in
    record s {
      dll_head = store s.dll_head l e;
      dll_tail = if n == 0 then store s.dll_tail l p else s.dll_tail;
      dle_next = store (store s.dle_next p n) e (s.dll_head l);
      dle_prev =
          store (store (if n == 0 then s.dle_prev else store s.dle_prev n p) (s.dll_head l) e) e 0;
    }

-- the same fields
pub record IsSame (s t : Dllists) : Type 0 where
  pub heads : (i : ℕ) → s.dll_head i ≡ t.dll_head i
  pub tails : (i : ℕ) → s.dll_tail i ≡ t.dll_tail i
  pub nexts : (i : ℕ) → s.dle_next i ≡ t.dle_next i
  pub prevs : (i : ℕ) → s.dle_prev i ≡ t.dle_prev i
  pub lists : (i : ℕ) → s.dle_list i ≡ t.dle_list i

-- DLMoveToFront of an element of a list does what DLRemove followed by DLAddHead does: both succeed,
-- and every field ends with the same value.
pub dl_move_to_front-IsSame :
    (s : Dllists) (l e : ℕ) (xs ys : List ℕ)
    → IsDllist s l (xs ++ e ∷ ys)
    → (t : Dllists) × (u : Dllists) × (dl_move_to_front e s ≡ some t)
      × (dl_remove e s ≡ some u)
      × IsSame t (dl_add_head l e u)
unfolding dl_move_to_front dl_remove dl_add_head
dl_move_to_front-IsSame s l e xs ys v =
    let at = is_at s l e xs ys v in
    let ow = at.owner in
    let nz = at.nonzero in
    let fo = at.forward in
    let ba = at.backward in
    let fi = at.first in
    let hd = at.head in
    let tl = at.tail in
    let bf = at.before in
    let af = at.after in
    let g1 : (not (s.dle_prev e == 0) || e == s.dll_head l) ≡ true = ground arith in
    let g2 : (not (s.dle_next e == 0) || e == s.dll_tail l) ≡ true = ground arith in
    elim (Bool-cases (s.dll_head l == e)) [
      | inl h ↦ (
        s,
        removed s l e,
        rw (ow, h) refl,
        rw (ow, g1, g2) refl,
        record {
          heads = λ i. ground arith;
          tails = λ i. ground arith;
          nexts = λ i. ground arith;
          prevs = λ i. ground arith;
          lists = λ i. ground arith;
        },
      )
      | inr h ↦
          let g3 : (not (s.dle_prev e == 0)) ≡ true = ground arith in
          (
            moved s l e,
            removed s l e,
            rw (ow, h, g3, g2) refl,
            rw (ow, g1, g2) refl,
            record {
              heads = λ i. ground arith;
              tails = λ i. ground arith;
              nexts = λ i. ground arith;
              prevs = λ i. ground arith;
              lists = λ i. ground arith;
            },
          )
    ]

-- DLRemove of an element of a list leaves the list of the others in their order, and the element is
-- on no list then.
pub dl_remove-IsDllist :
    (s : Dllists) (l e : ℕ) (xs ys : List ℕ)
    → IsDllist s l (xs ++ e ∷ ys)
    → (t : Dllists) × (dl_remove e s ≡ some t) × IsDllist t l (xs ++ ys) × (t.dle_list e ≡ 0)
unfolding dl_remove
dl_remove-IsDllist s l e xs ys v =
    let at = is_at s l e xs ys v in
    let (ep, en, ne, out) = neighbours s l e xs ys v in
    let ow = at.owner in
    let fo = at.forward in
    let ba = at.backward in
    let g1 : (not (s.dle_prev e == 0) || e == s.dll_head l) ≡ true = ground arith in
    let g2 : (not (s.dle_next e == 0) || e == s.dll_tail l) ≡ true = ground arith in
    let m = links_of s l in
    let cut = Seg-unlinked m 0 0 e xs ys v.ring v.distinct v.distinct.0 in
    let gone =
      Seg-cleared (unlinked m (last 0 xs) (head_or ys 0)) 0 0 e 0 (xs ++ ys) cut
        ((λ q. ne (sym q)), out) (λ q. ne (sym q)) in
    let (a, _, b) = All-parts (λ x. s.dle_list x ≡ l) xs e ys v.owned in
    (
      removed s l e,
      rw (ow, g1, g2) refl,
      record {
        ring =
            Seg-same (cleared (unlinked m (s.dle_prev e) (s.dle_next e)) e 0)
              (links_of (removed s l e) l) 0 0 (xs ++ ys) (λ i. ground arith) (λ i. ground arith)
              (rw (ep, en) gone);
        distinct = (Distinct-without e (0 ∷ xs) ys v.distinct).1;
        owned =
            All-zip (λ x. s.dle_list x ≡ l) (λ x. e ≢ x) (λ x. store s.dle_list e 0 x ≡ l)
              (λ x o n. ground arith) (xs ++ ys) (All-append (λ x. s.dle_list x ≡ l) xs ys a b) out;
      },
      ground arith,
    )

-- the head and the tail are NULL together
ends :
    (s : Dllists) (l : ℕ) (xs : List ℕ)
    → IsDllist s l xs
    → ((s.dll_head l ≡ 0) × (s.dll_tail l ≡ 0)) ⊎ ((s.dll_head l ≢ 0) × (s.dll_tail l ≢ 0))
ends s l [] v = inl (v.ring.0, v.ring.1)
ends s l (x ∷ xs) v =
    let ne = v.distinct.0 in
    let (e, _) = Seg-last (links_of s l) 0 0 (x ∷ xs) v.ring in
    inr ((λ q. ne.0 (sym q ∙ v.ring.0)), λ q. Lacks-last 0 x xs ne (sym q ∙ e))

-- DLAddTail puts an element that is not on the list behind the last one, and the others stay in order.
dl_add_tail-IsDllist :
    (s : Dllists) (l e : ℕ) (xs : List ℕ)
    → IsDllist s l xs
    → Lacks e (0 ∷ xs)
    → IsDllist (dl_add_tail l e s) l (xs ++ e ∷ [])
unfolding dl_add_tail
dl_add_tail-IsDllist s l e xs v (nz, out) =
    let m = links_of s l in
    let (et, _) = Seg-last m 0 0 xs v.ring in
    let ring =
      subst (λ p. Seg (inserted m 0 e p) 0 (xs ++ e ∷ []) 0) (sym et)
        (Seg-inserted m 0 0 e xs v.ring (nz, out) nz v.distinct.0 v.distinct) in
    record {
      ring = elim (ends s l xs v) [
        | inl (h, t) ↦
            Seg-same (inserted m 0 e (s.dll_tail l)) (links_of (dl_add_tail l e s) l) 0 0
              (xs ++ e ∷ []) (λ i. ground arith) (λ i. ground arith) ring
        | inr (h, t) ↦
            let hz : (s.dll_head l == 0) ≡ false = ground arith in
            let tz : (s.dll_tail l == 0) ≡ false = ground arith in
            let apart : e ≢ s.dll_tail l = λ q. Lacks-last e 0 xs (nz, out) (q ∙ et) in
            Seg-same (inserted m 0 e (s.dll_tail l)) (links_of (dl_add_tail l e s) l) 0 0
              (xs ++ e ∷ []) (λ i. ground arith) (λ i. rw (hz, tz) (ground arith)) ring
      ];
      distinct = (
        All-append (λ x. 0 ≢ x) xs (e ∷ []) v.distinct.0 ((λ q. nz (sym q)), tt),
        Distinct-append e xs out v.distinct.1,
      );
      owned =
          All-append (λ x. store s.dle_list e l x ≡ l) xs (e ∷ [])
            (All-zip (λ x. s.dle_list x ≡ l) (λ x. e ≢ x) (λ x. store s.dle_list e l x ≡ l)
              (λ x o n. ground arith) xs v.owned out)
            ((let here : (e == e) ≡ true = ground arith in rw here refl), tt);
    }
