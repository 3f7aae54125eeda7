-- ===== src/Dllist/Near.antt =====
-- When the links of dllist.c make a list, and what that says of an element and its neighbours.
use postgres_v.Base.{
  ℕ, ◌≡◌, ◌≢◌, sym, ap, ◌∙◌, List, [], ◌∷◌, ◌++◌, arith, All, All-parts, All-split,
}
use postgres_v.Rings.{
  Links, store, Seg, Ring, Lacks, Distinct, last, head_or, Seg-last, Seg-at, Distinct-without,
  Lacks-last, Lacks-head_or,
}
use postgres_v.Dllist.{Dllists}

-- the links of the elements, with the head and the tail of the list as those of NULL
abbrev pub links_of : Dllists → (l : ℕ) → Links
links_of s l = record {
  prev = store s.dle_prev 0 (s.dll_tail l);
  next = store s.dle_next 0 (s.dll_head l);
}

pub record IsDllist (s : Dllists) (l : ℕ) (xs : List ℕ) : Type 0 where
  pub ring : Ring (links_of s l) 0 xs
  pub distinct : Distinct (0 ∷ xs)
  pub owned : All (λ x. s.dle_list x ≡ l) xs

-- the same links
pub Seg-same :
    (m k : Links) (a z : ℕ) (xs : List ℕ)
    → ((i : ℕ) → k.prev i ≡ m.prev i)
    → ((i : ℕ) → k.next i ≡ m.next i)
    → Seg m a xs z
    → Seg k a xs z
Seg-same m k a z [] ps ns (e, f) = (ns a ∙ e, ps z ∙ f)
Seg-same m k a z (x ∷ xs) ps ns (e, f, t) = (ns a ∙ e, ps x ∙ f, Seg-same m k x z xs ps ns t)

Seg-around :
    (m : Links) (a z e : ℕ) (xs ys : List ℕ)
    → Seg m a (xs ++ e ∷ ys) z
    → (m.next (last a xs) ≡ e) × (m.prev (head_or ys z) ≡ e)
Seg-around m a z e [] [] (f, g, (h, k)) = (f, k)
Seg-around m a z e [] (y ∷ ys) (f, g, (h, k, t)) = (f, k)
Seg-around m a z e (x ∷ xs) ys (f, g, t) = Seg-around m x z e xs ys t

Seg-first :
    (m : Links) (a z e : ℕ) (xs ys : List ℕ) → Seg m a (xs ++ e ∷ ys) z → m.prev (m.next a) ≡ a
Seg-first m a z e [] ys (f, g, t) = ap m.prev f ∙ g
Seg-first m a z e (x ∷ xs) ys (f, g, t) = ap m.prev f ∙ g

-- what a list with `e` in it says of `e` and its neighbours
pub record IsAt (s : Dllists) (l e : ℕ) : Type 0 where
  pub owner : s.dle_list e ≡ l
  pub nonzero : e ≢ 0
  pub before : e ≢ s.dle_prev e
  pub after : e ≢ s.dle_next e
  pub forward : store s.dle_next 0 (s.dll_head l) (s.dle_prev e) ≡ e
  pub backward : store s.dle_prev 0 (s.dll_tail l) (s.dle_next e) ≡ e
  pub first : store s.dle_prev 0 (s.dll_tail l) (s.dll_head l) ≡ 0
  pub head : s.dll_head l ≢ 0
  pub tail : s.dll_tail l ≢ 0

-- the neighbours, by the links of `e`
pub neighbours :
    (s : Dllists) (l e : ℕ) (xs ys : List ℕ)
    → IsDllist s l (xs ++ e ∷ ys)
    → (s.dle_prev e ≡ last 0 xs) × (s.dle_next e ≡ head_or ys 0) × (0 ≢ e) × Lacks e (xs ++ ys)
neighbours s l e xs ys v =
    let (ep, en) = Seg-at (links_of s l) 0 0 e xs ys v.ring in
    let (_, ne, _) = All-parts (λ x. 0 ≢ x) xs e ys v.distinct.0 in
    let (out, _) = Distinct-without e xs ys v.distinct.1 in (ground arith, ground arith, ne, out)

pub is_at : (s : Dllists) (l e : ℕ) (xs ys : List ℕ) → IsDllist s l (xs ++ e ∷ ys) → IsAt s l e
is_at s l e xs ys v =
    let (ep, en, ne, out) = neighbours s l e xs ys v in
    let (lx, ly) = All-split (λ x. e ≢ x) xs ys out in
    let (f, b) = Seg-around (links_of s l) 0 0 e xs ys v.ring in
    let (_, own, _) = All-parts (λ x. s.dle_list x ≡ l) xs e ys v.owned in
    let behind : e ≢ head_or ys 0 = Lacks-head_or e 0 ys ly (λ q. ne (sym q)) in
    let ahead : e ≢ last 0 xs = Lacks-last e 0 xs ((λ q. ne (sym q)), lx) in
    let start = Seg-first (links_of s l) 0 0 e xs ys v.ring in
    record {
      owner = own;
      nonzero = λ q. ne (sym q);
      before = λ q. ahead (q ∙ ep);
      after = λ q. behind (q ∙ en);
      forward = rw ep f;
      backward = rw en b;
      first = start;
      head = nonzero_head xs v.ring v.distinct.0;
      tail = λ q. nonzero_tail (sym q);
    }
  where
    nonzero_head :
        (xs : List ℕ)
        → Ring (links_of s l) 0 (xs ++ e ∷ ys)
        → Lacks 0 (xs ++ e ∷ ys)
        → s.dll_head l ≢ 0
    nonzero_head [] (f, _, _) (ne, _) q = ne (sym q ∙ f)
    nonzero_head (x ∷ xs) (f, _, _) (ne, _) q = ne (sym q ∙ f)

    nonzero_tail : 0 ≢ s.dll_tail l
    nonzero_tail q =
        last_nonzero xs v.distinct.0 (q ∙ (Seg-last (links_of s l) 0 0 (xs ++ e ∷ ys) v.ring).0)
      where
        last_nonzero : (xs : List ℕ) → Lacks 0 (xs ++ e ∷ ys) → 0 ≢ last 0 (xs ++ e ∷ ys)
        last_nonzero [] lacks = Lacks-last 0 e ys lacks
        last_nonzero (x ∷ xs) lacks = Lacks-last 0 x (xs ++ e ∷ ys) lacks
