-- ===== src/PgList/Chains.antt =====
-- What a store holds: lists of nodes, and how reads and writes see them.
use postgres_v.Base.{ℕ, suc, ◌≤◌, ◌<◌, ◌≡◌, ◌≢◌, Option, none, some, List, [], ◌∷◌, arith}
use postgres_v.PgList.{nil_ptr, Cell, Store, Run, ok, load, set_next, set_first, pfree, update}

-- a list as its nodes: address and element of each, in order
abbrev pub Nodes : Type 0
Nodes = List (ℕ × ℕ)

-- the pointer to the list
abbrev pub first : Nodes → ℕ
first [] = nil_ptr
first ((a, _) ∷ xs) = a

abbrev pub values : Nodes → List ℕ
values [] = []
values ((_, v) ∷ xs) = v ∷ values xs

-- the number of nodes
abbrev pub count : Nodes → ℕ
count [] = 0
count (_ ∷ xs) = suc (count xs)

abbrev pub cell_at : ℕ → ℕ → Option Cell
cell_at v q = some (record { elem = v; next = q })

-- the nodes stand in the store, each with a link to the next
abbrev pub Chain : (ℕ → Option Cell) → Nodes → Type 0
Chain h [] = Unit
Chain h ((a, v) ∷ xs) = (0 < a) × (h a ≡ cell_at v (first xs)) × Chain h xs

-- no node has the address
abbrev pub Avoids : ℕ → Nodes → Type 0
Avoids a [] = Unit
Avoids a ((b, _) ∷ xs) = (a ≢ b) × Avoids a xs

-- the addresses are distinct
abbrev pub IsDistinct : Nodes → Type 0
IsDistinct [] = Unit
IsDistinct ((a, _) ∷ xs) = Avoids a xs × IsDistinct xs

-- addresses from `brk` on are unused, and 0 is no address
abbrev pub IsStore : Store → Type 0
IsStore s = (0 < s.brk) × ((a : ℕ) → s.brk ≤ a → s.cell a ≡ none)

-- a run that ends normally, with a result and a store that satisfy `P`
abbrev pub Returns : {A : Type 0} → Run A → (A → Store → Type 0) → Type 0
Returns {A} r P = (a : A) × (s : Store) × (r ≡ ok a s) × P a s

pub load-ok :
    (a v q : ℕ) (s : Store)
    → 0 < a
    → s.cell a ≡ cell_at v q
    → load a s ≡ ok (record { elem = v; next = q }) s
unfolding load
load-ok a v q s pos e = ground arith

pub set_next-ok :
    (a v q r : ℕ) (s : Store)
    → 0 < a
    → s.cell a ≡ cell_at v q
    → set_next a r s ≡ ok tt (record s { cell = update s.cell a (cell_at v r) })
unfolding set_next
set_next-ok a v q r s pos e = rw (load-ok a v q s pos e)

pub set_first-ok :
    (a v q w : ℕ) (s : Store)
    → 0 < a
    → s.cell a ≡ cell_at v q
    → set_first a w s ≡ ok tt (record s { cell = update s.cell a (cell_at w q) })
unfolding set_first
set_first-ok a v q w s pos e = rw (load-ok a v q s pos e)

pub pfree-ok :
    (a v q : ℕ) (s : Store)
    → 0 < a
    → s.cell a ≡ cell_at v q
    → pfree a s ≡ ok tt (record s { cell = update s.cell a none })
unfolding pfree
pfree-ok a v q s pos e = rw (load-ok a v q s pos e)

-- a change elsewhere leaves the nodes in place
pub Chain-update :
    (h : ℕ → Option Cell) (a : ℕ) (c : Option Cell) (xs : Nodes)
    → Avoids a xs
    → Chain h xs
    → Chain (update h a c) xs
Chain-update h a c [] out t = tt
Chain-update h a c ((b, v) ∷ xs) out (pos, e, t) =
    (pos, ground arith, Chain-update h a c xs out.1 t)

-- an unused address is that of no node
pub Avoids-unused :
    (h : ℕ → Option Cell) (a : ℕ) (xs : Nodes) → h a ≡ none → Chain h xs → Avoids a xs
Avoids-unused h a [] e t = tt
Avoids-unused h a ((b, v) ∷ xs) e (pos, eb, t) =
    ((λ (p : a ≡ b). ground arith), Avoids-unused h a xs e t)
