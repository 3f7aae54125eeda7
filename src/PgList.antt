-- ===== src/PgList.antt =====
-- List nodes: src/backend/nodes/list.c with the macros of src/include/rdbms/nodes/pg_list.h.
--
-- A pointer is a number, 0 for NIL. A cell holds its element (the union's pointer or int, as a
-- number) and its `next` pointer; the node tag is always T_List. The store maps addresses to cells.
-- `palloc` hands out the address `brk` and steps on: an address is not used twice, and every one
-- from `brk` on is unused. A `while` or `FOR_EACH` loop takes fuel, one round for each node and one
-- for the end; every theorem about a call says how much is enough. `int` arguments that count are
-- natural numbers (0 for those that are not positive). `equal`, of equalfuncs.c, is an argument.
pub mod Chains
pub mod Change
pub mod Copy
pub mod Cut
pub mod Examples
pub mod Read
pub mod Sets
use postgres_v.Base.{
  ℕ, zero, suc, ◌+◌, ◌-◌, Bool, true, false, not, Option, none, some, List, [], ◌∷◌, ◌==◌,
  if◌then◌else◌,
}

-- NIL
abbrev pub nil_ptr : ℕ
nil_ptr = 0

pub record Cell : Type 0 where
  pub elem : ℕ
  pub next : ℕ

pub record Store : Type 0 where
  pub cell : ℕ → Option Cell
  pub brk : ℕ

-- `fault`: a read or write through NIL or a freed node; `error`: `elog(ERROR, …)`
pub data Run (A : Type 0) : Type 0 where
  ok : A → Store → Run A
  fault : Run A
  error : Run A
  out_of_fuel : Run A

abbrev pub Cmd : Type 0 → Type 0
Cmd A = Store → Run A

abbrev pub pure : {A : Type 0} → A → Cmd A
pure a s = ok a s

abbrev pub and_then : {A B : Type 0} → Run A → (A → Cmd B) → Run B
and_then (ok a s) f = f a s
and_then fault f = fault
and_then error f = error
and_then out_of_fuel f = out_of_fuel

infixl 5 ◌>>=◌ ◌>>◌
abbrev pub ◌>>=◌ : {A B : Type 0} → Cmd A → (A → Cmd B) → Cmd B
◌>>=◌ m f s = and_then (m s) f

abbrev pub ◌>>◌ : {B : Type 0} → Cmd (Unit {0}) → Cmd B → Cmd B
m >> k = m >>= λ _. k

abbrev pub update : (ℕ → Option Cell) → ℕ → Option Cell → ℕ → Option Cell
update h p c q = if p == q then c else h q

-- `*l`
unfoldable pub load : ℕ → Cmd Cell
load l s = if l == nil_ptr then fault else elim (s.cell l) [ none ↦ fault | some c ↦ ok c s ]

-- LNEXT(l) = q, LFIRST(l) = v
unfoldable pub set_next : (l q : ℕ) → Cmd (Unit {0})
unfolding load
set_next l q = do
  c ← load l
  λ s. ok tt (record s { cell = update s.cell l (some (record c { next = q })) })

unfoldable pub set_first : (l v : ℕ) → Cmd (Unit {0})
unfolding load
set_first l v = do
  c ← load l
  λ s. ok tt (record s { cell = update s.cell l (some (record c { elem = v })) })

unfoldable pub pfree : ℕ → Cmd (Unit {0})
unfolding load
pfree l = do _ ← load l; λ s. ok tt (record s { cell = update s.cell l none })

length_loop : (fuel l i : ℕ) → Cmd ℕ
length_loop zero l i = λ _. out_of_fuel
length_loop (suc fuel) l i =
    if l == nil_ptr then pure i else do c ← load l; length_loop fuel c.next (i + 1)

pub length : (fuel l : ℕ) → Cmd ℕ
unfolding length_loop
length fuel l = length_loop fuel l 0

-- the walk of `nconc` to the last node, whose result the C function does not use
nconc_walk : (fuel temp : ℕ) → Cmd ℕ
nconc_walk zero temp = λ _. out_of_fuel
nconc_walk (suc fuel) temp = do
  c ← load temp
  if c.next == nil_ptr then pure temp else nconc_walk fuel c.next

-- `LNEXT(list1) = list2` is what the code says: not `LNEXT(temp)`
pub nconc : (fuel list1 list2 : ℕ) → Cmd ℕ
unfolding nconc_walk
nconc fuel list1 list2 =
    if list1 == nil_ptr
    then pure list2
    else (if list2 == nil_ptr
        then pure list1
        else (if list1 == list2
            then (λ _. error)
            else (do _ ← nconc_walk fuel list1; set_next list1 list2; pure list1)))

-- `lcons` and `lconsi`
pub lcons : (datum list : ℕ) → Cmd ℕ
lcons datum list s = ok s.brk (record {
  cell = update s.cell s.brk (some (record { elem = datum; next = list }));
  brk = s.brk + 1;
})

-- `member` is a stub in the source
pub member : (datum list : ℕ) → Bool
member datum list = false

pub int_member : (fuel datum i : ℕ) → Cmd Bool
int_member zero datum i = λ _. out_of_fuel
int_member (suc fuel) datum i =
    if i == nil_ptr
    then pure false
    else (do c ← load i; if datum == c.elem then pure true else int_member fuel datum c.next)

-- The loop over the arguments up to the terminator. `temp_cons` stays NIL in the source.
make_list_loop : List ℕ → (retval temp_cons : ℕ) → Cmd ℕ
unfolding lcons
make_list_loop [] retval temp_cons = pure retval
make_list_loop (e ∷ es) retval temp_cons = do
  temp ← lcons e nil_ptr
  (if temp_cons == nil_ptr
      then make_list_loop es temp temp_cons
      else set_next temp_cons temp >> make_list_loop es retval temp_cons)

pub make_list : List ℕ → Cmd ℕ
unfolding make_list_loop
make_list elems = make_list_loop elems nil_ptr nil_ptr

-- `lappend` and `lappendi`
pub lappend : (fuel list datum : ℕ) → Cmd ℕ
unfolding nconc lcons
lappend fuel list datum = do cell ← lcons datum nil_ptr; nconc fuel list cell

-- the loop that leaves `l` at the first node whose element passes the test, and `prev` before it
find_prev : (fuel : ℕ) → (ℕ → Bool) → (l prev : ℕ) → Cmd (ℕ × ℕ)
find_prev zero test l prev = λ _. out_of_fuel
find_prev (suc fuel) test l prev =
    if l == nil_ptr
    then pure (l, prev)
    else (do c ← load l; if test c.elem then pure (l, prev) else find_prev fuel test c.next l)

pub unlink : (list l prev : ℕ) → Cmd ℕ
unlink list l prev =
    if l == nil_ptr
    then pure list
    else (do c ← load l; if prev == nil_ptr then pure c.next else set_next prev c.next >> pure list)

remove_first : (fuel : ℕ) → (ℕ → Bool) → (list : ℕ) → Cmd ℕ
unfolding find_prev unlink
remove_first fuel test list = do (l, prev) ← find_prev fuel test list nil_ptr; unlink list l prev

pub lremove : (fuel elem list : ℕ) → Cmd ℕ
unfolding remove_first
lremove fuel elem list = remove_first fuel (λ v. elem == v) list

pub lisp_remove : (equal : ℕ → ℕ → Bool) → (fuel elem list : ℕ) → Cmd ℕ
unfolding remove_first
lisp_remove equal fuel elem list = remove_first fuel (equal elem) list

-- the loop cuts behind the n-th node; `n` counts down before the test
truncate_loop : (fuel n ptr : ℕ) → Cmd (Unit {0})
truncate_loop zero n ptr = λ _. out_of_fuel
truncate_loop (suc fuel) n ptr =
    if ptr == nil_ptr
    then pure tt
    else (if n - 1 == 0
        then set_next ptr nil_ptr
        else (do c ← load ptr; truncate_loop fuel (n - 1) c.next))

pub ltruncate : (fuel n list : ℕ) → Cmd ℕ
unfolding truncate_loop
ltruncate fuel n list = if n == 0 then pure nil_ptr else (do truncate_loop fuel n list; pure list)

-- the walk of `nth`, `nthi` and `set_nth`
walk : (n l : ℕ) → Cmd ℕ
walk zero l = pure l
walk (suc n) l = do c ← load l; walk n c.next

-- `nth` and `nthi`
pub nth : (n l : ℕ) → Cmd ℕ
unfolding walk
nth n l = do p ← walk n l; c ← load p; pure c.elem

pub set_nth : (l n elem : ℕ) → Cmd (Unit {0})
unfolding walk
set_nth l n elem = do p ← walk n l; set_first p elem

pub free_list : (fuel list : ℕ) → Cmd (Unit {0})
free_list zero list = λ _. out_of_fuel
free_list (suc fuel) list =
    if list == nil_ptr then pure tt else (do c ← load list; pfree list; free_list fuel c.next)

copy_loop : (fuel l nl : ℕ) → Cmd (Unit {0})
unfolding lcons
copy_loop zero l nl = λ _. out_of_fuel
copy_loop (suc fuel) l nl =
    if l == nil_ptr
    then pure tt
    else (do c ← load l; new ← lcons c.elem nil_ptr; set_next nl new; copy_loop fuel c.next new)

pub list_copy : (fuel list : ℕ) → Cmd ℕ
unfolding copy_loop
list_copy fuel list = do c ← load list; nl ← lcons c.elem nil_ptr; copy_loop fuel c.next nl; pure nl
