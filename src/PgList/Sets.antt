-- ===== src/PgList/Sets.antt =====
-- The functions of list.c that read lists as sets.
pub mod Laws
use postgres_v.Base.{ℕ, zero, suc, ◌+◌, Bool, true, false, not, ◌==◌, if◌then◌else◌}
use postgres_v.PgList.{
  nil_ptr, Cmd, Run, out_of_fuel, ok, pure, ◌>>=◌, load, length, member, int_member, lappend,
  list_copy,
}

-- the loop of `same_seti` and `is_subseti`
subset_loop : (inner fuel x list2 : ℕ) → Cmd Bool
subset_loop inner zero x list2 = λ _. out_of_fuel
subset_loop inner (suc fuel) x list2 = if x == nil_ptr then pure true else (do
  c ← load x
  found ← int_member inner c.elem list2
  if found then subset_loop inner fuel c.next list2 else pure false)

pub is_subseti : (fuel list1 list2 : ℕ) → Cmd Bool
unfolding subset_loop
is_subseti fuel list1 list2 = subset_loop fuel fuel list1 list2

disjoint_loop : (inner fuel x list2 : ℕ) → Cmd Bool
disjoint_loop inner zero x list2 = λ _. out_of_fuel
disjoint_loop inner (suc fuel) x list2 = if x == nil_ptr then pure true else (do
  c ← load x
  found ← int_member inner c.elem list2
  if found then pure false else disjoint_loop inner fuel c.next list2)

pub non_overlap_setsi : (fuel list1 list2 : ℕ) → Cmd Bool
unfolding disjoint_loop
non_overlap_setsi fuel list1 list2 = disjoint_loop fuel fuel list1 list2

pub same_seti : (fuel list1 list2 : ℕ) → Cmd Bool
unfolding subset_loop
same_seti fuel list1 list2 =
    if list1 == nil_ptr
    then pure (list2 == nil_ptr)
    else (if list2 == nil_ptr then pure false else (do
      m ← length fuel list1
      n ← length fuel list2
      if m == n then subset_loop fuel fuel list1 list2 else pure false))

-- the loop of `set_difference` and `set_differencei`, with their test
difference_loop : (ℕ → ℕ → Cmd Bool) → (inner fuel i list2 result : ℕ) → Cmd ℕ
difference_loop is_member inner zero i list2 result = λ _. out_of_fuel
difference_loop is_member inner (suc fuel) i list2 result =
    if i == nil_ptr then pure result else (do
      c ← load i
      found ← is_member c.elem list2
      (if found then difference_loop is_member inner fuel c.next list2 result else (do
        longer ← lappend inner result c.elem
        difference_loop is_member inner fuel c.next list2 longer)))

pub set_difference : (fuel list1 list2 : ℕ) → Cmd ℕ
unfolding difference_loop
set_difference fuel list1 list2 =
    if list2 == nil_ptr
    then list_copy fuel list1
    else difference_loop (λ d l. pure (member d l)) fuel fuel list1 list2 nil_ptr

pub set_differencei : (fuel list1 list2 : ℕ) → Cmd ℕ
unfolding difference_loop
set_differencei fuel list1 list2 =
    if list2 == nil_ptr
    then list_copy fuel list1
    else difference_loop (int_member fuel) fuel fuel list1 list2 nil_ptr

union_loop : (ℕ → ℕ → Cmd Bool) → (inner fuel i retval : ℕ) → Cmd ℕ
union_loop is_member inner zero i retval = λ _. out_of_fuel
union_loop is_member inner (suc fuel) i retval = if i == nil_ptr then pure retval else (do
  c ← load i
  found ← is_member c.elem retval
  (if found then union_loop is_member inner fuel c.next retval else (do
    longer ← lappend inner retval c.elem
    union_loop is_member inner fuel c.next longer)))

pub lisp_union : (fuel list1 list2 : ℕ) → Cmd ℕ
unfolding union_loop
lisp_union fuel list1 list2 = do
  retval ← list_copy fuel list1
  union_loop (λ d l. pure (member d l)) fuel fuel list2 retval

pub lisp_unioni : (fuel list1 list2 : ℕ) → Cmd ℕ
unfolding union_loop
lisp_unioni fuel list1 list2 = do
  retval ← list_copy fuel list1
  union_loop (int_member fuel) fuel fuel list2 retval
