-- ===== src/FixedStack.antt =====
-- Stacks through a component of their structures: src/backend/utils/misc/fstack.c with the types of
-- src/include/rdbms/utils/fstack.h.
--
-- A pointer is a number, 0 for NULL. The memory maps the address of a FixedItemData to its `next`.
-- Addresses do not wrap around. `none` is an assertion that fails. The loop of
-- `fixed_stack_contains` takes fuel, a round for each item and one for the end.
pub mod Laws
pub mod Examples
use postgres_v.Base.{
  ℕ, zero, suc, ◌+◌, ◌-◌, Bool, true, false, Option, none, some, ◌==◌, if◌then◌else◌,
}

pub record FixedStack : Type 0 where
  pub top : ℕ
  pub offset : ℕ

-- the stack with the memory of its items
pub record State : Type 0 where
  pub stack : FixedStack
  pub next : ℕ → ℕ

-- FIXED_STACK_GET_ITEM_BASE, FIXED_STACK_GET_ITEM
abbrev pub get_item_base : FixedStack → ℕ → ℕ
get_item_base stack item = item - stack.offset

abbrev pub get_item : FixedStack → ℕ → ℕ
get_item stack pointer = pointer + stack.offset

pub fixed_stack_init : (offset : ℕ) → State → State
fixed_stack_init offset s = record s { stack = record { top = 0; offset = offset } }

pub fixed_stack_pop : State → ℕ × State
fixed_stack_pop s = if s.stack.top == 0 then (0, s) else (
  get_item_base s.stack s.stack.top,
  record s { stack = record s.stack { top = s.next s.stack.top } },
)

pub fixed_stack_push : (pointer : ℕ) → State → Option State
fixed_stack_push pointer s =
    let item = get_item s.stack pointer in
    if pointer == 0
    then none
    else some (record {
      stack = record s.stack { top = item };
      next = λ a. if item == a then s.stack.top else s.next a;
    })

pub fixed_stack_get_top : State → ℕ
fixed_stack_get_top s = if s.stack.top == 0 then 0 else get_item_base s.stack s.stack.top

-- the loop of `fixed_stack_contains`; `none` when the fuel runs out
pub contains_loop : (fuel : ℕ) → (ℕ → ℕ) → (next item : ℕ) → Option Bool
contains_loop zero mem next item = none
contains_loop (suc fuel) mem next item =
    let rest = contains_loop fuel mem (mem next) item in
    if next == 0 then some false else (if next == item then some true else rest)

pub fixed_stack_contains : (fuel : ℕ) → State → (pointer : ℕ) → Option Bool
unfolding contains_loop
fixed_stack_contains fuel s pointer =
    if pointer == 0 then none else contains_loop fuel s.next s.stack.top (get_item s.stack pointer)

pub fixed_stack_get_next : (fuel : ℕ) → State → (pointer : ℕ) → Option ℕ
unfolding fixed_stack_contains
fixed_stack_get_next fuel s pointer =
    let item = s.next (get_item s.stack pointer) in
    elim (fixed_stack_contains fuel s pointer) [
      | none ↦ none
      | some found ↦
          if found then some (if item == 0 then 0 else get_item_base s.stack item) else none
    ]
