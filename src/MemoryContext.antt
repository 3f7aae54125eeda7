-- ===== src/MemoryContext.antt =====
-- The tree of memory contexts: src/backend/utils/mmgr/mctx.c with src/include/rdbms/nodes/memnodes.h
-- and src/include/rdbms/utils/memutils.h.
--
-- A context goes by its address, 0 is NULL; each field is a function of it. The methods of a context
-- are arguments where they return something; the others are recorded in `calls`, the newest one
-- first, since what they do is inside their context. `none` stands for a call that does not return:
-- an assertion that fails, elog(ERROR), or a loop that has run out of fuel.
pub mod Tree
pub mod Delete
pub mod Create
pub mod Examples
use postgres_v.Base.{
  ℕ, zero, suc, ◌+◌, ◌^◌, Bool, true, false, not, ◌&&◌, ◌||◌, Option, none, some, List, [], ◌∷◌,
  ltb, leb, ◌==◌, if◌then◌else◌, max_align,
}
use postgres_v.Rings.{store}

-- the methods init, reset, delete and free_p
pub data MethodCall : Type 0 where
  init_call reset_call delete_call : (context : ℕ) → MethodCall
  free_call : (context pointer : ℕ) → MethodCall

-- `header_context` and `header_size` have the header of the chunk at an address
pub record Contexts : Type 0 where
  pub node_type : ℕ → ℕ
  pub parent : ℕ → ℕ
  pub firstchild : ℕ → ℕ
  pub nextchild : ℕ → ℕ
  pub top : ℕ
  pub current : ℕ
  pub error : ℕ
  pub header_context : ℕ → ℕ
  pub header_size : ℕ → ℕ
  pub calls : List MethodCall

-- T_AllocSetContext
abbrev pub alloc_set_context : ℕ
alloc_set_context = 401

-- MEMORY_CONTEXT_IS_VALID
pub context_is_valid : Contexts → (context : ℕ) → Bool
context_is_valid s context = not (context == 0) && s.node_type context == alloc_set_context

-- ALLOC_SIZE_IS_VALID, up to MAX_ALLOC_SIZE
abbrev pub alloc_size_is_valid : (size : ℕ) → Bool
alloc_size_is_valid size = ltb 0 size && ltb size (2 ^ 30)

abbrev pub and_then : Option Contexts → (Contexts → Option Contexts) → Option Contexts
and_then none f = none
and_then (some s) f = f s

pub call_method : MethodCall → Contexts → Option Contexts
call_method c s = some (record s { calls = c ∷ s.calls })

pub pfree : (pointer : ℕ) → Contexts → Option Contexts
pfree pointer s =
    if not (pointer == 0)
      && (pointer == max_align pointer && context_is_valid s (s.header_context pointer))
    then call_method (free_call (s.header_context pointer) pointer) s
    else none

-- `reset_loop` is the loop of `memory_context_reset_children`, from `child` on. A round of fuel for each
-- context, and one for the end of each list of children.
mutual
  pub memory_context_reset : (fuel context : ℕ) → Contexts → Option Contexts
  memory_context_reset zero context s = none
  memory_context_reset (suc fuel) context s =
      let rest = reset_loop fuel (s.firstchild context) s in
      if context_is_valid s context then and_then rest (call_method (reset_call context)) else none

  pub reset_loop : (fuel child : ℕ) → Contexts → Option Contexts
  reset_loop zero child s = none
  reset_loop (suc fuel) child s =
      let rest =
        and_then (memory_context_reset fuel child s) (λ u. reset_loop fuel (u.nextchild child) u) in
      if child == 0 then some s else rest

pub memory_context_reset_children : (fuel context : ℕ) → Contexts → Option Contexts
memory_context_reset_children fuel context s =
    if context_is_valid s context then reset_loop fuel (s.firstchild context) s else none

-- the loop that looks for the child in front of the context
pub delink_loop : (fuel context child : ℕ) → Contexts → Option Contexts
delink_loop zero context child s = none
delink_loop (suc fuel) context child s =
    let rest = delink_loop fuel context (s.nextchild child) s in
    if child == 0
    then some s
    else (if context == s.nextchild child
        then some (record s { nextchild = store s.nextchild child (s.nextchild context) })
        else rest)

-- `if (context->parent)` with its block
pub delink : (fuel context : ℕ) → Contexts → Option Contexts
delink fuel context s =
    let p = s.parent context in
    if p == 0
    then some s
    else (if context == s.firstchild p
        then some (record s { firstchild = store s.firstchild p (s.nextchild context) })
        else delink_loop fuel context (s.firstchild p) s)

-- `delete_loop` is the loop of `memory_context_delete_children`
mutual
  pub memory_context_delete : (fuel context : ℕ) → Contexts → Option Contexts
  memory_context_delete zero context s = none
  memory_context_delete (suc fuel) context s =
      let rest = delete_loop fuel context s in
      if context_is_valid s context && (not (context == s.top) && not (context == s.current))
      then and_then rest (λ u.
        and_then (delink fuel context u)
          (λ v. and_then (call_method (delete_call context) v) (pfree context)))
      else none

  pub delete_loop : (fuel context : ℕ) → Contexts → Option Contexts
  delete_loop zero context s = none
  delete_loop (suc fuel) context s =
      let rest =
        and_then (memory_context_delete fuel (s.firstchild context) s) (delete_loop fuel context) in
      if s.firstchild context == 0 then some s else rest

pub memory_context_delete_children : (fuel context : ℕ) → Contexts → Option Contexts
memory_context_delete_children fuel context s =
    if context_is_valid s context then delete_loop fuel context s else none

pub memory_context_reset_and_delete_children : (fuel context : ℕ) → Contexts → Option Contexts
memory_context_reset_and_delete_children fuel context s =
    if context_is_valid s context
    then and_then (memory_context_delete_children fuel context s) (call_method (reset_call context))
    else none

-- the header stands STANDARD_CHUNK_HEADER_SIZE in front of the pointer
pub memory_context_contains : (context pointer : ℕ) → Contexts → Bool
memory_context_contains context pointer s =
    if pointer == 0 || not (pointer == max_align pointer)
    then false
    else s.header_context pointer == context && alloc_size_is_valid (s.header_size pointer)

-- the context that was current, and the state
pub memory_context_switch_to : (context : ℕ) → Contexts → Option (ℕ × Contexts)
memory_context_switch_to context s =
    if context_is_valid s context then some (s.current, record s { current = context }) else none

-- the methods alloc and realloc, and malloc
module _ (alloc : (context size : ℕ) → Contexts → ℕ × Contexts)
    (realloc : (context pointer size : ℕ) → Contexts → ℕ × Contexts) (malloc : (size : ℕ) → ℕ) where
  pub memory_context_alloc : (context size : ℕ) → Contexts → Option (ℕ × Contexts)
  memory_context_alloc context size s =
      if context_is_valid s context && alloc_size_is_valid size
      then some (alloc context size s)
      else none

  pub palloc : (size : ℕ) → Contexts → Option (ℕ × Contexts)
  palloc size s = memory_context_alloc s.current size s

  pub repalloc : (pointer size : ℕ) → Contexts → Option (ℕ × Contexts)
  repalloc pointer size s =
      let context = s.header_context pointer in
      if not (pointer == 0)
        && (pointer == max_align pointer
            && (context_is_valid s context && alloc_size_is_valid size))
      then some (realloc context pointer size s)
      else none

  -- the node and its name of `len` characters
  pub new_node : (size len : ℕ) → Contexts → Option (ℕ × Contexts)
  new_node size len s =
      let needed = size + len + 1 in
      if not (s.top == 0)
      then memory_context_alloc s.top needed s
      else (if malloc needed == 0 then none else some (malloc needed, s))

  -- the fields, the method init and the links
  pub link_node : (tag context node : ℕ) → Contexts → Contexts
  link_node tag context node s =
      let filled = record s {
        node_type = store s.node_type node tag;
        parent = store s.parent node context;
        firstchild = store s.firstchild node 0;
        nextchild = store s.nextchild node 0;
        calls = init_call node ∷ s.calls;
      } in
      if context == 0 then filled else record filled {
        nextchild = store filled.nextchild node (filled.firstchild context);
        firstchild = store filled.firstchild context node;
      }

  pub memory_context_create : (tag size len context : ℕ) → Contexts → Option (ℕ × Contexts)
  memory_context_create tag size len context s = linked (new_node size len s)
    where
      linked : Option (ℕ × Contexts) → Option (ℕ × Contexts)
      linked none = none
      linked (some (node, t)) = some (node, link_node tag context node t)

  -- the chunk for a string of `len` characters, which memcpy fills
  pub memory_context_strdup : (context len : ℕ) → Contexts → Option (ℕ × Contexts)
  memory_context_strdup context len s = memory_context_alloc context (len + 1) s

-- `create_set` is alloc_set_context_create of aset.c, with a parent, for 8 * 1024 bytes each time
module _ (create_set : (parent : ℕ) → Contexts → Option (ℕ × Contexts)) where
  -- the two contexts of the start
  pub top_created : Option (ℕ × Contexts) → Option (ℕ × Contexts)
  top_created none = none
  top_created (some (node, s)) = create_set node (record s { top = node; current = node })

  pub error_created : Option (ℕ × Contexts) → Option Contexts
  error_created none = none
  error_created (some (node, s)) = some (record s { error = node })

  pub memory_context_init : Contexts → Option Contexts
  memory_context_init s = if s.top == 0 then error_created (top_created (create_set 0 s)) else none
