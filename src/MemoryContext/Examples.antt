-- ===== src/MemoryContext/Examples.antt =====
-- Four memory contexts, the top one with two children, one of which has a child, and runs of mctx.c.
use postgres_v.Base.{
  Option, none, List, ℕ, ◌≡◌, refl, true, false, none, some, [], ◌∷◌, arith, ◌==◌, if◌then◌else◌,
  max_align, leb,
}
use postgres_v.Rings.{store}
use postgres_v.MemoryContext.Tree.{
  Forest, no_context, one_context, contexts, Shape, rounds, resets, memory_context_reset-resets,
}
use postgres_v.MemoryContext.Delete.{Emptied, memory_context_delete_children-Emptied}
use postgres_v.MemoryContext.Create.{memory_context_create-Shape}
use postgres_v.MemoryContext.{
  memory_context_init, memory_context_strdup, top_created, error_created, new_node, link_node,
  Contexts, reset_call, delete_call, free_call, alloc_set_context, context_is_valid, call_method,
  pfree, memory_context_reset, reset_loop, memory_context_reset_children, delink_loop, delink,
  memory_context_delete, delete_loop, memory_context_delete_children,
  memory_context_reset_and_delete_children, memory_context_contains, memory_context_switch_to,
  memory_context_alloc, palloc, repalloc, memory_context_create,
}

-- 16 is the top context, with the children 48 and 32, and 64 is below 48
abbrev sample : Contexts
sample = record {
  node_type = λ c. alloc_set_context;
  parent = λ c. if c == 16 then 0 else (if c == 64 then 48 else 16);
  firstchild = λ c. if c == 16 then 48 else (if c == 48 then 64 else 0);
  nextchild = λ c. if c == 48 then 32 else 0;
  top = 16;
  current = 16;
  error = 32;
  header_context = λ c. 16;
  header_size = λ c. 80;
  calls = [];
}

abbrev sample_forest : Forest
sample_forest =
    one_context 48 (one_context 64 no_context no_context) (one_context 32 no_context no_context)

sample-Shape : Shape sample 16 48 sample_forest
unfolding context_is_valid max_align
sample-Shape = (
  refl,
  omega arith,
  (refl, refl, refl),
  refl,
  (refl, omega arith, (refl, refl, refl), refl, refl, refl),
  (refl, omega arith, (refl, refl, refl), refl, refl, refl),
)

memory_context_reset-resets_example :
    memory_context_reset 12 16 sample
    ≡ some (record sample {
      calls = reset_call 16 ∷ reset_call 32 ∷ reset_call 48 ∷ reset_call 64 ∷ [];
    })
unfolding context_is_valid rounds resets
memory_context_reset-resets_example =
    memory_context_reset-resets 12 sample 16 sample_forest refl sample-Shape (omega arith)

memory_context_delete_children-Emptied_example :
    Emptied sample 16 sample_forest (memory_context_delete_children 12 16 sample)
unfolding context_is_valid contexts rounds
memory_context_delete_children-Emptied_example =
    memory_context_delete_children-Emptied 12 sample 16 sample_forest refl sample-Shape
      (omega arith)
      (
        (omega arith, (omega arith, (omega arith, tt))),
        ((omega arith, (omega arith, tt)), ((omega arith, tt), (tt, tt))),
      )
      (omega arith, (omega arith, (omega arith, tt)))
      (omega arith, (omega arith, (omega arith, tt))) (omega arith)

-- each chunk starts at 96
abbrev give : (context size : ℕ) → Contexts → ℕ × Contexts
give context size s = (
  96,
  record s {
    header_context = store s.header_context 96 context;
    header_size = store s.header_size 96 size;
  },
)

abbrev move : (context pointer size : ℕ) → Contexts → ℕ × Contexts
move context pointer size s = (pointer, s)

abbrev no_memory : (size : ℕ) → ℕ
no_memory size = 0

-- the size of the chunk is the power of 2 above the size asked for
abbrev give_rounded : (context size : ℕ) → Contexts → ℕ × Contexts
give_rounded context size s = (
  96,
  record s {
    header_context = store s.header_context 96 context;
    header_size = store s.header_size 96 (if leb size 64 then 64 else 128);
  },
)

memory_context_create-Shape_example :
    (u : Contexts) × (memory_context_create give_rounded move no_memory alloc_set_context 80 5 16
        sample
      ≡ some (96, u))
    × Shape u 16 (u.firstchild 16) (one_context 96 no_context sample_forest)
unfolding context_is_valid contexts max_align
memory_context_create-Shape_example =
    memory_context_create-Shape give_rounded move no_memory sample 80 5 16 96 128 sample_forest
      sample-Shape refl refl refl (omega arith) (omega arith) refl
      (omega arith, (omega arith, (omega arith, (omega arith, tt))))
      (omega arith, (omega arith, (omega arith, tt)))

-- the context of a chunk from palloc contains it, another one does not, and NULL is in none
chunk_is_contained :
    (p : ℕ) × (u : Contexts) × (palloc give move no_memory 100 sample ≡ some (p, u))
    × (memory_context_contains 16 p u ≡ true)
    × (memory_context_contains 32 p u ≡ false)
    × (memory_context_contains 16 0 u ≡ false)
unfolding palloc memory_context_alloc memory_context_contains context_is_valid max_align
chunk_is_contained = (
  96,
  record sample { header_context = store (λ c. 16) 96 16; header_size = store (λ c. 80) 96 100 },
  refl,
  refl,
  refl,
  refl,
)

size_too_large : palloc give move no_memory 1073741824 sample ≡ none
unfolding palloc memory_context_alloc context_is_valid
size_too_large = refl

chunk_moves : repalloc give move no_memory 48 200 sample ≡ some (48, sample)
unfolding repalloc context_is_valid max_align
chunk_moves = refl

current_changes : memory_context_switch_to 32 sample ≡ some (16, record sample { current = 32 })
unfolding memory_context_switch_to context_is_valid
current_changes = refl

-- the second child is taken out behind the first one
second_child_goes :
    (u : Contexts) × (memory_context_delete 12 32 sample ≡ some u)
    × (u.nextchild 48 ≡ 0)
    × (u.firstchild 16 ≡ 48)
unfolding memory_context_delete delete_loop delink delink_loop call_method pfree context_is_valid
    max_align
second_child_goes = (
  record sample {
    nextchild = store sample.nextchild 48 0;
    calls = free_call 16 32 ∷ delete_call 32 ∷ [];
  },
  refl,
  refl,
  refl,
)

current_stays : memory_context_delete 12 16 sample ≡ none
unfolding memory_context_delete context_is_valid
current_stays = refl

children_are_reset :
    (u : Contexts) × (memory_context_reset_children 12 48 sample ≡ some u)
    × (u.calls ≡ reset_call 64 ∷ [])
unfolding memory_context_reset_children memory_context_reset reset_loop call_method context_is_valid
children_are_reset = (record sample { calls = reset_call 64 ∷ [] }, refl, refl)

only_48_is_left :
    (u : Contexts) × (memory_context_reset_and_delete_children 12 48 sample ≡ some u)
    × (u.calls ≡ reset_call 48 ∷ free_call 16 64 ∷ delete_call 64 ∷ [])
unfolding memory_context_reset_and_delete_children memory_context_delete_children
    memory_context_delete delete_loop delink call_method pfree context_is_valid max_align
only_48_is_left = (
  record sample {
    firstchild = store sample.firstchild 48 0;
    calls = reset_call 48 ∷ free_call 16 64 ∷ delete_call 64 ∷ [];
  },
  refl,
  refl,
)

-- no context yet; malloc gives 128, and the second node is a chunk of the first one
abbrev empty : Contexts
empty = record sample {
  node_type = λ c. 0;
  parent = λ c. 0;
  firstchild = λ c. 0;
  nextchild = λ c. 0;
  top = 0;
  current = 0;
  error = 0;
}

create_set : (parent : ℕ) → Contexts → Option (ℕ × Contexts)
create_set = memory_context_create give move (λ size. 128) alloc_set_context 80 16

-- the contexts that the globals have, and the links and the header of the second one
at_start : Option Contexts → List ℕ
at_start none = []
at_start (some u) =
    u.top ∷ u.current ∷ u.error ∷ u.parent 96 ∷ u.firstchild 128 ∷ u.header_context 96 ∷ []

contexts_at_start :
    at_start (memory_context_init create_set empty) ≡ 128 ∷ 128 ∷ 96 ∷ 128 ∷ 96 ∷ 128 ∷ []
unfolding at_start create_set memory_context_init error_created top_created memory_context_create
    new_node link_node memory_context_alloc context_is_valid
contexts_at_start = refl

string_is_copied :
    (u : Contexts) × (memory_context_strdup give move no_memory 32 99 sample ≡ some (96, u))
    × (u.header_size 96 ≡ 100)
unfolding memory_context_strdup memory_context_alloc context_is_valid
string_is_copied = ((give 32 100 sample).1, refl, refl)
