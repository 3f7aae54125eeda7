-- ===== src/FixedStack/Examples.antt =====
-- The theorems at a stack of two structures whose item stands 8 bytes from their start.
use postgres_v.Base.{◌≡◌, refl, some, [], ◌∷◌, arith, ◌==◌, if◌then◌else◌}
use postgres_v.FixedStack.{State, fixed_stack_pop, fixed_stack_push, fixed_stack_get_top}
use postgres_v.FixedStack.Laws.{Holds, push-pop}

abbrev sample : State
sample = record {
  stack = record { top = 108; offset = 8 };
  next = λ a. if a == 108 then 208 else 0;
}

sample-Holds : Holds sample (100 ∷ 200 ∷ [])
sample-Holds = (omega arith, refl, (omega arith, refl, refl))

push-pop_example :
    (t : State) × (fixed_stack_push 300 sample ≡ some t)
    × Holds t (300 ∷ 100 ∷ 200 ∷ [])
    × (fixed_stack_get_top t ≡ 300)
    × ((fixed_stack_pop t).0 ≡ 300)
    × Holds (fixed_stack_pop t).1 (100 ∷ 200 ∷ [])
push-pop_example =
    push-pop sample 300 (100 ∷ 200 ∷ []) sample-Holds (omega arith)
      ((λ (e : 300 ≡ 100). omega arith), ((λ (e : 300 ≡ 200). omega arith), tt))
