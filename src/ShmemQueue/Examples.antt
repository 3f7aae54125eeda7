-- ===== src/ShmemQueue/Examples.antt =====
-- The theorems at a queue of two elements, 64 bytes apart.
use postgres_v.Base.{◌≡◌, refl, some, [], ◌∷◌, arith, ◌==◌, if◌then◌else◌}
use postgres_v.ShmemQueue.Delete.{delete-Ring}
use postgres_v.Rings.{Links, Ring, Distinct}
use postgres_v.ShmemQueue.{shm_queue_delete, invalid_offset}

abbrev sample : Links
sample = record {
  prev = λ a. if a == 64 then 192 else if a == 128 then 64 else 128;
  next = λ a. if a == 64 then 128 else if a == 128 then 192 else 64;
}

sample-Ring : Ring sample 64 (128 ∷ 192 ∷ [])
sample-Ring = (refl, refl, (refl, refl, (refl, refl)))

sample-Distinct : Distinct (64 ∷ 128 ∷ 192 ∷ [])
sample-Distinct = (
  ((λ (e : 64 ≡ 128). omega arith), ((λ (e : 64 ≡ 192). omega arith), tt)),
  (((λ (e : 128 ≡ 192). omega arith), tt), (tt, tt)),
)

delete-Ring_example :
    (m : Links) × (shm_queue_delete 4096 128 sample ≡ some m)
    × Ring m 64 (192 ∷ [])
    × (m.prev 128 ≡ invalid_offset)
    × (m.next 128 ≡ invalid_offset)
delete-Ring_example =
    delete-Ring 4096 sample 64 128 [] (192 ∷ []) sample-Ring sample-Distinct refl (refl, (refl, tt))
