-- ===== src/Dllist/Examples.antt =====
-- Concrete runs: the list 64 with the elements 8 and 16.
use postgres_v.Base.{◌≡◌, refl, some, [], ◌∷◌, arith, ◌==◌, if◌then◌else◌}
use postgres_v.Dllist.{
  Dllists, dl_init_list, dl_init_elem, dl_add_head, dl_add_tail, dl_rem_head, dl_rem_tail,
  dl_remove, dl_move_to_front,
}
use postgres_v.Dllist.Near.{IsDllist}
use postgres_v.Dllist.Laws.{IsSame, dl_move_to_front-IsSame, dl_remove-IsDllist}

abbrev two : Dllists
two = record {
  dll_head = λ i. 8;
  dll_tail = λ i. 16;
  dle_next = λ i. if i == 8 then 16 else 0;
  dle_prev = λ i. if i == 16 then 8 else 0;
  dle_list = λ i. 64;
}

two-IsDllist : IsDllist two 64 (8 ∷ 16 ∷ [])
two-IsDllist = record {
  ring = (refl, refl, (refl, refl, (refl, refl)));
  distinct = (((λ q. omega arith), ((λ q. omega arith), tt)), (((λ q. omega arith), tt), (tt, tt)));
  owned = (refl, (refl, tt));
}

dl_move_to_front-IsSame_example :
    (t : Dllists) × (u : Dllists) × (dl_move_to_front 16 two ≡ some t)
    × (dl_remove 16 two ≡ some u)
    × IsSame t (dl_add_head 64 16 u)
dl_move_to_front-IsSame_example = dl_move_to_front-IsSame two 64 16 (8 ∷ []) [] two-IsDllist

dl_remove-IsDllist_example :
    (t : Dllists) × (dl_remove 8 two ≡ some t) × IsDllist t 64 (16 ∷ []) × (t.dle_list 8 ≡ 0)
dl_remove-IsDllist_example = dl_remove-IsDllist two 64 8 [] (16 ∷ []) two-IsDllist

-- a new element at the tail of an empty list is taken from its head, and from its tail
abbrev filled : Dllists → Dllists
filled s = dl_add_tail 64 24 (dl_init_elem 24 (dl_init_list 64 s))

dl_rem_head-filled :
    ((dl_rem_head 64 (filled two)).0 ≡ 24) × ((dl_rem_head 64 (filled two)).1.dll_tail 64 ≡ 0)
unfolding dl_rem_head dl_add_tail dl_init_elem dl_init_list
dl_rem_head-filled = (refl, refl)

dl_rem_tail-filled :
    ((dl_rem_tail 64 (filled two)).0 ≡ 24) × ((dl_rem_tail 64 (filled two)).1.dll_head 64 ≡ 0)
unfolding dl_rem_tail dl_add_tail dl_init_elem dl_init_list
dl_rem_tail-filled = (refl, refl)
