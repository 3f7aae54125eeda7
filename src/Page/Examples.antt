-- ===== src/Page/Examples.antt =====
-- The theorems at a page with two items, and runs of the operations.
use postgres_v.Base.{
  ℕ, suc, ◌+◌, ◌<◌, ◌≡◌, refl, inr, true, some, arith, max_align, ◌==◌, if◌then◌else◌,
}
use postgres_v.Page.Add.{Adds, Added, page_add_item-Adds, page_add_item-page_get_free_space}
use postgres_v.Page.Removal.Delete.{IsPacked, Survives, page_index_tuple_delete-Survives}
use postgres_v.Page.Removal.{page_index_tuple_delete}
use postgres_v.Page.Valid.{IsPage, page_init-IsPage}
use postgres_v.Page.{
  Page, blcksz, page_init, page_add_item, page_get_free_space, page_get_max_offset_number,
}

abbrev raw : Page
raw = record {
  pd_lower = 0;
  pd_upper = 0;
  pd_special = 0;
  od_pagesize = 0;
  linp = λ i. record { lp_off = 0; lp_flags = 0; lp_len = 0 };
  bytes = λ j. 0;
}

abbrev empty : Page
empty = record raw { pd_lower = 8; pd_upper = 8176; pd_special = 8176; od_pagesize = 8192 }

-- 20 bytes at 8144 and 5 bytes at 8128
abbrev two_items : Page
two_items = record {
  pd_lower = 16;
  pd_upper = 8128;
  pd_special = 8176;
  od_pagesize = 8192;
  linp = λ i.
      if i == 0
      then record { lp_off = 8144; lp_flags = 1; lp_len = 20 }
      else record { lp_off = 8128; lp_flags = 1; lp_len = 5 };
  bytes = λ j. if j == 8144 then 77 else 3;
}

two_items-IsPage : IsPage two_items
unfolding max_align
two_items-IsPage = record {
  counted = refl;
  lower-le-upper = omega arith;
  upper-le-special = omega arith;
  special-le-size = omega arith;
  sized = refl;
  inside = λ i lt. inr (ground arith);
}

page_init-IsPage_example :
    IsPage empty
    × (page_get_max_offset_number empty ≡ 0)
    × (8176 + max_align 13 ≡ blcksz)
    × ◌≡◌ {A = ℕ} 8176 8176
unfolding max_align page_init
page_init-IsPage_example = page_init-IsPage raw empty 13 (omega arith) refl

two_items-IsPacked : IsPacked two_items
unfolding max_align
two_items-IsPacked = record {
  page = two_items-IsPage;
  within = λ i lt. ground arith;
  apart = λ i j li lj ne. ground arith;
}

page_add_item-Adds_example :
    Adds true two_items (λ j. 9) 30 2 1 (page_add_item true two_items (λ j. 9) 30 2 1)
page_add_item-Adds_example =
    page_add_item-Adds true two_items (λ j. 9) 30 2 1 two_items-IsPage (omega arith) (omega arith)
      (omega arith)

page_add_item-page_get_free_space_example :
    (k : ℕ) × (q : Page) × (page_add_item true two_items (λ j. 9) 8000 1 1 ≡ some (suc k, q))
    × Added two_items (λ j. 9) 8000 1 k q
unfolding max_align page_get_free_space
page_add_item-page_get_free_space_example =
    page_add_item-page_get_free_space two_items (λ j. 9) 8000 1 1 two_items-IsPage (omega arith)
      (omega arith) (omega arith) (omega arith)

page_index_tuple_delete-Survives_example :
    let q = page_index_tuple_delete two_items 1 in
    IsPacked q
    × (page_get_max_offset_number q + 1 ≡ 2)
    × (q.pd_upper ≡ 8160)
    × ((i : ℕ) → i < page_get_max_offset_number q → Survives two_items 0 q i)
unfolding max_align
page_index_tuple_delete-Survives_example =
    page_index_tuple_delete-Survives two_items 0 two_items-IsPacked (omega arith)
