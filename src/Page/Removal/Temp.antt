-- ===== src/Page/Removal/Temp.antt =====
-- The temporary copy of a page, and the way back: `page_get_temp_page`, `page_restore_temp_page`.
use postgres_v.Base.{ℕ, ◌+◌, ◌≤◌, ◌<◌, ◌≡◌, refl, arith, max_align}
use postgres_v.Page.{Page, blcksz, page_get_max_offset_number}
use postgres_v.Page.Removal.{page_get_temp_page, page_restore_temp_page}
use postgres_v.Page.Valid.{IsPage}

-- `temp` is a valid page without items, with all the space up to the special area of `p` free and
-- that area as in `p`; `back` has its header, its line pointers and its bytes
abbrev pub IsTemp : (p temp back : Page) → Type 0
IsTemp p temp back =
    IsPage temp
    × (page_get_max_offset_number temp ≡ 0)
    × (temp.pd_upper ≡ p.pd_special)
    × ((j : ℕ) → p.pd_special ≤ j → temp.bytes j ≡ p.bytes j)
    × ((j : ℕ) → j < blcksz → back.bytes j ≡ temp.bytes j)
    × (back.pd_lower ≡ temp.pd_lower)
    × (back.pd_upper ≡ temp.pd_upper)
    × (back.pd_special ≡ temp.pd_special)
    × ((i : ℕ) → back.linp i ≡ temp.linp i)

-- Of a valid page whose special area has the given size, aligned, `page_get_temp_page` makes a
-- valid page without items whose free space runs up to the special area and whose special area has
-- the same bytes; whatever page it is restored over, `page_restore_temp_page` makes that one equal
-- to it in the header, in the line pointers and in every byte of a block.
page_get_temp_page-IsTemp :
    (p old : Page) (special_size : ℕ)
    → IsPage p
    → p.pd_special + max_align special_size ≡ blcksz
    → IsTemp p
        (page_get_temp_page p special_size)
        (page_restore_temp_page (page_get_temp_page p special_size) old)
unfolding page_get_temp_page page_restore_temp_page
page_get_temp_page-IsTemp p old special_size v e =
    let sized = v.sized in
    let order = v.lower-le-upper in
    let special = v.upper-le-special in
    let count = v.counted in
    (
      record {
        counted = omega arith;
        lower-le-upper = ground arith;
        upper-le-special = ground arith;
        special-le-size = ground arith;
        sized = sized;
        inside = λ i lt. absurd (omega arith);
      },
      omega arith,
      ground arith,
      (λ j ge. ground arith),
      (λ j lt. ground arith),
      refl,
      refl,
      refl,
      λ i. refl,
    )
