-- ===== src/Page/Valid.antt =====
-- What a formatted page is: its bounds in order, and its items between `pd_upper` and `pd_special`.
use postgres_v.Base.{ℕ, ◌+◌, ◌*◌, ◌≤◌, ◌<◌, ◌≡◌, ◌⊎◌, true, some, arith, max_align}
use postgres_v.Page.{
  ItemId, Page, blcksz, header_size, item_id_size, is_recyclable, page_init,
  page_get_max_offset_number,
}

-- the line pointer's item lies between the bounds
abbrev pub IsInside : (upper special : ℕ) → ItemId → Type 0
IsInside upper special t =
    (is_recyclable t ≡ true) ⊎ ((upper ≤ t.lp_off) × (t.lp_off + t.lp_len ≤ special))

pub record IsPage (p : Page) : Type 0 where
  pub counted : p.pd_lower ≡ header_size + item_id_size * page_get_max_offset_number p
  pub lower-le-upper : p.pd_lower ≤ p.pd_upper
  pub upper-le-special : p.pd_upper ≤ p.pd_special
  pub special-le-size : p.pd_special ≤ blcksz
  pub sized : p.od_pagesize ≡ blcksz
  pub inside :
      (i : ℕ) → i < page_get_max_offset_number p → IsInside p.pd_upper p.pd_special (p.linp i)

-- A page that `page_init` formats for a special space of at most 8176 bytes is valid and has no
-- item; its special space is the aligned size at the end of the page.
pub page_init-IsPage :
    (p q : Page) (special_size : ℕ)
    → special_size ≤ 8176
    → page_init p blcksz special_size ≡ some q
    → IsPage q
      × (page_get_max_offset_number q ≡ 0)
      × (q.pd_special + max_align special_size ≡ blcksz)
      × (q.pd_upper ≡ q.pd_special)
unfolding page_init max_align
page_init-IsPage p q special_size fits e = (
  record {
    counted = ground arith;
    lower-le-upper = ground arith;
    upper-le-special = ground arith;
    special-le-size = ground arith;
    sized = ground arith;
    inside = λ i lt. absurd (ground arith);
  },
  ground arith,
  ground arith,
  ground arith,
)

-- For a larger special space the assertions can pass and the page is not valid: the check is on the
-- size before it is aligned.
page_init_oversize :
    (p : Page) (special_size : ℕ)
    → 8176 < special_size
    → special_size < 8184
    → (q : Page) × (page_init p blcksz special_size ≡ some q) × (q.pd_upper < q.pd_lower)
unfolding page_init max_align
page_init_oversize p special_size lo hi = (
  record p { pd_lower = 8; pd_upper = 0; pd_special = 0; od_pagesize = 8192 },
  ground arith,
  omega arith,
)
