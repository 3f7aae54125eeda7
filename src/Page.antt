-- ===== src/Page.antt =====
-- Slotted disk pages: src/backend/storage/page/bufpage.c with the types and macros of
-- src/include/rdbms/storage/bufpage.h, itemid.h and off.h.
--
-- A page is its header fields, its line pointers and its bytes, by their offsets in the page. The
-- line pointers stand in the page from offset 8 on, in four bytes each: the model keeps them in a
-- map of their own, and the stores that can reach the bytes of a tuple, those of the shuffle in
-- `page_add_item`, write the four bytes as well. `uint16`
-- and bit fields keep their wrap-around. A page that was formatted has 8 ≤ pd_lower (`IsPage`);
-- the subtractions of `PAGE_GET_MAX_OFFSET_NUMBER` are those of such a page.
pub mod Valid
pub mod Add
pub mod Slots
pub mod Examples
pub mod Removal
use postgres_v.Base.{
  ℕ, zero, suc, ◌+◌, ◌-◌, ◌*◌, ◌/◌, ◌%◌, ◌^◌, Bool, true, false, not, ◌&&◌, ◌||◌, Option, none,
  some, List, [], ◌∷◌, ltb, leb, ◌==◌, if◌then◌else◌, max_align,
}

-- BLCKSZ; sizeof(PageHeaderData) - sizeof(ItemIdData); sizeof(ItemIdData)
abbrev pub blcksz : ℕ
blcksz = 8192

abbrev pub header_size : ℕ
header_size = 8

abbrev pub item_id_size : ℕ
item_id_size = 4

pub record ItemId : Type 0 where
  pub lp_off : ℕ
  pub lp_flags : ℕ
  pub lp_len : ℕ

-- the stores to the bit fields
pub item_id : (off flags len : ℕ) → ItemId
item_id off flags len = record {
  lp_off = off % 2 ^ 15;
  lp_flags = flags % 4;
  lp_len = len % 2 ^ 15;
}

-- `lp_flags & LP_USED`
abbrev pub is_used : ItemId → Bool
is_used t = t.lp_flags % 2 == 1

pub record Page : Type 0 where
  pub pd_lower : ℕ
  pub pd_upper : ℕ
  pub pd_special : ℕ
  pub od_pagesize : ℕ
  pub linp : ℕ → ItemId
  pub bytes : ℕ → ℕ

-- `memmove(page + to, from, size)`, for bytes `from` that were read before
abbrev pub write_bytes : (ℕ → ℕ) → (to size : ℕ) → (ℕ → ℕ) → ℕ → ℕ
write_bytes bytes to size from j = if leb to j && ltb j (to + size) then from (j - to) else bytes j

abbrev pub write_linp : (ℕ → ItemId) → ℕ → ItemId → ℕ → ItemId
write_linp linp i t j = if i == j then t else linp j

-- PAGE_IS_EMPTY, PAGE_GET_MAX_OFFSET_NUMBER, OFFSET_NUMBER_NEXT, OFFSET_NUMBER_IS_VALID
pub page_is_empty : Page → Bool
page_is_empty p = leb p.pd_lower header_size

abbrev pub page_get_max_offset_number : Page → ℕ
page_get_max_offset_number p = (p.pd_lower - header_size) / item_id_size

abbrev pub offset_number_next : ℕ → ℕ
offset_number_next n = (1 + n) % 2 ^ 16

pub offset_number_is_valid : ℕ → Bool
offset_number_is_valid n = not (n == 0) && leb n (blcksz / item_id_size)

-- `none`: an assertion fails
pub page_init : Page → (page_size special_size : ℕ) → Option Page
page_init p page_size special_size =
    if page_size == blcksz && ltb (special_size + header_size) page_size
    then some (record p {
      pd_lower = header_size;
      pd_upper = (page_size - max_align special_size) % 2 ^ 16;
      pd_special = (page_size - max_align special_size) % 2 ^ 16;
      od_pagesize = page_size % 2 ^ 16;
    })
    else none

-- `for (i = (limit - 1); i >= offset_num; i--)`: the rounds left, for `i` = offset_num + rounds - 1
pub shuffle_down : (rounds offset_num : ℕ) → (ℕ → ItemId) → ℕ → ItemId
shuffle_down zero offset_num linp = linp
shuffle_down (suc rounds) offset_num linp =
    let i = offset_num + rounds in shuffle_down rounds offset_num (write_linp linp i (linp (i - 1)))

-- the four bytes of a line pointer
pub item_id_bytes : ItemId → (j : ℕ) → ℕ
item_id_bytes t j = ((t.lp_off + 2 ^ 15 * t.lp_flags + 2 ^ 17 * t.lp_len) / 2 ^ (8 * j)) % 2 ^ 8

-- what the same loop does to the bytes of the page
pub shuffle_bytes : (rounds offset_num : ℕ) → (ℕ → ItemId) → (bytes : ℕ → ℕ) → ℕ → ℕ
shuffle_bytes zero offset_num linp bytes = bytes
shuffle_bytes (suc rounds) offset_num linp bytes =
    let i = offset_num + rounds in
    shuffle_bytes rounds offset_num linp (
      write_bytes bytes (header_size + item_id_size * i) item_id_size
        (item_id_bytes (linp (i - 1))))

-- unused and deallocated
abbrev pub is_recyclable : ItemId → Bool
is_recyclable t = not (is_used t) && t.lp_len == 0

-- `for (offset_num = 1; offset_num < limit; offset_num++)`, with `rounds` numbers left
pub find_offset : (rounds offset_num : ℕ) → (ℕ → ItemId) → ℕ
find_offset zero offset_num linp = offset_num
find_offset (suc rounds) offset_num linp =
    let rest = find_offset rounds (offset_num + 1) linp in
    if is_recyclable (linp (offset_num - 1)) then offset_num else rest

-- what the first half of `page_add_item` settles
pub record Slot : Type 0 where
  pub offset_num : ℕ
  pub shuffled : Bool
  pub linp : ℕ → ItemId
  pub bytes : ℕ → ℕ

-- `none`: `elog(ERROR, …)` for a line pointer that is in use; `mode` is `PageManagerShuffle`
pub choose_slot : (mode : Bool) → Page → (offset_num : ℕ) → Option Slot
unfolding offset_number_is_valid
choose_slot mode p offset_num =
    let limit = offset_number_next (page_get_max_offset_number p) in
    if offset_number_is_valid offset_num
    then (if mode
        then some (record {
          offset_num = offset_num;
          shuffled = true;
          linp = shuffle_down (limit - offset_num) offset_num p.linp;
          bytes = shuffle_bytes (limit - offset_num) offset_num p.linp p.bytes;
        })
        else (if is_recyclable (p.linp (offset_num - 1))
            then some (record {
              offset_num = offset_num;
              shuffled = false;
              linp = p.linp;
              bytes = p.bytes;
            })
            else none))
    else some (record {
      offset_num = find_offset (limit - 1) 1 p.linp;
      shuffled = false;
      linp = p.linp;
      bytes = p.bytes;
    })

-- the new `pd_lower`
pub new_lower : Page → Slot → ℕ
new_lower p s =
    let limit = offset_number_next (page_get_max_offset_number p) in
    if ltb limit s.offset_num
    then header_size + item_id_size * s.offset_num
    else (if s.offset_num == limit || s.shuffled then p.pd_lower + item_id_size else p.pd_lower)

-- The second half. The offset 0 is INVALID_OFFSET_NUMBER. `upper` is the int that a Size is made into,
-- by its 32 bits: from 2^31 on it is negative.
pub place_item : Page → Slot → (item : ℕ → ℕ) → (size flags : ℕ) → ℕ × Page
unfolding new_lower
place_item p s item size flags =
    let lower = new_lower p s in
    let aligned_size = max_align size % 2 ^ 64 in
    let upper = (2 ^ 64 + p.pd_upper - aligned_size) % 2 ^ 32 in
    if leb (2 ^ 31) upper || ltb upper lower
    then (0, record p { linp = s.linp; bytes = s.bytes })
    else (
      s.offset_num,
      record p {
        linp = write_linp s.linp (s.offset_num - 1) (item_id upper flags size);
        bytes = write_bytes s.bytes upper size item;
        pd_lower = lower % 2 ^ 16;
        pd_upper = upper % 2 ^ 16;
      },
    )

pub page_add_item :
    (mode : Bool) → Page → (item : ℕ → ℕ) → (size offset_num flags : ℕ) → Option (ℕ × Page)
page_add_item mode p item size offset_num flags = elim (choose_slot mode p offset_num) [
  | none ↦ none
  | some s ↦ some (place_item p s item size flags)
]

-- `Size` is unsigned
pub page_get_free_space : Page → ℕ
page_get_free_space p =
    let space = (2 ^ 64 + p.pd_upper - p.pd_lower) % 2 ^ 64 in
    if ltb space item_id_size then 0 else space - item_id_size

-- the values of PageManagerShuffle
pub data PageManagerMode : Type 0 where
  shuffle_page_manager_mode : PageManagerMode
  overwrite_page_manager_mode : PageManagerMode

pub page_manager_mode_set : PageManagerMode → Bool
page_manager_mode_set shuffle_page_manager_mode = true
page_manager_mode_set overwrite_page_manager_mode = false
