-- ===== src/Page/Removal.antt =====
-- The operations of bufpage.c that take items out of a page: `page_index_tuple_delete`,
-- `page_repair_fragmentation`, `page_get_temp_page` and `page_restore_temp_page`.
pub mod Delete
pub mod Temp
use postgres_v.Base.{
  ℕ, zero, suc, ◌+◌, ◌-◌, ◌*◌, ◌/◌, ◌%◌, ◌^◌, Bool, true, false, not, ◌&&◌, ◌||◌, Option, none,
  some, List, [], ◌∷◌, ltb, leb, ◌==◌, if◌then◌else◌, max_align,
}
use postgres_v.Page.{
  ItemId, Page, header_size, item_id_size, is_used, write_bytes, write_linp, page_is_empty,
  page_get_max_offset_number,
}

-- `memmove` of the line pointers behind index `offidx`, `nbytes` bytes of them, one slot back
abbrev pub close_gap : (ℕ → ItemId) → (offidx nbytes : ℕ) → ℕ → ItemId
close_gap linp offidx nbytes j =
    if leb offidx j && ltb (j * item_id_size) (offidx * item_id_size + nbytes)
    then linp (j + 1)
    else linp j

-- The loop over the line pointers from `left - 1` down to 0.
pub adjust_line_pointers : (left : ℕ) → (offset size : ℕ) → (ℕ → ItemId) → ℕ → ItemId
adjust_line_pointers zero offset size linp = linp
adjust_line_pointers (suc i) offset size linp =
    let t = linp i in
    adjust_line_pointers i offset size (
      if leb t.lp_off offset
      then write_linp linp i (record t { lp_off = (t.lp_off + size) % 2 ^ 15 })
      else linp)

-- the body of `page_index_tuple_delete`, from the offset index on
pub delete_at : Page → (offidx : ℕ) → Page
unfolding page_is_empty
delete_at p offidx =
    let tup = p.linp offidx in
    let size = max_align tup.lp_len in
    let locn = tup.lp_off in
    let nbytes = p.pd_lower - (header_size + item_id_size * (offidx + 1)) in
    let addr = p.pd_upper in
    let q : Page = record p {
      linp = close_gap p.linp offidx nbytes;
      bytes =
          if locn == addr
          then p.bytes
          else write_bytes p.bytes (addr + size) (locn - addr) (λ j. p.bytes (addr + j));
      pd_upper = (p.pd_upper + size) % 2 ^ 16;
      pd_lower = p.pd_lower - item_id_size;
    } in
    if page_is_empty q
    then q
    else record q { linp = adjust_line_pointers (page_get_max_offset_number q) locn size q.linp }

pub page_index_tuple_delete : Page → (offset_num : ℕ) → Page
page_index_tuple_delete p offset_num = delete_at p (offset_num - 1)

-- `struct ItemIdSortData`
pub record ItemIdSortData : Type 0 where
  pub offset_index : ℕ
  pub itemid_data : ItemId

-- `itemid_compare a b`: whether `a` stands after `b`, that is, has the smaller offset
pub itemid_after : ItemIdSortData → ItemIdSortData → Bool
itemid_after a b = ltb a.itemid_data.lp_off b.itemid_data.lp_off

-- the used line pointers from index `i` on, in order
pub used_items : (left i : ℕ) → (ℕ → ItemId) → List ItemIdSortData
used_items zero i linp = []
used_items (suc left) i linp =
    let rest = used_items left (i + 1) linp in
    if is_used (linp i) then (record { offset_index = i; itemid_data = linp i }) ∷ rest else rest

-- unused line pointers below `nline` are deallocated
abbrev pub clear_unused : (nline : ℕ) → (ℕ → ItemId) → ℕ → ItemId
clear_unused nline linp i =
    if ltb i nline && not (is_used (linp i)) then record (linp i) { lp_len = 0 } else linp i

-- one round of the loop that compacts the page
pub move_item : Page → ItemIdSortData → Page
move_item p d =
    let t = p.linp d.offset_index in
    let upper = p.pd_upper - max_align t.lp_len in
    record p {
      bytes = write_bytes p.bytes upper t.lp_len (λ j. p.bytes (t.lp_off + j));
      linp = write_linp p.linp d.offset_index (record t { lp_off = upper % 2 ^ 15 });
      pd_upper = upper % 2 ^ 16;
    }

pub compactify : Page → List ItemIdSortData → Page
compactify p [] = p
compactify p (d ∷ ds) = compactify (move_item p d) ds

-- With no used line pointer there is nothing to sort or to move.
pub sort_and_compactify :
    (qsort : List ItemIdSortData → List ItemIdSortData) → Page → List ItemIdSortData → Page
unfolding compactify
sort_and_compactify qsort p [] = p
sort_and_compactify qsort p (d ∷ ds) = compactify p (qsort (d ∷ ds))

-- `qsort` of the C library, called with `itemid_compare`, is a parameter. The count of the used line
-- pointers is the length of the list of them.
pub page_repair_fragmentation : (qsort : List ItemIdSortData → List ItemIdSortData) → Page → Page
unfolding sort_and_compactify used_items
page_repair_fragmentation qsort p =
    let nline = page_get_max_offset_number p in
    sort_and_compactify qsort
      (record p { linp = clear_unused nline p.linp; pd_upper = p.pd_special })
      (used_items nline 0 p.linp)

-- The temporary page is a copy with the line pointers and the space up to the special area zeroed.
pub page_get_temp_page : Page → (special_size : ℕ) → Page
page_get_temp_page p special_size = record p {
  linp = λ i. record { lp_off = 0; lp_flags = 0; lp_len = 0 };
  bytes =
      write_bytes p.bytes header_size (p.od_pagesize - header_size - max_align special_size)
        (λ j. 0);
  pd_lower = header_size;
  pd_upper = (p.od_pagesize - max_align special_size) % 2 ^ 16;
}

-- `memmove` of the page size of the temporary page
pub page_restore_temp_page : (temp_page old_page : Page) → Page
page_restore_temp_page temp_page old_page = record temp_page {
  bytes = write_bytes old_page.bytes 0 temp_page.od_pagesize temp_page.bytes;
}
