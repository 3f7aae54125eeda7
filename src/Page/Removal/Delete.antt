-- ===== src/Page/Removal/Delete.antt =====
-- `page_index_tuple_delete`.
use postgres_v.Base.{
  ℕ, zero, suc, ◌+◌, ◌-◌, ◌*◌, ◌/◌, ◌%◌, ◌^◌, ◌≤◌, ◌<◌, ◌≡◌, ◌≢◌, ◌⊎◌, ap, ◌∙◌, inl, inr, ◌&&◌,
  arith, ltb, leb, if◌then◌else◌, max_align, max_align_bounds, Bool-cases, dec_le,
}
use postgres_v.Page.Removal.{close_gap, adjust_line_pointers, delete_at, page_index_tuple_delete}
use postgres_v.Page.Valid.{IsPage}
use postgres_v.Page.{ItemId, Page, item_id_size, write_linp, page_get_max_offset_number}

-- the space of one item does not reach into that of the other
abbrev pub Apart : ItemId → ItemId → Type 0
Apart t u = (t.lp_off + max_align t.lp_len ≤ u.lp_off) ⊎ (u.lp_off + max_align u.lp_len ≤ t.lp_off)

-- An index page: every line pointer has an item of its own, in aligned space above `pd_upper`.
pub record IsPacked (p : Page) : Type 0 where
  pub page : IsPage p
  pub within :
      (i : ℕ)
      → i < page_get_max_offset_number p
      → (p.pd_upper ≤ (p.linp i).lp_off)
        × ((p.linp i).lp_off + max_align (p.linp i).lp_len ≤ p.pd_special)
  pub apart :
      (i j : ℕ)
      → i < page_get_max_offset_number p
      → j < page_get_max_offset_number p
      → i ≢ j
      → Apart (p.linp i) (p.linp j)

abbrev moved_up : (offset size : ℕ) → ItemId → ItemId
moved_up offset size t =
    if leb t.lp_off offset then record t { lp_off = (t.lp_off + size) % 2 ^ 15 } else t

adjust_lem :
    (left offset size : ℕ) (linp : ℕ → ItemId) (j : ℕ)
    → adjust_line_pointers left offset size linp j
      ≡ (if ltb j left then moved_up offset size (linp j) else linp j)
unfolding adjust_line_pointers
adjust_lem zero offset size linp j = ground arith
adjust_lem (suc i) offset size linp j = ground (
  arith,
  adjust_lem i offset size
      (if leb (linp i).lp_off offset
        then write_linp linp i (record (linp i) { lp_off = ((linp i).lp_off + size) % 2 ^ 15 })
        else linp)
      j,
)

-- the line pointer that moves to index `i` when the one at `k` goes
abbrev pub source : (k i : ℕ) → ℕ
source k i = if leb k i then i + 1 else i

-- what the deletion of the item at index `k` leaves of the one that stands at index `i` afterwards
pub record Survives (p : Page) (k : ℕ) (q : Page) (i : ℕ) : Type 0 where
  pub length_kept : (q.linp i).lp_len ≡ (p.linp (source k i)).lp_len
  pub flags_kept : (q.linp i).lp_flags ≡ (p.linp (source k i)).lp_flags
  pub place :
      (q.linp i).lp_off
      ≡ (p.linp (source k i)).lp_off
        + (if leb (p.linp (source k i)).lp_off (p.linp k).lp_off
            then max_align (p.linp k).lp_len
            else 0)
  pub contents :
      (j : ℕ)
      → j < (p.linp (source k i)).lp_len
      → q.bytes ((q.linp i).lp_off + j) ≡ p.bytes ((p.linp (source k i)).lp_off + j)

module _ (p : Page) (v : IsPacked p) (k : ℕ) (lt : k < page_get_max_offset_number p) where
  open v use {page, within, apart}

  deleted : Page
  deleted = delete_at p k

  deleted_count : page_get_max_offset_number deleted ≡ page_get_max_offset_number p - 1
  unfolding deleted delete_at
  deleted_count = ground (arith, page.counted)

  deleted_linp :
      (i : ℕ)
      → i < page_get_max_offset_number p - 1
      → deleted.linp i
        ≡ moved_up (p.linp k).lp_off (max_align (p.linp k).lp_len) (p.linp (source k i))
  unfolding deleted delete_at
  deleted_linp i below = ground (
    arith,
    page.counted,
    adjust_lem ((p.pd_lower - 4 - 8) / 4) (p.linp k).lp_off (max_align (p.linp k).lp_len)
        (close_gap p.linp k (p.pd_lower - (8 + 4 * (k + 1)))) i,
  )

  deleted_upper : deleted.pd_upper ≡ p.pd_upper + max_align (p.linp k).lp_len
  unfolding deleted delete_at
  deleted_upper =
      ground (arith, page.counted, page.upper-le-special, page.special-le-size, within k lt)

  deleted_bytes :
      (x : ℕ)
      → deleted.bytes x ≡ (
          if ltb p.pd_upper (p.linp k).lp_off
            && leb (p.pd_upper + max_align (p.linp k).lp_len) x
            && ltb x ((p.linp k).lp_off + max_align (p.linp k).lp_len)
          then p.bytes (x - max_align (p.linp k).lp_len)
          else p.bytes x)
  unfolding deleted delete_at
  deleted_bytes x =
      let size = max_align (p.linp k).lp_len in
      elim (dec_le (p.pd_upper + size) x) [
        | yes h ↦
            let e : p.pd_upper + (x - (p.pd_upper + size)) ≡ x - size = omega arith in
            ground (arith, within k lt, ap p.bytes e)
        | no h ↦ ground (arith, within k lt)
      ]

  deleted_place :
      (i : ℕ)
      → i < page_get_max_offset_number p - 1
      → (deleted.linp i).lp_off
        ≡ (p.linp (source k i)).lp_off
          + (if leb (p.linp (source k i)).lp_off (p.linp k).lp_off
              then max_align (p.linp k).lp_len
              else 0)
  deleted_place i below = ground (
    arith,
    deleted_linp i below,
    within k lt,
    within (source k i) (ground arith),
    page.special-le-size,
  )

  -- The bytes of an item move with it.
  deleted_contents :
      (i : ℕ)
      → i < page_get_max_offset_number p - 1
      → (j : ℕ) → j < (p.linp (source k i)).lp_len
      → deleted.bytes ((deleted.linp i).lp_off + j) ≡ p.bytes ((p.linp (source k i)).lp_off + j)
  deleted_contents i below j small =
      let t = p.linp (source k i) in
      let u = p.linp k in
      let place = deleted_place i below in
      let side = apart (source k i) k (ground arith) lt (ground arith) in
      let bounds = within (source k i) (ground arith) in
      elim (Bool-cases (leb t.lp_off u.lp_off)) [
        | inl e ↦
            let here : (deleted.linp i).lp_off + j ≡ t.lp_off + max_align u.lp_len + j =
              ground arith in
            rw (here, deleted_bytes)
              (ground (
                arith,
                max_align_bounds t.lp_len,
                ap p.bytes (
                    let e' : t.lp_off + max_align u.lp_len + j - max_align u.lp_len ≡ t.lp_off + j =
                      omega arith in
                    e'),
              ))
        | inr e ↦
            let here : (deleted.linp i).lp_off + j ≡ t.lp_off + j = ground arith in
            rw (here, deleted_bytes) (ground (arith, max_align_bounds t.lp_len))
      ]

  deleted-Survives : (i : ℕ) → i < page_get_max_offset_number p - 1 → Survives p k deleted i
  deleted-Survives i below = record {
    length_kept = ground (arith, deleted_linp i below);
    flags_kept = ground (arith, deleted_linp i below);
    place = deleted_place i below;
    contents = deleted_contents i below;
  }

  deleted_header :
      (deleted.pd_lower ≡ p.pd_lower - item_id_size)
      × (deleted.pd_special ≡ p.pd_special)
      × (deleted.od_pagesize ≡ p.od_pagesize)
  unfolding deleted delete_at
  deleted_header = (ground arith, ground arith, ground arith)

  align_kept :
      (i : ℕ)
      → i < page_get_max_offset_number p - 1
      → max_align (deleted.linp i).lp_len ≡ max_align (p.linp (source k i)).lp_len
  align_kept i below = ap max_align (deleted-Survives i below).length_kept

  deleted_within :
      (i : ℕ)
      → i < page_get_max_offset_number p - 1
      → (deleted.pd_upper ≤ (deleted.linp i).lp_off)
        × ((deleted.linp i).lp_off + max_align (deleted.linp i).lp_len ≤ deleted.pd_special)
  deleted_within i below = ground (
    arith,
    deleted_place i below,
    align_kept i below,
    deleted_upper,
    deleted_header,
    within (source k i) (ground arith),
    within k lt,
    apart (source k i) k (ground arith) lt (ground arith),
  )

  deleted-Apart :
      (i j : ℕ)
      → i < page_get_max_offset_number p - 1
      → j < page_get_max_offset_number p - 1
      → i ≢ j
      → Apart (deleted.linp i) (deleted.linp j)
  deleted-Apart i j below below' ne = ground (
    arith,
    deleted_place i below,
    deleted_place j below',
    align_kept i below,
    align_kept j below',
    apart (source k i) k (ground arith) lt (ground arith),
    apart (source k j) k (ground arith) lt (ground arith),
    apart (source k i) (source k j) (ground arith) (ground arith) (ground arith),
  )

  deleted-IsPacked : IsPacked deleted
  deleted-IsPacked =
      let inside = λ (i : ℕ) (l : i < page_get_max_offset_number deleted).
        deleted_within i (omega (arith, deleted_count)) in
      record {
        page = record {
          counted = omega (arith, deleted_header, deleted_count, page.counted);
          lower-le-upper = omega (arith, deleted_header, deleted_upper, page.lower-le-upper);
          upper-le-special = omega (arith, deleted_header, deleted_upper, within k lt);
          special-le-size = omega (arith, deleted_header, page.special-le-size);
          sized = deleted_header.2 ∙ page.sized;
          inside = λ i l.
              inr (
                (inside i l).0,
                omega (arith, inside i l, max_align_bounds (deleted.linp i).lp_len),
              );
        };
        within = inside;
        apart = λ i j l l' ne.
            deleted-Apart i j (omega (arith, deleted_count)) (omega (arith, deleted_count)) ne;
      }

-- On an index page whose items have aligned space of their own, deleting the item at a line pointer
-- that is there leaves such a page with one item fewer and its aligned space free; every other item
-- keeps its flags, its length and its bytes, stands one index lower if it was behind, and its offset
-- is greater by that space if it was not above the item that went.
pub page_index_tuple_delete-Survives :
    (p : Page) (k : ℕ)
    → IsPacked p
    → k < page_get_max_offset_number p
    → let q = page_index_tuple_delete p (suc k) in
      IsPacked q
      × (page_get_max_offset_number q + 1 ≡ page_get_max_offset_number p)
      × (q.pd_upper ≡ p.pd_upper + max_align (p.linp k).lp_len)
      × ((i : ℕ) → i < page_get_max_offset_number q → Survives p k q i)
unfolding page_index_tuple_delete deleted
page_index_tuple_delete-Survives p k v lt =
    let e : suc k - 1 ≡ k = omega arith in
    rw e (
      deleted-IsPacked p v k lt,
      omega (arith, deleted_count p v k lt),
      deleted_upper p v k lt,
      λ i l. deleted-Survives p v k lt i (omega (arith, deleted_count p v k lt)),
    )
