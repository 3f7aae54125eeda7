-- ===== src/Page/Slots.antt =====
-- The first half of `page_add_item`: which line pointer the item gets.
use mathlib.Core.Path.{subst}
use postgres_v.Base.{
  ℕ, zero, suc, ◌+◌, ◌-◌, ◌%◌, ◌^◌, ◌≤◌, ◌<◌, ◌≡◌, ◌≢◌, ◌⊎◌, refl, ◌∙◌, ◌*◌, inl, inr, Bool, true,
  false, not, ◌&&◌, some, arith, ltb, leb, ◌==◌, if◌then◌else◌, Bool-cases,
}
use postgres_v.Page.{
  ItemId, Page, is_recyclable, write_linp, page_get_max_offset_number, offset_number_is_valid,
  header_size, item_id_size, item_id_bytes, write_bytes, shuffle_bytes, shuffle_down, find_offset,
  Slot, choose_slot,
}
use postgres_v.Page.Valid.{IsPage}

shuffle_down_lem :
    (r off : ℕ) (linp : ℕ → ItemId) (j : ℕ)
    → 0 < off
    → shuffle_down r off linp j ≡ (if leb off j && ltb j (off + r) then linp (j - 1) else linp j)
unfolding shuffle_down
shuffle_down_lem zero off linp j h = ground arith
shuffle_down_lem (suc r) off linp j h =
    ground (arith, shuffle_down_lem r off (write_linp linp (off + r) (linp (off + r - 1))) j)

shuffle_bytes_lem :
    (r off : ℕ) (linp : ℕ → ItemId) (bytes : ℕ → ℕ) (j : ℕ)
    → header_size + item_id_size * (off + r) ≤ j
    → shuffle_bytes r off linp bytes j ≡ bytes j
unfolding shuffle_bytes
shuffle_bytes_lem zero off linp bytes j h = refl
shuffle_bytes_lem (suc r) off linp bytes j h =
    let written =
      write_bytes bytes (header_size + item_id_size * (off + r)) item_id_size
        (item_id_bytes (linp (off + r - 1))) in
    let rest = shuffle_bytes_lem r off linp written j (omega arith) in
    let kept : written j ≡ bytes j = ground arith in rest ∙ kept

find_offset_lem :
    (r off : ℕ) (linp : ℕ → ItemId)
    → (off ≤ find_offset r off linp)
      × (find_offset r off linp ≤ off + r)
      × ((find_offset r off linp ≡ off + r)
          ⊎ (is_recyclable (linp (find_offset r off linp - 1)) ≡ true))
unfolding find_offset
find_offset_lem zero off linp = (omega arith, omega arith, inl (omega arith))
find_offset_lem (suc r) off linp = elim (Bool-cases (is_recyclable (linp (off - 1)))) [
  | inl e ↦ rw e (omega arith, omega arith, inr e)
  | inr e ↦
      let t = find_offset_lem r (off + 1) linp in
      rw e (omega (arith, t.0), omega (arith, t.1), reached t.2)
]
  where
    reached :
        (find_offset r (off + 1) linp ≡ off + 1 + r)
          ⊎ (is_recyclable (linp (find_offset r (off + 1) linp - 1)) ≡ true)
        → (find_offset r (off + 1) linp ≡ off + suc r)
          ⊎ (is_recyclable (linp (find_offset r (off + 1) linp - 1)) ≡ true)
    reached (inl e) = inl (omega arith)
    reached (inr e) = inr e

-- where the line pointer that stands at `i` afterwards stood before
abbrev pub back : Slot → ℕ → ℕ
back s i = if s.shuffled && leb s.offset_num i then i - 1 else i

-- what `choose_slot` settles on a valid page
pub record IsSlot (mode : Bool) (p : Page) (offset_num : ℕ) (s : Slot) : Type 0 where
  pub lo : 0 < s.offset_num
  pub hi : s.offset_num ≤ page_get_max_offset_number p + 1
  pub moved :
      (i : ℕ)
      → i < page_get_max_offset_number p + 1
      → i + 1 ≢ s.offset_num
      → s.linp i ≡ p.linp (back s i)
  pub free :
      s.shuffled ≡ false
      → s.offset_num ≤ page_get_max_offset_number p
      → is_recyclable (p.linp (s.offset_num - 1)) ≡ true
  pub asked : offset_num ≢ 0 → s.offset_num ≡ offset_num
  pub kept : s.shuffled ≡ false → (s.linp ≡ p.linp) × (s.bytes ≡ p.bytes)
  pub tuples :
      (j : ℕ)
      → header_size + item_id_size * (page_get_max_offset_number p + 1) ≤ j
      → s.bytes j ≡ p.bytes j
  pub how : s.shuffled ≡ (mode && not (offset_num == 0))

module _ (mode : Bool) (p : Page) (v : IsPage p) (offset_num : ℕ)
    (le : offset_num ≤ page_get_max_offset_number p + 1) where
  shuffled-IsSlot :
      0 < offset_num
      → mode ≡ true
      → IsSlot mode p offset_num (record {
        offset_num = offset_num;
        shuffled = true;
        linp =
            shuffle_down
              ((1 + page_get_max_offset_number p) % 2 ^ 16 - offset_num)
              offset_num
              p.linp;
        bytes =
            shuffle_bytes
              ((1 + page_get_max_offset_number p) % 2 ^ 16 - offset_num)
              offset_num
              p.linp
              p.bytes;
      })
  shuffled-IsSlot pos m = record {
    lo = pos;
    hi = le;
    moved = λ i lt ne. ground (
      arith,
      shuffle_down_lem ((1 + page_get_max_offset_number p) % 2 ^ 16 - offset_num) offset_num p.linp
          i pos,
    );
    free = λ e. cc;
    asked = λ ne. refl;
    kept = λ e. cc;
    tuples = λ j h.
        shuffle_bytes_lem ((1 + page_get_max_offset_number p) % 2 ^ 16 - offset_num) offset_num
          p.linp p.bytes j (omega (arith, h, le));
    how = ground arith;
  }

  overwrite-IsSlot :
      0 < offset_num
      → mode ≡ false
      → is_recyclable (p.linp (offset_num - 1)) ≡ true
      → IsSlot mode p offset_num
          (record { offset_num = offset_num; shuffled = false; linp = p.linp; bytes = p.bytes })
  overwrite-IsSlot pos m e = record {
    lo = pos;
    hi = le;
    moved = λ i lt ne. refl;
    free = λ q lt. e;
    asked = λ ne. refl;
    kept = λ q. (refl, refl);
    tuples = λ j h. refl;
    how = ground arith;
  }

  found-IsSlot :
      offset_num ≡ 0
      → IsSlot mode p offset_num (record {
        offset_num = find_offset ((1 + page_get_max_offset_number p) % 2 ^ 16 - 1) 1 p.linp;
        shuffled = false;
        linp = p.linp;
        bytes = p.bytes;
      })
  found-IsSlot zero_asked =
      let t = find_offset_lem ((1 + page_get_max_offset_number p) % 2 ^ 16 - 1) 1 p.linp in
      record {
        lo = omega (arith, t.0);
        hi = omega (arith, t.1);
        moved = λ i lt ne. refl;
        free = λ q lt. ground (arith, t.2);
        asked = λ ne. absurd (ne zero_asked);
        kept = λ q. (refl, refl);
        tuples = λ j h. refl;
        how = ground arith;
      }

pub choose_slot-IsSlot :
    (mode : Bool) (p : Page) (offset_num : ℕ) (s : Slot)
    → IsPage p
    → offset_num ≤ page_get_max_offset_number p + 1
    → choose_slot mode p offset_num ≡ some s
    → IsSlot mode p offset_num s
unfolding choose_slot
choose_slot-IsSlot mode p offset_num s v le e =
    elim (Bool-cases (offset_number_is_valid offset_num)) [
      | inr q ↦
          subst (IsSlot mode p offset_num) (ground arith)
            (found-IsSlot mode p v offset_num le (ground arith))
      | inl q ↦ elim (Bool-cases mode) [
        | inl m ↦
            subst (IsSlot mode p offset_num) (ground arith)
              (shuffled-IsSlot mode p v offset_num le (ground arith) m)
        | inr m ↦ elim (Bool-cases (is_recyclable (p.linp (offset_num - 1)))) [
          | inl r ↦
              subst (IsSlot mode p offset_num) (ground arith)
                (overwrite-IsSlot mode p v offset_num le (ground arith) m r)
          | inr r ↦ absurd (ground arith)
        ]
      ]
    ]
