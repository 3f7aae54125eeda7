-- ===== src/Page/Add.antt =====
-- `page_add_item` and `page_get_free_space`.
use mathlib.Core.Path.{subst}
use postgres_v.Base.{
  ℕ, zero, suc, ◌+◌, ◌-◌, ◌%◌, ◌^◌, ◌≤◌, ◌<◌, ◌≡◌, ◌≢◌, ◌⊎◌, refl, ap, ◌∙◌, inl, inr, Bool, true,
  false, not, ◌&&◌, ◌||◌, Option, none, some, arith, ltb, leb, ◌==◌, if◌then◌else◌, max_align,
  max_align_bounds, Bool-cases, Option-cases, ltb→lt, ltb→le, ==→ne, ℕ_discrete, eq→==,
}
use postgres_v.Page.{
  ItemId, Page, item_id_size, is_recyclable, item_id, write_bytes, write_linp,
  page_get_max_offset_number, Slot, choose_slot, new_lower, place_item, page_add_item,
  page_get_free_space,
}
use postgres_v.Page.Valid.{IsInside, IsPage}
use postgres_v.Page.Slots.{IsSlot, back, choose_slot-IsSlot}

-- Item `item` of `size` bytes was put on page `p` at offset number `k + 1`, which gave `q`.
pub record Added (p : Page) (item : ℕ → ℕ) (size flags k : ℕ) (q : Page) : Type 0 where
  pub valid : IsPage q
  pub space : q.pd_upper + max_align size ≡ p.pd_upper
  pub pointer : q.linp k ≡ record { lp_off = q.pd_upper; lp_flags = flags; lp_len = size }
  pub contents : (j : ℕ) → j < size → q.bytes (q.pd_upper + j) ≡ item j
  pub others : (j : ℕ) → p.pd_upper ≤ j → q.bytes j ≡ p.bytes j

IsInside-lower :
    (upper' upper special : ℕ) (t : ItemId)
    → upper' ≤ upper
    → IsInside upper special t
    → IsInside upper' special t
IsInside-lower upper' upper special t le (inl e) = inl e
IsInside-lower upper' upper special t le (inr h) = inr (omega arith, h.1)

module _ (p : Page) (v : IsPage p) {mode : Bool} {offset_num : ℕ} (s : Slot)
    (t : IsSlot mode p offset_num s) (item : ℕ → ℕ) (size flags : ℕ) (small_flags : flags < 4)
    (room : new_lower p s + max_align size ≤ p.pd_upper) where
  placed : Page
  placed = record p {
    linp = write_linp s.linp (s.offset_num - 1) (item_id (p.pd_upper - max_align size) flags size);
    bytes = write_bytes s.bytes (p.pd_upper - max_align size) size item;
    pd_lower = new_lower p s % 2 ^ 16;
    pd_upper = (p.pd_upper - max_align size) % 2 ^ 16;
  }

  lower_lem :
      (new_lower p s ≡ p.pd_lower)
        × (s.offset_num ≤ page_get_max_offset_number p)
        × (s.shuffled ≡ false)
      ⊎ (new_lower p s ≡ p.pd_lower + 4)
        × ((s.shuffled ≡ true) ⊎ (s.offset_num ≡ page_get_max_offset_number p + 1))
  unfolding new_lower
  lower_lem = ground (arith, t.lo, t.hi)

  fields :
      item_id (p.pd_upper - max_align size) flags size
      ≡ record { lp_off = (p.pd_upper - max_align size) % 2 ^ 16; lp_flags = flags; lp_len = size }
  unfolding item_id
  fields = ground (arith, max_align_bounds size)

  back_lt :
      (i : ℕ)
      → i < page_get_max_offset_number placed
      → (s.offset_num - 1 == i) ≡ false
      → (back s i < page_get_max_offset_number p) × (i < page_get_max_offset_number p + 1)
  unfolding placed
  back_lt i lt ne = ground (arith, lower_lem, t.lo, t.hi)

  placed-IsInside :
      (i : ℕ)
      → i < page_get_max_offset_number placed
      → IsInside placed.pd_upper placed.pd_special (placed.linp i)
  unfolding placed
  placed-IsInside i lt = elim (Bool-cases (s.offset_num - 1 == i)) [
    | inl e ↦ rw (e, fields) (inr (omega arith, omega (arith, max_align_bounds size)))
    | inr e ↦
        let (b, l) = back_lt i lt e in
        rw (e, t.moved i l (omega (arith, ==→ne _ _ e, t.lo)))
          (IsInside-lower _ _ _ (p.linp (back s i)) (omega arith) (v.inside (back s i) b))
  ]

  placed-Added : Added p item size flags (s.offset_num - 1) placed
  unfolding placed item_id
  placed-Added = record {
    valid = record {
      counted = omega (arith, lower_lem);
      lower-le-upper = omega (arith, lower_lem);
      upper-le-special = omega arith;
      special-le-size = v.special-le-size;
      sized = v.sized;
      inside = placed-IsInside;
    };
    space = omega arith;
    pointer = rw (eq→== (s.offset_num - 1) (s.offset_num - 1) refl, fields);
    contents = λ j lt. ground (arith, max_align_bounds size);
    others = λ j le.
        let same : s.bytes j ≡ p.bytes j = elim lower_lem [
          | inl (_, _, still) ↦ ap (λ f. f j) (t.kept still).1
          | inr (e, _) ↦ t.tuples j (omega (arith, v.counted, le, room, e))
        ] in
        ground (arith, max_align_bounds size, same);
  }

  placed_linp :
      (i : ℕ)
      → i < page_get_max_offset_number placed
      → i ≢ s.offset_num - 1
      → placed.linp i ≡ p.linp (back s i)
  unfolding placed
  placed_linp i lt ne =
      let e : (s.offset_num - 1 == i) ≡ false = ground arith in
      rw e (t.moved i (back_lt i lt e).1 (omega (arith, t.lo)))

  placed_count :
      (page_get_max_offset_number placed ≡ page_get_max_offset_number p + 1)
      ⊎ ((page_get_max_offset_number placed ≡ page_get_max_offset_number p)
          × (is_recyclable (p.linp (s.offset_num - 1)) ≡ true))
  unfolding placed
  placed_count = ground (arith, lower_lem, t.free)

-- the line pointer that stands at index `i` afterwards stood there before, or one lower where the
-- line pointers from `k` on were shuffled down
abbrev pub before : (shuffled : Bool) → (k i : ℕ) → ℕ
before shuffled k i = if shuffled && leb (k + 1) i then i - 1 else i

-- What `page_add_item` does to page `p`: an error, the offset 0, or the offset `k + 1`.
abbrev pub Adds : Bool → Page → (ℕ → ℕ) → (size offset_num flags : ℕ) → Option (ℕ × Page) → Type 0
Adds mode p item size offset_num flags none =
    (mode ≡ false) × (offset_num ≢ 0) × (is_recyclable (p.linp (offset_num - 1)) ≡ false)
Adds mode p item size offset_num flags (some (zero, q)) =
    (p.pd_upper < p.pd_lower + item_id_size + max_align size)
    × (q ≡ record p { linp = q.linp; bytes = q.bytes })
    × ((j : ℕ) → p.pd_lower + item_id_size ≤ j → q.bytes j ≡ p.bytes j)
    × (((mode ≡ true) × (0 < offset_num)) ⊎ ((q.linp ≡ p.linp) × (q.bytes ≡ p.bytes)))
Adds mode p item size offset_num flags (some (suc k, q)) =
    Added p item size flags k q
    × ((offset_num ≡ 0) ⊎ (suc k ≡ offset_num))
    × ((page_get_max_offset_number q ≡ page_get_max_offset_number p + 1)
        ⊎ ((page_get_max_offset_number q ≡ page_get_max_offset_number p)
            × (is_recyclable (p.linp k) ≡ true)))
    × ((i : ℕ)
        → i < page_get_max_offset_number q
        → i ≢ k
        → q.linp i ≡ p.linp (before (mode && not (offset_num == 0)) k i))

-- The success branch, for the offset `o` of the slot.
Adds-of_slot :
    (mode : Bool) (p : Page) (item : ℕ → ℕ) (size offset_num flags o : ℕ) (q : Page)
    → 0 < o
    → Added p item size flags (o - 1) q
    → (offset_num ≡ 0) ⊎ (o ≡ offset_num)
    → (page_get_max_offset_number q ≡ page_get_max_offset_number p + 1)
      ⊎ ((page_get_max_offset_number q ≡ page_get_max_offset_number p)
          × (is_recyclable (p.linp (o - 1)) ≡ true))
    → ((i : ℕ)
        → i < page_get_max_offset_number q
        → i ≢ o - 1
        → q.linp i ≡ p.linp (before (mode && not (offset_num == 0)) (o - 1) i))
    → Adds mode p item size offset_num flags (some (o, q))
Adds-of_slot mode p item size offset_num flags zero q pos a b c d = absurd (omega arith)
Adds-of_slot mode p item size offset_num flags (suc k) q pos a b c d =
    let e : suc k - 1 ≡ k = omega arith in
    (
      subst (λ j. Added p item size flags j q) e a,
      b,
      subst
          (λ j.
            (page_get_max_offset_number q ≡ page_get_max_offset_number p + 1)
            ⊎ ((page_get_max_offset_number q ≡ page_get_max_offset_number p)
                × (is_recyclable (p.linp j) ≡ true)))
          e c,
      subst
          (λ j.
            (i : ℕ)
            → i < page_get_max_offset_number q
            → i ≢ j
            → q.linp i ≡ p.linp (before (mode && not (offset_num == 0)) j i))
          e d,
    )

back-before :
    (sh : Bool) (o i : ℕ) → 0 < o → (if sh && leb o i then i - 1 else i) ≡ before sh (o - 1) i
back-before sh o i pos = let e : o - 1 + 1 ≡ o = omega arith in rw e

-- the int that `upper` is, for a valid page and a size below 2^31
upper_bits : (p : Page) (size : ℕ) → ℕ
upper_bits p size = (2 ^ 64 + p.pd_upper - max_align size % 2 ^ 64) % 2 ^ 32

upper_bits-full :
    (p : Page) (lower size : ℕ)
    → IsPage p
    → lower ≤ p.pd_lower + item_id_size
    → size < 2 ^ 31
    → ltb p.pd_upper (lower + max_align size) ≡ true
    → (leb (2 ^ 31) (upper_bits p size) || ltb (upper_bits p size) lower) ≡ true
unfolding upper_bits max_align
upper_bits-full p lower size v low bound full =
    ground (arith, max_align_bounds size, v.counted, v.upper-le-special, v.special-le-size)

upper_bits-room :
    (p : Page) (lower size : ℕ)
    → IsPage p
    → ltb p.pd_upper (lower + max_align size) ≡ false
    → ((leb (2 ^ 31) (upper_bits p size) || ltb (upper_bits p size) lower) ≡ false)
      × (upper_bits p size ≡ p.pd_upper - max_align size)
unfolding upper_bits
upper_bits-room p lower size v room =
    let le = ltb→le _ _ room in
    let top : p.pd_upper ≤ 8192 = omega (arith, v.upper-le-special, v.special-le-size) in
    let e : (2 ^ 64 + p.pd_upper - max_align size % 2 ^ 64) % 2 ^ 32 ≡ p.pd_upper - max_align size =
      omega (arith, le, top) in
    (ground (arith, e, le, top), e)

new_lower-le :
    {mode : Bool} {offset_num : ℕ} (p : Page) (s : Slot)
    → IsPage p
    → IsSlot mode p offset_num s
    → new_lower p s ≤ p.pd_lower + item_id_size
unfolding new_lower
new_lower-le p s v t = ground (arith, t.hi)

untouched :
    {mode : Bool} {offset_num : ℕ} (p : Page) (s : Slot)
    → IsSlot mode p offset_num s
    → ((mode ≡ true) × (0 < offset_num)) ⊎ ((s.linp ≡ p.linp) × (s.bytes ≡ p.bytes))
untouched p s t = elim (Bool-cases s.shuffled) [
  | inl e ↦ inl (ground (arith, t.how))
  | inr e ↦ inr (t.kept e)
]

answers :
    {mode : Bool} {offset_num : ℕ} (p : Page) (s : Slot)
    → IsSlot mode p offset_num s
    → (offset_num ≡ 0) ⊎ (s.offset_num ≡ offset_num)
answers {offset_num} p s t = elim (ℕ_discrete offset_num 0) [
  | yes e ↦ inl e
  | no ne ↦ inr (t.asked ne)
]

choose_slot-none :
    (mode : Bool) (p : Page) (offset_num : ℕ)
    → choose_slot mode p offset_num ≡ none
    → (mode ≡ false) × (offset_num ≢ 0) × (is_recyclable (p.linp (offset_num - 1)) ≡ false)
unfolding choose_slot
choose_slot-none mode p offset_num e = ground arith

-- `page_add_item` on a valid page, for an offset number up to the first free one, or for 0, a size
-- below 2^31, and flags of two bits. It ends in an error only in overwrite mode, for an offset whose line pointer is in use.
-- It returns 0 only if the free space cannot take the item with a line pointer; then the header is as
-- before, and so are the line pointers and the bytes but in shuffle mode with an offset, where the
-- bytes from 4 above `pd_lower` on are as before. Else it returns the offset asked for,
-- the page is valid, the line pointer there is for the item, whose bytes stand on the page, the bytes
-- from the old `pd_upper` on are as before, there is one line pointer more or a recyclable one was
-- used, and the others are as before or, in shuffle mode from the offset on, one up.
pub page_add_item-Adds :
    (mode : Bool) (p : Page) (item : ℕ → ℕ) (size offset_num flags : ℕ)
    → IsPage p
    → offset_num ≤ page_get_max_offset_number p + 1
    → size < 2 ^ 31
    → flags < 4
    → Adds mode p item size offset_num flags (page_add_item mode p item size offset_num flags)
unfolding page_add_item place_item placed upper_bits
page_add_item-Adds mode p item size offset_num flags v le bound small_flags =
    elim (Option-cases (choose_slot mode p offset_num)) [
      | inl e ↦ rw (e, Adds) (choose_slot-none mode p offset_num e)
      | inr (s, e) ↦
          let t = choose_slot-IsSlot mode p offset_num s v le e in
          elim (Bool-cases (ltb p.pd_upper (new_lower p s + max_align size))) [
            | inl full ↦
                let low = new_lower-le p s v t in
                rw (e, upper_bits-full p (new_lower p s) size v low bound full, Adds)
                  (
                    omega (arith, low, ltb→lt _ _ full),
                    refl,
                    λ j le. t.tuples j (omega (arith, v.counted, le)),
                    untouched p s t,
                  )
            | inr room ↦
                let (fits, bits) = upper_bits-room p (new_lower p s) size v room in
                rw (e, fits, bits, Adds)
                  (Adds-of_slot mode p item size offset_num flags s.offset_num
                    (placed p v s t item size flags small_flags (ltb→le _ _ room)) t.lo
                    (placed-Added p v s t item size flags small_flags (ltb→le _ _ room))
                    (answers p s t)
                    (placed_count p v s t item size flags small_flags (ltb→le _ _ room))
                    (λ i lt ne.
                      placed_linp p v s t item size flags small_flags (ltb→le _ _ room) i lt ne
                      ∙ ap p.linp (
                          back-before s.shuffled s.offset_num i t.lo
                          ∙ ap (λ sh. before sh (s.offset_num - 1) i) t.how)))
          ]
    ]

page_get_free_space-le :
    (p : Page) (size : ℕ)
    → IsPage p
    → 0 < size
    → max_align size ≤ page_get_free_space p
    → p.pd_lower + item_id_size + max_align size ≤ p.pd_upper
unfolding page_get_free_space
page_get_free_space-le p size v pos fits = ground (arith, max_align_bounds size)

succeeds :
    (p : Page) (item : ℕ → ℕ) (size offset_num flags : ℕ) (o : Option (ℕ × Page))
    → p.pd_lower + item_id_size + max_align size ≤ p.pd_upper
    → Adds true p item size offset_num flags o
    → (k : ℕ) × (q : Page) × (o ≡ some (suc k, q)) × Added p item size flags k q
succeeds p item size offset_num flags none room a = absurd (cc a.0)
succeeds p item size offset_num flags (some (zero, q)) room a = absurd (omega arith)
succeeds p item size offset_num flags (some (suc k, q)) room a = (k, q, refl, a.0)

-- The free space that `page_get_free_space` reports for a valid page is there: in shuffle mode an
-- item of at least a byte whose aligned size it covers is added, at any offset up to the first
-- free one.
pub page_add_item-page_get_free_space :
    (p : Page) (item : ℕ → ℕ) (size offset_num flags : ℕ)
    → IsPage p
    → offset_num ≤ page_get_max_offset_number p + 1
    → flags < 4
    → 0 < size
    → max_align size ≤ page_get_free_space p
    → (k : ℕ) × (q : Page) × (page_add_item true p item size offset_num flags ≡ some (suc k, q))
      × Added p item size flags k q
page_add_item-page_get_free_space p item size offset_num flags v le small_flags pos fits =
    let room = page_get_free_space-le p size v pos fits in
    let bound : size < 2 ^ 31 =
      omega (arith, max_align_bounds size, room, v.upper-le-special, v.special-le-size) in
    succeeds p item size offset_num flags _ room
      (page_add_item-Adds true p item size offset_num flags v le bound small_flags)
