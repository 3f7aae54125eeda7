-- ===== src/Dllist.antt =====
-- Doubly linked lists: src/backend/lib/dllist.c.
--
-- Lists and elements go by their address, 0 is NULL; the fields dll_head and dll_tail of a list and
-- dle_next, dle_prev and dle_list of an element stand in a map for each. `none` is an assertion that
-- fails. malloc, free and dle_val are left out: DLNewList and DLNewElem set the fields as DLInitList
-- and DLInitElem do, and DLFreeList removes heads until there is none.
pub mod Near
pub mod Laws
pub mod Examples
use postgres_v.Base.{ℕ, Bool, true, false, not, ◌&&◌, ◌||◌, Option, none, some, ◌==◌, if◌then◌else◌}
use postgres_v.Rings.{store}

pub record Dllists : Type 0 where
  pub dll_head : ℕ → ℕ
  pub dll_tail : ℕ → ℕ
  pub dle_next : ℕ → ℕ
  pub dle_prev : ℕ → ℕ
  pub dle_list : ℕ → ℕ

-- DLInitList, DLInitElem
pub dl_init_list : (list : ℕ) → Dllists → Dllists
dl_init_list list s = record s {
  dll_head = store s.dll_head list 0;
  dll_tail = store s.dll_tail list 0;
}

pub dl_init_elem : (e : ℕ) → Dllists → Dllists
dl_init_elem e s = record s {
  dle_next = store s.dle_next e 0;
  dle_prev = store s.dle_prev e 0;
  dle_list = store s.dle_list e 0;
}

-- DLRemove
pub dl_remove : (e : ℕ) → Dllists → Option Dllists
dl_remove e s =
    let l = s.dle_list e in
    let p = s.dle_prev e in
    let n = s.dle_next e in
    if (not (p == 0) || e == s.dll_head l) && (not (n == 0) || e == s.dll_tail l)
    then some (record s {
      dll_head = if p == 0 then store s.dll_head l n else s.dll_head;
      dll_tail = if n == 0 then store s.dll_tail l p else s.dll_tail;
      dle_next = store (if p == 0 then s.dle_next else store s.dle_next p n) e 0;
      dle_prev = store (if n == 0 then s.dle_prev else store s.dle_prev n p) e 0;
      dle_list = store s.dle_list e 0;
    })
    else none

-- DLAddHead
pub dl_add_head : (l e : ℕ) → Dllists → Dllists
dl_add_head l e s =
    let h = s.dll_head l in
    record s {
      dle_list = store s.dle_list e l;
      dle_prev = store (if h == 0 then s.dle_prev else store s.dle_prev h e) e 0;
      dle_next = store s.dle_next e h;
      dll_head = store s.dll_head l e;
      dll_tail = if s.dll_tail l == 0 then store s.dll_tail l e else s.dll_tail;
    }

-- DLAddTail
pub dl_add_tail : (l e : ℕ) → Dllists → Dllists
dl_add_tail l e s =
    let t = s.dll_tail l in
    record s {
      dle_list = store s.dle_list e l;
      dle_next = store (if t == 0 then s.dle_next else store s.dle_next t e) e 0;
      dle_prev = store s.dle_prev e t;
      dll_tail = store s.dll_tail l e;
      dll_head = if s.dll_head l == 0 then store s.dll_head l e else s.dll_head;
    }

-- DLRemHead, with the element or 0
pub dl_rem_head : (l : ℕ) → Dllists → ℕ × Dllists
dl_rem_head l s =
    let e = s.dll_head l in
    let n = s.dle_next e in
    if e == 0 then (0, s) else (
      e,
      record s {
        dle_prev = if n == 0 then s.dle_prev else store s.dle_prev n 0;
        dll_head = store s.dll_head l n;
        dll_tail = if e == s.dll_tail l then store s.dll_tail l 0 else s.dll_tail;
        dle_next = store s.dle_next e 0;
        dle_list = store s.dle_list e 0;
      },
    )

-- DLRemTail, with the element or 0
pub dl_rem_tail : (l : ℕ) → Dllists → ℕ × Dllists
dl_rem_tail l s =
    let e = s.dll_tail l in
    let p = s.dle_prev e in
    if e == 0 then (0, s) else (
      e,
      record s {
        dle_next = if p == 0 then s.dle_next else store s.dle_next p 0;
        dll_tail = store s.dll_tail l p;
        dll_head = if e == s.dll_head l then store s.dll_head l 0 else s.dll_head;
        dle_prev = store s.dle_prev e 0;
        dle_list = store s.dle_list e 0;
      },
    )

-- DLMoveToFront
pub dl_move_to_front : (e : ℕ) → Dllists → Option Dllists
dl_move_to_front e s =
    let l = s.dle_list e in
    let p = s.dle_prev e in
    let n = s.dle_next e in
    let h = s.dll_head l in
    let back = if n == 0 then s.dle_prev else store s.dle_prev n p in
    if h == e
    then some s
    else (if not (p == 0) && (not (n == 0) || e == s.dll_tail l)
        then some (record s {
          dll_head = store s.dll_head l e;
          dll_tail = if n == 0 then store s.dll_tail l p else s.dll_tail;
          dle_next = store (store s.dle_next p n) e h;
          dle_prev = store (store back h e) e 0;
        })
        else none)
