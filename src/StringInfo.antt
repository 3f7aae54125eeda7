-- ===== src/StringInfo.antt =====
-- String buffers that grow: src/backend/lib/stringinfo.c.
--
-- The bytes of the buffer go by their offset. An int is a number below 2 ^ 31: a sum or a product that
-- is not is `overflow`. A write at or behind `maxlen` is `overrun`, elog(ERROR) is `error`. Whether
-- palloc and repalloc return memory, by the size, and what vsnprintf writes and returns, by the room
-- it is given, are arguments.
pub mod Valid
pub mod Append
pub mod Examples
use postgres_v.Base.{
  ℕ, zero, suc, ◌+◌, ◌-◌, ◌*◌, ◌^◌, ◌≤◌, ◌<◌, Bool, true, false, ◌&&◌, Option, none, some, List, [],
  ◌∷◌, length, ltb, leb, ◌==◌, if◌then◌else◌,
}

pub record StringInfo : Type 0 where
  pub data_bytes : ℕ → ℕ
  pub len : ℕ
  pub maxlen : ℕ

pub data Outcome : Type 0 where
  ok : StringInfo → Outcome
  error : Outcome
  overflow : Outcome
  overrun : Outcome
  out_of_fuel : Outcome

abbrev pub and_then : Outcome → (StringInfo → Outcome) → Outcome
and_then (ok s) k = k s
and_then error k = error
and_then overflow k = overflow
and_then overrun k = overrun
and_then out_of_fuel k = out_of_fuel

abbrev pub int_limit : ℕ
int_limit = 2 ^ 31

-- bytes from the offset `i` on
pub write : (ℕ → ℕ) → (i : ℕ) → List ℕ → ℕ → ℕ
write d i [] = d
write d i (b ∷ bs) = write (λ j. if i == j then b else d j) (i + 1) bs

-- `init_string_info`, which `make_string_info` calls on a new structure
pub init_string_info : (palloc : ℕ → Bool) → (garbage : ℕ → ℕ) → Outcome
init_string_info palloc garbage =
    if palloc 256
    then ok (record { data_bytes = write garbage 0 (0 ∷ []); len = 0; maxlen = 256 })
    else error

-- `while (needed > newlen)`: `none` is an overflow
pub double_loop : (fuel needed newlen : ℕ) → Option ℕ
double_loop zero needed newlen = none
double_loop (suc fuel) needed newlen =
    if ltb newlen needed
    then elim (leb int_limit (2 * newlen)) [
      | true ↦ none
      | false ↦ double_loop fuel needed (2 * newlen)
    ]
    else some newlen

module _ (repalloc : ℕ → Bool) where
  -- the end of `enlarge_string_info`, on the new length
  pub resize : Option ℕ → StringInfo → Outcome
  resize none s = overflow
  resize (some newlen) s = if repalloc newlen then ok (record s { maxlen = newlen }) else error

  pub enlarge_string_info : (needed : ℕ) → StringInfo → Outcome
  enlarge_string_info needed s =
      let all = needed + (s.len + 1) in
      if leb int_limit all
      then overflow
      else (if leb all s.maxlen
          then ok s
          else (if leb int_limit (2 * s.maxlen)
              then overflow
              else resize (double_loop 32 all (2 * s.maxlen)) s))

  pub append_string_info_char : (ch : ℕ) → StringInfo → Outcome
  append_string_info_char ch s =
      and_then (if leb s.maxlen (s.len + 1) then enlarge_string_info 1 s else ok s) (λ t.
        if ltb (t.len + 1) t.maxlen
        then ok (record t { data_bytes = write t.data_bytes t.len (ch ∷ 0 ∷ []); len = t.len + 1 })
        else overrun)

  pub append_binary_string_info : List ℕ → StringInfo → Outcome
  append_binary_string_info bytes s = and_then (enlarge_string_info (length bytes) s) (λ t.
      if ltb (t.len + length bytes) t.maxlen
      then ok (record t {
        data_bytes = write (write t.data_bytes t.len bytes) (t.len + length bytes) (0 ∷ []);
        len = t.len + length bytes;
      })
      else overrun)

  -- what vsnprintf returned, `none` for a negative number, and the bytes it wrote
  module _ (vsnprintf : (room : ℕ) → Option ℕ × List ℕ) where
    -- a round: the text is in, or the buffer was too small. Before the first attempt at formatting
    -- there must be more than 16 bytes of room.
    pub print_round : StringInfo → Bool × StringInfo
    print_round s =
        let avail = s.maxlen - s.len - 1 in
        let (ret, bytes) = vsnprintf avail in
        let t = record s { data_bytes = write s.data_bytes s.len bytes } in
        if ltb 16 avail
        then elim ret [
          | none ↦ (false, t)
          | some n ↦ if ltb (n + 1) avail then (true, record t { len = s.len + n }) else (false, t)
        ]
        else (false, s)

    pub append_string_info : (fuel : ℕ) → StringInfo → Outcome
    append_string_info zero s = out_of_fuel
    append_string_info (suc fuel) s =
        let (fits, t) = print_round s in
        let retry = and_then (enlarge_string_info t.maxlen t) (append_string_info fuel) in
        if fits then ok t else retry
