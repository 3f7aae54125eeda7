-- ===== src/StringInfo/Examples.antt =====
-- Concrete runs: a buffer of 16 bytes that holds "a".
use postgres_v.Base.{
  ℕ, ◌≡◌, refl, inl, Bool, true, false, Option, none, some, List, [], ◌∷◌, arith, ltb, ◌==◌,
  if◌then◌else◌,
}
use postgres_v.StringInfo.{StringInfo, ok, append_binary_string_info, append_string_info}
use postgres_v.StringInfo.Valid.{HasText, Holds}
use postgres_v.StringInfo.Append.{Prints, append_binary_string_info-Holds, append_string_info-Holds}

abbrev short : StringInfo
short = record { data_bytes = λ i. if i == 0 then 97 else 0; len = 1; maxlen = 16 }

short-HasText : HasText short (97 ∷ [])
short-HasText = record { bytes = (refl, tt); len = refl; room = omega arith }

-- repalloc succeeds
abbrev always : ℕ → Bool
always n = true

append_binary_string_info-Holds_example :
    (t : StringInfo) × (append_binary_string_info always (98 ∷ 99 ∷ []) short ≡ ok t)
    × Holds t (97 ∷ 98 ∷ 99 ∷ [])
append_binary_string_info-Holds_example =
    append_binary_string_info-Holds always (λ n lt. refl) short (97 ∷ []) (98 ∷ 99 ∷ [])
      (short-HasText, refl) (omega arith)

-- a vsnprintf that formats "bc", and fails where that does not fit
abbrev prints_bc : ℕ → Option ℕ × List ℕ
prints_bc room = if ltb 2 room then (some 2, 98 ∷ 99 ∷ 0 ∷ []) else (none, [])

prints_bc-Prints : Prints prints_bc (98 ∷ 99 ∷ [])
prints_bc-Prints = record {
  fits = λ room lt. let e : ltb 2 room ≡ true = ground arith in rw e refl;
  fails = λ room le. let e : ltb 2 room ≡ false = ground arith in inl (rw e refl);
}

append_string_info-Holds_example :
    (t : StringInfo) × (append_string_info always prints_bc 2 short ≡ ok t)
    × Holds t (97 ∷ 98 ∷ 99 ∷ [])
append_string_info-Holds_example =
    append_string_info-Holds always prints_bc (98 ∷ 99 ∷ []) prints_bc-Prints (λ n lt. refl) 1 short
      (97 ∷ []) short-HasText (omega arith) (omega arith)
