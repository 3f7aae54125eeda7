-- ===== src/Base/Powers.antt =====
-- Powers of two.
use native.Mathlib.Nat.{pow-suc, pow-le-pow_right}
use native.Mathlib.Numerals.{towards_suc}
use native.Mathlib.Omega.{arith}
use Prim.Native.Nat.{ℕ, zero, suc, ◌+◌, ◌*◌, ◌^◌, ◌≤◌, ◌<◌}
use mathlib.Core.Path.{◌≡◌}
use native.Mathlib.Decide.{dec_lt}

pub two_pow-add-one : (n : ℕ) → 2 ^ (n + 1) ≡ 2 * 2 ^ n
two_pow-add-one n = simp towards_suc (omega (arith, pow-suc 2 n))

pub two_pow-add-four : (n : ℕ) → 2 ^ (n + 4) ≡ 16 * 2 ^ n
two_pow-add-four n = simp towards_suc (
    omega (
      arith,
      pow-suc 2 n,
      pow-suc 2 (suc n),
      pow-suc 2 (suc (suc n)),
      pow-suc 2 (suc (suc (suc n))),
    ))

pub two_pow_pos : (n : ℕ) → 0 < 2 ^ n
two_pow_pos zero = omega arith
two_pow_pos (suc n) = omega (arith, pow-suc 2 n, two_pow_pos n)

pub two_pow-le : (i j : ℕ) → i ≤ j → 2 ^ i ≤ 2 ^ j
two_pow-le i j h = pow-le-pow_right (omega arith) h

pub two_pow-lt_cancel : (i j : ℕ) → 2 ^ i < 2 ^ j → i < j
two_pow-lt_cancel i j h = elim (dec_lt i j) [
  | yes p ↦ p
  | no p ↦ absurd (omega (arith, two_pow-le j i (omega arith)))
]
