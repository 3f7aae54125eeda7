-- ===== src/Base/Masks.antt =====
-- Masks of ones: `bit_and` with one is a remainder, and how a remainder changes when the mask gains
-- a digit.
use native.Mathlib.Nat.{
  pow-suc, mul-add-mod_self_left, mod-eq_of_lt, mod-mod_of_dvd, mod-eq-sub-mod, mod-lt, div-add-mod,
  dvd-mul_left,
}
use native.Mathlib.Omega.{arith}
use Prim.Native.Nat.{
  ℕ, zero, suc, ◌+◌, ◌-◌, ◌*◌, ◌/◌, ◌%◌, ◌^◌, ◌≤◌, ◌<◌, min, max, digits, bit_and, bit_or,
  bit_and-bitwise, bit_or-bitwise,
}
use mathlib.Core.Path.{◌≡◌, refl, sym, ap, ◌∙◌}
use mathlib.Core.Logic.{◌⊎◌, inl, inr}
use native.Mathlib.Decide.{dec_lt}
use postgres_v.Base.Powers.{two_pow_pos}

digits_mod : (a p : ℕ) → 0 < p → (a / 2 % p) * 2 + a % 2 ≡ a % (2 * p)
digits_mod a p pos =
    let r = a / 2 % p in
    let q = a / 2 / p in
    let lt = mod-lt (a / 2) pos in
    let e : a ≡ (2 * p) * q + (r * 2 + a % 2) =
      (let a2 = div-add-mod (a / 2) p in let a1 = div-add-mod a 2 in omega arith) in
    (sym (mod-eq_of_lt (omega arith)) ∙ sym (mul-add-mod_self_left (2 * p) q (r * 2 + a % 2)))
    ∙ ap (λ x. x % (2 * p)) (sym e)

-- the digits of `a` at the ones of a mask
digits-mod : (n k a : ℕ) → a ≤ n → digits (λ b. zero) min n a (2 ^ k - 1) ≡ a % 2 ^ k
digits-mod zero k zero le = sym (mod-eq_of_lt (two_pow_pos k))
digits-mod zero k (suc a) le = absurd (omega arith)
digits-mod (suc n) k zero le = sym (mod-eq_of_lt (two_pow_pos k))
digits-mod (suc n) zero (suc a) le = omega (arith, digits-mod n zero (suc a / 2) (omega arith))
digits-mod (suc n) (suc k) (suc a) le =
    let pow = pow-suc 2 k in
    let pos = two_pow_pos k in
    let half : (2 ^ suc k - 1) / 2 ≡ 2 ^ k - 1 = omega (arith, pow, pos) in
    let low : (2 ^ suc k - 1) % 2 ≡ 1 = omega (arith, pow, pos) in
    let double : 2 ^ suc k ≡ 2 * 2 ^ k = omega (arith, pow) in
    rw (half, low, digits-mod n k (suc a / 2) (omega arith), double)
      (omega (arith, digits_mod (suc a) (2 ^ k) pos))

pub bit_and-mask : (a k : ℕ) → bit_and a (2 ^ k - 1) ≡ a % 2 ^ k
bit_and-mask a k = bit_and-bitwise a (2 ^ k - 1) ∙ digits-mod a k a (omega arith)

digits-none : (n b : ℕ) → digits (λ c. c) max n 0 b ≡ b
digits-none zero b = refl
digits-none (suc n) b = refl

digits-or : (n j a b : ℕ) → a ≡ 2 ^ j → b + 1 ≡ a → a ≤ n → digits (λ c. c) max n a b ≡ a + b
digits-or zero j a b pow e le = absurd (omega (arith, two_pow_pos j))
digits-or (suc n) j zero b pow e le = absurd (omega (arith, two_pow_pos j))
digits-or (suc n) zero (suc a) b pow e le =
    let one : a ≡ 0 = omega arith in
    let none : b ≡ 0 = omega arith in rw (one, none, digits-none n 0) refl
digits-or (suc n) (suc j) (suc a) b pow e le =
    let double = pow-suc 2 j in
    let low : suc a % 2 ≡ 0 = omega (arith, double) in
    let ones : b % 2 ≡ 1 = omega (arith, double) in
    rw
      (
        low,
        ones,
        digits-or n j (suc a / 2) (b / 2) (omega (arith, double)) (omega (arith, double))
            (omega arith),
      )
      (omega (arith, double))

-- a power of 2 with the ones below it
pub bit_or-ones : (j b : ℕ) → b + 1 ≡ 2 ^ j → bit_or (b + 1) b ≡ (b + 1) + b
bit_or-ones j b e = bit_or-bitwise (b + 1) b ∙ digits-or (b + 1) j (b + 1) b e refl (omega arith)

pub mod_double : (v p : ℕ) → 0 < p → (v % (2 * p) ≡ v % p) ⊎ (v % (2 * p) ≡ v % p + p)
mod_double v p pos =
    let same = mod-mod_of_dvd p v (dvd-mul_left p 2) in
    let x = v % (2 * p) in
    let lt = mod-lt v {m = 2 * p} (omega arith) in
    elim (dec_lt x p) [
      | yes small ↦ inl (sym (mod-eq_of_lt small) ∙ same)
      | no large ↦ inr (
          let back = mod-eq-sub-mod {n = x} {m = p} (omega arith) ∙ mod-eq_of_lt (omega arith) in
          omega (arith, same, back))
    ]
