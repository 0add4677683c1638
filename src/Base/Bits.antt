-- ===== src/Base/Bits.antt =====
-- `x & mask` for a mask of low ones is the remainder by a power of two; no `&` exceeds its mask.
use Prim.Native.Nat.{
  ℕ, zero, suc, ◌+◌, ◌-◌, ◌*◌, ◌/◌, ◌%◌, ◌^◌, ◌≤◌, ◌<◌, min, bit_and, digits, bit_and-bitwise,
}
use mathlib.Core.Path.{◌≡◌, ap, ◌∙◌}
use native.Mathlib.Nat.{
  pow-suc, one-le-pow, mul-add-mod_self_right, mod-eq_of_lt, mod-lt, div-add-mod,
}
use native.Mathlib.Omega.{arith}

-- The digit recursion with fuel `n`, as `bit_and-bitwise` states it.
abbrev and_fuel : ℕ → ℕ → ℕ → ℕ
and_fuel n a b = digits (λ b. zero) min n a b

-- Fuel does not matter from `a` on, and the result never exceeds the mask.
and_fuel-le : (n a b : ℕ) → and_fuel n a b ≤ b
and_fuel-le zero a b = omega arith
and_fuel-le (suc n) zero b = omega arith
and_fuel-le (suc n) (suc a) b = omega (arith, and_fuel-le n (suc a / 2) (b / 2))

pub bit_and-le : (a b : ℕ) → bit_and a b ≤ b
bit_and-le a b = omega (arith, bit_and-bitwise a b, and_fuel-le a a b)

halve-mod : (x p : ℕ) → 1 ≤ p → x % (p * 2) ≡ x / 2 % p * 2 + x % 2
halve-mod x p h =
    let q = x / 2 / p in
    let r = x / 2 % p * 2 + x % 2 in
    let small : r < p * 2 = omega (arith, mod-lt (x / 2) {m = p} h) in
    let whole : x ≡ q * (p * 2) + r = grind (arith, div-add-mod (x / 2) p) in
    ap (λ n. n % (p * 2)) whole ∙ mul-add-mod_self_right q (p * 2) r ∙ mod-eq_of_lt small

and_fuel-mask : (n k a : ℕ) → a ≤ n → and_fuel n a (2 ^ k - 1) ≡ a % 2 ^ k
and_fuel-mask zero k zero h = omega arith
and_fuel-mask zero k (suc a) h = elim h [ ]
and_fuel-mask (suc n) k zero h = omega arith
and_fuel-mask (suc n) zero (suc a) h = omega (arith, and_fuel-le (suc n) (suc a) 0)
and_fuel-mask (suc n) (suc k) (suc a) h =
    let p : 1 ≤ 2 ^ k = one-le-pow k 2 (omega arith) in
    let half : (2 ^ k * 2 - 1) / 2 ≡ 2 ^ k - 1 = omega arith in
    rw (pow-suc 2 k, half)
      (omega (arith, and_fuel-mask n k (suc a / 2) (omega arith), halve-mod (suc a) (2 ^ k) p))

-- `a & (2^k - 1)` is the remainder by `2^k`.
pub bit_and-mask : (a k : ℕ) → bit_and a (2 ^ k - 1) ≡ a % 2 ^ k
bit_and-mask a k = bit_and-bitwise a (2 ^ k - 1) ∙ and_fuel-mask a k a (omega arith)
