-- ===== src/Base/Bits.antt =====
-- A mask of low bits is a remainder, and remainders by powers of two nest.
use Prim.Native.Nat.{
  ℕ, zero, suc, ◌+◌, ◌-◌, ◌*◌, ◌/◌, ◌%◌, ◌^◌, ◌≤◌, ◌<◌, ◌∣◌, min, bit_and, digits, bit_and-bitwise,
}
use mathlib.Core.Path.{◌≡◌, ap, ◌∙◌, subst}
use mathlib.Core.Logic.{◌≢◌}
use native.Mathlib.Decide.{dec_lt}
use native.Mathlib.Nat.{
  pow-suc, one-le-pow, div-add-mod, mod-mod_of_dvd, dvd_refl, dvd-mul_right_of_dvd, zero-add,
}
use native.Mathlib.Omega.{arith}

-- The lowest `k` of the digits of `a = q * 2^k + r`, taken by at most `n` rounds of the recursion
-- behind `bit_and`, make `r`.
low_digits :
    (n k a q r : ℕ)
    → a ≤ n
    → a ≡ q * 2 ^ k + r
    → r < 2 ^ k
    → digits (λ _. zero) min n a (2 ^ k - 1) ≡ r
low_digits zero k zero q r small split below = omega arith
low_digits zero k (suc a) q r small split below = absurd (omega arith)
low_digits (suc n) k zero q r small split below = omega arith
low_digits (suc n) zero (suc a) q r small split below =
    omega
      (arith, low_digits n zero (suc a / 2) (suc a / 2) 0 (omega arith) (omega arith) (omega arith))
low_digits (suc n) (suc k) (suc a) q r small split below =
    let twice : q * 2 ^ suc k ≡ 2 * (q * 2 ^ k) =
      omega (arith, ap (λ (t : ℕ). q * t) (pow-suc 2 k)) in
    let half : (2 ^ suc k - 1) / 2 ≡ 2 ^ k - 1 = omega (arith, pow-suc 2 k) in
    let odd : (2 ^ suc k - 1) % 2 ≡ 1 = omega (arith, pow-suc 2 k, one-le-pow k 2) in
    rw (half, odd)
      (omega (
        arith,
        low_digits n k (suc a / 2) q (r / 2) (omega arith) (omega arith)
            (omega (arith, pow-suc 2 k)),
      ))

-- `n & (2^k - 1)` is `n % 2^k`.
pub bit_and_mask : (k a : ℕ) → bit_and a (2 ^ k - 1) ≡ a % 2 ^ k
bit_and_mask k a =
    bit_and-bitwise a (2 ^ k - 1)
    ∙ low_digits a k a (a / 2 ^ k) (a % 2 ^ k) (omega arith) (ground (arith, one-le-pow k 2))
        (ground (arith, one-le-pow k 2))

mul-le : (c m n : ℕ) → m ≤ n → c * m ≤ c * n
mul-le c m n h = grind arith

mul-step : (c m n : ℕ) → m < n → c * m + c ≤ c * n
mul-step c m n h = grind arith

-- Two numbers less than `c` apart have different remainders.
pub mod-ne : (c r t : ℕ) → r < t → t < r + c → r % c ≢ t % c
mod-ne c r t p q e = elim (dec_lt (r / c) (t / c)) [
  | yes h ↦ omega (arith, mul-step c (r / c) (t / c) h, div-add-mod r c, div-add-mod t c)
  | no h ↦ omega (arith, mul-le c (t / c) (r / c) (omega arith), div-add-mod r c, div-add-mod t c)
]

pow-dvd-pow : (k j : ℕ) → 2 ^ k ∣ 2 ^ (j + k)
pow-dvd-pow k zero = rw zero-add (dvd_refl (2 ^ k))
pow-dvd-pow k (suc j) =
    let grown : 2 ^ (suc j + k) ≡ 2 ^ (j + k) * 2 =
      ap (λ (t : ℕ). 2 ^ t) (omega arith) ∙ pow-suc 2 (j + k) in
    rw grown (dvd-mul_right_of_dvd (2 ^ k) (pow-dvd-pow k j) 2)

-- The remainder by a smaller power of two sees through the remainder by a larger one.
pub pow-mod-pow : (k w a : ℕ) → k ≤ w → a % 2 ^ w % 2 ^ k ≡ a % 2 ^ k
pow-mod-pow k w a h = mod-mod_of_dvd (2 ^ k) a divides
  where
    divides : 2 ^ k ∣ 2 ^ w
    divides = subst (λ v. 2 ^ k ∣ 2 ^ v) (omega arith) (pow-dvd-pow k (w - k))
