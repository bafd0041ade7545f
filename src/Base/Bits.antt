-- ===== src/Base/Bits.antt =====
-- Masks of k ones, and remainders by powers of two.
use Prim.Native.Nat.{
  ℕ, zero, suc, ◌+◌, ◌-◌, ◌*◌, ◌/◌, ◌%◌, ◌^◌, ◌≤◌, ◌<◌, ◌∣◌, min, bit_and, digits, bit_and-bitwise,
}
use mathlib.Core.Path.{◌≡◌}
use mathlib.Core.Logic.{◌⊎◌, inl, inr}
use native.Mathlib.Decide.{dec_lt}
use native.Mathlib.Nat.{
  pow-suc, add-zero, add-suc, dvd_refl, dvd-mul_right_of_dvd, mod-mod_of_dvd, mod-lt, mod-eq_of_lt,
  mod-eq-sub-mod, mod-add-mod,
}
use native.Mathlib.Omega.{arith}

pub pow-pos : (k : ℕ) → 0 < 2 ^ k
pow-pos zero = omega arith
pow-pos (suc k) = omega (arith, pow-suc 2 k, pow-pos k)

mod-twice : (p a : ℕ) → 0 < p → a % (p * 2) ≡ a / 2 % p * 2 + a % 2
mod-twice p a h = grind arith

mask-half : (p : ℕ) → 0 < p → ((p * 2 - 1) / 2 ≡ p - 1) × ((p * 2 - 1) % 2 ≡ 1)
mask-half p h = omega arith

-- One round on a mask: the lowest bit is kept, and half of the mask is left.
half_mask :
    (p a d : ℕ) → 0 < p → d ≡ a / 2 % p → d * 2 + min (a % 2) ((p * 2 - 1) % 2) ≡ a % (p * 2)
half_mask p a d h e = omega (arith, mod-twice p a h, (mask-half p h).1)

-- The native conjunction stands for `digits`, which takes one round for each bit.
mask_digits : (n k a : ℕ) → a ≤ n → digits (λ b. zero) min n a (2 ^ k - 1) ≡ a % 2 ^ k
mask_digits zero k a h = omega (arith, pow-pos k)
mask_digits (suc n) k zero h = omega (arith, pow-pos k)
mask_digits (suc n) zero (suc a) h = omega (arith, mask_digits n 0 (suc a / 2) (omega arith))
mask_digits (suc n) (suc k) (suc a) h =
    let halves = mask-half (2 ^ k) (pow-pos k) in
    rw (pow-suc 2 k, halves.0)
      (half_mask (2 ^ k) (suc a) _ (pow-pos k) (mask_digits n k (suc a / 2) (omega arith)))

-- A mask of k ones is a remainder.
pub bit_and_mask : (k a : ℕ) → bit_and a (2 ^ k - 1) ≡ a % 2 ^ k
bit_and_mask k a = omega (arith, bit_and-bitwise a (2 ^ k - 1), mask_digits a k a (omega arith))

pow-dvd : (k j : ℕ) → 2 ^ k ∣ 2 ^ (k + j)
pow-dvd k zero = rw add-zero (dvd_refl (2 ^ k))
pow-dvd k (suc j) = rw (add-suc, pow-suc) (dvd-mul_right_of_dvd (2 ^ k) (pow-dvd k j) 2)

-- A remainder by a larger power of two keeps the remainder by a smaller one.
pub mod-mod_pow : (j k a : ℕ) → a % 2 ^ (k + j) % 2 ^ k ≡ a % 2 ^ k
mod-mod_pow j k a = mod-mod_of_dvd (2 ^ k) a (pow-dvd k j)

-- A sum of two numbers below the modulus wraps at most once.
pub add-mod_once : (n a b : ℕ) → a < n → b < n → ((a + b) % n ≡ a + b) ⊎ ((a + b) % n + n ≡ a + b)
add-mod_once n a b h h' = elim (dec_lt (a + b) n) [
  | yes p ↦ inl (mod-eq_of_lt p)
  | no p ↦ inr (
      omega (
        arith,
        mod-eq-sub-mod {n = a + b} {m = n} (omega arith),
        mod-eq_of_lt {n = a + b - n} {m = n} (omega arith),
      ))
]

-- Two places at most a lap from the same one are apart.
pub add-mod_cancel : (n s a b : ℕ) → 0 < n → a < n → b < n → (s + a) % n ≡ (s + b) % n → a ≡ b
add-mod_cancel n s a b some h h' e =
    let at : s % n < n = mod-lt s some in
    elim (add-mod_once n (s % n) a at h) [
      | inl p ↦ elim (add-mod_once n (s % n) b at h') [
        | inl q ↦ omega (arith, p, q, e, mod-add-mod s n a, mod-add-mod s n b)
        | inr q ↦ omega (arith, p, q, e, mod-add-mod s n a, mod-add-mod s n b)
      ]
      | inr p ↦ elim (add-mod_once n (s % n) b at h') [
        | inl q ↦ omega (arith, p, q, e, mod-add-mod s n a, mod-add-mod s n b)
        | inr q ↦ omega (arith, p, q, e, mod-add-mod s n a, mod-add-mod s n b)
      ]
    ]
