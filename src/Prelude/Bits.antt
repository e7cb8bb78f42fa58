-- ===== src/Prelude/Bits.antt =====
-- `|` of two fields that do not overlap, and `&` with a mask of low bits, as arithmetic.
use Prim.Native.Nat.{
  ℕ, zero, suc, ◌+◌, ◌-◌, ◌*◌, ◌/◌, ◌%◌, ◌^◌, ◌≤◌, ◌<◌, min, max, bit_and, bit_or, digits,
  bit_and-bitwise, bit_or-bitwise,
}
use mathlib.Core.Path.{◌≡◌, refl, ap}
use native.Mathlib.Nat.{le_refl, pow-suc, one-le-pow, div-add-mod'}
use native.Mathlib.Omega.{arith}

-- A field that starts one bit higher.
higher_field : (k q : ℕ) → q * 2 ^ suc k ≡ q * 2 ^ k + q * 2 ^ k
higher_field k q = omega (arith, ap (λ (p : ℕ). q * p) (pow-suc 2 k))

-- The digits of the high field `a` and the low field `r`, one after the other; `n` bounds their number.
or_digits : (n a k q r : ℕ) → a ≤ n → a ≡ q * 2 ^ k → r < 2 ^ k → digits (λ y. y) max n a r ≡ a + r
or_digits zero zero k q r few e low = omega arith
or_digits zero (suc a) k q r few e low = absurd (omega arith)
or_digits (suc n) zero k q r few e low = omega arith
or_digits (suc n) (suc a) zero q r few e low =
    omega (
      arith,
      or_digits n (suc a / 2) 0 (suc a / 2) (r / 2) (omega arith) (omega arith) (omega arith),
    )
or_digits (suc n) (suc a) (suc k) q r few e low =
    let halves = higher_field k q in
    let powers = pow-suc 2 k in
    omega
      (arith, halves, or_digits n (suc a / 2) k q (r / 2) (omega arith) (omega arith) (omega arith))

-- The digits of `a`, whose low field is `r`, under the mask `m`.
and_digits :
    (n a k q r m : ℕ)
    → a ≤ n
    → a ≡ q * 2 ^ k + r
    → r < 2 ^ k
    → m + 1 ≡ 2 ^ k
    → digits (λ y. 0) min n a m ≡ r
and_digits zero a k q r m few e low mask = omega arith
and_digits (suc n) zero k q r m few e low mask = omega arith
and_digits (suc n) (suc a) zero q r m few e low mask = omega (
  arith,
  and_digits n (suc a / 2) 0 (suc a / 2) 0 (m / 2) (omega arith) (omega arith) (omega arith)
      (omega arith),
)
and_digits (suc n) (suc a) (suc k) q r m few e low mask =
    let halves = higher_field k q in
    let powers = pow-suc 2 k in
    omega (
      arith,
      halves,
      and_digits n (suc a / 2) k q (r / 2) (m / 2) (omega arith) (omega arith) (omega arith)
          (omega arith),
    )

-- `(q << k) | r` is a sum when `r` fits `k` bits.
pub bit_or_fields : (k q r : ℕ) → r < 2 ^ k → bit_or (q * 2 ^ k) r ≡ q * 2 ^ k + r
bit_or_fields k q r low =
    simp bit_or-bitwise (or_digits (q * 2 ^ k) (q * 2 ^ k) k q r (le_refl _) refl low)

-- A mask of `k` low bits is the remainder by `2 ^ k`.
pub bit_and_mask : (k a : ℕ) → bit_and a (2 ^ k - 1) ≡ a % 2 ^ k
bit_and_mask k a =
    let positive = one-le-pow k 2 in
    simp bit_and-bitwise (
      and_digits a a k (a / 2 ^ k) (a % 2 ^ k) (2 ^ k - 1) (le_refl _)
        (omega (arith, positive, div-add-mod' a (2 ^ k))) (grind arith) (omega (arith, positive)))
