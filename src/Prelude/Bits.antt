-- ===== src/Prelude/Bits.antt =====
-- Low masks of `&` and disjoint fields of `|`: the operations have no laws at variables in the
-- library, so both come from the recursion on digits that the native operations stand for.
use Prim.Native.Nat.{
  ℕ, zero, suc, ◌+◌, ◌*◌, ◌/◌, ◌%◌, ◌≤◌, ◌<◌, ◌-◌, ◌^◌, min, max, bit_and, bit_or, digits,
  bit_and-bitwise, bit_or-bitwise,
}
use mathlib.Core.Path.{◌≡◌, ap, ◌∙◌}
use native.Mathlib.Nat.{pow-suc, one-le-pow}
use native.Mathlib.Omega.{arith}

-- The lowest binary digit of a remainder.
mod_double : (a p : ℕ) → 0 < p → a / 2 % p * 2 + a % 2 ≡ a % (2 * p)
mod_double a p h = grind arith

mask_digits : (fuel k a : ℕ) → a ≤ fuel → digits (λ b. zero) min fuel a (2 ^ k - 1) ≡ a % 2 ^ k
mask_digits zero k zero h = grind (arith, one-le-pow k 2)
mask_digits zero k (suc a) h = absurd (omega arith)
mask_digits (suc fuel) k zero h = grind (arith, one-le-pow k 2)
mask_digits (suc fuel) zero (suc a) h = omega (arith, mask_digits fuel 0 (suc a / 2) (omega arith))
mask_digits (suc fuel) (suc k) (suc a) h =
    let p = pow-suc 2 k in
    let one = one-le-pow k 2 in
    let half : (2 ^ suc k - 1) / 2 ≡ 2 ^ k - 1 = omega (arith, p, one) in
    let odd : (2 ^ suc k - 1) % 2 ≡ 1 = omega (arith, p, one) in
    let twice : suc a % 2 ^ suc k ≡ suc a % (2 * 2 ^ k) =
      ap (λ (t : ℕ). suc a % t) (omega (arith, p)) in
    rw (half, odd)
      (omega (
        arith,
        mask_digits fuel k (suc a / 2) (omega arith),
        mod_double (suc a) (2 ^ k) (omega (arith, one)),
        twice,
      ))

-- `&` with k low ones is the remainder by 2 ^ k.
pub bit_and_mask : (k a : ℕ) → bit_and a (2 ^ k - 1) ≡ a % 2 ^ k
bit_and_mask k a = bit_and-bitwise a (2 ^ k - 1) ∙ mask_digits a k a (omega arith)

field_digits :
    (fuel k q r : ℕ) → r ≤ fuel → r < 2 ^ k → digits (λ b. b) max fuel r (q * 2 ^ k) ≡ r + q * 2 ^ k
field_digits zero k q zero h lt = omega arith
field_digits zero k q (suc r) h lt = absurd (omega arith)
field_digits (suc fuel) k q zero h lt = omega arith
field_digits (suc fuel) zero q (suc r) h lt = absurd (omega arith)
field_digits (suc fuel) (suc k) q (suc r) h lt =
    let p = pow-suc 2 k in
    let e : q * 2 ^ suc k ≡ 2 * (q * 2 ^ k) = omega (arith, ap (λ (t : ℕ). q * t) p) in
    let half : 2 * (q * 2 ^ k) / 2 ≡ q * 2 ^ k = omega arith in
    let even : 2 * (q * 2 ^ k) % 2 ≡ 0 = omega arith in
    rw (e, half, even)
      (omega (arith, field_digits fuel k q (suc r / 2) (omega arith) (omega (arith, p))))

-- `|` of a low field and a high one is their sum.
pub bit_or_fields : (k q r : ℕ) → r < 2 ^ k → bit_or r (q * 2 ^ k) ≡ r + q * 2 ^ k
bit_or_fields k q r h = bit_or-bitwise r (q * 2 ^ k) ∙ field_digits r k q r (omega arith) h
