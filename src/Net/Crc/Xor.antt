-- ===== src/Net/Crc/Xor.antt =====
-- Laws of `^` of source/net.c on numbers: it is associative and commutative, and acts on the parts of a
-- number. The native operation has no laws at variables, so they come from the recursion on digits
-- that it stands for.
use Prim.Native.Nat.{digits, differ, bit_xor-bitwise}
use native.Mathlib.Nat.{pow-suc}
use nano_s.Prelude.{
  ℕ, zero, suc, ◌+◌, ◌*◌, ◌/◌, ◌%◌, ◌^◌, ◌≤◌, ◌<◌, ◌≡◌, refl, ap, ap₂, sym, ◌∙◌, arith, bit_xor,
}

abbrev xor_digits : ℕ → ℕ → ℕ → ℕ
xor_digits = digits (λ b. b) differ

differ_bits : (x y : ℕ) → x < 2 → y < 2 → differ x y ≡ (x + y) % 2
differ_bits zero y p q = omega arith
differ_bits (suc zero) zero p q = refl
differ_bits (suc zero) (suc zero) p q = refl
differ_bits (suc zero) (suc (suc y)) p q = absurd (omega arith)
differ_bits (suc (suc x)) y p q = absurd (omega arith)

-- Any count of digits that is large enough will do.
digits_enough : (n m a b : ℕ) → a ≤ n → a ≤ m → xor_digits n a b ≡ xor_digits m a b
digits_enough zero zero zero b p q = refl
digits_enough zero (suc m) zero b p q = refl
digits_enough (suc n) zero zero b p q = refl
digits_enough (suc n) (suc m) zero b p q = refl
digits_enough zero m (suc a) b p q = absurd (omega arith)
digits_enough (suc n) zero (suc a) b p q = absurd (omega arith)
digits_enough (suc n) (suc m) (suc a) b p q =
    ap (λ t. t * 2 + differ (suc a % 2) (b % 2))
      (digits_enough n m (suc a / 2) (b / 2) (omega arith) (omega arith))

bit_xor-step : (a b : ℕ) → bit_xor a b ≡ bit_xor (a / 2) (b / 2) * 2 + (a % 2 + b % 2) % 2
bit_xor-step zero b =
    bit_xor-bitwise 0 b
    ∙ (omega arith ∙ ap (λ t. t * 2 + (0 % 2 + b % 2) % 2) (sym (bit_xor-bitwise 0 (b / 2))))
bit_xor-step (suc a) b =
    bit_xor-bitwise (suc a) b
    ∙ ap₂ (λ t u. t * 2 + u)
        (digits_enough a (suc a / 2) (suc a / 2) (b / 2) (omega arith) (omega arith)
          ∙ sym (bit_xor-bitwise (suc a / 2) (b / 2)))
        (differ_bits (suc a % 2) (b % 2) (omega arith) (omega arith))

pub bit_xor-half : (a b : ℕ) → bit_xor a b / 2 ≡ bit_xor (a / 2) (b / 2)
bit_xor-half a b = omega (arith, bit_xor-step a b)

pub bit_xor-odd : (a b : ℕ) → bit_xor a b % 2 ≡ (a % 2 + b % 2) % 2
bit_xor-odd a b = omega (arith, bit_xor-step a b)

comm_below : (n a b : ℕ) → a ≤ n → b ≤ n → bit_xor a b ≡ bit_xor b a
comm_below zero a b p q = let e : a ≡ b = omega arith in rw e refl
comm_below (suc n) a b p q = omega (
  arith,
  bit_xor-step a b,
  bit_xor-step b a,
  comm_below n (a / 2) (b / 2) (omega arith) (omega arith),
)

pub bit_xor_comm : (a b : ℕ) → bit_xor a b ≡ bit_xor b a
bit_xor_comm a b = comm_below (a + b) a b (omega arith) (omega arith)

assoc_below :
    (n a b c : ℕ) → a ≤ n → b ≤ n → c ≤ n → bit_xor (bit_xor a b) c ≡ bit_xor a (bit_xor b c)
assoc_below zero a b c p q r =
    let e : a ≡ 0 = omega arith in
    let f : b ≡ 0 = omega arith in let g : c ≡ 0 = omega arith in rw (e, f, g) refl
assoc_below (suc n) a b c p q r =
    let rest = assoc_below n (a / 2) (b / 2) (c / 2) (omega arith) (omega arith) (omega arith) in
    let left = bit_xor-step (bit_xor a b) c in
    let right = bit_xor-step a (bit_xor b c) in
    let h = bit_xor-half a b in
    let k = bit_xor-half b c in
    let left' : bit_xor (bit_xor a b) c
        ≡ bit_xor (bit_xor (a / 2) (b / 2)) (c / 2) * 2 + (bit_xor a b % 2 + c % 2) % 2 =
      rw h at left in
    let right' : bit_xor a (bit_xor b c)
        ≡ bit_xor (a / 2) (bit_xor (b / 2) (c / 2)) * 2 + (a % 2 + bit_xor b c % 2) % 2 =
      rw k at right in
    omega (arith, left', right', rest, bit_xor-odd a b, bit_xor-odd b c)

pub bit_xor_assoc : (a b c : ℕ) → bit_xor (bit_xor a b) c ≡ bit_xor a (bit_xor b c)
bit_xor_assoc a b c = assoc_below (a + (b + c)) a b c (omega arith) (omega arith) (omega arith)

pub bit_xor-zero : (a : ℕ) → bit_xor 0 a ≡ a
bit_xor-zero a = bit_xor-bitwise 0 a

-- Two numbers in parts of k digits.
pub bit_xor-fields :
    (k u v l m : ℕ)
    → l < 2 ^ k
    → m < 2 ^ k
    → bit_xor (u * 2 ^ k + l) (v * 2 ^ k + m) ≡ bit_xor u v * 2 ^ k + bit_xor l m
bit_xor-fields zero u v l m p q =
    let e : l ≡ 0 = omega arith in
    let f : m ≡ 0 = omega arith in
    let g : u * 2 ^ 0 + 0 ≡ u = omega arith in
    let h : v * 2 ^ 0 + 0 ≡ v = omega arith in rw (e, f, g, h) (omega (arith, bit_xor-zero 0))
bit_xor-fields (suc k) u v l m p q =
    let two = pow-suc 2 k in
    let us : u * 2 ^ suc k ≡ 2 * (u * 2 ^ k) = omega (arith, ap (λ (t : ℕ). u * t) two) in
    let vs : v * 2 ^ suc k ≡ 2 * (v * 2 ^ k) = omega (arith, ap (λ (t : ℕ). v * t) two) in
    let xs : bit_xor u v * 2 ^ suc k ≡ 2 * (bit_xor u v * 2 ^ k) =
      omega (arith, ap (λ (t : ℕ). bit_xor u v * t) two) in
    let half_u : (2 * (u * 2 ^ k) + l) / 2 ≡ u * 2 ^ k + l / 2 = omega arith in
    let half_v : (2 * (v * 2 ^ k) + m) / 2 ≡ v * 2 ^ k + m / 2 = omega arith in
    let rest = bit_xor-fields k u v (l / 2) (m / 2) (omega (arith, two)) (omega (arith, two)) in
    let whole = bit_xor-step (2 * (u * 2 ^ k) + l) (2 * (v * 2 ^ k) + m) in
    let whole' = rw (half_u, half_v) at whole in
    rw (us, vs, xs) (omega (arith, whole', rest, bit_xor-step l m))

pub bit_xor_lt : (k a b : ℕ) → a < 2 ^ k → b < 2 ^ k → bit_xor a b < 2 ^ k
bit_xor_lt zero a b p q =
    let e : a ≡ 0 = omega arith in
    let f : b ≡ 0 = omega arith in rw (e, f) (omega (arith, bit_xor-zero 0))
bit_xor_lt (suc k) a b p q =
    let two = pow-suc 2 k in
    omega (
      arith,
      two,
      bit_xor-step a b,
      bit_xor_lt k (a / 2) (b / 2) (omega (arith, two)) (omega (arith, two)),
    )
