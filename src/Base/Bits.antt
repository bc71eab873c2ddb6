-- ===== src/Base/Bits.antt =====
-- Masks as arithmetic. The native bit operations stand for a recursion on binary digits with fuel.
use Prim.Native.Nat.{ℕ, zero, suc, ◌+◌, ◌-◌, ◌*◌, ◌/◌, ◌%◌, ◌^◌, ◌≤◌, bit_and}
use Prim.Native.Nat.{
  min, max, differ, digits, bit_or, bit_xor, bit_and-bitwise, bit_or-bitwise, bit_xor-bitwise, ◌<◌,
}
use mathlib.Core.Path.{◌≡◌, refl, ap}
use native.Mathlib.Nat.{pow-suc, one-le-pow, div-add-mod, div-div-eq-div-mul, mul-one, div-one}
use native.Mathlib.Omega.{arith}

abbrev and_at : ℕ → ℕ → ℕ → ℕ
and_at fuel a b = digits (λ _. zero) min fuel a b

-- Any fuel from `a` on gives the same digits.
and_at_enough : (f g a b : ℕ) → a ≤ f → a ≤ g → and_at f a b ≡ and_at g a b
and_at_enough zero zero a b p q = refl
and_at_enough zero (suc g) zero b p q = refl
and_at_enough zero (suc g) (suc a) b p q = absurd (omega arith)
and_at_enough (suc f) zero zero b p q = refl
and_at_enough (suc f) zero (suc a) b p q = absurd (omega arith)
and_at_enough (suc f) (suc g) zero b p q = refl
and_at_enough (suc f) (suc g) (suc a) b p q =
    omega (arith, and_at_enough f g (suc a / 2) (b / 2) (omega arith) (omega arith))

-- The lowest digit of a conjunction, and the rest.
pub bit_and_halves : (a b : ℕ) → bit_and a b ≡ bit_and (a / 2) (b / 2) * 2 + min (a % 2) (b % 2)
bit_and_halves zero b = omega (arith, bit_and-bitwise 0 b, bit_and-bitwise (0 / 2) (b / 2))
bit_and_halves (suc a) b = omega (
  arith,
  bit_and-bitwise (suc a) b,
  bit_and-bitwise (suc a / 2) (b / 2),
  and_at_enough a (suc a / 2) (suc a / 2) (b / 2) (omega arith) (omega arith),
)

bit_and-zero_below : (n a : ℕ) → a ≤ n → bit_and a 0 ≡ 0
bit_and-zero_below n zero h = refl
bit_and-zero_below zero (suc a) h = absurd (omega arith)
bit_and-zero_below (suc n) (suc a) h =
    omega (arith, bit_and_halves (suc a) 0, bit_and-zero_below n (suc a / 2) (omega arith))

pub bit_and-zero : (a : ℕ) → bit_and a 0 ≡ 0
bit_and-zero a = bit_and-zero_below a a (omega arith)

mod_halves : (p a : ℕ) → a % (2 * p) ≡ a / 2 % p * 2 + a % 2
mod_halves p a = omega (
  arith,
  div-add-mod a (2 * p),
  div-add-mod (a / 2) p,
  ap (λ (t : ℕ). p * t) (div-div-eq-div-mul a 2 p),
)

-- A mask of `k` low ones keeps the remainder by 2 ^ k.
pub bit_and_low : (k a : ℕ) → bit_and a (2 ^ k - 1) ≡ a % 2 ^ k
bit_and_low zero a = rw bit_and-zero (omega arith)
bit_and_low (suc k) a =
    let double : 2 ^ suc k ≡ 2 * 2 ^ k = omega (arith, pow-suc 2 k) in
    rw double (
      omega (
        arith,
        one-le-pow k 2,
        bit_and_halves a (2 * 2 ^ k - 1),
        ap (bit_and (a / 2)) (odd (2 ^ k) (one-le-pow k 2 (omega arith))),
        bit_and_low k (a / 2),
        mod_halves (2 ^ k) a,
      ))
  where
    odd : (p : ℕ) → 1 ≤ p → (2 * p - 1) / 2 ≡ p - 1
    odd p h = omega arith

-- A mask with `k` zeros below cuts `k` bits off.
pub bit_and_high : (k a m : ℕ) → bit_and a (m * 2 ^ k) ≡ bit_and (a / 2 ^ k) m * 2 ^ k
bit_and_high zero a m = simp (mul-one, div-one)
bit_and_high (suc k) a m =
    let double : 2 ^ suc k ≡ 2 * 2 ^ k = omega (arith, pow-suc 2 k) in
    let even : m * (2 * 2 ^ k) / 2 ≡ m * 2 ^ k = omega arith in
    rw double (
      omega (
        arith,
        bit_and_halves a (m * (2 * 2 ^ k)),
        ap (bit_and (a / 2)) even,
        bit_and_high k (a / 2) m,
        ap (λ (t : ℕ). bit_and t m * 2 ^ k) (div-div-eq-div-mul a 2 (2 ^ k)),
      ))

-- An operation on digits that gives digits keeps its operands' width.
module _ (z : ℕ → ℕ) (f : ℕ → ℕ → ℕ) (small : (b : ℕ) → z b ≤ b)
    (digit : (a b : ℕ) → f (a % 2) (b % 2) ≤ 1) where
  digits-lt : (n k a b : ℕ) → a < 2 ^ k → b < 2 ^ k → digits z f n a b < 2 ^ k
  digits-lt zero k a b p q = omega (arith, small b)
  digits-lt (suc n) k zero b p q = omega (arith, small b)
  digits-lt (suc n) zero (suc a) b p q = absurd (omega arith)
  digits-lt (suc n) (suc k) (suc a) b p q =
      let double : 2 ^ suc k ≡ 2 * 2 ^ k = omega (arith, pow-suc 2 k) in
      omega (
        arith,
        double,
        digit (suc a) b,
        digits-lt n k (suc a / 2) (b / 2) (omega (arith, double)) (omega (arith, double)),
      )

differ-le : (x y : ℕ) → x ≤ 1 → y ≤ 1 → differ x y ≤ 1
differ-le zero y p q = q
differ-le (suc x) zero p q = p
differ-le (suc x) (suc y) p q = differ-le x y (omega arith) (omega arith)

pub bit_and-lt : (k a b : ℕ) → a < 2 ^ k → b < 2 ^ k → bit_and a b < 2 ^ k
bit_and-lt k a b p q =
    rw bit_and-bitwise (digits-lt (λ _. 0) min (λ _. omega arith) (λ x y. omega arith) a k a b p q)

pub bit_or-lt : (k a b : ℕ) → a < 2 ^ k → b < 2 ^ k → bit_or a b < 2 ^ k
bit_or-lt k a b p q =
    rw bit_or-bitwise (digits-lt (λ y. y) max (λ _. omega arith) (λ x y. omega arith) a k a b p q)

pub bit_xor-lt : (k a b : ℕ) → a < 2 ^ k → b < 2 ^ k → bit_xor a b < 2 ^ k
bit_xor-lt k a b p q = rw bit_xor-bitwise (
    digits-lt (λ y. y) differ (λ _. omega arith)
      (λ x y. differ-le (x % 2) (y % 2) (omega arith) (omega arith)) a k a b p q)

digits_or_disjoint :
    (n k v m : ℕ) → v ≤ n → v < 2 ^ k → digits (λ b. b) max n v (m * 2 ^ k) ≡ v + m * 2 ^ k
digits_or_disjoint zero k v m p q = omega arith
digits_or_disjoint (suc n) k zero m p q = omega arith
digits_or_disjoint (suc n) zero (suc v) m p q = absurd (omega arith)
digits_or_disjoint (suc n) (suc k) (suc v) m p q =
    let double : m * 2 ^ suc k ≡ 2 * (m * 2 ^ k) =
      omega (arith, ap (λ (t : ℕ). m * t) (pow-suc 2 k)) in
    let half : m * 2 ^ suc k / 2 ≡ m * 2 ^ k = omega (arith, double) in
    rw half (
      omega (
        arith,
        double,
        pow-suc 2 k,
        digits_or_disjoint n k (suc v / 2) m (omega arith) (omega (arith, pow-suc 2 k)),
      ))

-- The bits of a number below 2 ^ k beside bits from 2 ^ k on.
pub bit_or-disjoint : (k v m : ℕ) → v < 2 ^ k → bit_or v (m * 2 ^ k) ≡ v + m * 2 ^ k
bit_or-disjoint k v m h = rw bit_or-bitwise (digits_or_disjoint v k v m (omega arith) h)

digits_or_zero : (n a b : ℕ) → a ≤ n → digits (λ b. b) max n a b ≡ 0 → (a ≡ 0) × (b ≡ 0)
digits_or_zero zero a b p h = (omega arith, h)
digits_or_zero (suc n) zero b p h = (refl, h)
digits_or_zero (suc n) (suc a) b p h =
    let rest = digits_or_zero n (suc a / 2) (b / 2) (omega arith) (omega arith) in
    (omega (arith, rest.0), omega (arith, rest.1))

-- A disjunction of bits is 0 only if both numbers are.
pub bit_or-zero : (a b : ℕ) → bit_or a b ≡ 0 → (a ≡ 0) × (b ≡ 0)
bit_or-zero a b h = digits_or_zero a a b (omega arith) (rw bit_or-bitwise at h)
