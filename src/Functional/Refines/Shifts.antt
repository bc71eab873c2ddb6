-- ===== src/Functional/Refines/Shifts.antt =====
-- The shifts of C++, as a machine that masks their counts runs them, against the manual's.
use native.Mathlib.Nat.{
  div-eq_of_lt-le, div-add-mod, div-le_self, mod-eq_of_lt, mod-lt, mul-one, add-zero, pow-suc,
  one-le-pow, div-lt_iff_lt-mul, pow-le-pow_right, mod-mod,
}
use risc_v_co_simulator.Base.{
  ℕ, suc, ◌+◌, ◌-◌, ◌*◌, ◌/◌, ◌%◌, ◌^◌, ◌<◌, ◌≡◌, ◌∙◌, ap, refl, arith, ltb, if◌then◌else◌,
  to_int32, of_int32, shr_ℤ, ℤ, pos, negsuc, inl, inr, Bool-cases, ltb→lt, zero,
}
use risc_v_co_simulator.Runtime.{Build, shl, shr, sar, MasksCounts}
use risc_v_co_simulator.Isa

two_pow-add : (a b : ℕ) → 2 ^ a * 2 ^ b ≡ 2 ^ (a + b)
two_pow-add a zero = rw (mul-one, add-zero)
two_pow-add a (suc b) =
    let unary : a + suc b ≡ suc (a + b) = omega arith in
    rw unary
      (omega (arith, ap (λ (t : ℕ). 2 ^ a * t) (pow-suc 2 b), pow-suc 2 (a + b), two_pow-add a b))

-- Division of the complement of `x = q * t + s` in `(t + 1 + r) * q`.
flip_div : (q r t s : ℕ) → s < q → ((t + 1 + r) * q - 1 - (q * t + s)) / q ≡ r
flip_div q r t s h = div-eq_of_lt-le {k = r} q (omega arith) (omega arith)

module _ (x n : ℕ) (word : x < 2 ^ 32) (count : n < 32) where
  whole : 2 ^ (32 - n) * 2 ^ n ≡ 2 ^ 32
  whole =
      let full : 32 - n + n ≡ 32 = omega arith in
      two_pow-add (32 - n) n ∙ ap (λ (t : ℕ). 2 ^ t) full

  quotient-lt : x / 2 ^ n < 2 ^ (32 - n)
  quotient-lt =
      (div-lt_iff_lt-mul {k = 2 ^ n} {x = x} {y = 2 ^ (32 - n)} (one-le-pow n 2 (omega arith))).1
        (omega (arith, whole))

  complement_div : (2 ^ 32 - 1 - x) / 2 ^ n ≡ 2 ^ (32 - n) - 1 - x / 2 ^ n
  complement_div =
      let q = 2 ^ n in
      let r = 2 ^ (32 - n) - 1 - x / q in
      let sum : x / q + 1 + r ≡ 2 ^ (32 - n) = omega (arith, quotient-lt) in
      let numerator : 2 ^ 32 - 1 - x ≡ (x / q + 1 + r) * q - 1 - (q * (x / q) + x % q) =
        omega (arith, whole, ap (λ (t : ℕ). t * q) sum, div-add-mod x q) in
      ap (λ (t : ℕ). t / q) numerator
      ∙ flip_div q r (x / q) (x % q) (mod-lt x (one-le-pow n 2 (omega arith)))

  -- The arithmetic shift of an `int32_t` fills with copies of the sign.
  pub shr_ℤ-eq : of_int32 (shr_ℤ (to_int32 x) n) ≡ Isa.shift_right_arith x n
  shr_ℤ-eq = rw (mod-eq_of_lt count) (
      ground (
        arith,
        complement_div,
        quotient-lt,
        div-le_self x (2 ^ n),
        div-le_self (2 ^ 32 - 1 - x) (2 ^ n),
        pow-le-pow_right {n = 2} (omega arith) {i = 32 - n} {j = 32} (omega arith),
      ))

-- A function on words that agrees there with the manual's, and gives words.
abbrev pub Agrees : (f g : ℕ → ℕ → ℕ) → Type 0
Agrees f g = (a b : ℕ) → a < 2 ^ 32 → b < 2 ^ 32 → (f a b ≡ g a b) × (f a b < 2 ^ 32)

pub of_int32-lt : (z : ℤ) → of_int32 z < 2 ^ 32
of_int32-lt (pos n) = omega arith
of_int32-lt (negsuc n) = omega arith

module _ (build : Build) (masks : MasksCounts build) where
  pub shl-Agrees : Agrees (shl build) Isa.shift_left
  unfolding shl
  shl-Agrees a b p q = elim (Bool-cases (ltb b 32)) [
    | inl t ↦ rw (t, mod-eq_of_lt (ltb→lt b 32 t)) (refl, omega arith)
    | inr f ↦ rw f (masks.shl_masks a b p (ground arith), omega arith)
  ]

  pub shr-Agrees : Agrees (shr build) Isa.shift_right
  unfolding shr
  shr-Agrees a b p q = elim (Bool-cases (ltb b 32)) [
    | inl t ↦ rw (t, mod-eq_of_lt (ltb→lt b 32 t)) (refl, omega (arith, div-le_self a (2 ^ b)))
    | inr f ↦ rw f (masks.shr_masks a b p (ground arith), omega arith)
  ]

  pub sar-Agrees : Agrees (sar build) Isa.shift_right_arith
  unfolding sar
  sar-Agrees a b p q = elim (Bool-cases (ltb b 32)) [
    | inl t ↦ rw t (shr_ℤ-eq a b p (ltb→lt b 32 t), of_int32-lt (shr_ℤ (to_int32 a) b))
    | inr f ↦ rw f (
      masks.sar_masks a b p (ground arith)
          ∙ (shr_ℤ-eq a (b % 32) p (omega arith)
              ∙ ap (λ (t : ℕ). a / 2 ^ t + (if ltb a (2 ^ 31) then 0 else 2 ^ 32 - 2 ^ (32 - t)))
                  (mod-mod b 32)),
      omega arith,
    )
  ]

pub shift_right_arith-lt : (a b : ℕ) → a < 2 ^ 32 → Isa.shift_right_arith a b < 2 ^ 32
shift_right_arith-lt a b p =
    let low : b % 32 < 32 = omega arith in
    rw (← mod-mod b 32, ← shr_ℤ-eq a (b % 32) p low) (of_int32-lt (shr_ℤ (to_int32 a) (b % 32)))
