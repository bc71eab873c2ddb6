-- ===== src/Base/Word.antt =====
-- The fixed-width integers of C++ as native numbers: casts, shifts by a constant, bit-fields, and
-- the two's complement reading of an `int32_t`.
use Prim.Native.Nat.{ℕ, ◌-◌, ◌*◌, ◌/◌, ◌%◌, ◌^◌}
use mathlib.Core.Bool.{Bool, true, false}
use risc_v_co_simulator.Base.Tests.{ltb, if◌then◌else◌}

abbrev pub u8 : ℕ → ℕ
u8 n = n % 2 ^ 8

abbrev pub u16 : ℕ → ℕ
u16 n = n % 2 ^ 16

abbrev pub u32 : ℕ → ℕ
u32 n = n % 2 ^ 32

infixl 75 ◌<<<◌ ◌>>>◌
-- `x << k` before the cast to the width of its type.
abbrev pub ◌<<<◌ : ℕ → ℕ → ℕ
x <<< k = x * 2 ^ k

abbrev pub ◌>>>◌ : ℕ → ℕ → ℕ
x >>> k = x / 2 ^ k

-- Bit-field of `width` bits that starts `low` bits above the lowest.
abbrev pub bits : (raw low width : ℕ) → ℕ
bits raw low width = raw / 2 ^ low % 2 ^ width

-- `negsuc n` is -(n + 1).
pub data ℤ : Type 0 where
  pos : ℕ → ℤ
  negsuc : ℕ → ℤ

-- static_cast<int32_t> of a `uint32_t`, and back.
abbrev pub to_int32 : ℕ → ℤ
to_int32 w = if ltb w (2 ^ 31) then pos w else negsuc (2 ^ 32 - 1 - w)

abbrev pub of_int32 : ℤ → ℕ
of_int32 (pos n) = u32 n
of_int32 (negsuc n) = 2 ^ 32 - 1 - u32 n

abbrev pub ltb_ℤ : ℤ → ℤ → Bool
ltb_ℤ (pos a) (pos b) = ltb a b
ltb_ℤ (pos a) (negsuc b) = false
ltb_ℤ (negsuc a) (pos b) = true
ltb_ℤ (negsuc a) (negsuc b) = ltb b a

-- `x >> k` of a signed x: the quotient by 2 ^ k, rounded down.
abbrev pub shr_ℤ : ℤ → ℕ → ℤ
shr_ℤ (pos n) k = pos (n >>> k)
shr_ℤ (negsuc n) k = negsuc (n >>> k)
