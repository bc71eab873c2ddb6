-- ===== src/Tests/Valid.antt =====
-- The test machines meet what the theorems ask for.
use risc_v_co_simulator.Base.{ℕ, ◌%◌, ◌^◌, List, refl, arith, to_int32, shr_ℤ}
use native.Mathlib.Nat.{div-le_self, mod-eq_of_lt}
use risc_v_co_simulator.Runtime.{MasksCounts}
use risc_v_co_simulator.Isa
use risc_v_co_simulator.Functional.Refines.State.{view}
use risc_v_co_simulator.Functional.Refines.Shifts.{of_int32-lt}
use risc_v_co_simulator.Tests.Machines.{x86, interpreter}

pub interpreter-IsValid : (words : List ℕ) → Isa.IsValid (view (interpreter words))
interpreter-IsValid words = record {
  pc_word = omega arith;
  zero_reg = refl;
  reg_word = λ i. omega arith;
  cell_byte = λ q. ground arith;
}

pub x86-MasksCounts : MasksCounts x86
x86-MasksCounts = record {
  shl_masks = λ x n p q. refl;
  shr_masks = λ x n p q. omega (arith, div-le_self x (2 ^ (n % 32)));
  sar_masks = λ x n p q. mod-eq_of_lt (of_int32-lt (shr_ℤ (to_int32 x) (n % 32)));
}
