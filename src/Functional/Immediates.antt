-- ===== src/Functional/Immediates.antt =====
-- The immediates of models/functional/instruction.h against those of the manual.
use risc_v_co_simulator.Base.{ℕ, ◌-◌, ◌/◌, ◌^◌, ◌<◌, ◌≡◌, arith, bit_and_low, bit_and_high}
use risc_v_co_simulator.Isa
use risc_v_co_simulator.Functional.Instruction.{
  get_imm_i, get_imm_s, get_imm_b, get_imm_u, get_imm_j,
}

module _ (raw : ℕ) (word : raw < 2 ^ 32) where
  pub get_imm_i-eq : get_imm_i raw ≡ Isa.imm_i raw
  unfolding get_imm_i
  get_imm_i-eq = ground (arith, bit_and_low 1 (raw / 2 ^ 31))

  pub get_imm_s-eq : get_imm_s raw ≡ Isa.imm_s raw
  unfolding get_imm_s
  get_imm_s-eq = ground (arith, bit_and_low 1 (raw / 2 ^ 31))

  pub get_imm_b-eq : get_imm_b raw ≡ Isa.imm_b raw
  unfolding get_imm_b
  get_imm_b-eq = ground arith

  pub get_imm_u-eq : get_imm_u raw ≡ Isa.imm_u raw
  unfolding get_imm_u
  get_imm_u-eq = omega (arith, bit_and_high 12 raw (2 ^ 20 - 1), bit_and_low 20 (raw / 2 ^ 12))

  pub get_imm_j-eq : get_imm_j raw ≡ Isa.imm_j raw
  unfolding get_imm_j
  get_imm_j-eq = ground arith

  -- GetImm of each of the five layouts, on a word of 32 bits, is the manual's immediate of that
  -- format.
  pub get_imm-eq :
      (get_imm_i raw ≡ Isa.imm_i raw)
      × (get_imm_s raw ≡ Isa.imm_s raw)
      × (get_imm_b raw ≡ Isa.imm_b raw)
      × (get_imm_u raw ≡ Isa.imm_u raw)
      × (get_imm_j raw ≡ Isa.imm_j raw)
  get_imm-eq = (get_imm_i-eq, get_imm_s-eq, get_imm_b-eq, get_imm_u-eq, get_imm_j-eq)

  pub get_imm-lt :
      (get_imm_i raw < 2 ^ 32)
      × (get_imm_s raw < 2 ^ 32)
      × (get_imm_b raw < 2 ^ 32)
      × (get_imm_u raw < 2 ^ 32)
      × (get_imm_j raw < 2 ^ 32)
  get_imm-lt =
      rw (get_imm_i-eq, get_imm_s-eq, get_imm_b-eq, get_imm_u-eq, get_imm_j-eq) (ground arith)
