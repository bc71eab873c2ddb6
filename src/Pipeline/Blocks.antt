-- ===== src/Pipeline/Blocks.antt =====
-- The combinational blocks of the pipeline, models/pipeline/modules/alu.h, cmp.h, gates.h and
-- models/pipeline/pipeline/instruction.h, against the manual.
use native.Mathlib.Nat.{mod-mod}
use risc_v_co_simulator.Base.{
  ℕ, ◌+◌, ◌-◌, ◌/◌, ◌%◌, ◌^◌, ◌<◌, ◌≡◌, ◌∙◌, ap, refl, arith, Bool, not, false, ltb, ◌==◌,
  if◌then◌else◌, bit_and, bit_or, bit_xor, bit_and_low,
}
use risc_v_co_simulator.Isa
use risc_v_co_simulator.Functional.Refines.Arith.{signed_lt-eq}
use risc_v_co_simulator.Functional.Refines.Shifts.{shr_ℤ-eq}
use risc_v_co_simulator.Pipeline.Modules.Alu.{AluControl, alu, CmpControl, cmp}
use risc_v_co_simulator.Pipeline.Instruction.{
  InstructionType, r_type, i_type, s_type, b_type, u_type, j_type, get_funct7, get_rs2, get_rs1,
  get_funct3, get_rd, get_opcode, immediate_of,
}

-- The operations as the manual describes them.
unfoldable pub operation : AluControl → ℕ → ℕ → ℕ
operation AluControl.nop a b = 0
operation AluControl.add a b = (a + b) % 2 ^ 32
operation AluControl.sub a b = (a + (2 ^ 32 - b)) % 2 ^ 32
operation AluControl.sll a b = Isa.shift_left a b
operation AluControl.slt a b = Isa.flag (Isa.signed_lt a b)
operation AluControl.sltu a b = Isa.flag (ltb a b)
operation AluControl.xor a b = bit_xor a b
operation AluControl.srl a b = Isa.shift_right a b
operation AluControl.sra a b = Isa.shift_right_arith a b
operation AluControl.or a b = bit_or a b
operation AluControl.and a b = bit_and a b

unfoldable pub condition : CmpControl → ℕ → ℕ → Bool
condition CmpControl.nop a b = false
condition CmpControl.eq a b = a == b
condition CmpControl.ne a b = not (a == b)
condition CmpControl.lt a b = Isa.signed_lt a b
condition CmpControl.ge a b = not (Isa.signed_lt a b)
condition CmpControl.ltu a b = ltb a b
condition CmpControl.geu a b = not (ltb a b)

-- The immediate of each format.
unfoldable pub immediate : InstructionType → ℕ → ℕ
immediate i_type raw = Isa.imm_i raw
immediate s_type raw = Isa.imm_s raw
immediate b_type raw = Isa.imm_b raw
immediate u_type raw = Isa.imm_u raw
immediate j_type raw = Isa.imm_j raw
immediate _ raw = 0

module _ (a b : ℕ) (p : a < 2 ^ 32) (q : b < 2 ^ 32) where
  -- On two words, the ALU under each control signal computes the operation of the manual: wrap-
  -- around sums, signed and unsigned order, and shifts by the low five bits.
  pub alu-operation : (op : AluControl) → alu op a b ≡ operation op a b
  unfolding alu operation
  alu-operation AluControl.nop = refl
  alu-operation AluControl.add = refl
  alu-operation AluControl.sub = omega arith
  alu-operation AluControl.sll = rw (bit_and_low 5 b) refl
  alu-operation AluControl.slt = ap Isa.flag (signed_lt-eq a b p q)
  alu-operation AluControl.sltu = refl
  alu-operation AluControl.xor = refl
  alu-operation AluControl.srl = rw (bit_and_low 5 b) refl
  alu-operation AluControl.sra = rw (bit_and_low 5 b) (
      shr_ℤ-eq a (b % 32) p (omega arith)
      ∙ ap (λ (t : ℕ). a / 2 ^ t + (if ltb a (2 ^ 31) then 0 else 2 ^ 32 - 2 ^ (32 - t)))
          (mod-mod b 32))
  alu-operation AluControl.or = refl
  alu-operation AluControl.and = refl

  -- On two words, the comparator under each control signal tests the condition of the manual's
  -- branch.
  pub cmp-condition : (c : CmpControl) → cmp c a b ≡ condition c a b
  unfolding cmp condition
  cmp-condition CmpControl.nop = refl
  cmp-condition CmpControl.eq = refl
  cmp-condition CmpControl.ne = refl
  cmp-condition CmpControl.lt = signed_lt-eq a b p q
  cmp-condition CmpControl.ge = ap not (signed_lt-eq a b p q)
  cmp-condition CmpControl.ltu = refl
  cmp-condition CmpControl.geu = ground arith

module _ (raw : ℕ) (word : raw < 2 ^ 32) where
  sign_lem : bit_and (raw / 2 ^ 31) 1 ≡ raw / 2 ^ 31
  sign_lem = omega (arith, bit_and_low 1 (raw / 2 ^ 31))

  -- The immediate of each format is the manual's.
  pub immediate_of-immediate :
      (t : InstructionType) → immediate_of t raw (bit_and (raw / 2 ^ 31) 1) ≡ immediate t raw
  unfolding immediate_of immediate
  immediate_of-immediate InstructionType.unknown = refl
  immediate_of-immediate r_type = refl
  immediate_of-immediate i_type = ground (arith, sign_lem)
  immediate_of-immediate s_type = ground (arith, sign_lem)
  immediate_of-immediate b_type = ground (arith, sign_lem)
  immediate_of-immediate u_type = ground (arith, sign_lem)
  immediate_of-immediate j_type = ground (arith, sign_lem)

  -- The getters of the fields.
  pub fields_lem :
      (get_opcode raw ≡ raw % 2 ^ 7)
      × (get_rd raw ≡ Isa.rd raw)
      × (get_funct3 raw ≡ raw / 2 ^ 12 % 8)
      × (get_rs1 raw ≡ Isa.rs1 raw)
      × (get_rs2 raw ≡ Isa.rs2 raw)
      × (get_funct7 raw ≡ raw / 2 ^ 25)
  unfolding get_opcode get_rd get_funct3 get_rs1 get_rs2 get_funct7
  fields_lem = (
    omega (arith, bit_and_low 7 raw),
    omega (arith, bit_and_low 5 (raw / 2 ^ 7)),
    omega (arith, bit_and_low 3 (raw / 2 ^ 12)),
    omega (arith, bit_and_low 5 (raw / 2 ^ 15)),
    omega (arith, bit_and_low 5 (raw / 2 ^ 20)),
    omega (arith, bit_and_low 7 (raw / 2 ^ 25)),
  )
