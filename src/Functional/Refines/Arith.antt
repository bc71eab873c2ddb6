-- ===== src/Functional/Refines/Arith.antt =====
-- The handlers of the register and immediate operations against the manual.
use risc_v_co_simulator.Base.{
  ℕ, ◌+◌, ◌-◌, ◌%◌, ◌^◌, ◌<◌, ◌≡◌, ◌∙◌, ap, refl, arith, bit_and, bit_or, bit_xor, u32, ltb,
  if◌then◌else◌, ltb_ℤ, to_int32, bit_and-lt, bit_or-lt, bit_xor-lt,
}
use risc_v_co_simulator.Runtime.{Build, shl, shr, sar, MasksCounts, ◌>>=◌, ◌>>◌}
use risc_v_co_simulator.Isa
use risc_v_co_simulator.Functional.Instruction.{
  addi, slti, sltiu, xori, ori, andi, slli, srli, srai, add, sub, sll, slt, sltu, xor, srl, sra, or,
  and, rd, rs1, rs2, get_imm_i,
}
use risc_v_co_simulator.Functional.Immediates.{get_imm_i-eq, get_imm-lt}
use risc_v_co_simulator.Functional.Model.{FunctionalModel, read_reg, write_reg, advance}
use risc_v_co_simulator.Functional.Handlers.Arith.{
  handle_addi, handle_slti, handle_sltiu, handle_xori, handle_ori, handle_andi, handle_slli,
  handle_srli, handle_srai, handle_add, handle_sub, handle_sll, handle_slt, handle_sltu, handle_xor,
  handle_srl, handle_sra, handle_or, handle_and,
}
use risc_v_co_simulator.Functional.Refines.Shifts.{Agrees, shl-Agrees, shr-Agrees, sar-Agrees}
use risc_v_co_simulator.Functional.Refines.State.{
  view, effect, result_lem, read_rs1_lem, read_both_lem,
}

-- The two's complement order is the order after the sign bits are flipped.
pub signed_lt-eq :
    (a b : ℕ) → a < 2 ^ 32 → b < 2 ^ 32 → ltb_ℤ (to_int32 a) (to_int32 b) ≡ Isa.signed_lt a b
signed_lt-eq a b p q = ground arith

slt-Agrees :
    Agrees
      (λ a b. if ltb_ℤ (to_int32 a) (to_int32 b) then 1 else 0)
      (λ a b. Isa.flag (Isa.signed_lt a b))
slt-Agrees a b p q = (ap Isa.flag (signed_lt-eq a b p q), ground arith)

module _ (raw : ℕ) (m : FunctionalModel) (valid : Isa.IsValid (view m)) where
  op-Refines :
      (f g : ℕ → ℕ → ℕ)
      → Agrees f g
      → effect (
          (read_reg (rs1 raw) >>= λ a.
          read_reg (rs2 raw) >>= λ b. write_reg (f a b) (rd raw) >> advance)
            m)
        ≡ Isa.result raw (view m) (g (m.registers.regs (rs1 raw)) (m.registers.regs (rs2 raw)))
  op-Refines f g agrees =
      let (e, h) =
        agrees (m.registers.regs (rs1 raw)) (m.registers.regs (rs2 raw)) (valid.reg_word _)
          (valid.reg_word _) in
      ap effect (read_both_lem raw m (λ a b. write_reg (f a b) (rd raw) >> advance))
      ∙ (result_lem raw m valid _ h ∙ ap (Isa.result raw (view m)) e)

  pub add-Refines : effect (handle_add raw m) ≡ Isa.apply add raw (view m)
  unfolding handle_add Isa.apply
  add-Refines =
      op-Refines (λ a b. u32 (a + b)) (λ a b. (a + b) % 2 ^ 32)
        (λ a b p q. (omega arith, omega arith))

  pub sub-Refines : effect (handle_sub raw m) ≡ Isa.apply sub raw (view m)
  unfolding handle_sub Isa.apply
  sub-Refines =
      op-Refines (λ a b. u32 (a + 2 ^ 32 - b)) (λ a b. (a + (2 ^ 32 - b)) % 2 ^ 32)
        (λ a b p q. (omega arith, omega arith))

  pub slt-Refines : effect (handle_slt raw m) ≡ Isa.apply slt raw (view m)
  unfolding handle_slt Isa.apply
  slt-Refines =
      op-Refines (λ a b. if ltb_ℤ (to_int32 a) (to_int32 b) then 1 else 0)
        (λ a b. Isa.flag (Isa.signed_lt a b)) slt-Agrees

  pub sltu-Refines : effect (handle_sltu raw m) ≡ Isa.apply sltu raw (view m)
  unfolding handle_sltu Isa.apply
  sltu-Refines =
      op-Refines (λ a b. if ltb a b then 1 else 0) (λ a b. Isa.flag (ltb a b))
        (λ a b p q. (refl, ground arith))

  pub xor-Refines : effect (handle_xor raw m) ≡ Isa.apply xor raw (view m)
  unfolding handle_xor Isa.apply
  xor-Refines = op-Refines bit_xor bit_xor (λ a b p q. (refl, bit_xor-lt 32 a b p q))

  pub or-Refines : effect (handle_or raw m) ≡ Isa.apply or raw (view m)
  unfolding handle_or Isa.apply
  or-Refines = op-Refines bit_or bit_or (λ a b p q. (refl, bit_or-lt 32 a b p q))

  pub and-Refines : effect (handle_and raw m) ≡ Isa.apply and raw (view m)
  unfolding handle_and Isa.apply
  and-Refines = op-Refines bit_and bit_and (λ a b p q. (refl, bit_and-lt 32 a b p q))

  module _ (build : Build) (masks : MasksCounts build) where
    pub sll-Refines : effect (handle_sll build raw m) ≡ Isa.apply sll raw (view m)
    unfolding handle_sll Isa.apply
    sll-Refines = op-Refines (shl build) Isa.shift_left (shl-Agrees build masks)

    pub srl-Refines : effect (handle_srl build raw m) ≡ Isa.apply srl raw (view m)
    unfolding handle_srl Isa.apply
    srl-Refines = op-Refines (shr build) Isa.shift_right (shr-Agrees build masks)

    pub sra-Refines : effect (handle_sra build raw m) ≡ Isa.apply sra raw (view m)
    unfolding handle_sra Isa.apply
    sra-Refines = op-Refines (sar build) Isa.shift_right_arith (sar-Agrees build masks)

  module _ (word : raw < 2 ^ 32) where
    op_imm-Refines :
        (f g : ℕ → ℕ → ℕ)
        → Agrees f g
        → effect
            ((read_reg (rs1 raw) >>= λ a. write_reg (f a (get_imm_i raw)) (rd raw) >> advance) m)
          ≡ Isa.result raw (view m) (g (m.registers.regs (rs1 raw)) (Isa.imm_i raw))
    op_imm-Refines f g agrees =
        let (e, h) =
          agrees (m.registers.regs (rs1 raw)) (get_imm_i raw) (valid.reg_word _)
            (get_imm-lt raw word).0 in
        ap effect (read_rs1_lem raw m (λ a. write_reg (f a (get_imm_i raw)) (rd raw) >> advance))
        ∙ (result_lem raw m valid _ h
            ∙ ap (Isa.result raw (view m))
                (e ∙ ap (g (m.registers.regs (rs1 raw))) (get_imm_i-eq raw word)))

    pub addi-Refines : effect (handle_addi raw m) ≡ Isa.apply addi raw (view m)
    unfolding handle_addi Isa.apply
    addi-Refines =
        op_imm-Refines (λ a b. u32 (a + b)) (λ a b. (a + b) % 2 ^ 32)
          (λ a b p q. (omega arith, omega arith))

    pub slti-Refines : effect (handle_slti raw m) ≡ Isa.apply slti raw (view m)
    unfolding handle_slti Isa.apply
    slti-Refines =
        op_imm-Refines (λ a b. if ltb_ℤ (to_int32 a) (to_int32 b) then 1 else 0)
          (λ a b. Isa.flag (Isa.signed_lt a b)) slt-Agrees

    pub sltiu-Refines : effect (handle_sltiu raw m) ≡ Isa.apply sltiu raw (view m)
    unfolding handle_sltiu Isa.apply
    sltiu-Refines =
        op_imm-Refines (λ a b. if ltb a b then 1 else 0) (λ a b. Isa.flag (ltb a b))
          (λ a b p q. (refl, ground arith))

    pub xori-Refines : effect (handle_xori raw m) ≡ Isa.apply xori raw (view m)
    unfolding handle_xori Isa.apply
    xori-Refines = op_imm-Refines bit_xor bit_xor (λ a b p q. (refl, bit_xor-lt 32 a b p q))

    pub ori-Refines : effect (handle_ori raw m) ≡ Isa.apply ori raw (view m)
    unfolding handle_ori Isa.apply
    ori-Refines = op_imm-Refines bit_or bit_or (λ a b p q. (refl, bit_or-lt 32 a b p q))

    pub andi-Refines : effect (handle_andi raw m) ≡ Isa.apply andi raw (view m)
    unfolding handle_andi Isa.apply
    andi-Refines = op_imm-Refines bit_and bit_and (λ a b p q. (refl, bit_and-lt 32 a b p q))

    module _ (build : Build) (masks : MasksCounts build) where
      pub slli-Refines : effect (handle_slli build raw m) ≡ Isa.apply slli raw (view m)
      unfolding handle_slli Isa.apply
      slli-Refines = op_imm-Refines (shl build) Isa.shift_left (shl-Agrees build masks)

      pub srli-Refines : effect (handle_srli build raw m) ≡ Isa.apply srli raw (view m)
      unfolding handle_srli Isa.apply
      srli-Refines = op_imm-Refines (shr build) Isa.shift_right (shr-Agrees build masks)

      pub srai-Refines : effect (handle_srai build raw m) ≡ Isa.apply srai raw (view m)
      unfolding handle_srai Isa.apply
      srai-Refines = op_imm-Refines (sar build) Isa.shift_right_arith (sar-Agrees build masks)
