-- ===== src/Functional/Refines/Control.antt =====
-- The handlers of LUI, AUIPC, the jumps and the branches against the manual.
use risc_v_co_simulator.Base.{
  ℕ, ◌+◌, ◌-◌, ◌*◌, ◌/◌, ◌%◌, ◌^◌, ◌<◌, ◌≡◌, ◌≢◌, ◌⊎◌, ◌∙◌, ap, refl, arith, Bool, true, false, not,
  u32, ltb, leb, ◌==◌, ltb_ℤ, to_int32, bit_and, bit_and_low, bit_and_high,
}
use risc_v_co_simulator.Runtime.{◌>>=◌, ◌>>◌, done}
use risc_v_co_simulator.Isa
use risc_v_co_simulator.Functional.Regfile.{assign, masked}
use risc_v_co_simulator.Functional.Instruction.{
  lui, auipc, jal, jalr, beq, bne, blt, bge, bltu, bgeu, rd, rs1, rs2, get_imm_u,
}
use risc_v_co_simulator.Functional.Immediates.{
  get_imm_i-eq, get_imm_b-eq, get_imm_u-eq, get_imm_j-eq, get_imm-lt,
}
use risc_v_co_simulator.Functional.Model.{FunctionalModel, read_reg}
use risc_v_co_simulator.Functional.Handlers.Control.{
  handle_lui, handle_auipc, handle_jal, handle_jalr, branch_if, handle_beq, handle_bne, handle_blt,
  handle_bge, handle_bltu, handle_bgeu,
}
use risc_v_co_simulator.Functional.Refines.State.{
  view, effect, written, result_lem, read_reg_lem, write_reg_lem, read_both_lem, assign-put,
  masked_lem,
}
use risc_v_co_simulator.Functional.Refines.Arith.{signed_lt-eq}

-- The mask of JALR clears the lowest bit.
pub clear_lowest : (t : ℕ) → t < 2 ^ 32 → bit_and t ((0 + 2 ^ 32 - 2) % 2 ^ 32) ≡ t / 2 * 2
clear_lowest t h = omega (arith, bit_and_high 1 t (2 ^ 31 - 1), bit_and_low 31 (t / 2))

module _ (raw : ℕ) (word : raw < 2 ^ 32) (m : FunctionalModel) (valid : Isa.IsValid (view m)) where
  pub lui-Refines : effect (handle_lui raw m) ≡ Isa.apply lui raw (view m)
  unfolding handle_lui Isa.apply
  lui-Refines =
      result_lem raw m valid (get_imm_u raw) (omega (arith, get_imm-lt raw word))
      ∙ ap (Isa.result raw (view m)) (get_imm_u-eq raw word)

  pub auipc-Refines : effect (handle_auipc raw m) ≡ Isa.apply auipc raw (view m)
  unfolding handle_auipc Isa.apply
  auipc-Refines =
      result_lem raw m valid (u32 (m.pc + get_imm_u raw)) (omega arith)
      ∙ ap (λ t. Isa.result raw (view m) ((m.pc + t) % 2 ^ 32)) (get_imm_u-eq raw word)

  -- The state after the link register is written and the jump is made.
  jumped :
      (target : ℕ)
      → effect (done tt (record (written (u32 (m.pc + 4)) (rd raw) m) { pc = target }))
        ≡ Isa.next (record (view m) {
          pc = target;
          x = Isa.put m.registers.regs (rd raw) ((m.pc + 4) % 2 ^ 32);
        })
  jumped target =
      ap (λ x. Isa.next (record (view m) { pc = target; x = x }))
        (assign-put m.registers.regs (rd raw) (u32 (m.pc + 4)) valid.zero_reg (omega arith))

  pub jal-Refines : effect (handle_jal raw m) ≡ Isa.apply jal raw (view m)
  unfolding handle_jal Isa.apply
  jal-Refines =
      rw (write_reg_lem (rd raw) (omega arith), ◌>>◌, ◌>>=◌, ← get_imm_j-eq raw word) (jumped _)

  branch-Refines :
      (f g : ℕ → ℕ → Bool)
      → ((a b : ℕ) → a < 2 ^ 32 → b < 2 ^ 32 → f a b ≡ g a b)
      → effect ((read_reg (rs1 raw) >>= λ a. read_reg (rs2 raw) >>= λ b. branch_if (f a b) raw) m)
        ≡ Isa.branch (g (m.registers.regs (rs1 raw)) (m.registers.regs (rs2 raw))) raw (view m)
  branch-Refines f g same =
      let a = m.registers.regs (rs1 raw) in
      let b = m.registers.regs (rs2 raw) in
      ap effect (read_both_lem raw m (λ a b. branch_if (f a b) raw))
      ∙ (taken (f a b)
          ∙ ap (λ c. Isa.branch c raw (view m)) (same a b (valid.reg_word _) (valid.reg_word _)))
    where
      taken : (c : Bool) → effect (branch_if c raw m) ≡ Isa.branch c raw (view m)
      taken true = unfold branch_if in rw (← get_imm_b-eq raw word)
      taken false = unfold branch_if in refl

  pub beq-Refines : effect (handle_beq raw m) ≡ Isa.apply beq raw (view m)
  unfolding handle_beq Isa.apply
  beq-Refines = branch-Refines (λ a b. a == b) (λ a b. a == b) (λ a b p q. refl)

  pub bne-Refines : effect (handle_bne raw m) ≡ Isa.apply bne raw (view m)
  unfolding handle_bne Isa.apply
  bne-Refines = branch-Refines (λ a b. not (a == b)) (λ a b. not (a == b)) (λ a b p q. refl)

  pub blt-Refines : effect (handle_blt raw m) ≡ Isa.apply blt raw (view m)
  unfolding handle_blt Isa.apply
  blt-Refines =
      branch-Refines (λ a b. ltb_ℤ (to_int32 a) (to_int32 b)) (λ a b. Isa.signed_lt a b)
        signed_lt-eq

  pub bge-Refines : effect (handle_bge raw m) ≡ Isa.apply bge raw (view m)
  unfolding handle_bge Isa.apply
  bge-Refines =
      branch-Refines (λ a b. not (ltb_ℤ (to_int32 a) (to_int32 b))) (λ a b. not (Isa.signed_lt a b))
        (λ a b p q. ap not (signed_lt-eq a b p q))

  pub bltu-Refines : effect (handle_bltu raw m) ≡ Isa.apply bltu raw (view m)
  unfolding handle_bltu Isa.apply
  bltu-Refines = branch-Refines (λ a b. ltb a b) (λ a b. ltb a b) (λ a b p q. refl)

  pub bgeu-Refines : effect (handle_bgeu raw m) ≡ Isa.apply bgeu raw (view m)
  unfolding handle_bgeu Isa.apply
  bgeu-Refines = branch-Refines (λ a b. leb b a) (λ a b. not (ltb a b)) (λ a b p q. ground arith)

  -- What the handler of JALR does: the base of the jump is read after the link is written.
  handle_jalr_lem :
      let link = written (u32 (m.pc + 4)) (rd raw) m in
      handle_jalr raw m
      ≡ done tt (record link { pc = u32 (link.registers.regs (rs1 raw) + Isa.imm_i raw) / 2 * 2 })
  unfolding handle_jalr
  handle_jalr_lem =
      let link = written (u32 (m.pc + 4)) (rd raw) m in
      rw (write_reg_lem (rd raw) (omega arith), ◌>>◌, ◌>>=◌)
        (rw (read_reg_lem (rs1 raw) (omega arith), ◌>>=◌)
          (rw (get_imm_i-eq raw word) (
            ap (λ t. done tt (record link { pc = t }))
              (clear_lowest (u32 (link.registers.regs (rs1 raw) + Isa.imm_i raw)) (omega arith)))))

  -- Reading `rs1` after the link is written, where that changes nothing of it.
  pub jalr-Refines :
      (rd raw ≢ rs1 raw) ⊎ (rs1 raw ≡ 0) → effect (handle_jalr raw m) ≡ Isa.apply jalr raw (view m)
  unfolding Isa.apply
  jalr-Refines apart =
      let base : assign m.registers.regs (rd raw) (masked (u32 (m.pc + 4)) (rd raw)) (rs1 raw)
          ≡ m.registers.regs (rs1 raw) =
        ground (arith, masked_lem (u32 (m.pc + 4)) (rd raw), valid.zero_reg) in
      ap effect handle_jalr_lem
      ∙ (rw base (jumped (u32 (m.registers.regs (rs1 raw) + Isa.imm_i raw) / 2 * 2)))

  -- From a valid state, a JALR whose link register is its base, and not register 0, jumps to the
  -- link plus its immediate, wherever its base pointed.
  pub jalr-clobbers :
      rd raw ≡ rs1 raw
      → rs1 raw ≢ 0
      → effect (handle_jalr raw m)
        ≡ Isa.next (record (view m) {
          pc = (m.pc + 4 + Isa.imm_i raw) % 2 ^ 32 / 2 * 2;
          x = Isa.put m.registers.regs (rd raw) ((m.pc + 4) % 2 ^ 32);
        })
  jalr-clobbers same nonzero =
      let base : u32 (
            assign m.registers.regs (rd raw) (masked (u32 (m.pc + 4)) (rd raw)) (rs1 raw)
            + Isa.imm_i raw)
          ≡ (m.pc + 4 + Isa.imm_i raw) % 2 ^ 32 =
        ground (arith, masked_lem (u32 (m.pc + 4)) (rd raw)) in
      ap effect handle_jalr_lem ∙ (rw base (jumped ((m.pc + 4 + Isa.imm_i raw) % 2 ^ 32 / 2 * 2)))
