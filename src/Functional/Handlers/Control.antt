-- ===== src/Functional/Handlers/Control.antt =====
-- Run of models/functional/model.cpp: the handlers of LUI, AUIPC, the jumps and the branches.
use risc_v_co_simulator.Base.{
  ℕ, ◌+◌, ◌-◌, ◌%◌, ◌^◌, Bool, not, if◌then◌else◌, ltb, leb, ◌==◌, u32, bit_and, to_int32, ltb_ℤ,
}
use risc_v_co_simulator.Runtime.{M, ◌>>=◌, ◌>>◌}
use risc_v_co_simulator.Functional.Instruction.{
  rd, rs1, rs2, get_imm_i, get_imm_b, get_imm_u, get_imm_j,
}
use risc_v_co_simulator.Functional.Model.{
  FunctionalModel, read_reg, write_reg, get_pc, set_pc, advance,
}

abbrev H : Type 0
H = M FunctionalModel (Unit {0})

unfoldable pub handle_lui : ℕ → H
handle_lui raw = do write_reg (get_imm_u raw) (rd raw); advance

unfoldable pub handle_auipc : ℕ → H
handle_auipc raw = do pc ← get_pc; write_reg (u32 (pc + get_imm_u raw)) (rd raw); advance

unfoldable pub handle_jal : ℕ → H
handle_jal raw = do
  pc ← get_pc
  write_reg (u32 (pc + 4)) (rd raw)
  set_pc (u32 (pc + get_imm_j raw))

-- `rd` is written before `rs1` is read. The sum of two `int32_t` wraps, as compiled code does.
unfoldable pub handle_jalr : ℕ → H
handle_jalr raw = do
  pc ← get_pc
  write_reg (u32 (pc + 4)) (rd raw)
  a ← read_reg (rs1 raw)
  set_pc (bit_and (u32 (a + get_imm_i raw)) ((0 + 2 ^ 32 - 2) % 2 ^ 32))

-- `pc = changed_pc ? pc + imm : pc + 4`
unfoldable pub branch_if : Bool → ℕ → H
branch_if changed_pc raw = do
  pc ← get_pc
  set_pc (if changed_pc then u32 (pc + get_imm_b raw) else u32 (pc + 4))

unfoldable pub handle_beq : ℕ → H
unfolding branch_if
handle_beq raw = do a ← read_reg (rs1 raw); b ← read_reg (rs2 raw); branch_if (a == b) raw

unfoldable pub handle_bne : ℕ → H
unfolding branch_if
handle_bne raw = do a ← read_reg (rs1 raw); b ← read_reg (rs2 raw); branch_if (not (a == b)) raw

unfoldable pub handle_blt : ℕ → H
unfolding branch_if
handle_blt raw = do
  a ← read_reg (rs1 raw)
  b ← read_reg (rs2 raw)
  branch_if (ltb_ℤ (to_int32 a) (to_int32 b)) raw

unfoldable pub handle_bge : ℕ → H
unfolding branch_if
handle_bge raw = do
  a ← read_reg (rs1 raw)
  b ← read_reg (rs2 raw)
  branch_if (not (ltb_ℤ (to_int32 a) (to_int32 b))) raw

unfoldable pub handle_bltu : ℕ → H
unfolding branch_if
handle_bltu raw = do a ← read_reg (rs1 raw); b ← read_reg (rs2 raw); branch_if (ltb a b) raw

unfoldable pub handle_bgeu : ℕ → H
unfolding branch_if
handle_bgeu raw = do a ← read_reg (rs1 raw); b ← read_reg (rs2 raw); branch_if (leb b a) raw
