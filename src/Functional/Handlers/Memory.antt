-- ===== src/Functional/Handlers/Memory.antt =====
-- Run of models/functional/model.cpp: the handlers of the loads and stores.
use risc_v_co_simulator.Base.{ℕ, ◌+◌, u8, u16, u32}
use risc_v_co_simulator.Runtime.{M, ◌>>=◌, ◌>>◌}
use risc_v_co_simulator.Functional.Instruction.{rd, rs1, rs2, get_imm_i, get_imm_s}
use risc_v_co_simulator.Functional.Model.{
  FunctionalModel, read_reg, write_reg, get_word, get_half, get_byte, set_word, set_byte, advance,
}

abbrev H : Type 0
H = M FunctionalModel (Unit {0})

-- The cast of a `uint8_t` to `int32_t` keeps its value: nothing extends the sign.
unfoldable pub handle_lb : ℕ → H
handle_lb raw = do
  a ← read_reg (rs1 raw)
  v ← get_byte (u32 (a + get_imm_i raw))
  write_reg v (rd raw)
  advance

unfoldable pub handle_lh : ℕ → H
handle_lh raw = do
  a ← read_reg (rs1 raw)
  v ← get_half (u32 (a + get_imm_i raw))
  write_reg v (rd raw)
  advance

unfoldable pub handle_lw : ℕ → H
handle_lw raw = do
  a ← read_reg (rs1 raw)
  v ← get_word (u32 (a + get_imm_i raw))
  write_reg v (rd raw)
  advance

unfoldable pub handle_lbu : ℕ → H
handle_lbu raw = do
  a ← read_reg (rs1 raw)
  v ← get_byte (u32 (a + get_imm_i raw))
  write_reg v (rd raw)
  advance

unfoldable pub handle_lhu : ℕ → H
handle_lhu raw = do
  a ← read_reg (rs1 raw)
  v ← get_half (u32 (a + get_imm_i raw))
  write_reg v (rd raw)
  advance

unfoldable pub handle_sb : ℕ → H
handle_sb raw = do
  a ← read_reg (rs1 raw)
  b ← read_reg (rs2 raw)
  set_byte (u8 b) (u32 (a + get_imm_s raw))
  advance

-- The handler of SH calls SetByte, whose parameter is a `uint8_t`.
unfoldable pub handle_sh : ℕ → H
handle_sh raw = do
  a ← read_reg (rs1 raw)
  b ← read_reg (rs2 raw)
  set_byte (u8 (u16 b)) (u32 (a + get_imm_s raw))
  advance

unfoldable pub handle_sw : ℕ → H
handle_sw raw = do
  a ← read_reg (rs1 raw)
  b ← read_reg (rs2 raw)
  set_word b (u32 (a + get_imm_s raw))
  advance
