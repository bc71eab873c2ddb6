-- ===== src/Functional/Handlers/Arith.antt =====
-- Run of models/functional/model.cpp: the handlers of the integer operations. A comparison's
-- `bool` is stored as 0 or 1; a shift takes the whole immediate or register for its count.
use risc_v_co_simulator.Base.{
  ℕ, ◌+◌, ◌-◌, ◌^◌, if◌then◌else◌, ltb, u32, bit_and, bit_or, bit_xor, to_int32, ltb_ℤ,
}
use risc_v_co_simulator.Runtime.{M, ◌>>=◌, ◌>>◌, Build, shl, shr, sar}
use risc_v_co_simulator.Functional.Instruction.{rd, rs1, rs2, get_imm_i}
use risc_v_co_simulator.Functional.Model.{FunctionalModel, read_reg, write_reg, advance}

abbrev H : Type 0
H = M FunctionalModel (Unit {0})

unfoldable pub handle_addi : ℕ → H
handle_addi raw = do a ← read_reg (rs1 raw); write_reg (u32 (a + (get_imm_i raw))) (rd raw); advance

unfoldable pub handle_slti : ℕ → H
handle_slti raw = do
  a ← read_reg (rs1 raw)
  write_reg (if ltb_ℤ (to_int32 a) (to_int32 (get_imm_i raw)) then 1 else 0) (rd raw)
  advance

unfoldable pub handle_sltiu : ℕ → H
handle_sltiu raw = do
  a ← read_reg (rs1 raw)
  write_reg (if ltb a (get_imm_i raw) then 1 else 0) (rd raw)
  advance

unfoldable pub handle_xori : ℕ → H
handle_xori raw = do a ← read_reg (rs1 raw); write_reg (bit_xor a (get_imm_i raw)) (rd raw); advance

unfoldable pub handle_ori : ℕ → H
handle_ori raw = do a ← read_reg (rs1 raw); write_reg (bit_or a (get_imm_i raw)) (rd raw); advance

unfoldable pub handle_andi : ℕ → H
handle_andi raw = do a ← read_reg (rs1 raw); write_reg (bit_and a (get_imm_i raw)) (rd raw); advance

unfoldable pub handle_slli : Build → ℕ → H
handle_slli build raw = do
  a ← read_reg (rs1 raw)
  write_reg (shl build a (get_imm_i raw)) (rd raw)
  advance

unfoldable pub handle_srli : Build → ℕ → H
handle_srli build raw = do
  a ← read_reg (rs1 raw)
  write_reg (shr build a (get_imm_i raw)) (rd raw)
  advance

unfoldable pub handle_srai : Build → ℕ → H
handle_srai build raw = do
  a ← read_reg (rs1 raw)
  write_reg (sar build a (get_imm_i raw)) (rd raw)
  advance

unfoldable pub handle_add : ℕ → H
handle_add raw = do
  a ← read_reg (rs1 raw)
  b ← read_reg (rs2 raw)
  write_reg (u32 (a + b)) (rd raw)
  advance

unfoldable pub handle_sub : ℕ → H
handle_sub raw = do
  a ← read_reg (rs1 raw)
  b ← read_reg (rs2 raw)
  write_reg (u32 (a + 2 ^ 32 - b)) (rd raw)
  advance

unfoldable pub handle_sll : Build → ℕ → H
handle_sll build raw = do
  a ← read_reg (rs1 raw)
  b ← read_reg (rs2 raw)
  write_reg (shl build a b) (rd raw)
  advance

unfoldable pub handle_slt : ℕ → H
handle_slt raw = do
  a ← read_reg (rs1 raw)
  b ← read_reg (rs2 raw)
  write_reg (if ltb_ℤ (to_int32 a) (to_int32 b) then 1 else 0) (rd raw)
  advance

unfoldable pub handle_sltu : ℕ → H
handle_sltu raw = do
  a ← read_reg (rs1 raw)
  b ← read_reg (rs2 raw)
  write_reg (if ltb a b then 1 else 0) (rd raw)
  advance

unfoldable pub handle_xor : ℕ → H
handle_xor raw = do
  a ← read_reg (rs1 raw)
  b ← read_reg (rs2 raw)
  write_reg (bit_xor a b) (rd raw)
  advance

unfoldable pub handle_srl : Build → ℕ → H
handle_srl build raw = do
  a ← read_reg (rs1 raw)
  b ← read_reg (rs2 raw)
  write_reg (shr build a b) (rd raw)
  advance

unfoldable pub handle_sra : Build → ℕ → H
handle_sra build raw = do
  a ← read_reg (rs1 raw)
  b ← read_reg (rs2 raw)
  write_reg (sar build a b) (rd raw)
  advance

unfoldable pub handle_or : ℕ → H
handle_or raw = do
  a ← read_reg (rs1 raw)
  b ← read_reg (rs2 raw)
  write_reg (bit_or a b) (rd raw)
  advance

unfoldable pub handle_and : ℕ → H
handle_and raw = do
  a ← read_reg (rs1 raw)
  b ← read_reg (rs2 raw)
  write_reg (bit_and a b) (rd raw)
  advance
