-- ===== src/Functional/Handlers.antt =====
-- Run of models/functional/model.cpp: the dispatch over the handlers, and the loop.
pub mod Control
pub mod Memory
pub mod Arith
use risc_v_co_simulator.Base.{ℕ, zero, suc, ◌+◌, Option, none, some}
use risc_v_co_simulator.Runtime.{
  ecall as ecall_code, ebreak as ebreak_code, returned, terminated, Outcome, done, stop, M, ◌>>=◌,
  ◌>>◌, Build,
}
use risc_v_co_simulator.Functional.Instruction.{
  Rv32i, lui, auipc, jal, jalr, beq, bne, blt, bge, bltu, bgeu, lb, lh, lw, lbu, lhu, sb, sh, sw,
  addi, slti, sltiu, xori, ori, andi, slli, srli, srai, add, sub, sll, slt, sltu, xor, srl, sra, or,
  and, fence, ecall, ebreak, unknown,
}
use risc_v_co_simulator.Functional.Decoder.{decode}
use risc_v_co_simulator.Functional.Model.{
  FunctionalModel, advance, load_from_pc, decode_and_goto, trace_executed,
}
use Control.{
  handle_lui, handle_auipc, handle_jal, handle_jalr, handle_beq, handle_bne, handle_blt, handle_bge,
  handle_bltu, handle_bgeu,
}
use Memory.{
  handle_lb, handle_lh, handle_lw, handle_lbu, handle_lhu, handle_sb, handle_sh, handle_sw,
}
use Arith.{
  handle_addi, handle_slti, handle_sltiu, handle_xori, handle_ori, handle_andi, handle_slli,
  handle_srli, handle_srai, handle_add, handle_sub, handle_sll, handle_slt, handle_sltu, handle_xor,
  handle_srl, handle_sra, handle_or, handle_and,
}

abbrev pub handle_fence : M FunctionalModel (Unit {0})
handle_fence = advance

abbrev pub handle_ecall : M FunctionalModel (Unit {0})
handle_ecall = stop (returned ecall_code)

abbrev pub handle_ebreak : M FunctionalModel (Unit {0})
handle_ebreak = stop (returned ebreak_code)

-- UNREACHABLE
abbrev pub handle_unknown : M FunctionalModel (Unit {0})
handle_unknown = stop terminated

-- The jump through `dispatch_table`, up to the end of the handler's own work.
unfoldable pub handle : Build → Rv32i → ℕ → M FunctionalModel (Unit {0})
handle build lui raw = handle_lui raw
handle build auipc raw = handle_auipc raw
handle build jal raw = handle_jal raw
handle build jalr raw = handle_jalr raw
handle build beq raw = handle_beq raw
handle build bne raw = handle_bne raw
handle build blt raw = handle_blt raw
handle build bge raw = handle_bge raw
handle build bltu raw = handle_bltu raw
handle build bgeu raw = handle_bgeu raw
handle build lb raw = handle_lb raw
handle build lh raw = handle_lh raw
handle build lw raw = handle_lw raw
handle build lbu raw = handle_lbu raw
handle build lhu raw = handle_lhu raw
handle build sb raw = handle_sb raw
handle build sh raw = handle_sh raw
handle build sw raw = handle_sw raw
handle build addi raw = handle_addi raw
handle build slti raw = handle_slti raw
handle build sltiu raw = handle_sltiu raw
handle build xori raw = handle_xori raw
handle build ori raw = handle_ori raw
handle build andi raw = handle_andi raw
handle build slli raw = handle_slli build raw
handle build srli raw = handle_srli build raw
handle build srai raw = handle_srai build raw
handle build add raw = handle_add raw
handle build sub raw = handle_sub raw
handle build sll raw = handle_sll build raw
handle build slt raw = handle_slt raw
handle build sltu raw = handle_sltu raw
handle build xor raw = handle_xor raw
handle build srl raw = handle_srl build raw
handle build sra raw = handle_sra build raw
handle build or raw = handle_or raw
handle build and raw = handle_and raw
handle build fence raw = handle_fence
handle build ecall raw = handle_ecall
handle build ebreak raw = handle_ebreak
handle build unknown raw = handle_unknown

-- SWITCH_DECODER as a step: an opcode that no case names ends the process.
unfoldable pub switch_decoder : Build → ℕ → M FunctionalModel Rv32i
switch_decoder build raw m = elim (decode build.debug raw) [
  | none ↦ stop terminated m
  | some instr ↦ done instr m
]

-- From the label DECODER to the next jump there: one instruction, and the word that follows.
unfoldable pub step : Build → ℕ → M FunctionalModel ℕ
step build raw = do
  trace_executed raw
  instr ← switch_decoder build raw
  handle build instr raw
  decode_and_goto build

-- At most `fuel` instructions: `done` when the fuel ends before the program.
unfoldable pub run_from : Build → (fuel raw : ℕ) → M FunctionalModel ℕ
run_from build zero raw m = done raw m
run_from build (suc fuel) raw m = elim (step build raw m) [
  | done next m' ↦ run_from build fuel next m'
  | stop e m' ↦ stop e m'
]

-- `++ticks_counter`
abbrev count_tick : M FunctionalModel (Unit {0})
count_tick m = done tt (record m { ticks_counter = m.ticks_counter + 1 })

-- Run
unfoldable pub run : Build → (fuel : ℕ) → M FunctionalModel ℕ
run build fuel = do raw ← load_from_pc build; count_tick; run_from build fuel raw
