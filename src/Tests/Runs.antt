-- ===== src/Tests/Runs.antt =====
-- Runs of the two models on small programs.
use risc_v_co_simulator.Base.{◌≡◌, refl}
use risc_v_co_simulator.Runtime.{returned, ecall, logic_error}
use risc_v_co_simulator.Memory.{get_word, get_half, get_byte, read_bytes}
use risc_v_co_simulator.Functional.Instruction.{get_imm_i, get_imm_u, get_imm_j}
use risc_v_co_simulator.Functional.Decoder.{decode}
use risc_v_co_simulator.Functional.Model as Model
use risc_v_co_simulator.Functional.Model.{
  load_from_pc, trace_executed, read_reg, write_reg, decode_and_goto,
}
use risc_v_co_simulator.Functional.Handlers.{run_from, step, switch_decoder, handle}
use risc_v_co_simulator.Functional.Handlers.Arith.{handle_addi, handle_add}
use risc_v_co_simulator.Functional.Handlers.Control.{handle_lui, handle_jal, handle_jalr}
use risc_v_co_simulator.Functional.Handlers.Memory.{handle_lw, handle_lh}
use risc_v_co_simulator.Tests.Machines.{
  interpreted_reg, pipelined_reg, sum_program, load_use_program, load_use_addi, jump_program,
  loaded_jump,
}

sum_interpreted : interpreted_reg sum_program 10 3 ≡ (returned ecall, 12)
unfolding interpreted_reg load_from_pc get_word read_bytes run_from step trace_executed
    switch_decoder decode handle handle_addi handle_add handle_lui handle_lw read_reg write_reg
    decode_and_goto get_imm_i get_imm_u Model.get_word
sum_interpreted = refl

sum_pipelined : pipelined_reg sum_program 20 3 ≡ (returned ecall, 12)
unfolding pipelined_reg get_byte read_bytes
sum_pipelined = refl

load_use_interpreted : interpreted_reg load_use_program 20 3 ≡ (returned ecall, 42)
unfolding interpreted_reg load_from_pc get_word read_bytes run_from step trace_executed
    switch_decoder decode handle handle_addi handle_add handle_lui handle_lw read_reg write_reg
    decode_and_goto get_imm_i get_imm_u Model.get_word
load_use_interpreted = refl

-- LUI behind the stalled instruction loses the loaded value.
load_use_pipelined : pipelined_reg load_use_program 40 3 ≡ (returned ecall, 0)
unfolding pipelined_reg get_byte read_bytes
load_use_pipelined = refl

load_use_addi_pipelined : pipelined_reg load_use_addi 40 3 ≡ (returned ecall, 42)
unfolding pipelined_reg get_byte read_bytes
load_use_addi_pipelined = refl

jump_interpreted : interpreted_reg jump_program 20 3 ≡ (returned ecall, 9)
unfolding interpreted_reg load_from_pc get_word read_bytes run_from step trace_executed
    switch_decoder decode handle handle_addi handle_add handle_lui handle_lw read_reg write_reg
    decode_and_goto get_imm_i get_imm_u Model.get_word handle_jal get_imm_j
jump_interpreted = refl

-- The ECALL that is jumped over ends the program in the pipeline.
jump_pipelined : pipelined_reg jump_program 40 3 ≡ (returned ecall, 0)
unfolding pipelined_reg get_byte read_bytes
jump_pipelined = refl

loaded_jump_interpreted : interpreted_reg loaded_jump 20 3 ≡ (returned ecall, 9)
unfolding interpreted_reg load_from_pc get_word read_bytes run_from step trace_executed
    switch_decoder decode handle handle_addi handle_add handle_lui handle_lh read_reg write_reg
    decode_and_goto get_imm_i get_imm_u Model.get_word handle_jalr get_half Model.get_half
loaded_jump_interpreted = refl

-- The JALR throws in the cycle in which it waits for the load, and Run rethrows what is left.
loaded_jump_pipelined : pipelined_reg loaded_jump 40 3 ≡ (logic_error, 0)
unfolding pipelined_reg get_byte read_bytes get_half
loaded_jump_pipelined = refl
