-- ===== src/Pipeline/Model.antt =====
-- models/pipeline/pipeline/pipeline.h: the state of `PipelineModel`. The writer of traces is a
-- singleton in the source and a field here.
use risc_v_co_simulator.Base.{ℕ, Bool, not, ◌&&◌, ◌==◌, if◌then◌else◌}
use risc_v_co_simulator.Runtime.{M}
use risc_v_co_simulator.Trace.{TraceWriter, trace_executed_instruction}
use risc_v_co_simulator.Memory.{Mmu}
use risc_v_co_simulator.Pipeline.Modules.Storage.{Register, RegFile, DataMemUnit}
use risc_v_co_simulator.Pipeline.Stages.{
  BypassOptionsEncoding, DecodeState, ExecuteState, MemoryState, WriteBackState,
}
use risc_v_co_simulator.Pipeline.Control.{ControlUnit}

pub data LoadConflictUsedWb : Type 0 where
  unused used_rs1 used_rs2 : LoadConflictUsedWb

pub record PipelineModel : Type 0 where
  pub trace_prev_pc : ℕ
  pub readable_traces : Bool
  pub ticks_counter : ℕ
  pub bp_mem : ℕ
  pub pc_disp : ℕ
  pub pc_r : Bool
  pub must_take_halted_wb : LoadConflictUsedWb
  pub halted_wb : ℕ
  pub hu_rs1 : BypassOptionsEncoding
  pub hu_rs2 : BypassOptionsEncoding
  pub mmu : Mmu
  pub instr_address : ℕ
  pub data_mem_unit : DataMemUnit
  pub reg_file : RegFile
  pub control_unit : ControlUnit
  pub program_counter : Register ℕ
  pub decode_register : Register DecodeState
  pub execute_register : Register ExecuteState
  pub memory_register : Register MemoryState
  pub write_back_register : Register WriteBackState
  pub writer : TraceWriter

abbrev pub P : Type 0
P = M PipelineModel (Unit {0})

-- TraceExecutedInstruction: no bubbles, and no instruction twice in a row.
unfoldable pub trace_executed : (instr location : ℕ) → PipelineModel → PipelineModel
trace_executed instr location m = record m {
  writer =
      if not (instr == 0) && not (location == m.trace_prev_pc)
      then trace_executed_instruction m.readable_traces instr location m.writer
      else m.writer;
  trace_prev_pc = location;
}
