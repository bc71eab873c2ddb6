-- ===== src/Pipeline/Tick/Hazard.antt =====
-- HazardUnitTick, HaltPipeline and RestartPipeline of models/pipeline/pipeline/pipeline.cpp.
use risc_v_co_simulator.Base.{ℕ, Bool, true, false, not, ◌&&◌, ◌||◌, ◌==◌, if◌then◌else◌}
use risc_v_co_simulator.Pipeline.Modules.Storage.{clear}
use risc_v_co_simulator.Pipeline.Instruction.{get_rs1, get_rs2, has_rs1, has_rs2}
use risc_v_co_simulator.Pipeline.Stages.{
  BypassOptionsEncoding, reg, mem, wb, MemoryState, WriteBackState, decode_zero, execute_zero,
}
use risc_v_co_simulator.Pipeline.Model.{PipelineModel}

-- The three registers that hold back the front of the pipeline.
abbrev pub set_enable_flags : Bool → PipelineModel → PipelineModel
set_enable_flags flag m = record m {
  program_counter = record (m.program_counter) { enable_flag = flag };
  decode_register = record (m.decode_register) { enable_flag = flag };
  execute_register = record (m.execute_register) { enable_flag = flag };
}

unfoldable pub halt_pipeline : PipelineModel → PipelineModel
halt_pipeline m = set_enable_flags false m

unfoldable pub restart_pipeline : PipelineModel → PipelineModel
restart_pipeline m = set_enable_flags true m

-- Where an operand register is found: in the memory stage, in the write-back stage, or read before.
unfoldable pub bypass :
    (used : Bool) → (rs : ℕ) → MemoryState → WriteBackState → BypassOptionsEncoding
bypass used rs m w =
    if used && not (rs == 0)
    then (if rs == m.wb_a && m.wb_we then mem else if rs == w.wb_a && w.wb_we then wb else reg)
    else reg

-- Whether the operand is a value that a load in the memory stage has yet to read.
unfoldable pub load_conflict : (used : Bool) → (rs : ℕ) → MemoryState → Bool
load_conflict used rs m = used && (not (rs == 0) && (rs == m.wb_a && (m.wb_we && m.mem_to_reg)))

unfoldable pub hazard_unit_tick : PipelineModel → PipelineModel
unfolding halt_pipeline restart_pipeline bypass load_conflict get_rs1 get_rs2 has_rs1 has_rs2
hazard_unit_tick m =
    let instr_type = m.control_unit.instr_type in
    let instr = m.execute_register.current.instr in
    let mem_reg = m.memory_register.current in
    let wb_reg = m.write_back_register.current in
    let m' = record m {
      hu_rs1 = bypass (has_rs1 instr_type) (get_rs1 instr) mem_reg wb_reg;
      hu_rs2 = bypass (has_rs2 instr_type) (get_rs2 instr) mem_reg wb_reg;
    } in
    if m.execute_register.enable_flag && m.pc_r
    then record m {
      decode_register = clear decode_zero m.decode_register;
      execute_register = clear execute_zero m.execute_register;
    }
    else if load_conflict (has_rs1 instr_type) (get_rs1 instr) mem_reg
        || load_conflict (has_rs2 instr_type) (get_rs2 instr) mem_reg
    then halt_pipeline m'
    else restart_pipeline m'
