-- ===== src/Pipeline/Execute.antt =====
-- DoExecute of models/pipeline/pipeline/pipeline.cpp.
use risc_v_co_simulator.Base.{ℕ, not, ◌&&◌, ◌||◌, Option, if◌then◌else◌, bit_and}
use risc_v_co_simulator.Runtime.{terminated, ◌>>=◌, modify, or_throw}
use risc_v_co_simulator.Pipeline.Modules.Alu.{alu, cmp}
use risc_v_co_simulator.Pipeline.Modules.Gates.{add_words, multiplexer2, multiplexer3}
use risc_v_co_simulator.Pipeline.Instruction.{get_rd, immediate_extension_block}
use risc_v_co_simulator.Pipeline.Stages.{ExecuteState, MemoryState, encoding, is_wb}
use risc_v_co_simulator.Pipeline.Model.{
  unused, used_rs1, used_rs2, PipelineModel, P, trace_executed,
}

-- The operand that the register stage or a saved write-back gives.
abbrev pub modified_wb_rs1 : PipelineModel → ℕ
modified_wb_rs1 m = elim (m.must_take_halted_wb) [
  | used_rs1 ↦ m.halted_wb
  | _ ↦ m.execute_register.current.data1
]

abbrev pub modified_wb_rs2 : PipelineModel → ℕ
modified_wb_rs2 m = elim (m.must_take_halted_wb) [
  | used_rs2 ↦ m.halted_wb
  | _ ↦ m.execute_register.current.data2
]

-- The operands after bypassing: `src_a`, and the value of `rs2`.
unfoldable pub source_a : PipelineModel → Option ℕ
unfolding multiplexer3
source_a m =
    multiplexer3 (encoding m.hu_rs1) (modified_wb_rs1 m) m.bp_mem m.write_back_register.current.wb_d

unfoldable pub source_rs2 : PipelineModel → Option ℕ
unfolding multiplexer3
source_rs2 m =
    multiplexer3 (encoding m.hu_rs2) (modified_wb_rs2 m) m.bp_mem m.write_back_register.current.wb_d

-- What the execute stage hands to the memory stage.
unfoldable pub executed : ExecuteState → (src_a rs2v src_b : ℕ) → MemoryState
unfolding alu get_rd
executed x src_a rs2v src_b = record {
  mem_we = x.mem_we && not x.v_de;
  mem_to_reg = x.mem_to_reg;
  wb_we = x.wb_we && not x.v_de;
  jmp_cond = x.jmp_cond;
  store_mode = x.funct3;
  write_data = rs2v;
  alu_res = if x.jmp_cond then add_words x.pc_de 4 else alu x.alu_op src_a src_b;
  wb_a = get_rd x.instr;
}

-- The displacement of a jump; for JALR it is the result of the ALU, cleared of its lowest bit.
unfoldable pub displacement : ExecuteState → (src_a src_b imm : ℕ) → ℕ
unfolding alu
displacement x src_a src_b imm =
    if x.is_jalr then bit_and (alu x.alu_op src_a src_b) 0xfffffffe else imm

-- While the pipeline is halted, a value on the write-back stage is saved.
unfoldable pub save_halted_wb : PipelineModel → PipelineModel
save_halted_wb m =
    if m.execute_register.enable_flag
    then record m { must_take_halted_wb = unused }
    else if is_wb m.hu_rs1
    then record m { must_take_halted_wb = used_rs1; halted_wb = m.write_back_register.current.wb_d }
    else if is_wb m.hu_rs2
    then record m { must_take_halted_wb = used_rs2; halted_wb = m.write_back_register.current.wb_d }
    else m

-- The registers and wires that the stage drives.
unfoldable pub drive : (src_a rs2v : ℕ) → PipelineModel → PipelineModel
unfolding cmp executed displacement immediate_extension_block
drive src_a rs2v m =
    let x = m.execute_register.current in
    let imm = immediate_extension_block x.instr in
    let src_b = multiplexer2 x.alu_src2 rs2v imm in
    let redirect = x.jmp_cond || (cmp x.cmp_control src_a rs2v && x.brn_cond) in
    record m {
      pc_disp = displacement x src_a src_b imm;
      pc_r = redirect;
      memory_register = record (m.memory_register) { next = executed x src_a rs2v src_b };
      decode_register = record (m.decode_register) {
        next = record (m.decode_register.next) { v_de = redirect };
      };
    }

abbrev pub trace_stage : PipelineModel → PipelineModel
trace_stage m =
    if m.execute_register.enable_flag
    then trace_executed m.execute_register.current.instr m.execute_register.current.pc_de m
    else m

unfoldable pub do_execute : P
unfolding source_a source_rs2 drive save_halted_wb
do_execute m =
    (or_throw terminated (source_a m) >>= λ src_a. or_throw terminated (source_rs2 m) >>= λ rs2v.
    modify λ m. save_halted_wb (trace_stage (drive src_a rs2v m)))
      m
