-- ===== src/Pipeline/Flow/Edge.antt =====
-- The clock and the hazard unit of models/pipeline/pipeline.cpp at the end of a cycle in which the
-- pipeline is not halted.
use risc_v_co_simulator.Base.{◌≡◌, ap, refl, true, ◌||◌, Bool-cases, inl, inr, if◌then◌else◌}
use risc_v_co_simulator.Pipeline.Modules.Storage.{Register, tick as tick_register}
use risc_v_co_simulator.Pipeline.Instruction.{get_rs1, get_rs2, has_rs1, has_rs2}
use risc_v_co_simulator.Pipeline.Stages.{MemoryState, WriteBackState, execute_zero}
use risc_v_co_simulator.Pipeline.Model.{PipelineModel}
use risc_v_co_simulator.Pipeline.Tick.{clock}
use risc_v_co_simulator.Pipeline.Tick.Hazard.{
  hazard_unit_tick, halt_pipeline, restart_pipeline, load_conflict,
}

-- No register is held back.
pub record IsFlowing (m : PipelineModel) : Type 0 where
  pub pc_on : m.program_counter.enable_flag ≡ true
  pub decode_on : m.decode_register.enable_flag ≡ true
  pub execute_on : m.execute_register.enable_flag ≡ true
  pub memory_on : m.memory_register.enable_flag ≡ true
  pub write_back_on : m.write_back_register.enable_flag ≡ true

-- What the end of the cycle leaves of the state before it.
pub record IsEdge (m m' : PipelineModel) : Type 0 where
  pub mmu_kept : m'.mmu ≡ m.mmu
  pub unit_kept : m'.data_mem_unit ≡ m.data_mem_unit
  pub file_kept : m'.reg_file ≡ m.reg_file
  pub redirect_kept : m'.pc_r ≡ m.pc_r
  pub memory_moved : m'.memory_register.current ≡ m.memory_register.next
  pub write_back_moved : m'.write_back_register.current ≡ m.write_back_register.next
  pub pc_moved : m'.program_counter.current ≡ m.program_counter.next
  pub execute_moved :
      m'.execute_register.current ≡ (if m.pc_r then execute_zero else m.execute_register.next)

tick-on :
    {T : Type 0} (r : Register T)
    → r.enable_flag ≡ true
    → tick_register r ≡ record r { current = r.next }
tick-on r on = rw on refl

-- The hazard unit moves nothing, and clears the front of the pipeline after a jump.
pub hazard-IsEdge :
    (m : PipelineModel)
    → m.execute_register.enable_flag ≡ true
    → (h : PipelineModel) → h ≡ hazard_unit_tick m
    → (h.mmu ≡ m.mmu)
      × (h.data_mem_unit ≡ m.data_mem_unit)
      × (h.reg_file ≡ m.reg_file)
      × (h.pc_r ≡ m.pc_r)
      × (h.memory_register ≡ m.memory_register)
      × (h.write_back_register ≡ m.write_back_register)
      × (h.program_counter.current ≡ m.program_counter.current)
      × (h.execute_register.current ≡ (if m.pc_r then execute_zero else m.execute_register.current))
unfolding hazard_unit_tick halt_pipeline restart_pipeline
hazard-IsEdge m on h h_is =
    let t = m.control_unit.instr_type in
    let instr = m.execute_register.current.instr in
    let r = m.memory_register.current in
    elim (Bool-cases m.pc_r) [
      | inl j ↦ rw (h_is, hazard_unit_tick, on, j) (refl, refl, refl, refl, refl, refl, refl, refl)
      | inr j ↦
          elim (Bool-cases (
            load_conflict (has_rs1 t) (get_rs1 instr) r
            || load_conflict (has_rs2 t) (get_rs2 instr) r)) [
              | inl k ↦
                  rw (h_is, hazard_unit_tick, on, j, k)
                    (refl, refl, refl, refl, refl, refl, refl, refl)
              | inr k ↦
                  rw (h_is, hazard_unit_tick, on, j, k)
                    (refl, refl, refl, refl, refl, refl, refl, refl)
            ]
    ]

-- The clock moves every register on.
abbrev pub moved : PipelineModel → PipelineModel
moved m = record m {
  decode_register = record (m.decode_register) { current = m.decode_register.next };
  execute_register = record (m.execute_register) { current = m.execute_register.next };
  memory_register = record (m.memory_register) { current = m.memory_register.next };
  write_back_register = record (m.write_back_register) { current = m.write_back_register.next };
  program_counter = record (m.program_counter) { current = m.program_counter.next };
}

pub clock_lem : (m : PipelineModel) → IsFlowing m → clock m ≡ moved m
unfolding clock
clock_lem m flows =
    rw (clock, flows.pc_on, flows.decode_on, flows.execute_on, flows.memory_on, flows.write_back_on)
      refl

pub moved-IsEdge : (m h : PipelineModel) → IsFlowing m → h ≡ hazard_unit_tick (moved m) → IsEdge m h
moved-IsEdge m h flows h_is =
    let (mmu, unit, file, redirect, r, w, pc, x) =
      hazard-IsEdge (moved m) flows.execute_on h h_is in
    record {
      mmu_kept = mmu;
      unit_kept = unit;
      file_kept = file;
      redirect_kept = redirect;
      memory_moved = ap (λ (q : Register MemoryState). q.current) r;
      write_back_moved = ap (λ (q : Register WriteBackState). q.current) w;
      pc_moved = pc;
      execute_moved = x;
    }
