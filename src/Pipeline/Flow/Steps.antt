-- ===== src/Pipeline/Flow/Steps.antt =====
-- What each stage of a cycle that comes to its end has changed.
use mathlib.Core.Path.{subst}
use risc_v_co_simulator.Base.{
  sym, ap, ◌∙◌, ℕ, ◌≡◌, refl, arith, Bool, true, false, ◌||◌, some, if◌then◌else◌,
}
use risc_v_co_simulator.Runtime.{Outcome, done, stop, final}
use risc_v_co_simulator.Pipeline.Flow.{commit}
use risc_v_co_simulator.Pipeline.Instruction.{get_rs1, get_rs2}
use risc_v_co_simulator.Runtime.Binds.{bind-done}
use risc_v_co_simulator.Trace.{TraceWriter}
use risc_v_co_simulator.Memory.{Mmu}
use risc_v_co_simulator.Pipeline.Modules.Gates.{multiplexer2}
use risc_v_co_simulator.Pipeline.Modules.Storage.{
  RegFile, DataMemUnit, Access, value, failure, get_data, tick_data_mem,
}
use risc_v_co_simulator.Pipeline.Model.{PipelineModel, unused, trace_executed}
use risc_v_co_simulator.Pipeline.Stages.{MemoryState}
use risc_v_co_simulator.Pipeline.Execute.{do_execute, drive, source_a, source_rs2, save_halted_wb}
use risc_v_co_simulator.Pipeline.Tick.{data_mem_tick, access_data, pass_write_back, do_memory}

-- The state that DoMemory leaves, with the unit, the memory and the trace that it leaves and the
-- value `v` that the unit shows.
abbrev pub passed : DataMemUnit → Mmu → TraceWriter → ℕ → PipelineModel → PipelineModel
passed d mmu w v m =
    let r = m.memory_register.current in
    record m {
      data_mem_unit = d;
      mmu = mmu;
      writer = w;
      write_back_register = record (m.write_back_register) {
        next = record {
          wb_we = r.wb_we;
          wb_d = multiplexer2 r.mem_to_reg r.alu_res v;
          wb_a = r.wb_a;
        };
      };
      bp_mem = r.alu_res;
    }

pub record MemoryDone (m m1 : PipelineModel) : Type 0 where
  pub unit : DataMemUnit
  pub mmu : Mmu
  pub writer : TraceWriter
  pub shown : ℕ
  pub data_is : get_data unit mmu ≡ value shown
  pub left : m1 ≡ passed unit mmu writer shown m

-- What DoMemory may change before it passes a value on.
abbrev Accessed : PipelineModel → PipelineModel → Type 0
Accessed m m1 =
    (d : DataMemUnit) × (mmu : Mmu) × (w : TraceWriter) × (m1
      ≡ record m { data_mem_unit = d; mmu = mmu; writer = w })

data_mem_tick-done :
    (d0 : DataMemUnit) (m m1 : PipelineModel)
    → data_mem_tick (record m { data_mem_unit = d0 }) ≡ done tt m1
    → Accessed m m1
data_mem_tick-done d0 m m1 e = go (tick_data_mem d0 m.mmu m.writer) e
  where
    go :
        (x : Access (DataMemUnit × Mmu) × TraceWriter)
        → (elim (x.0) as (λ _. Outcome PipelineModel (Unit {0})) [
          | value (d, mmu) ↦ done tt (record m { data_mem_unit = d; mmu = mmu; writer = x.1 })
          | failure e ↦ stop e (record m { data_mem_unit = d0; writer = x.1 })
        ])
          ≡ done tt m1
        → Accessed m m1
    go (value (d, mmu), w) e = (d, mmu, w, sym (ap final e))
    go (failure x, w) e = absurd (ground arith)

access_data-done : (m m1 : PipelineModel) → access_data m ≡ done tt m1 → Accessed m m1
access_data-done m m1 e = go (r.mem_to_reg || r.mem_we) e
  where
    r : MemoryState
    r = m.memory_register.current

    go :
        (b : Bool)
        → (if b
            then data_mem_tick (record m {
              data_mem_unit = record (m.data_mem_unit) {
                store_mode = m.memory_register.current.store_mode;
                write_enable = m.memory_register.current.mem_we;
                address = m.memory_register.current.alu_res;
                write_data = m.memory_register.current.write_data;
              };
            })
            else done tt m)
          ≡ done tt m1
        → Accessed m m1
    go true e = data_mem_tick-done _ m m1 e
    go false e = (m.data_mem_unit, m.mmu, m.writer, sym (ap final e))

pass_write_back-done :
    (m m1 : PipelineModel)
    → pass_write_back m ≡ done tt m1
    → (v : ℕ) × (get_data m.data_mem_unit m.mmu ≡ value v)
      × (m1 ≡ passed m.data_mem_unit m.mmu m.writer v m)
pass_write_back-done m m1 e = go (get_data m.data_mem_unit m.mmu) e
  where
    go :
        (a : Access ℕ)
        → (elim a as (λ _. Outcome PipelineModel (Unit {0})) [
          | failure x ↦ stop x m
          | value v ↦ done tt (passed m.data_mem_unit m.mmu m.writer v m)
        ])
          ≡ done tt m1
        → (v : ℕ) × (a ≡ value v) × (m1 ≡ passed m.data_mem_unit m.mmu m.writer v m)
    go (value v) e = (v, refl, sym (ap final e))
    go (failure x) e = absurd (ground arith)

pub do_memory-done : (m m1 : PipelineModel) → do_memory m ≡ done tt m1 → MemoryDone m m1
unfolding do_memory
do_memory-done m m1 e =
    let (_, m', a, e') = bind-done access_data (λ _. pass_write_back) m m1 tt e in
    let (d, mmu, w, m'_is) = access_data-done m m' a in
    let (v, shown, m1_is) = pass_write_back-done m' m1 e' in
    record {
      unit = d;
      mmu = mmu;
      writer = w;
      shown = v;
      data_is = subst (λ (n : PipelineModel). get_data n.data_mem_unit n.mmu ≡ value v) m'_is shown;
      left = m1_is ∙ ap (λ (n : PipelineModel). passed n.data_mem_unit n.mmu n.writer v n) m'_is;
    }

-- The state that DoExecute leaves while the pipeline flows.
abbrev pub driven : (a v : ℕ) → TraceWriter → ℕ → PipelineModel → PipelineModel
driven a v w p m = record (drive a v m) {
  writer = w;
  trace_prev_pc = p;
  must_take_halted_wb = unused;
}

pub do_execute-done :
    (m m1 : PipelineModel) (a v : ℕ)
    → m.execute_register.enable_flag ≡ true
    → source_a m ≡ some a
    → source_rs2 m ≡ some v
    → do_execute m ≡ done tt m1
    → (w : TraceWriter) × (p : ℕ) × (m1 ≡ driven a v w p m)
unfolding do_execute save_halted_wb drive trace_executed
do_execute-done m m1 a v on a_is v_is e =
    let n =
      trace_executed m.execute_register.current.instr m.execute_register.current.pc_de
        (drive a v m) in
    let shape : do_execute m ≡ done tt (driven a v n.writer n.trace_prev_pc m) =
      rw (do_execute, a_is, v_is, on) refl in
    (n.writer, n.trace_prev_pc, sym (ap final (sym shape ∙ e)))

-- The register file after its tick, and what its ports show.
pub record Registers (m : PipelineModel) (r : RegFile) : Type 0 where
  pub regs_are : r.regs ≡ commit m.reg_file.regs m.write_back_register.current
  pub shows1 : r.read_data1 ≡ r.regs (get_rs1 m.decode_register.current.instr)
  pub shows2 : r.read_data2 ≡ r.regs (get_rs2 m.decode_register.current.instr)
