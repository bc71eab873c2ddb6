-- ===== src/Pipeline/Flow/Finish.antt =====
-- What finishing the instructions in the memory and write-back stages depends on.
use risc_v_co_simulator.Base.{
  ℕ, ◌+◌, ◌%◌, ◌^◌, ◌≡◌, sym, ap, ◌∙◌, refl, Bool, true, false, ◌||◌, if◌then◌else◌,
}
use risc_v_co_simulator.Runtime.{Stop, killed, Outcome, done, stop, ◌>>◌}
use risc_v_co_simulator.Isa
use risc_v_co_simulator.Isa.{State, Effect}
use risc_v_co_simulator.Trace.{TraceWriter}
use risc_v_co_simulator.Memory.{Mmu}
use risc_v_co_simulator.Pipeline.Modules.Storage.{
  DataMemUnit, Access, value, failure, get_data, tick_data_mem,
}
use risc_v_co_simulator.Pipeline.Stages.{MemoryState}
use risc_v_co_simulator.Pipeline.Model.{PipelineModel}
use risc_v_co_simulator.Pipeline.Tick.{data_mem_tick, pass_write_back, do_memory}
use risc_v_co_simulator.Pipeline.Datapath.Memory.{retired_memory}
use risc_v_co_simulator.Pipeline.Flow.{commit, settle}
use risc_v_co_simulator.Pipeline.Flow.Operands.{pending}
use risc_v_co_simulator.Pipeline.Flow.Steps.{passed}

-- The memory stage on its own inputs.
abbrev failed : Stop → Effect
failed killed = Effect.fault
failed e = Effect.internal_error

abbrev shown : (pc : ℕ) → (x : ℕ → ℕ) → MemoryState → Mmu → Access ℕ → Effect
shown pc x r mmu (failure e) = failed e
shown pc x r mmu (value v) =
    Effect.next (record { pc = pc; x = commit x (pending r v); mem = mmu.cell })

abbrev accessed_by : (pc : ℕ) → (x : ℕ → ℕ) → MemoryState → Access (DataMemUnit × Mmu) → Effect
accessed_by pc x r (failure e) = failed e
accessed_by pc x r (value (d, mmu)) = shown pc x r mmu (get_data d mmu)

-- The unit with the signals of the memory register.
abbrev driven_unit : MemoryState → DataMemUnit → DataMemUnit
driven_unit r d = record d {
  store_mode = r.store_mode;
  write_enable = r.mem_we;
  address = r.alu_res;
  write_data = r.write_data;
}

unfoldable stage : (pc : ℕ) → (x : ℕ → ℕ) → MemoryState → DataMemUnit → Mmu → TraceWriter → Effect
unfolding tick_data_mem get_data
stage pc x r d mmu w =
    accessed_by pc x r (
      if r.mem_to_reg || r.mem_we
      then (tick_data_mem (driven_unit r d) mmu w).0
      else value (d, mmu))

settle-failed :
    (pc : ℕ) (x : ℕ → ℕ) (e : Stop) (m : PipelineModel) → settle pc x (stop e m) ≡ failed e
settle-failed pc x killed m = refl
settle-failed pc x (Stop.returned _) m = refl
settle-failed pc x _ m = refl

passed-shown :
    (pc : ℕ) (x : ℕ → ℕ) (m : PipelineModel)
    → settle pc x (pass_write_back m)
      ≡ shown pc x m.memory_register.current m.mmu (get_data m.data_mem_unit m.mmu)
passed-shown pc x m = go (get_data m.data_mem_unit m.mmu)
  where
    go :
        (a : Access ℕ)
        → settle pc x (elim a as (λ _. Outcome PipelineModel (Unit {0})) [
          | failure e ↦ stop e m
          | value v ↦ done tt (passed m.data_mem_unit m.mmu m.writer v m)
        ])
          ≡ shown pc x m.memory_register.current m.mmu a
    go (failure e) = settle-failed pc x e m
    go (value v) = refl

do_memory-stage :
    (pc : ℕ) (x : ℕ → ℕ) (m : PipelineModel)
    → settle pc x (do_memory m)
      ≡ stage pc x m.memory_register.current m.data_mem_unit m.mmu m.writer
unfolding do_memory stage
do_memory-stage pc x m =
    by_access (m.memory_register.current.mem_to_reg || m.memory_register.current.mem_we)
  where
    by_tick :
        (d0 : DataMemUnit) (t : Access (DataMemUnit × Mmu) × TraceWriter)
        → settle pc x (
            ((λ (_ : PipelineModel). elim (t.0) as (λ _. Outcome PipelineModel (Unit {0})) [
              | value (d, mmu) ↦ done tt (record m { data_mem_unit = d; mmu = mmu; writer = t.1 })
              | failure e ↦ stop e (record m { data_mem_unit = d0; writer = t.1 })
            ])
                >> pass_write_back)
              m)
          ≡ accessed_by pc x m.memory_register.current (t.0)
    by_tick d0 (value (d, mmu), w) =
        passed-shown pc x (record m { data_mem_unit = d; mmu = mmu; writer = w })
    by_tick d0 (failure e, w) = settle-failed pc x e _

    by_access :
        (b : Bool)
        → settle pc x (
            ((λ n.
                  if b
                  then data_mem_tick (record n {
                    data_mem_unit = driven_unit n.memory_register.current n.data_mem_unit;
                  })
                  else done tt n)
                >> pass_write_back)
              m)
          ≡ accessed_by pc x m.memory_register.current (
              if b
              then (tick_data_mem
                  (driven_unit m.memory_register.current m.data_mem_unit)
                  m.mmu
                  m.writer).0
              else value (m.data_mem_unit, m.mmu))
    by_access true =
        by_tick _
          (tick_data_mem (driven_unit m.memory_register.current m.data_mem_unit) m.mmu m.writer)
    by_access false = passed-shown pc x m

-- The memory stage depends on its register, its unit, the memory and the writer only.
pub same_memory :
    (pc : ℕ) (x : ℕ → ℕ) (m n : PipelineModel)
    → m.memory_register.current ≡ n.memory_register.current
    → m.data_mem_unit ≡ n.data_mem_unit
    → m.mmu ≡ n.mmu
    → m.writer ≡ n.writer
    → settle pc x (do_memory m) ≡ settle pc x (do_memory n)
same_memory pc x m n r d u w =
    do_memory-stage pc x m
    ∙ (ap (λ (t : MemoryState). stage pc x t m.data_mem_unit m.mmu m.writer) r
        ∙ (ap (λ (t : DataMemUnit). stage pc x n.memory_register.current t m.mmu m.writer) d
            ∙ (ap (λ (t : Mmu). stage pc x n.memory_register.current n.data_mem_unit t m.writer) u
                ∙ (ap
                      (λ (t : TraceWriter).
                        stage pc x n.memory_register.current n.data_mem_unit n.mmu t)
                      w
                    ∙ sym (do_memory-stage pc x n)))))

-- An instruction that uses no memory passes its result on.
pub no_access :
    (pc : ℕ) (x : ℕ → ℕ) (m : PipelineModel) (v : ℕ)
    → m.memory_register.current.mem_to_reg ≡ false
    → m.memory_register.current.mem_we ≡ false
    → get_data m.data_mem_unit m.mmu ≡ value v
    → settle pc x (do_memory m)
      ≡ Effect.next (record {
        pc = pc;
        x =
            if m.memory_register.current.wb_we
            then Isa.put x m.memory_register.current.wb_a m.memory_register.current.alu_res
            else x;
        mem = m.mmu.cell;
      })
unfolding stage
no_access pc x m v load store shows = do_memory-stage pc x m ∙ rw (stage, load, store, shows) refl

-- After an instruction that does not jump.
pub settle-retired :
    (s : State) (o : Outcome PipelineModel (Unit {0}))
    → settle ((s.pc + 4) % 2 ^ 32) s.x o ≡ retired_memory s o
unfolding retired_memory
settle-retired s (done _ m) = refl
settle-retired s (stop killed m) = refl
settle-retired s (stop (Stop.returned _) m) = refl
settle-retired s (stop _ m) = refl
