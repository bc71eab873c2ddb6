-- ===== src/Pipeline/Starts.antt =====
-- models/pipeline/pipeline.cpp: RunProgram up to the first cycle.
use risc_v_co_simulator.Base.{ℕ, ◌≡◌, refl, ap, ◌∙◌, arith, true, Option, some, ◌==◌, if◌then◌else◌}
use risc_v_co_simulator.Runtime.{ReturnCode, Outcome, done, stop, Build}
use risc_v_co_simulator.Memory.{Mmu}
use risc_v_co_simulator.Memory.Allocate.{allocate_stack}
use risc_v_co_simulator.Host.{Host, MapsPages, Grants, File, Holds}
use risc_v_co_simulator.Elf.Loads.{header_of}
use risc_v_co_simulator.Elf.Starts.{IsProgram, IsStarted, load-stack}
use risc_v_co_simulator.Pipeline.Model.{PipelineModel}
use risc_v_co_simulator.Pipeline.Tick.{run}
use risc_v_co_simulator.Pipeline.Program.{
  set_pc, init_sp, reg_file_init_sp, sp_reg, load_program, placed, proceed, finished, started,
  run_program,
}

-- The model with its stack.
abbrev stacked : Mmu → PipelineModel → PipelineModel
unfolding reg_file_init_sp
stacked mmu m =
    let (reg_file, w) = reg_file_init_sp 4294959103 m.reg_file m.writer in
    record m { mmu = mmu; reg_file = reg_file; writer = w }

init_sp_lem :
    (h : Host) (m : PipelineModel) (mmu : Mmu)
    → allocate_stack h m.mmu ≡ done 4294959103 mmu
    → init_sp h m ≡ done tt (stacked mmu m)
unfolding init_sp reg_file_init_sp
init_sp_lem h m mmu e = ground (arith, e)

-- On a host with memory to spare, RunProgram of the pipeline on a file with a program
-- (`IsProgram`), with the program counter's register enabled, runs it, with fuel of any amount,
-- from a state where the program counter is the entry point, the stack pointer is set, the other
-- registers are as before, and every segment is in memory.
pub run_program-Pipeline :
    (b : Build) (h : Host) (fuel : ℕ) (f : File) (content : ℕ → ℕ) (len : ℕ) (m : PipelineModel)
    → MapsPages h
    → Grants h
    → Holds content len f
    → IsProgram content len
    → m.program_counter.enable_flag ≡ true
    → (m1 : PipelineModel) × (run_program b h fuel (some f) m ≡ finished h (run b fuel m1))
      × IsStarted content m1.program_counter.current (m1.reg_file.regs sp_reg) m1.mmu.cell
      × ((i : ℕ) → m1.reg_file.regs i ≡ (if sp_reg == i then 4294959103 else m.reg_file.regs i))
unfolding run_program load_program started reg_file_init_sp set_pc
run_program-Pipeline b h fuel f content len m maps grants holds ok enabled =
    let (mmu1, mmu2, e, e', loaded) = load-stack h f content len m.mmu maps grants holds ok in
    let entry = (header_of content).e_entry in
    (
      stacked mmu2 (set_pc entry (record m { ticks_counter = 0; mmu = mmu1 })),
      ap (λ o. proceed b h fuel (placed (record m { ticks_counter = 0 }) o)) e
          ∙ ap ran
              (init_sp_lem h (set_pc entry (record m { ticks_counter = 0; mmu = mmu1 })) mmu2 e'),
      record { at_entry = ground (arith, enabled); stack_pointer = refl; loaded = loaded },
      λ i. refl,
    )
  where
    ran : Outcome PipelineModel (Unit {0}) → Outcome PipelineModel (Option ReturnCode)
    ran (done _ s) = finished h (run b fuel s)
    ran (stop e s) = stop e s
