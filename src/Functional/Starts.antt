-- ===== src/Functional/Starts.antt =====
-- models/functional/model.cpp: RunProgram up to the first instruction.
use risc_v_co_simulator.Base.{ℕ, ◌≡◌, refl, ap, ◌∙◌, arith, Option, some, ◌==◌, if◌then◌else◌}
use risc_v_co_simulator.Runtime.{ReturnCode, Outcome, done, stop, Build}
use risc_v_co_simulator.Memory.{Mmu}
use risc_v_co_simulator.Memory.Allocate.{allocate_stack}
use risc_v_co_simulator.Host.{Host, MapsPages, Grants, File, Holds}
use risc_v_co_simulator.Elf.Loads.{header_of}
use risc_v_co_simulator.Elf.Starts.{IsProgram, IsStarted, load-stack}
use risc_v_co_simulator.Functional.Model.{FunctionalModel}
use risc_v_co_simulator.Functional.Handlers.{run}
use risc_v_co_simulator.Functional.Program.{
  init_sp, sp_reg, placed, proceed, load_program, finished, started, run_program,
}
use risc_v_co_simulator.Functional.Refines.State.{written, write_reg_lem, masked_lem}

-- The model that Run starts from.
abbrev ready : (entry : ℕ) → Mmu → FunctionalModel → FunctionalModel
ready entry mmu m =
    written 4294959103 sp_reg (record m { ticks_counter = 0; pc = entry; mmu = mmu })

init_sp_lem :
    (h : Host) (m : FunctionalModel) (mmu : Mmu)
    → allocate_stack h m.mmu ≡ done 4294959103 mmu
    → init_sp h m ≡ done tt (written 4294959103 sp_reg (record m { mmu = mmu }))
unfolding init_sp
init_sp_lem h m mmu e =
    ground (arith, e, write_reg_lem sp_reg (omega arith) 4294959103 (record m { mmu = mmu }))

-- On a host with memory to spare, RunProgram of the interpreter on a file with a program
-- (`IsProgram`) runs it, with fuel of any amount, from a state where the program counter is the
-- entry point, the stack pointer is set, the other registers are as before, and every segment is in
-- memory.
pub run_program-IsStarted :
    (b : Build) (h : Host) (fuel : ℕ) (f : File) (content : ℕ → ℕ) (len : ℕ) (m : FunctionalModel)
    → MapsPages h
    → Grants h
    → Holds content len f
    → IsProgram content len
    → (m1 : FunctionalModel) × (run_program b h fuel (some f) m ≡ finished h (run b fuel m1))
      × IsStarted content m1.pc (m1.registers.regs sp_reg) m1.mmu.cell
      × ((i : ℕ) → m1.registers.regs i ≡ (if sp_reg == i then 4294959103 else m.registers.regs i))
unfolding run_program load_program started
run_program-IsStarted b h fuel f content len m maps grants holds ok =
    let (mmu1, mmu2, e, e', loaded) = load-stack h f content len m.mmu maps grants holds ok in
    let entry = (header_of content).e_entry in
    (
      ready entry mmu2 m,
      ap (λ o. proceed b h fuel (placed (record m { ticks_counter = 0 }) o)) e
          ∙ ap ran (init_sp_lem h (record m { ticks_counter = 0; pc = entry; mmu = mmu1 }) mmu2 e'),
      record { at_entry = refl; stack_pointer = masked_lem 4294959103 sp_reg; loaded = loaded },
      λ i. ground (arith, masked_lem 4294959103 sp_reg),
    )
  where
    ran : Outcome FunctionalModel (Unit {0}) → Outcome FunctionalModel (Option ReturnCode)
    ran (done _ s) = finished h (run b fuel s)
    ran (stop e s) = stop e s
