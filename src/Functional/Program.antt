-- ===== src/Functional/Program.antt =====
-- models/functional/model.h and model.cpp: a program from its file to its return code.
use risc_v_co_simulator.Base.{ℕ, Bool, false, Option, none, some}
use risc_v_co_simulator.Runtime.{
  ReturnCode, Stop, returned, file_open, caught, Outcome, done, stop, M, ◌>>=◌, ◌>>◌, Build,
}
use risc_v_co_simulator.Trace.{TraceWriter}
use risc_v_co_simulator.Memory.{Mmu}
use risc_v_co_simulator.Memory.Allocate.{allocate_stack, free_memory}
use risc_v_co_simulator.Host.{Host, File}
use risc_v_co_simulator.Elf.{Elf32Loader, new_loader}
use risc_v_co_simulator.Elf.Segment.{load_elf32_into_memory}
use risc_v_co_simulator.Functional.Model.{FunctionalModel, write_reg, set_pc}
use risc_v_co_simulator.Functional.Handlers.{run}

-- The constructor, with a new memory.
unfoldable pub new_model : Mmu → TraceWriter → FunctionalModel
new_model mmu w = record {
  ticks_counter = 0;
  mmu = mmu;
  registers = record { regs = λ _. 0; readable_traces = false };
  pc = 0;
  readable_traces = false;
  writer = w;
}

-- MakeTracesReadable
unfoldable pub make_traces_readable : (readable : Bool) → FunctionalModel → FunctionalModel
make_traces_readable readable m = record m {
  readable_traces = readable;
  mmu = record (m.mmu) { readable_traces = readable };
  registers = record (m.registers) { readable_traces = readable };
}

abbrev pub sp_reg : ℕ
sp_reg = 2

abbrev pub on_mmu : {A : Type 0} → M Mmu A → M FunctionalModel A
on_mmu x m = elim (x m.mmu) [
  | done a mmu ↦ done a (record m { mmu = mmu })
  | stop e mmu ↦ stop e (record m { mmu = mmu })
]

-- InitSP
unfoldable pub init_sp : Host → M FunctionalModel (Unit {0})
init_sp h = do sp ← on_mmu (allocate_stack h); write_reg sp sp_reg

-- The model with the memory that the loader leaves.
abbrev pub placed : FunctionalModel → Outcome (Elf32Loader × Mmu) ℕ → Outcome FunctionalModel ℕ
placed m (done entrypoint s) = done entrypoint (record m { mmu = s.1 })
placed m (stop e s) = stop e (record m { mmu = s.1 })

-- The body of RunProgram's `try`. The path is the file that `open` gives, `none` where it fails;
-- the loader and its copy of the headers end with the block.
unfoldable pub load_program : Host → (path : Option File) → M FunctionalModel ℕ
load_program h none m = stop file_open m
load_program h (some f) m = placed m (load_elf32_into_memory h f (new_loader, m.mmu))

-- A return of Run, and the memory that RunProgram then frees. Without a return it is not freed;
-- `none` is a run that goes on when the fuel ends.
unfoldable pub finished :
    Host → Outcome FunctionalModel ℕ → Outcome FunctionalModel (Option ReturnCode)
finished h (done _ m) = done none m
finished h (stop (returned code) m) = done (some code) (record m { mmu = free_memory h m.mmu })
finished h (stop e m) = stop e m

-- SetPC, InitSP, Run and FreeMemory.
unfoldable pub started :
    Build → Host → (fuel : ℕ) → (entrypoint : ℕ) → M FunctionalModel (Option ReturnCode)
unfolding init_sp finished
started b h fuel entrypoint = do set_pc entrypoint; init_sp h; λ m. finished h (run b fuel m)

-- The `catch` clauses.
abbrev pub answered : Stop → M FunctionalModel (Option ReturnCode)
unfolding caught
answered e m = elim (caught e) [ none ↦ stop e m | some code ↦ done (some code) m ]

-- What follows the `try` block.
abbrev pub proceed :
    Build
    → Host
    → (fuel : ℕ) → Outcome FunctionalModel ℕ
    → Outcome FunctionalModel (Option ReturnCode)
proceed b h fuel (done entrypoint m) = started b h fuel entrypoint m
proceed b h fuel (stop e m) = answered e m

-- RunProgram
unfoldable pub run_program :
    Build → Host → (fuel : ℕ) → (path : Option File) → M FunctionalModel (Option ReturnCode)
unfolding load_program
run_program b h fuel path m =
    proceed b h fuel (load_program h path (record m { ticks_counter = 0 }))
