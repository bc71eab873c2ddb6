-- ===== src/Pipeline/Program.antt =====
-- models/pipeline/pipeline.h and pipeline.cpp: a program from its file to its return code.
use risc_v_co_simulator.Base.{ℕ, Bool, Option, none, some, ◌==◌, if◌then◌else◌}
use risc_v_co_simulator.Runtime.{
  ReturnCode, Stop, returned, file_open, caught, Outcome, done, stop, M, ◌>>◌, modify, Build,
}
use risc_v_co_simulator.Trace.{TraceWriter, trace_set_reg_file}
use risc_v_co_simulator.Memory.{Mmu}
use risc_v_co_simulator.Memory.Allocate.{allocate_stack, free_memory}
use risc_v_co_simulator.Host.{Host, File}
use risc_v_co_simulator.Elf.{Elf32Loader, new_loader}
use risc_v_co_simulator.Elf.Segment.{load_elf32_into_memory}
use risc_v_co_simulator.Pipeline.Modules.Storage.{RegFile, tick}
use risc_v_co_simulator.Pipeline.Model.{PipelineModel}
use risc_v_co_simulator.Pipeline.Tick.{run}

-- MakeTracesReadable
unfoldable pub make_traces_readable : (readable : Bool) → PipelineModel → PipelineModel
make_traces_readable readable m = record m {
  readable_traces = readable;
  mmu = record (m.mmu) { readable_traces = readable };
  reg_file = record (m.reg_file) { readable_traces = readable };
}

-- SetPC
unfoldable pub set_pc : ℕ → PipelineModel → PipelineModel
set_pc pc m = record m { program_counter = tick (record (m.program_counter) { next = pc }) }

abbrev pub sp_reg : ℕ
sp_reg = 2

-- RegFile::InitSP
unfoldable pub reg_file_init_sp : (value : ℕ) → RegFile → TraceWriter → RegFile × TraceWriter
reg_file_init_sp value r w = (
  record r { regs = λ i. if sp_reg == i then value else r.regs i },
  trace_set_reg_file r.readable_traces "set " 1 sp_reg value w,
)

-- InitSP
unfoldable pub init_sp : Host → M PipelineModel (Unit {0})
unfolding reg_file_init_sp
init_sp h m = elim (allocate_stack h m.mmu) [
  | done sp mmu ↦
      let (reg_file, w) = reg_file_init_sp sp m.reg_file m.writer in
      done tt (record m { mmu = mmu; reg_file = reg_file; writer = w })
  | stop e mmu ↦ stop e (record m { mmu = mmu })
]

-- The model with the memory that the loader leaves.
abbrev pub placed : PipelineModel → Outcome (Elf32Loader × Mmu) ℕ → Outcome PipelineModel ℕ
placed m (done entrypoint s) = done entrypoint (record m { mmu = s.1 })
placed m (stop e s) = stop e (record m { mmu = s.1 })

-- The body of RunProgram's `try`. The path is the file that `open` gives, `none` where it fails;
-- the loader and its copy of the headers end with the block.
unfoldable pub load_program : Host → (path : Option File) → M PipelineModel ℕ
load_program h none m = stop file_open m
load_program h (some f) m = placed m (load_elf32_into_memory h f (new_loader, m.mmu))

-- A return of Run, and the memory that RunProgram then frees. Without a return it is not freed;
-- `none` is a run that goes on when the fuel ends.
unfoldable pub finished :
    Host → Outcome PipelineModel (Unit {0}) → Outcome PipelineModel (Option ReturnCode)
finished h (done _ m) = done none m
finished h (stop (returned code) m) = done (some code) (record m { mmu = free_memory h m.mmu })
finished h (stop e m) = stop e m

-- SetPC, InitSP, Run and FreeMemory. No stage register is cleared.
unfoldable pub started :
    Build → Host → (fuel : ℕ) → (entrypoint : ℕ) → M PipelineModel (Option ReturnCode)
unfolding init_sp finished set_pc
started b h fuel entrypoint = do
  modify (set_pc entrypoint)
  init_sp h
  λ m. finished h (run b fuel m)

-- The `catch` clauses.
abbrev pub answered : Stop → M PipelineModel (Option ReturnCode)
unfolding caught
answered e m = elim (caught e) [ none ↦ stop e m | some code ↦ done (some code) m ]

-- What follows the `try` block.
abbrev pub proceed :
    Build → Host → (fuel : ℕ) → Outcome PipelineModel ℕ → Outcome PipelineModel (Option ReturnCode)
proceed b h fuel (done entrypoint m) = started b h fuel entrypoint m
proceed b h fuel (stop e m) = answered e m

-- RunProgram
unfoldable pub run_program :
    Build → Host → (fuel : ℕ) → (path : Option File) → M PipelineModel (Option ReturnCode)
unfolding load_program
run_program b h fuel path m =
    proceed b h fuel (load_program h path (record m { ticks_counter = 0 }))
