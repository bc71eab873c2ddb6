-- ===== src/Pipeline/Ends.antt =====
-- models/pipeline/pipeline.cpp: how RunProgram can end, and the memory after it.
use mathlib.Core.Path.{subst}
use risc_v_co_simulator.Base.{ℕ, ◌^◌, ◌<◌, ◌≡◌, refl, sym, arith, Option, none, some}
use risc_v_co_simulator.Runtime.{
  ReturnCode, file_open_error, elf_load_error, mmu_alloc_error, ecall, ebreak, Stop, returned,
  terminated, killed, logic_error, elf_load, allocation, out_of_memory, caught, Outcome, done, stop,
  Build,
}
use risc_v_co_simulator.Runtime.Safe.{IsGood}
use risc_v_co_simulator.Memory.{Mmu}
use risc_v_co_simulator.Memory.Allocate.{allocate_stack, map_chunk}
use risc_v_co_simulator.Memory.Access.{IsBytes}
use risc_v_co_simulator.Memory.Chunks.{IsTracked, free_memory-none}
use risc_v_co_simulator.Memory.Steps.{Operation, Operation-IsTracked}
use risc_v_co_simulator.Memory.Stops.{IsLoadStop}
use risc_v_co_simulator.Host.{Host, MapsPages, Grants, File, Holds}
use risc_v_co_simulator.Elf.{Elf32Loader, new_loader}
use risc_v_co_simulator.Elf.Segment.{load_elf32_into_memory}
use risc_v_co_simulator.Elf.Bytes.{allocate_stack-IsBytes}
use risc_v_co_simulator.Elf.Entry.{load_elf32-IsBytes}
use risc_v_co_simulator.Elf.Stops.{load_elf32-StopsIn}
use risc_v_co_simulator.Elf.Tracked.{load_elf32-IsTracked}
use risc_v_co_simulator.Trace.{TraceWriter}
use risc_v_co_simulator.Pipeline.Modules.Storage.{RegFile}
use risc_v_co_simulator.Pipeline.Model.{PipelineModel}
use risc_v_co_simulator.Pipeline.Tick.{run}
use risc_v_co_simulator.Pipeline.Program.{
  set_pc, init_sp, reg_file_init_sp, placed, answered, proceed, load_program, finished, started,
  run_program,
}
use risc_v_co_simulator.Pipeline.Sound.{IsMmuSound, IsRegFileSound, IsSound, tick-Both}
use risc_v_co_simulator.Pipeline.Sound.Memory.{with_memory}
use risc_v_co_simulator.Pipeline.Sound.Registers.{with_registers}
use risc_v_co_simulator.Pipeline.Sound.Cycle.{IsRunStop, run-IsSound}

-- No byte is mapped.
abbrev pub IsFree : PipelineModel → Type 0
IsFree m = (q : ℕ) → m.mmu.cell q ≡ none

-- RunProgram returns ECALL or EBREAK with no byte left mapped, or the code of a file that does not
-- load; or it is still running, sound; or it has been ended by a fault, by `std::terminate`, or by
-- an exception that it does not catch.
abbrev pub IsPipelineEnd : Outcome PipelineModel (Option ReturnCode) → Type 0
IsPipelineEnd (done none m) = IsSound m
IsPipelineEnd (done (some ecall) m) = IsFree m
IsPipelineEnd (done (some ebreak) m) = IsFree m
IsPipelineEnd (done (some file_open_error) m) = Unit
IsPipelineEnd (done (some elf_load_error) m) = Unit
IsPipelineEnd (done (some mmu_alloc_error) m) = Unit
IsPipelineEnd (done (some _) m) = ⊥
IsPipelineEnd (stop killed m) = Unit
IsPipelineEnd (stop terminated m) = Unit
IsPipelineEnd (stop logic_error m) = Unit
IsPipelineEnd (stop allocation m) = Unit
IsPipelineEnd (stop out_of_memory m) = Unit
IsPipelineEnd (stop _ m) = ⊥

-- A load that stops is answered with a code, or ends the process.
answered-IsPipelineEnd :
    (e : Stop) (m : PipelineModel) → IsLoadStop e → IsPipelineEnd (answered e m)
unfolding caught
answered-IsPipelineEnd elf_load m ok = tt
answered-IsPipelineEnd allocation m ok = tt
answered-IsPipelineEnd out_of_memory m ok = tt
answered-IsPipelineEnd killed m ok = tt
answered-IsPipelineEnd _ m ok = absurd ok

stack_stop : (h : Host) (m m' : Mmu) (e : Stop) → allocate_stack h m ≡ stop e m' → e ≡ allocation
unfolding allocate_stack map_chunk
stack_stop h m m' e r = ground arith

-- The register file with a word in register 2.
stack_pointer-IsRegFileSound :
    (v : ℕ) (r : RegFile) (w : TraceWriter)
    → v < 2 ^ 32
    → IsRegFileSound r
    → IsRegFileSound ((reg_file_init_sp v r w).0)
unfolding reg_file_init_sp
stack_pointer-IsRegFileSound v r w word ok = record {
  zero_reg = ok.zero_reg;
  reg_word = λ i. ground (arith, ok.reg_word i);
  data1_word = ok.data1_word;
  data2_word = ok.data2_word;
}

module _ (h : Host) (maps : MapsPages h) (grants : Grants h) where
  finished-IsPipelineEnd :
      (o : Outcome PipelineModel (Unit {0}))
      → IsGood IsSound IsRunStop o
      → IsPipelineEnd (finished h o)
  unfolding finished
  finished-IsPipelineEnd (done _ m) ok = ok
  finished-IsPipelineEnd (stop (returned ecall) m) ok =
      λ q. free_memory-none h m.mmu q maps grants ok.0.memory.tracked
  finished-IsPipelineEnd (stop (returned ebreak) m) ok =
      λ q. free_memory-none h m.mmu q maps grants ok.0.memory.tracked
  finished-IsPipelineEnd (stop (returned _) m) ok = absurd ok.1
  finished-IsPipelineEnd (stop killed m) ok = tt
  finished-IsPipelineEnd (stop terminated m) ok = tt
  finished-IsPipelineEnd (stop logic_error m) ok = tt
  finished-IsPipelineEnd (stop _ m) ok = absurd ok.1

  -- InitSP sets a word in register 2, over a memory that stays sound, or its allocation fails.
  abbrev IsStackEnd : Outcome PipelineModel (Unit {0}) → Type 0
  IsStackEnd (done _ m) = IsSound m
  IsStackEnd (stop e m) = e ≡ allocation

  init_sp-IsStackEnd : (m : PipelineModel) → IsSound m → IsStackEnd (init_sp h m)
  unfolding init_sp reg_file_init_sp
  init_sp-IsStackEnd m ok =
      go (allocate_stack h m.mmu)
        (λ p mmu e. Operation-IsTracked h maps grants (Operation.stacking p e) ok.memory.tracked)
        (λ p mmu e. allocate_stack-IsBytes h p m.mmu mmu maps e ok.memory.cell_byte)
        (λ mmu e r. stack_stop h m.mmu mmu e r)
    where
      go :
          (o : Outcome Mmu ℕ)
          → ((p : ℕ) (mmu : Mmu) → o ≡ done p mmu → IsTracked mmu)
          → ((p : ℕ) (mmu : Mmu) → o ≡ done p mmu → (p ≡ 4294959103) × IsBytes mmu.cell)
          → ((mmu : Mmu) (e : Stop) → o ≡ stop e mmu → e ≡ allocation)
          → IsStackEnd (elim o as (λ _. Outcome PipelineModel (Unit {0})) [
            | done sp mmu ↦
                let (reg_file, w) = reg_file_init_sp sp m.reg_file m.writer in
                done tt (record m { mmu = mmu; reg_file = reg_file; writer = w })
            | stop e mmu ↦ stop e (record m { mmu = mmu })
          ])
      go (done sp mmu) t b s =
          let (sp_is, bytes) = b sp mmu refl in
          let memory : IsMmuSound mmu = record { tracked = t sp mmu refl; cell_byte = bytes } in
          with_registers (record m { mmu = mmu }) _
            (stack_pointer-IsRegFileSound sp m.reg_file m.writer (omega (arith, sp_is))
              ok.registers)
            (with_memory m mmu memory ok)
      go (stop e mmu) t b s = s mmu e refl

  module _ (b : Build) (fuel : ℕ) where
    started-IsPipelineEnd :
        (entry : ℕ) (m : PipelineModel)
        → entry < 2 ^ 32
        → IsSound m
        → IsPipelineEnd (started b h fuel entry m)
    unfolding started set_pc
    started-IsPipelineEnd entry m word ok =
        go (init_sp h (set_pc entry m)) (init_sp-IsStackEnd (set_pc entry m) at_entry)
      where
        at_entry : IsSound (set_pc entry m)
        at_entry = record {
          memory = ok.memory;
          registers = ok.registers;
          pc_word =
              tick-Both (λ pc. pc < 2 ^ 32) (record (m.program_counter) { next = entry })
                (word, ok.pc_word.1);
          decode_word = ok.decode_word;
          execute_sound = ok.execute_sound;
          memory_sound = ok.memory_sound;
          write_back_sound = ok.write_back_sound;
          bypass_word = ok.bypass_word;
          halted_word = ok.halted_word;
        }

        go :
            (o : Outcome PipelineModel (Unit {0}))
            → IsStackEnd o
            → IsPipelineEnd (elim o as (λ _. Outcome PipelineModel (Option ReturnCode)) [
              | done _ m' ↦ finished h (run b fuel m')
              | stop e m' ↦ stop e m'
            ])
        go (done _ m') sound = finished-IsPipelineEnd _ (run-IsSound b fuel m' sound)
        go (stop e m') same = subst (λ (e : Stop). IsPipelineEnd (stop e m')) (sym same) tt

    -- On a host with memory to spare that maps and unmaps whole pages, from a sound state
    -- (`IsSound`): RunProgram of the pipeline on a file that has been opened returns ECALL or
    -- EBREAK with no byte left mapped, or ELF_LOAD_ERROR, MMU_ALLOC_ERROR or FILE_OPEN_ERROR; or it
    -- is still running in a sound state when the fuel ends; or the process was ended, by an access
    -- to an unmapped page, by `std::terminate`, by an allocation's exception that is not caught, or
    -- by `std::logic_error`.
    pub run_program-IsPipelineEnd :
        (f : File) (content : ℕ → ℕ) (len : ℕ) (m : PipelineModel)
        → Holds content len f
        → IsSound m
        → IsPipelineEnd (run_program b h fuel (some f) m)
    unfolding run_program load_program
    run_program-IsPipelineEnd f content len m holds ok =
        go (load_elf32_into_memory h f (new_loader, m.mmu)) refl
      where
        fresh : PipelineModel
        fresh = record m { ticks_counter = 0 }

        go :
            (o : Outcome (Elf32Loader × Mmu) ℕ)
            → load_elf32_into_memory h f (new_loader, m.mmu) ≡ o
            → IsPipelineEnd (proceed b h fuel (placed fresh o))
        go (done entry (l, mmu)) e =
            let (word, bytes) =
              load_elf32-IsBytes f content len holds h m.mmu mmu l entry maps e
                ok.memory.cell_byte in
            let tracked =
              load_elf32-IsTracked f content len holds h maps m.mmu mmu l entry e
                ok.memory.tracked in
            started-IsPipelineEnd entry (record fresh { mmu = mmu }) word
              (with_memory m mmu (record { tracked = tracked; cell_byte = bytes }) ok)
        go (stop a s) e =
            answered-IsPipelineEnd a (record fresh { mmu = s.1 })
              (load_elf32-StopsIn h f (new_loader, m.mmu) s a e)
