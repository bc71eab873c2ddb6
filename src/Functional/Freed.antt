-- ===== src/Functional/Freed.antt =====
-- models/functional/model.cpp: the memory after a program that has ended.
use mathlib.Core.Path.{subst}
use risc_v_co_simulator.Base.{ℕ, ◌≡◌, refl, arith, Bool, true, false, none, some}
use risc_v_co_simulator.Runtime.{
  ReturnCode, ecall, ebreak, Stop, returned, file_open, elf_load, allocation, caught, Outcome, done,
  stop, final, Build,
}
use risc_v_co_simulator.Runtime.Binds.{bind-done}
use risc_v_co_simulator.Memory.{Mmu}
use risc_v_co_simulator.Memory.Allocate.{allocate_stack, free_memory}
use risc_v_co_simulator.Memory.Chunks.{IsTracked, free_memory-none}
use risc_v_co_simulator.Memory.Steps.{Operation, Operation-IsTracked}
use risc_v_co_simulator.Host.{Host, MapsPages, Grants, File, Holds}
use risc_v_co_simulator.Elf.{Elf32Loader, new_loader}
use risc_v_co_simulator.Elf.Segment.{load_elf32_into_memory}
use risc_v_co_simulator.Elf.Tracked.{load_elf32-IsTracked}
use risc_v_co_simulator.Functional.Model.{FunctionalModel, write_reg}
use risc_v_co_simulator.Functional.Handlers.{run}
use risc_v_co_simulator.Functional.Program.{
  on_mmu, sp_reg, init_sp, load_program, placed, answered, proceed, finished, started, run_program,
}
use risc_v_co_simulator.Functional.Ends.{on_mmu-done}
use risc_v_co_simulator.Functional.Tracked.{write_reg-KeepsTracked}
use risc_v_co_simulator.Functional.Tracked.Run.{run-KeepsTracked}

-- The codes of a program that has ended.
abbrev pub is_end : ReturnCode → Bool
is_end ecall = true
is_end ebreak = true
is_end _ = false

-- A file that does not load is answered with another code.
answered-is_end :
    (e : Stop) (m m' : FunctionalModel) (c : ReturnCode)
    → answered e m ≡ done (some c) m'
    → is_end c ≡ false
unfolding caught
answered-is_end file_open m m' c r = ground arith
answered-is_end elf_load m m' c r = ground arith
answered-is_end allocation m m' c r = ground arith
answered-is_end _ m m' c r = absurd (ground arith)

init_sp-IsTracked :
    (h : Host) (m m' : FunctionalModel)
    → MapsPages h
    → Grants h
    → init_sp h m ≡ done tt m'
    → IsTracked m.mmu
    → IsTracked m'.mmu
unfolding init_sp
init_sp-IsTracked h m m' maps grants e ok =
    let (sp, m1, a, w) =
      bind-done (on_mmu (allocate_stack h)) (λ sp. write_reg sp sp_reg) m m' tt e in
    let (stack, _) = on_mmu-done (allocate_stack h) m m1 sp a in
    let tracked = Operation-IsTracked h maps grants (Operation.stacking sp stack) ok in
    subst (λ (o : Outcome FunctionalModel (Unit {0})). IsTracked (final o).mmu) w
      ((write_reg-KeepsTracked sp sp_reg).keeps m1 tracked)

module _ (b : Build) (h : Host) (maps : MapsPages h) (grants : Grants h) (fuel : ℕ) (q : ℕ)
    (m' : FunctionalModel) (c : ReturnCode) where
  finished-none :
      (o : Outcome FunctionalModel ℕ)
      → IsTracked (final o).mmu
      → finished h o ≡ done (some c) m'
      → m'.mmu.cell q ≡ none
  unfolding finished
  finished-none (done _ m) ok e = absurd (ground arith)
  finished-none (stop (returned code) m) ok e =
      let same : record m { mmu = free_memory h m.mmu } ≡ m' = ground arith in
      subst (λ (s : FunctionalModel). s.mmu.cell q ≡ none) same
        (free_memory-none h m.mmu q maps grants ok)
  finished-none (stop _ m) ok e = absurd (ground arith)

  started-none :
      (entry : ℕ) (m : FunctionalModel)
      → IsTracked m.mmu
      → started b h fuel entry m ≡ done (some c) m'
      → m'.mmu.cell q ≡ none
  unfolding started
  started-none entry m ok e =
      let (_, m1, s, e') =
        bind-done (init_sp h) (λ _ s. finished h (run b fuel s)) (record m { pc = entry }) m'
          (some c) e in
      finished-none (run b fuel m1)
        ((run-KeepsTracked b fuel).keeps m1 (init_sp-IsTracked h _ m1 maps grants s ok)) e'

  -- On a host with memory to spare that maps and unmaps whole pages, from a memory whose mapped
  -- bytes are all in its chunks: when RunProgram of the interpreter on a file that has been opened
  -- returns ECALL or EBREAK, no byte is left mapped.
  pub run_program-unmapped :
      (f : File) (content : ℕ → ℕ) (len : ℕ) (m : FunctionalModel)
      → Holds content len f
      → IsTracked m.mmu
      → run_program b h fuel (some f) m ≡ done (some c) m'
      → is_end c ≡ true
      → m'.mmu.cell q ≡ none
  unfolding run_program load_program
  run_program-unmapped f content len m holds ok e ended =
      go (load_elf32_into_memory h f (new_loader, m.mmu)) refl e
    where
      fresh : FunctionalModel
      fresh = record m { ticks_counter = 0 }

      go :
          (o : Outcome (Elf32Loader × Mmu) ℕ)
          → load_elf32_into_memory h f (new_loader, m.mmu) ≡ o
          → proceed b h fuel (placed fresh o) ≡ done (some c) m'
          → m'.mmu.cell q ≡ none
      go (done entry (l, mmu)) l_is e =
          started-none entry (record fresh { mmu = mmu })
            (load_elf32-IsTracked f content len holds h maps m.mmu mmu l entry l_is ok) e
      go (stop a s) l_is e =
          absurd (ground (arith, ended, answered-is_end a (record fresh { mmu = s.1 }) m' c e))
