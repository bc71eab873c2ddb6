-- ===== src/Functional/Ends.antt =====
-- models/functional/model.cpp: how RunProgram can end.
use mathlib.Core.Path.{subst}
use risc_v_co_simulator.Base.{ℕ, ◌≡◌, refl, sym, arith, Option, none, some}
use risc_v_co_simulator.Runtime.{
  ReturnCode, file_open_error, elf_load_error, mmu_alloc_error, ecall, ebreak, Stop, returned,
  terminated, killed, elf_load, allocation, out_of_memory, caught, Outcome, done, stop, M, Build,
  MasksCounts,
}
use risc_v_co_simulator.Runtime.Binds.{bind-done}
use risc_v_co_simulator.Isa
use risc_v_co_simulator.Isa.{Effect}
use risc_v_co_simulator.Memory.{Mmu}
use risc_v_co_simulator.Memory.Allocate.{allocate_stack, map_chunk}
use risc_v_co_simulator.Host.{Host, MapsPages, File, Holds}
use risc_v_co_simulator.Elf.{Elf32Loader, new_loader}
use risc_v_co_simulator.Elf.Segment.{load_elf32_into_memory}
use risc_v_co_simulator.Elf.Bytes.{allocate_stack-IsBytes}
use risc_v_co_simulator.Elf.Entry.{load_elf32-IsBytes}
use risc_v_co_simulator.Elf.Stops.{load_elf32-StopsIn}
use risc_v_co_simulator.Memory.Stops.{IsLoadStop}
use risc_v_co_simulator.Functional.Model.{FunctionalModel, write_reg}
use risc_v_co_simulator.Functional.Handlers.{run}
use risc_v_co_simulator.Functional.Program.{
  on_mmu, sp_reg, placed, answered, proceed, init_sp, load_program, finished, started, run_program,
}
use risc_v_co_simulator.Functional.Refines.State.{view, effect, written, write_reg_lem, masked_lem}
use risc_v_co_simulator.Functional.Refines.Safety.{IsOrderly, run-IsOrderly}

-- The codes of a file that does not load, and of a program that ends.
abbrev pub IsProgramCode : ReturnCode → Type 0
IsProgramCode file_open_error = Unit
IsProgramCode elf_load_error = Unit
IsProgramCode mmu_alloc_error = Unit
IsProgramCode ecall = Unit
IsProgramCode ebreak = Unit
IsProgramCode _ = ⊥

-- RunProgram returns one of these codes, is still running in a valid state, or has been ended by a
-- fault, by `std::terminate`, or by an exception of an allocation that it does not catch.
abbrev pub IsProgramEnd : Outcome FunctionalModel (Option ReturnCode) → Type 0
IsProgramEnd (done none m) = Isa.IsValid (view m)
IsProgramEnd (done (some code) m) = IsProgramCode code
IsProgramEnd (stop killed m) = Unit
IsProgramEnd (stop terminated m) = Unit
IsProgramEnd (stop allocation m) = Unit
IsProgramEnd (stop out_of_memory m) = Unit
IsProgramEnd (stop _ m) = ⊥

finished-IsProgramEnd :
    (h : Host) (o : Outcome FunctionalModel ℕ) → IsOrderly (effect o) → IsProgramEnd (finished h o)
unfolding finished
finished-IsProgramEnd h (done _ m) valid = valid
finished-IsProgramEnd h (stop (returned ecall) m) ok = tt
finished-IsProgramEnd h (stop (returned ebreak) m) ok = tt
finished-IsProgramEnd h (stop (returned _) m) ok = absurd ok
finished-IsProgramEnd h (stop killed m) ok = tt
finished-IsProgramEnd h (stop terminated m) ok = tt
finished-IsProgramEnd h (stop _ m) ok = absurd ok

-- A load that stops is answered with a code, or ends the process.
caught-IsProgramEnd : (e : Stop) (m : FunctionalModel) → IsLoadStop e → IsProgramEnd (answered e m)
unfolding caught
caught-IsProgramEnd elf_load m ok = tt
caught-IsProgramEnd allocation m ok = tt
caught-IsProgramEnd out_of_memory m ok = tt
caught-IsProgramEnd killed m ok = tt
caught-IsProgramEnd _ m ok = absurd ok

pub on_mmu-done :
    {A : Type 0} (x : M Mmu A) (m m' : FunctionalModel) (a : A)
    → on_mmu x m ≡ done a m'
    → (x m.mmu ≡ done a m'.mmu) × (m' ≡ record m { mmu = m'.mmu })
on_mmu-done {A} x m m' a e = go (x m.mmu) e
  where
    go :
        (o : Outcome Mmu A)
        → (elim o [
          | done a mmu ↦ done a (record m { mmu = mmu })
          | stop e mmu ↦ stop e (record m { mmu = mmu })
        ])
          ≡ done a m'
        → (o ≡ done a m'.mmu) × (m' ≡ record m { mmu = m'.mmu })
    go (done _ mmu) e = ground arith
    go (stop _ _) e = absurd (ground arith)

-- The stack and its pointer in a valid state.
init_sp-IsValid :
    (h : Host) (m m' : FunctionalModel)
    → MapsPages h
    → init_sp h m ≡ done tt m'
    → Isa.IsValid (view m)
    → Isa.IsValid (view m')
unfolding init_sp
init_sp-IsValid h m m' maps e valid =
    let (sp, m1, a, w) =
      bind-done (on_mmu (allocate_stack h)) (λ sp. write_reg sp sp_reg) m m' tt e in
    let (stack, rest) = on_mmu-done (allocate_stack h) m m1 sp a in
    let (sp_is, bytes) = allocate_stack-IsBytes h sp m.mmu m1.mmu maps stack valid.cell_byte in
    let same : m' ≡ written sp sp_reg m1 =
      ground (arith, w, write_reg_lem sp_reg (omega arith) sp m1) in
    rw same (record {
      pc_word = ground (arith, rest, valid.pc_word);
      zero_reg = ground (arith, rest, valid.zero_reg);
      reg_word = λ i. ground (arith, rest, valid.reg_word i, masked_lem sp sp_reg);
      cell_byte = bytes;
    })

-- The one way in which InitSP does not return.
init_sp-allocation :
    (h : Host) (m m' : FunctionalModel) (e : Stop) → init_sp h m ≡ stop e m' → e ≡ allocation
unfolding init_sp allocate_stack map_chunk write_reg
init_sp-allocation h m m' e r = ground arith

module _ (b : Build) (masks : MasksCounts b) (h : Host) (maps : MapsPages h) (fuel : ℕ) where
  started-IsProgramEnd :
      (entry : ℕ) (m : FunctionalModel)
      → Isa.IsValid (view (record m { pc = entry }))
      → IsProgramEnd (started b h fuel entry m)
  unfolding started
  started-IsProgramEnd entry m valid =
      go (init_sp h (record m { pc = entry })) (λ m' e. init_sp-IsValid h _ m' maps e valid)
        (λ m' e. init_sp-allocation h _ m' e)
    where
      go :
          (o : Outcome FunctionalModel (Unit {0}))
          → ((m' : FunctionalModel) → o ≡ done tt m' → Isa.IsValid (view m'))
          → ((m' : FunctionalModel) (e : Stop) → o ≡ stop e m' → e ≡ allocation)
          → IsProgramEnd (elim o [ done _ m' ↦ finished h (run b fuel m') | stop e m' ↦ stop e m' ])
      go (done _ m') ok only =
          finished-IsProgramEnd h _ (run-IsOrderly b fuel m' masks (ok m' refl))
      go (stop e m') ok only =
          subst (λ (e : Stop). IsProgramEnd (stop e m')) (sym (only m' e refl)) tt

  -- On a machine that masks its shift counts and from a valid state, RunProgram on a file that has
  -- been opened returns ELF_LOAD_ERROR, MMU_ALLOC_ERROR or FILE_OPEN_ERROR, ECALL or EBREAK, or it
  -- is still running in a valid state when the fuel ends, or the process was ended: by an access to
  -- an unmapped page, by `std::terminate`, or by an allocation's exception that RunProgram does not
  -- catch.
  pub run_program-IsProgramEnd :
      (f : File) (content : ℕ → ℕ) (len : ℕ) (m : FunctionalModel)
      → Holds content len f
      → Isa.IsValid (view m)
      → IsProgramEnd (run_program b h fuel (some f) m)
  unfolding run_program load_program
  run_program-IsProgramEnd f content len m holds valid =
      go (load_elf32_into_memory h f (new_loader, m.mmu)) refl
    where
      fresh : FunctionalModel
      fresh = record m { ticks_counter = 0 }

      go :
          (o : Outcome (Elf32Loader × Mmu) ℕ)
          → load_elf32_into_memory h f (new_loader, m.mmu) ≡ o
          → IsProgramEnd (proceed b h fuel (placed fresh o))
      go (done entry (l, mmu)) e =
          let (word, bytes) =
            load_elf32-IsBytes f content len holds h m.mmu mmu l entry maps e valid.cell_byte in
          started-IsProgramEnd entry (record fresh { mmu = mmu })
            (record {
              pc_word = word;
              zero_reg = valid.zero_reg;
              reg_word = valid.reg_word;
              cell_byte = bytes;
            })
      go (stop a s) e =
          caught-IsProgramEnd a (record fresh { mmu = s.1 })
            (load_elf32-StopsIn h f (new_loader, m.mmu) s a e)
