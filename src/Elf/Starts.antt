-- ===== src/Elf/Starts.antt =====
-- utils/load_elf.cpp and models/shared/mmu_fixed_offset.h: a program and its stack in memory.
use risc_v_co_simulator.Base.{ℕ, ◌+◌, ◌*◌, ◌≤◌, ◌<◌, ◌≡◌, ◌∙◌, arith, List, [], ◌∷◌, All}
use risc_v_co_simulator.Runtime.{done}
use risc_v_co_simulator.Memory.{Cells, Mmu}
use risc_v_co_simulator.Memory.Allocate.{allocate_stack}
use risc_v_co_simulator.Memory.Allocated.{allocate_stack-bounds}
use risc_v_co_simulator.Memory.Grants.{allocate_stack-some}
use risc_v_co_simulator.Host.{Host, MapsPages, Grants, File, Holds}
use risc_v_co_simulator.Elf.{Elf32Phdr, new_loader}
use risc_v_co_simulator.Elf.Segment.{load_elf32_into_memory}
use risc_v_co_simulator.Elf.Contents.{IsLoaded}
use risc_v_co_simulator.Elf.Image.{AllClear}
use risc_v_co_simulator.Elf.Total.{IsLoadable}
use risc_v_co_simulator.Elf.Loads.{
  header_of, IsExecutable, table_of, segments, loader_of, load_elf32-IsLoaded,
}

-- A file of `len` bytes with a program that can be started: a valid header, the headers inside the
-- file, and segments (`segments`) that can be loaded, are clear of the later ones, and end below the stack.
pub record IsProgram (content : ℕ → ℕ) (len : ℕ) : Type 0 where
  pub whole : 52 ≤ len
  pub valid : IsExecutable content
  pub table_inside : (header_of content).e_phoff + 32 * (header_of content).e_phnum ≤ len
  pub loadable : All (IsLoadable len) (segments (table_of content))
  pub clear : AllClear (segments (table_of content))
  pub below_stack : All (λ p. p.p_vaddr + p.p_memsz ≤ 4294553600) (segments (table_of content))

-- The program counter at the entry point, the stack pointer, and the segments in memory.
pub record IsStarted (content : ℕ → ℕ) (pc sp : ℕ) (c : Cells) : Type 0 where
  pub at_entry : pc ≡ (header_of content).e_entry
  pub stack_pointer : sp ≡ 4294959103
  pub loaded : All (λ p. IsLoaded content p c) (segments (table_of content))

below_lem :
    (content : ℕ → ℕ) (len : ℕ) (table : List Elf32Phdr) (c c' : Cells)
    → ((q : ℕ) → q < 4294553600 → c' q ≡ c q)
    → All (λ p. p.p_vaddr + p.p_memsz ≤ 4294553600) table
    → All (IsLoadable len) table
    → All (λ p. IsLoaded content p c) table
    → All (λ p. IsLoaded content p c') table
below_lem content len [] c c' same below segs ok = tt
below_lem content len (p ∷ table) c c' same (b, below) (seg, segs) (ok, oks) = (
  record {
    from_file =
        λ i hi. same (p.p_vaddr + i) (omega (arith, b, hi, seg.file_part)) ∙ ok.from_file i hi;
    zeros = λ i lo hi. same (p.p_vaddr + i) (omega (arith, b, hi)) ∙ ok.zeros i lo hi;
  },
  below_lem content len table c c' same below segs oks,
)

-- The load of a program and the allocation of its stack, one after the other.
pub load-stack :
    (h : Host) (f : File) (content : ℕ → ℕ) (len : ℕ) (m : Mmu)
    → MapsPages h
    → Grants h
    → Holds content len f
    → IsProgram content len
    → (m1 : Mmu) × (m2 : Mmu) × (load_elf32_into_memory h f (new_loader, m)
        ≡ done (header_of content).e_entry (loader_of content, m1))
      × (allocate_stack h m1 ≡ done 4294959103 m2)
      × All (λ p. IsLoaded content p m2.cell) (segments (table_of content))
load-stack h f content len m maps grants holds ok =
    let (m1, e, loaded) =
      load_elf32-IsLoaded h f content len m maps grants holds ok.whole ok.valid ok.table_inside
        ok.loadable ok.clear in
    let (m2, e') = allocate_stack-some h m1 grants in
    let (_, _, other) = allocate_stack-bounds h 4294959103 m1 m2 maps e' in
    (
      m1,
      m2,
      e,
      e',
      below_lem content len (segments (table_of content)) m1.cell m2.cell
          (λ q below. other q (omega (arith, below))) ok.below_stack ok.loadable loaded,
    )
