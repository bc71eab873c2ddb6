-- ===== src/Tests/Loads.antt =====
-- A small executable in the loader, and the theorems on memory and loading at concrete values.
use risc_v_co_simulator.Base.{
  ℕ, ◌+◌, ◌-◌, leb, ltb, if◌then◌else◌, ◌≤◌, ◌≡◌, refl, arith, false, ◌&&◌, none, some, [], ◌∷◌,
  All,
}
use risc_v_co_simulator.Runtime.{elf_load, done, stop, final}
use risc_v_co_simulator.Memory.{Mmu, size, align_down, align_up}
use risc_v_co_simulator.Memory.Allocate.{
  stack_begin, allocate_memory, allocate_stack, map_chunk, init_mmu, free_memory,
}
use risc_v_co_simulator.Memory.Allocated.{allocate_memory-cells, allocate_stack-cells, chunk_length}
use risc_v_co_simulator.Memory.Chunks.{IsTracked}
use risc_v_co_simulator.Memory.Steps.{Operation, Reachable, Reachable-free_memory}
use risc_v_co_simulator.Elf.{ehdr_of, phdr_of, phdrs_of, new_loader}
use risc_v_co_simulator.Elf.Segment.{load_elf32_into_memory}
use risc_v_co_simulator.Elf.Contents.{IsLoaded}
use risc_v_co_simulator.Elf.Loads.{
  header_of, table_of, segments, IsExecutable, load_elf32-IsLoaded, load_elf32-elf_load, loader_of,
}
use risc_v_co_simulator.Elf.Starts.{IsProgram}
use risc_v_co_simulator.Host.{Holds}
use risc_v_co_simulator.Tests.Hosts.{
  host, host-MapsPages, host-Grants, file, file-Holds, content_of, ecall_elf,
}

abbrev pub new_memory : Mmu
new_memory = record { cell = λ _. none; allocated_chunks = []; readable_traces = false }

abbrev pub ecall_content : ℕ → ℕ
ecall_content = content_of ecall_elf

pub ecall-Holds : Holds ecall_content 120 (file ecall_content 120)
ecall-Holds = file-Holds ecall_content 120 (λ i. omega arith)

ecall-IsExecutable : IsExecutable ecall_content
ecall-IsExecutable = record {
  magic0 = refl;
  magic1 = refl;
  magic2 = refl;
  magic3 = refl;
  executable = refl;
  riscv = refl;
}

ecall_table :
    segments (table_of ecall_content)
    ≡ record {
      p_type = 1;
      p_offset = 116;
      p_vaddr = 0x10074;
      p_filesz = 4;
      p_memsz = 8;
      p_flags = 5;
    }
      ∷ []
unfolding segments table_of header_of ehdr_of phdrs_of phdr_of
ecall_table = refl

pub ecall-IsProgram : IsProgram ecall_content 120
unfolding segments table_of header_of ehdr_of phdrs_of phdr_of align_up align_down
ecall-IsProgram = record {
  whole = omega arith;
  valid = ecall-IsExecutable;
  table_inside = omega arith;
  loadable = (
    record {
      file_part = omega arith;
      fits = omega arith;
      one_read = omega arith;
      in_file = omega arith;
      in_area = omega arith;
      not_empty = omega arith;
    },
    tt,
  );
  clear = (tt, tt);
  below_stack = (omega arith, tt);
}

-- Ten bytes across a page boundary: two pages are mapped.
mapped_once : Mmu
unfolding allocate_memory map_chunk align_down align_up
mapped_once = final (allocate_memory host 0x1ffa 10 1 new_memory)

allocate_memory-cells_example :
    (◌≡◌ {A = ℕ} 0x1ffa 0x1ffa)
    × (align_down 0x1ffa ≤ 0x1ffa)
    × (0x1ffa + 10 ≤ align_down 0x1ffa + chunk_length 0x1ffa 10)
    × (0x1ffa + 10 ≤ size)
    × (mapped_once.cell 0x2fff ≡ (
        if leb (align_down 0x1ffa) 0x2fff && ltb 0x2fff (align_down 0x1ffa + chunk_length 0x1ffa 10)
        then some 0
        else none))
unfolding mapped_once allocate_memory map_chunk align_down align_up
allocate_memory-cells_example =
    allocate_memory-cells host 0x1ffa 10 1 0x1ffa new_memory mapped_once 0x2fff host-MapsPages
      (omega arith) refl

stack_once : Mmu
unfolding allocate_stack map_chunk align_down
stack_once = final (allocate_stack host new_memory)

allocate_stack-cells_example :
    (◌≡◌ {A = ℕ} 4294959103 (size - 8192))
    × (stack_begin + 405503 ≡ 4294959103)
    × (stack_once.cell 4294959104 ≡ (
        if leb stack_begin 4294959104 && ltb 4294959104 (4294959103 + 4097) then some 0 else none))
unfolding stack_once allocate_stack map_chunk align_down
allocate_stack-cells_example =
    allocate_stack-cells host 4294959103 new_memory stack_once 4294959104 host-MapsPages refl

once-Reachable : Reachable host mapped_once
unfolding mapped_once allocate_memory map_chunk align_down align_up init_mmu
once-Reachable =
    Reachable.operated (Reachable.created {m = new_memory} refl)
      (Operation.allocating 0x1ffa 10 1 0x1ffa (omega arith) refl)

Reachable-free_memory_example :
    IsTracked mapped_once × ((free_memory host mapped_once).cell 0x1ffa ≡ none)
Reachable-free_memory_example =
    Reachable-free_memory host {m = mapped_once} 0x1ffa host-MapsPages host-Grants once-Reachable

load_elf32-IsLoaded_example :
    (m' : Mmu) × (load_elf32_into_memory host (file ecall_content 120) (new_loader, new_memory)
      ≡ done (header_of ecall_content).e_entry (loader_of ecall_content, m'))
    × All (λ p. IsLoaded ecall_content p m'.cell) (segments (table_of ecall_content))
load_elf32-IsLoaded_example =
    load_elf32-IsLoaded host (file ecall_content 120) ecall_content 120 new_memory host-MapsPages
      host-Grants ecall-Holds ecall-IsProgram.whole ecall-IsProgram.valid
      ecall-IsProgram.table_inside ecall-IsProgram.loadable ecall-IsProgram.clear

-- A file of zeros.
abbrev blank : ℕ → ℕ
blank i = 0

blank-not-IsExecutable : ¬ (IsExecutable blank)
blank-not-IsExecutable e = absurd (ground (arith, e.magic0))

load_elf32-elf_load_example :
    load_elf32_into_memory host (file blank 60) (new_loader, new_memory)
    ≡ stop elf_load (record new_loader { elf_header = header_of blank }, new_memory)
load_elf32-elf_load_example =
    load_elf32-elf_load host (file blank 60) blank 60 new_memory
      (file-Holds blank 60 (λ i. omega arith)) (omega arith) blank-not-IsExecutable
