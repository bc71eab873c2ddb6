-- ===== src/Memory/Allocate.antt =====
-- models/shared/mmu_fixed_offset.h: the operations that map, fill and unmap memory. A chunk is
-- kept by its offset in the area.
use risc_v_co_simulator.Base.{
  ℕ, zero, suc, ◌+◌, ◌*◌, ◌-◌, bit_or, Bool, true, false, Option, none, some, List, [], ◌∷◌, ◌++◌,
  ltb,
}
use risc_v_co_simulator.Runtime.{allocation, out_of_memory, killed, done, stop, M, ◌>>◌, throw_if}
use risc_v_co_simulator.Memory.{Cells, Mmu, size, page_size, update, align_up, align_down}
use risc_v_co_simulator.Host.{Host}

-- <sys/mman.h>
abbrev pub prot_read : ℕ
prot_read = 1

abbrev pub prot_write : ℕ
prot_write = 2

abbrev pub prot_exec : ℕ
prot_exec = 4

-- The constructor, given whether its `mmap` and its `munmap` succeed; `none` is MMUInitException.
-- The null page stays mapped with PROT_NONE, so no byte of the area can be read or written.
unfoldable pub init_mmu : (mapped unmapped : Bool) → Option Mmu
init_mmu true true =
    some (record { cell = λ _. none; allocated_chunks = []; readable_traces = false })
init_mmu _ _ = none

-- The mapping of a chunk: `mmap`, the exception where it fails, and `emplace_back`.
unfoldable pub map_chunk : Host → (prot vaddr length : ℕ) → M Mmu (Unit {0})
map_chunk h prot vaddr length m = elim (h.mmap prot vaddr length m.cell) [
  | none ↦ stop allocation m
  | some c ↦
      done tt
        (record m { cell = c; allocated_chunks = m.allocated_chunks ++ ((vaddr, length) ∷ []) })
]

-- AllocateMemory
unfoldable pub allocate_memory : Host → (vaddr length prot : ℕ) → M Mmu ℕ
unfolding map_chunk align_up align_down
allocate_memory h vaddr length prot = do
  let aligned_vaddr = align_down vaddr
  let chunk = align_up (length + vaddr - aligned_vaddr)
  throw_if (ltb (size - chunk) vaddr) out_of_memory
  map_chunk h (bit_or prot prot_write) aligned_vaddr chunk
  done (aligned_vaddr + (vaddr - aligned_vaddr))

abbrev pub stack_size : ℕ
stack_size = page_size * 100

-- `stack_begin_vaddr`
abbrev pub stack_begin : ℕ
unfolding align_down
stack_begin = align_down (size - stack_size)

-- AllocateStack: the stack pointer to start from.
unfoldable pub allocate_stack : Host → M Mmu ℕ
allocate_stack h = do
  map_chunk h (bit_or prot_read prot_write) stack_begin stack_size
  done (size - 2 * page_size)

-- `memset`: a fault on the first byte that is not mapped.
unfoldable pub fill : (n vaddr byte : ℕ) → Cells → Option Cells
fill zero vaddr byte c = some c
fill (suc n) vaddr byte c = elim (c vaddr) [
  | none ↦ none
  | some _ ↦ fill n (vaddr + 1) byte (update c vaddr byte)
]

-- Memset
unfoldable pub memset : (vaddr fill_byte n_bytes : ℕ) → M Mmu (Unit {0})
memset vaddr fill_byte n_bytes m = elim (fill n_bytes vaddr fill_byte m.cell) [
  | none ↦ stop killed m
  | some c ↦ done tt (record m { cell = c })
]

-- A `munmap` that fails is only warned about.
abbrev pub kept : Cells → Option Cells → Cells
kept c none = c
kept c (some c') = c'

-- The loop of FreeMemory.
unfoldable pub unmap_chunks : Host → List (ℕ × ℕ) → Cells → Cells
unmap_chunks h [] c = c
unmap_chunks h ((vaddr, length) ∷ chunks) c =
    unmap_chunks h chunks (kept c (h.munmap vaddr length c))

-- FreeMemory
unfoldable pub free_memory : Host → Mmu → Mmu
free_memory h m = record m {
  cell = unmap_chunks h m.allocated_chunks m.cell;
  allocated_chunks = [];
}
