-- ===== src/Memory/Grants.antt =====
-- models/shared/mmu_fixed_offset.h: the requests that the host grants are served.
use risc_v_co_simulator.Base.{
  ℕ, ◌+◌, ◌%◌, ◌^◌, ◌≤◌, ◌<◌, ◌≡◌, refl, arith, bit_or, true, Option, none, some, ◌∷◌, [], ◌++◌,
}
use risc_v_co_simulator.Runtime.{Stop, done, stop}
use risc_v_co_simulator.Memory.{Cells, Mmu, size, align_down}
use risc_v_co_simulator.Memory.Allocate.{
  map_chunk, allocate_memory, allocate_stack, stack_begin, stack_size, prot_write, prot_read, fill,
  memset,
}
use risc_v_co_simulator.Memory.Allocated.{chunk_length, chunk_length_lem}
use risc_v_co_simulator.Memory.Fill.{fill-total}
use risc_v_co_simulator.Host.{Host, Grants, mapped}

map_chunk-some :
    (h : Host) (prot v n : ℕ) (m : Mmu)
    → Grants h
    → v % 4096 ≡ 0
    → n % 4096 ≡ 0
    → 0 < n
    → v + n ≤ size
    → (m' : Mmu) × (map_chunk h prot v n m ≡ done tt m')
unfolding map_chunk
map_chunk-some h prot v n m grants hv hn pos inside = go (h.mmap prot v n m.cell) refl
  where
    go :
        (o : Option Cells)
        → h.mmap prot v n m.cell ≡ o
        → (m' : Mmu) × ((elim o [
          | none ↦ stop Stop.allocation m
          | some c ↦
              done tt
                (record m { cell = c; allocated_chunks = m.allocated_chunks ++ ((v, n) ∷ []) })
        ])
            ≡ done tt m')
    go none e = absurd (grants.mmap_some prot v n m.cell hv hn pos inside e)
    go (some c) e = (_, refl)

-- AllocateMemory succeeds on a request of at least one byte whose chunk, counted from `vaddr`,
-- ends inside the area.
pub allocate_memory-some :
    (h : Host) (vaddr length prot : ℕ) (m : Mmu)
    → Grants h
    → 0 < length
    → length + 8191 ≤ 2 ^ 32
    → vaddr + chunk_length vaddr length ≤ size
    → (m' : Mmu) × (allocate_memory h vaddr length prot m ≡ done vaddr m')
unfolding allocate_memory
allocate_memory-some h vaddr length prot m grants pos fits inside =
    let (below, whole, covers, le) = chunk_length_lem vaddr length fits in
    let (m', e) =
      map_chunk-some h (bit_or prot prot_write) (align_down vaddr) (chunk_length vaddr length) m
        grants below whole (omega (arith, covers, pos, le)) (omega (arith, inside, le)) in
    (m', served m' le e)
  where
    served :
        (m' : Mmu)
        → align_down vaddr ≤ vaddr
        → map_chunk h (bit_or prot prot_write) (align_down vaddr) (chunk_length vaddr length) m
          ≡ done tt m'
        → allocate_memory h vaddr length prot m ≡ done vaddr m'
    served m' le e = ground (arith, inside)

-- AllocateStack succeeds.
pub allocate_stack-some :
    (h : Host) (m : Mmu) → Grants h → (m' : Mmu) × (allocate_stack h m ≡ done 4294959103 m')
unfolding allocate_stack align_down
allocate_stack-some h m grants =
    let (m', e) =
      map_chunk-some h (bit_or prot_read prot_write) stack_begin stack_size m grants (omega arith)
        (omega arith) (omega arith) (omega arith) in
    (m', served m' e)
  where
    served :
        (m' : Mmu)
        → map_chunk h (bit_or prot_read prot_write) stack_begin stack_size m ≡ done tt m'
        → allocate_stack h m ≡ done 4294959103 m'
    served m' e = ground (arith, e)

-- Memset does not fault on bytes that are mapped.
pub memset-some :
    (vaddr byte n : ℕ) (m : Mmu)
    → ((q : ℕ) → vaddr ≤ q → q < vaddr + n → mapped (m.cell q) ≡ true)
    → (m' : Mmu) × (memset vaddr byte n m ≡ done tt m')
unfolding memset
memset-some vaddr byte n m live = go (fill n vaddr byte m.cell) refl
  where
    go :
        (o : Option Cells)
        → fill n vaddr byte m.cell ≡ o
        → (m' : Mmu) × ((elim o [
          | none ↦ stop Stop.killed m
          | some c ↦ done tt (record m { cell = c })
        ])
            ≡ done tt m')
    go none e = absurd (fill-total n vaddr byte m.cell live e)
    go (some c) e = (_, refl)
