-- ===== src/Memory/Steps.antt =====
-- models/shared/mmu_fixed_offset.h: the object's life, as a relation of its operations.
use mathlib.Core.Path.{subst}
use risc_v_co_simulator.Base.{
  ℕ, ◌+◌, ◌^◌, ◌≤◌, ◌≡◌, ◌↔◌, refl, arith, bit_or, true, false, Option, none, some, [],
}
use risc_v_co_simulator.Runtime.{Stop, done, stop}
use risc_v_co_simulator.Trace.{TraceWriter}
use risc_v_co_simulator.Memory.{
  Cells, Mmu, align_down, write_bytes, set_word, set_half, set_byte, with_cells,
}
use risc_v_co_simulator.Memory.Access.{write_bytes_mapped}
use risc_v_co_simulator.Memory.Allocate.{
  allocate_memory, allocate_stack, stack_begin, stack_size, prot_read, prot_write, fill, memset,
  free_memory, init_mmu, map_chunk,
}
use risc_v_co_simulator.Memory.Fill.{fill-mapped}
use risc_v_co_simulator.Memory.Chunks.{IsTracked, map_chunk-IsTracked, free_memory-none}
use risc_v_co_simulator.Memory.Allocated.{chunk_length_lem, allocate_memory-done}
use risc_v_co_simulator.Host.{Host, MapsPages, Grants, mapped}

-- What an operation that has been called makes of the memory, where it returns.
pub data Operation (h : Host) : Mmu → Mmu → Type 0 where
  allocating :
      {m m' : Mmu} (vaddr length prot p : ℕ)
      → length + 8191 ≤ 2 ^ 32
      → allocate_memory h vaddr length prot m ≡ done p m'
      → Operation h m m'
  stacking : {m m' : Mmu} (p : ℕ) → allocate_stack h m ≡ done p m' → Operation h m m'
  filling : {m m' : Mmu} (vaddr byte n : ℕ) → memset vaddr byte n m ≡ done tt m' → Operation h m m'
  storing :
      {m m' : Mmu} (value vaddr : ℕ) (w : TraceWriter)
      → (set_word value vaddr m w).0 ≡ some m'
      → Operation h m m'
  storing_half :
      {m m' : Mmu} (value vaddr : ℕ) (w : TraceWriter)
      → (set_half value vaddr m w).0 ≡ some m'
      → Operation h m m'
  storing_byte :
      {m m' : Mmu} (value vaddr : ℕ) (w : TraceWriter)
      → (set_byte value vaddr m w).0 ≡ some m'
      → Operation h m m'
  freeing : {m : Mmu} → Operation h m (free_memory h m)

-- The memories that come from a new one.
pub data Reachable (h : Host) : Mmu → Type 0 where
  created : {m : Mmu} → init_mmu true true ≡ some m → Reachable h m
  operated : {m m' : Mmu} → Reachable h m → Operation h m m' → Reachable h m'

-- A change of bytes that are mapped keeps the chunks.
pub recelled :
    (m : Mmu) (c : Cells)
    → ((q : ℕ) → mapped (c q) ≡ true → mapped (m.cell q) ≡ true)
    → IsTracked m
    → IsTracked (record m { cell = c })
recelled m c old ok = record { whole = ok.whole; tracked = λ q live. ok.tracked q (old q live) }

pub memset-IsTracked :
    (vaddr byte n : ℕ) (m m' : Mmu)
    → memset vaddr byte n m ≡ done tt m'
    → IsTracked m
    → IsTracked m'
unfolding memset
memset-IsTracked vaddr byte n m m' e ok =
    go (fill n vaddr byte m.cell) (λ c' q. fill-mapped n vaddr byte m.cell c' q) e
  where
    go :
        (o : Option Cells)
        → ((c' : Cells) (q : ℕ) → o ≡ some c' → mapped (c' q) ≡ true → mapped (m.cell q) ≡ true)
        → (elim o [ none ↦ stop Stop.killed m | some c ↦ done tt (record m { cell = c }) ])
          ≡ done tt m'
        → IsTracked m'
    go none old e = absurd (ground arith)
    go (some c) old e =
        let same : record m { cell = c } ≡ m' = ground arith in
        subst IsTracked same (recelled m c (λ q. old c q refl) ok)

-- A store of either width.
pub stored-IsTracked :
    (n value vaddr : ℕ) (m m' : Mmu)
    → with_cells m (write_bytes n value vaddr m.cell) ≡ some m'
    → IsTracked m
    → IsTracked m'
stored-IsTracked n value vaddr m m' e ok =
    go (write_bytes n value vaddr m.cell) (λ c' q. write_bytes_mapped n value vaddr m.cell c' q) e
  where
    old : (a b : Option ℕ) → (a ≡ none) ↔ (b ≡ none) → mapped a ≡ true → mapped b ≡ true
    old none b k live = absurd (ground arith)
    old (some _) none k live = absurd (ground (arith, k.1 refl))
    old (some _) (some _) k live = refl

    go :
        (o : Option Cells)
        → ((c' : Cells) (q : ℕ) → o ≡ some c' → (c' q ≡ none) ↔ (m.cell q ≡ none))
        → with_cells m o ≡ some m'
        → IsTracked m'
    go none same e = absurd (ground arith)
    go (some c) same e =
        let to : record m { cell = c } ≡ m' = ground arith in
        subst IsTracked to (recelled m c (λ q. old (c q) (m.cell q) (same c q refl)) ok)

pub Operation-IsTracked :
    (h : Host) {m m' : Mmu} → MapsPages h → Grants h → Operation h m m' → IsTracked m → IsTracked m'
unfolding allocate_stack align_down set_word set_half set_byte free_memory
Operation-IsTracked h {m} {m'} maps grants (Operation.allocating vaddr length prot p fits e) ok =
    let (_, _, mapping) = allocate_memory-done h vaddr length prot p m m' e in
    let (below, whole, _, _) = chunk_length_lem vaddr length fits in
    map_chunk-IsTracked h _ _ _ m m' maps mapping below whole ok
Operation-IsTracked h {m} {m'} maps grants (Operation.stacking p e) ok =
    let mapping : map_chunk h (bit_or prot_read prot_write) stack_begin stack_size m ≡ done tt m' =
      ground arith in
    map_chunk-IsTracked h _ _ _ m m' maps mapping (omega arith) (omega arith) ok
Operation-IsTracked h {m} {m'} maps grants (Operation.filling vaddr byte n e) ok =
    memset-IsTracked vaddr byte n m m' e ok
Operation-IsTracked h {m} {m'} maps grants (Operation.storing value vaddr w e) ok =
    stored-IsTracked 4 value vaddr m m' e ok
Operation-IsTracked h {m} {m'} maps grants (Operation.storing_half value vaddr w e) ok =
    stored-IsTracked 2 value vaddr m m' e ok
Operation-IsTracked h {m} {m'} maps grants (Operation.storing_byte value vaddr w e) ok =
    stored-IsTracked 1 value vaddr m m' e ok
Operation-IsTracked h maps grants (Operation.freeing {m = m}) ok = record {
  whole = tt;
  tracked = λ q live. absurd (ground (arith, free_memory-none h m q maps grants ok));
}

-- Whatever has been allocated, filled, stored and freed, every mapped byte is in a chunk.
pub Reachable-IsTracked :
    (h : Host) {m : Mmu} → MapsPages h → Grants h → Reachable h m → IsTracked m
unfolding init_mmu
Reachable-IsTracked h {m} maps grants (Reachable.created e) =
    let same : record { cell = λ _. none; allocated_chunks = []; readable_traces = false } ≡ m =
      ground arith in
    subst IsTracked same (record { whole = tt; tracked = λ q live. absurd (ground arith) })
Reachable-IsTracked h maps grants (Reachable.operated r op) =
    Operation-IsTracked h maps grants op (Reachable-IsTracked h maps grants r)

-- On a host that maps and unmaps whole pages when asked to, in every memory that allocations of at
-- most 2 ^ 32 - 8191 bytes, fills, stores and FreeMemory make of a new one, the chunks are whole
-- pages and hold all mapped bytes, and FreeMemory leaves no byte mapped.
pub Reachable-free_memory :
    (h : Host) {m : Mmu} (q : ℕ)
    → MapsPages h
    → Grants h
    → Reachable h m
    → IsTracked m × ((free_memory h m).cell q ≡ none)
Reachable-free_memory h {m} q maps grants r =
    let ok = Reachable-IsTracked h maps grants r in (ok, free_memory-none h m q maps grants ok)
