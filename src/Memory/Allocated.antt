-- ===== src/Memory/Allocated.antt =====
-- models/shared/mmu_fixed_offset.h: the memory that AllocateMemory and AllocateStack give.
use risc_v_co_simulator.Base.{
  ℕ, ◌+◌, ◌-◌, ◌%◌, ◌^◌, ◌≤◌, ◌<◌, ◌≡◌, ◌⊎◌, inl, arith, bit_or, ◌&&◌, some, ltb, leb,
  if◌then◌else◌,
}
use risc_v_co_simulator.Runtime.{done}
use risc_v_co_simulator.Memory.{Mmu, size, align_up, align_down}
use risc_v_co_simulator.Memory.Allocate.{
  map_chunk, allocate_memory, allocate_stack, stack_begin, stack_size, prot_read, prot_write,
}
use risc_v_co_simulator.Memory.Chunks.{map_chunk-done}
use risc_v_co_simulator.Host.{Host, MapsPages}

-- The length of the chunk that AllocateMemory maps.
abbrev pub chunk_length : (vaddr length : ℕ) → ℕ
chunk_length vaddr length = align_up (length + vaddr - align_down vaddr)

-- A request whose rounded length is a 32-bit number is rounded up to whole pages.
pub chunk_length_lem :
    (vaddr length : ℕ)
    → length + 8191 ≤ 2 ^ 32
    → (align_down vaddr % 4096 ≡ 0)
      × (chunk_length vaddr length % 4096 ≡ 0)
      × (vaddr + length ≤ align_down vaddr + chunk_length vaddr length)
      × (align_down vaddr ≤ vaddr)
unfolding align_down align_up
chunk_length_lem vaddr length h = (omega arith, omega arith, omega arith, omega arith)

-- AllocateMemory in its steps.
pub allocate_memory-done :
    (h : Host) (vaddr length prot p : ℕ) (m m' : Mmu)
    → allocate_memory h vaddr length prot m ≡ done p m'
    → (p ≡ vaddr)
      × (vaddr + chunk_length vaddr length ≤ size)
      × (map_chunk h (bit_or prot prot_write) (align_down vaddr) (chunk_length vaddr length) m
          ≡ done tt m')
unfolding allocate_memory
allocate_memory-done h vaddr length prot p m m' e = ground arith

-- The memory that AllocateMemory gives for `length` bytes from `vaddr` on, a request that rounds
-- up to a 32-bit number: it starts at `vaddr`, its bytes are zeros, it ends inside the area, and no
-- byte outside its pages has changed.
pub allocate_memory-bounds :
    (h : Host) (vaddr length prot p : ℕ) (m m' : Mmu)
    → MapsPages h
    → length + 8191 ≤ 2 ^ 32
    → allocate_memory h vaddr length prot m ≡ done p m'
    → (p ≡ vaddr)
      × (vaddr + length ≤ size)
      × ((q : ℕ) → vaddr ≤ q → q < vaddr + length → m'.cell q ≡ some 0)
      × ((q : ℕ)
          → (q < align_down vaddr) ⊎ (align_down vaddr + chunk_length vaddr length ≤ q)
          → m'.cell q ≡ m.cell q)
allocate_memory-bounds h vaddr length prot p m m' maps fits e =
    let (same, inside, mapping) = allocate_memory-done h vaddr length prot p m m' e in
    let (e', _) =
      map_chunk-done h (bit_or prot prot_write) (align_down vaddr) (chunk_length vaddr length) m m'
        mapping in
    let (_, whole, covers, below) = chunk_length_lem vaddr length fits in
    (
      same,
      within inside below covers,
      λ q lo hi.
          maps.mmap_zero _ _ _ _ _ q e' (omega (arith, below, lo)) (omega (arith, covers, hi)),
      λ q out. maps.mmap_outside _ _ _ _ _ q e' whole out,
    )
  where
    within :
        vaddr + chunk_length vaddr length ≤ size
        → align_down vaddr ≤ vaddr
        → vaddr + length ≤ align_down vaddr + chunk_length vaddr length
        → vaddr + length ≤ size
    within a b c = omega (arith, a, b, c)

-- The stack that AllocateStack gives: the pointer is one byte below a multiple of 4, it points into
-- zeros that reach from 405503 bytes below it to 4096 bytes above it, and nothing below
-- them has changed.
pub allocate_stack-bounds :
    (h : Host) (p : ℕ) (m m' : Mmu)
    → MapsPages h
    → allocate_stack h m ≡ done p m'
    → (p % 4 ≡ 3)
      × ((q : ℕ) → p ≤ q + 405503 → q ≤ p + 4096 → m'.cell q ≡ some 0)
      × ((q : ℕ) → q + 405503 < p → m'.cell q ≡ m.cell q)
unfolding allocate_stack align_down
allocate_stack-bounds h p m m' maps e =
    let (sp, mapping) = done_lem e in
    let (e', _) =
      map_chunk-done h (bit_or prot_read prot_write) stack_begin stack_size m m' mapping in
    (
      ground (arith, sp),
      λ q lo hi. maps.mmap_zero _ _ _ _ _ q e' (omega (arith, sp, lo)) (omega (arith, sp, hi)),
      λ q lo. maps.mmap_outside _ _ _ _ _ q e' (omega arith) (inl (omega (arith, sp, lo))),
    )
  where
    done_lem :
        allocate_stack h m ≡ done p m'
        → (p ≡ 4294959103)
          × (map_chunk h (bit_or prot_read prot_write) stack_begin stack_size m ≡ done tt m')
    done_lem e = ground arith

-- A byte of the area after a chunk has been mapped.
mapped_at :
    (h : Host) (prot v n : ℕ) (m m' : Mmu) (q : ℕ)
    → MapsPages h
    → n % 4096 ≡ 0
    → map_chunk h prot v n m ≡ done tt m'
    → m'.cell q ≡ (if leb v q && ltb q (v + n) then some 0 else m.cell q)
mapped_at h prot v n m m' q maps whole e =
    let (e', _) = map_chunk-done h prot v n m m' e in
    ground (
      arith,
      maps.mmap_zero prot v n m.cell m'.cell q e',
      maps.mmap_outside prot v n m.cell m'.cell q e' whole,
    )

-- A request of AllocateMemory that succeeds, of at most 2 ^ 32 - 8191 bytes: it gives the address
-- that was asked for; its pages hold all bytes of the request, which ends inside the area; every
-- byte of the pages is 0, and no other byte has changed.
pub allocate_memory-cells :
    (h : Host) (vaddr length prot p : ℕ) (m m' : Mmu) (q : ℕ)
    → MapsPages h
    → length + 8191 ≤ 2 ^ 32
    → allocate_memory h vaddr length prot m ≡ done p m'
    → (p ≡ vaddr)
      × (align_down vaddr ≤ vaddr)
      × (vaddr + length ≤ align_down vaddr + chunk_length vaddr length)
      × (vaddr + length ≤ size)
      × (m'.cell q ≡ (
          if leb (align_down vaddr) q && ltb q (align_down vaddr + chunk_length vaddr length)
          then some 0
          else m.cell q))
allocate_memory-cells h vaddr length prot p m m' q maps fits e =
    let (same, inside, mapping) = allocate_memory-done h vaddr length prot p m m' e in
    let (_, whole, covers, below) = chunk_length_lem vaddr length fits in
    (
      same,
      below,
      covers,
      omega (arith, inside, below, covers),
      mapped_at h _ _ _ m m' q maps whole mapping,
    )

-- A stack that AllocateStack gives: the pointer is 8192 below the size of the area and 405503 above
-- the start of the stack, and the bytes from that start to 4096 above the pointer are zeros; no
-- other byte has changed.
pub allocate_stack-cells :
    (h : Host) (p : ℕ) (m m' : Mmu) (q : ℕ)
    → MapsPages h
    → allocate_stack h m ≡ done p m'
    → (p ≡ size - 8192)
      × (stack_begin + 405503 ≡ p)
      × (m'.cell q ≡ (if leb stack_begin q && ltb q (p + 4097) then some 0 else m.cell q))
unfolding allocate_stack align_down
allocate_stack-cells h p m m' q maps e =
    let (sp, mapping) = done_lem e in
    (
      ground (arith, sp),
      ground (arith, sp),
      ground (
        arith,
        sp,
        mapped_at h (bit_or prot_read prot_write) stack_begin stack_size m m' q maps (omega arith)
            mapping,
      ),
    )
  where
    done_lem :
        allocate_stack h m ≡ done p m'
        → (p ≡ 4294959103)
          × (map_chunk h (bit_or prot_read prot_write) stack_begin stack_size m ≡ done tt m')
    done_lem e = ground arith
