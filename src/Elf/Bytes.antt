-- ===== src/Elf/Bytes.antt =====
-- utils/load_elf.cpp: a load puts bytes into the memory.
use mathlib.Core.Path.{subst}
use risc_v_co_simulator.Base.{
  ℕ, ◌+◌, ◌-◌, ◌%◌, ◌≤◌, ◌<◌, ◌≡◌, ◌⊎◌, inl, inr, arith, bit_or, Bool, true, false, some, List, [],
  ◌∷◌, ltb, if◌then◌else◌, u32,
}
use risc_v_co_simulator.Runtime.{done, ◌>>◌}
use risc_v_co_simulator.Runtime.Binds.{bind-done}
use risc_v_co_simulator.Memory.{Cells, Mmu, align_down, align_up}
use risc_v_co_simulator.Memory.Access.{IsBytes, stored}
use risc_v_co_simulator.Memory.Allocate.{
  map_chunk, allocate_memory, allocate_stack, stack_begin, stack_size, prot_read, prot_write,
  memset,
}
use risc_v_co_simulator.Memory.Chunks.{map_chunk-done}
use risc_v_co_simulator.Memory.Allocated.{allocate_memory-done}
use risc_v_co_simulator.Memory.Fill.{fill-inside, fill-outside, memset-done}
use risc_v_co_simulator.Host.{Host, MapsPages, File, Holds}
use risc_v_co_simulator.Elf.{Elf32Phdr}
use risc_v_co_simulator.Elf.Segment.{
  prot_of, copy_from_file, clear_rest, load_segment, load_segments,
}
use risc_v_co_simulator.Elf.Contents.{copy_from_file-done}
use risc_v_co_simulator.Elf.Image.{split_lem}

-- An address lies in a range or outside it.
range-cases : (v n q : ℕ) → ((v ≤ q) × (q < v + n)) ⊎ ((q < v) ⊎ (v + n ≤ q))
range-cases v n q = ground arith

-- Cells that are bytes in a range, and old ones outside it.
pub ranged-IsBytes :
    (c c' : Cells) (v n : ℕ)
    → IsBytes c
    → ((q : ℕ) → v ≤ q → q < v + n → stored (c' q) < 256)
    → ((q : ℕ) → (q < v) ⊎ (v + n ≤ q) → c' q ≡ c q)
    → IsBytes c'
ranged-IsBytes c c' v n bytes inside outside q = elim (range-cases v n q) [
  | inl (lo, hi) ↦ inside q lo hi
  | inr out ↦ rw (outside q out) (bytes q)
]

map_chunk-IsBytes :
    (h : Host) (prot v n : ℕ) (m m' : Mmu)
    → MapsPages h
    → n % 4096 ≡ 0
    → map_chunk h prot v n m ≡ done tt m'
    → IsBytes m.cell
    → IsBytes m'.cell
map_chunk-IsBytes h prot v n m m' maps whole e bytes =
    let (e', _) = map_chunk-done h prot v n m m' e in
    ranged-IsBytes m.cell m'.cell v n bytes
      (λ q lo hi. rw (maps.mmap_zero prot v n m.cell m'.cell q e' lo hi) (omega arith))
      (λ q out. maps.mmap_outside prot v n m.cell m'.cell q e' whole out)

allocate_memory-IsBytes :
    (h : Host) (vaddr length prot p : ℕ) (m m' : Mmu)
    → MapsPages h
    → allocate_memory h vaddr length prot m ≡ done p m'
    → IsBytes m.cell
    → IsBytes m'.cell
unfolding align_up
allocate_memory-IsBytes h vaddr length prot p m m' maps e bytes =
    let (_, _, mapping) = allocate_memory-done h vaddr length prot p m m' e in
    map_chunk-IsBytes h _ _ _ m m' maps (omega arith) mapping bytes

clear_rest-IsBytes :
    (p : Elf32Phdr) (m m' : Mmu) → clear_rest p m ≡ done tt m' → IsBytes m.cell → IsBytes m'.cell
unfolding clear_rest
clear_rest-IsBytes p m m' e bytes = go (ltb p.p_filesz p.p_memsz) e
  where
    start : ℕ
    start = u32 (p.p_vaddr + p.p_filesz)

    go :
        (b : Bool)
        → (if b
            then memset (u32 (p.p_vaddr + p.p_filesz)) 0 (p.p_memsz - p.p_filesz) m
            else done tt m)
          ≡ done tt m'
        → IsBytes m'.cell
    go true e =
        let e' = memset-done start 0 (p.p_memsz - p.p_filesz) m m' e in
        ranged-IsBytes m.cell m'.cell start (p.p_memsz - p.p_filesz) bytes
          (λ q lo hi. rw (fill-inside _ _ _ _ _ q e' lo hi) (omega arith))
          (λ q out. fill-outside _ _ _ _ _ q e' out)
    go false e = λ q. ground (arith, bytes q)

module _ (f : File) (content : ℕ → ℕ) (len : ℕ) (holds : Holds content len f) where
  copy_from_file-IsBytes :
      (v n o : ℕ) (m m' : Mmu)
      → copy_from_file f v n o m ≡ done tt m'
      → IsBytes m.cell
      → IsBytes m'.cell
  copy_from_file-IsBytes v n o m m' e bytes =
      let (full, cell) = copy_from_file-done f v n o m m' e in
      rw cell (
        ranged-IsBytes m.cell (f.pread_into v n o m.cell).1 v n bytes
          (λ q lo hi. inside full q lo hi) (λ q out. holds.into_outside v n o q m.cell out))
    where
      inside :
          (f.pread_into v n o m.cell).0 ≡ some n
          → (q : ℕ) → v ≤ q
          → q < v + n
          → stored ((f.pread_into v n o m.cell).1 q) < 256
      inside full q lo hi =
          let at : v + (q - v) ≡ q = omega (arith, lo) in
          subst (λ (t : ℕ). stored ((f.pread_into v n o m.cell).1 t) < 256) at
            (rw (holds.into_bytes v n o (q - v) m.cell full (omega (arith, lo, hi)))
              (holds.content_byte (o + (q - v))))

  module _ (h : Host) (maps : MapsPages h) where
    load_segment-IsBytes :
        (p : Elf32Phdr) (m m' : Mmu)
        → load_segment h f p m ≡ done tt m'
        → IsBytes m.cell
        → IsBytes m'.cell
    unfolding load_segment
    load_segment-IsBytes p m m' e bytes =
        let (v, m1, a, e1) =
          bind-done (allocate_memory h p.p_vaddr p.p_memsz (prot_of p.p_flags))
            (λ v. copy_from_file f v p.p_filesz p.p_offset >> clear_rest p) m m' tt e in
        let (_, m2, c, r) =
          bind-done (copy_from_file f v p.p_filesz p.p_offset) (λ _. clear_rest p) m1 m' tt e1 in
        clear_rest-IsBytes p m2 m' r (
          copy_from_file-IsBytes v p.p_filesz p.p_offset m1 m2 c
            (allocate_memory-IsBytes h _ _ _ v m m1 maps a bytes))

    pub load_segments-IsBytes :
        (table : List Elf32Phdr) (m m' : Mmu)
        → load_segments h f table m ≡ done tt m'
        → IsBytes m.cell
        → IsBytes m'.cell
    unfolding load_segments
    load_segments-IsBytes [] m m' e bytes = λ q. ground (arith, bytes q)
    load_segments-IsBytes (p ∷ table) m m' e bytes = elim (split_lem h f p table m m' e) [
      | inl (_, e') ↦ load_segments-IsBytes table m m' e' bytes
      | inr (m1, l, e') ↦ load_segments-IsBytes table m1 m' e' (load_segment-IsBytes p m m1 l bytes)
    ]

-- A stack of zeros in a memory of bytes, from a 32-bit stack pointer down.
pub allocate_stack-IsBytes :
    (h : Host) (p : ℕ) (m m' : Mmu)
    → MapsPages h
    → allocate_stack h m ≡ done p m'
    → IsBytes m.cell
    → (p ≡ 4294959103) × IsBytes m'.cell
unfolding allocate_stack align_down
allocate_stack-IsBytes h p m m' maps e bytes =
    let (_, m1, c, r) =
      bind-done (map_chunk h (bit_or prot_read prot_write) stack_begin stack_size)
        (λ _. done 4294959103) m m' p e in
    (
      ground (arith, r),
      map_chunk-IsBytes h (bit_or prot_read prot_write) stack_begin stack_size m m' maps
          (omega arith) (ground (arith, c, r)) bytes,
    )
