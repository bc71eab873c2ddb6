-- ===== src/Elf/Tracked.antt =====
-- utils/load_elf.cpp: a load keeps every mapped byte in a chunk.
use mathlib.Core.Path.{subst}
use risc_v_co_simulator.Base.{
  ℕ, ◌+◌, ◌-◌, ◌≡◌, sym, ◌∙◌, arith, bit_or, Bool, true, false, inl, inr, List, [], ◌∷◌, ltb,
  if◌then◌else◌, u32,
}
use risc_v_co_simulator.Runtime.{done, ◌>>◌}
use risc_v_co_simulator.Runtime.Binds.{bind-done}
use risc_v_co_simulator.Memory.{Mmu, align_up, align_down}
use risc_v_co_simulator.Memory.Allocate.{allocate_memory, prot_write, memset}
use risc_v_co_simulator.Memory.Chunks.{IsTracked, map_chunk-IsTracked}
use risc_v_co_simulator.Memory.Allocated.{chunk_length, allocate_memory-done}
use risc_v_co_simulator.Memory.Steps.{recelled, memset-IsTracked}
use risc_v_co_simulator.Host.{Host, MapsPages, File, Holds}
use risc_v_co_simulator.Elf.{Elf32Phdr, Elf32Loader, new_loader}
use risc_v_co_simulator.Elf.Segment.{
  prot_of, copy_from_file, clear_rest, load_segment, load_segments, load_elf32_into_memory,
}
use risc_v_co_simulator.Elf.Image.{split_lem}
use risc_v_co_simulator.Elf.Entry.{load_elf32-done}

allocate_memory-IsTracked :
    (h : Host) (vaddr length prot p : ℕ) (m m' : Mmu)
    → MapsPages h
    → allocate_memory h vaddr length prot m ≡ done p m'
    → IsTracked m
    → IsTracked m'
unfolding align_up align_down
allocate_memory-IsTracked h vaddr length prot p m m' maps e ok =
    let (_, _, mapping) = allocate_memory-done h vaddr length prot p m m' e in
    map_chunk-IsTracked h (bit_or prot prot_write) (align_down vaddr) (chunk_length vaddr length) m
      m' maps mapping (omega arith) (omega arith) ok

clear_rest-IsTracked :
    (p : Elf32Phdr) (m m' : Mmu) → clear_rest p m ≡ done tt m' → IsTracked m → IsTracked m'
unfolding clear_rest
clear_rest-IsTracked p m m' e ok = go (ltb p.p_filesz p.p_memsz) e
  where
    go :
        (b : Bool)
        → (if b
            then memset (u32 (p.p_vaddr + p.p_filesz)) 0 (p.p_memsz - p.p_filesz) m
            else done tt m)
          ≡ done tt m'
        → IsTracked m'
    go true e = memset-IsTracked _ 0 _ m m' e ok
    go false e = subst IsTracked (ground arith) ok

module _ (f : File) (content : ℕ → ℕ) (len : ℕ) (holds : Holds content len f) (h : Host)
    (maps : MapsPages h) where
  copy_from_file-IsTracked :
      (v n o : ℕ) (m m' : Mmu) → copy_from_file f v n o m ≡ done tt m' → IsTracked m → IsTracked m'
  unfolding copy_from_file
  copy_from_file-IsTracked v n o m m' e ok = subst IsTracked (ground arith) (
      recelled m (f.pread_into v n o m.cell).1
        (λ q live. sym (holds.into_mapped v n o q m.cell) ∙ live) ok)

  load_segment-IsTracked :
      (p : Elf32Phdr) (m m' : Mmu) → load_segment h f p m ≡ done tt m' → IsTracked m → IsTracked m'
  unfolding load_segment
  load_segment-IsTracked p m m' e ok =
      let (v, m1, a, e1) =
        bind-done (allocate_memory h p.p_vaddr p.p_memsz (prot_of p.p_flags))
          (λ v. copy_from_file f v p.p_filesz p.p_offset >> clear_rest p) m m' tt e in
      let (_, m2, c, r) =
        bind-done (copy_from_file f v p.p_filesz p.p_offset) (λ _. clear_rest p) m1 m' tt e1 in
      clear_rest-IsTracked p m2 m' r (
        copy_from_file-IsTracked v p.p_filesz p.p_offset m1 m2 c
          (allocate_memory-IsTracked h _ _ _ v m m1 maps a ok))

  load_segments-IsTracked :
      (table : List Elf32Phdr) (m m' : Mmu)
      → load_segments h f table m ≡ done tt m'
      → IsTracked m
      → IsTracked m'
  unfolding load_segments
  load_segments-IsTracked [] m m' e ok = subst IsTracked (ground arith) ok
  load_segments-IsTracked (p ∷ table) m m' e ok = elim (split_lem h f p table m m' e) [
    | inl (_, e') ↦ load_segments-IsTracked table m m' e' ok
    | inr (m1, l, e') ↦ load_segments-IsTracked table m1 m' e' (load_segment-IsTracked p m m1 l ok)
  ]

  -- A load that succeeds keeps the mapped bytes in the chunks.
  pub load_elf32-IsTracked :
      (m m' : Mmu) (l : Elf32Loader) (entry : ℕ)
      → load_elf32_into_memory h f (new_loader, m) ≡ done entry (l, m')
      → IsTracked m
      → IsTracked m'
  load_elf32-IsTracked m m' l entry e ok =
      let (_, (t, e')) = load_elf32-done f content len holds h m m' l entry e in
      load_segments-IsTracked t m m' e' ok
