-- ===== src/Elf/Total.antt =====
-- utils/load_elf.cpp: the files that load.
use risc_v_co_simulator.Base.{
  ℕ, ◌+◌, ◌-◌, ◌^◌, ◌≤◌, ◌<◌, ◌≡◌, ◌⊎◌, inl, inr, refl, ap, ◌∙◌, arith, Bool, true, false, Option,
  some, List, [], ◌∷◌, All, if◌then◌else◌, ltb, u32,
}
use risc_v_co_simulator.Runtime.{Stop, done, throw_if}
use risc_v_co_simulator.Memory.{Cells, Mmu, size}
use risc_v_co_simulator.Memory.Allocate.{allocate_memory, memset}
use risc_v_co_simulator.Memory.Allocated.{chunk_length, allocate_memory-bounds}
use risc_v_co_simulator.Memory.Grants.{allocate_memory-some, memset-some}
use risc_v_co_simulator.Host.{Host, MapsPages, Grants, File, Holds, mapped}
use risc_v_co_simulator.Elf.{Elf32Phdr}
use risc_v_co_simulator.Elf.Segment.{
  prot_of, copy_from_file, clear_rest, load_segment, is_skipped, is_short, load_segments,
}

-- A header of a segment that can be loaded: it is not empty, it fits the area, and the file of
-- `len` bytes holds its part.
pub record IsLoadable (len : ℕ) (p : Elf32Phdr) : Type 0 where
  pub file_part : p.p_filesz ≤ p.p_memsz
  pub fits : p.p_memsz + 8191 ≤ 2 ^ 32
  pub one_read : p.p_filesz ≤ 0x7ffff000
  pub in_file : p.p_offset + p.p_filesz ≤ len
  pub in_area : p.p_vaddr + chunk_length p.p_vaddr p.p_memsz ≤ size
  pub not_empty : 0 < p.p_memsz

copy_from_file-some :
    (f : File) (content : ℕ → ℕ) (len v n o : ℕ) (m : Mmu)
    → Holds content len f
    → n ≤ 0x7ffff000
    → o + n ≤ len
    → ((i : ℕ) → i < n → mapped (m.cell (v + i)) ≡ true)
    → copy_from_file f v n o m ≡ done tt (record m { cell = (f.pread_into v n o m.cell).1 })
unfolding copy_from_file
copy_from_file-some f content len v n o m holds one_read in_file live =
    go (f.pread_into v n o m.cell) (holds.into_all v n o m.cell one_read in_file live)
  where
    go :
        (r : Option ℕ × Cells)
        → r.0 ≡ some n
        → throw_if (is_short r.0 n) Stop.elf_load (record m { cell = r.1 })
          ≡ done tt (record m { cell = r.1 })
    go (r, c) e = ground arith

clear_rest-some :
    (p : Elf32Phdr) (m : Mmu)
    → p.p_filesz ≤ p.p_memsz
    → p.p_vaddr + p.p_memsz ≤ size
    → ((q : ℕ) → p.p_vaddr ≤ q → q < p.p_vaddr + p.p_memsz → mapped (m.cell q) ≡ true)
    → (m' : Mmu) × (clear_rest p m ≡ done tt m')
unfolding clear_rest
clear_rest-some p m part inside live = go (ltb p.p_filesz p.p_memsz) (
    memset-some (u32 (p.p_vaddr + p.p_filesz)) 0 (p.p_memsz - p.p_filesz) m
      (λ q lo hi. live q (omega (arith, lo, inside, part)) (omega (arith, hi, inside, part))))
  where
    go :
        (b : Bool)
        → ((m' : Mmu) × (memset (u32 (p.p_vaddr + p.p_filesz)) 0 (p.p_memsz - p.p_filesz) m
              ≡ done tt m'))
        → (m' : Mmu) × ((if b
              then memset (u32 (p.p_vaddr + p.p_filesz)) 0 (p.p_memsz - p.p_filesz) m
              else done tt m)
            ≡ done tt m')
    go true r = r
    go false r = (m, refl)

module _ (h : Host) (f : File) (content : ℕ → ℕ) (len : ℕ) (maps : MapsPages h) (grants : Grants h)
    (holds : Holds content len f) where
  load_segment-some :
      (p : Elf32Phdr) (m : Mmu)
      → IsLoadable len p
      → (m' : Mmu) × (load_segment h f p m ≡ done tt m')
  unfolding load_segment
  load_segment-some p m ok =
      let (m1, a) =
        allocate_memory-some h p.p_vaddr p.p_memsz (prot_of p.p_flags) m grants ok.not_empty ok.fits
          ok.in_area in
      let (_, inside, zeros, _) =
        allocate_memory-bounds h p.p_vaddr p.p_memsz (prot_of p.p_flags) p.p_vaddr m m1 maps ok.fits
          a in
      let live : (q : ℕ) → p.p_vaddr ≤ q → q < p.p_vaddr + p.p_memsz → mapped (m1.cell q) ≡ true =
        λ q lo hi. ap mapped (zeros q lo hi) in
      let c =
        copy_from_file-some f content len p.p_vaddr p.p_filesz p.p_offset m1 holds ok.one_read
          ok.in_file
          (λ i hi. live (p.p_vaddr + i) (omega arith) (omega (arith, hi, ok.file_part))) in
      let (m', e) =
        clear_rest-some p (copied m1) ok.file_part inside
          (λ q lo hi. holds.into_mapped p.p_vaddr p.p_filesz p.p_offset q m1.cell ∙ live q lo hi) in
      (m', joined m1 (copied m1) m' a c e)
    where
      copied : Mmu → Mmu
      copied m1 = record m1 { cell = (f.pread_into p.p_vaddr p.p_filesz p.p_offset m1.cell).1 }

      joined :
          (m1 m2 m' : Mmu)
          → allocate_memory h p.p_vaddr p.p_memsz (prot_of p.p_flags) m ≡ done p.p_vaddr m1
          → copy_from_file f p.p_vaddr p.p_filesz p.p_offset m1 ≡ done tt m2
          → clear_rest p m2 ≡ done tt m'
          → load_segment h f p m ≡ done tt m'
      joined m1 m2 m' a c e = ground (arith, a, c, e)

  not_skipped : (p : Elf32Phdr) → 0 < p.p_memsz → is_skipped p ≡ false
  unfolding is_skipped
  not_skipped p pos = ground arith

  joined :
      (p : Elf32Phdr) (table : List Elf32Phdr) (m m1 m' : Mmu)
      → is_skipped p ≡ false
      → load_segment h f p m ≡ done tt m1
      → load_segments h f table m1 ≡ done tt m'
      → load_segments h f (p ∷ table) m ≡ done tt m'
  unfolding load_segments
  joined p table m m1 m' s l e = ground (arith, s, l, e)

  -- The loop ends on a table of headers that can be loaded or are skipped.
  pub load_segments-some :
      (table : List Elf32Phdr) (m : Mmu)
      → All (λ p. (is_skipped p ≡ true) ⊎ IsLoadable len p) table
      → (m' : Mmu) × (load_segments h f table m ≡ done tt m')
  unfolding load_segments
  load_segments-some [] m ok = (m, refl)
  load_segments-some (p ∷ table) m (inl s, oks) =
      let (m', e) = load_segments-some table m oks in (m', ground (arith, s, e))
  load_segments-some (p ∷ table) m (inr ok, oks) =
      let (m1, l) = load_segment-some p m ok in
      let (m', e) = load_segments-some table m1 oks in
      (m', joined p table m m1 m' (not_skipped p ok.not_empty) l e)
