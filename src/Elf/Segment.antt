-- ===== src/Elf/Segment.antt =====
-- utils/load_elf.cpp: LoadElf32IntoMemory, segment by segment.
use risc_v_co_simulator.Base.{
  ℕ, ◌+◌, ◌-◌, bit_and, bit_or, Bool, true, not, ◌&&◌, Option, none, some, List, [], ◌∷◌, ltb, ◌==◌,
  if◌then◌else◌, u32,
}
use risc_v_co_simulator.Runtime.{elf_load, done, stop, M, ◌>>=◌, ◌>>◌, throw_if}
use risc_v_co_simulator.Memory.{Mmu}
use risc_v_co_simulator.Memory.Allocate.{allocate_memory, memset, prot_read, prot_write, prot_exec}
use risc_v_co_simulator.Host.{Host, File}
use risc_v_co_simulator.Elf.{Elf32Phdr, Elf32Loader, read_elf_header, read_program_header_table}

-- The protection of a segment: PF_R is 4, PF_W is 2, PF_X is 1.
unfoldable pub prot_of : (p_flags : ℕ) → ℕ
prot_of p_flags =
    let r = if bit_and p_flags 4 == 0 then 0 else prot_read in
    let rw = if bit_and p_flags 2 == 0 then r else bit_or r prot_write in
    if bit_and p_flags 1 == 0 then rw else bit_or rw prot_exec

abbrev pub is_short : Option ℕ → ℕ → Bool
is_short none count = true
is_short (some n) count = not (n == count)

-- `pread` into the area, with the exception where it returns less.
unfoldable pub copy_from_file : File → (paddr file_size p_offset : ℕ) → M Mmu (Unit {0})
copy_from_file f paddr file_size p_offset m =
    let (n, c) = f.pread_into paddr file_size p_offset m.cell in
    throw_if (is_short n file_size) elf_load (record m { cell = c })

-- The rest of a segment, which the file does not hold.
unfoldable pub clear_rest : Elf32Phdr → M Mmu (Unit {0})
clear_rest p m =
    if ltb p.p_filesz p.p_memsz
    then memset (u32 (p.p_vaddr + p.p_filesz)) 0 (p.p_memsz - p.p_filesz) m
    else done tt m

-- The body of the loop for a header that it does not skip.
unfoldable pub load_segment : Host → File → Elf32Phdr → M Mmu (Unit {0})
unfolding prot_of copy_from_file clear_rest
load_segment h f p = do
  paddr ← allocate_memory h p.p_vaddr p.p_memsz (prot_of p.p_flags)
  copy_from_file f paddr p.p_filesz p.p_offset
  clear_rest p

-- `p_type != PT_LOAD && p_memsz == 0`
unfoldable pub is_skipped : Elf32Phdr → Bool
is_skipped p = not (p.p_type == 1) && p.p_memsz == 0

-- The loop of LoadElf32IntoMemory.
unfoldable pub load_segments : Host → File → List Elf32Phdr → M Mmu (Unit {0})
unfolding load_segment is_skipped
load_segments h f [] m = done tt m
load_segments h f (p ∷ table) m =
    let rest = load_segments h f table in
    if is_skipped p then rest m else (load_segment h f p >> rest) m

abbrev pub loading : {A : Type 0} → M Elf32Loader A → M (Elf32Loader × Mmu) A
loading x (l, m) = elim (x l) [ done a l' ↦ done a (l', m) | stop e l' ↦ stop e (l', m) ]

abbrev pub mapping : {A : Type 0} → M Mmu A → M (Elf32Loader × Mmu) A
mapping x (l, m) = elim (x m) [ done a m' ↦ done a (l, m') | stop e m' ↦ stop e (l, m') ]

-- LoadElf32IntoMemory: the entry point.
unfoldable pub load_elf32_into_memory : Host → File → M (Elf32Loader × Mmu) ℕ
unfolding load_segments read_elf_header read_program_header_table
load_elf32_into_memory h f = do
  _ ← loading (read_elf_header f)
  table ← loading (read_program_header_table f)
  mapping (load_segments h f table)
  λ (l, m). done l.elf_header.e_entry (l, m)
