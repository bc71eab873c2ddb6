-- ===== src/Elf.antt =====
-- utils/load_elf.h and utils/load_elf.cpp: the loader of ELF files, over a file that can be read.
pub mod Segment
pub mod Contents
pub mod Bytes
pub mod Entry
pub mod Stops
pub mod Tracked
pub mod Image
pub mod Total
pub mod Loads
pub mod Starts
use risc_v_co_simulator.Base.{
  length, ℕ, zero, suc, ◌+◌, ◌*◌, ◌-◌, bit_and, bit_or, Bool, true, false, not, ◌&&◌, Option, none,
  some, List, [], ◌∷◌, ltb, ◌==◌, if◌then◌else◌, u32,
}
use risc_v_co_simulator.Runtime.{
  Stop, file_open, elf_load, Outcome, done, stop, M, ◌>>=◌, ◌>>◌, pure, throw_if, or_throw, modify,
}
use risc_v_co_simulator.Memory.{Cells, Mmu}
use risc_v_co_simulator.Memory.Allocate.{allocate_memory, memset, prot_read, prot_write, prot_exec}
use risc_v_co_simulator.Host.{Host, File}

-- The fields of <elf.h>'s structures that the loader reads.
pub record Elf32Ehdr : Type 0 where
  pub e_ident : List ℕ
  pub e_type : ℕ
  pub e_machine : ℕ
  pub e_entry : ℕ
  pub e_phoff : ℕ
  pub e_phnum : ℕ

pub record Elf32Phdr : Type 0 where
  pub p_type : ℕ
  pub p_offset : ℕ
  pub p_vaddr : ℕ
  pub p_filesz : ℕ
  pub p_memsz : ℕ
  pub p_flags : ℕ

abbrev pub byte_at : List ℕ → ℕ → ℕ
byte_at [] i = 0
byte_at (b ∷ bs) zero = b
byte_at (b ∷ bs) (suc i) = byte_at bs i

-- Little-endian members of an object representation.
abbrev half_at : List ℕ → ℕ → ℕ
half_at bs i = byte_at bs i + 256 * byte_at bs (i + 1)

abbrev word_at : List ℕ → ℕ → ℕ
word_at bs i = half_at bs i + 65536 * half_at bs (i + 2)

-- The structures that `pread` fills, sizeof(Elf32_Ehdr) == 52 and sizeof(Elf32_Phdr) == 32.
unfoldable pub ehdr_of : List ℕ → Elf32Ehdr
ehdr_of bs = record {
  e_ident = byte_at bs 0 ∷ byte_at bs 1 ∷ byte_at bs 2 ∷ byte_at bs 3 ∷ [];
  e_type = half_at bs 16;
  e_machine = half_at bs 18;
  e_entry = word_at bs 24;
  e_phoff = word_at bs 28;
  e_phnum = half_at bs 44;
}

unfoldable pub phdr_of : (start : ℕ) → List ℕ → Elf32Phdr
phdr_of start bs = record {
  p_type = word_at bs start;
  p_offset = word_at bs (start + 4);
  p_vaddr = word_at bs (start + 8);
  p_filesz = word_at bs (start + 16);
  p_memsz = word_at bs (start + 20);
  p_flags = word_at bs (start + 24);
}

unfoldable pub phdrs_of : (e_phnum start : ℕ) → List ℕ → List Elf32Phdr
unfolding phdr_of
phdrs_of zero start bs = []
phdrs_of (suc n) start bs = phdr_of start bs ∷ phdrs_of n (start + 32) bs

pub record Elf32Loader : Type 0 where
  pub elf_header : Elf32Ehdr
  pub header_was_init : Bool
  pub ph_table : List Elf32Phdr
  pub table_was_init : Bool

-- The constructor's members. It throws FileOpenException when `open` failed, here no file.
unfoldable pub new_loader : Elf32Loader
unfolding ehdr_of
new_loader = record {
  elf_header = ehdr_of [];
  header_was_init = false;
  ph_table = [];
  table_was_init = false;
}

-- ValidateElfHeader: the four bytes of the magic number, ET_EXEC and EM_RISCV.
unfoldable pub validate_elf_header : Elf32Ehdr → Bool
validate_elf_header e =
    byte_at e.e_ident 0 == 0x7f
    && byte_at e.e_ident 1 == b'E'
    && byte_at e.e_ident 2 == b'L'
    && byte_at e.e_ident 3 == b'F'
    && e.e_type == 2
    && e.e_machine == 243

-- The bytes of a read that is complete.
abbrev pub complete : (count : ℕ) → Option (List ℕ) → Option (List ℕ)
complete count none = none
complete count (some bs) = if length bs == count then some bs else none

-- ReadElfHeader. A short read leaves the header as it was; no code reads it after one.
unfoldable pub read_elf_header : File → M Elf32Loader Elf32Ehdr
unfolding ehdr_of validate_elf_header
read_elf_header f l =
    if l.header_was_init
    then done l.elf_header l
    else (do
      bs ← or_throw elf_load (complete 52 (f.pread 52 0))
      modify (λ s. record s { elf_header = ehdr_of bs })
      throw_if (not (validate_elf_header (ehdr_of bs))) elf_load
      modify (λ s. record s { header_was_init = true })
      pure (ehdr_of bs))
        l

-- ReadProgramHeaderTable
unfoldable pub read_program_header_table : File → M Elf32Loader (List Elf32Phdr)
unfolding phdrs_of
read_program_header_table f l =
    if l.table_was_init
    then done l.ph_table l
    else (do
      bs ← or_throw elf_load (
          complete (32 * l.elf_header.e_phnum)
            (f.pread (32 * l.elf_header.e_phnum) l.elf_header.e_phoff))
      modify
          (λ s. record s { ph_table = phdrs_of l.elf_header.e_phnum 0 bs; table_was_init = true })
      pure (phdrs_of l.elf_header.e_phnum 0 bs))
        l
