-- ===== src/Elf/Loads.antt =====
-- utils/load_elf.cpp: LoadElf32IntoMemory on the content of a file.
use risc_v_co_simulator.Base.{
  ℕ, zero, suc, ◌+◌, ◌*◌, ◌≤◌, ◌≡◌, refl, ap, arith, true, false, some, List, All, length, [], ◌∷◌,
  ◌==◌, ◌&&◌, not, if◌then◌else◌, Bool-cases, inl, inr, All-map, ◌∙◌, Bool, ==_refl,
}
use risc_v_co_simulator.Runtime.{Outcome, elf_load, done, stop}
use risc_v_co_simulator.Memory.{Mmu}
use risc_v_co_simulator.Host.{Host, MapsPages, Grants, File, Holds, slice}
use risc_v_co_simulator.Elf.{
  Elf32Ehdr, Elf32Phdr, Elf32Loader, ehdr_of, phdrs_of, validate_elf_header, new_loader, complete,
  read_elf_header, read_program_header_table,
}
use risc_v_co_simulator.Elf.Segment.{
  is_skipped, load_segment, load_segments, load_elf32_into_memory,
}
use risc_v_co_simulator.Elf.Contents.{IsSegment, IsLoaded}
use risc_v_co_simulator.Elf.Image.{AllClear, load_segments-IsLoaded}
use risc_v_co_simulator.Elf.Total.{IsLoadable, load_segments-some}

-- The headers that a file holds.
unfoldable pub header_of : (content : ℕ → ℕ) → Elf32Ehdr
header_of content = ehdr_of (slice content 52 0)

unfoldable pub table_of : (content : ℕ → ℕ) → List Elf32Phdr
table_of content =
    phdrs_of (header_of content).e_phnum 0
      (slice content (32 * (header_of content).e_phnum) (header_of content).e_phoff)

-- The magic number, ET_EXEC and EM_RISCV, in the bytes of the file.
pub record IsExecutable (content : ℕ → ℕ) : Type 0 where
  pub magic0 : content 0 ≡ 0x7f
  pub magic1 : content 1 ≡ 69
  pub magic2 : content 2 ≡ 76
  pub magic3 : content 3 ≡ 70
  pub executable : content 16 + 256 * content 17 ≡ 2
  pub riscv : content 18 + 256 * content 19 ≡ 243

IsExecutable-valid :
    (content : ℕ → ℕ) → IsExecutable content → validate_elf_header (header_of content) ≡ true
unfolding validate_elf_header header_of ehdr_of
IsExecutable-valid content e =
    ground (arith, e.magic0, e.magic1, e.magic2, e.magic3, e.executable, e.riscv)

valid-IsExecutable :
    (content : ℕ → ℕ) → validate_elf_header (header_of content) ≡ true → IsExecutable content
unfolding validate_elf_header header_of ehdr_of
valid-IsExecutable content e = record {
  magic0 = ground arith;
  magic1 = ground arith;
  magic2 = ground arith;
  magic3 = ground arith;
  executable = ground arith;
  riscv = ground arith;
}

-- The segments of a table: what has a size in memory or is PT_LOAD. The file part of any other
-- header does not matter.
unfoldable pub segments : List Elf32Phdr → List Elf32Phdr
segments [] = []
segments (p ∷ table) =
    let rest = segments table in if p.p_memsz == 0 && not (p.p_type == 1) then rest else p ∷ rest

skipped_lem : (p : Elf32Phdr) → is_skipped p ≡ p.p_memsz == 0 && not (p.p_type == 1)
unfolding is_skipped
skipped_lem p = go (p.p_type == 1) (p.p_memsz == 0)
  where
    go : (a b : Bool) → not a && b ≡ b && not a
    go true true = refl
    go true false = refl
    go false true = refl
    go false false = refl

segments_lem :
    (h : Host) (f : File) (table : List Elf32Phdr) (m : Mmu)
    → load_segments h f table m ≡ load_segments h f (segments table) m
unfolding segments load_segments
segments_lem h f [] m = refl
segments_lem h f (p ∷ table) m =
    go (λ s. segments_lem h f table s) (is_skipped p) refl
    ∙ ap (λ b. load_segments h f (if b then segments table else p ∷ segments table) m)
        (skipped_lem p)
  where
    after :
        ((s : Mmu) → load_segments h f table s ≡ load_segments h f (segments table) s)
        → (o : Outcome Mmu (Unit {0}))
        → (elim o as (λ _. Outcome Mmu (Unit {0})) [
          | done _ s ↦ load_segments h f table s
          | stop e s ↦ stop e s
        ])
          ≡ (elim o as (λ _. Outcome Mmu (Unit {0})) [
            | done _ s ↦ load_segments h f (segments table) s
            | stop e s ↦ stop e s
          ])
    after same (done _ s) = same s
    after same (stop e s) = refl

    go :
        ((s : Mmu) → load_segments h f table s ≡ load_segments h f (segments table) s)
        → (b : Bool) → is_skipped p ≡ b
        → load_segments h f (p ∷ table) m
          ≡ load_segments h f (if b then segments table else p ∷ segments table) m
    go same true e = rw e (same m)
    go same false e = rw e (after same (load_segment h f p m))

-- The loader that has read them.
abbrev pub loader_of : (content : ℕ → ℕ) → Elf32Loader
loader_of content = record {
  elf_header = header_of content;
  header_was_init = true;
  ph_table = table_of content;
  table_was_init = true;
}

length-slice : (content : ℕ → ℕ) (n o : ℕ) → length (slice content n o) ≡ n
length-slice content zero o = refl
length-slice content (suc n) o = ap suc (length-slice content n (o + 1))

module _ (f : File) (content : ℕ → ℕ) (len : ℕ) (holds : Holds content len f) where
  complete_lem :
      (n o : ℕ) → n ≤ 0x7ffff000 → o + n ≤ len → complete n (f.pread n o) ≡ some (slice content n o)
  complete_lem n o short inside =
      rw (holds.pread_bytes n o short inside) (rw (length-slice content n o) (rw (==_refl n) refl))

  few : 32 * (header_of content).e_phnum ≤ 0x7ffff000
  unfolding header_of ehdr_of
  few = omega (arith, holds.content_byte 44, holds.content_byte 45)

  header_lem :
      52 ≤ len
      → validate_elf_header (header_of content) ≡ true
      → read_elf_header f new_loader
        ≡ done
            (header_of content)
            (record new_loader { elf_header = header_of content; header_was_init = true })
  unfolding read_elf_header new_loader header_of
  header_lem inside valid = rw (complete_lem 52 0 (omega arith) inside) (rw valid refl)

  invalid_lem :
      52 ≤ len
      → validate_elf_header (header_of content) ≡ false
      → read_elf_header f new_loader
        ≡ stop elf_load (record new_loader { elf_header = header_of content })
  unfolding read_elf_header new_loader header_of
  invalid_lem inside invalid = rw (complete_lem 52 0 (omega arith) inside) (rw invalid refl)

  table_lem :
      (header_of content).e_phoff + 32 * (header_of content).e_phnum ≤ len
      → read_program_header_table f
          (record new_loader { elf_header = header_of content; header_was_init = true })
        ≡ done (table_of content) (loader_of content)
  unfolding read_program_header_table new_loader table_of
  table_lem inside =
      rw (complete_lem (32 * (header_of content).e_phnum) (header_of content).e_phoff few inside)
        refl

  -- A file with a valid header, whole in its headers: what is left is the loop over its segments.
  load_lem :
      (h : Host) (m m' : Mmu)
      → 52 ≤ len
      → validate_elf_header (header_of content) ≡ true
      → (header_of content).e_phoff + 32 * (header_of content).e_phnum ≤ len
      → load_segments h f (table_of content) m ≡ done tt m'
      → load_elf32_into_memory h f (new_loader, m)
        ≡ done (header_of content).e_entry (loader_of content, m')
  unfolding load_elf32_into_memory
  load_lem h m m' whole valid inside e = ground (arith, header_lem whole valid, table_lem inside, e)

-- On a host with memory to spare, a file with the magic number of ELF, ET_EXEC and EM_RISCV
-- (`IsExecutable`) loads, if its headers lie inside it and each of its segments, the headers that
-- are PT_LOAD or have a size in memory (`segments`), can be loaded (`IsLoadable`) and is clear of
-- the later ones: the load returns the entry point, and every segment is then in memory, its bytes
-- from the file followed by zeros.
pub load_elf32-IsLoaded :
    (h : Host) (f : File) (content : ℕ → ℕ) (len : ℕ) (m : Mmu)
    → MapsPages h
    → Grants h
    → Holds content len f
    → 52 ≤ len
    → IsExecutable content
    → (header_of content).e_phoff + 32 * (header_of content).e_phnum ≤ len
    → All (IsLoadable len) (segments (table_of content))
    → AllClear (segments (table_of content))
    → (m' : Mmu) × (load_elf32_into_memory h f (new_loader, m)
        ≡ done (header_of content).e_entry (loader_of content, m'))
      × All (λ p. IsLoaded content p m'.cell) (segments (table_of content))
load_elf32-IsLoaded h f content len m maps grants holds whole valid inside ok clear =
    let parts = segments (table_of content) in
    let (m', e) =
      load_segments-some h f content len maps grants holds parts m
        (All-map parts (λ p q. inr q) ok) in
    (
      m',
      load_lem f content len holds h m m' whole (IsExecutable-valid content valid) inside
          (segments_lem h f (table_of content) m ∙ e),
      load_segments-IsLoaded h f content len maps holds parts m m'
          (All-map parts loadable-IsSegment ok) clear e,
    )
  where
    loadable-IsSegment : (p : Elf32Phdr) → IsLoadable len p → IsSegment p
    loadable-IsSegment p q = record { file_part = q.file_part; fits = q.fits }

-- A file of at least 52 bytes which does not have the magic number of ELF, ET_EXEC and EM_RISCV in
-- their bytes (`IsExecutable`) is refused with ElfLoadException, before any memory is allocated.
pub load_elf32-elf_load :
    (h : Host) (f : File) (content : ℕ → ℕ) (len : ℕ) (m : Mmu)
    → Holds content len f
    → 52 ≤ len
    → ¬ (IsExecutable content)
    → load_elf32_into_memory h f (new_loader, m)
      ≡ stop elf_load (record new_loader { elf_header = header_of content }, m)
unfolding load_elf32_into_memory
load_elf32-elf_load h f content len m holds whole other =
    elim (Bool-cases (validate_elf_header (header_of content))) [
      | inl e ↦ absurd (other (valid-IsExecutable content e))
      | inr e ↦ refused e
    ]
  where
    refused :
        validate_elf_header (header_of content) ≡ false
        → load_elf32_into_memory h f (new_loader, m)
          ≡ stop elf_load (record new_loader { elf_header = header_of content }, m)
    refused e = ground (arith, invalid_lem f content len holds whole e)
