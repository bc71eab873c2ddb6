-- ===== src/Elf/Stops.antt =====
-- utils/load_elf.cpp: the exceptions and faults with which a load can stop.
use mathlib.Core.Path.{subst}
use risc_v_co_simulator.Base.{
  ℕ, ◌+◌, ◌*◌, ◌-◌, ◌≡◌, refl, arith, Bool, true, false, not, List, [], ◌∷◌, ltb, if◌then◌else◌,
  u32,
}
use risc_v_co_simulator.Runtime.{
  Stop, elf_load, Outcome, done, stop, M, ◌>>=◌, ◌>>◌, or_throw, modify, throw_if, pure,
}
use risc_v_co_simulator.Runtime.Binds.{StopsIn, bind-StopsIn}
use risc_v_co_simulator.Memory.{Mmu}
use risc_v_co_simulator.Memory.Allocate.{memset}
use risc_v_co_simulator.Memory.Stops.{
  IsLoadStop, throw_if-StopsIn, or_throw-StopsIn, done-StopsIn, modify-StopsIn,
  allocate_memory-StopsIn, memset-StopsIn,
}
use risc_v_co_simulator.Host.{Host, File}
use risc_v_co_simulator.Elf.{
  Elf32Ehdr, Elf32Phdr, Elf32Loader, complete, read_elf_header, read_program_header_table, ehdr_of,
  phdrs_of, validate_elf_header,
}
use risc_v_co_simulator.Elf.Segment.{
  copy_from_file, clear_rest, load_segment, is_skipped, load_segments, loading, mapping,
  load_elf32_into_memory,
}

copy_from_file-StopsIn : (f : File) (v n o : ℕ) → StopsIn IsLoadStop (copy_from_file f v n o)
unfolding copy_from_file
copy_from_file-StopsIn f v n o m m' e r = throw_if-StopsIn _ elf_load tt _ m' e r

clear_rest-StopsIn : (p : Elf32Phdr) → StopsIn IsLoadStop (clear_rest p)
unfolding clear_rest
clear_rest-StopsIn p m m' e r = go (ltb p.p_filesz p.p_memsz) r
  where
    go :
        (b : Bool)
        → (if b
            then memset (u32 (p.p_vaddr + p.p_filesz)) 0 (p.p_memsz - p.p_filesz) m
            else done tt m)
          ≡ stop e m'
        → IsLoadStop e
    go true r = memset-StopsIn _ _ _ m m' e r
    go false r = absurd (ground arith)

load_segment-StopsIn :
    (h : Host) (f : File) (p : Elf32Phdr) → StopsIn IsLoadStop (load_segment h f p)
unfolding load_segment
load_segment-StopsIn h f p =
    bind-StopsIn IsLoadStop _ _ (allocate_memory-StopsIn h _ _ _) (λ v.
      bind-StopsIn IsLoadStop _ _ (copy_from_file-StopsIn f v _ _) (λ _. clear_rest-StopsIn p))

load_segments-StopsIn :
    (h : Host) (f : File) (table : List Elf32Phdr) → StopsIn IsLoadStop (load_segments h f table)
unfolding load_segments
load_segments-StopsIn h f [] m m' e r = absurd (ground arith)
load_segments-StopsIn h f (p ∷ table) m m' e r =
    go (is_skipped p) (load_segments-StopsIn h f table) r
  where
    go :
        (b : Bool)
        → StopsIn IsLoadStop (load_segments h f table)
        → (if b
            then load_segments h f table m
            else (load_segment h f p >> load_segments h f table) m)
          ≡ stop e m'
        → IsLoadStop e
    go true ih r = ih m m' e r
    go false ih r =
        bind-StopsIn IsLoadStop (load_segment h f p) (λ _. load_segments h f table)
          (load_segment-StopsIn h f p) (λ _. ih) m m' e r

loading-StopsIn :
    {A : Type 0} (x : M Elf32Loader A) → StopsIn IsLoadStop x → StopsIn IsLoadStop (loading x)
loading-StopsIn {A} x ok (l, m) s' e r = go (x l) (λ l' e'. ok l l' e') r
  where
    go :
        (o : Outcome Elf32Loader A)
        → ((l' : Elf32Loader) (e' : Stop) → o ≡ stop e' l' → IsLoadStop e')
        → (elim o [ done a l' ↦ done a (l', m) | stop e l' ↦ stop e (l', m) ]) ≡ stop e s'
        → IsLoadStop e
    go (done a l') h r = absurd (ground arith)
    go (stop a l') h r = subst IsLoadStop (ground arith) (h l' a refl)

mapping-StopsIn : {A : Type 0} (x : M Mmu A) → StopsIn IsLoadStop x → StopsIn IsLoadStop (mapping x)
mapping-StopsIn {A} x ok (l, m) s' e r = go (x m) (λ m' e'. ok m m' e') r
  where
    go :
        (o : Outcome Mmu A)
        → ((m' : Mmu) (e' : Stop) → o ≡ stop e' m' → IsLoadStop e')
        → (elim o [ done a m' ↦ done a (l, m') | stop e m' ↦ stop e (l, m') ]) ≡ stop e s'
        → IsLoadStop e
    go (done a m') h r = absurd (ground arith)
    go (stop a m') h r = subst IsLoadStop (ground arith) (h m' a refl)

validated-StopsIn :
    (bs : List ℕ)
    → StopsIn IsLoadStop (do
      modify (λ (s : Elf32Loader). record s { elf_header = ehdr_of bs })
      throw_if (not (validate_elf_header (ehdr_of bs))) elf_load
      modify (λ s. record s { header_was_init = true })
      pure (ehdr_of bs))
validated-StopsIn bs =
    bind-StopsIn IsLoadStop _ _ (modify-StopsIn (λ s. record s { elf_header = ehdr_of bs })) (λ _.
      bind-StopsIn IsLoadStop _ _
        (throw_if-StopsIn (not (validate_elf_header (ehdr_of bs))) elf_load tt)
        (λ _.
          bind-StopsIn IsLoadStop _ _ (modify-StopsIn (λ s. record s { header_was_init = true }))
            (λ _. done-StopsIn (λ s. s) (ehdr_of bs))))

read_elf_header-StopsIn : (f : File) → StopsIn IsLoadStop (read_elf_header f)
unfolding read_elf_header
read_elf_header-StopsIn f l l' e r = go l.header_was_init r
  where
    read : M Elf32Loader Elf32Ehdr
    read = do
      bs ← or_throw elf_load (complete 52 (f.pread 52 0))
      modify (λ s. record s { elf_header = ehdr_of bs })
      throw_if (not (validate_elf_header (ehdr_of bs))) elf_load
      modify (λ s. record s { header_was_init = true })
      pure (ehdr_of bs)

    read_ok : StopsIn IsLoadStop read
    read_ok =
        bind-StopsIn IsLoadStop _ _ (or_throw-StopsIn (complete 52 (f.pread 52 0)) elf_load tt)
          validated-StopsIn

    go : (b : Bool) → (if b then done l.elf_header l else read l) ≡ stop e l' → IsLoadStop e
    go true r = absurd (ground arith)
    go false r = read_ok l l' e r

read_table-StopsIn : (f : File) → StopsIn IsLoadStop (read_program_header_table f)
unfolding read_program_header_table
read_table-StopsIn f l l' e r = go l.table_was_init r
  where
    n : ℕ
    n = l.elf_header.e_phnum

    read : M Elf32Loader (List Elf32Phdr)
    read = do
      bs ← or_throw elf_load (complete (32 * n) (f.pread (32 * n) l.elf_header.e_phoff))
      modify (λ s. record s { ph_table = phdrs_of n 0 bs; table_was_init = true })
      pure (phdrs_of n 0 bs)

    read_ok : StopsIn IsLoadStop read
    read_ok = bind-StopsIn IsLoadStop _ _ (or_throw-StopsIn _ elf_load tt) (λ bs.
        bind-StopsIn IsLoadStop _ _
          (done-StopsIn (λ s. record s { ph_table = phdrs_of n 0 bs; table_was_init = true }) tt)
          (λ _. done-StopsIn (λ s. s) (phdrs_of n 0 bs)))

    go : (b : Bool) → (if b then done l.ph_table l else read l) ≡ stop e l' → IsLoadStop e
    go true r = absurd (ground arith)
    go false r = read_ok l l' e r

pub load_elf32-StopsIn : (h : Host) (f : File) → StopsIn IsLoadStop (load_elf32_into_memory h f)
unfolding load_elf32_into_memory
load_elf32-StopsIn h f =
    bind-StopsIn IsLoadStop _ _ (loading-StopsIn _ (read_elf_header-StopsIn f)) (λ _.
      bind-StopsIn IsLoadStop _ _ (loading-StopsIn _ (read_table-StopsIn f)) (λ t.
        bind-StopsIn IsLoadStop _ _ (mapping-StopsIn _ (load_segments-StopsIn h f t))
          (λ _. λ s s' e r. absurd (ground arith))))
