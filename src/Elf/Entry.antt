-- ===== src/Elf/Entry.antt =====
-- utils/load_elf.cpp: what LoadElf32IntoMemory returns and leaves, whatever the file holds.
use risc_v_co_simulator.Base.{
  ℕ, zero, suc, ◌^◌, ◌<◌, ◌≡◌, refl, arith, true, not, Option, none, some, List, [], ◌∷◌, All,
}
use risc_v_co_simulator.Runtime.{
  elf_load, Outcome, done, stop, M, ◌>>=◌, ◌>>◌, or_throw, modify, throw_if, pure,
}
use risc_v_co_simulator.Runtime.Binds.{bind-done}
use risc_v_co_simulator.Memory.{Mmu}
use risc_v_co_simulator.Memory.Access.{IsBytes}
use risc_v_co_simulator.Host.{Host, MapsPages, File, Holds}
use risc_v_co_simulator.Elf.{
  Elf32Ehdr, Elf32Phdr, Elf32Loader, byte_at, ehdr_of, validate_elf_header, new_loader, complete,
  read_elf_header, read_program_header_table,
}
use risc_v_co_simulator.Elf.Segment.{loading, mapping, load_segments, load_elf32_into_memory}
use risc_v_co_simulator.Elf.Bytes.{load_segments-IsBytes}

loading-done :
    {A : Type 0} (x : M Elf32Loader A) (l : Elf32Loader) (m : Mmu) (a : A) (s : Elf32Loader × Mmu)
    → loading x (l, m) ≡ done a s
    → (x l ≡ done a s.0) × (s.1 ≡ m)
loading-done {A} x l m a s e = go (x l) e
  where
    go :
        (o : Outcome Elf32Loader A)
        → (elim o [ done a l' ↦ done a (l', m) | stop e l' ↦ stop e (l', m) ]) ≡ done a s
        → (o ≡ done a s.0) × (s.1 ≡ m)
    go (done a' l') e = ground arith
    go (stop _ _) e = absurd (ground arith)

mapping-done :
    {A : Type 0} (x : M Mmu A) (l : Elf32Loader) (m : Mmu) (a : A) (s : Elf32Loader × Mmu)
    → mapping x (l, m) ≡ done a s
    → (x m ≡ done a s.1) × (s.0 ≡ l)
mapping-done {A} x l m a s e = go (x m) e
  where
    go :
        (o : Outcome Mmu A)
        → (elim o [ done a m' ↦ done a (l, m') | stop e m' ↦ stop e (l, m') ]) ≡ done a s
        → (o ≡ done a s.1) × (s.0 ≡ l)
    go (done a' m') e = ground arith
    go (stop _ _) e = absurd (ground arith)

byte_at-lt : (bs : List ℕ) (i : ℕ) → All (λ b. b < 256) bs → byte_at bs i < 256
byte_at-lt [] i h = omega arith
byte_at-lt (b ∷ bs) zero (h, hs) = h
byte_at-lt (b ∷ bs) (suc i) (h, hs) = byte_at-lt bs i hs

entry_lem : (bs : List ℕ) → All (λ b. b < 256) bs → (ehdr_of bs).e_entry < 2 ^ 32
unfolding ehdr_of
entry_lem bs h =
    omega (arith, byte_at-lt bs 24 h, byte_at-lt bs 25 h, byte_at-lt bs 26 h, byte_at-lt bs 27 h)

module _ (f : File) (content : ℕ → ℕ) (len : ℕ) (holds : Holds content len f) where
  header_lem :
      (e : Elf32Ehdr) (l : Elf32Loader)
      → read_elf_header f new_loader ≡ done e l
      → l.elf_header.e_entry < 2 ^ 32
  unfolding read_elf_header new_loader
  header_lem e l r = go (f.pread 52 0) (holds.pread_byte 52 0) r
    where
      go :
          (o : Option (List ℕ))
          → ((bs : List ℕ) → o ≡ some bs → All (λ b. b < 256) bs)
          → ((do
            bs ← or_throw elf_load (complete 52 o)
            modify (λ s. record s { elf_header = ehdr_of bs })
            throw_if (not (validate_elf_header (ehdr_of bs))) elf_load
            modify (λ s. record s { header_was_init = true })
            pure (ehdr_of bs))
              new_loader)
            ≡ done e l
          → l.elf_header.e_entry < 2 ^ 32
      go none bytes r = absurd (ground arith)
      go (some bs) bytes r = ground (arith, entry_lem bs (bytes bs refl))

  table_lem :
      (t : List Elf32Phdr) (l l' : Elf32Loader)
      → read_program_header_table f l ≡ done t l'
      → l'.elf_header ≡ l.elf_header
  unfolding read_program_header_table
  table_lem t l l' r = ground arith

  -- A load that succeeds returns a 32-bit entry point, and has come to the end of its loop.
  pub load_elf32-done :
      (h : Host) (m m' : Mmu) (l : Elf32Loader) (entry : ℕ)
      → load_elf32_into_memory h f (new_loader, m) ≡ done entry (l, m')
      → (entry < 2 ^ 32) × ((t : List Elf32Phdr) × (load_segments h f t m ≡ done tt m'))
  unfolding load_elf32_into_memory
  load_elf32-done h m m' l entry e =
      let (e1, s1, r1, k1) =
        bind-done (loading (read_elf_header f)) (λ _. after_header) (new_loader, m) (l, m') entry
          e in
      let (r1', same1) = loading-done (read_elf_header f) new_loader m e1 s1 r1 in
      let (t, s2, r2, k2) =
        bind-done (loading (read_program_header_table f)) after_table s1 (l, m') entry k1 in
      let (r2', same2) = loading-done (read_program_header_table f) s1.0 s1.1 t s2 r2 in
      let (_, s3, r3, k3) =
        bind-done (mapping (load_segments h f t)) (λ _. last) s2 (l, m') entry k2 in
      let (r3', same3) = mapping-done (load_segments h f t) s2.0 s2.1 tt s3 r3 in
      (
        ground (arith, header_lem e1 s1.0 r1', table_lem t s1.0 s2.0 r2', same3, k3),
        (t, ground (arith, same1, same2, r3', k3)),
      )
    where
      last : M (Elf32Loader × Mmu) ℕ
      last (l, m) = done l.elf_header.e_entry (l, m)

      after_table : List Elf32Phdr → M (Elf32Loader × Mmu) ℕ
      after_table t = mapping (load_segments h f t) >> last

      after_header : M (Elf32Loader × Mmu) ℕ
      after_header = loading (read_program_header_table f) >>= after_table

  -- The memory is then one of bytes, if it was before.
  pub load_elf32-IsBytes :
      (h : Host) (m m' : Mmu) (l : Elf32Loader) (entry : ℕ)
      → MapsPages h
      → load_elf32_into_memory h f (new_loader, m) ≡ done entry (l, m')
      → IsBytes m.cell
      → (entry < 2 ^ 32) × IsBytes m'.cell
  load_elf32-IsBytes h m m' l entry maps e bytes =
      let (word, (t, e')) = load_elf32-done h m m' l entry e in
      (word, load_segments-IsBytes f content len holds h maps t m m' e' bytes)
