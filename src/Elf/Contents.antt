-- ===== src/Elf/Contents.antt =====
-- utils/load_elf.cpp: what a segment's bytes are after a load that succeeds.
use risc_v_co_simulator.Base.{
  ℕ, ◌+◌, ◌-◌, ◌^◌, ◌≤◌, ◌<◌, ◌≡◌, ◌⊎◌, inl, inr, refl, sym, ap, ◌∙◌, arith, Bool, true, false,
  Option, none, some, ltb, if◌then◌else◌, u32,
}
use risc_v_co_simulator.Runtime.{Stop, Outcome, done, stop, throw_if, ◌>>◌}
use risc_v_co_simulator.Memory.{Cells, Mmu, size, align_down}
use risc_v_co_simulator.Memory.Allocate.{allocate_memory, fill, memset}
use risc_v_co_simulator.Memory.Allocated.{chunk_length, chunk_length_lem, allocate_memory-bounds}
use risc_v_co_simulator.Memory.Fill.{fill-inside, fill-outside, memset-done}
use risc_v_co_simulator.Host.{Host, MapsPages, File, Holds}
use risc_v_co_simulator.Elf.{Elf32Phdr}
use risc_v_co_simulator.Elf.Segment.{is_short, prot_of, copy_from_file, clear_rest, load_segment}

-- The headers for which the arithmetic of the loader does not wrap.
pub record IsSegment (p : Elf32Phdr) : Type 0 where
  pub file_part : p.p_filesz ≤ p.p_memsz
  pub fits : p.p_memsz + 8191 ≤ 2 ^ 32

-- A byte that no page of the segment holds.
abbrev pub Beyond : Elf32Phdr → ℕ → Type 0
Beyond p q =
    (q < align_down p.p_vaddr) ⊎ (align_down p.p_vaddr + chunk_length p.p_vaddr p.p_memsz ≤ q)

-- The bytes of the file, and zeros up to the size in memory.
pub record IsLoaded (content : ℕ → ℕ) (p : Elf32Phdr) (c : Cells) : Type 0 where
  pub from_file : (i : ℕ) → i < p.p_filesz → c (p.p_vaddr + i) ≡ some (content (p.p_offset + i))
  pub zeros : (i : ℕ) → p.p_filesz ≤ i → i < p.p_memsz → c (p.p_vaddr + i) ≡ some 0

pub copy_from_file-done :
    (f : File) (v n o : ℕ) (m m' : Mmu)
    → copy_from_file f v n o m ≡ done tt m'
    → ((f.pread_into v n o m.cell).0 ≡ some n) × (m'.cell ≡ (f.pread_into v n o m.cell).1)
unfolding copy_from_file
copy_from_file-done f v n o m m' e = go (f.pread_into v n o m.cell) e
  where
    go :
        (r : Option ℕ × Cells)
        → throw_if (is_short r.0 n) Stop.elf_load (record m { cell = r.1 }) ≡ done tt m'
        → (r.0 ≡ some n) × (m'.cell ≡ r.1)
    go (none, c) e = absurd (ground arith)
    go (some k, c) e = ground arith

clear_rest-done :
    (p : Elf32Phdr) (m m' : Mmu)
    → IsSegment p
    → p.p_vaddr + p.p_memsz ≤ size
    → clear_rest p m ≡ done tt m'
    → ((i : ℕ) → p.p_filesz ≤ i → i < p.p_memsz → m'.cell (p.p_vaddr + i) ≡ some 0)
      × ((q : ℕ)
          → (q < p.p_vaddr + p.p_filesz) ⊎ (p.p_vaddr + p.p_memsz ≤ q)
          → m'.cell q ≡ m.cell q)
unfolding clear_rest
clear_rest-done p m m' seg inside e = go (ltb p.p_filesz p.p_memsz) refl e
  where
    start : u32 (p.p_vaddr + p.p_filesz) ≡ p.p_vaddr + p.p_filesz
    start = omega (arith, seg.file_part, inside)

    go :
        (b : Bool)
        → ltb p.p_filesz p.p_memsz ≡ b
        → (if b
            then memset (u32 (p.p_vaddr + p.p_filesz)) 0 (p.p_memsz - p.p_filesz) m
            else done tt m)
          ≡ done tt m'
        → ((i : ℕ) → p.p_filesz ≤ i → i < p.p_memsz → m'.cell (p.p_vaddr + i) ≡ some 0)
          × ((q : ℕ)
              → (q < p.p_vaddr + p.p_filesz) ⊎ (p.p_vaddr + p.p_memsz ≤ q)
              → m'.cell q ≡ m.cell q)
    go true b e =
        let e' : fill (p.p_memsz - p.p_filesz) (p.p_vaddr + p.p_filesz) 0 m.cell ≡ some m'.cell =
          ap (λ v. fill (p.p_memsz - p.p_filesz) v 0 m.cell) (sym start)
          ∙ memset-done _ 0 (p.p_memsz - p.p_filesz) m m' e in
        (
          λ i lo hi.
              fill-inside _ _ _ _ _ (p.p_vaddr + i) e' (omega (arith, lo)) (omega (arith, lo, hi)),
          λ q out. fill-outside _ _ _ _ _ q e' (apart q out),
        )
      where
        apart :
            (q : ℕ)
            → (q < p.p_vaddr + p.p_filesz) ⊎ (p.p_vaddr + p.p_memsz ≤ q)
            → (q < p.p_vaddr + p.p_filesz) ⊎ (p.p_vaddr + p.p_filesz + (p.p_memsz - p.p_filesz) ≤ q)
        apart q (inl a) = inl a
        apart q (inr a) = inr (omega (arith, seg.file_part))
    go false b e = (λ i lo hi. absurd (ground (arith, lo, hi)), λ q out. ground arith)

-- A segment that has been loaded is in place, and no other page has changed.
pub load_segment-done :
    (h : Host) (f : File) (content : ℕ → ℕ) (len : ℕ) (p : Elf32Phdr) (m m' : Mmu)
    → MapsPages h
    → Holds content len f
    → IsSegment p
    → load_segment h f p m ≡ done tt m'
    → IsLoaded content p m'.cell × ((q : ℕ) → Beyond p q → m'.cell q ≡ m.cell q)
unfolding load_segment
load_segment-done h f content len p m m' maps holds seg e =
    go (allocate_memory h p.p_vaddr p.p_memsz (prot_of p.p_flags) m) refl e
  where
    apart : (q : ℕ) → Beyond p q → (q < p.p_vaddr) ⊎ (p.p_vaddr + p.p_memsz ≤ q)
    apart q (inl lo) = inl (omega (arith, lo, (chunk_length_lem p.p_vaddr p.p_memsz seg.fits).3))
    apart q (inr hi) = inr (omega (arith, hi, (chunk_length_lem p.p_vaddr p.p_memsz seg.fits).2))

    nearer :
        (q n : ℕ)
        → n ≤ p.p_memsz
        → (q < p.p_vaddr) ⊎ (p.p_vaddr + p.p_memsz ≤ q)
        → (q < p.p_vaddr) ⊎ (p.p_vaddr + n ≤ q)
    nearer q n le (inl a) = inl a
    nearer q n le (inr a) = inr (omega (arith, le, a))

    wider :
        (q : ℕ)
        → (q < p.p_vaddr) ⊎ (p.p_vaddr + p.p_memsz ≤ q)
        → (q < p.p_vaddr + p.p_filesz) ⊎ (p.p_vaddr + p.p_memsz ≤ q)
    wider q (inl a) = inl (omega (arith, a))
    wider q (inr a) = inr a

    copied :
        (m1 : Mmu) (o : Outcome Mmu (Unit {0}))
        → ((q : ℕ) → Beyond p q → m1.cell q ≡ m.cell q)
        → p.p_vaddr + p.p_memsz ≤ size
        → copy_from_file f p.p_vaddr p.p_filesz p.p_offset m1 ≡ o
        → (elim o [ done _ s ↦ clear_rest p s | stop e s ↦ stop e s ]) ≡ done tt m'
        → IsLoaded content p m'.cell × ((q : ℕ) → Beyond p q → m'.cell q ≡ m.cell q)
    copied m1 (stop _ _) other inside c e = absurd (ground arith)
    copied m1 (done _ m2) other inside c e =
        let (full, cell) = copy_from_file-done f p.p_vaddr p.p_filesz p.p_offset m1 m2 c in
        let (rest, kept) = clear_rest-done p m2 m' seg inside e in
        (
          record {
            from_file = λ i hi.
                kept (p.p_vaddr + i) (inl (omega (arith, hi)))
                ∙ ap (λ (c : Cells). c (p.p_vaddr + i)) cell
                ∙ holds.into_bytes p.p_vaddr p.p_filesz p.p_offset i m1.cell full hi;
            zeros = rest;
          },
          λ q out.
              kept q (wider q (apart q out))
              ∙ ap (λ (c : Cells). c q) cell
              ∙ holds.into_outside p.p_vaddr p.p_filesz p.p_offset q m1.cell
                  (nearer q p.p_filesz seg.file_part (apart q out))
              ∙ other q out,
        )

    go :
        (o : Outcome Mmu ℕ)
        → allocate_memory h p.p_vaddr p.p_memsz (prot_of p.p_flags) m ≡ o
        → (elim o [
          | done v s ↦ (copy_from_file f v p.p_filesz p.p_offset >> clear_rest p) s
          | stop e s ↦ stop e s
        ])
          ≡ done tt m'
        → IsLoaded content p m'.cell × ((q : ℕ) → Beyond p q → m'.cell q ≡ m.cell q)
    go (stop _ _) a e = absurd (ground arith)
    go (done v m1) a e =
        let (v_is, inside, _, other) =
          allocate_memory-bounds h p.p_vaddr p.p_memsz (prot_of p.p_flags) v m m1 maps seg.fits a in
        copied m1 (copy_from_file f p.p_vaddr p.p_filesz p.p_offset m1) other inside refl
          (ap (λ w. (copy_from_file f w p.p_filesz p.p_offset >> clear_rest p) m1) (sym v_is) ∙ e)
