-- ===== src/Elf/Image.antt =====
-- utils/load_elf.cpp: the memory after LoadElf32IntoMemory.
use risc_v_co_simulator.Base.{
  ℕ, ◌+◌, ◌≤◌, ◌<◌, ◌≡◌, ◌⊎◌, inl, inr, refl, ◌∙◌, arith, Bool, true, false, List, [], ◌∷◌, All,
  All-map, if◌then◌else◌,
}
use risc_v_co_simulator.Runtime.{Outcome, done, stop}
use risc_v_co_simulator.Memory.{Cells, Mmu, align_down}
use risc_v_co_simulator.Memory.Allocated.{chunk_length}
use risc_v_co_simulator.Host.{Host, MapsPages, File, Holds}
use risc_v_co_simulator.Elf.{Elf32Phdr}
use risc_v_co_simulator.Elf.Segment.{load_segment, is_skipped, load_segments}
use risc_v_co_simulator.Elf.Contents.{IsSegment, IsLoaded, Beyond, load_segment-done}

-- No page of `later` holds a byte of `p`.
abbrev pub ClearOf : (p later : Elf32Phdr) → Type 0
ClearOf p later =
    (p.p_vaddr + p.p_memsz ≤ align_down later.p_vaddr)
    ⊎ (align_down later.p_vaddr + chunk_length later.p_vaddr later.p_memsz ≤ p.p_vaddr)

-- Each segment is clear of the ones after it in the table.
abbrev pub AllClear : List Elf32Phdr → Type 0
AllClear [] = Unit
AllClear (p ∷ table) = All (ClearOf p) table × AllClear table

-- A header of the loop, in its cases.
pub split_lem :
    (h : Host) (f : File) (p : Elf32Phdr) (table : List Elf32Phdr) (m m' : Mmu)
    → load_segments h f (p ∷ table) m ≡ done tt m'
    → ((is_skipped p ≡ true) × (load_segments h f table m ≡ done tt m'))
      ⊎ ((m1 : Mmu) × (load_segment h f p m ≡ done tt m1)
          × (load_segments h f table m1 ≡ done tt m'))
unfolding load_segments
split_lem h f p table m m' e = go (is_skipped p) (load_segment h f p m) refl refl e
  where
    go :
        (b : Bool) (o : Outcome Mmu (Unit {0}))
        → is_skipped p ≡ b
        → load_segment h f p m ≡ o
        → (if b
            then load_segments h f table m
            else (elim o [ done _ s ↦ load_segments h f table s | stop e s ↦ stop e s ]))
          ≡ done tt m'
        → ((is_skipped p ≡ true) × (load_segments h f table m ≡ done tt m'))
          ⊎ ((m1 : Mmu) × (load_segment h f p m ≡ done tt m1)
              × (load_segments h f table m1 ≡ done tt m'))
    go true o b l e = inl (b, e)
    go false (done _ m1) b l e = inr (m1, l, e)
    go false (stop _ _) b l e = absurd (ground arith)

module _ (h : Host) (f : File) (content : ℕ → ℕ) (len : ℕ) (maps : MapsPages h)
    (holds : Holds content len f) where
  -- The loop changes no byte that is beyond every segment.
  load_segments-other :
      (table : List Elf32Phdr) (m m' : Mmu) (q : ℕ)
      → All IsSegment table
      → load_segments h f table m ≡ done tt m'
      → All (λ p. Beyond p q) table
      → m'.cell q ≡ m.cell q
  unfolding load_segments
  load_segments-other [] m m' q segs e out = ground arith
  load_segments-other (p ∷ table) m m' q (seg, segs) e (b, out) =
      elim (split_lem h f p table m m' e) [
        | inl (_, e') ↦ load_segments-other table m m' q segs e' out
        | inr (m1, l, e') ↦
            load_segments-other table m1 m' q segs e' out
            ∙ (load_segment-done h f content len p m m1 maps holds seg l).1 q b
      ]

  skipped_lem :
      (p : Elf32Phdr) (c : Cells) → IsSegment p → is_skipped p ≡ true → IsLoaded content p c
  unfolding is_skipped
  skipped_lem p c seg e = record {
    from_file = λ i hi. absurd (ground (arith, seg.file_part));
    zeros = λ i lo hi. absurd (ground arith);
  }

  -- After a loop that ends, every segment of the table is in memory.
  pub load_segments-IsLoaded :
      (table : List Elf32Phdr) (m m' : Mmu)
      → All IsSegment table
      → AllClear table
      → load_segments h f table m ≡ done tt m'
      → All (λ p. IsLoaded content p m'.cell) table
  load_segments-IsLoaded [] m m' segs clear e = tt
  load_segments-IsLoaded (p ∷ table) m m' (seg, segs) (apart, clear) e =
      elim (split_lem h f p table m m' e) [
        | inl (s, e') ↦
            (skipped_lem p m'.cell seg s, load_segments-IsLoaded table m m' segs clear e')
        | inr (m1, l, e') ↦ (
          stays p table m1 m' segs apart e'
              (load_segment-done h f content len p m m1 maps holds seg l).0 seg,
          load_segments-IsLoaded table m1 m' segs clear e',
        )
      ]
    where
      beyond :
          (p : Elf32Phdr) (i : ℕ) (later : Elf32Phdr)
          → i < p.p_memsz
          → ClearOf p later
          → Beyond later (p.p_vaddr + i)
      beyond p i later hi (inl a) = inl (omega (arith, a, hi))
      beyond p i later hi (inr a) = inr (omega (arith, a))

      stays :
          (p : Elf32Phdr) (table : List Elf32Phdr) (m1 m' : Mmu)
          → All IsSegment table
          → All (ClearOf p) table
          → load_segments h f table m1 ≡ done tt m'
          → IsLoaded content p m1.cell
          → IsSegment p
          → IsLoaded content p m'.cell
      stays p table m1 m' segs apart e ok seg = record {
        from_file = λ i hi.
            load_segments-other table m1 m' (p.p_vaddr + i) segs e
              (All-map table (λ later. beyond p i later (omega (arith, hi, seg.file_part))) apart)
            ∙ ok.from_file i hi;
        zeros = λ i lo hi.
            load_segments-other table m1 m' (p.p_vaddr + i) segs e
              (All-map table (λ later. beyond p i later hi) apart)
            ∙ ok.zeros i lo hi;
      }
