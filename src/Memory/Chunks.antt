-- ===== src/Memory/Chunks.antt =====
-- models/shared/mmu_fixed_offset.h: what `allocated_chunks_` keeps of the mapped memory.
use risc_v_co_simulator.Base.{
  ℕ, zero, suc, ◌+◌, ◌%◌, ◌<◌, ◌≡◌, refl, arith, Bool, true, false, ◌&&◌, ◌||◌, Option, none, some,
  List, [], ◌∷◌, ◌++◌, ltb, leb,
}
use risc_v_co_simulator.Runtime.{Stop, done, stop}
use risc_v_co_simulator.Memory.{Cells, Mmu}
use risc_v_co_simulator.Memory.Allocate.{map_chunk, kept, unmap_chunks, free_memory}
use risc_v_co_simulator.Host.{Host, MapsPages, Grants, mapped}

-- Some chunk holds `q`.
unfoldable pub covered : ℕ → List (ℕ × ℕ) → Bool
covered q [] = false
covered q ((v, n) ∷ chunks) = (leb v q && ltb q (v + n)) || covered q chunks

-- Every chunk is a positive number of whole pages.
abbrev pub WholePages : List (ℕ × ℕ) → Type 0
WholePages [] = Unit
WholePages ((v, n) ∷ chunks) = (v % 4096 ≡ 0) × (n % 4096 ≡ 0) × (0 < n) × WholePages chunks

-- The chunks are whole pages and hold every byte that is mapped.
pub record IsTracked (m : Mmu) : Type 0 where
  pub whole : WholePages m.allocated_chunks
  pub tracked : (q : ℕ) → mapped (m.cell q) ≡ true → covered q m.allocated_chunks ≡ true

pub covered-append :
    (q v n : ℕ) (chunks : List (ℕ × ℕ))
    → covered q (chunks ++ ((v, n) ∷ [])) ≡ covered q chunks || (leb v q && ltb q (v + n))
unfolding covered
covered-append q v n [] = ground arith
covered-append q v n ((v', n') ∷ chunks) = ground (arith, covered-append q v n chunks)

WholePages-append :
    (v n : ℕ) (chunks : List (ℕ × ℕ))
    → WholePages chunks
    → v % 4096 ≡ 0
    → n % 4096 ≡ 0
    → 0 < n
    → WholePages (chunks ++ ((v, n) ∷ []))
WholePages-append v n [] whole hv hn pos = (hv, hn, pos, tt)
WholePages-append v n (_ ∷ chunks) (a, b, c, whole) hv hn pos =
    (a, b, c, WholePages-append v n chunks whole hv hn pos)

-- What a chunk's mapping does when it succeeds.
pub map_chunk-done :
    (h : Host) (prot v n : ℕ) (m m' : Mmu)
    → map_chunk h prot v n m ≡ done tt m'
    → (h.mmap prot v n m.cell ≡ some m'.cell)
      × (m'.allocated_chunks ≡ m.allocated_chunks ++ ((v, n) ∷ []))
unfolding map_chunk
map_chunk-done h prot v n m m' e = go (h.mmap prot v n m.cell) e
  where
    go :
        (o : Option Cells)
        → (elim o [
          | none ↦ stop Stop.allocation m
          | some c ↦
              done tt
                (record m { cell = c; allocated_chunks = m.allocated_chunks ++ ((v, n) ∷ []) })
        ])
          ≡ done tt m'
        → (o ≡ some m'.cell) × (m'.allocated_chunks ≡ m.allocated_chunks ++ ((v, n) ∷ []))
    go none e = absurd (ground arith)
    go (some c) e = ground arith

-- A new chunk of whole pages is tracked with the ones before it.
pub map_chunk-IsTracked :
    (h : Host) (prot v n : ℕ) (m m' : Mmu)
    → MapsPages h
    → map_chunk h prot v n m ≡ done tt m'
    → v % 4096 ≡ 0
    → n % 4096 ≡ 0
    → IsTracked m
    → IsTracked m'
map_chunk-IsTracked h prot v n m m' maps e hv hn ok =
    let (e', list) = map_chunk-done h prot v n m m' e in
    record {
      whole = rw list (WholePages-append v n m.allocated_chunks ok.whole hv hn (positive n e'));
      tracked = λ q live. rw list (rw (covered-append q v n m.allocated_chunks) (inside e' q live));
    }
  where
    positive : (k : ℕ) → h.mmap prot v k m.cell ≡ some m'.cell → 0 < k
    positive zero e' = absurd (ground (arith, maps.mmap_empty prot v m.cell))
    positive (suc k) e' = omega arith

    inside :
        h.mmap prot v n m.cell ≡ some m'.cell
        → (q : ℕ) → mapped (m'.cell q) ≡ true
        → covered q m.allocated_chunks || (leb v q && ltb q (v + n)) ≡ true
    inside e' q live =
        ground (arith, ok.tracked q, maps.mmap_outside prot v n m.cell m'.cell q e' hn)

-- Unmapping chunks of whole pages maps nothing and leaves none of their bytes.
unmap_chunks-none :
    (h : Host) (chunks : List (ℕ × ℕ)) (c : Cells) (q : ℕ)
    → MapsPages h
    → Grants h
    → WholePages chunks
    → (mapped (c q) ≡ true → covered q chunks ≡ true)
    → unmap_chunks h chunks c q ≡ none
unfolding unmap_chunks covered
unmap_chunks-none h [] c q maps grants whole held = go (c q) held
  where
    go : (o : Option ℕ) → (mapped o ≡ true → false ≡ true) → o ≡ none
    go none k = refl
    go (some b) k = absurd (ground (arith, k refl))
unmap_chunks-none h ((v, n) ∷ chunks) c q maps grants (hv, hn, pos, whole) held =
    go (λ c'. unmap_chunks-none h chunks c' q maps grants whole) (h.munmap v n c) refl
  where
    held' : (c' : Cells) → h.munmap v n c ≡ some c' → mapped (c' q) ≡ true → covered q chunks ≡ true
    held' c' e live =
        ground (arith, held, maps.munmap_none v n c c' q e, maps.munmap_outside v n c c' q e hn)

    go :
        ((c' : Cells)
          → (mapped (c' q) ≡ true → covered q chunks ≡ true)
          → unmap_chunks h chunks c' q ≡ none)
        → (o : Option Cells) → h.munmap v n c ≡ o
        → unmap_chunks h chunks (kept c o) q ≡ none
    go ih none e = absurd (grants.munmap_some v n c hv hn pos e)
    go ih (some c') e = ih c' (held' c' e)

-- On a host that unmaps whole pages when asked to, FreeMemory leaves no byte mapped of a memory
-- whose mapped bytes are all in its chunks.
pub free_memory-none :
    (h : Host) (m : Mmu) (q : ℕ)
    → MapsPages h
    → Grants h
    → IsTracked m
    → (free_memory h m).cell q ≡ none
unfolding free_memory
free_memory-none h m q maps grants ok =
    unmap_chunks-none h m.allocated_chunks m.cell q maps grants ok.whole (ok.tracked q)
